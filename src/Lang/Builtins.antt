-- ===== src/Lang/Builtins.antt =====
-- src/lang/php_names.rs: the table of built-in functions and its search, and links to php.net.
pub mod Search
mod Tests
use php_lsp.Prelude.{
  ℕ, zero, suc, ◌-◌, ◌/◌, Bool, true, false, List, [], ◌∷◌, ◌++◌, leb, ◌==◌, if◌then◌else◌, length,
  take, drop,
}
use php_lsp.Prelude.Chars.{Text, codes}
use php_lsp.Prelude.Strs.{text_eq, text_ltb}

abbrev pub builtins : List Text
builtins =
    codes "abs"
    ∷ codes "acos"
    ∷ codes "addslashes"
    ∷ codes "array_chunk"
    ∷ codes "array_combine"
    ∷ codes "array_diff"
    ∷ codes "array_fill"
    ∷ codes "array_fill_keys"
    ∷ codes "array_filter"
    ∷ codes "array_flip"
    ∷ codes "array_intersect"
    ∷ codes "array_key_exists"
    ∷ codes "array_keys"
    ∷ codes "array_map"
    ∷ codes "array_merge"
    ∷ codes "array_pad"
    ∷ codes "array_pop"
    ∷ codes "array_push"
    ∷ codes "array_reduce"
    ∷ codes "array_replace"
    ∷ codes "array_reverse"
    ∷ codes "array_search"
    ∷ codes "array_shift"
    ∷ codes "array_slice"
    ∷ codes "array_splice"
    ∷ codes "array_unique"
    ∷ codes "array_unshift"
    ∷ codes "array_values"
    ∷ codes "array_walk"
    ∷ codes "array_walk_recursive"
    ∷ codes "arsort"
    ∷ codes "asin"
    ∷ codes "asort"
    ∷ codes "atan"
    ∷ codes "atan2"
    ∷ codes "base64_decode"
    ∷ codes "base64_encode"
    ∷ codes "basename"
    ∷ codes "boolval"
    ∷ codes "call_user_func"
    ∷ codes "call_user_func_array"
    ∷ codes "ceil"
    ∷ codes "checkdate"
    ∷ codes "class_exists"
    ∷ codes "closedir"
    ∷ codes "compact"
    ∷ codes "constant"
    ∷ codes "copy"
    ∷ codes "cos"
    ∷ codes "date"
    ∷ codes "date_add"
    ∷ codes "date_create"
    ∷ codes "date_diff"
    ∷ codes "date_format"
    ∷ codes "date_sub"
    ∷ codes "define"
    ∷ codes "defined"
    ∷ codes "die"
    ∷ codes "dirname"
    ∷ codes "empty"
    ∷ codes "exit"
    ∷ codes "exp"
    ∷ codes "explode"
    ∷ codes "extract"
    ∷ codes "fclose"
    ∷ codes "feof"
    ∷ codes "fgets"
    ∷ codes "file_exists"
    ∷ codes "file_get_contents"
    ∷ codes "file_put_contents"
    ∷ codes "floatval"
    ∷ codes "floor"
    ∷ codes "fmod"
    ∷ codes "fopen"
    ∷ codes "fputs"
    ∷ codes "fread"
    ∷ codes "fseek"
    ∷ codes "ftell"
    ∷ codes "function_exists"
    ∷ codes "get_class"
    ∷ codes "get_parent_class"
    ∷ codes "gettype"
    ∷ codes "glob"
    ∷ codes "hash"
    ∷ codes "header"
    ∷ codes "headers_sent"
    ∷ codes "htmlentities"
    ∷ codes "htmlspecialchars"
    ∷ codes "http_build_query"
    ∷ codes "implode"
    ∷ codes "in_array"
    ∷ codes "intdiv"
    ∷ codes "interface_exists"
    ∷ codes "intval"
    ∷ codes "is_a"
    ∷ codes "is_array"
    ∷ codes "is_bool"
    ∷ codes "is_callable"
    ∷ codes "is_dir"
    ∷ codes "is_double"
    ∷ codes "is_file"
    ∷ codes "is_finite"
    ∷ codes "is_float"
    ∷ codes "is_infinite"
    ∷ codes "is_int"
    ∷ codes "is_integer"
    ∷ codes "is_long"
    ∷ codes "is_nan"
    ∷ codes "is_null"
    ∷ codes "is_numeric"
    ∷ codes "is_object"
    ∷ codes "is_readable"
    ∷ codes "is_string"
    ∷ codes "is_subclass_of"
    ∷ codes "is_writable"
    ∷ codes "isset"
    ∷ codes "join"
    ∷ codes "json_decode"
    ∷ codes "json_encode"
    ∷ codes "krsort"
    ∷ codes "ksort"
    ∷ codes "lcfirst"
    ∷ codes "list"
    ∷ codes "log"
    ∷ codes "ltrim"
    ∷ codes "max"
    ∷ codes "md5"
    ∷ codes "method_exists"
    ∷ codes "microtime"
    ∷ codes "min"
    ∷ codes "mkdir"
    ∷ codes "mktime"
    ∷ codes "mt_rand"
    ∷ codes "nl2br"
    ∷ codes "number_format"
    ∷ codes "ob_end_clean"
    ∷ codes "ob_get_clean"
    ∷ codes "ob_start"
    ∷ codes "opendir"
    ∷ codes "parse_str"
    ∷ codes "parse_url"
    ∷ codes "pathinfo"
    ∷ codes "pi"
    ∷ codes "pow"
    ∷ codes "preg_match"
    ∷ codes "preg_match_all"
    ∷ codes "preg_quote"
    ∷ codes "preg_replace"
    ∷ codes "preg_split"
    ∷ codes "print_r"
    ∷ codes "printf"
    ∷ codes "property_exists"
    ∷ codes "rand"
    ∷ codes "random_int"
    ∷ codes "rawurldecode"
    ∷ codes "rawurlencode"
    ∷ codes "readdir"
    ∷ codes "realpath"
    ∷ codes "rename"
    ∷ codes "rewind"
    ∷ codes "rmdir"
    ∷ codes "round"
    ∷ codes "rsort"
    ∷ codes "rtrim"
    ∷ codes "scandir"
    ∷ codes "serialize"
    ∷ codes "session_destroy"
    ∷ codes "session_start"
    ∷ codes "setcookie"
    ∷ codes "settype"
    ∷ codes "sha1"
    ∷ codes "sin"
    ∷ codes "sleep"
    ∷ codes "sort"
    ∷ codes "sprintf"
    ∷ codes "sqrt"
    ∷ codes "str_contains"
    ∷ codes "str_ends_with"
    ∷ codes "str_pad"
    ∷ codes "str_repeat"
    ∷ codes "str_replace"
    ∷ codes "str_split"
    ∷ codes "str_starts_with"
    ∷ codes "str_word_count"
    ∷ codes "strcasecmp"
    ∷ codes "strcmp"
    ∷ codes "strip_tags"
    ∷ codes "stripslashes"
    ∷ codes "stristr"
    ∷ codes "strlen"
    ∷ codes "strncasecmp"
    ∷ codes "strncmp"
    ∷ codes "strpos"
    ∷ codes "strrpos"
    ∷ codes "strstr"
    ∷ codes "strtolower"
    ∷ codes "strtotime"
    ∷ codes "strtoupper"
    ∷ codes "strval"
    ∷ codes "substr"
    ∷ codes "substr_count"
    ∷ codes "substr_replace"
    ∷ codes "tan"
    ∷ codes "time"
    ∷ codes "trim"
    ∷ codes "uasort"
    ∷ codes "ucfirst"
    ∷ codes "ucwords"
    ∷ codes "uksort"
    ∷ codes "unlink"
    ∷ codes "unserialize"
    ∷ codes "unset"
    ∷ codes "urldecode"
    ∷ codes "urlencode"
    ∷ codes "usleep"
    ∷ codes "usort"
    ∷ codes "var_dump"
    ∷ codes "var_export"
    ∷ codes "vsprintf"
    ∷ []

-- `cmp(name) == Greater`, at the entry that stands first
abbrev pub is_greater : Text → List Text → Bool
is_greater name [] = false
is_greater name (entry ∷ rest) = text_ltb name entry

abbrev pub is_first : Text → List Text → Bool
is_first name [] = false
is_first name (entry ∷ rest) = text_eq entry name

-- `binary_search(…).is_ok()`, with the part of the table that is left and its size. The fuel is at
-- least the size, which falls in each round.
unfoldable pub search_loop : ℕ → ℕ → List Text → Text → Bool
search_loop zero size part name = is_first name part
search_loop (suc fuel) size part name =
    let half = size / 2 in
    let lower = search_loop fuel (size - half) (take (size - half) part) name in
    let upper = search_loop fuel (size - half) (drop half part) name in
    if leb size 1
    then is_first name part
    else if is_greater name (drop half part)
    then lower
    else upper

unfoldable pub binary_search : List Text → Text → Bool
unfolding search_loop
binary_search table name = search_loop (length table) (length table) table name

unfoldable pub is_php_builtin : Text → Bool
unfolding binary_search
is_php_builtin name = binary_search builtins name

-- `name.replace('_', "-")`
abbrev pub dashes : Text → Text
dashes [] = []
dashes (c ∷ s) = (if c == b'_' then b'-' else c) ∷ dashes s

unfoldable pub php_doc_url : Text → Text
php_doc_url name = codes "https://www.php.net/function." ++ dashes name
