-- ===== src/Lang/Builtins/Tests.antt =====
-- src/lang/php_names.rs: names that the table holds and names that it does not.
use php_lsp.Prelude.{◌≡◌, refl, true, false}
use php_lsp.Prelude.Chars.{codes}
use php_lsp.Prelude.Strs.{text_eq}
use php_lsp.Lang.Builtins.{builtins, is_php_builtin, php_doc_url}
use php_lsp.Lang.Builtins.Search.{is_in, is_php_builtin-is_in}

finds_builtin : is_php_builtin (codes "strlen") ≡ true
unfolding is_php_builtin text_eq
finds_builtin = refl

misses_other : is_php_builtin (codes "strlenn") ≡ false
unfolding is_php_builtin text_eq
misses_other = refl

doc_url : php_doc_url (codes "array_map") ≡ codes "https://www.php.net/function.array-map"
unfolding php_doc_url
doc_url = refl

is_php_builtin-is_in_example : is_php_builtin (codes "usort") ≡ is_in (codes "usort") builtins
is_php_builtin-is_in_example = is_php_builtin-is_in (codes "usort")
