-- ===== src/Text/Word/Names.antt =====
-- src/text/word.rs: `split_params` and the helpers on names.
use php_lsp.Prelude.{
  ℕ, ◌+◌, Option, none, some, Bool, true, ◌&&◌, ◌||◌, List, [], ◌∷◌, ◌++◌, leb, ◌==◌, any, length,
  take, if◌then◌else◌,
}
use php_lsp.Prelude.Chars.{Text, byte_len}
use php_lsp.Prelude.Strs.{trim, trim_start_by, is_empty, eq_ignore_ascii_case}

abbrev pub opens : ℕ → Bool
opens c = c == b'(' || c == b'[' || c == b'{'

abbrev pub closes : ℕ → Bool
closes c = c == b')' || c == b']' || c == b'}'

abbrev pub count_if : Bool → ℕ → ℕ
count_if b n = if b then n + 1 else n

-- The loop over the characters: the brackets opened and closed so far, whose difference is `depth`,
-- and the part from `start` on.
unfoldable pub split_from : ℕ → ℕ → Text → Text → List Text
split_from opened closed part [] = if is_empty (trim part) then [] else trim part ∷ []
split_from opened closed part (c ∷ s) =
    let cut = c == b',' && opened == closed in
    let rest =
      split_from (count_if (opens c) opened) (count_if (closes c) closed)
        (if cut then [] else part ++ (c ∷ [])) s in
    if cut then trim part ∷ rest else rest

unfoldable pub split_params : Text → List Text
unfolding split_from
split_params s = split_from 0 0 [] s

unfoldable pub strip_variable_sigil : Text → Text
strip_variable_sigil [] = []
strip_variable_sigil (c ∷ s) = if c == b'$' then s else c ∷ s

unfoldable pub qualify_name : Text → Text → Text
qualify_name ns name = if is_empty ns then name else ns ++ (b'\\' ∷ name)

abbrev pub declared_fqcn : Option Text → Text → Text
declared_fqcn none declared = declared
declared_fqcn (some ns) declared = if is_empty ns then declared else ns ++ (b'\\' ∷ declared)

unfoldable pub class_matches_declaration : Text → Text → Option Text → Bool
unfolding trim_start_by eq_ignore_ascii_case
class_matches_declaration target declared namespace =
    let name = trim_start_by (λ c. c == b'\\') target in
    if any (λ c. c == b'\\') name
    then eq_ignore_ascii_case name (declared_fqcn namespace declared)
    else eq_ignore_ascii_case name declared

-- Whether a text begins with another one, up to the case of ASCII letters.
unfoldable pub begins_ignoring_case : Text → Text → Bool
unfolding eq_ignore_ascii_case
begins_ignoring_case needle haystack = eq_ignore_ascii_case (take (length needle) haystack) needle

-- `windows(n.len()).any(..)`. A window of the source is one of bytes; one that begins inside a
-- character, whose bytes match no first byte, is left out.
unfoldable pub some_window : Text → Text → Bool
unfolding begins_ignoring_case
some_window needle [] = begins_ignoring_case needle []
some_window needle (c ∷ s) = begins_ignoring_case needle (c ∷ s) || some_window needle s

unfoldable pub contains_ascii_case_insensitive : Text → Text → Bool
unfolding some_window
contains_ascii_case_insensitive haystack needle =
    if is_empty needle
    then true
    else leb (byte_len needle) (byte_len haystack) && some_window needle haystack
