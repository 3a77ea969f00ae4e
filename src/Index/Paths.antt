-- ===== src/Index/Paths.antt =====
-- src/index/mod.rs: path patterns over `/`-separated segments. A `str` is its list of characters;
-- `path[i..]` and `path[..end]`, which the source tries for every index, are the suffixes and the
-- prefixes of the list of segments.
pub mod Beneath
pub mod Pruning
use php_lsp.Prelude.{
  ℕ, Option, none, some, Bool, true, false, ◌&&◌, ◌||◌, List, [], ◌∷◌, any, ◌==◌, reverse,
  if◌then◌else◌,
}
use php_lsp.Prelude.Strs.{text_eq}
use php_lsp.Prelude.Chars.{Text, codes}
use php_lsp.Index.Glob.{star, segment_matches}
use php_lsp.Index.Glob.Reference.{any_suffix}

abbrev pub slash : ℕ
slash = b'/'

-- `split('/')`
abbrev pub cons_head : ℕ → List Text → List Text
cons_head c [] = (c ∷ []) ∷ []
cons_head c (s ∷ rest) = (c ∷ s) ∷ rest

abbrev pub split_slash : Text → List Text
split_slash [] = [] ∷ []
split_slash (c ∷ s) =
    let parts = split_slash s in if c == slash then [] ∷ parts else cons_head c parts

abbrev pub is_empty : Text → Bool
is_empty [] = true
is_empty (c ∷ s) = false

-- `filter(|s| !s.is_empty())`
abbrev pub non_empty : List Text → List Text
non_empty [] = []
non_empty (s ∷ l) = let rest = non_empty l in if is_empty s then rest else s ∷ rest

unfoldable pub path_segments : Text → List Text
path_segments path = non_empty (split_slash path)

-- `pat.trim_start_matches("./")`
trim_dot_slash : Text → Text
trim_dot_slash [] = []
trim_dot_slash (c ∷ []) = c ∷ []
trim_dot_slash (c ∷ d ∷ s) = if c == b'.' && d == slash then trim_dot_slash s else c ∷ d ∷ s

-- The `while let` that takes `/**` or `/` off the end, on the reversed pattern.
strip_reversed : Text → Text
strip_reversed [] = []
strip_reversed (c ∷ []) = if c == slash then [] else c ∷ []
strip_reversed (c ∷ d ∷ []) = if c == slash then strip_reversed (d ∷ []) else c ∷ d ∷ []
strip_reversed (c ∷ d ∷ e ∷ s) =
    let deep = strip_reversed s in
    let flat = strip_reversed (d ∷ e ∷ s) in
    if c == star && d == star && e == slash
    then deep
    else if c == slash
    then flat
    else c ∷ d ∷ e ∷ s

unfoldable pub pattern_segments : Text → Option (List Text)
unfolding trim_dot_slash strip_reversed
pattern_segments pat =
    elim (non_empty (split_slash (reverse (strip_reversed (reverse (trim_dot_slash pat)))))) [
      | [] ↦ none
      | s ∷ segs ↦ some (s ∷ segs)
    ]

abbrev pub double_star : Text
double_star = star ∷ star ∷ []

-- One segment of the pattern against the first segment of the path.
abbrev pub head_then : Text → (List Text → Bool) → List Text → Bool
head_then seg rest [] = false
head_then seg rest (name ∷ tail) = segment_matches seg name && rest tail

unfoldable pub segments_match : List Text → List Text → Bool
segments_match [] [] = true
segments_match [] (name ∷ path) = false
segments_match (seg ∷ rest) path =
    let matches_rest = segments_match rest in
    if text_eq seg double_star
    then any_suffix matches_rest path
    else head_then seg matches_rest path

-- Some part of the list, from its start to a place, passes the test.
abbrev pub any_prefix : (List Text → Bool) → List Text → Bool
any_prefix q [] = q []
any_prefix q (x ∷ xs) = q [] || any_prefix (λ t. q (x ∷ t)) xs

unfoldable pub matches_from_start : List Text → List Text → Bool
unfolding segments_match
matches_from_start pat path = any_prefix (segments_match pat) path

unfoldable pub matches_at_any_depth : List Text → List Text → Bool
unfolding matches_from_start
matches_at_any_depth pat [] = false
matches_at_any_depth pat (name ∷ path) =
    matches_from_start pat (name ∷ path) || matches_at_any_depth pat path

-- `l.strip_suffix(".php")`
strip_php_reversed : Text → Option Text
strip_php_reversed s = elim s [
  | p ∷ h ∷ q ∷ dot ∷ stem ↦
      if p == b'p' && h == b'h' && q == b'p' && dot == b'.' then some (reverse stem) else none
  | _ ↦ none
]

-- The segments with the last one replaced by its stem, if it is a `.php` file.
stem_segments : List Text → Option (List Text)
unfolding strip_php_reversed
stem_segments [] = none
stem_segments (l ∷ []) = elim (strip_php_reversed (reverse l)) [
  | none ↦ none
  | some stem ↦ some (stem ∷ [])
]
stem_segments (s ∷ t ∷ l) = elim (stem_segments (t ∷ l)) [
  | none ↦ none
  | some segs ↦ some (s ∷ segs)
]

-- `filter_map(pattern_segments).any(…)`
abbrev pub any_pattern : (List Text → Bool) → List Text → Bool
any_pattern test [] = false
any_pattern test (p ∷ patterns) = elim (pattern_segments p) [
  | none ↦ any_pattern test patterns
  | some pat ↦ test pat || any_pattern test patterns
]

abbrev pub is_some_and {ℓ} : {A : Type ℓ} → Option A → (A → Bool) → Bool
is_some_and none test = false
is_some_and (some a) test = test a

unfoldable pub matches_any : Text → List Text → Bool
unfolding path_segments matches_at_any_depth stem_segments
matches_any path patterns =
    let segs = path_segments path in
    let stem_segs = stem_segments segs in
    any_pattern
      (λ pat.
        matches_at_any_depth pat segs || is_some_and stem_segs (λ s. matches_at_any_depth pat s))
      patterns

unfoldable pub matches_include_prefix : Text → List Text → Bool
unfolding path_segments matches_from_start
matches_include_prefix rel_path patterns =
    any_pattern (λ pat. matches_from_start pat (path_segments rel_path)) patterns

unfoldable pub could_extend_to_match : List Text → List Text → Bool
could_extend_to_match pat [] = true
could_extend_to_match [] (name ∷ tail) = false
could_extend_to_match (seg ∷ rest) (name ∷ tail) =
    text_eq seg double_star || (segment_matches seg name && could_extend_to_match rest tail)

unfoldable pub has_included_children : Text → List Text → Bool
unfolding path_segments could_extend_to_match
has_included_children rel_path patterns =
    any_pattern (λ pat. could_extend_to_match pat (path_segments rel_path)) patterns
