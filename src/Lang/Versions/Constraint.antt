-- ===== src/Lang/Versions/Constraint.antt =====
-- src/lang/autoload.rs: versions in composer.json, a full version or a constraint.
pub mod Range
use php_lsp.Prelude.{
  ℕ, ◌-◌, Option, none, some, Bool, true, false, ◌&&◌, ◌||◌, not, List, [], ◌∷◌, ◌++◌, ltb, ◌==◌,
  if◌then◌else◌, all, reverse, length, take,
}
use php_lsp.Prelude.Chars.{Text, codes}
use php_lsp.Prelude.Map.{is_some}
use php_lsp.Prelude.Strs.{
  text_eq, is_empty, starts_with, trim, trim_start_by, trim_end_by, split_by, cons_part,
  split_whitespace, parse_u32, decimal,
}
use php_lsp.Lang.Versions.{pair_ltb, pair_leb, version_pair, supported_php_versions}

-- `major.minor`
abbrev pub dotted : Text → Text → Text
dotted major minor = major ++ (b'.' ∷ minor)

abbrev pub first_two : List Text → Option Text
unfolding parse_u32
first_two [] = none
first_two (major ∷ []) = none
first_two (major ∷ minor ∷ parts) =
    if is_some (parse_u32 (trim major)) && is_some (parse_u32 (trim minor))
    then some (dotted (trim major) (trim minor))
    else none

unfoldable pub extract_major_minor : Text → Option Text
unfolding first_two split_by
extract_major_minor version = first_two (split_by (λ c. c == b'.') version)

-- `match p.trim_end_matches('*') { "" => Some(0), p => p.parse().ok() }`
abbrev pub number_or_star : Text → Option ℕ
unfolding parse_u32 trim_end_by
number_or_star p =
    if is_empty (trim_end_by (λ c. c == b'*') p)
    then some 0
    else parse_u32 (trim_end_by (λ c. c == b'*') p)

-- `rest.next().unwrap_or(Some(0))?`
abbrev pub next_number : List Text → Option ℕ
unfolding number_or_star
next_number [] = some 0
next_number (p ∷ parts) = number_or_star p

abbrev pub behind : List Text → List Text
behind [] = []
behind (p ∷ parts) = parts

abbrev pub triple : Option ℕ → Option ℕ → Option ℕ → Option (ℕ × ℕ × ℕ)
triple none min patch = none
triple (some maj) none patch = none
triple (some maj) (some min) none = none
triple (some maj) (some min) (some patch) = some (maj, min, patch)

abbrev pub triple_of : List Text → Option (ℕ × ℕ × ℕ)
unfolding parse_u32 next_number
triple_of [] = none
triple_of (maj ∷ rest) = triple (parse_u32 maj) (next_number rest) (next_number (behind rest))

unfoldable pub parse_version_triple : Text → Option (ℕ × ℕ × ℕ)
unfolding triple_of split_by
parse_version_triple version = triple_of (split_by (λ c. c == b'.') version)

-- Major and minor number with their text.
abbrev pub Version : Type 0
Version = ℕ × ℕ × Text

unfoldable pub parse_constraint_version : Text → Option Version
unfolding parse_version_triple decimal
parse_constraint_version version = elim (parse_version_triple version) [
  | none ↦ none
  | some (maj, min, patch) ↦ some (maj, min, dotted (decimal maj) (decimal min))
]

pub data UpperBound : Type 0 where
  inclusive : ℕ → ℕ → UpperBound
  exclusive : ℕ → ℕ → ℕ → UpperBound

-- The bounds that a clause has set so far.
pub record Bounds : Type 0 where
  pub lower : Option Version
  pub upper : Option UpperBound

abbrev pub is_op : ℕ → Bool
is_op c = c == b'<' || c == b'>' || c == b'=' || c == b'!' || c == b'^' || c == b'~'

-- Operators written with a space before the version are joined with it: `cur` is the last token.
unfoldable pub rejoin_from : Text → List Text → List Text
rejoin_from cur [] = cur ∷ []
rejoin_from cur (tok ∷ toks) =
    let joined = rejoin_from (cur ++ tok) toks in
    let pushed = cur ∷ rejoin_from tok toks in
    if not (is_empty cur) && all is_op cur then joined else pushed

abbrev pub rejoin : List Text → List Text
rejoin [] = []
rejoin (tok ∷ toks) = rejoin_from tok toks

abbrev pub comma_to_space : Text → Text
comma_to_space [] = []
comma_to_space (c ∷ s) = (if c == b',' then 32 else c) ∷ comma_to_space s

abbrev pub clause_tokens : Text → List Text
unfolding split_by rejoin_from
clause_tokens clause = rejoin (split_whitespace (comma_to_space clause))

abbrev pub or_lower : Option Version → Option Version → Option Version
or_lower none version = version
or_lower (some lower) version = some lower

abbrev pub with_exclusive : Bounds → Option (ℕ × ℕ × ℕ) → Option Bounds
with_exclusive b none = none
with_exclusive b (some (maj, min, patch)) =
    some (record b { upper = some (exclusive maj min patch) })

abbrev pub with_inclusive : Bounds → Option (ℕ × ℕ × ℕ) → Option Bounds
with_inclusive b none = none
with_inclusive b (some (maj, min, patch)) = some (record b { upper = some (inclusive maj min) })

-- One token, an operator and a version; `none` is the early return.
unfoldable pub bound_by : Bounds → Text → Text → Option Bounds
unfolding parse_version_triple parse_constraint_version text_eq
bound_by b op version =
    if text_eq op (codes "!=")
    then some b
    else if text_eq op (codes "<")
    then with_exclusive b (parse_version_triple version)
    else if text_eq op (codes "<=")
    then with_inclusive b (parse_version_triple version)
    else some (record b { lower = or_lower b.lower (parse_constraint_version version) })

abbrev pub version_part : Text → Text
unfolding trim_start_by
version_part tok = trim_start_by is_op tok

unfoldable pub bounds_from : Bounds → List Text → Option Bounds
unfolding bound_by version_part
bounds_from b [] = some b
bounds_from b (tok ∷ toks) =
    elim (bound_by b (take (length tok - length (version_part tok)) tok) (version_part tok)) [
      | none ↦ none
      | some b' ↦ bounds_from b' toks
    ]

abbrev pub no_bounds : Bounds
no_bounds = record { lower = none; upper = none }

abbrev pub range_bounds : Text → Text → Option Bounds
unfolding parse_constraint_version
range_bounds from to = elim (parse_constraint_version to) [
  | none ↦ none
  | some (maj, min, text) ↦
      some record { lower = parse_constraint_version from; upper = some (inclusive maj min) }
]

-- `from - to`, or any other list of tokens
unfoldable pub clause_bounds : List Text → Option Bounds
unfolding bounds_from range_bounds text_eq
clause_bounds (from ∷ dash ∷ to ∷ []) =
    if text_eq dash (codes "-")
    then range_bounds from to
    else bounds_from no_bounds (from ∷ dash ∷ to ∷ [])
clause_bounds toks = bounds_from no_bounds toks

abbrev pub triple_ltb : ℕ × ℕ × ℕ → ℕ × ℕ × ℕ → Bool
triple_ltb (a, b, c) (d, e, f) = ltb a d || (a == d && (ltb b e || (b == e && ltb c f)))

abbrev pub below_upper : UpperBound → ℕ × ℕ → Bool
below_upper (inclusive umaj umin) (maj, min) = pair_leb (maj, min) (umaj, umin)
below_upper (exclusive umaj umin upatch) (maj, min) = triple_ltb (maj, min, 0) (umaj, umin, upatch)

abbrev pub version_if : Bool → Text → ℕ × ℕ → Option Version
version_if true v (maj, min) = some (maj, min, v)
version_if false v pair = none

-- The test of one supported version.
abbrev pub in_bounds : UpperBound → ℕ × ℕ → Text → Option Version
unfolding version_pair
in_bounds upper floor v = elim (version_pair v) [
  | none ↦ none
  | some pair ↦ version_if (below_upper upper pair && pair_leb floor pair) v pair
]

-- `iter().find_map`
abbrev pub find_map : (Text → Option Version) → List Text → Option Version
find_map f [] = none
find_map f (v ∷ l) = elim (f v) [ none ↦ find_map f l | some version ↦ some version ]

unfoldable pub highest_in : UpperBound → ℕ × ℕ → Option Version
unfolding in_bounds
highest_in upper floor = find_map (in_bounds upper floor) (reverse supported_php_versions)

abbrev pub floor_of : Option Version → ℕ × ℕ
floor_of none = (0, 0)
floor_of (some (maj, min, text)) = (maj, min)

abbrev pub or_version : Option Version → Option Version → Option Version
or_version none v = v
or_version (some version) v = some version

unfoldable pub version_within : Bounds → Option Version
unfolding highest_in
version_within b = elim b.upper [
  | none ↦ b.lower
  | some upper ↦ or_version (highest_in upper (floor_of b.lower)) b.lower
]

unfoldable pub parse_php_constraint_clause : Text → Option Version
unfolding clause_tokens clause_bounds version_within
parse_php_constraint_clause clause = elim (clause_bounds (clause_tokens clause)) [
  | none ↦ none
  | some b ↦ version_within b
]

-- `split("||")`: the flag says that the second bar of a separator is still to be passed.
unfoldable pub split_bars : Bool → Text → List Text
unfolding starts_with
split_bars skip [] = [] ∷ []
split_bars skip (c ∷ s) =
    let cut = split_bars true s in
    let more = split_bars false s in
    if skip
    then more
    else if c == b'|' && starts_with (codes "|") s
    then [] ∷ cut
    else cons_part c more

-- `max_by_key`: of the greatest ones the last.
abbrev pub later_max : Version → Option Version → Version
later_max v none = v
later_max (a, b, s) (some (c, d, t)) = if pair_ltb (c, d) (a, b) then (a, b, s) else (c, d, t)

unfoldable pub max_version : List Text → Option Version
unfolding parse_php_constraint_clause
max_version [] = none
max_version (clause ∷ clauses) =
    let rest = max_version clauses in
    elim (parse_php_constraint_clause clause) [ none ↦ rest | some v ↦ some (later_max v rest) ]

abbrev pub version_text : Option Version → Option Text
version_text none = none
version_text (some (maj, min, text)) = some text

unfoldable pub parse_php_version_constraint : Text → Option Text
unfolding max_version split_bars
parse_php_version_constraint constraint = version_text (max_version (split_bars false constraint))
