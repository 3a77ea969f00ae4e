-- ===== src/Prelude/Strs.antt =====
-- The operations of `str` that the source uses, on texts as lists of characters. A `str` that is a
-- part of another one is its own list; a place that `find` gives is a number of characters.
use php_lsp.Prelude.Tests.{ltb, leb, ◌==◌, if◌then◌else◌, Eq}
use php_lsp.Prelude.Chars.{Text, slice_from, slice_to}
use Prim.Native.Nat.{ℕ, zero, suc, ◌+◌, ◌-◌, ◌*◌, ◌/◌, ◌%◌, ◌^◌}
use mathlib.Core.Path.{◌≡◌}
use mathlib.Core.Logic.{◌↔◌}
use mathlib.Core.Bool.{Bool, true, false, ◌&&◌, ◌||◌}
use mathlib.Core.List.{List, [], ◌∷◌, ◌++◌}
use mathlib.Core.Option.{Option, none, some}
use native.Mathlib.Omega.{arith}

-- `==`
unfoldable pub text_eq : Text → Text → Bool
text_eq [] [] = true
text_eq [] (d ∷ t) = false
text_eq (c ∷ s) [] = false
text_eq (c ∷ s) (d ∷ t) = c == d && text_eq s t

-- `<`: the order of UTF-8 bytes, which is the order of characters
abbrev pub text_ltb : Text → Text → Bool
text_ltb s [] = false
text_ltb [] (d ∷ t) = true
text_ltb (c ∷ s) (d ∷ t) = ltb c d || (c == d && text_ltb s t)

-- `char::is_whitespace`: the Unicode property White_Space.
unfoldable pub is_whitespace : ℕ → Bool
is_whitespace c =
    (leb 9 c && leb c 13)
    || c == 32
    || c == 0x85
    || c == 0xA0
    || c == 0x1680
    || (leb 0x2000 c && leb c 0x200A)
    || c == 0x2028
    || c == 0x2029
    || c == 0x202F
    || c == 0x205F
    || c == 0x3000

abbrev pub is_ascii_digit : ℕ → Bool
is_ascii_digit c = leb b'0' c && leb c b'9'

abbrev pub is_ascii_upper : ℕ → Bool
is_ascii_upper c = leb b'A' c && leb c b'Z'

abbrev pub is_ascii_lower : ℕ → Bool
is_ascii_lower c = leb b'a' c && leb c b'z'

abbrev pub is_ascii_alphabetic : ℕ → Bool
is_ascii_alphabetic c = is_ascii_upper c || is_ascii_lower c

abbrev pub is_ascii_alphanumeric : ℕ → Bool
is_ascii_alphanumeric c = is_ascii_alphabetic c || is_ascii_digit c

abbrev pub to_ascii_lowercase : ℕ → ℕ
to_ascii_lowercase c = if is_ascii_upper c then c + 32 else c

abbrev pub to_ascii_uppercase : ℕ → ℕ
to_ascii_uppercase c = if is_ascii_lower c then c - 32 else c

unfoldable pub eq_ignore_ascii_case : Text → Text → Bool
eq_ignore_ascii_case [] [] = true
eq_ignore_ascii_case [] (d ∷ t) = false
eq_ignore_ascii_case (c ∷ s) [] = false
eq_ignore_ascii_case (c ∷ s) (d ∷ t) =
    to_ascii_lowercase c == to_ascii_lowercase d && eq_ignore_ascii_case s t

abbrev pub is_empty : Text → Bool
is_empty [] = true
is_empty (c ∷ s) = false

unfoldable pub strip_prefix : Text → Text → Option Text
strip_prefix [] s = some s
strip_prefix (c ∷ p) [] = none
strip_prefix (c ∷ p) (d ∷ s) = let rest = strip_prefix p s in if c == d then rest else none

unfoldable pub starts_with : Text → Text → Bool
starts_with [] s = true
starts_with (c ∷ p) [] = false
starts_with (c ∷ p) (d ∷ s) = c == d && starts_with p s

-- `contains(p)`
unfoldable pub contains_text : Text → Text → Bool
unfolding starts_with
contains_text p [] = starts_with p []
contains_text p (c ∷ s) = starts_with p (c ∷ s) || contains_text p s

-- `trim_start_matches` and its kin, by a test on characters
unfoldable pub trim_start_by : (ℕ → Bool) → Text → Text
trim_start_by test [] = []
trim_start_by test (c ∷ s) = let rest = trim_start_by test s in if test c then rest else c ∷ s

unfoldable pub trim_end_by : (ℕ → Bool) → Text → Text
trim_end_by test [] = []
trim_end_by test (c ∷ s) = elim (trim_end_by test s) [
  | [] ↦ if test c then [] else c ∷ []
  | d ∷ rest ↦ c ∷ d ∷ rest
]

abbrev pub trim_start : Text → Text
trim_start s = trim_start_by is_whitespace s

abbrev pub trim_end : Text → Text
trim_end s = trim_end_by is_whitespace s

abbrev pub trim : Text → Text
trim s = trim_end (trim_start s)

-- `split` at each character of a kind
abbrev pub cons_part : ℕ → List Text → List Text
cons_part c [] = (c ∷ []) ∷ []
cons_part c (s ∷ rest) = (c ∷ s) ∷ rest

unfoldable pub split_by : (ℕ → Bool) → Text → List Text
split_by test [] = [] ∷ []
split_by test (c ∷ s) =
    let parts = split_by test s in if test c then [] ∷ parts else cons_part c parts

-- `split_whitespace`
abbrev pub non_empty_parts : List Text → List Text
non_empty_parts [] = []
non_empty_parts (s ∷ l) = let rest = non_empty_parts l in if is_empty s then rest else s ∷ rest

abbrev pub split_whitespace : Text → List Text
split_whitespace s = non_empty_parts (split_by is_whitespace s)

-- `join(" ")`
abbrev pub join_words : List Text → Text
join_words [] = []
join_words (w ∷ []) = w
join_words (w ∷ v ∷ ws) = w ++ (32 ∷ join_words (v ∷ ws))

-- One line of `lines`, without the `\r` before its `\n`.
abbrev pub strip_return : Text → Text
strip_return [] = []
strip_return (c ∷ []) = if c == 13 then [] else c ∷ []
strip_return (c ∷ d ∷ s) = c ∷ strip_return (d ∷ s)

-- `lines`: the parts between newlines, but none behind the last newline. The rest behind the last
-- newline keeps a `\r`.
abbrev pub as_lines : List Text → List Text
as_lines [] = []
as_lines (s ∷ []) = if is_empty s then [] else s ∷ []
as_lines (s ∷ t ∷ l) = strip_return s ∷ as_lines (t ∷ l)

abbrev pub lines : Text → List Text
lines s = as_lines (split_by (λ c. c == 10) s)

-- The characters before the first one of a kind, and the rest from it on.
unfoldable pub span_to : (ℕ → Bool) → Text → Text × Text
span_to test [] = ([], [])
span_to test (c ∷ s) =
    let (before, rest) = span_to test s in if test c then ([], c ∷ s) else (c ∷ before, rest)

-- `&s[start..stop]`
unfoldable pub slice : Text → ℕ → ℕ → Option Text
slice s start stop = elim (slice_from s start) [
  | none ↦ none
  | some rest ↦ if leb start stop then slice_to rest (stop - start) else none
]

-- `split_once` at a text: what is before its first place and what is behind it
unfoldable pub split_once : Text → Text → Option (Text × Text)
unfolding strip_prefix
split_once p [] = elim (strip_prefix p []) [ none ↦ none | some rest ↦ some ([], rest) ]
split_once p (c ∷ s) = elim (strip_prefix p (c ∷ s)) [
  | some rest ↦ some ([], rest)
  | none ↦ elim (split_once p s) [ none ↦ none | some (before, rest) ↦ some (c ∷ before, rest) ]
]

-- `rsplit(c).next()`: what is behind the last place of a character
abbrev pub after_last_from : ℕ → Text → Text → Text
after_last_from c tail [] = tail
after_last_from c tail (d ∷ s) = after_last_from c (if c == d then s else tail) s

abbrev pub after_last : ℕ → Text → Text
after_last c s = after_last_from c s s

pub text_eq_iff : (s t : Text) → (text_eq s t ≡ true) ↔ (s ≡ t)
unfolding text_eq
text_eq_iff [] [] = ground arith
text_eq_iff [] (d ∷ t) = ground arith
text_eq_iff (c ∷ s) [] = ground arith
text_eq_iff (c ∷ s) (d ∷ t) = ground (arith, text_eq_iff s t)

instance abbrev pub text_key : Eq Text
text_key = record { beq = text_eq; beq_iff = text_eq_iff }

-- `str::parse::<u32>`: a sign, which must be `+`, and at least one digit
digits_from : Text → ℕ → Option ℕ
digits_from [] n = some n
digits_from (c ∷ s) n =
    let rest = digits_from s (n * 10 + (c - b'0')) in
    if is_ascii_digit c && ltb (n * 10 + (c - b'0')) (2 ^ 32) then rest else none

abbrev pub strip_plus : Text → Text
strip_plus [] = []
strip_plus (c ∷ s) = if c == b'+' then s else c ∷ s

unfoldable pub parse_u32 : Text → Option ℕ
unfolding digits_from
parse_u32 s = if is_empty (strip_plus s) then none else digits_from (strip_plus s) 0

-- `to_string` of a `u32`, which has at most ten digits
decimal_of : ℕ → ℕ → Text
decimal_of zero n = []
decimal_of (suc k) n = elim (n / 10 == 0) [
  | true ↦ (b'0' + n % 10) ∷ []
  | false ↦ decimal_of k (n / 10) ++ ((b'0' + n % 10) ∷ [])
]

unfoldable pub decimal : ℕ → Text
unfolding decimal_of
decimal n = decimal_of 10 n
