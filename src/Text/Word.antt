-- ===== src/Text/Word.antt =====
-- src/text/word.rs: the word under the cursor, parameter lists and names. Whether a character is
-- alphanumeric or white space, by the standard library's Unicode tables, is an argument. Indices into the characters of a
-- line are lengths of its prefixes: a cursor cuts the line into the reversed text before it and the
-- text behind it.
pub mod Bounds
pub mod Selection
pub mod Names
mod Tests
use php_lsp.Prelude.{
  ℕ, zero, suc, ◌+◌, ◌-◌, Option, none, some, Bool, true, false, ◌&&◌, ◌||◌, not, List, [], ◌∷◌,
  ◌++◌, ltb, ◌==◌, if◌then◌else◌, length, take, drop, reverse,
}
use php_lsp.Prelude.Chars.{Text, units}
use php_lsp.Text.Offset.{newline, Position, Range, u32, utf16_col_to_char_index}

-- `source.split('\n')`
abbrev pub cons_line : ℕ → List Text → List Text
cons_line c [] = (c ∷ []) ∷ []
cons_line c (s ∷ rest) = (c ∷ s) ∷ rest

abbrev pub split_lines : Text → List Text
split_lines [] = [] ∷ []
split_lines (c ∷ s) =
    let lines = split_lines s in if c == newline then [] ∷ lines else cons_line c lines

abbrev pub nth_line : List Text → ℕ → Option Text
nth_line [] n = none
nth_line (l ∷ lines) zero = some l
nth_line (l ∷ lines) (suc n) = nth_line lines n

-- `raw.strip_suffix('\r').unwrap_or(raw)`
abbrev pub strip_return : Text → Text
strip_return [] = []
strip_return (c ∷ []) = if c == 13 then [] else c ∷ []
strip_return (c ∷ d ∷ s) = c ∷ strip_return (d ∷ s)

-- How many characters from the start satisfy the test.
abbrev pub run_length : (ℕ → Bool) → Text → ℕ
run_length test [] = 0
run_length test (c ∷ s) = let rest = suc (run_length test s) in if test c then rest else 0

-- `if word.is_empty() { None } else { Some(word) }`
abbrev pub if_any : Text → Option Text
if_any [] = none
if_any (c ∷ s) = some (c ∷ s)

-- `chars[left..right]`
abbrev pub slice_of : Text → ℕ × ℕ → Text
slice_of line range = take (range.1 - range.0) (drop range.0 line)

abbrev pub range_on : Text → ℕ → ℕ × ℕ → Range
range_on line_text line range = record {
  start = record { line = line; character = u32 (units (take range.0 line_text)) };
  stop = record { line = line; character = u32 (units (take range.1 line_text)) };
}

module _ (is_alphanumeric : ℕ → Bool) where
  abbrev pub is_word : ℕ → Bool
  is_word c = is_alphanumeric c || c == b'_' || c == b'$' || c == b'\\'

  unfoldable pub char_range_for_word : Text → ℕ → Option (ℕ × ℕ)
  char_range_for_word line char_offset =
      let char_pos = utf16_col_to_char_index line char_offset in
      let left = char_pos - run_length is_word (reverse (take char_pos line)) in
      let right = char_pos + run_length is_word (drop char_pos line) in
      if ltb (units line) char_offset
      then none
      else if left == right
      then none
      else some (left, right)

  unfoldable pub word_at_position : Text → Position → Option Text
  unfolding char_range_for_word
  word_at_position source position = elim (nth_line (split_lines source) position.line) [
    | none ↦ none
    | some raw ↦ elim (char_range_for_word (strip_return raw) position.character) [
      | none ↦ none
      | some range ↦ if_any (slice_of (strip_return raw) range)
    ]
  ]

  unfoldable pub word_range_at : Text → Position → Option Range
  unfolding char_range_for_word
  word_range_at source position = elim (nth_line (split_lines source) position.line) [
    | none ↦ none
    | some raw ↦ elim (char_range_for_word (strip_return raw) position.character) [
      | none ↦ none
      | some range ↦ some (range_on (strip_return raw) position.line range)
    ]
  ]
