-- ===== src/Text/Offset.antt =====
-- src/text/offset.rs: UTF-16 and UTF-8 offsets, and incremental text changes.
-- A byte slice off a character boundary, which panics in Rust, is `none`. A slice `text[a..b]` is
-- written as the slice to `b - a` of `text[a..]`.
pub mod Spec
pub mod Columns
pub mod Change
pub mod Ends
use php_lsp.Prelude.{
  ℕ, zero, suc, ◌+◌, ◌-◌, ◌%◌, ◌^◌, Option, none, some, List, [], ◌∷◌, ◌++◌, ltb, leb, ◌==◌, max,
  min, if◌then◌else◌,
}
use php_lsp.Prelude.Chars.{
  Text, len_utf8, len_utf16, byte_len, units, slice_from, slice_to, find_char,
}

abbrev pub newline : ℕ
newline = 10

-- `Position` and `Range` of the protocol: 32-bit fields.
pub record Position : Type 0 where
  pub line : ℕ
  pub character : ℕ

pub record Range : Type 0 where
  pub start : Position
  pub stop : Position

-- `as u32`, and the result of 32-bit sums
abbrev pub u32 : ℕ → ℕ
u32 n = n % 2 ^ 32

-- The loop of `utf16_offset_to_byte`: `count` and `idx` are the units and bytes before `s`.
units_loop : Text → ℕ → ℕ → ℕ → ℕ
units_loop [] offset count idx = idx
units_loop (c ∷ s) offset count idx =
    if leb offset count then idx else units_loop s offset (count + len_utf16 c) (idx + len_utf8 c)

unfoldable pub utf16_offset_to_byte : Text → ℕ → ℕ
unfolding units_loop
utf16_offset_to_byte s offset = units_loop s offset 0 0

-- The loop of `utf16_col_to_char_index`.
col_loop : Text → ℕ → ℕ → ℕ → ℕ
col_loop [] col utf16 idx = idx
col_loop (c ∷ s) col utf16 idx =
    if leb col utf16 then idx else col_loop s col (utf16 + len_utf16 c) (idx + 1)

unfoldable pub utf16_col_to_char_index : Text → ℕ → ℕ
unfolding col_loop
utf16_col_to_char_index chars col = col_loop chars col 0 0

-- How the line loop of `position_to_byte_offset` ends: with a line start, or by the early return,
-- or by the panic of a slice.
pub data Seek : Type 0 where
  line_at : ℕ → Seek
  returned : ℕ → Seek
  panicked : Seek

-- `for _ in 0..pos.line`
seek_line : Text → ℕ → ℕ → Seek
seek_line text zero line_start = line_at line_start
seek_line text (suc k) line_start = elim (slice_from text line_start) [
  | none ↦ panicked
  | some rest ↦ elim (find_char newline rest) [
    | some i ↦ seek_line text k (line_start + (i + 1))
    | none ↦ returned (byte_len text)
  ]
]

-- The column on the line that starts at `line_start`, where `rest` is the text from there on.
column_byte : Text → ℕ → ℕ → Option ℕ
unfolding utf16_offset_to_byte
column_byte rest line_start character =
    let line_end : ℕ = elim (find_char newline rest) [ some i ↦ i | none ↦ byte_len rest ] in
    elim (slice_to rest line_end) [
      | none ↦ none
      | some line ↦ some (line_start + utf16_offset_to_byte line character)
    ]

seek_column : Text → ℕ → Seek → Option ℕ
unfolding column_byte
seek_column text character panicked = none
seek_column text character (returned n) = some n
seek_column text character (line_at line_start) = elim (slice_from text line_start) [
  | none ↦ none
  | some rest ↦ column_byte rest line_start character
]

unfoldable pub position_to_byte_offset : Text → Position → Option ℕ
unfolding seek_line seek_column
position_to_byte_offset text pos = seek_column text pos.character (seek_line text pos.line 0)

-- `text.replace_range(start..end, new_text)`, for `start ≤ end`
replace_range : Text → ℕ → ℕ → Text → Option Text
replace_range text start stop new_text = elim (slice_to text start) [
  | none ↦ none
  | some before ↦ elim (slice_from text stop) [
    | none ↦ none
    | some after ↦ some (before ++ (new_text ++ after))
  ]
]

unfoldable pub apply_content_change : Text → Range → Text → Option Text
unfolding replace_range
apply_content_change text range new_text = elim (position_to_byte_offset text range.start) [
  | none ↦ none
  | some start ↦ elim (position_to_byte_offset text range.stop) [
    | none ↦ none
    | some stop ↦ replace_range text start (max stop start) new_text
  ]
]

-- `byte_to_utf16`
unfoldable pub byte_to_utf16 : Text → ℕ → Option ℕ
byte_to_utf16 s byte_offset = elim (slice_to s (min byte_offset (byte_len s))) [
  | none ↦ none
  | some before ↦ some (u32 (units before))
]

unfoldable pub utf16_code_units : Text → ℕ
utf16_code_units s = u32 (units s)

-- `text.matches('\n').count()`, and the text behind the last newline
count_newlines : Text → ℕ
count_newlines [] = 0
count_newlines (c ∷ s) = if c == newline then suc (count_newlines s) else count_newlines s

last_line_from : Text → Text → Text
last_line_from line [] = line
last_line_from line (c ∷ s) = last_line_from (if c == newline then s else line) s

unfoldable pub end_position : Text → Position
unfolding count_newlines last_line_from utf16_code_units
end_position text = record {
  line = u32 (count_newlines text);
  character = utf16_code_units (last_line_from text text);
}
