-- ===== src/Document/Positions.antt =====
-- src/document/ast.rs: offsets and positions of a parsed document, through its table of line starts.
-- `none` is the panic of a slice. `partition_point` of the standard library is the number of
-- elements in front of the first that fails the test; line starts increase.
pub mod Scan
pub mod Place
pub mod Back
mod Tests
use php_lsp.Prelude.{
  ℕ, zero, suc, ◌+◌, ◌-◌, ◌%◌, ◌^◌, Option, none, some, Bool, true, false, List, [], ◌∷◌, ◌++◌, leb,
  ◌==◌, min, if◌then◌else◌, get_elem?, length,
}
use php_lsp.Prelude.Chars.{Text, len_utf8, len_utf16, byte_len, units, slice_from, slice_to}
use php_lsp.Prelude.Strs.{strip_return, slice}
use php_lsp.Text.Offset.{Position, Range, u32}

-- The loop of `build_line_starts`: `i` is the byte of the next character.
unfoldable pub starts_from : Text → ℕ → List ℕ
starts_from [] i = []
starts_from (c ∷ s) i =
    let rest = starts_from s (i + len_utf8 c) in if c == 10 then u32 (u32 i + 1) ∷ rest else rest

unfoldable pub build_line_starts : Text → List ℕ
unfolding starts_from
build_line_starts source = 0 ∷ starts_from source 0

pub record SourceView : Type 0 where
  pub source : Text
  pub line_starts : List ℕ

-- `partition_point(|&s| s <= offset)`
abbrev pub partition_point : List ℕ → ℕ → ℕ
partition_point [] offset = 0
partition_point (s ∷ l) offset =
    let rest = partition_point l offset in if leb s offset then suc rest else 0

abbrev pub before_point : ℕ → ℕ
before_point zero = 0
before_point (suc i) = u32 i

unfoldable pub line_of : SourceView → ℕ → ℕ
line_of view offset = before_point (partition_point view.line_starts offset)

abbrev pub or_zero : Option ℕ → ℕ
or_zero none = 0
or_zero (some n) = n

unfoldable pub offset_to_position : Text → List ℕ → ℕ → Option Position
offset_to_position source line_starts offset =
    let line = before_point (partition_point line_starts offset) in
    elim (slice source (or_zero (get_elem? line_starts line)) (min offset (byte_len source))) [
      | none ↦ none
      | some segment ↦ some record { line = line; character = u32 (units (strip_return segment)) }
    ]

unfoldable pub position_of : SourceView → ℕ → Option Position
unfolding offset_to_position
position_of view offset = offset_to_position view.source view.line_starts offset

abbrev pub range_between : Option Position → Option Position → Option Range
range_between none stop = none
range_between (some start) none = none
range_between (some start) (some stop) = some record { start = start; stop = stop }

-- A span is its two offsets.
unfoldable pub range_of : SourceView → ℕ × ℕ → Option Range
unfolding position_of
range_of view (start, stop) = range_between (position_of view start) (position_of view stop)

-- The end of a line, where `next` is the start of the line behind it.
abbrev pub line_end : Text → Option ℕ → ℕ
line_end source none = byte_len source
line_end source (some next) = next - 1

-- The loop over the characters of a line.
unfoldable pub column_loop : Text → ℕ → ℕ → ℕ → ℕ
column_loop [] character col_utf16 byte_in_line = byte_in_line
column_loop (c ∷ s) character col_utf16 byte_in_line =
    if leb character col_utf16
    then byte_in_line
    else column_loop s character (u32 (col_utf16 + len_utf16 c)) (byte_in_line + len_utf8 c)

unfoldable pub byte_on_line : Text → ℕ → Option ℕ → ℕ → Option ℕ
unfolding column_loop
byte_on_line source line_start next character =
    elim (slice source line_start (min (line_end source next) (byte_len source))) [
      | none ↦ none
      | some raw ↦ some (u32 (line_start + column_loop (strip_return raw) character 0 0))
    ]

abbrev pub byte_from : Text → Option ℕ → Option ℕ → ℕ → Option ℕ
unfolding byte_on_line
byte_from source none next character = some (u32 (byte_len source))
byte_from source (some line_start) next character = byte_on_line source line_start next character

unfoldable pub byte_of_position : SourceView → Position → Option ℕ
unfolding byte_from
byte_of_position view pos =
    byte_from view.source (get_elem? view.line_starts pos.line)
      (get_elem? view.line_starts (pos.line + 1)) pos.character
