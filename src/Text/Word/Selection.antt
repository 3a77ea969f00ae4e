-- ===== src/Text/Word/Selection.antt =====
-- src/text/word.rs: `selected_text_range`. `none` is the panic of a slice.
pub mod Line
pub mod Between
use php_lsp.Prelude.{
  ℕ, zero, suc, ◌-◌, Option, none, some, Bool, true, false, List, [], ◌∷◌, ◌++◌, leb, ltb, ◌==◌,
  max, if◌then◌else◌, drop,
}
use php_lsp.Prelude.Chars.{Text, slice_from, slice_to}
use php_lsp.Prelude.Strs.{slice}
use php_lsp.Text.Offset.{newline, Position, Range, utf16_offset_to_byte}
use php_lsp.Text.Word.{split_lines, nth_line}

-- What is taken of one line: from a column on the first line, up to a column on the last one.
unfoldable pub line_part : ℕ → ℕ → Bool → Bool → Text → Option Text
unfolding utf16_offset_to_byte
line_part from to first last line =
    if first
    then slice_from line (utf16_offset_to_byte line from)
    else if last
    then slice_to line (utf16_offset_to_byte line to)
    else some line

-- `result.push_str(..)` and `result.push('\n')`
abbrev pub push_line : Option Text → Option Text → Option Text
push_line none rest = none
push_line (some part) none = none
push_line (some part) (some rest) = some (part ++ newline ∷ rest)

-- The loop over the lines from the start line on, with the number of lines that are left behind this
-- one. It ends with the text.
unfoldable pub selected_lines : ℕ → ℕ → Bool → ℕ → List Text → Option Text
unfolding line_part
selected_lines from to first left [] = some []
selected_lines from to first zero (line ∷ rest) = line_part from to first true line
selected_lines from to first (suc left) (line ∷ rest) =
    push_line (line_part from to first false line) (selected_lines from to false left rest)

-- The part of one line, whose end is not in front of its start.
unfoldable pub selected_on_line : ℕ → ℕ → Text → Option Text
unfolding utf16_offset_to_byte slice
selected_on_line from to line =
    let start = utf16_offset_to_byte line from in
    slice line start (max (utf16_offset_to_byte line to) start)

unfoldable pub selected_text_range : Text → Range → Option Text
unfolding selected_lines selected_on_line
selected_text_range source range =
    if range.start.line == range.stop.line
    then elim (nth_line (split_lines source) range.start.line) [
      | none ↦ some []
      | some line ↦ selected_on_line range.start.character range.stop.character line
    ]
    else if ltb range.start.line range.stop.line
    then selected_lines range.start.character range.stop.character true
        (range.stop.line - range.start.line) (drop range.start.line (split_lines source))
    else some []
