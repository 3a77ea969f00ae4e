-- ===== src/Editing/OnTypeFormat.antt =====
-- src/editing/on_type_format.rs: the edits when a `}` or a line break is typed. `none` is a panic, of
-- the line counted below zero. The depth of braces is at most the length of the text, which does not
-- reach the limit of `i32`.
pub mod Scan
pub mod Total
pub mod Applied
use php_lsp.Prelude.{
  ℕ, zero, suc, ◌+◌, ◌-◌, Option, none, some, Bool, true, false, List, [], ◌∷◌, ◌++◌, leb, ◌==◌,
  if◌then◌else◌, length, get_elem?, take, reverse, all,
}
use php_lsp.Prelude.Chars.{Text, byte_len, len_utf16, codes}
use php_lsp.Prelude.Strs.{text_eq, is_empty, is_whitespace, trim_start, trim_end, trim, lines}
use php_lsp.Text.Offset.{Position, Range, newline, u32}
use php_lsp.Editing.StringMask.{string_literal_mask}

-- `FormattingOptions`: the two fields that are read.
pub record FormattingOptions : Type 0 where
  pub tab_size : ℕ
  pub insert_spaces : Bool

pub record TextEdit : Type 0 where
  pub range : Range
  pub new_text : Text

-- `&line[..line.len() - line.trim_start().len()]`
unfoldable pub leading_whitespace : Text → Text
leading_whitespace line = take (length line - length (trim_start line)) line

abbrev pub spaces : ℕ → Text
spaces zero = []
spaces (suc n) = 32 ∷ spaces n

abbrev pub indent_unit : FormattingOptions → Text
indent_unit options = if options.insert_spaces then spaces options.tab_size else 9 ∷ []

-- The edit of both handlers: the white space at the start of a line, by its bytes.
unfoldable pub replace_indent : Position → Text → Text → TextEdit
replace_indent position indent new_text = record {
  range = record {
    start = record { line = position.line; character = 0 };
    stop = record { line = position.line; character = u32 (byte_len indent) };
  };
  new_text = new_text;
}

-- The index of the first character of a line, the end of the text when there is none.
unfoldable pub line_start : ℕ → Text → ℕ
line_start zero s = 0
line_start (suc k) [] = 0
line_start (suc k) (c ∷ s) = suc (line_start (if c == newline then k else suc k) s)

-- `take_while(..).count()`: how many characters end within the UTF-16 column.
unfoldable pub chars_within : ℕ → ℕ → Text → ℕ
chars_within column used [] = 0
chars_within column used (c ∷ s) =
    let rest = suc (chars_within column (used + len_utf16 c) s) in
    if leb (used + len_utf16 c) column then rest else 0

-- The characters with their mask.
unfoldable pub with_mask : Text → List Bool → List (ℕ × Bool)
with_mask [] mask = []
with_mask (c ∷ s) [] = []
with_mask (c ∷ s) (b ∷ mask) = (c, b) ∷ with_mask s mask

-- What one character does to the depth and the line of the backward scan: a panic, the line of the
-- brace, or the values to go on with.
pub data ScanStep : Type 0 where
  underflow : ScanStep
  found : ℕ → ScanStep
  onward : ℕ → ℕ → ScanStep

unfoldable pub scan_step : ℕ → Bool → ℕ → ℕ → ScanStep
scan_step c masked depth scan_line =
    if c == newline
    then if scan_line == 0 then underflow else onward depth (scan_line - 1)
    else if masked
    then onward depth scan_line
    else if c == b'}'
    then onward (depth + 1) scan_line
    else if c == b'{'
    then if depth - 1 == 0 then found scan_line else onward (depth - 1) scan_line
    else onward depth scan_line

-- The loop `while idx > 0`, over the characters in front of the brace, the last first.
unfoldable pub scan_back : List (ℕ × Bool) → ℕ → ℕ → Option (Option ℕ)
unfolding scan_step
scan_back [] depth scan_line = some none
scan_back ((c, masked) ∷ rest) depth scan_line = elim (scan_step c masked depth scan_line) [
  | underflow ↦ none
  | found match_line ↦ some (some match_line)
  | onward depth' line' ↦ scan_back rest depth' line'
]

-- `match_line.and_then(|l| lines.get(l)).map_or("", leading_whitespace)`
unfoldable pub indent_of : List Text → Option ℕ → Text
unfolding leading_whitespace
indent_of all_lines none = []
indent_of all_lines (some l) = elim (get_elem? all_lines l) [
  | none ↦ []
  | some text ↦ leading_whitespace text
]

-- The end of both handlers: no edit when the indentation is as it should be.
unfoldable pub edits_unless_same : Position → Text → Text → List TextEdit
unfolding text_eq
edits_unless_same position indent new_indent =
    if text_eq new_indent indent then [] else replace_indent position indent new_indent ∷ []

-- The characters with their mask in front of an index, at which the scan starts: `chars[idx]` and
-- `mask[idx]` panic at the first index, the highest one, if it is out of bounds.
abbrev pub in_front_of : ℕ → List (ℕ × Bool) → Option (List (ℕ × Bool))
in_front_of idx marked = if leb idx (length marked) then some (take idx marked) else none

-- The scan over what stands in front of the brace.
abbrev pub scan_from : ℕ → Option (List (ℕ × Bool)) → Option (Option ℕ)
unfolding scan_back
scan_from line none = none
scan_from line (some before) = scan_back (reverse before) 1 line

-- The scan from the brace at a column of a line.
unfoldable pub match_line_of : Text → ℕ → ℕ → Option (Option ℕ)
unfolding scan_from
match_line_of source line brace_col = scan_from line (
    in_front_of (line_start line source + brace_col)
      (with_mask source (string_literal_mask source)))

-- What `close_brace` does with the line that the scan finds.
abbrev pub with_match : Text → Position → Text → Option (Option ℕ) → Option (List TextEdit)
with_match source position cur_line none = none
with_match source position cur_line (some match_line) =
    some (
      edits_unless_same position (leading_whitespace cur_line)
        (indent_of (lines source) match_line))

unfoldable pub close_brace : Text → Position → Option (List TextEdit)
close_brace source position = elim (get_elem? (lines source) position.line) [
  | none ↦ some []
  | some cur_line ↦
      let brace_col = chars_within position.character 0 cur_line - 1 in
      elim (all is_whitespace (take brace_col cur_line)) [
        | false ↦ some []
        | true ↦ with_match source position cur_line (match_line_of source position.line brace_col)
      ]
]

-- The last line in front of an index that is not blank.
unfoldable pub previous_line : List Text → ℕ → Option Text
previous_line all_lines zero = none
previous_line all_lines (suc i) =
    let rest = previous_line all_lines i in
    elim (get_elem? all_lines i) [
      | none ↦ rest
      | some l ↦ if is_empty (trim l) then rest else some l
    ]

abbrev pub or_empty : Option Text → Text
or_empty none = []
or_empty (some s) = s

-- `ends_with(c)`
abbrev pub ends_in : ℕ → Text → Bool
ends_in c [] = false
ends_in c (d ∷ []) = d == c
ends_in c (d ∷ e ∷ s) = ends_in c (e ∷ s)

unfoldable pub desired_indent : FormattingOptions → Text → Text
unfolding leading_whitespace
desired_indent options prev =
    if ends_in b'{' (trim_end prev)
    then leading_whitespace prev ++ indent_unit options
    else leading_whitespace prev

unfoldable pub indent_new_line : Text → Position → FormattingOptions → List TextEdit
unfolding desired_indent
indent_new_line source position options =
    let desired = desired_indent options (or_empty (previous_line (lines source) position.line)) in
    if position.line == 0
    then []
    else if is_empty desired
    then []
    else edits_unless_same position
        (leading_whitespace (or_empty (get_elem? (lines source) position.line))) desired

-- The character that was typed is `}`, a line break, or any other text.
unfoldable pub on_type_format : Text → Position → Text → FormattingOptions → Option (List TextEdit)
unfolding text_eq
on_type_format source position ch options =
    if text_eq ch (codes "}")
    then close_brace source position
    else if text_eq ch (codes "\n")
    then some (indent_new_line source position options)
    else some []
