-- ===== src/Editing/Tests.antt =====
-- src/editing/on_type_format.rs and `string_literal_mask`: small texts, and the theorems on them.
use php_lsp.Prelude.{
  ℕ, ◌^◌, ◌<◌, ◌≡◌, arith, get_elem?, ◌≢◌, ◌++◌, refl, none, some, true, false, List, [], ◌∷◌, All,
}
use php_lsp.Prelude.Chars.{Text, codes, byte_len, len_utf8, len_utf16}
use php_lsp.Prelude.Strs.{lines, split_by, is_whitespace, trim_start_by, trim_end_by}
use php_lsp.Text.Offset.{Position}
use php_lsp.Editing.StringMask.{string_literal_mask}
use php_lsp.Editing.StringMask.Strings.{
  Segment, code, slash, attribute, single_quoted, double_quoted, slash_comment, hash_comment,
  block_comment, plain, escaped, segments_mask, string_literal_mask-print_segments,
}
use php_lsp.Editing.OnTypeFormat.{
  leading_whitespace, or_empty, FormattingOptions, TextEdit, scan_back, on_type_format,
}
use php_lsp.Editing.OnTypeFormat.{
  close_brace, chars_within, match_line_of, line_start, with_mask, edits_unless_same, indent_of,
  replace_indent, indent_new_line, previous_line,
}
use php_lsp.Editing.OnTypeFormat.Scan.{Nested, nothing, char, block, scan_back-Nested}
use php_lsp.Editing.OnTypeFormat.Total.{on_type_format-total}
use php_lsp.Editing.OnTypeFormat.Applied.{IsReindent, on_type_format-applied}

abbrev four_spaces : FormattingOptions
four_spaces = record { tab_size = 4; insert_spaces = true }

abbrev at : ℕ → ℕ → Position
at l c = record { line = l; character = c }

-- An edit from the start of a line to a column.
abbrev to_column : ℕ → ℕ → Text → TextEdit
to_column l c t = record { range = record { start = at l 0; stop = at l c }; new_text = t }

-- A brace in a string and one in a comment do not count.
abbrev class_text : Text
class_text = codes "  class A {\n    $a = '}'; // }\n    }"

class_closed :
    on_type_format class_text (at 2 5) (codes "}") four_spaces
    ≡ some (to_column 2 4 (codes "  ") ∷ [])
unfolding on_type_format close_brace split_by chars_within len_utf16 is_whitespace match_line_of
    scan_back line_start with_mask string_literal_mask edits_unless_same indent_of trim_start_by
    replace_indent len_utf8
class_closed = refl

class_opened :
    on_type_format (codes "  class A {\n") (at 1 0) (codes "\n") four_spaces
    ≡ some (to_column 1 0 (codes "      ") ∷ [])
unfolding on_type_format indent_new_line trim_end_by previous_line split_by trim_start_by
    is_whitespace edits_unless_same replace_indent
class_opened = refl

-- A no-break space has two bytes and one column: the edit reaches over the brace.
no_break_space_closed :
    on_type_format (codes "{\n" ++ (0xA0 ∷ codes "}")) (at 1 2) (codes "}") four_spaces
    ≡ some (to_column 1 2 [] ∷ [])
unfolding on_type_format close_brace split_by chars_within len_utf16 is_whitespace match_line_of
    scan_back line_start with_mask string_literal_mask edits_unless_same indent_of trim_start_by
    replace_indent len_utf8
no_break_space_closed = refl

on_type_format-total_example : on_type_format class_text (at 2 5) (codes "}") four_spaces ≢ none
on_type_format-total_example = on_type_format-total class_text (at 2 5) (codes "}") four_spaces

four_small : byte_len (codes "    ") < 2 ^ 32
unfolding len_utf8
four_small = omega arith

four_leading : leading_whitespace (or_empty (get_elem? (lines class_text) 2)) ≡ codes "    "
unfolding leading_whitespace split_by trim_start_by is_whitespace
four_leading = refl

on_type_format-applied_example :
    All
      (IsReindent class_text (codes "  class A {\n    $a = '}'; // }\n") (codes "}"))
      (to_column 2 4 (codes "  ") ∷ [])
on_type_format-applied_example =
    on_type_format-applied class_text (at 2 5) (codes "  class A {\n    $a = '}'; // }\n")
      (codes "    ") (codes "}") refl refl refl four_small four_leading (codes "}") four_spaces
      (to_column 2 4 (codes "  ") ∷ []) class_closed

-- `x{ }` with a line break, behind a brace and a masked brace
abbrev nested : Nested
nested = char b'}' true refl (char 10 false refl (block (char 10 false refl nothing) nothing))

scan_back-Nested_example :
    (scan_back
        ((b'}', false)
          ∷ (10, false)
          ∷ (b'{', false)
          ∷ (10, false)
          ∷ (b'}', true)
          ∷ (b'{', false)
          ∷ (b';', false)
          ∷ [])
        1
        5
      ≡ some (some 3))
    × (scan_back ((b'}', false) ∷ (10, false) ∷ (b'{', false) ∷ (10, false) ∷ (b'}', true) ∷ []) 1 5
        ≡ some none)
scan_back-Nested_example = scan_back-Nested ((b';', false) ∷ []) nested 5 (omega arith)

abbrev segments : List Segment
segments =
    code b'a' refl
    ∷ single_quoted (plain b'{' refl ∷ escaped b'\'' ∷ [])
    ∷ slash b' ' refl
    ∷ attribute
    ∷ double_quoted (plain b'\'' refl ∷ [])
    ∷ block_comment (codes "'*") refl
    ∷ slash_comment (codes "it's") refl
    ∷ hash_comment (codes " [") refl
    ∷ []

string_literal_mask-print_segments_example :
    string_literal_mask (codes "a'{\\''/ #[\"'\"/*'**///it's\n# [\n") ≡ segments_mask segments
string_literal_mask-print_segments_example = string_literal_mask-print_segments segments
