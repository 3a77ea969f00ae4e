-- ===== src/Text/Word/Tests.antt =====
-- src/text/word.rs: words over the letters and digits of ASCII.
use php_lsp.Prelude.{ℕ, [], ◌∷◌, ◌≡◌, refl, some, Bool, true, ◌&&◌, ◌||◌, leb}
use php_lsp.Prelude.Chars.{Text, codes, len_utf16, len_utf8, split_at}
use php_lsp.Prelude.Strs.{trim_end_by, trim_start_by, is_whitespace, eq_ignore_ascii_case}
use php_lsp.Text.Offset.{Position, Range, utf16_col_to_char_index}
use php_lsp.Text.Word.{char_range_for_word, word_at_position, word_range_at}
use php_lsp.Text.Word.Selection.{selected_text_range}
use php_lsp.Text.Word.Selection.Between.{IsBetween, selected_text_range-IsBetween}
use php_lsp.Text.Word.Names.{split_params, class_matches_declaration}

abbrev alphanumeric : ℕ → Bool
alphanumeric c = leb b'0' c && leb c b'9' || leb b'A' c && leb c b'Z' || leb b'a' c && leb c b'z'

abbrev source : Text
source = codes "<?php\n  $total = 1;"

abbrev cursor : Position
cursor = record { line = 1; character = 4 }

abbrev word_range : Range
word_range = record {
  start = record { line = 1; character = 2 };
  stop = record { line = 1; character = 8 };
}

finds_word : word_at_position alphanumeric source cursor ≡ some (codes "$total")
unfolding word_at_position char_range_for_word utf16_col_to_char_index len_utf16
finds_word = refl

finds_range : word_range_at alphanumeric source cursor ≡ some word_range
unfolding word_range_at char_range_for_word utf16_col_to_char_index len_utf16
finds_range = refl

-- From the column behind `ab` to the column behind `cd`, over a line break that keeps its `\r`.
abbrev two_lines : Range
two_lines = record {
  start = record { line = 0; character = 1 };
  stop = record { line = 1; character = 2 };
}

selected_two_lines : selected_text_range (codes "ab\r\ncde") two_lines ≡ some (codes "b\r\ncd")
unfolding selected_text_range split_at len_utf16 len_utf8
selected_two_lines = refl

selected_text_range-IsBetween_example :
    IsBetween (codes "a") (codes "ab\r\ncd") (selected_text_range (codes "ab\r\ncde") two_lines)
unfolding len_utf16
selected_text_range-IsBetween_example =
    selected_text_range-IsBetween (codes "ab\r\ncde") two_lines (codes "cde") refl refl

split_nested :
    split_params (codes "array $x = [1, 2], $y ") ≡ codes "array $x = [1, 2]" ∷ codes "$y" ∷ []
unfolding split_params trim_end_by trim_start_by is_whitespace
split_nested = refl

matches_qualified :
    class_matches_declaration (codes "\\App\\foo") (codes "Foo") (some (codes "App")) ≡ true
unfolding class_matches_declaration trim_start_by eq_ignore_ascii_case
matches_qualified = refl
