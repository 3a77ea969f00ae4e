-- ===== src/Text/Offset/Columns.antt =====
-- src/text/offset.rs: `utf16_col_to_char_index` stays within the line.
use php_lsp.Prelude.{ℕ, ◌+◌, ◌≤◌, [], ◌∷◌, length, arith}
use php_lsp.Prelude.Chars.{Text, len_utf16}
use php_lsp.Text.Offset.{col_loop, utf16_col_to_char_index}

col_loop-le : (s : Text) (col utf16 idx : ℕ) → col_loop s col utf16 idx ≤ idx + length s
unfolding col_loop
col_loop-le [] col utf16 idx = omega arith
col_loop-le (c ∷ s) col utf16 idx =
    ground (arith, col_loop-le s col (utf16 + len_utf16 c) (idx + 1))

pub utf16_col_to_char_index-le : (s : Text) (col : ℕ) → utf16_col_to_char_index s col ≤ length s
unfolding utf16_col_to_char_index
utf16_col_to_char_index-le s col = omega (arith, col_loop-le s col 0 0)
