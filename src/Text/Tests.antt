-- ===== src/Text/Tests.antt =====
-- src/text/offset.rs: the code run on small texts, and its theorems at concrete inputs.
use php_lsp.Prelude.{ℕ, ◌^◌, ◌<◌, ◌≤◌, ◌≡◌, refl, some, ◌++◌, ◌∷◌, arith}
use php_lsp.Prelude.Chars.{Text, codes, byte_len, len_utf8, len_utf16, split_at, find_char}
use php_lsp.Text.Offset.{Position, position_to_byte_offset, apply_content_change, byte_to_utf16}
use php_lsp.Text.Offset.Spec.{prefix_at, position_to_byte_offset-prefix_at}
use php_lsp.Text.Offset.Change.{edited, apply_content_change-edited}

abbrev at_pos : ℕ → ℕ → Position
at_pos line character = record { line = line; character = character }

-- Two lines, with a character of two units and four bytes on the second.
abbrev sample : Text
sample = codes "ab\n" ++ (128512 ∷ codes "cd")

position_on_second_line : position_to_byte_offset sample (at_pos 1 3) ≡ some 8
unfolding position_to_byte_offset split_at find_char len_utf8 len_utf16
position_on_second_line = refl

-- A column inside a character of two units goes behind it.
position_inside_pair : position_to_byte_offset sample (at_pos 1 1) ≡ some 7
unfolding position_to_byte_offset split_at find_char len_utf8 len_utf16
position_inside_pair = refl

change_second_line :
    apply_content_change sample (record { start = at_pos 1 2; stop = at_pos 1 3 }) (codes "x")
    ≡ some (codes "ab\n" ++ (128512 ∷ codes "xd"))
unfolding apply_content_change position_to_byte_offset split_at find_char len_utf8 len_utf16
change_second_line = refl

-- The end of the range stands before its start: the text goes in at the start.
change_backwards :
    apply_content_change
      (codes "abc")
      (record { start = at_pos 0 2; stop = at_pos 0 1 })
      (codes "x")
    ≡ some (codes "abxc")
unfolding apply_content_change position_to_byte_offset split_at find_char len_utf8 len_utf16
change_backwards = refl

position_to_byte_offset-prefix_at_example :
    position_to_byte_offset sample (at_pos 1 2) ≡ some (byte_len (prefix_at sample 1 2))
position_to_byte_offset-prefix_at_example = position_to_byte_offset-prefix_at sample (at_pos 1 2)

apply_content_change-edited_example :
    apply_content_change sample (record { start = at_pos 0 1; stop = at_pos 1 2 }) (codes "xy")
    ≡ some (edited sample (record { start = at_pos 0 1; stop = at_pos 1 2 }) (codes "xy"))
apply_content_change-edited_example =
    apply_content_change-edited sample (record { start = at_pos 0 1; stop = at_pos 1 2 })
      (codes "xy")

small : byte_len sample < 2 ^ 32
unfolding len_utf8
small = omega arith

within : 7 ≤ byte_len sample
unfolding len_utf8
within = omega arith

column_of_seven : byte_to_utf16 sample 7 ≡ some 5
unfolding byte_to_utf16 split_at len_utf8 len_utf16
column_of_seven = refl
