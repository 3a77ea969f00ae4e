-- ===== src/Document/Positions/Tests.antt =====
-- src/document/ast.rs: offsets and positions of small texts.
use php_lsp.Prelude.{ℕ, ◌≡◌, refl, some, [], ◌∷◌, ◌++◌, arith}
use php_lsp.Prelude.Chars.{Text, codes, byte_len, split_at, len_utf8}
use php_lsp.Prelude.Strs.{slice}
use php_lsp.Text.Offset.{Position, position_to_byte_offset}
use php_lsp.Document.Positions.{build_line_starts, position_of, byte_of_position, line_of}
use php_lsp.Document.Positions.Scan.{view_of, byte_of_position-position_to_byte_offset}
use php_lsp.Document.Positions.Place.{place_of, position_of-place_of}
use php_lsp.Document.Positions.Back.{byte_of_position-position_of}

-- Two lines that end in a carriage return and a newline.
abbrev first : Text
first = codes "a" ++ (13 ∷ 10 ∷ codes "b")

abbrev rest : Text
rest = 13 ∷ 10 ∷ codes "c"

abbrev place : ℕ → ℕ → Position
place line character = record { line = line; character = character }

starts : build_line_starts (first ++ rest) ≡ 0 ∷ 3 ∷ 6 ∷ []
unfolding build_line_starts len_utf8
starts = refl

finds_line : line_of (view_of (first ++ rest)) 4 ≡ 1
unfolding line_of build_line_starts len_utf8
finds_line = refl

-- A column past the end of a line is taken back to the carriage return.
past_end : byte_of_position (view_of (first ++ rest)) (place 0 9) ≡ some 1
unfolding byte_of_position build_line_starts len_utf8 slice split_at
past_end = refl

position_of-place_of_example :
    position_of (view_of (first ++ rest)) (byte_len first) ≡ some (place_of first)
unfolding len_utf8
position_of-place_of_example = position_of-place_of first rest (omega arith)

byte_of_position-position_of_example :
    (pos : Position) × (position_of (view_of (first ++ rest)) (byte_len first) ≡ some pos)
    × (byte_of_position (view_of (first ++ rest)) pos ≡ some (byte_len first))
unfolding len_utf8
byte_of_position-position_of_example = byte_of_position-position_of first rest refl (omega arith)

byte_of_position-position_to_byte_offset_example :
    byte_of_position (view_of (codes "ab")) (place 0 1)
    ≡ position_to_byte_offset (codes "ab") (place 0 1)
unfolding len_utf8
byte_of_position-position_to_byte_offset_example =
    byte_of_position-position_to_byte_offset (codes "ab") (place 0 1) (omega arith) (omega arith)
