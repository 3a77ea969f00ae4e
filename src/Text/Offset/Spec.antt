-- ===== src/Text/Offset/Spec.antt =====
-- src/text/offset.rs: where a position points, described by recursion on the text, and that the
-- offset arithmetic of the source finds that place.
use Prim.Native.Nat.add
use php_lsp.Prelude.{
  ℕ, zero, suc, ◌+◌, ◌-◌, ◌≡◌, refl, sym, ap, subst, ◌∙◌, some, [], ◌∷◌, ◌++◌, ◌==◌, if◌then◌else◌,
  arith, append_assoc,
}
use php_lsp.Prelude.Chars.{
  Text, len_utf8, len_utf16, byte_len, find_char, find_char-Found, Found, split_at-append,
  split_at_whole, byte_len-append, Lacks, absent, present,
}
use php_lsp.Text.Offset.{
  newline, Position, units_loop, utf16_offset_to_byte, seek_line, column_byte, seek_column,
  position_to_byte_offset,
}

-- The text before column `col` of its first line.
abbrev pub line_prefix : Text → ℕ → Text
line_prefix [] col = []
line_prefix (c ∷ s) col =
    if col == 0 then [] else if c == newline then [] else c ∷ line_prefix s (col - len_utf16 c)

-- The text before a position. A line past the last one, and a column past the end of its line, are
-- taken back to the end.
abbrev pub prefix_at : Text → ℕ → ℕ → Text
prefix_at s zero col = line_prefix s col
prefix_at [] (suc k) col = []
prefix_at (c ∷ s) (suc k) col =
    c ∷ (if c == newline then prefix_at s k col else prefix_at s (suc k) col)

module _ where
  pub prefix_at-append :
      (l r : Text) (k col : ℕ)
      → Lacks newline l
      → prefix_at (l ++ newline ∷ r) (suc k) col ≡ l ++ newline ∷ prefix_at r k col
  prefix_at-append [] r k col h = refl
  prefix_at-append (c ∷ l) r k col (hc, hl) = ground (arith, prefix_at-append l r k col hl)

  pub prefix_at_last : (s : Text) (k col : ℕ) → Lacks newline s → prefix_at s (suc k) col ≡ s
  prefix_at_last [] k col h = refl
  prefix_at_last (c ∷ s) k col (hc, hs) = ground (arith, prefix_at_last s k col hs)

  pub line_prefix-append :
      (l r : Text) (col : ℕ)
      → Lacks newline l
      → line_prefix (l ++ newline ∷ r) col ≡ line_prefix l col
  line_prefix-append [] r col h = ground arith
  line_prefix-append (c ∷ l) r col (hc, hl) =
      ground (arith, line_prefix-append l r (col - len_utf16 c) hl)

pub sub_sub : (a b c : ℕ) → a - (b + c) ≡ a - b - c
sub_sub a b c = omega arith

pub sub-zero : (a : ℕ) → a - 0 ≡ a
sub-zero a = omega arith

-- On a line, the loop stops at the end of the described prefix.
units_loop-line_prefix :
    (s : Text) (offset count idx : ℕ)
    → Lacks newline s
    → units_loop s offset count idx ≡ idx + byte_len (line_prefix s (offset - count))
unfolding units_loop
units_loop-line_prefix [] offset count idx h = omega arith
units_loop-line_prefix (c ∷ s) offset count idx (hc, hs) = ground (
  arith,
  units_loop-line_prefix s offset (count + len_utf16 c) (idx + len_utf8 c) hs,
  sub_sub offset count (len_utf16 c),
)

pub byte-line_prefix :
    (s : Text) (col : ℕ)
    → Lacks newline s
    → utf16_offset_to_byte s col ≡ byte_len (line_prefix s col)
unfolding utf16_offset_to_byte
byte-line_prefix s col h = ground (arith, units_loop-line_prefix s col 0 0 h, sub-zero col)

column_byte-line_prefix :
    (rest : Text) (start col : ℕ)
    → Found newline rest
    → column_byte rest start col ≡ some (start + byte_len (line_prefix rest col))
unfolding column_byte
column_byte-line_prefix rest start col (absent lacks e) =
    rw (column_byte, e, split_at_whole rest, byte-line_prefix rest col lacks)
column_byte-line_prefix rest start col (present l r split lacks e) =
    rw (column_byte, e, split, split_at-append l (newline ∷ r), byte-line_prefix l col lacks)
      (ap (λ (t : Text). some (start + byte_len t)) (sym (line_prefix-append l r col lacks)))

-- The statement about `seek_line` from the line start behind `before`.
abbrev SeeksFrom : Text → Text → ℕ → ℕ → Type 0
SeeksFrom before rest k col =
    seek_column (before ++ rest) col (seek_line (before ++ rest) k (byte_len before))
    ≡ some (byte_len before + byte_len (prefix_at rest k col))

pub sizes :
    (before l t : Text)
    → byte_len (before ++ (l ++ newline ∷ [])) + byte_len t
      ≡ byte_len before + byte_len (l ++ newline ∷ t)
sizes before l t = omega (
  arith,
  byte_len-append before (l ++ newline ∷ []),
  byte_len-append l (newline ∷ []),
  byte_len-append l (newline ∷ t),
)

pub past_line :
    (before l : Text)
    → byte_len before + (byte_len l + 1) ≡ byte_len (before ++ (l ++ newline ∷ []))
unfolding len_utf8
past_line before l =
    omega (arith, byte_len-append before (l ++ newline ∷ []), byte_len-append l (newline ∷ []))

pub regroup :
    (before l r : Text) → (before ++ (l ++ newline ∷ [])) ++ r ≡ before ++ (l ++ newline ∷ r)
regroup before l r = simp append_assoc

seek_next :
    (before l r : Text) (k col : ℕ)
    → ((b r' : Text) → SeeksFrom b r' k col)
    → Lacks newline l
    → find_char newline (l ++ newline ∷ r) ≡ some (byte_len l)
    → SeeksFrom before (l ++ newline ∷ r) (suc k) col
unfolding seek_line seek_column
seek_next before l r k col ih lacks e =
    rw
      (
        seek_line,
        split_at-append before (l ++ newline ∷ r),
        e,
        past_line before l,
        prefix_at-append l r k col lacks,
      )
      ((rw (regroup before l r) at (ih (before ++ (l ++ newline ∷ [])) r))
        ∙ ap some (sizes before l (prefix_at r k col)))

seek_step :
    (before rest : Text) (k col : ℕ)
    → ((b r : Text) → SeeksFrom b r k col)
    → Found newline rest
    → SeeksFrom before rest (suc k) col
unfolding seek_line seek_column
seek_step before rest k col ih (absent lacks e) =
    rw (seek_line, split_at-append before rest, e, prefix_at_last rest k col lacks)
      (ap some (byte_len-append before rest))
seek_step before rest k col ih (present l r split lacks e) =
    subst (λ t. SeeksFrom before t (suc k) col) (sym split)
      (seek_next before l r k col ih lacks (rw split at e))

seek-prefix_at : (before rest : Text) (k col : ℕ) → SeeksFrom before rest k col
unfolding seek_line seek_column
seek-prefix_at before rest zero col =
    rw (seek_column, split_at-append before rest)
      (column_byte-line_prefix rest (byte_len before) col (find_char-Found newline rest))
seek-prefix_at before rest (suc k) col =
    seek_step before rest k col (λ b r. seek-prefix_at b r k col) (find_char-Found newline rest)

-- Every position is found, no slice on the way panics, and the offset is the size of the text that
-- the position leaves behind it.
pub position_to_byte_offset-prefix_at :
    (text : Text) (pos : Position)
    → position_to_byte_offset text pos ≡ some (byte_len (prefix_at text pos.line pos.character))
unfolding position_to_byte_offset
position_to_byte_offset-prefix_at text pos =
    rw add.zero at (seek-prefix_at [] text pos.line pos.character)
