-- ===== src/Text/Offset/Change.antt =====
-- src/text/offset.rs: `apply_content_change` against the text that an editor would show.
use php_lsp.Prelude.{
  ℕ, zero, suc, ◌-◌, ◌≤◌, ◌<◌, ◌≡◌, refl, ◌⊎◌, subst, some, [], ◌∷◌, ◌++◌, leb, ltb, ◌==◌, ◌&&◌,
  ◌||◌, Bool, true, false, max, if◌then◌else◌, arith, Bool-cases, inl, inr,
}
use php_lsp.Prelude.Chars.{
  Text, len_utf16, byte_len, slice_from, slice_to, split_at, split_at-append,
}
use php_lsp.Text.Offset.{newline, Position, Range, replace_range, apply_content_change}
use php_lsp.Text.Offset.Spec.{line_prefix, prefix_at, position_to_byte_offset-prefix_at}

abbrev pub line_suffix : Text → ℕ → Text
line_suffix [] col = []
line_suffix (c ∷ s) col =
    if col == 0 then c ∷ s else if c == newline then c ∷ s else line_suffix s (col - len_utf16 c)

-- The text from a position on.
abbrev pub suffix_at : Text → ℕ → ℕ → Text
suffix_at s zero col = line_suffix s col
suffix_at [] (suc k) col = []
suffix_at (c ∷ s) (suc k) col = if c == newline then suffix_at s k col else suffix_at s (suc k) col

pub line_prefix-line_suffix : (s : Text) (col : ℕ) → line_prefix s col ++ line_suffix s col ≡ s
line_prefix-line_suffix [] col = refl
line_prefix-line_suffix (c ∷ s) col = ground (arith, line_prefix-line_suffix s (col - len_utf16 c))

pub prefix_at-suffix_at : (s : Text) (k col : ℕ) → prefix_at s k col ++ suffix_at s k col ≡ s
prefix_at-suffix_at s zero col = line_prefix-line_suffix s col
prefix_at-suffix_at [] (suc k) col = refl
prefix_at-suffix_at (c ∷ s) (suc k) col =
    ground (arith, prefix_at-suffix_at s k col, prefix_at-suffix_at s (suc k) col)

-- The order of positions.
abbrev pub pos_leb : Position → Position → Bool
pos_leb p q = ltb p.line q.line || (p.line == q.line && leb p.character q.character)

abbrev size_at : Text → ℕ → ℕ → ℕ
size_at s k col = byte_len (prefix_at s k col)

line_prefix_mono :
    (s : Text) (a b : ℕ) → a ≤ b → byte_len (line_prefix s a) ≤ byte_len (line_prefix s b)
line_prefix_mono [] a b h = omega arith
line_prefix_mono (c ∷ s) a b h =
    ground (arith, line_prefix_mono s (a - len_utf16 c) (b - len_utf16 c))

size_at_column : (s : Text) (k a b : ℕ) → a ≤ b → size_at s k a ≤ size_at s k b
size_at_column s zero a b h = line_prefix_mono s a b h
size_at_column [] (suc k) a b h = omega arith
size_at_column (c ∷ s) (suc k) a b h =
    ground (arith, size_at_column s k a b h, size_at_column s (suc k) a b h)

size_at_line : (s : Text) (j k a b : ℕ) → j < k → size_at s j a ≤ size_at s k b
size_at_line s j zero a b h = absurd (omega arith)
size_at_line [] zero (suc k) a b h = omega arith
size_at_line [] (suc j) (suc k) a b h = omega arith
size_at_line (c ∷ s) zero (suc k) a b h =
    ground (arith, size_at_line s zero (suc k) (a - len_utf16 c) b h)
size_at_line (c ∷ s) (suc j) (suc k) a b h =
    ground (arith, size_at_line s j k a b, size_at_line s (suc j) (suc k) a b h)

abbrev size_of : Text → Position → ℕ
size_of s p = size_at s p.line p.character

-- An earlier position has a shorter prefix.
size_at_mono :
    (s : Text) (j k a b : ℕ) → ((j < k) ⊎ ((j ≡ k) × (a ≤ b))) → size_at s j a ≤ size_at s k b
size_at_mono s j k a b (inl h) = size_at_line s j k a b h
size_at_mono s j k a b (inr (e, h)) = rw e (size_at_column s k a b h)

size_of_mono : (s : Text) (p q : Position) → pos_leb p q ≡ true → size_of s p ≤ size_of s q
size_of_mono s p q h = size_at_mono s p.line q.line p.character q.character (ground arith)

size_of_anti : (s : Text) (p q : Position) → pos_leb p q ≡ false → size_of s q ≤ size_of s p
size_of_anti s p q h = size_at_mono s q.line p.line q.character p.character (ground arith)

abbrev prefix_of : Text → Position → Text
prefix_of s p = prefix_at s p.line p.character

abbrev suffix_of : Text → Position → Text
suffix_of s p = suffix_at s p.line p.character

split_of :
    (s : Text) (p : Position) → split_at s (size_of s p) ≡ some (prefix_of s p, suffix_of s p)
split_of s p =
    subst (λ t. split_at t (size_of s p) ≡ some (prefix_of s p, suffix_of s p))
      (prefix_at-suffix_at s p.line p.character) (split_at-append (prefix_of s p) (suffix_of s p))

slice_to-prefix_of : (s : Text) (p : Position) → slice_to s (size_of s p) ≡ some (prefix_of s p)
slice_to-prefix_of s p = rw (slice_to, split_of s p)

slice_from-suffix_of : (s : Text) (p : Position) → slice_from s (size_of s p) ≡ some (suffix_of s p)
slice_from-suffix_of s p = rw (slice_from, split_of s p)

-- What an editor shows after the change: `new_text` between what stands before the start of the
-- range and what stands behind its end, or behind its start if the end comes first.
abbrev pub edited : Text → Range → Text → Text
edited s r new_text =
    prefix_of s r.start
    ++ (new_text ++ (if pos_leb r.start r.stop then suffix_of s r.stop else suffix_of s r.start))

replace_range-between :
    (s : Text) (p q : Position) (n : ℕ) (new_text : Text)
    → n ≡ size_of s q
    → replace_range s (size_of s p) n new_text ≡ some (prefix_of s p ++ (new_text ++ suffix_of s q))
unfolding replace_range
replace_range-between s p q n new_text e =
    rw (replace_range, slice_to-prefix_of s p, e, slice_from-suffix_of s q)

change_as_replace :
    (s : Text) (r : Range) (new_text : Text)
    → apply_content_change s r new_text
      ≡ replace_range s (size_of s r.start) (max (size_of s r.stop) (size_of s r.start)) new_text
unfolding apply_content_change
change_as_replace s r new_text = rw (
  apply_content_change,
  position_to_byte_offset-prefix_at s r.start,
  position_to_byte_offset-prefix_at s r.stop,
)

max_left : (a b : ℕ) → b ≤ a → max a b ≡ a
max_left a b h = omega arith

max_right : (a b : ℕ) → a ≤ b → max a b ≡ b
max_right a b h = omega arith

-- A change never panics, at any range of any text, and makes the text that an editor shows.
pub apply_content_change-edited :
    (s : Text) (r : Range) (new_text : Text)
    → apply_content_change s r new_text ≡ some (edited s r new_text)
apply_content_change-edited s r new_text = elim (Bool-cases (pos_leb r.start r.stop)) [
  | inl h ↦
      rw (change_as_replace s r new_text, h)
        (replace_range-between s r.start r.stop _ new_text
          (max_left _ _ (size_of_mono s r.start r.stop h)))
  | inr h ↦
      rw (change_as_replace s r new_text, h)
        (replace_range-between s r.start r.start _ new_text
          (max_right _ _ (size_of_anti s r.start r.stop h)))
]
