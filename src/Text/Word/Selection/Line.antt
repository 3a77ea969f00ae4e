-- ===== src/Text/Word/Selection/Line.antt =====
-- `selected_on_line` on a line, and the lines of a text that is cut at its first line break.
use php_lsp.Prelude.{
  ℕ, suc, ◌+◌, ◌-◌, ◌≤◌, ◌≡◌, ◌≢◌, refl, sym, ap, subst, ◌∙◌, some, [], ◌∷◌, ◌++◌, leb, ◌==◌, max,
  if◌then◌else◌, arith, Bool-cases, inl, inr,
}
use php_lsp.Prelude.Chars.{
  Text, Lacks, slice_from, slice_to, split_at-append, byte_len, byte_len-append, len_utf16,
}
use php_lsp.Prelude.Strs.{slice}
use php_lsp.Text.Offset.{newline, utf16_offset_to_byte}
use php_lsp.Text.Offset.Spec.{line_prefix, byte-line_prefix}
use php_lsp.Text.Offset.Change.{line_suffix, line_prefix-line_suffix}
use php_lsp.Text.Word.{split_lines, nth_line}
use php_lsp.Text.Word.Selection.{selected_on_line}

-- The part of a line between two columns.
unfoldable pub mid : Text → ℕ → ℕ → Text
mid [] a b = []
mid (c ∷ s) a b =
    let rest = mid s (a - len_utf16 c) (b - len_utf16 c) in
    if a == 0 then line_prefix (c ∷ s) b else rest

pub line_prefix-mid :
    (s : Text) (a b : ℕ) → Lacks newline s → a ≤ b → line_prefix s b ≡ line_prefix s a ++ mid s a b
unfolding mid
line_prefix-mid [] a b lacks h = refl
line_prefix-mid (c ∷ s) a b (hc, hs) h =
    ground (arith, line_prefix-mid s (a - len_utf16 c) (b - len_utf16 c) hs)

line_suffix-mid :
    (s : Text) (a b : ℕ) → Lacks newline s → a ≤ b → line_suffix s a ≡ mid s a b ++ line_suffix s b
unfolding mid
line_suffix-mid [] a b lacks h = refl
line_suffix-mid (c ∷ s) a b (hc, hs) h = ground (
  arith,
  line_suffix-mid s (a - len_utf16 c) (b - len_utf16 c) hs,
  line_prefix-line_suffix (c ∷ s) b,
)

pub slice_to-line :
    (s : Text) (a : ℕ)
    → Lacks newline s
    → slice_to s (utf16_offset_to_byte s a) ≡ some (line_prefix s a)
slice_to-line s a lacks = rw (byte-line_prefix s a lacks) (
    subst (λ t. slice_to t (byte_len (line_prefix s a)) ≡ some (line_prefix s a))
      (line_prefix-line_suffix s a)
      (rw (slice_to, split_at-append (line_prefix s a) (line_suffix s a)) refl))

pub slice_from-line :
    (s : Text) (a : ℕ)
    → Lacks newline s
    → slice_from s (utf16_offset_to_byte s a) ≡ some (line_suffix s a)
slice_from-line s a lacks = rw (byte-line_prefix s a lacks) (
    subst (λ t. slice_from t (byte_len (line_prefix s a)) ≡ some (line_suffix s a))
      (line_prefix-line_suffix s a)
      (rw (slice_from, split_at-append (line_prefix s a) (line_suffix s a)) refl))

sizes :
    (s : Text) (a b : ℕ)
    → Lacks newline s
    → a ≤ b
    → utf16_offset_to_byte s b ≡ utf16_offset_to_byte s a + byte_len (mid s a b)
sizes s a b lacks h = omega (
  arith,
  byte-line_prefix s a lacks,
  byte-line_prefix s b lacks,
  ap byte_len (line_prefix-mid s a b lacks h),
  byte_len-append (line_prefix s a) (mid s a b),
)

slice_to-mid :
    (s : Text) (a b n : ℕ)
    → Lacks newline s
    → a ≤ b
    → n ≡ byte_len (mid s a b)
    → slice_to (line_suffix s a) n ≡ some (mid s a b)
slice_to-mid s a b n lacks h e =
    rw (line_suffix-mid s a b lacks h, e)
      (rw (slice_to, split_at-append (mid s a b) (line_suffix s b)) refl)

slice-mid :
    (s : Text) (a b start stop : ℕ)
    → Lacks newline s
    → a ≤ b
    → start ≡ utf16_offset_to_byte s a
    → stop ≡ max (utf16_offset_to_byte s b) start
    → slice s start stop ≡ some (mid s a b)
unfolding slice
slice-mid s a b start stop lacks h e f = elim (Bool-cases (leb start stop)) [
  | inl t ↦
      rw (slice, e, slice_from-line s a lacks)
        (rw t
          (slice_to-mid s a b (stop - start) lacks h (omega (arith, e, f, sizes s a b lacks h))))
  | inr t ↦ absurd (ground arith)
]

pub selected_on_line-mid :
    (s : Text) (a b : ℕ) → Lacks newline s → a ≤ b → selected_on_line a b s ≡ some (mid s a b)
unfolding selected_on_line
selected_on_line-mid s a b lacks h = slice-mid s a b _ _ lacks h refl refl

pub split_lines_last : (s : Text) → Lacks newline s → split_lines s ≡ s ∷ []
split_lines_last [] h = refl
split_lines_last (c ∷ s) (hc, hs) = ground (arith, split_lines_last s hs)

pub split_lines-append :
    (l r : Text) → Lacks newline l → split_lines (l ++ newline ∷ r) ≡ l ∷ split_lines r
split_lines-append [] r h = refl
split_lines-append (c ∷ l) r (hc, hl) = ground (arith, split_lines-append l r hl)

pub suc_sub_suc : (k j : ℕ) → suc k - suc j ≡ k - j
suc_sub_suc k j = omega arith

pub no_next :
    (t : Text) (n : ℕ) (last : Text)
    → Lacks newline t
    → nth_line (split_lines t) (suc n) ≢ some last
no_next t n last lacks = rw (split_lines_last t lacks) (λ h. ground arith)

pub next_line :
    (t l r : Text) (n : ℕ) (last : Text)
    → t ≡ l ++ newline ∷ r
    → Lacks newline l
    → nth_line (split_lines t) (suc n) ≡ some last
    → nth_line (split_lines r) n ≡ some last
next_line t l r n last split lacks h =
    sym (
      ap (λ u. nth_line (split_lines u) (suc n)) split
      ∙ ap (λ ls. nth_line ls (suc n)) (split_lines-append l r lacks))
    ∙ h
