-- ===== src/Text/Word/Selection/Between.antt =====
-- `selected_text_range` takes the text between the positions of its range.
use php_lsp.Prelude.{
  ℕ, zero, suc, ◌-◌, ◌≤◌, ◌<◌, ◌≡◌, refl, sym, ap, subst, ◌∙◌, Option, none, some, true, false, [],
  ◌∷◌, ◌++◌, ltb, ◌==◌, drop, arith, Bool-cases, inl, inr, append_assoc,
}
use mathlib.Core.Option.{some-injective}
use php_lsp.Prelude.Chars.{Text, Lacks, Found, absent, present, find_char-Found}
use php_lsp.Text.Offset.{newline, Range}
use php_lsp.Text.Offset.Spec.{
  sub-zero, line_prefix, prefix_at, prefix_at-append, line_prefix-append, sub-zero,
}
use php_lsp.Text.Offset.Change.{pos_leb, line_suffix, line_prefix-line_suffix}
use php_lsp.Text.Word.{split_lines, nth_line}
use php_lsp.Text.Word.Selection.{line_part, selected_lines, selected_on_line, selected_text_range}
use php_lsp.Text.Word.Selection.Line.{
  line_prefix-mid, slice_to-line, slice_from-line, selected_on_line-mid, split_lines_last,
  split_lines-append, suc_sub_suc, no_next, next_line,
}

-- The loop behind the first line, on a text that has the last line.
Rest : ℕ → ℕ → ℕ → Text → Type 0
Rest a b n t =
    (last : Text)
    → nth_line (split_lines t) n ≡ some last
    → selected_lines a b false n (split_lines t) ≡ some (prefix_at t n b)

loop_last : (a b : ℕ) (t : Text) → Found newline t → Rest a b zero t
unfolding Rest selected_lines line_part
loop_last a b t (absent lacks e) last h = rw (split_lines_last t lacks) (slice_to-line t b lacks)
loop_last a b t (present l r split lacks e) last h =
    rw (split, split_lines-append l r lacks, line_prefix-append l r b lacks)
      (slice_to-line l b lacks)

loop_next :
    (a b n : ℕ) (t : Text) → ((r : Text) → Rest a b n r) → Found newline t → Rest a b (suc n) t
unfolding Rest selected_lines line_part
loop_next a b n t ih (absent lacks e) last h = absurd (no_next t n last lacks h)
loop_next a b n t ih (present l r split lacks e) last h =
    rw (split, split_lines-append l r lacks, prefix_at-append l r n b lacks)
      (rw (selected_lines, ih r last (next_line t l r n last split lacks h)) refl)

loop_behind : (a b n : ℕ) (t : Text) → Rest a b n t
loop_behind a b zero t = loop_last a b t (find_char-Found newline t)
loop_behind a b (suc n) t = loop_next a b n t (loop_behind a b n) (find_char-Found newline t)

-- What is selected stands between the two prefixes.
abbrev pub IsBetween : Text → Text → Option Text → Type 0
IsBetween before upto none = 1 < 0
IsBetween before upto (some selected) = before ++ selected ≡ upto

-- The lines from line `j` on to line `k`.
Selects : ℕ → ℕ → ℕ → ℕ → Text → Type 0
Selects a b j k t =
    (last : Text)
    → nth_line (split_lines t) k ≡ some last
    → IsBetween (prefix_at t j a) (prefix_at t k b)
        (selected_lines a b true (k - j) (drop j (split_lines t)))

joins_first :
    (a b k : ℕ) (l r : Text)
    → Lacks newline l
    → selected_lines a b false k (split_lines r) ≡ some (prefix_at r k b)
    → IsBetween
        (line_prefix l a)
        (l ++ newline ∷ prefix_at r k b)
        (selected_lines a b true (suc k) (l ∷ split_lines r))
unfolding selected_lines line_part
joins_first a b k l r lacks e =
    rw (selected_lines, slice_from-line l a lacks, e)
      (sym (append_assoc (line_prefix l a) (line_suffix l a) (newline ∷ prefix_at r k b))
        ∙ ap (λ u. u ++ newline ∷ prefix_at r k b) (line_prefix-line_suffix l a))

IsBetween-append :
    (l before upto : Text) (o : Option Text)
    → IsBetween before upto o
    → IsBetween (l ++ before) (l ++ upto) o
IsBetween-append l before upto none h = h
IsBetween-append l before upto (some selected) h =
    append_assoc l before selected ∙ ap (λ u. l ++ u) h

from_first_line : (a b k : ℕ) (t : Text) → Found newline t → Selects a b zero (suc k) t
unfolding Rest Selects selected_lines line_part
from_first_line a b k t (absent lacks e) last h = absurd (no_next t k last lacks h)
from_first_line a b k t (present l r split lacks e) last h =
    rw
      (
        split,
        split_lines-append l r lacks,
        line_prefix-append l r a lacks,
        prefix_at-append l r k b lacks,
        sub-zero (suc k),
      )
      (joins_first a b k l r lacks
        (loop_behind a b k r last (next_line t l r k last split lacks h)))

from_later_line :
    (a b j k : ℕ) (t : Text)
    → ((r : Text) → Selects a b j k r)
    → Found newline t
    → Selects a b (suc j) (suc k) t
unfolding Selects
from_later_line a b j k t ih (absent lacks e) last h = absurd (no_next t k last lacks h)
from_later_line a b j k t ih (present l r split lacks e) last h =
    rw
      (
        split,
        split_lines-append l r lacks,
        prefix_at-append l r j a lacks,
        prefix_at-append l r k b lacks,
        suc_sub_suc k j,
      )
      (IsBetween-append l (newline ∷ prefix_at r j a) (newline ∷ prefix_at r k b) _ (
        IsBetween-append (newline ∷ []) (prefix_at r j a) (prefix_at r k b) _
          (ih r last (next_line t l r k last split lacks h))))

from_line : (a b j k : ℕ) (t : Text) → j < k → Selects a b j k t
from_line a b zero zero t h = absurd (omega arith)
from_line a b (suc j) zero t h = absurd (omega arith)
from_line a b zero (suc k) t h = from_first_line a b k t (find_char-Found newline t)
from_line a b (suc j) (suc k) t h =
    from_later_line a b j k t (λ r. from_line a b j k r (omega (arith, h)))
      (find_char-Found newline t)

-- A selection within line `k`.
OnLine : ℕ → ℕ → ℕ → Text → Type 0
OnLine a b k t =
    (l : Text)
    → nth_line (split_lines t) k ≡ some l
    → IsBetween (prefix_at t k a) (prefix_at t k b) (selected_on_line a b l)

within_first : (a b : ℕ) (t : Text) → a ≤ b → Found newline t → OnLine a b zero t
unfolding OnLine
within_first a b t le (absent lacks e) l h =
    subst (λ u. IsBetween (line_prefix t a) (line_prefix t b) (selected_on_line a b u))
      (some-injective _ _ (sym (ap (λ ls. nth_line ls zero) (split_lines_last t lacks)) ∙ h))
      (rw (selected_on_line-mid t a b lacks le) (sym (line_prefix-mid t a b lacks le)))
within_first a b t le (present l' r split lacks e) l h =
    subst (λ u. IsBetween (line_prefix t a) (line_prefix t b) (selected_on_line a b u))
      (some-injective _ _ (
        sym (
          ap (λ u. nth_line (split_lines u) zero) split
          ∙ ap (λ ls. nth_line ls zero) (split_lines-append l' r lacks))
        ∙ h))
      (rw
        (
          selected_on_line-mid l' a b lacks le,
          split,
          line_prefix-append l' r a lacks,
          line_prefix-append l' r b lacks,
        )
        (sym (line_prefix-mid l' a b lacks le)))

within_later :
    (a b k : ℕ) (t : Text) → ((r : Text) → OnLine a b k r) → Found newline t → OnLine a b (suc k) t
unfolding OnLine
within_later a b k t ih (absent lacks e) l h = absurd (no_next t k l lacks h)
within_later a b k t ih (present l' r split lacks e) l h =
    rw (split, prefix_at-append l' r k a lacks, prefix_at-append l' r k b lacks)
      (IsBetween-append l' (newline ∷ prefix_at r k a) (newline ∷ prefix_at r k b) _ (
        IsBetween-append (newline ∷ []) (prefix_at r k a) (prefix_at r k b) _
          (ih r l (next_line t l' r k l split lacks h))))

within_line : (a b k : ℕ) (t : Text) → a ≤ b → OnLine a b k t
within_line a b zero t h = within_first a b t h (find_char-Found newline t)
within_line a b (suc k) t h =
    within_later a b k t (λ r. within_line a b k r h) (find_char-Found newline t)

beq_eq : (j k : ℕ) → j == k ≡ true → j ≡ k
beq_eq j k e = ground arith

not_beq : (j k : ℕ) → j < k → j == k ≡ false
not_beq j k h = ground arith

is_ltb : (j k : ℕ) → j < k → ltb j k ≡ true
is_ltb j k h = ground arith

-- The range between two positions.
abbrev between : ℕ → ℕ → ℕ → ℕ → Range
between j a k b = record {
  start = record { line = j; character = a };
  stop = record { line = k; character = b };
}

same_line :
    (s last : Text) (j a k b : ℕ)
    → j == k ≡ true
    → a ≤ b
    → nth_line (split_lines s) k ≡ some last
    → IsBetween (prefix_at s j a) (prefix_at s k b) (selected_text_range s (between j a k b))
unfolding selected_text_range OnLine
same_line s last j a k b e le line =
    rw (selected_text_range, e, beq_eq j k e, line) (within_line a b k s le last line)

later_line :
    (s last : Text) (j a k b : ℕ)
    → j < k
    → nth_line (split_lines s) k ≡ some last
    → IsBetween (prefix_at s j a) (prefix_at s k b) (selected_text_range s (between j a k b))
unfolding selected_text_range Selects
later_line s last j a k b h line =
    rw (selected_text_range, not_beq j k h, is_ltb j k h) (from_line a b j k s h last line)

-- Where the end of the range is not in front of its start and its line is in the text,
-- `selected_text_range` does not panic, and what it gives, put behind the text before the start of
-- the range, is the text before its end.
pub selected_text_range-IsBetween :
    (s : Text) (r : Range) (last : Text)
    → pos_leb r.start r.stop ≡ true
    → nth_line (split_lines s) r.stop.line ≡ some last
    → IsBetween
        (prefix_at s r.start.line r.start.character)
        (prefix_at s r.stop.line r.stop.character)
        (selected_text_range s r)
selected_text_range-IsBetween s r last h line = elim (Bool-cases (r.start.line == r.stop.line)) [
  | inl e ↦ same_line s last _ _ _ _ e (ground arith) line
  | inr e ↦ later_line s last _ _ _ _ (ground arith) line
]
