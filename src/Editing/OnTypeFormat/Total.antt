-- ===== src/Editing/OnTypeFormat/Total.antt =====
-- src/editing/on_type_format.rs: the backward scan of `close_brace` stays inside the text and never counts
-- its line below zero, so that no handler panics.
use php_lsp.Prelude.{
  leb, reverse, ℕ, zero, suc, ◌+◌, ◌-◌, ◌≤◌, ◌≡◌, ◌≢◌, refl, sym, ap, subst, ◌∙◌, Option, some,
  none, Bool, true, false, List, [], ◌∷◌, ◌==◌, if◌then◌else◌, take, length, get_elem?, arith,
  Bool-cases, inl, inr, ◌⊎◌, all,
}
use mathlib.Core.Option.{some-injective}
use mathlib.Core.List.{reverse_aux}
use php_lsp.Prelude.Chars.{Text, len_utf16, codes}
use php_lsp.Prelude.Strs.{
  as_lines, strip_return, cons_part, split_by, lines, is_whitespace, text_eq,
}
use php_lsp.Text.Offset.{newline, Position}
use php_lsp.Editing.StringMask.{MaskState, normal, mask_step, mask_from, string_literal_mask}
use php_lsp.Editing.OnTypeFormat.{
  FormattingOptions, scan_step, scan_back, onward, ScanStep, underflow, found, line_start,
  chars_within, with_mask, match_line_of, scan_from, in_front_of, with_match, close_brace,
  on_type_format,
}
use php_lsp.Editing.OnTypeFormat.Scan.{newlines}

-- What a step leaves of the lines: it does not count below zero.
abbrev Onward : ℕ → ScanStep → Type 0
Onward n underflow = 1 ≤ 0
Onward n (found l) = 0 ≤ 0
Onward n (onward depth line) = n ≤ line

scan_step-Onward :
    (c : ℕ) (masked : Bool) (s : List (ℕ × Bool)) (depth line : ℕ)
    → newlines ((c, masked) ∷ s) ≤ line
    → Onward (newlines s) (scan_step c masked depth line)
unfolding scan_step
scan_step-Onward c masked s depth line h = ground arith

scan_rest : List (ℕ × Bool) → ScanStep → Option (Option ℕ)
scan_rest s st = elim st [
  | underflow ↦ none
  | found match_line ↦ some (some match_line)
  | onward depth' line' ↦ scan_back s depth' line'
]

scan_rest-total :
    (s : List (ℕ × Bool)) (st : ScanStep)
    → ((depth line : ℕ) → newlines s ≤ line → scan_back s depth line ≢ none)
    → Onward (newlines s) st
    → scan_rest s st ≢ none
unfolding scan_rest
scan_rest-total s underflow ih h = absurd (omega (arith, h))
scan_rest-total s (found l) ih h = λ e. ground arith
scan_rest-total s (onward depth line) ih h = ih depth line h

scan_back-total :
    (s : List (ℕ × Bool)) (depth line : ℕ) → newlines s ≤ line → scan_back s depth line ≢ none
unfolding scan_back scan_rest
scan_back-total [] depth line h = λ e. ground arith
scan_back-total ((c, masked) ∷ s) depth line h =
    scan_rest-total s (scan_step c masked depth line) (scan_back-total s)
      (scan_step-Onward c masked s depth line h)

newlines-reverse_aux :
    (s t : List (ℕ × Bool)) → newlines (reverse_aux s t) ≡ newlines s + newlines t
newlines-reverse_aux [] t = omega arith
newlines-reverse_aux ((c, masked) ∷ s) t = ground (arith, newlines-reverse_aux s ((c, masked) ∷ t))

count : Text → ℕ
count [] = 0
count (c ∷ s) = if c == newline then suc (count s) else count s

newlines-with_mask :
    (n : ℕ) (s : Text) (mask : List Bool) → newlines (take n (with_mask s mask)) ≤ count (take n s)
unfolding with_mask count
newlines-with_mask zero s mask = omega arith
newlines-with_mask (suc n) [] mask = omega arith
newlines-with_mask (suc n) (c ∷ s) [] = omega arith
newlines-with_mask (suc n) (c ∷ s) (b ∷ mask) = ground (arith, newlines-with_mask n s mask)

first_of : List Text → Text
first_of [] = []
first_of (p ∷ parts) = p

abbrev is_newline : ℕ → Bool
is_newline c = c == newline

as_lines-tail :
    (c : ℕ) (parts : List Text) (k : ℕ)
    → get_elem? (as_lines (cons_part c parts)) (suc k) ≡ get_elem? (as_lines parts) (suc k)
as_lines-tail c [] k = refl
as_lines-tail c ([] ∷ []) k = refl
as_lines-tail c ((d ∷ p) ∷ []) k = refl
as_lines-tail c (p ∷ q ∷ parts) k = refl

length-strip_return : (p : Text) → length (strip_return p) ≤ length p
length-strip_return [] = omega arith
length-strip_return (c ∷ []) = ground arith
length-strip_return (c ∷ d ∷ s) = omega (arith, length-strip_return (d ∷ s))

as_lines-head :
    (parts : List Text) (l : Text)
    → get_elem? (as_lines parts) 0 ≡ some l
    → length l ≤ length (first_of parts)
unfolding first_of
as_lines-head [] l h = ground arith
as_lines-head ([] ∷ []) l h = ground arith
as_lines-head ((d ∷ p) ∷ []) l h = omega (arith, ap length (some-injective _ _ h))
as_lines-head (p ∷ q ∷ parts) l h =
    omega (arith, ap length (some-injective _ _ h), length-strip_return p)

as_lines-cons_part :
    (c : ℕ) (parts : List Text)
    → as_lines ([] ∷ cons_part c parts) ≡ [] ∷ as_lines (cons_part c parts)
as_lines-cons_part c [] = refl
as_lines-cons_part c (p ∷ parts) = refl

as_lines-newline :
    (s : Text) → as_lines ([] ∷ split_by is_newline s) ≡ [] ∷ as_lines (split_by is_newline s)
unfolding split_by
as_lines-newline [] = refl
as_lines-newline (c ∷ s) = elim (Bool-cases (is_newline c)) [
  | inl e ↦ rw e refl
  | inr e ↦ rw e (as_lines-cons_part c (split_by is_newline s))
]

first_of-cons_part :
    (c : ℕ) (parts : List Text)
    → length (first_of (cons_part c parts)) ≡ suc (length (first_of parts))
unfolding first_of
first_of-cons_part c [] = refl
first_of-cons_part c (p ∷ parts) = refl

first_of-split_by :
    (c : ℕ) (s : Text)
    → ((is_newline c ≡ true) × (length (first_of (split_by is_newline (c ∷ s))) ≡ 0))
      ⊎ ((is_newline c ≡ false)
          × (length (first_of (split_by is_newline (c ∷ s)))
              ≡ suc (length (first_of (split_by is_newline s)))))
unfolding first_of split_by
first_of-split_by c s = elim (Bool-cases (is_newline c)) [
  | inl e ↦ inl (e, rw e refl)
  | inr e ↦ inr (e, rw e (first_of-cons_part c (split_by is_newline s)))
]

count-first :
    (n : ℕ) (s : Text) → n ≤ length (first_of (split_by is_newline s)) → count (take n s) ≡ 0
unfolding count
count-first zero s h = refl
count-first (suc n) [] h = refl
count-first (suc n) (c ∷ s) h = elim (first_of-split_by c s) [
  | inl (e, z) ↦ absurd (omega (arith, z, h))
  | inr (e, z) ↦ rw e (count-first n s (omega (arith, z, h)))
]

lines-tail :
    (c : ℕ) (s : Text) (k : ℕ)
    → is_newline c ≡ false
    → get_elem? (lines (c ∷ s)) (suc k) ≡ get_elem? (lines s) (suc k)
unfolding split_by
lines-tail c s k e = rw e (as_lines-tail c (split_by is_newline s) k)

lines-newline : (c : ℕ) (s : Text) → is_newline c ≡ true → lines (c ∷ s) ≡ [] ∷ lines s
unfolding split_by
lines-newline c s e = rw e (as_lines-newline s)

count-head :
    (n : ℕ) (s l : Text) → get_elem? (lines s) 0 ≡ some l → n ≤ length l → count (take n s) ≡ 0
count-head n s l h b = count-first n s (omega (arith, b, as_lines-head (split_by is_newline s) l h))

no_line : (k : ℕ) (l : Text) → get_elem? (lines []) (suc k) ≢ some l
unfolding split_by
no_line k l = λ e. ground arith

-- The newlines among the characters of a text up to a number that is put together.
count-shift :
    (a b m : ℕ) (s : Text) (k : ℕ) → a + b ≡ m → count (take m s) ≤ k → count (take (a + b) s) ≤ k
count-shift a b m s k e h = subst (λ i. count (take i s) ≤ k) (sym e) h

-- Up to a place on line `k` there are at most `k` newlines.
count-line_start :
    (s : Text) (k n : ℕ) (l : Text)
    → get_elem? (lines s) k ≡ some l
    → n ≤ length l
    → count (take (line_start k s + n) s) ≤ k
unfolding line_start count
count-line_start s zero n l h b =
    count-shift 0 n n s 0 (omega arith) (omega (arith, count-head n s l h b))
count-line_start [] (suc k) n l h b = absurd (no_line k l h)
count-line_start (c ∷ s) (suc k) n l h b = elim (Bool-cases (is_newline c)) [
  | inl e ↦ rw e (
      count-shift (suc (line_start k s)) n (suc (line_start k s + n)) (c ∷ s) (suc k) (omega arith)
        (rw e (
          omega (
            arith,
            count-line_start s k n l
                (sym (ap (λ ls. get_elem? ls (suc k)) (lines-newline c s e)) ∙ h) b,
          ))))
  | inr e ↦ rw e (
      count-shift (suc (line_start (suc k) s)) n (suc (line_start (suc k) s + n)) (c ∷ s) (suc k)
        (omega arith) (rw e (count-line_start s (suc k) n l (sym (lines-tail c s k e) ∙ h) b)))
]

chars_within-length : (s : Text) (column used : ℕ) → chars_within column used s ≤ length s
unfolding chars_within
chars_within-length [] column used = omega arith
chars_within-length (c ∷ s) column used =
    ground (arith, chars_within-length s column (used + len_utf16 c))

length-mask_from : (state : MaskState) (s : Text) → length (mask_from state s) ≡ length s
unfolding mask_from
length-mask_from state [] = refl
length-mask_from state (c ∷ s) = ap suc (length-mask_from (mask_step state c s).1 s)

length-with_mask :
    (s : Text) (mask : List Bool) → length mask ≡ length s → length (with_mask s mask) ≡ length s
unfolding with_mask
length-with_mask [] mask h = refl
length-with_mask (c ∷ s) [] h = absurd (omega (arith, h))
length-with_mask (c ∷ s) (b ∷ mask) h = omega (arith, length-with_mask s mask (omega (arith, h)))

length-marked : (s : Text) → length (with_mask s (string_literal_mask s)) ≡ length s
unfolding string_literal_mask
length-marked s = length-with_mask s (mask_from normal s) (length-mask_from normal s)

length-first_of : (s : Text) → length (first_of (split_by is_newline s)) ≤ length s
unfolding first_of split_by
length-first_of [] = omega arith
length-first_of (c ∷ s) = elim (first_of-split_by c s) [
  | inl (e, z) ↦ omega (arith, z)
  | inr (e, z) ↦ omega (arith, z, length-first_of s)
]

-- A place on a line is inside the text.
line_start-bounded :
    (s : Text) (k n : ℕ) (l : Text)
    → get_elem? (lines s) k ≡ some l
    → n ≤ length l
    → line_start k s + n ≤ length s
unfolding line_start
line_start-bounded s zero n l h b =
    omega (arith, b, as_lines-head (split_by is_newline s) l h, length-first_of s)
line_start-bounded [] (suc k) n l h b = absurd (no_line k l h)
line_start-bounded (c ∷ s) (suc k) n l h b = elim (Bool-cases (is_newline c)) [
  | inl e ↦ rw e (
      omega (
        arith,
        line_start-bounded s k n l (sym (ap (λ ls. get_elem? ls (suc k)) (lines-newline c s e)) ∙ h)
            b,
      ))
  | inr e ↦ rw e (omega (arith, line_start-bounded s (suc k) n l (sym (lines-tail c s k e) ∙ h) b))
]

scan_from-total :
    (line n : ℕ) (marked : List (ℕ × Bool))
    → n ≤ length marked
    → newlines (take n marked) ≤ line
    → scan_from line (in_front_of n marked) ≢ none
unfolding scan_from
scan_from-total line n marked bound h = rw (fits n (length marked) bound) (
    scan_back-total (reverse (take n marked)) 1 line
      (omega (arith, newlines-reverse_aux (take n marked) [], h)))
  where
    fits : (a b : ℕ) → a ≤ b → leb a b ≡ true
    fits a b p = ground arith

match_line_of-total :
    (source : Text) (k n : ℕ) (l : Text)
    → get_elem? (lines source) k ≡ some l
    → n ≤ length l
    → match_line_of source k n ≢ none
unfolding match_line_of
match_line_of-total source k n l h b =
    scan_from-total k (line_start k source + n) (with_mask source (string_literal_mask source))
      (omega (arith, length-marked source, line_start-bounded source k n l h b))
      (omega (
        arith,
        newlines-with_mask (line_start k source + n) source (string_literal_mask source),
        count-line_start source k n l h b,
      ))

with_match-total :
    (source : Text) (position : Position) (cur_line : Text) (found_line : Option (Option ℕ))
    → found_line ≢ none
    → with_match source position cur_line found_line ≢ none
with_match-total source position cur_line none h = absurd (h refl)
with_match-total source position cur_line (some m) h = λ e. ground arith

brace_col_bounded : (column : ℕ) (l : Text) → chars_within column 0 l - 1 ≤ length l
brace_col_bounded column l = omega (arith, chars_within-length l column 0)

close_brace-on_line :
    (source : Text) (position : Position) (o : Option Text)
    → get_elem? (lines source) position.line ≡ o
    → close_brace source position ≢ none
unfolding close_brace
close_brace-on_line source position none h = rw (close_brace, h) (λ e. ground arith)
close_brace-on_line source position (some l) h =
    elim (Bool-cases (all is_whitespace (take (chars_within position.character 0 l - 1) l))) [
      | inl t ↦
          rw (close_brace, h, t)
            (with_match-total source position l
              (match_line_of source position.line (chars_within position.character 0 l - 1))
              (match_line_of-total source position.line _ l h
                (brace_col_bounded position.character l)))
      | inr t ↦ rw (close_brace, h, t) (λ e. ground arith)
    ]

-- `on_type_format` does not panic at any position of any text: the backward scan reads no index
-- out of bounds and counts no line below zero.
pub on_type_format-total :
    (source : Text) (position : Position) (ch : Text) (options : FormattingOptions)
    → on_type_format source position ch options ≢ none
unfolding on_type_format
on_type_format-total source position ch options = elim (Bool-cases (text_eq ch (codes "}"))) [
  | inl t ↦ rw t (close_brace-on_line source position _ refl)
  | inr t ↦ elim (Bool-cases (text_eq ch (codes "\n"))) [
    | inl n ↦ rw (t, n) (λ e. ground arith)
    | inr n ↦ rw (t, n) (λ e. ground arith)
  ]
]
