-- ===== src/Lang/DocHtml/Escaped.antt =====
-- The loop of `html_to_markdown` on escaped text.
use php_lsp.Prelude.{
  ℕ, zero, suc, ◌≤◌, ◌≡◌, refl, ap, sym, subst, Option, none, some, true, false, [], ◌∷◌, ◌++◌,
  length, any, ◌==◌, if◌then◌else◌, arith, Bool-cases, inl, inr,
}
use mathlib.Core.Option.{some-injective}
use php_lsp.Prelude.Chars.{Text, len_utf8}
use php_lsp.Prelude.Strs.{span_to, text_eq}
use php_lsp.Lang.DocHtml.{
  entity_char, to_semicolon, entity, convert_mark, is_mark, after, convert, html_to_markdown,
  tidy_whitespace,
}

-- The text with `<`, `>` and `&` written as entities.
unfoldable pub escape : Text → Text
escape [] = []
escape (c ∷ s) =
    let rest = escape s in
    if c == b'<'
    then b'&' ∷ b'l' ∷ b't' ∷ b';' ∷ rest
    else if c == b'>'
    then b'&' ∷ b'g' ∷ b't' ∷ b';' ∷ rest
    else if c == b'&'
    then b'&' ∷ b'a' ∷ b'm' ∷ b'p' ∷ b';' ∷ rest
    else c ∷ rest

semicolon :
    (o : Option (Text × Text)) (s : Text)
    → elim o as (λ x. Option (Text × Text)) [
      | none ↦ if true then some ([], s) else none
      | some (name, behind) ↦ if true then some ([], s) else some (b';' ∷ name, behind)
    ]
      ≡ some ([], s)
semicolon none s = refl
semicolon (some (name, behind)) s = refl

to_semicolon-lt : (s : Text) → to_semicolon 9 (b'l' ∷ b't' ∷ b';' ∷ s) ≡ some (b'l' ∷ b't' ∷ [], s)
unfolding to_semicolon len_utf8
to_semicolon-lt s = rw (semicolon (to_semicolon 6 s) s) refl

to_semicolon-gt : (s : Text) → to_semicolon 9 (b'g' ∷ b't' ∷ b';' ∷ s) ≡ some (b'g' ∷ b't' ∷ [], s)
unfolding to_semicolon len_utf8
to_semicolon-gt s = rw (semicolon (to_semicolon 6 s) s) refl

to_semicolon-amp :
    (s : Text) → to_semicolon 9 (b'a' ∷ b'm' ∷ b'p' ∷ b';' ∷ s) ≡ some (b'a' ∷ b'm' ∷ b'p' ∷ [], s)
unfolding to_semicolon len_utf8
to_semicolon-amp s = rw (semicolon (to_semicolon 5 s) s) refl

convert-mark :
    (fuel : ℕ) (t out behind s : Text)
    → convert_mark b'&' t ≡ (out, behind)
    → convert fuel behind ≡ some s
    → convert (suc fuel) (b'&' ∷ t) ≡ some (out ++ s)
unfolding convert span_to
convert-mark fuel t out behind s e h = rw (convert, e, h) refl

cons_ends :
    (c : ℕ) (before rest s : Text)
    → elim rest as (λ x. Option Text) [ [] ↦ some before | d ∷ t ↦ none ] ≡ some s
    → elim rest as (λ x. Option Text) [ [] ↦ some (c ∷ before) | d ∷ t ↦ none ] ≡ some (c ∷ s)
cons_ends c before [] s h = ap (λ u. some (c ∷ u)) (some-injective _ _ h)
cons_ends c before (d ∷ t) s h = absurd (ground arith)

after-cons :
    (c : ℕ) (out s : Text) (o : Option Text)
    → after out o ≡ some s
    → after (c ∷ out) o ≡ some (c ∷ s)
after-cons c out s none h = absurd (ground arith)
after-cons c out s (some rest) h = ap (λ u. some (c ∷ u)) (some-injective _ _ h)

cons_goes_on :
    (fuel c : ℕ) (before rest s : Text)
    → elim rest as (λ x. Option Text) [
      | [] ↦ some before
      | d ∷ t ↦ after (before ++ (convert_mark d t).0) (convert fuel (convert_mark d t).1)
    ]
      ≡ some s
    → elim rest as (λ x. Option Text) [
      | [] ↦ some (c ∷ before)
      | d ∷ t ↦ after (c ∷ (before ++ (convert_mark d t).0)) (convert fuel (convert_mark d t).1)
    ]
      ≡ some (c ∷ s)
cons_goes_on fuel c before [] s h = ap (λ u. some (c ∷ u)) (some-injective _ _ h)
cons_goes_on fuel c before (d ∷ t) s h =
    after-cons c (before ++ (convert_mark d t).0) s (convert fuel (convert_mark d t).1) h

span_to-cons :
    (c : ℕ) (t : Text)
    → is_mark c ≡ false
    → span_to is_mark (c ∷ t) ≡ (c ∷ (span_to is_mark t).0, (span_to is_mark t).1)
unfolding span_to
span_to-cons c t e = rw e refl

convert-cons :
    (fuel c : ℕ) (t s : Text)
    → is_mark c ≡ false
    → convert fuel t ≡ some s
    → convert fuel (c ∷ t) ≡ some (c ∷ s)
unfolding convert span_to
convert-cons zero c t s e h =
    subst (λ p. elim p.1 as (λ x. Option Text) [ [] ↦ some p.0 | d ∷ u ↦ none ] ≡ some (c ∷ s))
      (sym (span_to-cons c t e)) (cons_ends c (span_to is_mark t).0 (span_to is_mark t).1 s h)
convert-cons (suc fuel) c t s e h =
    subst
      (λ p.
        elim p.1 as (λ x. Option Text) [
          | [] ↦ some p.0
          | d ∷ u ↦ after (p.0 ++ (convert_mark d u).0) (convert fuel (convert_mark d u).1)
        ]
        ≡ some (c ∷ s))
      (sym (span_to-cons c t e))
      (cons_goes_on fuel c (span_to is_mark t).0 (span_to is_mark t).1 s h)

convert-nil : (fuel : ℕ) → convert fuel [] ≡ some []
unfolding convert span_to
convert-nil zero = refl
convert-nil (suc fuel) = refl

mark_lt : (s : Text) → convert_mark b'&' (b'l' ∷ b't' ∷ b';' ∷ s) ≡ (b'<' ∷ [], s)
unfolding convert_mark entity entity_char text_eq
mark_lt s = rw (convert_mark, entity, to_semicolon-lt s) refl

mark_gt : (s : Text) → convert_mark b'&' (b'g' ∷ b't' ∷ b';' ∷ s) ≡ (b'>' ∷ [], s)
unfolding convert_mark entity entity_char text_eq
mark_gt s = rw (convert_mark, entity, to_semicolon-gt s) refl

mark_amp : (s : Text) → convert_mark b'&' (b'a' ∷ b'm' ∷ b'p' ∷ b';' ∷ s) ≡ (b'&' ∷ [], s)
unfolding convert_mark entity entity_char text_eq
mark_amp s = rw (convert_mark, entity, to_semicolon-amp s) refl

beq_eq : (j k : ℕ) → j == k ≡ true → j ≡ k
beq_eq j k e = ground arith

pub convert-escape : (s : Text) (fuel : ℕ) → length s ≤ fuel → convert fuel (escape s) ≡ some s
unfolding escape
convert-escape [] fuel h = convert-nil fuel
convert-escape (c ∷ s) zero h = absurd (omega (arith, h))
convert-escape (c ∷ s) (suc fuel) h = elim (Bool-cases (c == b'<')) [
  | inl e ↦
      rw (e, beq_eq c b'<' e)
        (convert-mark fuel _ (b'<' ∷ []) (escape s) s (mark_lt (escape s))
          (convert-escape s fuel (omega (arith, h))))
  | inr e ↦ elim (Bool-cases (c == b'>')) [
    | inl f ↦
        rw (e, f, beq_eq c b'>' f)
          (convert-mark fuel _ (b'>' ∷ []) (escape s) s (mark_gt (escape s))
            (convert-escape s fuel (omega (arith, h))))
    | inr f ↦ elim (Bool-cases (c == b'&')) [
      | inl g ↦
          rw (e, f, g, beq_eq c b'&' g)
            (convert-mark fuel _ (b'&' ∷ []) (escape s) s (mark_amp (escape s))
              (convert-escape s fuel (omega (arith, h))))
      | inr g ↦
          rw (e, f, g)
            (convert-cons (suc fuel) c (escape s) s (rw (e, g) refl)
              (convert-escape s (suc fuel) (omega (arith, h))))
    ]
  ]
]

length-escape : (s : Text) → length s ≤ length (escape s)
unfolding escape
length-escape [] = omega arith
length-escape (c ∷ s) = ground (arith, length-escape s)

-- A text whose `<`, `>` and `&` are written as entities, if the written text holds a `<` or a `&`,
-- is decoded by `html_to_markdown`, up to its tidying of white space.
pub html_to_markdown-escape :
    (s : Text)
    → any is_mark (escape s) ≡ true
    → html_to_markdown (escape s) ≡ some (tidy_whitespace s)
unfolding html_to_markdown
html_to_markdown-escape s h =
    rw (html_to_markdown, h, convert-escape s (length (escape s)) (length-escape s)) refl
