-- ===== src/Lang/DocHtml/Total.antt =====
-- The loop of `html_to_markdown` and its fuel.
use php_lsp.Prelude.{
  ℕ, zero, suc, ◌-◌, ◌≤◌, ◌≢◌, Option, none, some, Bool, true, false, ◌&&◌, [], ◌∷◌, ◌++◌, length,
  ltb, ◌==◌, any, if◌then◌else◌, arith, Bool-cases, inl, inr,
}
use php_lsp.Prelude.Chars.{Text, len_utf8}
use php_lsp.Prelude.Strs.{span_to}
use php_lsp.Lang.DocHtml.{
  tag_markdown, tag, entity_char, to_semicolon, entity, or_kept, convert_mark, is_mark, after,
  convert, html_to_markdown, tidy_whitespace,
}

length-span_to : (test : ℕ → Bool) (s : Text) → length (span_to test s).1 ≤ length s
unfolding span_to
length-span_to test [] = omega arith
length-span_to test (c ∷ s) = ground (arith, length-span_to test s)

-- The text behind what was consumed is no longer.
Behind : ℕ → Option (Text × Text) → Type 0
Behind n none = 0 ≤ n
Behind n (some consumed) = length consumed.1 ≤ n

Behind-semicolon :
    (hit : Bool) (c : ℕ) (s : Text) (o : Option (Text × Text))
    → Behind (length s) o
    → Behind (suc (length s)) (elim o [
      | none ↦ if hit then some ([], s) else none
      | some (name, behind) ↦ if hit then some ([], s) else some (c ∷ name, behind)
    ])
unfolding Behind
Behind-semicolon true c s none h = omega arith
Behind-semicolon false c s none h = omega arith
Behind-semicolon true c s (some (name, behind)) h = omega arith
Behind-semicolon false c s (some (name, behind)) h = omega (arith, h)

Behind-to_semicolon : (bytes : ℕ) (s : Text) → Behind (length s) (to_semicolon bytes s)
unfolding Behind to_semicolon
Behind-to_semicolon bytes [] = omega arith
Behind-to_semicolon bytes (c ∷ s) =
    Behind-semicolon (c == b';' && ltb 0 bytes) c s _ (Behind-to_semicolon (bytes - len_utf8 c) s)

Behind-char :
    (n : ℕ) (behind : Text) (e : Option ℕ)
    → length behind ≤ n
    → Behind n (elim e [ none ↦ none | some c ↦ some (c ∷ [], behind) ])
unfolding Behind
Behind-char n behind none h = omega arith
Behind-char n behind (some c) h = h

Behind-named :
    (n : ℕ) (o : Option (Text × Text))
    → Behind n o
    → Behind n (elim o [
      | none ↦ none
      | some (name, behind) ↦ elim (entity_char name) [
        | none ↦ none
        | some c ↦ some (c ∷ [], behind)
      ]
    ])
unfolding Behind
Behind-named n none h = h
Behind-named n (some (name, behind)) h = Behind-char n behind (entity_char name) h

Behind-entity : (s : Text) → Behind (length s) (entity s)
unfolding entity
Behind-entity s = Behind-named (length s) (to_semicolon 9 s) (Behind-to_semicolon 9 s)

Behind-markdown :
    (n : ℕ) (behind : Text) (e : Option Text)
    → length behind ≤ n
    → Behind n (elim e [ none ↦ none | some md ↦ some (md, behind) ])
unfolding Behind
Behind-markdown n behind none h = omega arith
Behind-markdown n behind (some md) h = h

Behind-closed :
    (n : ℕ) (inner rest : Text)
    → length rest ≤ n
    → Behind n (elim rest [
      | [] ↦ none
      | c ∷ behind ↦ elim (tag_markdown inner) [ none ↦ none | some md ↦ some (md, behind) ]
    ])
unfolding Behind
Behind-closed n inner [] h = omega arith
Behind-closed n inner (c ∷ behind) h =
    Behind-markdown n behind (tag_markdown inner) (omega (arith, h))

Behind-tag : (s : Text) → Behind (length s) (tag s)
unfolding tag
Behind-tag s =
    Behind-closed (length s) (span_to (λ c. c == b'>') s).0 (span_to (λ c. c == b'>') s).1
      (length-span_to (λ c. c == b'>') s)

length-or_kept :
    (c : ℕ) (s : Text) (o : Option (Text × Text))
    → Behind (length s) o
    → length (or_kept c s o).1 ≤ length s
unfolding Behind
length-or_kept c s none h = omega arith
length-or_kept c s (some consumed) h = h

length-convert_mark : (c : ℕ) (s : Text) → length (convert_mark c s).1 ≤ length s
unfolding convert_mark
length-convert_mark c s = elim (Bool-cases (c == b'<')) [
  | inl e ↦ rw e (length-or_kept c s (tag s) (Behind-tag s))
  | inr e ↦ rw e (length-or_kept c s (entity s) (Behind-entity s))
]

after-total : (out : Text) (o : Option Text) → o ≢ none → after out o ≢ none
after-total out none h = h
after-total out (some rest) h = λ e. ground arith

convert_rest-total :
    (fuel : ℕ) (before rest : Text)
    → ((s : Text) → length s ≤ fuel → convert fuel s ≢ none)
    → length rest ≤ suc fuel
    → elim rest [
      | [] ↦ some before
      | c ∷ t ↦ after (before ++ (convert_mark c t).0) (convert fuel (convert_mark c t).1)
    ]
      ≢ none
convert_rest-total fuel before [] ih h = λ e. ground arith
convert_rest-total fuel before (c ∷ t) ih h =
    after-total (before ++ (convert_mark c t).0) _
      (ih (convert_mark c t).1 (omega (arith, h, length-convert_mark c t)))

convert-total : (fuel : ℕ) (s : Text) → length s ≤ fuel → convert fuel s ≢ none
unfolding convert span_to
convert-total zero [] h = λ e. ground arith
convert-total zero (c ∷ s) h = absurd (omega (arith, h))
convert-total (suc fuel) s h =
    convert_rest-total fuel (span_to is_mark s).0 (span_to is_mark s).1 (convert-total fuel)
      (omega (arith, h, length-span_to is_mark s))

tidied-total :
    (o : Option Text)
    → o ≢ none
    → elim o as (λ x. Option Text) [ none ↦ none | some out ↦ some (tidy_whitespace out) ] ≢ none
tidied-total none h = h
tidied-total (some out) h = λ e. ground arith

-- The loop of `html_to_markdown` ends on every text.
pub html_to_markdown-total : (text : Text) → html_to_markdown text ≢ none
unfolding html_to_markdown
html_to_markdown-total text = elim (Bool-cases (any is_mark text)) [
  | inl e ↦ rw e (tidied-total _ (convert-total (length text) text (omega arith)))
  | inr e ↦ rw e (λ h. ground arith)
]
