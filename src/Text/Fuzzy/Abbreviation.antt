-- ===== src/Text/Fuzzy/Abbreviation.antt =====
-- src/text/fuzzy.rs: what `camel_match` accepts.
use php_lsp.Prelude.{
  ℕ, ◌≡◌, refl, sym, subst, ◌⊎◌, inl, inr, ◌↔◌, Option, none, some, true, [], ◌∷◌, ◌++◌,
  if◌then◌else◌, arith, Bool-cases,
}
use php_lsp.Prelude.Chars.{Text}
use php_lsp.Text.Fuzzy.{
  CharTables, FuzzyQuery, starts_loop, lowered, starts_with_at, boundary, abbrev_loop, camel_abbrev,
  camel_match,
}

-- The characters of the first text stand in the second in this order.
abbrev pub Subsequence : Text → Text → Type 0
Subsequence [] ys = Unit
Subsequence (x ∷ xs) [] = ⊥
Subsequence (x ∷ xs) (y ∷ ys) = ((x ≡ y) × Subsequence xs ys) ⊎ Subsequence (x ∷ xs) ys

abbrev pub first_then : Text → Text → Text
first_then [] rest = rest
first_then (c ∷ s) rest = c ∷ rest

-- A text that goes on from another one.
abbrev pub HasPrefix : Text → Text → Type 0
HasPrefix prefix text = (rest : Text) × (text ≡ prefix ++ rest)

Subsequence-tail : (x : ℕ) (xs ys : Text) → Subsequence (x ∷ xs) ys → Subsequence xs ys
Subsequence-tail x xs [] h = absurd h
Subsequence-tail x [] (y ∷ ys) h = tt
Subsequence-tail x (x' ∷ xs) (y ∷ ys) (inl (e, h)) = inr h
Subsequence-tail x (x' ∷ xs) (y ∷ ys) (inr h) = inr (Subsequence-tail x (x' ∷ xs) ys h)

starts_loop_rest : (q c : Text) → starts_loop q c ≡ true → HasPrefix q c
unfolding starts_loop
starts_loop_rest [] c h = (c, refl)
starts_loop_rest (x ∷ q) [] h = absurd cc
starts_loop_rest (x ∷ q) (y ∷ c) h =
    let (rest, e) = starts_loop_rest q c (ground arith) in (rest, ground arith)

starts_loop-append : (q rest : Text) → starts_loop q (q ++ rest) ≡ true
unfolding starts_loop
starts_loop-append [] rest = refl
starts_loop-append (x ∷ q) rest = ground (arith, starts_loop-append q rest)

pub starts_loop-HasPrefix : (q c : Text) → (starts_loop q c ≡ true) ↔ HasPrefix q c
starts_loop-HasPrefix q c = (
  starts_loop_rest q c,
  λ (rest, e). subst (λ t. starts_loop q t ≡ true) (sym e) (starts_loop-append q rest),
)

module _ (u : CharTables) where
  -- The lowercase letters at the starts of the words of a candidate.
  abbrev pub initials : Option ℕ → Text → Text
  initials prev [] = []
  initials prev (c ∷ s) =
      let rest = initials (some c) s in
      if boundary u prev c then first_then (u.to_lowercase c) rest else rest

  abbrev_loop_sound :
      (q : Text) (prev : Option ℕ) (s : Text)
      → abbrev_loop u q prev s ≡ true
      → Subsequence q (initials prev s)
  unfolding abbrev_loop
  abbrev_loop_sound [] prev s h = tt
  abbrev_loop_sound (x ∷ q) prev [] h = absurd cc
  abbrev_loop_sound (x ∷ q) prev (c ∷ s) h =
      ground (arith, abbrev_loop_sound q (some c) s, abbrev_loop_sound (x ∷ q) (some c) s)

  abbrev_loop_complete :
      (q : Text) (prev : Option ℕ) (s : Text)
      → Subsequence q (initials prev s)
      → abbrev_loop u q prev s ≡ true
  unfolding abbrev_loop
  abbrev_loop_complete [] prev s h = refl
  abbrev_loop_complete (x ∷ q) prev [] h = absurd h
  abbrev_loop_complete (x ∷ q) prev (c ∷ s) h = ground (
    arith,
    abbrev_loop_complete q (some c) s,
    abbrev_loop_complete (x ∷ q) (some c) s,
    Subsequence-tail x q (initials (some c) s),
  )

  camel_sound :
      (q : Text) (candidate : Text)
      → camel_match u (record { lower = q }) candidate ≡ true
      → HasPrefix q (lowered u candidate) ⊎ Subsequence q (initials none candidate)
  unfolding camel_match camel_abbrev starts_with_at
  camel_sound [] candidate h = inr tt
  camel_sound (c ∷ q) candidate h = elim (Bool-cases (starts_loop (c ∷ q) (lowered u candidate))) [
    | inl e ↦ inl (starts_loop_rest (c ∷ q) (lowered u candidate) e)
    | inr e ↦ inr (abbrev_loop_sound (c ∷ q) none candidate (rw (starts_loop, e) at h))
  ]

  camel_complete :
      (q : Text) (candidate : Text)
      → HasPrefix q (lowered u candidate) ⊎ Subsequence q (initials none candidate)
      → camel_match u (record { lower = q }) candidate ≡ true
  unfolding camel_match camel_abbrev starts_with_at
  camel_complete [] candidate h = refl
  camel_complete (c ∷ q) candidate (inl p) =
      ground (arith, (starts_loop-HasPrefix (c ∷ q) (lowered u candidate)).1 p)
  camel_complete (c ∷ q) candidate (inr p) =
      ground (arith, abbrev_loop_complete (c ∷ q) none candidate p)

  -- `camel_match` accepts the candidates whose lowercase form goes on from the query, and those in
  -- which the letters of the query start words, in the order of the query, and no others.
  pub camel_match-Subsequence :
      (query : FuzzyQuery) (candidate : Text)
      → (camel_match u query candidate ≡ true) ↔ (
          HasPrefix query.lower (lowered u candidate)
          ⊎ Subsequence query.lower (initials none candidate))
  camel_match-Subsequence query candidate =
      (camel_sound query.lower candidate, camel_complete query.lower candidate)
