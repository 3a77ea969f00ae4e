-- ===== src/Index/Glob/Agrees.antt =====
-- src/index/mod.rs: `segment_matches` agrees with the meaning of patterns.
use php_lsp.Prelude.{
  ℕ, zero, suc, ◌+◌, ◌*◌, ◌≤◌, ◌<◌, ◌≡◌, ◌≢◌, refl, Option, none, some, Bool, true, false, ◌||◌, [],
  ◌∷◌, any, all, ◌==◌, length, arith, Bool-cases, inl, inr, sym, ap, subst, ◌∙◌, ==_iff,
}
use php_lsp.Prelude.Strs.{text_eq}
use php_lsp.Prelude.Chars.{Text, Lacks}
use php_lsp.Index.Glob.{star, question, is_wild, tail, wild_loop, wild_fuel, segment_matches}
use php_lsp.Index.Glob.Reference.{any_suffix, any_tail, glob}

-- The choices that a backtrack point leaves open.
abbrev open_choices : Option (Text × Text) → Bool
open_choices none = false
open_choices (some (star_p, star_n)) = any_tail (glob star_p) star_n

-- What the choices left open could match, the rest of the pattern finds too, further on in the name.
abbrev Covers : Option (Text × Text) → Text → Text → Type 0
Covers none p n = Unit
Covers (some (star_p, star_n)) p n =
    any_tail (glob star_p) star_n ≡ true → any_suffix (glob p) n ≡ true

-- A rough bound on the rounds left.
abbrev pub rounds : ℕ → Text → Text → Option (Text × Text) → ℕ
rounds k p n none = (length n + 1) * k + length p
rounds k p n (some (star_p, star_n)) = length star_n * k + length p

glob_end : (p : Text) → all (λ c. c == star) p ≡ glob p []
unfolding glob
glob_end [] = refl
glob_end (c ∷ p) = ground (arith, glob_end p)

any_suffix_step :
    (c : ℕ) (p n : Text) (d : ℕ)
    → c ≢ star
    → any_suffix (glob (c ∷ p)) (d ∷ n) ≡ true
    → any_suffix (glob p) n ≡ true
unfolding glob
any_suffix_step c p [] d h e = ground arith
any_suffix_step c p (d' ∷ n) d h e = ground (arith, any_suffix_step c p n d' h)

-- A star in front changes nothing about the suffixes that match.
any_suffix-star :
    (p n : Text) → any_suffix (glob (star ∷ p)) n ≡ true → any_suffix (glob p) n ≡ true
unfolding glob
any_suffix-star p [] e = e
any_suffix-star p (d ∷ n) e = ground (arith, any_suffix-star p n)

-- The facts that every round keeps: `k` bounds what is left of the pattern, behind a backtrack point
-- too, and the name is not longer than from there on.
abbrev Fits : ℕ → Text → Text → Option (Text × Text) → Type 0
Fits k p n none = (length p < k) × Lacks star n
Fits k p n (some (star_p, star_n)) =
    (length p < k)
    × (length star_p < k)
    × (length n ≤ length star_n)
    × Lacks star n
    × Lacks star star_n

pub mul_mono : (a b k : ℕ) → a ≤ b → a * k ≤ b * k
mul_mono a b k h = grind arith

-- The value of a state: what the rest matches, and what the backtrack point leaves open.
abbrev value : Text → Text → Option (Text × Text) → Bool
value p n backtrack = glob p n || open_choices backtrack

glob_mark : (p n : Text) (d : ℕ) → glob (star ∷ p) (d ∷ n) ≡ value p (d ∷ n) (some (p, d ∷ n))
unfolding glob
glob_mark p n d = refl

any_suffix_here : (q : Text → Bool) (n : Text) → any_suffix q n ≡ (q n || any_tail q n)
any_suffix_here q [] = ground arith
any_suffix_here q (d ∷ n) = refl

-- With the star of the pattern next, its choices cover those of the point before.
covered :
    (star_p star_n p n : Text) (d : ℕ)
    → Covers (some (star_p, star_n)) (star ∷ p) (d ∷ n)
    → value (star ∷ p) (d ∷ n) (some (star_p, star_n)) ≡ value p (d ∷ n) (some (p, d ∷ n))
covered star_p star_n p n d h = elim (Bool-cases (any_tail (glob star_p) star_n)) [
  | inl e ↦ ground (arith, glob_mark p n d, any_suffix-star p (d ∷ n) (h e))
  | inr e ↦ ground (arith, glob_mark p n d)
]

-- The conclusion about a state, whatever fuel is enough.
abbrev Agrees : ℕ → ℕ → Text → Text → Option (Text × Text) → Type 0
Agrees fuel k p n b =
    Fits k p n b → Covers b p n → rounds k p n b < fuel → wild_loop fuel p n b ≡ some (value p n b)

Agrees-end : (fuel k : ℕ) (p : Text) (b : Option (Text × Text)) → Agrees (suc fuel) k p [] b
unfolding wild_loop
Agrees-end fuel k p none fits covers h = ground (arith, glob_end p)
Agrees-end fuel k p (some (star_p, star_n)) fits covers h = ground (arith, glob_end p)

tail_covers : (q : Text → Bool) (n : Text) → any_tail q n ≡ true → any_suffix q n ≡ true
tail_covers q n e = ground (arith, any_suffix_here q n)

Agrees-retry :
    (fuel k : ℕ) (star_p n star_n : Text) (p : Text) (d : ℕ)
    → ((p' n' : Text) (b : Option (Text × Text)) → Agrees fuel k p' n' b)
    → Fits k p (d ∷ n) (some (star_p, star_n))
    → rounds k p (d ∷ n) (some (star_p, star_n)) < suc fuel
    → wild_loop fuel star_p (tail star_n) (some (star_p, tail star_n))
      ≡ some (any_tail (glob star_p) star_n)
Agrees-retry fuel k star_p n [] p d ih fits h = absurd (omega arith)
Agrees-retry fuel k star_p n (e ∷ star_n) p d ih fits h =
    ih star_p star_n (some (star_p, star_n)) (fits.1, fits.1, omega arith, fits.4.1, fits.4.1)
      (tail_covers (glob star_p) star_n) (omega arith)
    ∙ ap some (sym (any_suffix_here (glob star_p) star_n))

Agrees-mark :
    (fuel k : ℕ) (p n : Text) (d : ℕ)
    → ((p' n' : Text) (b : Option (Text × Text)) → Agrees fuel k p' n' b)
    → length p < k
    → Lacks star (d ∷ n)
    → length (d ∷ n) * k + length p < fuel
    → wild_loop fuel p (d ∷ n) (some (p, d ∷ n)) ≡ some (value p (d ∷ n) (some (p, d ∷ n)))
Agrees-mark fuel k p n d ih small lacks h =
    ih p (d ∷ n) (some (p, d ∷ n)) (small, small, omega arith, lacks, lacks)
      (tail_covers (glob p) (d ∷ n)) h

-- A round that consumes a character of both.
value_step :
    (c d : ℕ) (p n : Text) (b : Option (Text × Text))
    → d ≢ star
    → (c == question || c == d) ≡ true
    → value (c ∷ p) (d ∷ n) b ≡ value p n b
unfolding glob
value_step c d p n b hd e = ground arith

Covers-step :
    (c d : ℕ) (p n : Text) (b : Option (Text × Text))
    → d ≢ star
    → (c == question || c == d) ≡ true
    → Covers b (c ∷ p) (d ∷ n)
    → Covers b p n
Covers-step c d p n none hd e h = tt
Covers-step c d p n (some (star_p, star_n)) hd e h =
    λ t. any_suffix_step c p n d (ground arith) (h t)

value_stuck :
    (c d : ℕ) (p n : Text) (b : Option (Text × Text))
    → (c == question || c == d) ≡ false
    → (c == star) ≡ false
    → value (c ∷ p) (d ∷ n) b ≡ open_choices b
unfolding glob
value_stuck c d p n b e f = ground arith

value_mark :
    (c : ℕ) (p n : Text) (d : ℕ)
    → (c == star) ≡ true
    → value (c ∷ p) (d ∷ n) none ≡ value p (d ∷ n) (some (p, d ∷ n))
unfolding glob
value_mark c p n d e = ground arith

value_cover :
    (c : ℕ) (star_p star_n p n : Text) (d : ℕ)
    → (c == star) ≡ true
    → Covers (some (star_p, star_n)) (c ∷ p) (d ∷ n)
    → value (c ∷ p) (d ∷ n) (some (star_p, star_n)) ≡ value p (d ∷ n) (some (p, d ∷ n))
value_cover c star_p star_n p n d e =
    subst
      (λ x.
        Covers (some (star_p, star_n)) (x ∷ p) (d ∷ n)
        → value (x ∷ p) (d ∷ n) (some (star_p, star_n)) ≡ value p (d ∷ n) (some (p, d ∷ n)))
      (sym ((==_iff c star).0 e)) (covered star_p star_n p n d)

agrees : (fuel k : ℕ) (p n : Text) (b : Option (Text × Text)) → Agrees fuel k p n b
unfolding wild_loop
agrees zero k p n none fits covers h = absurd (omega arith)
agrees zero k p n (some (star_p, star_n)) fits covers h = absurd (omega arith)
agrees (suc fuel) k p [] b fits covers h = Agrees-end fuel k p b fits covers h
agrees (suc fuel) k [] (d ∷ n) none fits covers h = unfold glob in refl
agrees (suc fuel) k [] (d ∷ n) (some (star_p, star_n)) fits covers h =
    rw (Agrees-retry fuel k star_p n star_n [] d (agrees fuel k) fits h) (unfold glob in refl)
agrees (suc fuel) k (c ∷ p) (d ∷ n) none fits covers h =
    elim (Bool-cases (c == question || c == d)) [
      | inl e ↦ rw e (
          agrees fuel k p n none (omega arith, fits.1.1) tt (omega arith)
          ∙ ap some (sym (value_step c d p n none fits.1.0 e)))
      | inr e ↦ elim (Bool-cases (c == star)) [
        | inl f ↦
            rw (e, f)
              (Agrees-mark fuel k p n d (agrees fuel k) (omega arith) fits.1 (omega arith)
                ∙ ap some (sym (value_mark c p n d f)))
        | inr f ↦ rw (e, f) (ap some (sym (value_stuck c d p n none e f)))
      ]
    ]
agrees (suc fuel) k (c ∷ p) (d ∷ n) (some (star_p, star_n)) fits covers h =
    elim (Bool-cases (c == question || c == d)) [
      | inl e ↦ rw e (
          agrees fuel k p n (some (star_p, star_n))
            (omega arith, fits.1, omega arith, fits.3.1, fits.4)
            (Covers-step c d p n (some (star_p, star_n)) fits.3.0 e covers) (omega arith)
          ∙ ap some (sym (value_step c d p n (some (star_p, star_n)) fits.3.0 e)))
      | inr e ↦ elim (Bool-cases (c == star)) [
        | inl f ↦
            rw (e, f)
              (Agrees-mark fuel k p n d (agrees fuel k) (omega arith) fits.3
                  (omega (arith, mul_mono (length (d ∷ n)) (length star_n) k fits.2))
                ∙ ap some (sym (value_cover c star_p star_n p n d f covers)))
        | inr f ↦
            rw (e, f)
              (Agrees-retry fuel k star_p n star_n (c ∷ p) d (agrees fuel k) fits h
                ∙ ap some (sym (value_stuck c d p n (some (star_p, star_n)) e f)))
      ]
    ]

any_wild_none : (p : Text) → any is_wild p ≡ false → (n : Text) → text_eq p n ≡ glob p n
unfolding text_eq glob
any_wild_none [] h [] = refl
any_wild_none [] h (d ∷ n) = refl
any_wild_none (c ∷ p) h [] = ground arith
any_wild_none (c ∷ p) h (d ∷ n) = ground (arith, any_wild_none p (ground arith) n)

-- The loop gives the meaning of the pattern, with wildcards or without, for a name that holds no
-- `*` itself.
pub segment_matches-glob : (p n : Text) → Lacks star n → segment_matches p n ≡ glob p n
unfolding segment_matches
segment_matches-glob p n lacks = elim (Bool-cases (any is_wild p)) [
  | inl e ↦
      rw (e, agrees (wild_fuel p n) (length p + 1) p n none (omega arith, lacks) tt (omega arith))
        (ground arith)
  | inr e ↦ rw e (any_wild_none p e n)
]
