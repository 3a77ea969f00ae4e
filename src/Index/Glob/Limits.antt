-- ===== src/Index/Glob/Limits.antt =====
-- src/index/mod.rs: `segment_matches` ends on every input, and its one limit, a `*` in a name.
use php_lsp.Prelude.{
  ℕ, zero, suc, ◌+◌, ◌≤◌, ◌<◌, ◌≡◌, ◌≢◌, Option, none, some, true, false, [], ◌∷◌, length, arith,
}
use php_lsp.Prelude.Chars.{Text}
use php_lsp.Index.Glob.{star, is_wild, tail, wild_loop, wild_fuel, segment_matches}
use php_lsp.Index.Glob.Reference.{glob}
use php_lsp.Index.Glob.Agrees.{rounds, mul_mono}

abbrev Bounded : ℕ → Text → Text → Option (Text × Text) → Type 0
Bounded k p n none = length p < k
Bounded k p n (some (star_p, star_n)) =
    (length p < k) × (length star_p < k) × (length n ≤ length star_n)

abbrev Ends : ℕ → ℕ → Text → Text → Option (Text × Text) → Type 0
Ends fuel k p n b = Bounded k p n b → rounds k p n b < fuel → wild_loop fuel p n b ≢ none

Ends-retry :
    (fuel k : ℕ) (star_p n star_n p : Text) (d : ℕ)
    → ((p' n' : Text) (b : Option (Text × Text)) → Ends fuel k p' n' b)
    → Bounded k p (d ∷ n) (some (star_p, star_n))
    → rounds k p (d ∷ n) (some (star_p, star_n)) < suc fuel
    → wild_loop fuel star_p (tail star_n) (some (star_p, tail star_n)) ≢ none
Ends-retry fuel k star_p n [] p d ih fits h = absurd (omega arith)
Ends-retry fuel k star_p n (e ∷ star_n) p d ih fits h =
    ih star_p star_n (some (star_p, star_n)) (fits.1, fits.1, omega arith) (omega arith)

ends : (fuel k : ℕ) (p n : Text) (b : Option (Text × Text)) → Ends fuel k p n b
unfolding wild_loop
ends zero k p n none fits h = absurd (omega arith)
ends zero k p n (some (star_p, star_n)) fits h = absurd (omega arith)
ends (suc fuel) k p [] b fits h = cc
ends (suc fuel) k [] (d ∷ n) none fits h = cc
ends (suc fuel) k [] (d ∷ n) (some (star_p, star_n)) fits h =
    Ends-retry fuel k star_p n star_n [] d (ends fuel k) fits h
ends (suc fuel) k (c ∷ p) (d ∷ n) none fits h = ground (
  arith,
  ends fuel k p n none (omega arith) (omega arith),
  ends fuel k p (d ∷ n) (some (p, d ∷ n)) (omega arith) (omega arith),
)
ends (suc fuel) k (c ∷ p) (d ∷ n) (some (star_p, star_n)) fits h = ground (
  arith,
  ends fuel k p n (some (star_p, star_n)) (omega arith) (omega arith),
  ends fuel k p (d ∷ n) (some (p, d ∷ n)) (omega arith)
      (omega (arith, mul_mono (length (d ∷ n)) (length star_n) k fits.2)),
  Ends-retry fuel k star_p n star_n (c ∷ p) d (ends fuel k) fits h,
)

-- The loop ends on every pattern and name: the fuel is never used up.
pub wild_loop-ne-none : (p n : Text) → wild_loop (wild_fuel p n) p n none ≢ none
wild_loop-ne-none p n = ends (wild_fuel p n) (length p + 1) p n none (omega arith) (omega arith)

-- A `*` that stands first in a name is taken for the star of the pattern itself, so the loop has
-- no point to go back to: for characters a and b that differ, where a is no wildcard, `*a` misses
-- `*ba`, which it means to match.
pub segment_matches-star_in_name :
    (a b : ℕ)
    → a ≢ b
    → is_wild a ≡ false
    → (segment_matches (star ∷ a ∷ []) (star ∷ b ∷ a ∷ []) ≡ false)
      × (glob (star ∷ a ∷ []) (star ∷ b ∷ a ∷ []) ≡ true)
unfolding segment_matches wild_loop glob
segment_matches-star_in_name a b h w = (ground arith, ground arith)
