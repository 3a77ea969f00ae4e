-- ===== src/Document/CacheRegistry/Shedding.antt =====
-- src/document/cache_registry.rs: what `shed_stale` drops, and what it keeps.
use php_lsp.Prelude.{
  ℕ, zero, suc, ◌+◌, ◌-◌, ◌/◌, ◌≤◌, ◌<◌, ◌≡◌, refl, ap, ◌∙◌, false, List, [], ◌∷◌, ltb, leb,
  if◌then◌else◌, length, take, Eq, All, arith, Bool-cases, inl, inr,
}
use php_lsp.Prelude.Map.{Map, remove, Misses, IsMap, remove-Misses}
use php_lsp.Document.CacheRegistry.{
  tick_of, ticks_of, stale_keys, remove_all, sort, nth, shed_oldest, shed_stale,
}
use php_lsp.Document.CacheRegistry.Threshold.{count_le, count_le-threshold}

module _ {K V : Type 0} where
  -- The entries that are left when the first `n` entries at or below the threshold are dropped.
  abbrev pub shed_first : (K → ℕ) → ℕ → ℕ → Map K V → Map K V
  shed_first tick threshold zero m = m
  shed_first tick threshold (suc n) [] = []
  shed_first tick threshold (suc n) ((k, v) ∷ m) =
      let drop_it = shed_first tick threshold n m in
      let keep_it = (k, v) ∷ shed_first tick threshold (suc n) m in
      if leb (tick k) threshold then drop_it else keep_it

  pub length-ticks_of : (tick : K → ℕ) (m : Map K V) → length (ticks_of tick m) ≡ length m
  length-ticks_of tick [] = refl
  length-ticks_of tick ((k, v) ∷ m) = ap suc (length-ticks_of tick m)

  length-shed_first :
      (tick : K → ℕ) (threshold n : ℕ) (m : Map K V)
      → n ≤ count_le threshold (ticks_of tick m)
      → length (shed_first tick threshold n m) + n ≡ length m
  length-shed_first tick threshold zero m h = omega arith
  length-shed_first tick threshold (suc n) [] h = absurd (omega arith)
  length-shed_first tick threshold (suc n) ((k, v) ∷ m) h =
      ground
        (arith, length-shed_first tick threshold n m, length-shed_first tick threshold (suc n) m)

module _ {K V : Type 0} ⦃e : Eq K⦄ where
  remove_all-nil : (ks : List K) → remove_all {V = V} ks [] ≡ []
  unfolding remove
  remove_all-nil [] = refl
  remove_all-nil (k ∷ ks) = remove_all-nil ks

  -- A key that is not among those removed keeps its place at the head.
  remove_all-cons :
      (ks : List K) (k : K) (v : V) (m : Map K V)
      → All (λ j. e.beq k j ≡ false) ks
      → remove_all ks ((k, v) ∷ m) ≡ (k, v) ∷ remove_all ks m
  unfolding remove
  remove_all-cons [] k v m h = refl
  remove_all-cons (j ∷ ks) k v m h =
      rw (remove_all, remove, h.0) (remove_all-cons ks k v (remove j m) h.1)

  stale_keys-Misses :
      (tick : K → ℕ) (threshold n : ℕ) (k : K) (m : Map K V)
      → Misses k m
      → All (λ j. e.beq k j ≡ false) (take n (stale_keys tick threshold m))
  stale_keys-Misses tick threshold zero k m h = tt
  stale_keys-Misses tick threshold (suc n) k [] h = tt
  stale_keys-Misses tick threshold (suc n) k ((j, v) ∷ m) h =
      elim (Bool-cases (leb (tick j) threshold)) [
        | inl t ↦
            rw (stale_keys, t)
              (
                ground (arith, e.beq_iff k j, e.beq_iff j k),
                stale_keys-Misses tick threshold n k m h.1,
              )
        | inr f ↦ rw (stale_keys, f) (stale_keys-Misses tick threshold (suc n) k m h.1)
      ]

  remove_head : (k : K) (v : V) (m : Map K V) → Misses k m → remove k ((k, v) ∷ m) ≡ m
  unfolding remove
  remove_head k v m h = ground (arith, remove-Misses k m h, e.beq_iff k k)

  remove_all-shed_first :
      (tick : K → ℕ) (threshold n : ℕ) (m : Map K V)
      → IsMap m
      → remove_all (take n (stale_keys tick threshold m)) m ≡ shed_first tick threshold n m
  remove_all-shed_first tick threshold zero m h = refl
  remove_all-shed_first tick threshold (suc n) [] h = refl
  remove_all-shed_first tick threshold (suc n) ((k, v) ∷ m) h =
      elim (Bool-cases (leb (tick k) threshold)) [
        | inl t ↦
            rw (stale_keys, t, shed_first, remove_head k v m h.0)
              (remove_all-shed_first tick threshold n m h.1)
        | inr f ↦
            rw (stale_keys, f)
              (remove_all-cons (take (suc n) (stale_keys tick threshold m)) k v m
                  (stale_keys-Misses tick threshold (suc n) k m h.0)
                ∙ ap (λ (rest : Map K V). (k, v) ∷ rest)
                    (remove_all-shed_first tick threshold (suc n) m h.1))
      ]

  -- The threshold that `shed_stale` computes.
  abbrev pub threshold_of : (K → ℕ) → ℕ → Map K V → ℕ
  threshold_of tick to_evict m = nth (sort (ticks_of tick m)) (to_evict - 1)

  pub shed_oldest-first :
      (tick : K → ℕ) (n : ℕ) (m : Map K V)
      → IsMap m
      → shed_oldest tick n m ≡ shed_first tick (threshold_of tick n m) n m
  unfolding shed_oldest
  shed_oldest-first tick n m h = remove_all-shed_first tick (threshold_of tick n m) n m h

  length-shed_oldest :
      (tick : K → ℕ) (n : ℕ) (m : Map K V)
      → IsMap m
      → 0 < n
      → n ≤ length m
      → length (shed_oldest tick n m) + n ≡ length m
  length-shed_oldest tick n m h pos fits = rw (shed_oldest-first tick n m h) (
      length-shed_first tick (threshold_of tick n m) n m (
        omega (
          arith,
          count_le-threshold (ticks_of tick m) (n - 1) (omega (arith, length-ticks_of tick m)),
        )))

  -- A map below its cap keeps all its entries. One at its cap or over it loses exactly half the cap.
  pub length-shed_stale :
      (last_access : Map K ℕ) (m : Map K V) (cap : ℕ)
      → IsMap m
      → length (shed_stale last_access m cap)
        ≡ (if ltb (length m) cap then length m else length m - cap / 2)
  unfolding shed_stale
  length-shed_stale last_access m cap h =
      ground (arith, length-shed_oldest (tick_of last_access) (cap / 2) m h)
