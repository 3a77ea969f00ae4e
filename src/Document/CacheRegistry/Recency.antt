-- ===== src/Document/CacheRegistry/Recency.antt =====
-- src/document/cache_registry.rs: shedding is by recency, and the parsed documents stay below their
-- cap.
use native.Mathlib.Nat.{mod-eq_of_lt}
use php_lsp.Prelude.{
  ℕ, zero, suc, ◌+◌, ◌-◌, ◌/◌, ◌^◌, ◌≤◌, ◌<◌, ◌≡◌, sym, ap, ◌∙◌, none, some, false, [], ◌∷◌,
  if◌then◌else◌, length, Eq, All, arith, Option-cases, inl, inr,
}
use php_lsp.Prelude.Chars.{Text}
use php_lsp.Prelude.Map.{
  Map, lookup, Misses, IsMap, lookup-insert, lookup-modify, length-insert, beq_self,
}
use php_lsp.Document.CacheRegistry.{
  CacheRegistry, tick_of, ticks_of, shed_oldest, shed_stale, touch, insert_parsed, parsed_cache_cap,
}
use php_lsp.Document.CacheRegistry.Threshold.{count_le, Differs, Unique, count_le-threshold_exact}
use php_lsp.Document.CacheRegistry.Shedding.{
  shed_first, threshold_of, shed_oldest-first, length-shed_stale, length-ticks_of,
}

module _ {K : Type 0} ⦃e : Eq K⦄ where
  -- Every recorded tick is from before the next one, and two files have no tick in common.
  pub record IsRecent (last_access : Map K ℕ) (access_tick : ℕ) : Type 0 where
    pub before : (k : K) (t : ℕ) → lookup k last_access ≡ some t → t < access_tick
    pub distinct :
        (j k : K) (t : ℕ) → lookup j last_access ≡ some t → lookup k last_access ≡ some t → j ≡ k

  ticks_differ :
      (last_access : Map K ℕ) (access_tick : ℕ) (j k : K)
      → IsRecent last_access access_tick
      → e.beq j k ≡ false
      → Differs (tick_of last_access k) (tick_of last_access j)
  ticks_differ last_access access_tick j k r ne =
      ground (arith, e.beq_iff j k, r.distinct j k (tick_of last_access k))

module _ {K V : Type 0} ⦃e : Eq K⦄ where
  dropped-le :
      (tick : K → ℕ) (threshold n : ℕ) (m : Map K V) (k : K) (v : V)
      → lookup k m ≡ some v
      → lookup k (shed_first tick threshold n m) ≡ none
      → tick k ≤ threshold
  unfolding lookup
  dropped-le tick threshold zero m k v h d = cc
  dropped-le tick threshold (suc n) [] k v h d = cc
  dropped-le tick threshold (suc n) ((j, w) ∷ m) k v h d = ground (
    arith,
    e.beq_iff j k,
    dropped-le tick threshold n m k v,
    dropped-le tick threshold (suc n) m k v,
  )

  kept-lt :
      (tick : K → ℕ) (threshold n : ℕ) (m : Map K V) (k : K) (v : V)
      → count_le threshold (ticks_of tick m) ≤ n
      → lookup k (shed_first tick threshold n m) ≡ some v
      → threshold < tick k
  unfolding lookup
  kept-lt tick threshold zero [] k v c h = cc
  kept-lt tick threshold zero ((j, w) ∷ m) k v c h =
      ground (arith, e.beq_iff j k, kept-lt tick threshold zero m k v)
  kept-lt tick threshold (suc n) [] k v c h = cc
  kept-lt tick threshold (suc n) ((j, w) ∷ m) k v c h =
      ground
        (arith, e.beq_iff j k, kept-lt tick threshold n m k v, kept-lt tick threshold (suc n) m k v)

  at_most :
      (tick : K → ℕ) (n : ℕ) (m : Map K V)
      → Unique (ticks_of tick m)
      → 0 < n
      → n ≤ length m
      → 0 < threshold_of tick n m
      → count_le (threshold_of tick n m) (ticks_of tick m) ≤ n
  at_most tick n m u pos fits p = omega (
    arith,
    count_le-threshold_exact (ticks_of tick m) (n - 1) u (omega (arith, length-ticks_of tick m)) p,
  )

  shed_oldest_order :
      (tick : K → ℕ) (n : ℕ) (m : Map K V) (j k : K) (v w : V)
      → IsMap m
      → Unique (ticks_of tick m)
      → 0 < n
      → n ≤ length m
      → lookup k m ≡ some v
      → lookup k (shed_oldest tick n m) ≡ none
      → lookup j (shed_oldest tick n m) ≡ some w
      → tick k ≤ tick j
  shed_oldest_order tick n m j k v w h u pos fits old gone kept =
      let same = shed_oldest-first tick n m h in
      let thr = threshold_of tick n m in
      let low = dropped-le tick thr n m k v old (sym (ap (lookup k) same) ∙ gone) in
      ground (
        arith,
        low,
        λ (p : 0 < thr).
            kept-lt tick thr n m j w (at_most tick n m u pos fits p)
              (sym (ap (lookup j) same) ∙ kept),
      )

  Unique-ticks_of :
      (last_access : Map K ℕ) (access_tick : ℕ) (m : Map K V)
      → IsRecent last_access access_tick
      → IsMap m
      → Unique (ticks_of (tick_of last_access) m)
  Unique-ticks_of last_access access_tick [] r h = tt
  Unique-ticks_of last_access access_tick ((k, v) ∷ m) r h =
      (one_differs m h.0, Unique-ticks_of last_access access_tick m r h.1)
    where
      one_differs :
          (m : Map K V)
          → Misses k m
          → All (Differs (tick_of last_access k)) (ticks_of (tick_of last_access) m)
      one_differs [] h = tt
      one_differs ((j, w) ∷ m) h =
          (ticks_differ last_access access_tick j k r h.0, one_differs m h.1)

  -- When the recorded ticks are below the next one and differ, what `shed_stale` drops was used
  -- before all that it keeps, or has no recorded use.
  pub shed_stale_oldest :
      (last_access : Map K ℕ) (access_tick : ℕ) (m : Map K V) (cap : ℕ) (j k : K) (v w : V)
      → IsRecent last_access access_tick
      → IsMap m
      → lookup k m ≡ some v
      → lookup k (shed_stale last_access m cap) ≡ none
      → lookup j (shed_stale last_access m cap) ≡ some w
      → tick_of last_access k ≤ tick_of last_access j
  unfolding shed_stale
  shed_stale_oldest last_access access_tick m cap j k v w r h old gone kept = ground (
    arith,
    shed_oldest_order (tick_of last_access) (cap / 2) m j k v w h
        (Unique-ticks_of last_access access_tick m r h),
  )

module _ {K Doc Index Analysis Program : Type 0} ⦃e : Eq K⦄ where
  lookup-touch :
      (r : CacheRegistry K Doc Index Analysis Program) (k j : K)
      → lookup j (touch r k).last_access
        ≡ (if e.beq k j then some r.access_tick else lookup j r.last_access)
  unfolding touch
  lookup-touch r k j = elim (Option-cases (lookup k r.last_access)) [
    | inl h ↦ rw (h, lookup-insert k j r.access_tick r.last_access)
    | inr (t, h) ↦
        rw (h, lookup-modify k j (λ _. r.access_tick) r.last_access) (ground (arith, e.beq_iff k j))
  ]

  -- A use of a file leaves the ticks in order, as long as the counter does not wrap around.
  pub touch-IsRecent :
      (r : CacheRegistry K Doc Index Analysis Program) (k : K)
      → r.access_tick + 1 < 2 ^ 64
      → IsRecent r.last_access r.access_tick
      → IsRecent (touch r k).last_access (touch r k).access_tick
  touch-IsRecent r k small h = record {
    before = λ j t g. ground (arith, lookup-touch r k j, h.before j t, tick-touch r k small, g);
    distinct = λ i j t p q. ground (
      arith,
      lookup-touch r k i,
      lookup-touch r k j,
      h.before i t,
      h.before j t,
      h.distinct i j t,
      e.beq_iff k i,
      e.beq_iff k j,
      p,
      q,
    );
  }
    where
      tick-touch :
          (r : CacheRegistry K Doc Index Analysis Program) (k : K)
          → r.access_tick + 1 < 2 ^ 64
          → (touch r k).access_tick ≡ r.access_tick + 1
      tick-touch r k small = unfold touch in mod-eq_of_lt small

  -- Publishing a parsed document in a cache that is not above its cap: it is found from then on,
  -- and the cache does not outgrow its cap.
  pub insert_parsed_bounded :
      (r : CacheRegistry K Doc Index Analysis Program) (k : K) (text : Text) (doc : Doc)
      → IsMap r.parsed_cache
      → length r.parsed_cache ≤ parsed_cache_cap
      → (lookup k (insert_parsed r k text doc).parsed_cache ≡ some (text, doc))
        × (length (insert_parsed r k text doc).parsed_cache ≤ parsed_cache_cap)
  unfolding insert_parsed
  insert_parsed_bounded r k text doc h fits = (
    lookup-insert k k (text, doc) (shed_stale r.last_access r.parsed_cache parsed_cache_cap)
        ∙ rw (beq_self k),
    ground (
      arith,
      length-insert k (text, doc) (shed_stale r.last_access r.parsed_cache parsed_cache_cap),
      length-shed_stale r.last_access r.parsed_cache parsed_cache_cap h,
    ),
  )
