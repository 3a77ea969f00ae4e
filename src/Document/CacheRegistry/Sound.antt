-- ===== src/Document/CacheRegistry/Sound.antt =====
-- src/document/cache_registry.rs: what holds of a registry from `new` on.
use php_lsp.Prelude.{
  ℕ, ◌+◌, ◌-◌, ◌/◌, ◌^◌, ◌≤◌, ◌<◌, ◌≡◌, false, List, [], ◌∷◌, length, take, Eq, arith,
}
use php_lsp.Prelude.Chars.{Text}
use php_lsp.Prelude.Map.{Map, lookup, insert, remove, Misses, IsMap, IsMap-remove, lookup-remove}
use php_lsp.Document.CacheRegistry.{
  CacheRegistry, new_registry, remove_all, shed_oldest, shed_stale, stale_keys, insert_parsed,
  evict, parsed_cache_cap, tick_of, ticks_of, sort, nth,
}
use php_lsp.Document.CacheRegistry.Recency.{IsRecent, touch-IsRecent, insert_parsed_bounded}

module _ {K V : Type 0} ⦃e : Eq K⦄ where
  Misses-insert :
      (k j : K) (v : V) (m : Map K V) → e.beq k j ≡ false → Misses j m → Misses j (insert k v m)
  unfolding insert
  Misses-insert k j v [] d h = ground arith
  Misses-insert k j v ((i, w) ∷ m) d h = ground (arith, Misses-insert k j v m)

  IsMap-insert : (k : K) (v : V) (m : Map K V) → IsMap m → IsMap (insert k v m)
  unfolding insert
  IsMap-insert k v [] h = ground arith
  IsMap-insert k v ((j, w) ∷ m) h =
      ground (arith, e.beq_iff j k, e.beq_iff k j, IsMap-insert k v m, Misses-insert k j v m)

  IsMap-remove_all : (ks : List K) (m : Map K V) → IsMap m → IsMap (remove_all ks m)
  IsMap-remove_all [] m h = h
  IsMap-remove_all (k ∷ ks) m h = IsMap-remove_all ks (remove k m) (IsMap-remove k m h)

  length-remove : (k : K) (m : Map K V) → length (remove k m) ≤ length m
  unfolding remove
  length-remove k [] = omega arith
  length-remove k ((j, v) ∷ m) = ground (arith, length-remove k m)

  IsMap-shed_oldest :
      (tick : K → ℕ) (to_evict : ℕ) (m : Map K V) → IsMap m → IsMap (shed_oldest tick to_evict m)
  unfolding shed_oldest
  IsMap-shed_oldest tick to_evict m h =
      let threshold = nth (sort (ticks_of tick m)) (to_evict - 1) in
      IsMap-remove_all (take to_evict (stale_keys tick threshold m)) m h

  IsMap-shed_stale :
      (last_access : Map K ℕ) (m : Map K V) (limit : ℕ)
      → IsMap m
      → IsMap (shed_stale last_access m limit)
  unfolding shed_stale
  IsMap-shed_stale last_access m limit h =
      ground (arith, IsMap-shed_oldest (tick_of last_access) (limit / 2) m h)

module _ {K : Type 0} ⦃e : Eq K⦄ where
  IsRecent-remove :
      (k : K) (last_access : Map K ℕ) (access_tick : ℕ)
      → IsRecent last_access access_tick
      → IsRecent (remove k last_access) access_tick
  IsRecent-remove k last_access access_tick h = record {
    before = λ j t g. ground (arith, lookup-remove k j last_access, h.before j t, g);
    distinct = λ i j t p q. ground (
      arith,
      lookup-remove k i last_access,
      lookup-remove k j last_access,
      h.distinct i j t,
      p,
      q,
    );
  }

module _ {K Doc Index Analysis Program : Type 0} ⦃e : Eq K⦄ where
  -- The invariant: the ticks are in order, and the parsed documents are a map within its cap.
  pub record IsSound (r : CacheRegistry K Doc Index Analysis Program) : Type 0 where
    pub recent : IsRecent r.last_access r.access_tick
    pub keys : IsMap r.parsed_cache
    pub bounded : length r.parsed_cache ≤ parsed_cache_cap

  new_registry-IsSound : IsSound new_registry
  unfolding lookup
  new_registry-IsSound = record {
    recent = record { before = λ k t h. absurd cc; distinct = λ j k t p q. absurd cc };
    keys = tt;
    bounded = omega arith;
  }

  -- A new registry is sound, and publishing a document and evicting a file keep it so, while the
  -- counter of ticks does not wrap around.
  pub registry-IsSound :
      (r : CacheRegistry K Doc Index Analysis Program) (k : K) (text : Text) (doc : Doc)
      → r.access_tick + 1 < 2 ^ 64
      → IsSound r
      → IsSound new_registry × IsSound (insert_parsed r k text doc) × IsSound (evict r k)
  unfolding insert_parsed evict
  registry-IsSound r k text doc small h = (
    new_registry-IsSound,
    record {
      recent = touch-IsRecent r k small h.recent;
      keys =
          IsMap-insert k (text, doc) _
            (IsMap-shed_stale r.last_access r.parsed_cache parsed_cache_cap h.keys);
      bounded = (insert_parsed_bounded r k text doc h.keys h.bounded).1;
    },
    record {
      recent = IsRecent-remove k r.last_access r.access_tick h.recent;
      keys = IsMap-remove k r.parsed_cache h.keys;
      bounded = omega (arith, length-remove k r.parsed_cache, h.bounded);
    },
  )
