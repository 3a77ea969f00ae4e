-- ===== src/Document/Tests.antt =====
-- src/document/cache_registry.rs: shedding run on small caches, and its theorems at concrete inputs.
use php_lsp.Prelude.{ℕ, ◌+◌, ◌^◌, ◌≤◌, ◌<◌, ◌≡◌, refl, none, some, [], ◌∷◌, length, nat_eq, arith}
use php_lsp.Prelude.Chars.{codes}
use php_lsp.Prelude.Map.{Map, lookup, remove, IsMap}
use php_lsp.Document.CacheRegistry.{
  CacheRegistry, tick_of, shed_stale, insert_parsed, parsed_cache_cap,
}
use php_lsp.Document.CacheRegistry.Sound.{IsSound, registry-IsSound}
use php_lsp.Document.CacheRegistry.{new_registry, evict}
use php_lsp.Document.CacheRegistry.Recency.{IsRecent, shed_stale_oldest}

abbrev uses : Map ℕ ℕ
uses = (7, 3) ∷ (8, 1) ∷ (9, 2) ∷ []

abbrev cache : Map ℕ ℕ
cache = (9, 90) ∷ (8, 80) ∷ (7, 70) ∷ []

sheds_the_oldest : shed_stale uses cache 2 ≡ (9, 90) ∷ (7, 70) ∷ []
unfolding shed_stale lookup remove
sheds_the_oldest = refl

cache-IsMap : IsMap cache
cache-IsMap = ground arith

uses-IsRecent : IsRecent uses 4
unfolding lookup
uses-IsRecent = record { before = λ k t h. ground arith; distinct = λ j k t p q. ground arith }

found_before : lookup 8 cache ≡ some 80
unfolding lookup
found_before = refl

gone_after : lookup 8 (shed_stale uses cache 2) ≡ none
unfolding lookup remove shed_stale
gone_after = refl

kept_after : lookup 9 (shed_stale uses cache 2) ≡ some 90
unfolding lookup remove shed_stale
kept_after = refl

shed_stale_oldest_example : tick_of uses 8 ≤ tick_of uses 9
shed_stale_oldest_example =
    shed_stale_oldest uses 4 cache 2 9 8 80 90 uses-IsRecent cache-IsMap found_before gone_after
      kept_after

abbrev registry : CacheRegistry ℕ ℕ ℕ ℕ ℕ
registry = record {
  token_cache = [];
  text_cache = [];
  parsed_cache = (7, (codes "<?php", 1)) ∷ [];
  analysis_cache = [];
  decl_version = 0;
  parse_count = 0;
  owned_program_cache = [];
  access_tick = 4;
  last_access = uses;
}

no_wrap : registry.access_tick + 1 < 2 ^ 64
no_wrap = omega arith

parsed-IsMap : IsMap registry.parsed_cache
parsed-IsMap = ground arith

parsed_fits : length registry.parsed_cache ≤ parsed_cache_cap
parsed_fits = omega arith

sample-IsSound : IsSound registry
sample-IsSound = record { recent = uses-IsRecent; keys = parsed-IsMap; bounded = parsed_fits }

registry-IsSound_example :
    IsSound (new_registry {K = ℕ} {Doc = ℕ} {Index = ℕ} {Analysis = ℕ} {Program = ℕ})
    × IsSound (insert_parsed registry 7 (codes "a") 2)
    × IsSound (evict registry 7)
registry-IsSound_example = registry-IsSound registry 7 (codes "a") 2 no_wrap sample-IsSound
