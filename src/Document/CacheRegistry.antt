-- ===== src/Document/CacheRegistry.antt =====
-- src/document/cache_registry.rs: the per-file caches and their eviction. The keys (`Uri`), parsed
-- documents, declaration indexes, analyses and owned programs are types of other crates, which the
-- caches only hold.
pub mod Threshold
pub mod Shedding
pub mod Recency
pub mod Sound
use php_lsp.Prelude.{
  ℕ, zero, suc, ◌+◌, ◌-◌, ◌/◌, ◌%◌, ◌^◌, Option, none, some, Bool, List, [], ◌∷◌, ltb, leb, ◌==◌,
  if◌then◌else◌, length, take, String, Eq, string_eq,
}
use php_lsp.Prelude.Chars.{Text}
use php_lsp.Prelude.Map.{Map, lookup, insert, remove, modify, is_some}
use php_lsp.Analysis.Tokens.{SemanticToken}

abbrev pub parsed_cache_cap : ℕ
parsed_cache_cap = 2048

abbrev pub analysis_cache_cap : ℕ
analysis_cache_cap = 512

abbrev pub owned_program_cache_cap : ℕ
owned_program_cache_cap = 256

pub record AnalysisCacheEntry (Index Analysis : Type 0) : Type 0 where
  pub source : Text
  pub decl_version : ℕ
  pub decl_index : Option Index
  pub analysis : Option Analysis

pub record CacheRegistry (K Doc Index Analysis Program : Type 0) : Type 0 where
  pub token_cache : Map K (String × List SemanticToken)
  pub text_cache : Map K Text
  pub parsed_cache : Map K (Text × Doc)
  pub analysis_cache : Map K (AnalysisCacheEntry Index Analysis)
  pub decl_version : ℕ
  pub parse_count : ℕ
  pub owned_program_cache : Map K (Text × Program)
  pub access_tick : ℕ
  pub last_access : Map K ℕ

-- `CacheRegistry::new`
abbrev pub new_registry :
    {K Doc Index Analysis Program : Type 0} → CacheRegistry K Doc Index Analysis Program
new_registry = record {
  token_cache = [];
  text_cache = [];
  parsed_cache = [];
  analysis_cache = [];
  decl_version = 0;
  parse_count = 0;
  owned_program_cache = [];
  access_tick = 0;
  last_access = [];
}

-- `fetch_add(1)` on an `AtomicU64`
abbrev pub next_u64 : ℕ → ℕ
next_u64 n = (n + 1) % 2 ^ 64

abbrev pub or_zero : Option ℕ → ℕ
or_zero none = 0
or_zero (some n) = n

-- `select_nth_unstable(i)`: the element that would stand at `i` if the list were sorted
abbrev pub insert_sorted : ℕ → List ℕ → List ℕ
insert_sorted x [] = x ∷ []
insert_sorted x (y ∷ l) = let rest = y ∷ insert_sorted x l in if leb x y then x ∷ y ∷ l else rest

abbrev pub sort : List ℕ → List ℕ
sort [] = []
sort (x ∷ l) = insert_sorted x (sort l)

abbrev pub nth : List ℕ → ℕ → ℕ
nth [] i = 0
nth (x ∷ l) zero = x
nth (x ∷ l) (suc i) = nth l i

module _ {K : Type 0} ⦃e : Eq K⦄ where
  abbrev pub tick_of : Map K ℕ → K → ℕ
  tick_of last_access k = or_zero (lookup k last_access)

module _ {K V : Type 0} where
  abbrev pub ticks_of : (K → ℕ) → Map K V → List ℕ
  ticks_of tick [] = []
  ticks_of tick ((k, v) ∷ m) = tick k ∷ ticks_of tick m

  -- The keys whose tick passes the `filter`, in the order of iteration.
  abbrev pub stale_keys : (K → ℕ) → ℕ → Map K V → List K
  stale_keys tick threshold [] = []
  stale_keys tick threshold ((k, v) ∷ m) =
      let rest = stale_keys tick threshold m in if leb (tick k) threshold then k ∷ rest else rest

module _ {K V : Type 0} ⦃e : Eq K⦄ where
  abbrev pub remove_all : List K → Map K V → Map K V
  remove_all [] m = m
  remove_all (k ∷ ks) m = remove_all ks (remove k m)

  -- Both passes of `shed_stale`, over the ticks of the entries.
  pub shed_oldest : (K → ℕ) → ℕ → Map K V → Map K V
  shed_oldest tick to_evict m =
      let threshold = nth (sort (ticks_of tick m)) (to_evict - 1) in
      remove_all (take to_evict (stale_keys tick threshold m)) m

  unfoldable pub shed_stale : Map K ℕ → Map K V → ℕ → Map K V
  unfolding shed_oldest
  shed_stale last_access m cap =
      if ltb (length m) cap
      then m
      else if cap / 2 == 0
      then m
      else shed_oldest (tick_of last_access) (cap / 2) m

module _ {K Doc Index Analysis Program : Type 0} ⦃e : Eq K⦄ where
  unfoldable pub touch :
      CacheRegistry K Doc Index Analysis Program → K → CacheRegistry K Doc Index Analysis Program
  touch r k = record r {
    access_tick = next_u64 r.access_tick;
    last_access =
        if is_some (lookup k r.last_access)
        then modify k (λ _. r.access_tick) r.last_access
        else insert k r.access_tick r.last_access;
  }

  unfoldable pub evict :
      CacheRegistry K Doc Index Analysis Program → K → CacheRegistry K Doc Index Analysis Program
  evict r k = record r {
    token_cache = remove k r.token_cache;
    text_cache = remove k r.text_cache;
    parsed_cache = remove k r.parsed_cache;
    analysis_cache = remove k r.analysis_cache;
    owned_program_cache = remove k r.owned_program_cache;
    last_access = remove k r.last_access;
  }

  unfoldable pub evict_analysis :
      CacheRegistry K Doc Index Analysis Program → K → CacheRegistry K Doc Index Analysis Program
  evict_analysis r k = record r {
    analysis_cache = modify k (λ entry. record entry { analysis = none }) r.analysis_cache;
  }

  unfoldable pub evict_analysis_all :
      CacheRegistry K Doc Index Analysis Program → CacheRegistry K Doc Index Analysis Program
  evict_analysis_all r = record r { analysis_cache = [] }

  unfoldable pub evict_tokens :
      CacheRegistry K Doc Index Analysis Program → K → CacheRegistry K Doc Index Analysis Program
  evict_tokens r k = record r { token_cache = remove k r.token_cache }

  unfoldable pub store_token :
      CacheRegistry K Doc Index Analysis Program
      → K
      → String
      → List SemanticToken
      → CacheRegistry K Doc Index Analysis Program
  store_token r k result_id tokens = record r {
    token_cache = insert k (result_id, tokens) r.token_cache;
  }

  unfoldable pub get_token :
      CacheRegistry K Doc Index Analysis Program → K → String → Option (List SemanticToken)
  get_token r k result_id = elim (lookup k r.token_cache) [
    | none ↦ none
    | some (stored_id, tokens) ↦ if string_eq.beq stored_id result_id then some tokens else none
  ]

  unfoldable pub insert_parsed :
      CacheRegistry K Doc Index Analysis Program
      → K
      → Text
      → Doc
      → CacheRegistry K Doc Index Analysis Program
  unfolding touch shed_stale
  insert_parsed r k text doc =
      let shed = record r {
        parsed_cache = shed_stale r.last_access r.parsed_cache parsed_cache_cap;
      } in
      let touched = touch shed k in
      record touched { parsed_cache = insert k (text, doc) touched.parsed_cache }

  unfoldable pub bump_decl_version :
      CacheRegistry K Doc Index Analysis Program → CacheRegistry K Doc Index Analysis Program
  bump_decl_version r = record r { decl_version = next_u64 r.decl_version }

  unfoldable pub bump_parse_count :
      CacheRegistry K Doc Index Analysis Program → CacheRegistry K Doc Index Analysis Program
  bump_parse_count r = record r { parse_count = next_u64 r.parse_count }
