-- ===== src/Document/OpenFiles.antt =====
-- src/document/open_files.rs: the files that are open in the editor, and the order of their open and
-- close messages. src/backend/server.rs: the text after a change message. The document store is an
-- argument of the operations that write to it. `in_flight -= 1` below zero is `none`.
pub mod Lifecycle
pub mod Ordering
pub mod Superseded
mod Tests
pub mod Staleness
pub mod Changes
use php_lsp.Prelude.{
  ℕ, zero, suc, ◌+◌, ◌-◌, ◌%◌, ◌^◌, Option, none, some, Bool, true, false, ◌&&◌, not, List, [], ◌∷◌,
  ltb, ◌==◌, if◌then◌else◌, length, Eq,
}
use php_lsp.Prelude.Chars.{Text}
use php_lsp.Prelude.Map.{Map, lookup, insert, remove, modify, contains, is_some}
use php_lsp.Document.CacheRegistry.{next_u64}
use php_lsp.Text.Offset.{Range, apply_content_change}

pub record OpenFile (Diagnostic : Type 0) : Type 0 where
  pub text : Text
  pub version : ℕ
  pub parse_diagnostics : List Diagnostic
  pub published_hash : Option ℕ
  pub external_diagnostics : List Diagnostic
  pub external_diagnostics_version : Option ℕ

pub record LifecycleIntent : Type 0 where
  pub generation : ℕ
  pub is_open : Bool
  pub in_flight : ℕ

pub record OpenFiles (K Diagnostic : Type 0) : Type 0 where
  pub files : Map K (OpenFile Diagnostic)
  pub lifecycle_intents : Map K LifecycleIntent
  pub next_lifecycle_generation : ℕ
  pub client_pulls_diagnostics : Bool

-- What the open files ask of the document store.
pub record DocumentStore (K D : Type 0) : Type 0 where
  pub mirror_text_arc : D → K → Text → D
  pub evict_token_cache : D → K → D

-- `OpenFile::default()`
abbrev pub default_file : {Diagnostic : Type 0} → OpenFile Diagnostic
default_file = record {
  text = [];
  version = 0;
  parse_diagnostics = [];
  published_hash = none;
  external_diagnostics = [];
  external_diagnostics_version = none;
}

abbrev pub unwrap_or {ℓ} : {A : Type ℓ} → A → Option A → A
unwrap_or d none = d
unwrap_or d (some a) = a

abbrev pub map_some {ℓ} : {A B : Type ℓ} → (A → B) → Option A → Option B
map_some f none = none
map_some f (some a) = some (f a)

abbrev pub same_version : Option ℕ → ℕ → Bool
same_version none v = false
same_version (some u) v = u == v

abbrev pub bool_eq : Bool → Bool → Bool
bool_eq true b = b
bool_eq false b = not b

-- `OpenFiles::default()`
abbrev pub no_files : {K Diagnostic : Type 0} → OpenFiles K Diagnostic
no_files = record {
  files = [];
  lifecycle_intents = [];
  next_lifecycle_generation = 0;
  client_pulls_diagnostics = false;
}

module _ {K Diagnostic : Type 0} ⦃e : Eq K⦄ where
  unfoldable pub set_client_pulls_diagnostics :
      OpenFiles K Diagnostic → Bool → OpenFiles K Diagnostic
  set_client_pulls_diagnostics o pulls = record o { client_pulls_diagnostics = pulls }

  -- `entry(uri).or_default()`, with the next version and the text written to it
  unfoldable pub opened_file : OpenFiles K Diagnostic → K → Text → OpenFile Diagnostic
  opened_file o k text =
      let entry = unwrap_or default_file (lookup k o.files) in
      record entry { version = next_u64 entry.version; text = text }

  unfoldable pub set_open_text :
      {D : Type 0}
      → DocumentStore K D
      → OpenFiles K Diagnostic
      → D
      → K
      → Text
      → OpenFiles K Diagnostic × D × ℕ
  unfolding opened_file
  set_open_text store o docs k text = (
    record o { files = insert k (opened_file o k text) o.files },
    store.mirror_text_arc docs k text,
    (opened_file o k text).version,
  )

  unfoldable pub close :
      {D : Type 0} → DocumentStore K D → OpenFiles K Diagnostic → D → K → OpenFiles K Diagnostic × D
  close store o docs k = (record o { files = remove k o.files }, store.evict_token_cache docs k)

  unfoldable pub current_version : OpenFiles K Diagnostic → K → Option ℕ
  current_version o k = map_some (λ entry. entry.version) (lookup k o.files)

  unfoldable pub text_of : OpenFiles K Diagnostic → K → Option Text
  text_of o k = map_some (λ entry. entry.text) (lookup k o.files)

  unfoldable pub set_parse_diagnostics :
      OpenFiles K Diagnostic → K → List Diagnostic → OpenFiles K Diagnostic
  set_parse_diagnostics o k diagnostics = record o {
    files = modify k (λ entry. record entry { parse_diagnostics = diagnostics }) o.files;
  }

  unfoldable pub parse_diagnostics_of : OpenFiles K Diagnostic → K → Option (List Diagnostic)
  parse_diagnostics_of o k = map_some (λ entry. entry.parse_diagnostics) (lookup k o.files)

  unfoldable pub note_published : OpenFiles K Diagnostic → K → ℕ → OpenFiles K Diagnostic
  note_published o k hash = record o {
    files = modify k (λ entry. record entry { published_hash = some hash }) o.files;
  }

  unfoldable pub published_hash_of : OpenFiles K Diagnostic → K → Option ℕ
  published_hash_of o k = elim (lookup k o.files) [
    | none ↦ none
    | some entry ↦ entry.published_hash
  ]

  unfoldable pub set_external_diagnostics :
      OpenFiles K Diagnostic → K → ℕ → List Diagnostic → OpenFiles K Diagnostic
  set_external_diagnostics o k version diagnostics = record o {
    files =
        modify k
          (λ entry. record entry {
            external_diagnostics = diagnostics;
            external_diagnostics_version = some version;
          })
          o.files;
  }

  unfoldable pub external_diagnostics_of : OpenFiles K Diagnostic → K → List Diagnostic
  external_diagnostics_of o k = elim (lookup k o.files) [
    | none ↦ []
    | some entry ↦
        if same_version entry.external_diagnostics_version entry.version
        then entry.external_diagnostics
        else []
  ]

  unfoldable pub contains_file : OpenFiles K Diagnostic → K → Bool
  contains_file o k = contains k o.files

  unfoldable pub note_lifecycle_intent :
      OpenFiles K Diagnostic → K → Bool → OpenFiles K Diagnostic × ℕ
  note_lifecycle_intent o k is_open =
      let generation = o.next_lifecycle_generation in
      let renewed : LifecycleIntent → LifecycleIntent = λ intent. record {
        generation = generation;
        is_open = is_open;
        in_flight = next_u64 intent.in_flight;
      } in
      let first : LifecycleIntent = record {
        generation = generation;
        is_open = is_open;
        in_flight = 1;
      } in
      (
        record o {
          next_lifecycle_generation = next_u64 generation;
          lifecycle_intents =
              insert k
                (elim (lookup k o.lifecycle_intents) [
                  | none ↦ first
                  | some intent ↦ renewed intent
                ])
                o.lifecycle_intents;
        },
        generation,
      )

  unfoldable pub finish_lifecycle_intent :
      OpenFiles K Diagnostic → K → Option (OpenFiles K Diagnostic)
  finish_lifecycle_intent o k = elim (lookup k o.lifecycle_intents) [
    | none ↦ some o
    | some intent ↦
        if intent.in_flight == 0
        then none
        else if intent.in_flight - 1 == 0
        then some (record o { lifecycle_intents = remove k o.lifecycle_intents })
        else some (record o {
          lifecycle_intents =
              modify k (λ i. record i { in_flight = i.in_flight - 1 }) o.lifecycle_intents;
        })
  ]

  unfoldable pub should_apply_lifecycle : OpenFiles K Diagnostic → K → ℕ → Bool → Bool
  should_apply_lifecycle o k generation is_open = elim (lookup k o.lifecycle_intents) [
    | none ↦ false
    | some intent ↦ intent.generation == generation && bool_eq intent.is_open is_open
  ]

  unfoldable pub lifecycle_intent_count : OpenFiles K Diagnostic → ℕ
  lifecycle_intent_count o = length o.lifecycle_intents

-- The loop of `did_change` over the changes, from the text of the buffer. `none` on the outside is
-- a panic.
unfoldable pub changed_text : Text → Option Text → List (Option Range × Text) → Option (Option Text)
changed_text buffer updated [] = some updated
changed_text buffer updated ((none, text) ∷ changes) = changed_text buffer (some text) changes
changed_text buffer updated ((some range, text) ∷ changes) =
    elim (apply_content_change (unwrap_or buffer updated) range text) [
      | none ↦ none
      | some cur ↦ changed_text buffer (some cur) changes
    ]
