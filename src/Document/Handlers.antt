-- ===== src/Document/Handlers.antt =====
-- src/backend/server.rs: the handlers of didOpen and didClose. A handler is cut at its await: a part
-- before it, and a part behind it that runs if the first did not return early. What the awaited work
-- found is an argument of the second part. The document store, the runs of external tools and the
-- messages to the client are those of other parts of the server.
pub mod Superseded
mod Tests
use php_lsp.Prelude.{ℕ, Option, none, some, Bool, true, false, List, [], ◌∷◌, if◌then◌else◌, Eq}
use php_lsp.Prelude.Chars.{Text}
use php_lsp.Document.OpenFiles.{
  OpenFiles, DocumentStore, set_open_text, close, set_parse_diagnostics, contains_file,
  should_apply_lifecycle,
}

-- What the handlers ask of the document store and of the registry of external runs.
pub record Surroundings (K D X : Type 0) : Type 0 where
  pub store : DocumentStore K D
  pub sync_analysis_cache_declarations : D → K → D
  pub ingest : D → K → Text → D
  pub remove : D → K → D
  pub cancel : X → K → X

-- What is sent to the client.
pub data Publish (K : Type 0) : Type 0 where
  with_dependents : K → ℕ → ℕ → Publish K
  cleared : K → Publish K

pub record Backend (K Diagnostic D X : Type 0) : Type 0 where
  pub open_files : OpenFiles K Diagnostic
  pub docs : D
  pub external_runs : X
  pub sent : List (Publish K)

-- `self.docs.ingest` or `self.docs.remove`, from what the disk holds
abbrev pub from_disk : {K D X : Type 0} → Surroundings K D X → D → K → Option Text → D
from_disk env docs k none = env.remove docs k
from_disk env docs k (some text) = env.ingest docs k text

module _ {K Diagnostic D X : Type 0} ⦃e : Eq K⦄ (env : Surroundings K D X) where
  unfoldable pub did_open_start : Backend K Diagnostic D X → K → Text → ℕ → Backend K Diagnostic D X
  did_open_start b k text generation =
      let opened = set_open_text env.store b.open_files b.docs k text in
      if should_apply_lifecycle b.open_files k generation true
      then record b {
        open_files = opened.0;
        docs = env.sync_analysis_cache_declarations opened.1 k;
      }
      else b

  unfoldable pub did_open_finish :
      Backend K Diagnostic D X → K → ℕ → ℕ → List Diagnostic → Backend K Diagnostic D X
  did_open_finish b k version generation parse_diags =
      if should_apply_lifecycle b.open_files k generation true
      then record b {
        open_files = set_parse_diagnostics b.open_files k parse_diags;
        sent = with_dependents k version generation ∷ b.sent;
      }
      else b

  unfoldable pub did_close_start : Backend K Diagnostic D X → K → ℕ → Backend K Diagnostic D X
  did_close_start b k generation =
      let closed = close env.store b.open_files b.docs k in
      if should_apply_lifecycle b.open_files k generation false
      then record b {
        open_files = closed.0;
        docs = closed.1;
        external_runs = env.cancel b.external_runs k;
      }
      else b

  unfoldable pub did_close_finish :
      Backend K Diagnostic D X → K → ℕ → Option Text → Backend K Diagnostic D X
  did_close_finish b k generation disk_text =
      if should_apply_lifecycle b.open_files k generation false
      then record b {
        docs = if contains_file b.open_files k then b.docs else from_disk env b.docs k disk_text;
        sent = cleared k ∷ b.sent;
      }
      else b
