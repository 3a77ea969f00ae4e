-- ===== src/Document/OpenFiles/Staleness.antt =====
-- src/document/open_files.rs: when the findings of an external tool are shown.
use php_lsp.Prelude.{ℕ, ◌+◌, ◌^◌, ◌<◌, ◌≡◌, none, some, List, [], Eq, arith}
use php_lsp.Prelude.Chars.{Text}
use php_lsp.Prelude.Map.{
  insert, modify, remove, lookup-insert, lookup-remove, lookup-modify, beq_self,
}
use php_lsp.Document.OpenFiles.{
  OpenFile, OpenFiles, DocumentStore, set_open_text, close, opened_file, current_version,
  set_external_diagnostics, external_diagnostics_of,
}
use native.Mathlib.Nat.{mod-eq_of_lt}

module _ {K Diagnostic D : Type 0} ⦃e : Eq K⦄ where
  -- Findings of a run that began at the current version are shown until the next edit, and after it
  -- they are not, as long as the version does not wrap around.
  pub external_diagnostics_until_edit :
      (store : DocumentStore K D) (o : OpenFiles K Diagnostic) (docs : D) (k : K) (text : Text)
      (version : ℕ) (found : List Diagnostic)
      → current_version o k ≡ some version
      → version + 1 < 2 ^ 64
      → (external_diagnostics_of (set_external_diagnostics o k version found) k ≡ found)
        × (external_diagnostics_of
              (set_open_text store (set_external_diagnostics o k version found) docs k text).0
              k
            ≡ [])
  unfolding external_diagnostics_of set_external_diagnostics set_open_text current_version
      opened_file
  external_diagnostics_until_edit store o docs k text version found h small =
      let f : OpenFile Diagnostic → OpenFile Diagnostic = λ entry. record entry {
        external_diagnostics = found;
        external_diagnostics_version = some version;
      } in
      let m = modify k f o.files in
      let after = set_external_diagnostics o k version found in
      (
        ground (arith, lookup-modify k k f o.files, beq_self k),
        ground (
          arith,
          lookup-modify k k f o.files,
          lookup-insert k k (opened_file after k text) m,
          beq_self k,
          mod-eq_of_lt small,
        ),
      )

  -- A file that is closed and opened again starts over at the version it first had, so a version that
  -- was read from the first buffer passes for current in the second.
  pub reopened_version :
      (store : DocumentStore K D) (o : OpenFiles K Diagnostic) (docs docs' : D) (k : K) (a b : Text)
      → current_version o k ≡ none
      → (current_version (set_open_text store o docs k a).0 k ≡ some 1)
        × (current_version
              (set_open_text store
                (close store (set_open_text store o docs k a).0 docs k).0
                docs'
                k
                b).0
              k
            ≡ some 1)
  unfolding set_open_text close current_version opened_file
  reopened_version store o docs docs' k a b h =
      let m = insert k (opened_file o k a) o.files in
      let closed = (close store (set_open_text store o docs k a).0 docs k).0 in
      (
        ground (arith, lookup-insert k k (opened_file o k a) o.files, beq_self k),
        ground (
          arith,
          lookup-insert k k (opened_file closed k b) (remove k m),
          lookup-remove k k m,
          beq_self k,
        ),
      )
