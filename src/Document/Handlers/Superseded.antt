-- ===== src/Document/Handlers/Superseded.antt =====
-- src/backend/server.rs: the handlers of open and close messages, in whatever order they run.
use php_lsp.Prelude.{
  ℕ, ◌^◌, ◌<◌, ◌≡◌, refl, sym, ap, ◌∙◌, Option, some, true, false, List, ◌∷◌, ◌++◌, length, Eq,
  arith,
}
use php_lsp.Prelude.Chars.{Text}
use php_lsp.Prelude.Map.{insert, lookup-insert, lookup-modify, beq_self}
use php_lsp.Document.OpenFiles.{
  OpenFile, set_open_text, opened_file, text_of, parse_diagnostics_of, set_parse_diagnostics,
  should_apply_lifecycle,
}
use php_lsp.Document.OpenFiles.Lifecycle.{Service, Message, Reachable, newest, unfinished}
use php_lsp.Document.OpenFiles.Ordering.{should_apply-newest}
use php_lsp.Document.OpenFiles.Superseded.{should_apply_superseded}
use php_lsp.Document.Handlers.{
  Surroundings, Backend, did_open_start, did_open_finish, did_close_start, did_close_finish,
}

module _ {K Diagnostic D X : Type 0} ⦃e : Eq K⦄ (env : Surroundings K D X) where
  -- In a reachable state that received fewer than 2^64 messages, neither part of the handler of an
  -- open message does anything once a later message of the same file was received.
  pub did_open_superseded :
      (s : Service K Diagnostic) (b : Backend K Diagnostic D X) (newer older : List (Message K))
      (m n : Message K) (text : Text) (version : ℕ) (parse_diags : List Diagnostic)
      → Reachable s
      → length s.received < 2 ^ 64
      → b.open_files ≡ s.open_files
      → s.received ≡ newer ++ m ∷ older
      → newest m.uri newer ≡ some n
      → m.is_open ≡ true
      → (did_open_start env b m.uri text m.generation ≡ b)
        × (did_open_finish env b m.uri version m.generation parse_diags ≡ b)
  unfolding did_open_start did_open_finish
  did_open_superseded s b newer older m n text version parse_diags r small same split later kind =
      let stale = should_apply_superseded s newer older m n r small split later in
      let off =
        ap (λ o. should_apply_lifecycle o m.uri m.generation true) same
        ∙ sym (ap (should_apply_lifecycle s.open_files m.uri m.generation) kind)
        ∙ stale in
      (rw off refl, rw off refl)

  -- In a reachable state that received fewer than 2^64 messages, neither part of the handler of a
  -- close message does anything once a later message of the same file was received: it cannot
  -- close a buffer that was opened again.
  pub did_close_superseded :
      (s : Service K Diagnostic) (b : Backend K Diagnostic D X) (newer older : List (Message K))
      (m n : Message K) (disk_text : Option Text)
      → Reachable s
      → length s.received < 2 ^ 64
      → b.open_files ≡ s.open_files
      → s.received ≡ newer ++ m ∷ older
      → newest m.uri newer ≡ some n
      → m.is_open ≡ false
      → (did_close_start env b m.uri m.generation ≡ b)
        × (did_close_finish env b m.uri m.generation disk_text ≡ b)
  unfolding did_close_start did_close_finish
  did_close_superseded s b newer older m n disk_text r small same split later kind =
      let stale = should_apply_superseded s newer older m n r small split later in
      let off =
        ap (λ o. should_apply_lifecycle o m.uri m.generation false) same
        ∙ sym (ap (should_apply_lifecycle s.open_files m.uri m.generation) kind)
        ∙ stale in
      (rw off refl, rw off refl)

  applies :
      (s : Service K Diagnostic) (m : Message K)
      → Reachable s
      → 0 < unfinished m.uri s.guards
      → newest m.uri s.received ≡ some m
      → should_apply_lifecycle s.open_files m.uri m.generation m.is_open ≡ true
  applies s m r pending latest =
      should_apply-newest s m.uri m m.generation m.is_open r pending latest ∙ ground arith

  opened_text :
      (b : Backend K Diagnostic D X) (k : K) (text : Text)
      → text_of (set_open_text env.store b.open_files b.docs k text).0 k ≡ some text
  unfolding set_open_text text_of opened_file
  opened_text b k text =
      ground
        (arith, lookup-insert k k (opened_file b.open_files k text) b.open_files.files, beq_self k)

  diagnosed :
      (b : Backend K Diagnostic D X) (k : K) (text : Text) (diags : List Diagnostic)
      → parse_diagnostics_of
          (set_parse_diagnostics (set_open_text env.store b.open_files b.docs k text).0 k diags)
          k
        ≡ some diags
  unfolding set_open_text parse_diagnostics_of set_parse_diagnostics opened_file
  diagnosed b k text diags =
      let f : OpenFile Diagnostic → OpenFile Diagnostic =
        λ entry. record entry { parse_diagnostics = diags } in
      let file = opened_file b.open_files k text in
      ground (
        arith,
        lookup-insert k k file b.open_files.files,
        lookup-modify k k f (insert k file b.open_files.files),
        beq_self k,
      )

  still_applies :
      (b : Backend K Diagnostic D X) (k : K) (text : Text) (generation : ℕ)
      → should_apply_lifecycle
          (set_open_text env.store b.open_files b.docs k text).0
          k
          generation
          true
        ≡ should_apply_lifecycle b.open_files k generation true
  unfolding set_open_text should_apply_lifecycle
  still_applies b k text generation = refl

  started :
      (b : Backend K Diagnostic D X) (k : K) (text : Text) (generation : ℕ)
      → should_apply_lifecycle b.open_files k generation true ≡ true
      → (did_open_start env b k text generation).open_files
        ≡ (set_open_text env.store b.open_files b.docs k text).0
  unfolding did_open_start
  started b k text generation on = rw on refl

  finished_files :
      (b : Backend K Diagnostic D X) (k : K) (version generation : ℕ) (diags : List Diagnostic)
      → should_apply_lifecycle b.open_files k generation true ≡ true
      → (did_open_finish env b k version generation diags).open_files
        ≡ set_parse_diagnostics b.open_files k diags
  unfolding did_open_finish
  finished_files b k version generation diags on = rw on refl

  -- In a reachable state an open message that is the newest of its file takes effect while a
  -- handler of the file runs: it leaves its text in the buffer, and the diagnostics that were
  -- found when its second part follows.
  pub did_open_newest :
      (s : Service K Diagnostic) (b : Backend K Diagnostic D X) (m : Message K) (text : Text)
      (version : ℕ) (parse_diags : List Diagnostic)
      → Reachable s
      → 0 < unfinished m.uri s.guards
      → b.open_files ≡ s.open_files
      → newest m.uri s.received ≡ some m
      → m.is_open ≡ true
      → (text_of (did_open_start env b m.uri text m.generation).open_files m.uri ≡ some text)
        × (parse_diagnostics_of
              (did_open_finish env
                (did_open_start env b m.uri text m.generation)
                m.uri
                version
                m.generation
                parse_diags).open_files
              m.uri
            ≡ some parse_diags)
  did_open_newest s b m text version parse_diags r pending same latest kind =
      let on =
        ap (λ o. should_apply_lifecycle o m.uri m.generation true) same
        ∙ sym (ap (should_apply_lifecycle s.open_files m.uri m.generation) kind)
        ∙ applies s m r pending latest in
      let files = started b m.uri text m.generation on in
      let still =
        ap (λ o. should_apply_lifecycle o m.uri m.generation true) files
        ∙ still_applies b m.uri text m.generation
        ∙ on in
      (
        ap (λ o. text_of o m.uri) files ∙ opened_text b m.uri text,
        ap (λ o. parse_diagnostics_of o m.uri)
              (finished_files (did_open_start env b m.uri text m.generation) m.uri version
                  m.generation parse_diags still
                ∙ ap (λ o. set_parse_diagnostics o m.uri parse_diags) files)
            ∙ diagnosed b m.uri text parse_diags,
      )
