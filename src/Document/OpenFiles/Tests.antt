-- ===== src/Document/OpenFiles/Tests.antt =====
-- src/document/open_files.rs: open files and lifecycle messages at concrete inputs.
use php_lsp.Prelude.{
  ℕ, ◌+◌, ◌^◌, ◌<◌, ◌≡◌, ◌↔◌, refl, Option, none, some, true, false, List, [], ◌∷◌, ◌++◌, nat_eq,
  arith, length,
}
use php_lsp.Prelude.Chars.{Text, codes}
use php_lsp.Prelude.Map.{lookup, insert, remove}
use php_lsp.Text.Offset.{Range}
use php_lsp.Document.OpenFiles.{
  OpenFiles, DocumentStore, no_files, set_open_text, opened_file, current_version,
  note_lifecycle_intent, finish_lifecycle_intent, should_apply_lifecycle, changed_text,
}
use php_lsp.Document.OpenFiles.Lifecycle.{
  Service, Message, started, call, unfinished, newest, Reachable, start, next, receive, drop_guard,
}
use php_lsp.Document.OpenFiles.Superseded.{should_apply-none_newer}
use php_lsp.Document.OpenFiles.Changes.{updated_by, changed_text-updated_by}

-- A store that keeps the last text it was given.
abbrev last_text : DocumentStore ℕ Text
last_text = record { mirror_text_arc = λ d k t. t; evict_token_cache = λ d k. d }

abbrev empty : OpenFiles ℕ ℕ
empty = no_files

abbrev opened : OpenFiles ℕ ℕ
opened = (set_open_text last_text empty [] 7 (codes "<?php")).0

opened_once : current_version opened 7 ≡ some 1
unfolding current_version set_open_text opened_file insert lookup
opened_once = refl

no_wrap : 1 + 1 < 2 ^ 64
no_wrap = omega arith

not_open : current_version empty 7 ≡ none
unfolding current_version lookup
not_open = refl

abbrev changes : List (Option Range × Text)
changes =
    (none, codes "abc")
    ∷ (
      some (record {
        start = record { line = 0; character = 1 };
        stop = record { line = 0; character = 2 };
      }),
      codes "x",
    )
    ∷ []

changed_text-updated_by_example :
    changed_text (codes "old") none changes ≡ some (updated_by (codes "old") changes)
changed_text-updated_by_example = changed_text-updated_by (codes "old") changes

-- A close, and the open that follows it.
abbrev closing : Service ℕ ℕ
closing = call started 7 false

abbrev reopening : Service ℕ ℕ
reopening = call closing 7 true

closing_small : length closing.guards + 1 < 2 ^ 64
unfolding call
closing_small = omega arith

closing-Reachable : Reachable closing
closing-Reachable = next started closing start (receive started 7 false (omega arith))

reopening-Reachable : Reachable reopening
reopening-Reachable =
    next closing reopening closing-Reachable (receive closing 7 true closing_small)

pending : 0 < unfinished 7 reopening.guards
unfolding call
pending = omega arith

abbrev reopen_message : Message ℕ
reopen_message = record { uri = 7; generation = 1; is_open = true }

abbrev close_message : Message ℕ
close_message = record { uri = 7; generation = 0; is_open = false }

reopen_is_newest : newest 7 reopening.received ≡ some reopen_message
unfolding call note_lifecycle_intent
reopen_is_newest = refl

few : length reopening.received < 2 ^ 64
unfolding call
few = omega arith

both_received : reopening.received ≡ (reopen_message ∷ []) ++ close_message ∷ []
unfolding call note_lifecycle_intent
both_received = refl

-- The close, which the open has superseded.
should_apply-none_newer_example :
    (should_apply_lifecycle reopening.open_files 7 0 false ≡ true)
    ↔ (newest 7 (reopen_message ∷ []) ≡ none)
should_apply-none_newer_example =
    should_apply-none_newer reopening (reopen_message ∷ []) [] close_message reopening-Reachable few
      both_received pending

abbrev intent_gone : OpenFiles ℕ ℕ
intent_gone = record closing.open_files {
  lifecycle_intents = remove 7 closing.open_files.lifecycle_intents;
}

abbrev closed : Service ℕ ℕ
closed = record closing { open_files = intent_gone; guards = [] }

finishes : finish_lifecycle_intent closing.open_files 7 ≡ some intent_gone
unfolding finish_lifecycle_intent call note_lifecycle_intent lookup insert remove
finishes = refl

one_guard : closing.guards ≡ [] ++ record { uri = 7; generation = 0 } ∷ []
unfolding call note_lifecycle_intent
one_guard = refl

closed-Reachable : Reachable closed
closed-Reachable =
    next closing closed closing-Reachable
      (drop_guard closing [] [] (record { uri = 7; generation = 0 }) intent_gone one_guard finishes)
