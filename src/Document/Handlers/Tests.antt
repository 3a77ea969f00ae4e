-- ===== src/Document/Handlers/Tests.antt =====
-- src/backend/server.rs: an open message and a close message of one file, in both orders.
use php_lsp.Prelude.{
  ℕ, ◌+◌, ◌^◌, ◌<◌, ◌≡◌, refl, none, some, Bool, true, false, [], ◌∷◌, ◌++◌, nat_eq, arith, length,
}
use php_lsp.Prelude.Chars.{Text}
use php_lsp.Document.OpenFiles.{note_lifecycle_intent}
use php_lsp.Document.OpenFiles.Lifecycle.{
  Service, Message, started, call, unfinished, newest, Reachable, start, next, receive,
}
use php_lsp.Document.Handlers.{Surroundings, Backend, did_close_start, did_close_finish}
use php_lsp.Document.Handlers.Superseded.{did_close_superseded}

-- The store keeps the last text it was given, and runs are counted.
abbrev surroundings : Surroundings ℕ Text ℕ
surroundings = record {
  store = record { mirror_text_arc = λ d k t. t; evict_token_cache = λ d k. d };
  sync_analysis_cache_declarations = λ d k. d;
  ingest = λ d k t. t;
  remove = λ d k. [];
  cancel = λ x k. 0;
}

abbrev first_message : Bool → Service ℕ ℕ
first_message is_open = call started 7 is_open

abbrev both_messages : Bool → Bool → Service ℕ ℕ
both_messages first second = call (first_message first) 7 second

abbrev backend : Service ℕ ℕ → Backend ℕ ℕ Text ℕ
backend s = record { open_files = s.open_files; docs = []; external_runs = 1; sent = [] }

abbrev message : ℕ → Bool → Message ℕ
message generation is_open = record { uri = 7; generation = generation; is_open = is_open }

one_guard_fits : (is_open : Bool) → length (first_message is_open).guards + 1 < 2 ^ 64
unfolding call
one_guard_fits is_open = omega arith

both-Reachable : (first second : Bool) → Reachable (both_messages first second)
both-Reachable first second =
    next (first_message first) (both_messages first second)
      (next started (first_message first) start (receive started 7 first (omega arith)))
      (receive (first_message first) 7 second (one_guard_fits first))

few : (first second : Bool) → length (both_messages first second).received < 2 ^ 64
unfolding call
few first second = omega arith

in_order :
    (first second : Bool)
    → (both_messages first second).received ≡ (message 1 second ∷ []) ++ message 0 first ∷ []
unfolding call note_lifecycle_intent
in_order first second = refl

pending : 0 < unfinished 7 (both_messages false true).guards
unfolding call
pending = omega arith

open_is_newest : newest 7 (both_messages false true).received ≡ some (message 1 true)
unfolding call note_lifecycle_intent
open_is_newest = refl

did_close_superseded_example :
    (did_close_start surroundings (backend (both_messages false true)) 7 0
      ≡ backend (both_messages false true))
    × (did_close_finish surroundings (backend (both_messages false true)) 7 0 none
        ≡ backend (both_messages false true))
did_close_superseded_example =
    did_close_superseded surroundings (both_messages false true)
      (backend (both_messages false true)) (message 1 true ∷ []) [] (message 0 false)
      (message 1 true) none (both-Reachable false true) (few false true) refl (in_order false true)
      refl refl
