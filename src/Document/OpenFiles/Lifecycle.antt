-- ===== src/Document/OpenFiles/Lifecycle.antt =====
-- src/backend/mod.rs: `LifecycleService`. An open or close message is noted when it enters the
-- service and its guard is dropped when its handler ends, in any order. A state also records, for
-- the theorems only, the messages that were received, the newest first.
use php_lsp.Prelude.{
  ℕ, suc, ◌+◌, ◌^◌, ◌≤◌, ◌<◌, ◌≡◌, refl, ap, Option, none, some, Bool, List, [], ◌∷◌, ◌++◌,
  if◌then◌else◌, length, Eq, arith, Option-cases, inl, inr,
}
use php_lsp.Prelude.Map.{Map, lookup, lookup-insert}
use php_lsp.Document.OpenFiles.{
  OpenFile, OpenFiles, LifecycleIntent, no_files, note_lifecycle_intent, finish_lifecycle_intent,
}
use native.Mathlib.Nat.{mod-eq_of_lt}

pub record LifecycleIntentGuard (K : Type 0) : Type 0 where
  pub uri : K
  pub generation : ℕ

pub record Message (K : Type 0) : Type 0 where
  pub uri : K
  pub generation : ℕ
  pub is_open : Bool

pub record Service (K Diagnostic : Type 0) : Type 0 where
  pub open_files : OpenFiles K Diagnostic
  pub guards : List (LifecycleIntentGuard K)
  pub received : List (Message K)

abbrev pub started : {K Diagnostic : Type 0} → Service K Diagnostic
started = record { open_files = no_files; guards = []; received = [] }

abbrev pub in_flight_of : Option LifecycleIntent → ℕ
in_flight_of none = 0
in_flight_of (some intent) = intent.in_flight

module _ {K : Type 0} ⦃e : Eq K⦄ where
  -- The messages of a file whose handlers have not ended.
  abbrev pub unfinished : K → List (LifecycleIntentGuard K) → ℕ
  unfinished k [] = 0
  unfinished k (g ∷ guards) =
      let rest = unfinished k guards in if e.beq g.uri k then suc rest else rest

  abbrev pub newest : K → List (Message K) → Option (Message K)
  newest k [] = none
  newest k (m ∷ received) = if e.beq m.uri k then some m else newest k received

  unfinished_bound :
      (k : K) (guards : List (LifecycleIntentGuard K)) → unfinished k guards ≤ length guards
  unfinished_bound k [] = omega arith
  unfinished_bound k (g ∷ guards) = ground (arith, unfinished_bound k guards)

  pub unfinished-append :
      (k : K) (before after : List (LifecycleIntentGuard K)) (g : LifecycleIntentGuard K)
      → unfinished k (before ++ g ∷ after) ≡ (
          if e.beq g.uri k
          then suc (unfinished k (before ++ after))
          else unfinished k (before ++ after))
  unfinished-append k [] after g = refl
  unfinished-append k (b ∷ before) after g = ground (arith, unfinished-append k before after g)

module _ {K Diagnostic : Type 0} ⦃e : Eq K⦄ where
  -- `call`, on an open or close message, up to the start of its handler.
  unfoldable pub call : Service K Diagnostic → K → Bool → Service K Diagnostic
  call s k is_open =
      let noted = note_lifecycle_intent s.open_files k is_open in
      record {
        open_files = noted.0;
        guards = record { uri = k; generation = noted.1 } ∷ s.guards;
        received = record { uri = k; generation = noted.1; is_open = is_open } ∷ s.received;
      }

  -- The steps of the service: a message comes in, for as many guards as a machine can hold, or any
  -- one of the guards is dropped, or a handler writes to the open buffers.
  pub data Step : Service K Diagnostic → Service K Diagnostic → Type 0 where
    receive :
        (s : Service K Diagnostic) (k : K) (is_open : Bool)
        → length s.guards + 1 < 2 ^ 64
        → Step s (call s k is_open)
    drop_guard :
        (s : Service K Diagnostic) (before after : List (LifecycleIntentGuard K))
        (g : LifecycleIntentGuard K) (o : OpenFiles K Diagnostic)
        → s.guards ≡ before ++ g ∷ after
        → finish_lifecycle_intent s.open_files g.uri ≡ some o
        → Step s (record s { open_files = o; guards = before ++ after })
    write :
        (s : Service K Diagnostic) (files : Map K (OpenFile Diagnostic))
        → Step s (record s { open_files = record s.open_files { files = files } })

  pub data Reachable : Service K Diagnostic → Type 0 where
    start : Reachable started
    next : (s t : Service K Diagnostic) → Reachable s → Step s t → Reachable t

  -- The invariant: an intent counts the guards of its file, is dropped with the last of them, and
  -- carries what the newest message of the file said.
  pub record IsTracked (s : Service K Diagnostic) : Type 0 where
    pub counted :
        (k : K) → in_flight_of (lookup k s.open_files.lifecycle_intents) ≡ unfinished k s.guards
    pub positive :
        (k : K) (i : LifecycleIntent)
        → lookup k s.open_files.lifecycle_intents ≡ some i
        → 0 < i.in_flight
    pub latest :
        (k : K) (i : LifecycleIntent)
        → lookup k s.open_files.lifecycle_intents ≡ some i
        → newest k s.received
          ≡ some (record { uri = k; generation = i.generation; is_open = i.is_open })

  pub started-IsTracked : IsTracked started
  unfolding lookup
  started-IsTracked = record { counted = λ k. refl; positive = λ k i h. cc; latest = λ k i h. cc }

  -- What `note_lifecycle_intent` writes for the file of the message.
  abbrev noted : Service K Diagnostic → K → Bool → LifecycleIntent
  noted s k is_open = record {
    generation = s.open_files.next_lifecycle_generation;
    is_open = is_open;
    in_flight = in_flight_of (lookup k s.open_files.lifecycle_intents) + 1;
  }

  fits :
      (s : Service K Diagnostic) (k : K) (i : LifecycleIntent)
      → length s.guards + 1 < 2 ^ 64
      → IsTracked s
      → lookup k s.open_files.lifecycle_intents ≡ some i
      → i.in_flight + 1 < 2 ^ 64
  fits s k i small h g = ground (arith, h.counted k, unfinished_bound k s.guards, ap in_flight_of g)

  lookup-call :
      (s : Service K Diagnostic) (k j : K) (is_open : Bool)
      → length s.guards + 1 < 2 ^ 64
      → IsTracked s
      → lookup j (call s k is_open).open_files.lifecycle_intents
        ≡ (if e.beq k j then some (noted s k is_open) else lookup j s.open_files.lifecycle_intents)
  unfolding call note_lifecycle_intent
  lookup-call s k j is_open small h =
      elim (Option-cases (lookup k s.open_files.lifecycle_intents)) [
        | inl g ↦ rw (g, lookup-insert k j) refl
        | inr (i, g) ↦ rw (g, lookup-insert k j, mod-eq_of_lt (fits s k i small h g)) refl
      ]

  pub call-IsTracked :
      (s : Service K Diagnostic) (k : K) (is_open : Bool)
      → length s.guards + 1 < 2 ^ 64
      → IsTracked s
      → IsTracked (call s k is_open)
  unfolding call note_lifecycle_intent
  call-IsTracked s k is_open small h = record {
    counted = λ j.
        ground (arith, lookup-call s k j is_open small h, h.counted j, h.counted k, e.beq_iff k j);
    positive = λ j i g. ground (arith, lookup-call s k j is_open small h, h.positive j i, g);
    latest =
        λ j i g. ground (arith, lookup-call s k j is_open small h, h.latest j i, g, e.beq_iff k j);
  }
