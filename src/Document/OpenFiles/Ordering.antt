-- ===== src/Document/OpenFiles/Ordering.antt =====
-- src/document/open_files.rs and src/backend/mod.rs: open and close messages take effect in the order
-- in which they were received, whichever order their handlers run in.
use php_lsp.Prelude.{
  ℕ, ◌-◌, ◌<◌, ◌≡◌, refl, ap, subst, Option, none, some, Bool, ◌&&◌, List, [], ◌∷◌, ◌++◌, ◌==◌,
  if◌then◌else◌, length, Eq, arith, Option-cases, Bool-cases, inl, inr,
}
use php_lsp.Prelude.Map.{Map, lookup, lookup-remove, lookup-modify, beq_self}
use php_lsp.Document.OpenFiles.{
  OpenFiles, LifecycleIntent, finish_lifecycle_intent, should_apply_lifecycle, bool_eq,
  lifecycle_intent_count,
}
use php_lsp.Document.OpenFiles.Lifecycle.{
  Service, LifecycleIntentGuard, Message, unfinished, newest, Step, receive, drop_guard, write,
  Reachable, start, next, in_flight_of, IsTracked, started-IsTracked, call-IsTracked,
  unfinished-append,
}

-- An intent after one of its messages was handled.
abbrev finished : Option LifecycleIntent → Option LifecycleIntent
finished none = none
finished (some i) =
    if i.in_flight - 1 == 0 then none else some (record i { in_flight = i.in_flight - 1 })

-- What an intent keeps while messages of its file are handled.
abbrev KeepsMessage : LifecycleIntent → LifecycleIntent → Type 0
KeepsMessage i j =
    (i.generation ≡ j.generation) × (i.is_open ≡ j.is_open) × (0 < j.in_flight → 0 < i.in_flight)

finished-KeepsMessage :
    (m : Option LifecycleIntent) (i : LifecycleIntent)
    → finished m ≡ some i
    → (j : LifecycleIntent) × (m ≡ some j) × KeepsMessage i j
finished-KeepsMessage none i h = absurd cc
finished-KeepsMessage (some j) i h = (j, refl, ground arith)

module _ {K : Type 0} ⦃e : Eq K⦄ where
  all_missing : {V : Type 0} (m : Map K V) → ((k : K) → lookup k m ≡ none) → length m ≡ 0
  unfolding lookup
  all_missing [] h = refl
  all_missing ((k, v) ∷ m) h = ground (arith, h k, beq_self k)

counted_down :
    {A : Type 0} (n : ℕ) (a b : A)
    → 0 < n
    → (x : A) × ((if n == 0 then none else if n - 1 == 0 then some a else some b) ≡ some x)
counted_down n a b p = (if n - 1 == 0 then a else b, ground arith)

module _ {K Diagnostic : Type 0} ⦃e : Eq K⦄ where
  lookup-finish :
      (o o' : OpenFiles K Diagnostic) (k j : K)
      → finish_lifecycle_intent o k ≡ some o'
      → lookup j o'.lifecycle_intents ≡ (
          if e.beq k j
          then finished (lookup k o.lifecycle_intents)
          else lookup j o.lifecycle_intents)
  unfolding finish_lifecycle_intent
  lookup-finish o o' k j h = ground (
    arith,
    h,
    e.beq_iff k j,
    lookup-remove k j o.lifecycle_intents,
    lookup-modify k j (λ i. record i { in_flight = i.in_flight - 1 }) o.lifecycle_intents,
  )

  intent_before :
      (o o' : OpenFiles K Diagnostic) (k j : K) (i : LifecycleIntent)
      → finish_lifecycle_intent o k ≡ some o'
      → lookup j o'.lifecycle_intents ≡ some i
      → (i' : LifecycleIntent) × (lookup j o.lifecycle_intents ≡ some i') × KeepsMessage i i'
  intent_before o o' k j i f h = elim (Bool-cases (e.beq k j)) [
    | inl c ↦
        let (i', g, keeps) =
          finished-KeepsMessage (lookup k o.lifecycle_intents) i
            (rw (lookup-finish o o' k j f, c) at h) in
        (i', subst (λ l. lookup l o.lifecycle_intents ≡ some i') ((e.beq_iff k j).0 c) g, keeps)
    | inr c ↦ (i, rw (lookup-finish o o' k j f, c) at h, (refl, refl, λ p. p))
  ]

  pub finish_next :
      (o o' : OpenFiles K Diagnostic) (k : K)
      → finish_lifecycle_intent o k ≡ some o'
      → o'.next_lifecycle_generation ≡ o.next_lifecycle_generation
  unfolding finish_lifecycle_intent
  finish_next o o' k h = ground (arith, h)

  drop-IsTracked :
      (s : Service K Diagnostic) (before after : List (LifecycleIntentGuard K))
      (g : LifecycleIntentGuard K) (o : OpenFiles K Diagnostic)
      → s.guards ≡ before ++ g ∷ after
      → finish_lifecycle_intent s.open_files g.uri ≡ some o
      → IsTracked s
      → IsTracked (record s { open_files = o; guards = before ++ after })
  drop-IsTracked s before after g o split f h =
      let step = lookup-finish s.open_files o g.uri in
      record {
        counted = λ j. ground (
          arith,
          step j f,
          h.counted j,
          unfinished-append j before after g,
          ap (unfinished j) split,
          e.beq_iff g.uri j,
        );
        positive = λ j i r.
            let (i', q, (same, opens, pos)) = intent_before s.open_files o g.uri j i f r in
            pos (h.positive j i' q);
        latest = λ j i r.
            let (i', q, (same, opens, pos)) = intent_before s.open_files o g.uri j i f r in
            rw (same, opens) (h.latest j i' q);
      }

  Step-IsTracked : (s t : Service K Diagnostic) → Step s t → IsTracked s → IsTracked t
  Step-IsTracked s _ (receive _ k is_open small) h = call-IsTracked s k is_open small h
  Step-IsTracked s _ (drop_guard _ before after g o split f) h =
      drop-IsTracked s before after g o split f h
  Step-IsTracked s _ (write _ files) h = record {
    counted = h.counted;
    positive = h.positive;
    latest = h.latest;
  }

  -- The invariant holds whenever messages come in and handlers end, in any order.
  pub Reachable-IsTracked : (s : Service K Diagnostic) → Reachable s → IsTracked s
  Reachable-IsTracked _ start = started-IsTracked
  Reachable-IsTracked _ (next s t r step) = Step-IsTracked s t step (Reachable-IsTracked s r)

  -- In a reachable state, while a message of a file is unhandled, exactly the generation and the kind
  -- of the newest message that was received for the file take effect.
  pub should_apply-newest :
      (s : Service K Diagnostic) (k : K) (m : Message K) (generation : ℕ) (is_open : Bool)
      → Reachable s
      → 0 < unfinished k s.guards
      → newest k s.received ≡ some m
      → should_apply_lifecycle s.open_files k generation is_open
        ≡ (m.generation == generation && bool_eq m.is_open is_open)
  unfolding should_apply_lifecycle
  should_apply-newest s k m generation is_open r pending n =
      let h = Reachable-IsTracked s r in
      elim (Option-cases (lookup k s.open_files.lifecycle_intents)) [
        | inl g ↦ absurd (omega (arith, h.counted k, ap in_flight_of g))
        | inr (i, g) ↦ rw (should_apply_lifecycle, g) (ground (arith, h.latest k i g, n))
      ]

  -- In a reachable state a handler that ends, for whatever file, does not count below zero.
  pub finish_lifecycle_intent_safe :
      (s : Service K Diagnostic) (k : K)
      → Reachable s
      → (o : OpenFiles K Diagnostic) × (finish_lifecycle_intent s.open_files k ≡ some o)
  unfolding finish_lifecycle_intent
  finish_lifecycle_intent_safe s k r =
      let h = Reachable-IsTracked s r in
      elim (Option-cases (lookup k s.open_files.lifecycle_intents)) [
        | inl g ↦ (s.open_files, rw (finish_lifecycle_intent, g) refl)
        | inr (i, g) ↦
            rw (finish_lifecycle_intent, g) (counted_down i.in_flight _ _ (h.positive k i g))
      ]

  -- In a reachable state in which every handler has ended, no intent is left.
  pub lifecycle_intent_count_idle :
      (s : Service K Diagnostic)
      → Reachable s
      → s.guards ≡ []
      → lifecycle_intent_count s.open_files ≡ 0
  unfolding lifecycle_intent_count
  lifecycle_intent_count_idle s r idle = all_missing s.open_files.lifecycle_intents no_intent
    where
      no_intent : (k : K) → lookup k s.open_files.lifecycle_intents ≡ none
      no_intent k =
          let h = Reachable-IsTracked s r in
          elim (Option-cases (lookup k s.open_files.lifecycle_intents)) [
            | inl g ↦ g
            | inr (i, g) ↦ absurd (
                omega
                  (arith, h.counted k, h.positive k i g, ap in_flight_of g, ap (unfinished k) idle))
          ]
