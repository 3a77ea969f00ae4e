-- ===== src/Document/OpenFiles/Superseded.antt =====
-- src/document/open_files.rs and src/backend/mod.rs: a message that a later one of the same file has
-- superseded.
use php_lsp.Prelude.{
  ℕ, suc, ◌+◌, ◌%◌, ◌^◌, ◌≤◌, ◌≡◌, refl, ap, ◌∙◌, subst, none, some, true, false, ◌↔◌, ◌<◌, List,
  [], ◌∷◌, ◌++◌, length, Eq, arith, Option-cases, inl, inr, length-append,
}
use php_lsp.Prelude.Map.{lookup, beq_self}
use php_lsp.Document.OpenFiles.{note_lifecycle_intent, should_apply_lifecycle}
use php_lsp.Document.OpenFiles.Lifecycle.{
  Service, Message, call, newest, unfinished, receive, drop_guard, write, Reachable, start, next,
}
use php_lsp.Document.OpenFiles.Ordering.{Reachable-IsTracked, finish_next, should_apply-newest}
use native.Mathlib.Nat.{mod-eq_of_lt}

-- Messages are numbered in the order of their receipt.
abbrev Numbered : {K : Type 0} → List (Message K) → Type 0
Numbered [] = Unit
Numbered (m ∷ received) = (m.generation ≡ length received) × Numbered received

module _ {K : Type 0} ⦃e : Eq K⦄ where
  newest-append :
      (k : K) (newer older : List (Message K)) (n : Message K)
      → newest k newer ≡ some n
      → newest k (newer ++ older) ≡ some n
  newest-append k [] older n h = absurd cc
  newest-append k (m ∷ newer) older n h = ground (arith, newest-append k newer older n)

  newest_later :
      (k : K) (newer older : List (Message K)) (n : Message K)
      → newest k newer ≡ some n
      → Numbered (newer ++ older)
      → length older ≤ n.generation
  newest_later k [] older n h num = absurd cc
  newest_later k (m ∷ newer) older n h num =
      ground (arith, newest_later k newer older n, length-append newer older)

Numbered-append :
    {K : Type 0} (newer older : List (Message K)) → Numbered (newer ++ older) → Numbered older
Numbered-append [] older h = h
Numbered-append (m ∷ newer) older h = Numbered-append newer older h.1

next_length : (m n : ℕ) → m ≡ n → suc n < 2 ^ 64 → (m + 1) % 2 ^ 64 ≡ suc n
next_length m n h small = ap (λ i. (i + 1) % 2 ^ 64) h ∙ mod-eq_of_lt (omega arith) ∙ omega arith

module _ {K : Type 0} ⦃e : Eq K⦄ where
  newest-none :
      (k : K) (newer older : List (Message K))
      → newest k newer ≡ none
      → newest k (newer ++ older) ≡ newest k older
  newest-none k [] older h = refl
  newest-none k (m ∷ newer) older h = ground (arith, newest-none k newer older)

module _ {K Diagnostic : Type 0} ⦃e : Eq K⦄ where
  numbered :
      (s : Service K Diagnostic)
      → Reachable s
      → length s.received < 2 ^ 64
      → Numbered s.received × (s.open_files.next_lifecycle_generation ≡ length s.received)
  unfolding call note_lifecycle_intent
  numbered _ start small = (tt, refl)
  numbered _ (next s _ r (receive _ k is_open _)) small =
      let (num, count) = numbered s r (omega arith) in ((count, num), next_length _ _ count small)
  numbered _ (next s _ r (drop_guard _ before after g o split f)) small =
      let (num, count) = numbered s r small in (num, finish_next s.open_files o g.uri f ∙ count)
  numbered _ (next s _ r (write _ files)) small = numbered s r small

  -- In a reachable state that received fewer than 2^64 messages, a message does not take effect
  -- once a later one of the same file was received, even when the handler of the later one has
  -- ended.
  pub should_apply_superseded :
      (s : Service K Diagnostic) (newer older : List (Message K)) (m n : Message K)
      → Reachable s
      → length s.received < 2 ^ 64
      → s.received ≡ newer ++ m ∷ older
      → newest m.uri newer ≡ some n
      → should_apply_lifecycle s.open_files m.uri m.generation m.is_open ≡ false
  unfolding should_apply_lifecycle
  should_apply_superseded s newer older m n r small split later =
      let h = Reachable-IsTracked s r in
      let num = subst Numbered split (numbered s r small).0 in
      elim (Option-cases (lookup m.uri s.open_files.lifecycle_intents)) [
        | inl g ↦ rw (should_apply_lifecycle, g) refl
        | inr (i, g) ↦
            rw (should_apply_lifecycle, g)
              (ground (
                arith,
                h.latest m.uri i g,
                newest-append m.uri newer (m ∷ older) n later,
                newest_later m.uri newer (m ∷ older) n later num,
                (Numbered-append newer (m ∷ older) num).0,
                ap (newest m.uri) split,
              ))
      ]

  newest_applies :
      (s : Service K Diagnostic) (newer older : List (Message K)) (m : Message K)
      → Reachable s
      → s.received ≡ newer ++ m ∷ older
      → 0 < unfinished m.uri s.guards
      → newest m.uri newer ≡ none
      → should_apply_lifecycle s.open_files m.uri m.generation m.is_open ≡ true
  newest_applies s newer older m r split pending alone =
      should_apply-newest s m.uri m m.generation m.is_open r pending (
        ap (newest m.uri) split
        ∙ newest-none m.uri newer (m ∷ older) alone
        ∙ rw (beq_self m.uri) refl)
      ∙ ground arith

  -- In every reachable state of the lifecycle service that received fewer than 2^64 messages,
  -- while a handler of a message of a file has not ended, a received message of that file takes
  -- effect exactly if no message of the file was received after it.
  pub should_apply-none_newer :
      (s : Service K Diagnostic) (newer older : List (Message K)) (m : Message K)
      → Reachable s
      → length s.received < 2 ^ 64
      → s.received ≡ newer ++ m ∷ older
      → 0 < unfinished m.uri s.guards
      → (should_apply_lifecycle s.open_files m.uri m.generation m.is_open ≡ true)
        ↔ (newest m.uri newer ≡ none)
  should_apply-none_newer s newer older m r small split pending = (
    (λ on. elim (Option-cases (newest m.uri newer)) [
      | inl alone ↦ alone
      | inr (n, later) ↦
          absurd (cc (on, should_apply_superseded s newer older m n r small split later))
    ]),
    newest_applies s newer older m r split pending,
  )
