-- ===== src/Analysis/External/Runs.antt =====
-- src/analysis/external/mod.rs: `RunRegistry`, at most one run of a file. A handle is the number of
-- tasks spawned before it; the tasks with their files and the aborted ones are the runtime's side.
use php_lsp.Prelude.{
  ℕ, ◌+◌, ◌≡◌, refl, ap, ◌∙◌, ◌⊎◌, inl, inr, Option, none, some, Bool, true, List, [], ◌∷◌, ◌==◌,
  any, All, Eq, Bool-cases, arith,
}
use php_lsp.Prelude.Map.{Map, lookup, insert, remove, lookup-insert, lookup-remove, beq_self}

pub record RunRegistry (Uri : Type 0) : Type 0 where
  pub runs : Map Uri ℕ
  pub spawned : List (ℕ × Uri)
  pub aborted : List ℕ
  pub next : ℕ

-- `abort` of the handle that the map gives back, if it does
abbrev pub abort : Option ℕ → List ℕ → List ℕ
abort none aborted = aborted
abort (some handle) aborted = handle ∷ aborted

is_aborted-abort :
    (o : Option ℕ) (aborted : List ℕ) (handle : ℕ)
    → any (λ h. h == handle) aborted ≡ true
    → any (λ h. h == handle) (abort o aborted) ≡ true
is_aborted-abort none aborted handle h = h
is_aborted-abort (some k) aborted handle h = ground arith

abort_held :
    (o : Option ℕ) (aborted : List ℕ) (handle : ℕ)
    → o ≡ some handle
    → any (λ h. h == handle) (abort o aborted) ≡ true
abort_held o aborted handle e = rw e (ground arith)

module _ {Uri : Type 0} ⦃key : Eq Uri⦄ where
  abbrev pub new : RunRegistry Uri
  new = record { runs = []; spawned = []; aborted = []; next = 0 }

  unfoldable pub start : Uri → RunRegistry Uri → RunRegistry Uri
  start uri r = record {
    runs = insert uri r.next r.runs;
    spawned = (r.next, uri) ∷ r.spawned;
    aborted = abort (lookup uri r.runs) r.aborted;
    next = r.next + 1;
  }

  unfoldable pub cancel : Uri → RunRegistry Uri → RunRegistry Uri
  cancel uri r = record {
    runs = remove uri r.runs;
    spawned = r.spawned;
    aborted = abort (lookup uri r.runs) r.aborted;
    next = r.next;
  }

  abbrev pub is_aborted : RunRegistry Uri → ℕ → Bool
  is_aborted r handle = any (λ h. h == handle) r.aborted

  -- The run was aborted or is the one that the registry holds for its file.
  abbrev pub IsAccounted : RunRegistry Uri → ℕ × Uri → Type 0
  IsAccounted r run = (is_aborted r run.0 ≡ true) ⊎ (lookup run.1 r.runs ≡ some run.0)

  pub data Reachable : RunRegistry Uri → Type 0 where
    created : Reachable new
    started : {r : RunRegistry Uri} (uri : Uri) → Reachable r → Reachable (start uri r)
    cancelled : {r : RunRegistry Uri} (uri : Uri) → Reachable r → Reachable (cancel uri r)

  held :
      (uri u : Uri) (r : RunRegistry Uri) (handle : ℕ)
      → key.beq uri u ≡ true
      → lookup u r.runs ≡ some handle
      → lookup uri r.runs ≡ some handle
  held uri u r handle e h = ap (λ k. lookup k r.runs) ((key.beq_iff uri u).0 e) ∙ h

  IsAccounted-start :
      (uri : Uri) (r : RunRegistry Uri) (run : ℕ × Uri)
      → IsAccounted r run
      → IsAccounted (start uri r) run
  unfolding start
  IsAccounted-start uri r (handle, u) (inl h) = inl (is_aborted-abort _ _ handle h)
  IsAccounted-start uri r (handle, u) (inr h) = elim (Bool-cases (key.beq uri u)) [
    | inl e ↦ inl (abort_held _ _ handle (held uri u r handle e h))
    | inr e ↦ inr (lookup-insert uri u r.next r.runs ∙ rw e h)
  ]

  IsAccounted-cancel :
      (uri : Uri) (r : RunRegistry Uri) (run : ℕ × Uri)
      → IsAccounted r run
      → IsAccounted (cancel uri r) run
  unfolding cancel
  IsAccounted-cancel uri r (handle, u) (inl h) = inl (is_aborted-abort _ _ handle h)
  IsAccounted-cancel uri r (handle, u) (inr h) = elim (Bool-cases (key.beq uri u)) [
    | inl e ↦ inl (abort_held _ _ handle (held uri u r handle e h))
    | inr e ↦ inr (lookup-remove uri u r.runs ∙ rw e h)
  ]

  All-map :
      (P Q : ℕ × Uri → Type 0) (l : List (ℕ × Uri))
      → ((run : ℕ × Uri) → P run → Q run)
      → All P l
      → All Q l
  All-map P Q [] f h = tt
  All-map P Q (run ∷ l) f (h, hs) = (f run h, All-map P Q l f hs)

  reachable-IsAccounted : {r : RunRegistry Uri} → Reachable r → All (IsAccounted r) r.spawned
  unfolding start cancel
  reachable-IsAccounted created = tt
  reachable-IsAccounted (started {r} uri h) = (
    inr (lookup-insert uri uri r.next r.runs ∙ rw (beq_self uri) refl),
    All-map _ _ r.spawned (IsAccounted-start uri r) (reachable-IsAccounted h),
  )
  reachable-IsAccounted (cancelled {r} uri h) =
      All-map _ _ r.spawned (IsAccounted-cancel uri r) (reachable-IsAccounted h)

  -- A run of the file whose runs are cancelled is aborted.
  abbrev pub IsStopped : Uri → RunRegistry Uri → ℕ × Uri → Type 0
  IsStopped uri r run = key.beq uri run.1 ≡ true → is_aborted (cancel uri r) run.0 ≡ true

  IsStopped-cancel :
      (uri : Uri) (r : RunRegistry Uri) (run : ℕ × Uri) → IsAccounted r run → IsStopped uri r run
  unfolding cancel
  IsStopped-cancel uri r (handle, u) (inl h) = λ e. is_aborted-abort _ _ handle h
  IsStopped-cancel uri r (handle, u) (inr h) = λ e. abort_held _ _ handle (held uri u r handle e h)

  -- In every state that `start` and `cancel` reach from an empty registry, every run that was
  -- started was aborted or is the one that the registry holds for its file, and after `cancel` of
  -- a file every run of it was aborted.
  pub cancel-IsStopped :
      {r : RunRegistry Uri} (uri : Uri)
      → Reachable r
      → All (IsAccounted r) r.spawned × All (IsStopped uri r) r.spawned
  cancel-IsStopped {r} uri h = (
    reachable-IsAccounted h,
    All-map _ _ r.spawned (IsStopped-cancel uri r) (reachable-IsAccounted h),
  )
