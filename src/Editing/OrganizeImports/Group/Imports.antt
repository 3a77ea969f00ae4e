-- ===== src/Editing/OrganizeImports/Group/Imports.antt =====
-- src/editing/organize_imports.rs: which imports `sort_and_dedup` leaves.
use php_lsp.Prelude.{
  sym, subst, Option, none, some, true, List, [], ◌∷◌, ◌≡◌, ◌∙◌, ap, refl, any, arith, Bool-cases,
  inl, inr, ◌⊎◌, ◌↔◌, All,
}
use mathlib.Core.Option.{some-injective}
use php_lsp.Prelude.Chars.{Text}
use php_lsp.Prelude.Strs.{text_ltb, text_eq_iff, eq_ignore_ascii_case}
use php_lsp.Editing.OrganizeImports.Statement.{UseStatement}
use php_lsp.Editing.OrganizeImports.Group.{
  alias_eq, same_binding, dedup_from, dedup, insert_use, sort_uses, sort_and_dedup,
}
use php_lsp.Editing.OrganizeImports.Group.Keeps.{
  any-dedup, any-sort, Sorted, Sorted-dedup, Sorted-sort,
}

-- The same name, up to the case of ASCII letters, and the same alias.
abbrev pub IsSameImport : UseStatement → UseStatement → Type 0
IsSameImport u v = (eq_ignore_ascii_case u.fqn v.fqn ≡ true) × (u.alias ≡ v.alias)

alias_eq_iff : (a b : Option Text) → (alias_eq a b ≡ true) ↔ (a ≡ b)
alias_eq_iff none none = (λ h. refl, λ h. refl)
alias_eq_iff none (some b) = (λ h. absurd (ground arith), λ h. absurd (cc h))
alias_eq_iff (some a) none = (λ h. absurd (ground arith), λ h. absurd (cc h))
alias_eq_iff (some a) (some b) =
    (λ h. ap some ((text_eq_iff a b).0 h), λ h. (text_eq_iff a b).1 (some-injective _ _ h))

pub same_binding-IsSameImport : (u v : UseStatement) → (same_binding u v ≡ true) ↔ IsSameImport u v
unfolding same_binding
same_binding-IsSameImport u v = (
  (λ h. (ground arith, (alias_eq_iff u.alias v.alias).0 (ground arith))),
  λ (h, k). rw (h, (alias_eq_iff u.alias v.alias).1 k) refl,
)

eq_ignore_ascii_case_refl : (s : Text) → eq_ignore_ascii_case s s ≡ true
unfolding eq_ignore_ascii_case
eq_ignore_ascii_case_refl [] = refl
eq_ignore_ascii_case_refl (c ∷ s) = ground (arith, eq_ignore_ascii_case_refl s)

-- Some element of the list has the property.
abbrev pub Has {ℓ} : {A : Type ℓ} → (A → Type 0) → List A → Type 0
Has P [] = ⊥
Has P (x ∷ l) = P x ⊎ Has P l

-- Each statement differs from the one before it in its name or alias.
abbrev pub DistinctFrom : UseStatement → List UseStatement → Type 0
DistinctFrom kept [] = Unit
DistinctFrom kept (u ∷ l) = (¬ IsSameImport u kept) × DistinctFrom u l

abbrev pub Distinct : List UseStatement → Type 0
Distinct [] = Unit
Distinct (u ∷ l) = DistinctFrom u l

DistinctFrom-dedup :
    (kept : UseStatement) (l : List UseStatement) → DistinctFrom kept (dedup_from kept l)
unfolding dedup_from
DistinctFrom-dedup kept [] = tt
DistinctFrom-dedup kept (a ∷ l) = elim (Bool-cases (same_binding a kept)) [
  | inl again ↦ rw (dedup_from, again) (DistinctFrom-dedup kept l)
  | inr new ↦
      rw (dedup_from, new)
        ((λ same. cc (new, (same_binding-IsSameImport a kept).1 same)), DistinctFrom-dedup a l)
]

Distinct-dedup : (l : List UseStatement) → Distinct (dedup l)
unfolding dedup
Distinct-dedup [] = tt
Distinct-dedup (a ∷ l) = DistinctFrom-dedup a l

module _ (P : UseStatement → Type 0) where
  pub All-map :
      (Q : UseStatement → Type 0) (l : List UseStatement)
      → ((u : UseStatement) → P u → Q u)
      → All P l
      → All Q l
  All-map Q [] f h = tt
  All-map Q (u ∷ l) f (h, hs) = (f u h, All-map Q l f hs)

  All-dedup_from :
      (kept : UseStatement) (l : List UseStatement) → All P l → All P (dedup_from kept l)
  unfolding dedup_from
  All-dedup_from kept [] h = tt
  All-dedup_from kept (a ∷ l) (h, hs) = elim (Bool-cases (same_binding a kept)) [
    | inl again ↦ rw (dedup_from, again) (All-dedup_from kept l hs)
    | inr new ↦ rw (dedup_from, new) (h, All-dedup_from a l hs)
  ]

  All-dedup : (l : List UseStatement) → All P l → All P (dedup l)
  unfolding dedup
  All-dedup [] h = tt
  All-dedup (a ∷ l) (h, hs) = (h, All-dedup_from a l hs)

  module _ (lower : Text → Text) where
    All-insert :
        (u : UseStatement) (l : List UseStatement) → P u → All P l → All P (insert_use lower u l)
    All-insert u [] h hs = (h, tt)
    All-insert u (v ∷ l) h hs = elim (Bool-cases (text_ltb (lower v.fqn) (lower u.fqn))) [
      | inl e ↦ rw (insert_use, e) (hs.0, All-insert u l h hs.1)
      | inr e ↦ rw (insert_use, e) (h, hs)
    ]

    All-sort : (l : List UseStatement) → All P l → All P (sort_uses lower l)
    All-sort [] h = tt
    All-sort (u ∷ l) (h, hs) = All-insert u (sort_uses lower l) h (All-sort l hs)

    -- Nothing new comes in.
    pub All-sort_and_dedup : (l : List UseStatement) → All P l → All P (sort_and_dedup lower l)
    unfolding sort_and_dedup
    All-sort_and_dedup l h = All-dedup (sort_uses lower l) (All-sort l h)

  pub All-Has : {R : Type 0} (l : List UseStatement) → All (λ u. P u → R) l → Has P l → R
  All-Has [] h m = absurd m
  All-Has (u ∷ l) (h, hs) (inl m) = h m
  All-Has (u ∷ l) (h, hs) (inr m) = All-Has l hs m

-- Each statement of a list is in it.
pub All-itself : (l : List UseStatement) → All (λ v. Has (λ u. u ≡ v) l) l
All-itself [] = tt
All-itself (u ∷ l) = (inl refl, All-map _ _ l (λ v m. inr m) (All-itself l))

any-Has :
    (u : UseStatement) (l : List UseStatement)
    → any (same_binding u) l ≡ true
    → Has (IsSameImport u) l
any-Has u [] h = absurd (ground arith)
any-Has u (v ∷ l) h = elim (Bool-cases (same_binding u v)) [
  | inl e ↦ inl ((same_binding-IsSameImport u v).0 e)
  | inr e ↦ inr (any-Has u l (ground arith))
]

Has-any :
    (u : UseStatement) (l : List UseStatement) → Has (λ v. v ≡ u) l → any (same_binding u) l ≡ true
Has-any u [] m = absurd m
Has-any u (v ∷ l) (inl e) =
    subst (λ x. any (same_binding u) (x ∷ l) ≡ true) (sym e)
      (rw ((same_binding-IsSameImport u u).1 (eq_ignore_ascii_case_refl u.fqn, refl)) refl)
Has-any u (v ∷ l) (inr m) = ground (arith, Has-any u l m)

-- No import is lost.
pub Has-sort_and_dedup :
    (lower : Text → Text) (group : List UseStatement) (u : UseStatement)
    → Has (λ v. v ≡ u) group
    → Has (IsSameImport u) (sort_and_dedup lower group)
unfolding sort_and_dedup
Has-sort_and_dedup lower group u m = any-Has u (sort_and_dedup lower group) (
    any-dedup u (sort_uses lower group) ∙ any-sort lower (same_binding u) group ∙ Has-any u group m)

-- Whatever `to_lowercase` is, `sort_and_dedup` gives the statements in the order of their keys;
-- none has the name, up to the case of ASCII letters, and the alias of the one before it; each of
-- them is a statement of the group; and each statement of the group has one of them with its name,
-- up to the case of ASCII letters, and its alias.
pub sort_and_dedup-Sorted :
    (lower : Text → Text) (group : List UseStatement)
    → Sorted lower (sort_and_dedup lower group)
      × (Distinct (sort_and_dedup lower group)
          × (All (λ v. Has (λ u. u ≡ v) group) (sort_and_dedup lower group)
              × All (λ u. Has (IsSameImport u) (sort_and_dedup lower group)) group))
unfolding sort_and_dedup
sort_and_dedup-Sorted lower group = (
  Sorted-dedup lower (sort_uses lower group) (Sorted-sort lower group),
  (
    Distinct-dedup (sort_uses lower group),
    (
      All-sort_and_dedup _ lower group (All-itself group),
      All-map _ _ group (Has-sort_and_dedup lower group) (All-itself group),
    ),
  ),
)
