-- ===== src/Editing/OrganizeImports/Group/Keeps.antt =====
-- src/editing/organize_imports.rs: `sort_and_dedup` sorts, and keeps what the imports bind.
use php_lsp.Prelude.{
  Option, none, some, Bool, true, false, ◌||◌, List, [], ◌∷◌, ◌≡◌, ap, refl, any, arith, Bool-cases,
  inl, inr,
}
use php_lsp.Prelude.Chars.{Text}
use php_lsp.Prelude.Strs.{text_ltb, text_eq_iff, eq_ignore_ascii_case}
use php_lsp.Editing.OrganizeImports.Statement.{UseStatement}
use php_lsp.Editing.OrganizeImports.Group.{
  alias_eq, same_binding, dedup_from, dedup, insert_use, sort_uses,
}

ltb_asym : (s t : Text) → text_ltb s t ≡ true → text_ltb t s ≡ false
ltb_asym [] [] h = ground arith
ltb_asym [] (d ∷ t) h = refl
ltb_asym (c ∷ s) [] h = ground arith
ltb_asym (c ∷ s) (d ∷ t) h = ground (arith, ltb_asym s t)

not_ltb_trans : (r s t : Text) → text_ltb s r ≡ false → text_ltb t s ≡ false → text_ltb t r ≡ false
not_ltb_trans [] s [] h k = refl
not_ltb_trans [] s (e ∷ t) h k = refl
not_ltb_trans (c ∷ r) [] t h k = ground arith
not_ltb_trans (c ∷ r) (d ∷ s) [] h k = ground arith
not_ltb_trans (c ∷ r) (d ∷ s) (e ∷ t) h k = ground (arith, not_ltb_trans r s t)

-- Texts that differ in ASCII case only stand in for each other.
eq_ignore_ascii_case_cong :
    (u s t : Text)
    → eq_ignore_ascii_case s t ≡ true
    → eq_ignore_ascii_case u s ≡ eq_ignore_ascii_case u t
unfolding eq_ignore_ascii_case
eq_ignore_ascii_case_cong u [] [] h = refl
eq_ignore_ascii_case_cong u [] (d ∷ t) h = ground arith
eq_ignore_ascii_case_cong u (c ∷ s) [] h = ground arith
eq_ignore_ascii_case_cong [] (c ∷ s) (d ∷ t) h = refl
eq_ignore_ascii_case_cong (e ∷ u) (c ∷ s) (d ∷ t) h =
    ground (arith, eq_ignore_ascii_case_cong u s t)

alias_eq_cong : (o a b : Option Text) → alias_eq a b ≡ true → alias_eq o a ≡ alias_eq o b
alias_eq_cong o none none h = refl
alias_eq_cong o none (some b) h = ground arith
alias_eq_cong o (some a) none h = ground arith
alias_eq_cong o (some a) (some b) h = ap (λ t. alias_eq o (some t)) ((text_eq_iff a b).0 h)

pub same_binding_cong :
    (u a b : UseStatement) → same_binding a b ≡ true → same_binding u a ≡ same_binding u b
unfolding same_binding
same_binding_cong u a b h =
    ground
      (arith, eq_ignore_ascii_case_cong u.fqn a.fqn b.fqn, alias_eq_cong u.alias a.alias b.alias)

any-dedup_from :
    (u kept : UseStatement) (l : List UseStatement)
    → (same_binding u kept || any (same_binding u) (dedup_from kept l))
      ≡ (same_binding u kept || any (same_binding u) l)
unfolding dedup_from
any-dedup_from u kept [] = refl
any-dedup_from u kept (a ∷ l) = elim (Bool-cases (same_binding a kept)) [
  | inl again ↦
      rw (dedup_from, again) ground
        (arith, any-dedup_from u kept l, same_binding_cong u a kept again)
  | inr new ↦ rw (dedup_from, new) ground (arith, any-dedup_from u a l)
]

pub any-dedup :
    (u : UseStatement) (l : List UseStatement)
    → any (same_binding u) (dedup l) ≡ any (same_binding u) l
unfolding dedup
any-dedup u [] = refl
any-dedup u (a ∷ l) = any-dedup_from u a l

module _ (lower : Text → Text) where
  -- No key of the list is below the key before it, the first not below the one of a statement.
  abbrev pub SortedFrom : UseStatement → List UseStatement → Type 0
  SortedFrom u [] = Unit
  SortedFrom u (v ∷ l) = (text_ltb (lower v.fqn) (lower u.fqn) ≡ false) × SortedFrom v l

  abbrev pub Sorted : List UseStatement → Type 0
  Sorted [] = Unit
  Sorted (u ∷ l) = SortedFrom u l

  SortedFrom-insert :
      (a u : UseStatement) (l : List UseStatement)
      → text_ltb (lower u.fqn) (lower a.fqn) ≡ false
      → SortedFrom a l
      → SortedFrom a (insert_use lower u l)
  SortedFrom-insert a u [] h s = (h, tt)
  SortedFrom-insert a u (v ∷ l) h s = elim (Bool-cases (text_ltb (lower v.fqn) (lower u.fqn))) [
    | inl e ↦
        rw (insert_use, e)
          (s.0, SortedFrom-insert v u l (ltb_asym (lower v.fqn) (lower u.fqn) e) s.1)
    | inr e ↦ rw (insert_use, e) (h, (e, s.1))
  ]

  Sorted-insert :
      (u : UseStatement) (l : List UseStatement) → Sorted l → Sorted (insert_use lower u l)
  Sorted-insert u [] s = tt
  Sorted-insert u (v ∷ l) s = elim (Bool-cases (text_ltb (lower v.fqn) (lower u.fqn))) [
    | inl e ↦
        rw (insert_use, e) (SortedFrom-insert v u l (ltb_asym (lower v.fqn) (lower u.fqn) e) s)
    | inr e ↦ rw (insert_use, e) (e, s)
  ]

  pub Sorted-sort : (l : List UseStatement) → Sorted (sort_uses lower l)
  Sorted-sort [] = tt
  Sorted-sort (u ∷ l) = Sorted-insert u (sort_uses lower l) (Sorted-sort l)

  SortedFrom-earlier :
      (a b : UseStatement) (l : List UseStatement)
      → text_ltb (lower b.fqn) (lower a.fqn) ≡ false
      → SortedFrom b l
      → SortedFrom a l
  SortedFrom-earlier a b [] h s = tt
  SortedFrom-earlier a b (v ∷ l) h s =
      (not_ltb_trans (lower a.fqn) (lower b.fqn) (lower v.fqn) h s.0, s.1)

  SortedFrom-dedup :
      (kept : UseStatement) (l : List UseStatement)
      → SortedFrom kept l
      → SortedFrom kept (dedup_from kept l)
  unfolding dedup_from
  SortedFrom-dedup kept [] s = tt
  SortedFrom-dedup kept (a ∷ l) s = elim (Bool-cases (same_binding a kept)) [
    | inl again ↦
        rw (dedup_from, again) (SortedFrom-dedup kept l (SortedFrom-earlier kept a l s.0 s.1))
    | inr new ↦ rw (dedup_from, new) (s.0, SortedFrom-dedup a l s.1)
  ]

  pub Sorted-dedup : (l : List UseStatement) → Sorted l → Sorted (dedup l)
  unfolding dedup
  Sorted-dedup [] s = tt
  Sorted-dedup (a ∷ l) s = SortedFrom-dedup a l s

  any-insert :
      (p : UseStatement → Bool) (u : UseStatement) (l : List UseStatement)
      → any p (insert_use lower u l) ≡ (p u || any p l)
  any-insert p u [] = refl
  any-insert p u (v ∷ l) = elim (Bool-cases (text_ltb (lower v.fqn) (lower u.fqn))) [
    | inl e ↦ rw (insert_use, e) ground (arith, any-insert p u l)
    | inr e ↦ rw (insert_use, e) refl
  ]

  pub any-sort :
      (p : UseStatement → Bool) (l : List UseStatement) → any p (sort_uses lower l) ≡ any p l
  any-sort p [] = refl
  any-sort p (u ∷ l) = ground (arith, any-insert p u (sort_uses lower l), any-sort p l)
