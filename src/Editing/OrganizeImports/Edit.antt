-- ===== src/Editing/OrganizeImports/Edit.antt =====
-- src/editing/organize_imports.rs: which statements of the block the groups of the edit hold.
pub mod Written
pub mod Action
use php_lsp.Prelude.{
  Option, none, some, Bool, true, false, List, [], ◌∷◌, ◌≡◌, refl, sym, subst, All, arith, inl, inr,
}
use mathlib.Core.Option.{some-injective}
use php_lsp.Prelude.Chars.{Text}
use php_lsp.Editing.OrganizeImports.Statement.{
  UseKind, UseStatement, class, function, const, is_used,
}
use php_lsp.Editing.OrganizeImports.Group.{Groups, group_used, push, push_used, sort_and_dedup}
use php_lsp.Editing.OrganizeImports.Group.Imports.{
  IsSameImport, Has, All-map, All-itself, All-sort_and_dedup, Has-sort_and_dedup,
}
use php_lsp.Editing.OrganizeImports.{organized}

abbrev pub of_kind : UseKind → Groups → List UseStatement
of_kind class g = g.class_uses
of_kind function g = g.fn_uses
of_kind const g = g.const_uses

-- The statement is one of a list, and is used in the body.
abbrev pub IsKept : Text → List UseStatement → UseKind → UseStatement → Type 0
IsKept body statements kind v =
    Has (λ u. u ≡ v) statements × ((v.kind ≡ kind) × (is_used v body ≡ some true))

All-push :
    (P : UseKind → UseStatement → Type 0) (j kind : UseKind) (u : UseStatement) (g : Groups)
    → P j u
    → All (P kind) (of_kind kind g)
    → All (P kind) (of_kind kind (push j u g))
All-push P class class u g h hs = (h, hs)
All-push P class function u g h hs = hs
All-push P class const u g h hs = hs
All-push P function class u g h hs = hs
All-push P function function u g h hs = (h, hs)
All-push P function const u g h hs = hs
All-push P const class u g h hs = hs
All-push P const function u g h hs = hs
All-push P const const u g h hs = (h, hs)

Has-push :
    (P : UseStatement → Type 0) (j kind : UseKind) (u : UseStatement) (g : Groups)
    → Has P (of_kind kind g)
    → Has P (of_kind kind (push j u g))
Has-push P class class u g h = inr h
Has-push P class function u g h = h
Has-push P class const u g h = h
Has-push P function class u g h = h
Has-push P function function u g h = inr h
Has-push P function const u g h = h
Has-push P const class u g h = h
Has-push P const function u g h = h
Has-push P const const u g h = inr h

Has-pushed :
    (P : UseStatement → Type 0) (kind : UseKind) (u : UseStatement) (g : Groups)
    → P u
    → Has P (of_kind kind (push kind u g))
Has-pushed P class u g h = inl h
Has-pushed P function u g h = inl h
Has-pushed P const u g h = inl h

All-nothing :
    (P : UseStatement → Type 0) (kind : UseKind)
    → All P (of_kind kind (record { class_uses = []; fn_uses = []; const_uses = [] }))
All-nothing P class = tt
All-nothing P function = tt
All-nothing P const = tt

module _ (body : Text) (P : UseStatement → Type 0) where
  -- Kept, with a property that the statements of the block have.
  Kept : UseKind → UseStatement → Type 0
  Kept kind v = P v × ((v.kind ≡ kind) × (is_used v body ≡ some true))

  All-pushed :
      (u : UseStatement) (o : Option Bool) (rest : Option Groups) (g : Groups) (kind : UseKind)
      → is_used u body ≡ o
      → P u
      → ((g' : Groups) → rest ≡ some g' → All (Kept kind) (of_kind kind g'))
      → push_used o u rest ≡ some g
      → All (Kept kind) (of_kind kind g)
  unfolding Kept
  All-pushed u none rest g kind e p ih h = absurd (ground arith)
  All-pushed u (some used) none g kind e p ih h = absurd (ground arith)
  All-pushed u (some false) (some g') g kind e p ih h = ih g h
  All-pushed u (some true) (some g') g kind e p ih h =
      subst (λ x. All (Kept kind) (of_kind kind x)) (some-injective _ _ h)
        (All-push Kept u.kind kind u g' (p, (refl, e)) (ih g' refl))

  All-group_used :
      (l : List UseStatement) (g : Groups) (kind : UseKind)
      → All P l
      → group_used body l ≡ some g
      → All (Kept kind) (of_kind kind g)
  unfolding group_used Kept
  All-group_used [] g kind hs h =
      subst (λ x. All (Kept kind) (of_kind kind x)) (some-injective _ _ h)
        (All-nothing (Kept kind) kind)
  All-group_used (u ∷ l) g kind (p, hs) h =
      All-pushed u (is_used u body) (group_used body l) g kind refl p
        (λ g' e. All-group_used l g' kind hs e) h

-- The groups hold the statement, if it is used.
IsGrouped : Text → Groups → UseStatement → Type 0
IsGrouped body g u = is_used u body ≡ some true → Has (λ v. v ≡ u) (of_kind u.kind g)

IsGrouped-pushed :
    (body : Text) (u : UseStatement) (l : List UseStatement) (o : Option Bool)
    (rest : Option Groups) (g : Groups)
    → is_used u body ≡ o
    → ((g' : Groups) → rest ≡ some g' → All (IsGrouped body g') l)
    → push_used o u rest ≡ some g
    → All (IsGrouped body g) (u ∷ l)
unfolding IsGrouped
IsGrouped-pushed body u l none rest g e ih h = absurd (ground arith)
IsGrouped-pushed body u l (some used) none g e ih h = absurd (ground arith)
IsGrouped-pushed body u l (some false) (some g') g e ih h =
    ((λ used. absurd (cc (e, used))), ih g h)
IsGrouped-pushed body u l (some true) (some g') g e ih h =
    subst (λ x. All (IsGrouped body x) (u ∷ l)) (some-injective _ _ h)
      (
        (λ used. Has-pushed (λ v. v ≡ u) u.kind u g' refl),
        All-map _ _ l (λ w at used. Has-push (λ v. v ≡ w) u.kind w.kind u g' (at used))
            (ih g' refl),
      )

All-IsGrouped :
    (body : Text) (l : List UseStatement) (g : Groups)
    → group_used body l ≡ some g
    → All (IsGrouped body g) l
unfolding group_used
All-IsGrouped body [] g h = tt
All-IsGrouped body (u ∷ l) g h =
    IsGrouped-pushed body u l (is_used u body) (group_used body l) g refl
      (λ g' e. All-IsGrouped body l g' e) h

of_kind-organized :
    (lower : Text → Text) (kind : UseKind) (g : Groups)
    → of_kind kind (organized lower g) ≡ sort_and_dedup lower (of_kind kind g)
unfolding organized
of_kind-organized lower class g = refl
of_kind-organized lower function g = refl
of_kind-organized lower const g = refl

-- A used statement of the block has its import in the group of its kind.
abbrev pub IsImported : Text → Groups → UseStatement → Type 0
IsImported body g u = is_used u body ≡ some true → Has (IsSameImport u) (of_kind u.kind g)

module _ (lower : Text → Text) (body : Text) (statements : List UseStatement) (g : Groups)
    (grouped : group_used body statements ≡ some g) where
  pub All-IsKept :
      (kind : UseKind) → All (IsKept body statements kind) (of_kind kind (organized lower g))
  unfolding Kept
  All-IsKept kind =
      subst (All (IsKept body statements kind)) (sym (of_kind-organized lower kind g)) (
        All-sort_and_dedup _ lower (of_kind kind g) (
          All-group_used body (λ v. Has (λ u. u ≡ v) statements) statements g kind
            (All-itself statements) grouped))

  pub All-IsImported : All (IsImported body (organized lower g)) statements
  unfolding IsGrouped
  All-IsImported =
      All-map _ _ statements
        (λ u at used.
          subst (Has (IsSameImport u)) (sym (of_kind-organized lower u.kind g))
            (Has-sort_and_dedup lower (of_kind u.kind g) u (at used)))
        (All-IsGrouped body statements g grouped)
