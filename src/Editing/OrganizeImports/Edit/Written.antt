-- ===== src/Editing/OrganizeImports/Edit/Written.antt =====
-- src/editing/organize_imports.rs: the text of the edit, as lines of PHP.
use php_lsp.Prelude.{
  Option, none, some, true, List, [], ◌∷◌, ◌++◌, ◌≡◌, refl, sym, ap, subst, ◌∙◌, map, append_assoc,
  All,
}
use php_lsp.Prelude.Chars.{Text, codes}
use php_lsp.Editing.OrganizeImports.Statement.{
  UseKind, UseStatement, class, function, const, is_used,
}
use php_lsp.Editing.OrganizeImports.Group.{Groups, render_statement, render_group}
use php_lsp.Editing.OrganizeImports.Group.Imports.{IsSameImport, Has}
use php_lsp.Editing.OrganizeImports.{join_groups, push_group, render_groups}

-- The syntax of a `use` statement of one name, on a line of its own.
abbrev pub keyword : UseKind → Text
keyword class = []
keyword function = codes "function "
keyword const = codes "const "

abbrev pub as_alias : Option Text → Text
as_alias none = []
as_alias (some alias) = codes " as " ++ alias

abbrev pub use_line : Text → UseStatement → Text
use_line indent u =
    indent ++ (codes "use " ++ (keyword u.kind ++ (u.fqn ++ (as_alias u.alias ++ codes ";\n"))))

-- Lines of imports, and blank lines.
abbrev pub print : Text → List (Option UseStatement) → Text
print indent [] = []
print indent (none ∷ l) = 10 ∷ print indent l
print indent (some u ∷ l) = use_line indent u ++ print indent l

abbrev pub Import : (UseStatement → Type 0) → Option UseStatement → Type 0
Import P none = ⊥
Import P (some u) = P u

abbrev pub BlankOr : (UseStatement → Type 0) → Option UseStatement → Type 0
BlankOr P none = Unit
BlankOr P (some u) = P u

-- A text of lines that import nothing but used statements of a list, and every one of them, by its
-- kind, its alias and its name up to the case of ASCII letters.
pub record IsWritten (statements : List UseStatement) (body indent text : Text) : Type 0 where
  pub lines : List (Option UseStatement)
  pub printed : text ≡ print indent lines
  pub kept : All (BlankOr (λ v. Has (λ u. u ≡ v) statements × (is_used v body ≡ some true))) lines
  pub complete :
      All
        (λ u.
          is_used u body ≡ some true
          → Has (Import (λ v. IsSameImport u v × (v.kind ≡ u.kind))) lines)
        statements

rendered :
    (indent fqn short : Text) (kind : UseKind) (alias : Option Text)
    → render_statement indent
        (keyword kind)
        (record { fqn = fqn; alias = alias; short = short; kind = kind })
      ≡ use_line indent (record { fqn = fqn; alias = alias; short = short; kind = kind })
unfolding render_statement
rendered indent fqn short kind none = refl
rendered indent fqn short kind (some alias) = refl

render_statement-use_line :
    (indent : Text) (kind : UseKind) (u : UseStatement)
    → u.kind ≡ kind
    → render_statement indent (keyword kind) u ≡ use_line indent u
render_statement-use_line indent kind u e =
    subst (λ k. render_statement indent (keyword k) u ≡ use_line indent u) e
      (rendered indent u.fqn u.short u.kind u.alias)

render_group-print :
    (indent : Text) (kind : UseKind) (l : List UseStatement)
    → All (λ v. v.kind ≡ kind) l
    → render_group indent (keyword kind) l ≡ print indent (map some l)
unfolding render_group
render_group-print indent kind [] h = refl
render_group-print indent kind (u ∷ l) (h, hs) =
    rw (render_statement-use_line indent kind u h, render_group-print indent kind l hs) refl

print-append :
    (indent : Text) (a b : List (Option UseStatement))
    → print indent (a ++ b) ≡ print indent a ++ print indent b
print-append indent [] b = refl
print-append indent (none ∷ a) b = ap (λ s. 10 ∷ s) (print-append indent a b)
print-append indent (some u ∷ a) b =
    ap (λ s. use_line indent u ++ s) (print-append indent a b)
    ∙ sym (append_assoc (use_line indent u) (print indent a) (print indent b))

-- The groups that are not empty, and a blank line between two of them.
unfoldable pub sections :
    List UseStatement → List (List (Option UseStatement)) → List (List (Option UseStatement))
sections [] parts = parts
sections (u ∷ l) parts = map some (u ∷ l) ∷ parts

unfoldable pub joined : List (List (Option UseStatement)) → List (Option UseStatement)
joined [] = []
joined (part ∷ []) = part
joined (part ∷ next ∷ parts) = part ++ (none ∷ joined (next ∷ parts))

unfoldable pub section_lines : Groups → List (Option UseStatement)
section_lines g = joined (sections g.class_uses (sections g.fn_uses (sections g.const_uses [])))

print-joined :
    (indent : Text) (parts : List (List (Option UseStatement)))
    → print indent (joined parts) ≡ join_groups (map (print indent) parts)
unfolding joined
print-joined indent [] = refl
print-joined indent (part ∷ []) = refl
print-joined indent (part ∷ next ∷ parts) =
    print-append indent part (none ∷ joined (next ∷ parts))
    ∙ ap (λ s. print indent part ++ (10 ∷ s)) (print-joined indent (next ∷ parts))

print-sections :
    (indent : Text) (kind : UseKind) (l : List UseStatement)
    (parts : List (List (Option UseStatement)))
    → All (λ v. v.kind ≡ kind) l
    → push_group indent (keyword kind) l (map (print indent) parts)
      ≡ map (print indent) (sections l parts)
unfolding sections
print-sections indent kind [] parts h = refl
print-sections indent kind (u ∷ l) parts h =
    ap (λ s. s ∷ map (print indent) parts) (render_group-print indent kind (u ∷ l) h)

pub render_groups-section_lines :
    (indent : Text) (g : Groups)
    → All (λ v. v.kind ≡ class) g.class_uses
    → All (λ v. v.kind ≡ function) g.fn_uses
    → All (λ v. v.kind ≡ const) g.const_uses
    → render_groups indent g ≡ print indent (section_lines g)
unfolding render_groups section_lines
render_groups-section_lines indent g c f k =
    ap join_groups (
      ap
        (λ parts.
          push_group indent [] g.class_uses (push_group indent (codes "function ") g.fn_uses parts))
        (print-sections indent const g.const_uses [] k)
      ∙ ap (push_group indent [] g.class_uses)
          (print-sections indent function g.fn_uses (sections g.const_uses []) f)
      ∙ print-sections indent class g.class_uses (sections g.fn_uses (sections g.const_uses [])) c)
    ∙ sym (
        print-joined indent (sections g.class_uses (sections g.fn_uses (sections g.const_uses []))))
