-- ===== src/Editing/OrganizeImports/Edit/Action.antt =====
-- src/editing/organize_imports.rs: the whole action, from the file to the text of its edit.
use php_lsp.Prelude.{
  Option, none, some, true, ◌&&◌, List, [], ◌∷◌, ◌++◌, ◌≡◌, refl, sym, subst, map, All, arith, inl,
  inr, Bool-cases, Option-cases,
}
use php_lsp.Prelude.Chars.{Text, slice_from}
use php_lsp.Prelude.Strs.{text_eq}
use php_lsp.Editing.OrganizeImports.Statement.{UseKind, UseStatement, class, function, const}
use php_lsp.Editing.OrganizeImports.Group.{Groups, group_used, dedup, sort_and_dedup}
use php_lsp.Editing.OrganizeImports.Group.Imports.{Has, All-map}
use php_lsp.Editing.OrganizeImports.Block.{UseBlock, find_use_block}
use php_lsp.Editing.OrganizeImports.{
  TextEdit, is_nil, render_groups, organized, edit_for, edit_block, current_text,
  organize_imports_action,
}
use php_lsp.Editing.OrganizeImports.Edit.{of_kind, IsKept, All-IsKept, All-IsImported}
use php_lsp.Editing.OrganizeImports.Edit.Written.{
  Import, BlankOr, IsWritten, sections, joined, section_lines, render_groups-section_lines,
}

All-append :
    (P : Option UseStatement → Type 0) (a b : List (Option UseStatement))
    → All P a
    → All P b
    → All P (a ++ b)
All-append P [] b h k = k
All-append P (x ∷ a) b (h, hs) k = (h, All-append P a b hs k)

Has-left :
    (P : Option UseStatement → Type 0) (a b : List (Option UseStatement)) → Has P a → Has P (a ++ b)
Has-left P [] b h = absurd h
Has-left P (x ∷ a) b (inl h) = inl h
Has-left P (x ∷ a) b (inr h) = inr (Has-left P a b h)

Has-right :
    (P : Option UseStatement → Type 0) (a b : List (Option UseStatement)) → Has P b → Has P (a ++ b)
Has-right P [] b h = h
Has-right P (x ∷ a) b h = inr (Has-right P a b h)

module _ (Q : UseStatement → Type 0) where
  All-lines : (l : List UseStatement) → All Q l → All (BlankOr Q) (map some l)
  All-lines [] h = tt
  All-lines (u ∷ l) (h, hs) = (h, All-lines l hs)

  All-sections :
      (l : List UseStatement) (parts : List (List (Option UseStatement)))
      → All Q l
      → All (All (BlankOr Q)) parts
      → All (All (BlankOr Q)) (sections l parts)
  unfolding sections
  All-sections [] parts h k = k
  All-sections (u ∷ l) parts h k = (All-lines (u ∷ l) h, k)

  All-joined :
      (parts : List (List (Option UseStatement)))
      → All (All (BlankOr Q)) parts
      → All (BlankOr Q) (joined parts)
  unfolding joined
  All-joined [] h = tt
  All-joined (part ∷ []) (h, hs) = h
  All-joined (part ∷ next ∷ parts) (h, hs) =
      All-append (BlankOr Q) part (none ∷ joined (next ∷ parts)) h
        (tt, All-joined (next ∷ parts) hs)

  All-section_lines :
      (g : Groups) → ((kind : UseKind) → All Q (of_kind kind g)) → All (BlankOr Q) (section_lines g)
  unfolding section_lines
  All-section_lines g h =
      All-joined (sections g.class_uses (sections g.fn_uses (sections g.const_uses []))) (
        All-sections g.class_uses (sections g.fn_uses (sections g.const_uses [])) (h class) (
          All-sections g.fn_uses (sections g.const_uses []) (h function)
            (All-sections g.const_uses [] (h const) tt)))

  Has-lines : (l : List UseStatement) → Has Q l → Has (Import Q) (map some l)
  Has-lines [] h = absurd h
  Has-lines (u ∷ l) (inl h) = inl h
  Has-lines (u ∷ l) (inr h) = inr (Has-lines l h)

  Has-own_section :
      (l : List UseStatement) (parts : List (List (Option UseStatement)))
      → Has Q l
      → Has (Has (Import Q)) (sections l parts)
  unfolding sections
  Has-own_section [] parts h = absurd h
  Has-own_section (u ∷ l) parts h = inl (Has-lines (u ∷ l) h)

  Has-section :
      (l : List UseStatement) (parts : List (List (Option UseStatement)))
      → Has (Has (Import Q)) parts
      → Has (Has (Import Q)) (sections l parts)
  unfolding sections
  Has-section [] parts h = h
  Has-section (u ∷ l) parts h = inr h

  Has-joined :
      (parts : List (List (Option UseStatement)))
      → Has (Has (Import Q)) parts
      → Has (Import Q) (joined parts)
  unfolding joined
  Has-joined [] h = absurd h
  Has-joined (part ∷ []) (inl h) = h
  Has-joined (part ∷ []) (inr h) = absurd h
  Has-joined (part ∷ next ∷ parts) (inl h) = Has-left (Import Q) part _ h
  Has-joined (part ∷ next ∷ parts) (inr h) =
      Has-right (Import Q) part (none ∷ joined (next ∷ parts)) (inr (Has-joined (next ∷ parts) h))

  Has-section_lines :
      (g : Groups) (kind : UseKind) → Has Q (of_kind kind g) → Has (Import Q) (section_lines g)
  unfolding section_lines
  Has-section_lines g class h = Has-joined _ (Has-own_section g.class_uses _ h)
  Has-section_lines g function h =
      Has-joined _ (Has-section g.class_uses _ (Has-own_section g.fn_uses _ h))
  Has-section_lines g const h =
      Has-joined _
        (Has-section g.class_uses _ (Has-section g.fn_uses _ (Has-own_section g.const_uses [] h)))

Has-All :
    (P Q : UseStatement → Type 0) (l : List UseStatement)
    → All Q l
    → Has P l
    → Has (λ v. P v × Q v) l
Has-All P Q [] h m = absurd m
Has-All P Q (u ∷ l) (h, hs) (inl m) = inl (m, h)
Has-All P Q (u ∷ l) (h, hs) (inr m) = inr (Has-All P Q l hs m)

render_groups-IsWritten :
    (lower : Text → Text) (statements : List UseStatement) (body indent : Text) (g : Groups)
    → group_used body statements ≡ some g
    → IsWritten statements body indent (render_groups indent (organized lower g))
render_groups-IsWritten lower statements body indent g grouped = record {
  lines = section_lines (organized lower g);
  printed =
      render_groups-section_lines indent (organized lower g) (of class) (of function) (of const);
  kept = All-section_lines _ (organized lower g) (λ kind.
      All-map _ _ (of_kind kind (organized lower g)) (λ v (m, (k, used)). (m, used)) (sound kind));
  complete =
      All-map _ _ statements
        (λ u imported used.
          Has-section_lines _ (organized lower g) u.kind
            (Has-All _ _ (of_kind u.kind (organized lower g)) (of u.kind) (imported used)))
        (All-IsImported lower body statements g grouped);
}
  where
    sound : (kind : UseKind) → All (IsKept body statements kind) (of_kind kind (organized lower g))
    sound = All-IsKept lower body statements g grouped

    of : (kind : UseKind) → All (λ v. v.kind ≡ kind) (of_kind kind (organized lower g))
    of kind = All-map _ _ (of_kind kind (organized lower g)) (λ v (m, (k, used)). k) (sound kind)

nothing_left :
    (lower : Text → Text) (indent : Text) (a b c : List UseStatement)
    → is_nil a && is_nil b && is_nil c ≡ true
    → render_groups indent
        (organized lower (record { class_uses = a; fn_uses = b; const_uses = c }))
      ≡ []
unfolding render_groups organized sort_and_dedup dedup
nothing_left lower indent [] [] [] h = refl
nothing_left lower indent (x ∷ a) b c h = absurd (ground arith)
nothing_left lower indent [] (x ∷ b) c h = absurd (ground arith)
nothing_left lower indent [] [] (x ∷ c) h = absurd (ground arith)

-- What the edit is, where there is one.
abbrev HasEdit : (TextEdit → Type 0) → Option (Option TextEdit) → Type 0
HasEdit P none = Unit
HasEdit P (some none) = Unit
HasEdit P (some (some edit)) = P edit

abbrev IsEdit : UseBlock → Text → TextEdit → Type 0
IsEdit block text edit = (edit.range ≡ block.range) × (edit.new_text ≡ text)

edit_for-text :
    (lower : Text → Text) (source : Text) (block : UseBlock) (g : Groups)
    → HasEdit
        (IsEdit block (render_groups block.indent (organized lower g)))
        (edit_for lower source block g)
unfolding edit_for
edit_for-text lower source block g =
    elim (Bool-cases (is_nil g.class_uses && is_nil g.fn_uses && is_nil g.const_uses)) [
      | inl empty ↦
          rw (edit_for, empty)
            (refl, sym (nothing_left lower block.indent g.class_uses g.fn_uses g.const_uses empty))
      | inr full ↦ elim (Option-cases (current_text source block.range)) [
        | inl panic ↦ rw (edit_for, full, panic) tt
        | inr (current, found) ↦
            elim (Bool-cases (text_eq current (render_groups block.indent (organized lower g)))) [
              | inl same ↦ rw (edit_for, full, found, same) tt
              | inr changed ↦ rw (edit_for, full, found, changed) (refl, refl)
            ]
      ]
    ]

-- What the edit of an action is to be.
abbrev pub IsOrganized : UseBlock → Text → TextEdit → Type 0
IsOrganized block body edit =
    (edit.range ≡ block.range) × IsWritten block.statements body block.indent edit.new_text

edit_for-IsOrganized :
    (lower : Text → Text) (source : Text) (block : UseBlock) (body : Text) (g : Groups)
    (r : Option (Option TextEdit))
    → group_used body block.statements ≡ some g
    → HasEdit (IsEdit block (render_groups block.indent (organized lower g))) r
    → HasEdit (IsOrganized block body) r
edit_for-IsOrganized lower source block body g none grouped h = tt
edit_for-IsOrganized lower source block body g (some none) grouped h = tt
edit_for-IsOrganized lower source block body g (some (some edit)) grouped (r, t) = (
  r,
  subst (IsWritten block.statements body block.indent) (sym t)
      (render_groups-IsWritten lower block.statements body block.indent g grouped),
)

edit_block-IsOrganized :
    (lower : Text → Text) (source : Text) (block : UseBlock) (body : Text)
    → slice_from source block.body_start_byte ≡ some body
    → HasEdit (IsOrganized block body) (edit_block lower source block)
unfolding edit_block
edit_block-IsOrganized lower source block body sliced =
    elim (Bool-cases (is_nil block.statements)) [
      | inl empty ↦ rw (edit_block, empty) tt
      | inr full ↦ elim (Option-cases (group_used body block.statements)) [
        | inl panic ↦ rw (edit_block, full, sliced, panic) tt
        | inr (g, grouped) ↦
            rw (edit_block, full, sliced, grouped)
              (edit_for-IsOrganized lower source block body g (edit_for lower source block g)
                grouped (edit_for-text lower source block g))
      ]
    ]

-- Where `find_use_block` gives a block, the body is the text behind it and the action gives an
-- edit, the edit replaces the range of the block, and its text is made of blank lines and of lines
-- `use …;` with the indent of the block, each of which writes the kind, the name and the alias of
-- a statement of the block that is used in the body; every statement of the block that is used in
-- the body has such a line with its kind, its alias and its name up to the case of ASCII letters.
pub organize_imports_action-IsOrganized :
    (lower : Text → Text) (source : Text) (block : UseBlock) (body : Text) (edit : TextEdit)
    → find_use_block source ≡ some (some block)
    → slice_from source block.body_start_byte ≡ some body
    → organize_imports_action lower source ≡ some (some edit)
    → IsOrganized block body edit
unfolding organize_imports_action
organize_imports_action-IsOrganized lower source block body edit here sliced acts =
    subst (HasEdit (IsOrganized block body)) acts
      (rw (organize_imports_action, here) (edit_block-IsOrganized lower source block body sliced))
