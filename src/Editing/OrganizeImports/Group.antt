-- ===== src/Editing/OrganizeImports/Group.antt =====
-- src/editing/organize_imports.rs: the imports of one kind, sorted, without repeats and printed.
-- `to_lowercase` stands on the Unicode tables of the standard library and is an argument.
pub mod Keeps
pub mod Imports
use php_lsp.Prelude.{
  Option, none, some, Bool, true, false, ◌&&◌, List, [], ◌∷◌, ◌++◌, if◌then◌else◌,
}
use php_lsp.Prelude.Chars.{Text, codes}
use php_lsp.Prelude.Strs.{text_eq, text_ltb, eq_ignore_ascii_case, is_empty}
use php_lsp.Editing.OrganizeImports.Statement.{
  UseKind, UseStatement, class, function, const, is_used,
}

abbrev pub alias_eq : Option Text → Option Text → Bool
alias_eq none none = true
alias_eq none (some b) = false
alias_eq (some a) none = false
alias_eq (some a) (some b) = text_eq a b

unfoldable pub same_binding : UseStatement → UseStatement → Bool
same_binding a b = eq_ignore_ascii_case a.fqn b.fqn && alias_eq a.alias b.alias

-- `dedup_by`: `kept` is the statement that was kept last.
unfoldable pub dedup_from : UseStatement → List UseStatement → List UseStatement
unfolding same_binding
dedup_from kept [] = []
dedup_from kept (u ∷ l) =
    let again = same_binding u kept in
    let rest = dedup_from (if again then kept else u) l in if again then rest else u ∷ rest

unfoldable pub dedup : List UseStatement → List UseStatement
unfolding dedup_from
dedup [] = []
dedup (u ∷ l) = u ∷ dedup_from u l

-- The statements of the block that are used, by their kind; `none` is a panic of `is_used`.
pub record Groups : Type 0 where
  pub class_uses : List UseStatement
  pub fn_uses : List UseStatement
  pub const_uses : List UseStatement

abbrev pub push : UseKind → UseStatement → Groups → Groups
push class u g = record g { class_uses = u ∷ g.class_uses }
push function u g = record g { fn_uses = u ∷ g.fn_uses }
push const u g = record g { const_uses = u ∷ g.const_uses }

abbrev pub push_used : Option Bool → UseStatement → Option Groups → Option Groups
push_used none u g = none
push_used (some used) u none = none
push_used (some used) u (some g) = some (if used then push u.kind u g else g)

unfoldable pub group_used : Text → List UseStatement → Option Groups
unfolding is_used
group_used body [] = some record { class_uses = []; fn_uses = []; const_uses = [] }
group_used body (u ∷ l) = push_used (is_used u body) u (group_used body l)

unfoldable pub render_statement : Text → Text → UseStatement → Text
render_statement indent kw u = elim u.alias [
  | some alias ↦
      indent ++ (codes "use " ++ (kw ++ (u.fqn ++ (codes " as " ++ (alias ++ codes ";\n")))))
  | none ↦ indent ++ (codes "use " ++ (kw ++ (u.fqn ++ codes ";\n")))
]

-- `kw` is the keyword with the space behind it, or empty.
unfoldable pub render_group : Text → Text → List UseStatement → Text
unfolding render_statement
render_group indent kw [] = []
render_group indent kw (u ∷ l) = render_statement indent kw u ++ render_group indent kw l

module _ (to_lowercase : Text → Text) where
  -- `sort_by_cached_key`, which is stable
  abbrev pub insert_use : UseStatement → List UseStatement → List UseStatement
  insert_use u [] = u ∷ []
  insert_use u (v ∷ l) =
      if text_ltb (to_lowercase v.fqn) (to_lowercase u.fqn) then v ∷ insert_use u l else u ∷ v ∷ l

  abbrev pub sort_uses : List UseStatement → List UseStatement
  sort_uses [] = []
  sort_uses (u ∷ l) = insert_use u (sort_uses l)

  unfoldable pub sort_and_dedup : List UseStatement → List UseStatement
  unfolding dedup
  sort_and_dedup group = dedup (sort_uses group)
