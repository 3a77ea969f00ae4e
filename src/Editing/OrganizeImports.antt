-- ===== src/Editing/OrganizeImports.antt =====
-- src/editing/organize_imports.rs: the action that sorts the imports and removes unused ones.
-- `none` is a panic; the action is its edit, or nothing.
pub mod Statement
pub mod Group
pub mod Block
pub mod Edit
pub mod Tests
use php_lsp.Prelude.{
  ℕ, ◌+◌, ◌-◌, Option, none, some, Bool, true, false, ◌&&◌, ◌||◌, List, [], ◌∷◌, ◌++◌, leb, ◌==◌,
  min, if◌then◌else◌,
}
use php_lsp.Prelude.Chars.{Text, codes, len_utf8, len_utf16, byte_len, slice_from, slice_to}
use php_lsp.Prelude.Strs.{text_eq, slice}
use php_lsp.Text.Offset.{Range, u32, position_to_byte_offset}
use php_lsp.Editing.OrganizeImports.Statement.{UseStatement}
use php_lsp.Editing.OrganizeImports.Group.{Groups, group_used, render_group, sort_and_dedup}
use php_lsp.Editing.OrganizeImports.Block.{UseBlock, line_start, find_use_block}

pub record TextEdit : Type 0 where
  pub range : Range
  pub new_text : Text

-- The loop of `utf16_col_to_byte`.
col_byte_loop : Text → ℕ → ℕ → ℕ → ℕ
col_byte_loop [] utf16_col col byte_off = byte_off
col_byte_loop (c ∷ s) utf16_col col byte_off =
    if c == 10 || c == 13 || leb utf16_col col
    then byte_off
    else col_byte_loop s utf16_col (u32 (col + len_utf16 c)) (byte_off + len_utf8 c)

unfoldable pub utf16_col_to_byte : Text → ℕ → ℕ → Option ℕ
unfolding col_byte_loop
utf16_col_to_byte source start utf16_col = elim (slice_from source start) [
  | none ↦ none
  | some rest ↦ some (col_byte_loop rest utf16_col 0 start)
]

-- The byte of a place, through the start of its line.
unfoldable pub byte_at : Text → ℕ → ℕ → Option ℕ
unfolding position_to_byte_offset utf16_col_to_byte
byte_at source line character = elim (position_to_byte_offset source (line_start line)) [
  | none ↦ none
  | some start ↦ utf16_col_to_byte source start character
]

unfoldable pub byte_range_of : Text → Range → Option (ℕ × ℕ)
unfolding byte_at
byte_range_of source range = elim (byte_at source range.start.line range.start.character) [
  | none ↦ none
  | some start ↦ elim (byte_at source range.stop.line range.stop.character) [
    | none ↦ none
    | some stop ↦ some (start, min stop (byte_len source))
  ]
]

unfoldable pub current_text : Text → Range → Option Text
unfolding byte_range_of
current_text source range = elim (byte_range_of source range) [
  | none ↦ none
  | some (start, stop) ↦ slice source start stop
]

abbrev pub is_nil {ℓ} : {A : Type ℓ} → List A → Bool
is_nil [] = true
is_nil (a ∷ l) = false

-- `join("\n")` on the groups that are not empty; each ends with a newline.
abbrev pub join_groups : List Text → Text
join_groups [] = []
join_groups (part ∷ []) = part
join_groups (part ∷ next ∷ parts) = part ++ (10 ∷ join_groups (next ∷ parts))

abbrev pub push_group : Text → Text → List UseStatement → List Text → List Text
push_group indent kw [] parts = parts
push_group indent kw (u ∷ l) parts = render_group indent kw (u ∷ l) ∷ parts

unfoldable pub render_groups : Text → Groups → Text
unfolding render_group
render_groups indent g = join_groups (
    push_group indent [] g.class_uses (
      push_group indent (codes "function ") g.fn_uses
        (push_group indent (codes "const ") g.const_uses [])))

module _ (to_lowercase : Text → Text) where
  unfoldable pub organized : Groups → Groups
  unfolding sort_and_dedup
  organized g = record {
    class_uses = sort_and_dedup to_lowercase g.class_uses;
    fn_uses = sort_and_dedup to_lowercase g.fn_uses;
    const_uses = sort_and_dedup to_lowercase g.const_uses;
  }

  -- The edit for the groups of the used statements.
  unfoldable pub edit_for : Text → UseBlock → Groups → Option (Option TextEdit)
  unfolding organized render_groups current_text
  edit_for source block g =
      if is_nil g.class_uses && is_nil g.fn_uses && is_nil g.const_uses
      then some (some record { range = block.range; new_text = [] })
      else let indented = render_groups block.indent (organized g) in
        elim (current_text source block.range) [
          | none ↦ none
          | some current ↦ some (
              if text_eq current indented
              then none
              else some record { range = block.range; new_text = indented })
        ]

  unfoldable pub edit_block : Text → UseBlock → Option (Option TextEdit)
  unfolding group_used edit_for
  edit_block source block =
      if is_nil block.statements
      then some none
      else elim (slice_from source block.body_start_byte) [
        | none ↦ none
        | some body ↦ elim (group_used body block.statements) [
          | none ↦ none
          | some g ↦ edit_for source block g
        ]
      ]

  unfoldable pub organize_imports_action : Text → Option (Option TextEdit)
  unfolding find_use_block edit_block
  organize_imports_action source = elim (find_use_block source) [
    | none ↦ none
    | some none ↦ some none
    | some (some block) ↦ edit_block source block
  ]
