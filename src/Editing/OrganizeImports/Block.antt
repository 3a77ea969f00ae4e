-- ===== src/Editing/OrganizeImports/Block.antt =====
-- src/editing/organize_imports.rs: the block of `use` lines in the file header.
use php_lsp.Prelude.{
  ℕ, ◌+◌, Option, none, some, Bool, true, false, List, [], ◌∷◌, ◌++◌, ◌==◌, if◌then◌else◌,
}
use php_lsp.Prelude.Chars.{Text, codes}
use php_lsp.Prelude.Strs.{is_whitespace, is_empty, strip_prefix, span_to, trim, trim_end_by}
use php_lsp.Text.Offset.{Position, Range, u32, position_to_byte_offset}
use php_lsp.Lang.FileHeader.{header_lines}
use php_lsp.Editing.OrganizeImports.Statement.{
  UseKind, UseStatement, class, function, const, or_else, parse_use_statement,
}

pub record UseBlock : Type 0 where
  pub range : Range
  pub statements : List UseStatement
  pub indent : Text
  pub body_start_byte : ℕ

-- `first_line`, `last_line`, `statements` and `indent` of the loop.
pub record Uses : Type 0 where
  pub first_line : Option ℕ
  pub last_line : Option ℕ
  pub found : List UseStatement
  pub indent : Text

abbrev pub without_semicolons : Text → Text
without_semicolons s = trim (trim_end_by (λ c. c == b';') s)

abbrev pub as_kind : UseKind → Option Text → Option (UseKind × Text)
as_kind kind none = none
as_kind kind (some rest) = some (kind, without_semicolons rest)

-- The kind and the text of a `use` line, from what stands behind `use `.
unfoldable pub kind_and_text : Text → UseKind × Text
kind_and_text rest =
    elim (or_else (as_kind function (strip_prefix (codes "function ") rest))
      (as_kind const (strip_prefix (codes "const ") rest))) [
        | none ↦ (class, without_semicolons rest)
        | some kind_text ↦ kind_text
      ]

abbrev pub is_some {ℓ} : {A : Type ℓ} → Option A → Bool
is_some none = false
is_some (some a) = true

-- What a line with statements does to the loop.
abbrev pub note_uses : ℕ → Text → List UseStatement → Uses → Uses
note_uses line_no line [] uses = uses
note_uses line_no line (u ∷ parsed) uses = record {
  first_line = or_else uses.first_line (some line_no);
  last_line = some line_no;
  found = uses.found ++ (u ∷ parsed);
  indent = if is_some uses.first_line then uses.indent else (span_to no_space line).0;
}
  where
    no_space : ℕ → Bool
    no_space c = if is_whitespace c then false else true

-- One round of the loop; `none` is `break`.
unfoldable pub scan_line : Uses → ℕ → Text → Option Uses
unfolding kind_and_text parse_use_statement
scan_line uses line_no line =
    let trimmed = trim line in
    if is_empty trimmed then some uses else elim (strip_prefix (codes "use ") trimmed) [
      | some rest ↦
          let kind_text = kind_and_text rest in
          some (note_uses line_no line (parse_use_statement kind_text.1 kind_text.0) uses)
      | none ↦ if is_some uses.first_line then none else some uses
    ]

unfoldable pub scan_lines : Uses → List (ℕ × Text) → Uses
unfolding scan_line
scan_lines uses [] = uses
scan_lines uses ((line_no, line) ∷ rest) = elim (scan_line uses line_no line) [
  | none ↦ uses
  | some uses' ↦ scan_lines uses' rest
]

abbrev pub no_uses : Uses
no_uses = record { first_line = none; last_line = none; found = []; indent = [] }

abbrev pub line_start : ℕ → Position
line_start line = record { line = line; character = 0 }

unfoldable pub block_of : Text → Uses → ℕ → ℕ → Option (Option UseBlock)
unfolding position_to_byte_offset
block_of source uses first last =
    let behind = line_start (u32 (last + 1)) in
    elim (position_to_byte_offset source behind) [
      | none ↦ none
      | some byte ↦ some (
          some record {
            range = record { start = line_start first; stop = behind };
            statements = uses.found;
            indent = uses.indent;
            body_start_byte = byte;
          })
    ]

-- `some none` is `None`; `none` is a panic of `position_to_byte_offset`.
unfoldable pub use_block_from : Text → Uses → Option ℕ → Option ℕ → Option (Option UseBlock)
unfolding block_of
use_block_from source uses none last = some none
use_block_from source uses (some first) none = some none
use_block_from source uses (some first) (some last) = block_of source uses first last

unfoldable pub find_use_block : Text → Option (Option UseBlock)
unfolding header_lines scan_lines use_block_from
find_use_block source =
    let uses = scan_lines no_uses (header_lines source) in
    use_block_from source uses uses.first_line uses.last_line
