-- ===== src/Lang/FileHeader.antt =====
-- src/lang/file_header.rs: the lines of the file header. The namespaces and insertion places, which
-- stand on the syntax tree, are not modelled.
use php_lsp.Prelude.{
  ℕ, ◌+◌, ◌%◌, ◌^◌, Option, none, some, Bool, false, ◌&&◌, ◌||◌, not, List, [], ◌∷◌, leb, ◌==◌,
  if◌then◌else◌, take,
}
use php_lsp.Prelude.Chars.{Text, codes}
use php_lsp.Prelude.Strs.{
  is_whitespace, is_empty, strip_prefix, starts_with, contains_text, trim, lines,
}

-- `rest.starts_with(|c| …)`
abbrev pub opens : Text → Bool
opens [] = false
opens (c ∷ s) = is_whitespace c || c == b'(' || c == b'{'

unfoldable pub is_keyword_stmt : Text → Text → Bool
is_keyword_stmt trimmed keyword = elim (strip_prefix keyword trimmed) [
  | none ↦ false
  | some rest ↦ opens rest
]

-- The number of the first line with the open tag.
unfoldable pub open_tag_line : List Text → ℕ → Option ℕ
open_tag_line [] idx = none
open_tag_line (line ∷ rest) idx =
    let later = open_tag_line rest (idx + 1) in
    if contains_text (codes "<?php") line then some idx else later

abbrev pub not_past : Option ℕ → ℕ → Bool
not_past none idx = false
not_past (some opened) idx = leb idx opened

-- `in_use_stmt` and `in_block_comment`
pub record Scan : Type 0 where
  pub in_use_stmt : Bool
  pub in_block_comment : Bool

abbrev pub skips : Text → Bool
skips trimmed =
    is_empty trimmed
    || starts_with (codes "//") trimmed
    || (starts_with (codes "#") trimmed && not (starts_with (codes "#[") trimmed))

-- What a line does to the scan; `none` is `return idx`.
header_step : Option ℕ → ℕ → Scan → Text → Option Scan
unfolding is_keyword_stmt
header_step opened idx scan trimmed =
    if not_past opened idx
    then some scan
    else if scan.in_block_comment
    then some (record scan { in_block_comment = not (contains_text (codes "*/") trimmed) })
    else if scan.in_use_stmt
    then some (record scan { in_use_stmt = not (contains_text (codes ";") trimmed) })
    else if skips trimmed
    then some scan
    else if starts_with (codes "/*") trimmed
    then some (record scan { in_block_comment = not (contains_text (codes "*/") trimmed) })
    else if is_keyword_stmt trimmed (codes "declare") || is_keyword_stmt trimmed (codes "namespace")
    then some scan
    else if is_keyword_stmt trimmed (codes "use")
    then some (record scan { in_use_stmt = not (contains_text (codes ";") trimmed) })
    else none

header_loop : Option ℕ → ℕ → Scan → List Text → ℕ
unfolding header_step
header_loop opened idx scan [] = idx
header_loop opened idx scan (line ∷ rest) = elim (header_step opened idx scan (trim line)) [
  | none ↦ idx
  | some scan' ↦ header_loop opened (idx + 1) scan' rest
]

unfoldable pub header_line_count : Text → ℕ
unfolding open_tag_line header_loop
header_line_count source =
    header_loop (open_tag_line (lines source) 0) 0
      (record { in_use_stmt = false; in_block_comment = false }) (lines source)

-- `enumerate`, and `i as u32`
abbrev pub numbered {ℓ} : {A : Type ℓ} → ℕ → List A → List (ℕ × A)
numbered i [] = []
numbered i (a ∷ l) = (i % 2 ^ 32, a) ∷ numbered (i + 1) l

unfoldable pub header_lines : Text → List (ℕ × Text)
unfolding header_line_count
header_lines source = numbered 0 (take (header_line_count source) (lines source))
