-- ===== src/Editing/StringMask.antt =====
-- src/editing/signature_help.rs: `string_literal_mask`, which characters stand in a string or in a
-- comment. The source moves two characters at once in five places; here the second of them has a
-- state of its own.
pub mod Strings
use php_lsp.Prelude.{ℕ, Bool, true, false, ◌&&◌, not, List, [], ◌∷◌, ◌==◌, if◌then◌else◌}
use php_lsp.Prelude.Chars.{Text}

-- The source's states, and the second character of `\x` in each kind of string, of `//`, of `/*` and
-- of `*/`.
pub data MaskState : Type 0 where
  normal : MaskState
  single : MaskState
  double : MaskState
  line : MaskState
  block : MaskState
  single_escaped : MaskState
  double_escaped : MaskState
  line_opened : MaskState
  block_opened : MaskState
  block_closed : MaskState

-- `i + 1 < len && text[i + 1] == c`
abbrev pub next_is : ℕ → Text → Bool
next_is c [] = false
next_is c (d ∷ s) = d == c

-- Whether the character is masked, and the state behind it.
unfoldable pub mask_step : MaskState → ℕ → Text → Bool × MaskState
mask_step normal c s =
    if c == b'\''
    then (true, single)
    else if c == b'"'
    then (true, double)
    else if c == b'/' && next_is b'/' s
    then (true, line_opened)
    else if c == b'#' && not (next_is b'[' s)
    then (true, line)
    else if c == b'/' && next_is b'*' s
    then (true, block_opened)
    else (false, normal)
mask_step single c s =
    if c == b'\\'
    then (true, single_escaped)
    else if c == b'\''
    then (true, normal)
    else (true, single)
mask_step double c s =
    if c == b'\\'
    then (true, double_escaped)
    else if c == b'"'
    then (true, normal)
    else (true, double)
mask_step line c s = if c == 10 then (true, normal) else (true, line)
mask_step block c s = if c == b'*' && next_is b'/' s then (true, block_closed) else (true, block)
mask_step single_escaped c s = (true, single)
mask_step double_escaped c s = (true, double)
mask_step line_opened c s = (true, line)
mask_step block_opened c s = (true, block)
mask_step block_closed c s = (true, normal)

unfoldable pub mask_from : MaskState → Text → List Bool
unfolding mask_step
mask_from state [] = []
mask_from state (c ∷ s) = let (masked, next) = mask_step state c s in masked ∷ mask_from next s

unfoldable pub string_literal_mask : Text → List Bool
unfolding mask_from
string_literal_mask text = mask_from normal text
