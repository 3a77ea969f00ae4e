-- ===== src/Editing/StringMask/Strings.antt =====
-- `string_literal_mask` against texts put together from code, strings and comments.
use php_lsp.Prelude.{
  ℕ, ◌≡◌, refl, ap, ◌∙◌, Bool, true, false, ◌&&◌, ◌||◌, not, List, [], ◌∷◌, ◌==◌, arith,
}
use php_lsp.Prelude.Chars.{Text}
use php_lsp.Editing.StringMask.{
  MaskState, normal, single, double, line, block, next_is, mask_step, mask_from,
  string_literal_mask,
}

-- A character that neither opens a string nor may open a comment.
abbrev pub is_code : ℕ → Bool
is_code c = not (c == b'\'' || c == b'"' || c == b'/' || c == b'#')

-- A character of a string: itself, or behind a backslash.
pub data Piece (quote : ℕ) : Type 0 where
  plain : (c : ℕ) → not (c == b'\\' || c == quote) ≡ true → Piece quote
  escaped : ℕ → Piece quote

abbrev pub no_newline : Text → Bool
no_newline [] = true
no_newline (c ∷ s) = not (c == 10) && no_newline s

abbrev pub no_close : Text → Bool
no_close [] = true
no_close (c ∷ s) = not (c == b'*' && next_is b'/' s) && no_close s

pub data Segment : Type 0 where
  code : (c : ℕ) → is_code c ≡ true → Segment
  slash : (c : ℕ) → is_code c && not (c == b'*') ≡ true → Segment
  attribute : Segment
  single_quoted : List (Piece b'\'') → Segment
  double_quoted : List (Piece b'"') → Segment
  slash_comment : (body : Text) → no_newline body ≡ true → Segment
  hash_comment : (body : Text) → no_newline body && not (next_is b'[' body) ≡ true → Segment
  block_comment : (body : Text) → no_close body ≡ true → Segment

-- The text of a segment and what follows it.
abbrev pub print_pieces : {quote : ℕ} → List (Piece quote) → Text → Text
print_pieces [] rest = rest
print_pieces (plain c h ∷ ps) rest = c ∷ print_pieces ps rest
print_pieces (escaped c ∷ ps) rest = b'\\' ∷ c ∷ print_pieces ps rest

abbrev pub before : Text → Text → Text
before [] rest = rest
before (c ∷ s) rest = c ∷ before s rest

abbrev pub print_segment : Segment → Text → Text
print_segment (code c h) rest = c ∷ rest
print_segment (slash c h) rest = b'/' ∷ c ∷ rest
print_segment attribute rest = b'#' ∷ b'[' ∷ rest
print_segment (single_quoted ps) rest = b'\'' ∷ print_pieces ps (b'\'' ∷ rest)
print_segment (double_quoted ps) rest = b'"' ∷ print_pieces ps (b'"' ∷ rest)
print_segment (slash_comment body h) rest = b'/' ∷ b'/' ∷ before body (10 ∷ rest)
print_segment (hash_comment body h) rest = b'#' ∷ before body (10 ∷ rest)
print_segment (block_comment body h) rest = b'/' ∷ b'*' ∷ before body (b'*' ∷ b'/' ∷ rest)

abbrev pub print_segments : List Segment → Text
print_segments [] = []
print_segments (g ∷ gs) = print_segment g (print_segments gs)

-- Strings and comments are masked from their first character to their last.
abbrev pub masked : Text → List Bool → List Bool
masked [] rest = rest
masked (c ∷ s) rest = true ∷ masked s rest

abbrev pub segment_mask : Segment → List Bool → List Bool
segment_mask (code c h) rest = false ∷ rest
segment_mask (slash c h) rest = false ∷ false ∷ rest
segment_mask attribute rest = false ∷ false ∷ rest
segment_mask (single_quoted ps) rest = masked (print_segment (single_quoted ps) []) rest
segment_mask (double_quoted ps) rest = masked (print_segment (double_quoted ps) []) rest
segment_mask (slash_comment body h) rest = masked (print_segment (slash_comment body h) []) rest
segment_mask (hash_comment body h) rest = masked (print_segment (hash_comment body h) []) rest
segment_mask (block_comment body h) rest = masked (print_segment (block_comment body h) []) rest

abbrev pub segments_mask : List Segment → List Bool
segments_mask [] = []
segments_mask (g ∷ gs) = segment_mask g (segments_mask gs)

mask_from-step :
    (state : MaskState) (c : ℕ) (s : Text) (b : Bool) (next : MaskState)
    → mask_step state c s ≡ (b, next)
    → mask_from state (c ∷ s) ≡ b ∷ mask_from next s
unfolding mask_from
mask_from-step state c s b next e = rw (mask_from, e) refl

-- A string in single quotes from its first character on.
mask_from-single :
    (ps : List (Piece b'\'')) (rest : Text)
    → mask_from single (print_pieces ps (b'\'' ∷ rest))
      ≡ masked (print_pieces ps (b'\'' ∷ [])) (mask_from normal rest)
unfolding mask_from mask_step
mask_from-single [] rest = refl
mask_from-single (escaped c ∷ ps) rest = ap (λ m. true ∷ true ∷ m) (mask_from-single ps rest)
mask_from-single (plain c h ∷ ps) rest =
    mask_from-step single c (print_pieces ps (b'\'' ∷ rest)) true single (ground arith)
    ∙ ap (λ m. true ∷ m) (mask_from-single ps rest)

mask_from-double :
    (ps : List (Piece b'"')) (rest : Text)
    → mask_from double (print_pieces ps (b'"' ∷ rest))
      ≡ masked (print_pieces ps (b'"' ∷ [])) (mask_from normal rest)
unfolding mask_from mask_step
mask_from-double [] rest = refl
mask_from-double (escaped c ∷ ps) rest = ap (λ m. true ∷ true ∷ m) (mask_from-double ps rest)
mask_from-double (plain c h ∷ ps) rest =
    mask_from-step double c (print_pieces ps (b'"' ∷ rest)) true double (ground arith)
    ∙ ap (λ m. true ∷ m) (mask_from-double ps rest)

mask_from-line :
    (body rest : Text)
    → no_newline body ≡ true
    → mask_from line (before body (10 ∷ rest))
      ≡ masked (before body (10 ∷ [])) (mask_from normal rest)
unfolding mask_from mask_step
mask_from-line [] rest h = refl
mask_from-line (c ∷ s) rest h =
    mask_from-step line c (before s (10 ∷ rest)) true line (ground arith)
    ∙ ap (λ m. true ∷ m) (mask_from-line s rest (ground arith))

next_is-before :
    (q : ℕ) (s : Text) (c : ℕ) (rest : Text)
    → c == q ≡ false
    → next_is q (before s (c ∷ rest)) ≡ next_is q s
next_is-before q [] c rest h = h
next_is-before q (d ∷ s) c rest h = refl

block_step :
    (c : ℕ) (s rest : Text)
    → no_close (c ∷ s) ≡ true
    → mask_step block c (before s (b'*' ∷ b'/' ∷ rest)) ≡ (true, block)
unfolding mask_step
block_step c s rest h = ground (arith, next_is-before b'/' s b'*' (b'/' ∷ rest) refl)

hash_step :
    (body rest : Text)
    → next_is b'[' body ≡ false
    → mask_step normal b'#' (before body (10 ∷ rest)) ≡ (true, line)
unfolding mask_step
hash_step body rest h = rw (next_is-before b'[' body 10 rest refl, h) refl

code_step : (c : ℕ) (rest : Text) → is_code c ≡ true → mask_step normal c rest ≡ (false, normal)
unfolding mask_step
code_step c rest h = ground arith

mask_from-block :
    (body rest : Text)
    → no_close body ≡ true
    → mask_from block (before body (b'*' ∷ b'/' ∷ rest))
      ≡ masked (before body (b'*' ∷ b'/' ∷ [])) (mask_from normal rest)
unfolding mask_from mask_step
mask_from-block [] rest h = refl
mask_from-block (c ∷ s) rest h =
    mask_from-step block c (before s (b'*' ∷ b'/' ∷ rest)) true block (block_step c s rest h)
    ∙ ap (λ m. true ∷ m) (mask_from-block s rest (ground arith))

mask_from-segment :
    (g : Segment) (rest : Text)
    → mask_from normal (print_segment g rest) ≡ segment_mask g (mask_from normal rest)
unfolding mask_from mask_step
mask_from-segment (code c h) rest = mask_from-step normal c rest false normal (code_step c rest h)
mask_from-segment (slash c h) rest =
    mask_from-step normal b'/' (c ∷ rest) false normal (ground arith)
    ∙ ap (λ m. false ∷ m)
        (mask_from-step normal c rest false normal (code_step c rest (ground arith)))
mask_from-segment attribute rest = refl
mask_from-segment (single_quoted ps) rest = ap (λ m. true ∷ m) (mask_from-single ps rest)
mask_from-segment (double_quoted ps) rest = ap (λ m. true ∷ m) (mask_from-double ps rest)
mask_from-segment (slash_comment body h) rest =
    ap (λ m. true ∷ true ∷ m) (mask_from-line body rest h)
mask_from-segment (hash_comment body h) rest =
    mask_from-step normal b'#' (before body (10 ∷ rest)) true line
      (hash_step body rest (ground arith))
    ∙ ap (λ m. true ∷ m) (mask_from-line body rest (ground arith))
mask_from-segment (block_comment body h) rest =
    ap (λ m. true ∷ true ∷ m) (mask_from-block body rest h)

-- On a text put together from code, attributes, quoted strings with escapes and the three kinds of
-- comments, `string_literal_mask` marks exactly the characters of the strings and comments.
pub string_literal_mask-print_segments :
    (gs : List Segment) → string_literal_mask (print_segments gs) ≡ segments_mask gs
unfolding string_literal_mask
string_literal_mask-print_segments [] = refl
string_literal_mask-print_segments (g ∷ gs) =
    mask_from-segment g (print_segments gs)
    ∙ ap (segment_mask g) (string_literal_mask-print_segments gs)
