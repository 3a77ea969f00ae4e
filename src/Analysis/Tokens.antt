-- ===== src/Analysis/Tokens.antt =====
-- src/analysis/semantic_tokens.rs: from collected tokens to the numbers of the protocol, and the
-- edit from one answer to the next. Collecting tokens from a syntax tree is not modelled: the tokens
-- are an argument. A 32-bit subtraction below zero is `none`.
pub mod Order
pub mod Decode
pub mod Delta
pub mod Minimal
use php_lsp.Prelude.{
  ℕ, ◌+◌, ◌-◌, ◌*◌, ◌%◌, ◌^◌, zero, suc, Option, none, some, Bool, true, false, ◌&&◌, ◌||◌, List,
  [], ◌∷◌, ◌++◌, ltb, leb, ◌==◌, if◌then◌else◌, length, take, drop, reverse,
}
use php_lsp.Text.Offset.{Range, u32}

-- `RawToken`, with its fields named.
pub record RawToken : Type 0 where
  pub line : ℕ
  pub col : ℕ
  pub len : ℕ
  pub token_type : ℕ
  pub modifiers : ℕ

pub record SemanticToken : Type 0 where
  pub delta_line : ℕ
  pub delta_start : ℕ
  pub len : ℕ
  pub token_type : ℕ
  pub modifiers : ℕ

pub record SemanticTokensEdit : Type 0 where
  pub start : ℕ
  pub delete_count : ℕ
  pub new_tokens : Option (List SemanticToken)

-- `a.0.cmp(&b.0).then(a.1.cmp(&b.1))` is not `Greater`
abbrev pub in_order : RawToken → RawToken → Bool
in_order a b = ltb a.line b.line || (a.line == b.line && leb a.col b.col)

-- `sort_by`, which is stable
abbrev insert_token : RawToken → List RawToken → List RawToken
insert_token t [] = t ∷ []
insert_token t (u ∷ l) = if in_order t u then t ∷ u ∷ l else u ∷ insert_token t l

unfoldable pub sort_tokens : List RawToken → List RawToken
sort_tokens [] = []
sort_tokens (t ∷ l) = insert_token t (sort_tokens l)

-- `a - b` in `u32`
abbrev pub sub_u32 : ℕ → ℕ → Option ℕ
sub_u32 a b = if ltb a b then none else some (a - b)

encode_start : RawToken → ℕ → ℕ → Option ℕ
encode_start t delta_line prev_start =
    if delta_line == 0 then sub_u32 t.col prev_start else some t.col

encode_token : RawToken → ℕ → ℕ → Option SemanticToken
unfolding encode_start
encode_token t prev_line prev_start = elim (sub_u32 t.line prev_line) [
  | none ↦ none
  | some delta_line ↦ elim (encode_start t delta_line prev_start) [
    | none ↦ none
    | some delta_start ↦ some record {
      delta_line = delta_line;
      delta_start = delta_start;
      len = t.len;
      token_type = t.token_type;
      modifiers = t.modifiers;
    }
  ]
]

encode_from : List RawToken → ℕ → ℕ → Option (List SemanticToken)
encode_from [] prev_line prev_start = some []
encode_from (t ∷ raw) prev_line prev_start = elim (encode_token t prev_line prev_start) [
  | none ↦ none
  | some token ↦ elim (encode_from raw t.line t.col) [
    | none ↦ none
    | some rest ↦ some (token ∷ rest)
  ]
]

unfoldable pub delta_encode : List RawToken → Option (List SemanticToken)
unfolding encode_from encode_token
delta_encode raw = encode_from raw 0 0

-- `semantic_tokens`, from the tokens that were collected
unfoldable pub semantic_tokens : List RawToken → Option (List SemanticToken)
semantic_tokens raw = delta_encode (sort_tokens raw)

abbrev pub in_range : Range → RawToken → Bool
in_range range t =
    let after_start =
      ltb range.start.line t.line
      || (t.line == range.start.line && leb range.start.character t.col) in
    let before_end =
      ltb t.line range.stop.line || (t.line == range.stop.line && ltb t.col range.stop.character) in
    after_start && before_end

abbrev pub filter_tokens : (RawToken → Bool) → List RawToken → List RawToken
filter_tokens p [] = []
filter_tokens p (t ∷ l) = let rest = filter_tokens p l in if p t then t ∷ rest else rest

unfoldable pub semantic_tokens_range : List RawToken → Range → Option (List SemanticToken)
semantic_tokens_range raw range = delta_encode (filter_tokens (in_range range) (sort_tokens raw))

-- the closure `eq`
abbrev pub token_eq : SemanticToken → SemanticToken → Bool
token_eq a b =
    a.delta_line == b.delta_line
    && a.delta_start == b.delta_start
    && a.len == b.len
    && a.token_type == b.token_type
    && a.modifiers == b.modifiers

-- The tokens before the first place where the lists differ, or one of them ends: both
-- `zip().position(!eq)` with its default and `zip().take_while(eq).count()`.
abbrev pub same_count : List SemanticToken → List SemanticToken → ℕ
same_count [] ys = 0
same_count (x ∷ xs) [] = 0
same_count (x ∷ xs) (y ∷ ys) = let rest = suc (same_count xs ys) in if token_eq x y then rest else 0

abbrev insert_or_none : List SemanticToken → Option (List SemanticToken)
insert_or_none [] = none
insert_or_none (t ∷ l) = some (t ∷ l)

-- The edit between the first differing token and the common suffix behind it.
unfoldable pub edit_between : ℕ → List SemanticToken → List SemanticToken → List SemanticTokensEdit
edit_between first old new =
    let trim = same_count (reverse (drop first old)) (reverse (drop first new)) in
    let old_end = length old - trim in
    let new_end = length new - trim in
    record {
      start = u32 (first * 5);
      delete_count = u32 ((old_end - first) * 5);
      new_tokens = insert_or_none (drop first (take new_end new));
    }
    ∷ []

unfoldable pub compute_token_delta :
    List SemanticToken → List SemanticToken → List SemanticTokensEdit
unfolding edit_between
compute_token_delta old new =
    let first = same_count old new in
    if first == length old && first == length new then [] else edit_between first old new
