-- ===== src/Analysis/Tokens/Decode.antt =====
-- src/analysis/semantic_tokens.rs: what a client reads from the encoded tokens.
use mathlib.Core.List.{Perm}
use php_lsp.Prelude.{
  ℕ, ◌+◌, ◌-◌, some, true, List, [], ◌∷◌, ◌==◌, if◌then◌else◌, ◌≡◌, refl, sym, ap, ◌∙◌, arith,
  subst,
}
use php_lsp.Text.Offset.{Range}
use php_lsp.Analysis.Tokens.{
  RawToken, SemanticToken, encode_token, encode_from, delta_encode, semantic_tokens,
  semantic_tokens_range, sort_tokens, filter_tokens, in_range,
}
use php_lsp.Analysis.Tokens.Order.{
  not_before, SortedFrom, sort_tokens-SortedFrom, SortedFrom-filter, sort_tokens-perm,
}

-- The protocol's reading of a token, relative to the place of the token in front of it.
abbrev pub decode_token : ℕ → ℕ → SemanticToken → RawToken
decode_token line col t = record {
  line = line + t.delta_line;
  col = if t.delta_line == 0 then col + t.delta_start else t.delta_start;
  len = t.len;
  token_type = t.token_type;
  modifiers = t.modifiers;
}

abbrev pub decode : ℕ → ℕ → List SemanticToken → List RawToken
decode line col [] = []
decode line col (t ∷ l) =
    let token = decode_token line col t in token ∷ decode token.line token.col l

-- A token at or behind the place is encoded, and read back.
token_round_trip :
    (t : RawToken) (line col : ℕ)
    → not_before line col t ≡ true
    → (s : SemanticToken) × (encode_token t line col ≡ some s) × (decode_token line col s ≡ t)
unfolding encode_token
token_round_trip t line col h = (
  record {
    delta_line = t.line - line;
    delta_start = if t.line - line == 0 then t.col - col else t.col;
    len = t.len;
    token_type = t.token_type;
    modifiers = t.modifiers;
  },
  ground arith,
  ground arith,
)

decode-encode_from :
    (raw : List RawToken) (line col : ℕ)
    → SortedFrom line col raw
    → (ts : List SemanticToken) × (encode_from raw line col ≡ some ts) × (decode line col ts ≡ raw)
unfolding encode_from
decode-encode_from [] line col s = ([], refl, refl)
decode-encode_from (t ∷ raw) line col s =
    let (token, e, d) = token_round_trip t line col s.0 in
    let (ts, es, ds) = decode-encode_from raw t.line t.col s.1 in
    (
      token ∷ ts,
      rw (encode_from, e, es),
      subst (λ u. u ∷ decode u.line u.col ts ≡ t ∷ raw) (sym d)
          (ap (λ (l : List RawToken). t ∷ l) ds),
    )

-- Tokens that are in order are encoded with no subtraction below zero, and read back as they were.
pub decode-delta_encode :
    (raw : List RawToken)
    → SortedFrom 0 0 raw
    → (ts : List SemanticToken) × (delta_encode raw ≡ some ts) × (decode 0 0 ts ≡ raw)
unfolding delta_encode
decode-delta_encode raw s = decode-encode_from raw 0 0 s

-- Whatever tokens are collected, in whatever order, encoding them succeeds, and a client reads back
-- the same tokens, each as often, in the order of the text.
pub decode-semantic_tokens :
    (raw : List RawToken)
    → (ts : List SemanticToken) × (semantic_tokens raw ≡ some ts)
      × Perm (decode 0 0 ts) raw
      × SortedFrom 0 0 (decode 0 0 ts)
unfolding semantic_tokens
decode-semantic_tokens raw =
    let sorted = sort_tokens-SortedFrom raw in
    let (ts, e, d) = decode-delta_encode (sort_tokens raw) sorted in
    (ts, e, rw d (sort_tokens-perm raw), rw d sorted)

-- From the same collected tokens, the answer for a range reads back as the tokens of the answer
-- for the file that lie in the range.
pub decode-semantic_tokens_range :
    (raw : List RawToken) (range : Range)
    → (part full : List SemanticToken) × (semantic_tokens_range raw range ≡ some part)
      × (semantic_tokens raw ≡ some full)
      × (decode 0 0 part ≡ filter_tokens (in_range range) (decode 0 0 full))
unfolding semantic_tokens semantic_tokens_range
decode-semantic_tokens_range raw range =
    let sorted = sort_tokens-SortedFrom raw in
    let (full, e, d) = decode-delta_encode (sort_tokens raw) sorted in
    let (part, e', d') =
      decode-delta_encode (filter_tokens (in_range range) (sort_tokens raw))
        (SortedFrom-filter (in_range range) 0 0 (sort_tokens raw) sorted) in
    (part, full, e', e, d' ∙ ap (filter_tokens (in_range range)) (sym d))
