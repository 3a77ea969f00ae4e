-- ===== src/Analysis/Tests.antt =====
-- src/analysis/semantic_tokens.rs: the encoding run on three tokens, and its theorems at concrete
-- inputs.
use php_lsp.Prelude.{ℕ, ◌*◌, ◌^◌, ◌<◌, ◌≡◌, refl, some, List, [], ◌∷◌, arith, length}
use mathlib.Core.List.{Perm}
use php_lsp.Text.Offset.{Range}
use php_lsp.Analysis.Tokens.{
  delta_encode, sort_tokens, RawToken, SemanticToken, SemanticTokensEdit, semantic_tokens,
  semantic_tokens_range, compute_token_delta,
}
use php_lsp.Analysis.Tokens.Order.{SortedFrom}
use php_lsp.Analysis.Tokens.Decode.{decode, decode-semantic_tokens}
use php_lsp.Analysis.Tokens.Delta.{flatten, apply_edits, apply_edits-compute_token_delta}

abbrev raw_at : ℕ → ℕ → RawToken
raw_at line col = record { line = line; col = col; len = 3; token_type = 1; modifiers = 0 }

abbrev token : ℕ → ℕ → SemanticToken
token line start = record {
  delta_line = line;
  delta_start = start;
  len = 3;
  token_type = 1;
  modifiers = 0;
}

abbrev raws : List RawToken
raws = raw_at 4 9 ∷ raw_at 2 5 ∷ raw_at 4 2 ∷ []

abbrev range : Range
range = record {
  start = record { line = 3; character = 0 };
  stop = record { line = 4; character = 9 };
}

encoded : semantic_tokens raws ≡ some (token 2 5 ∷ token 2 2 ∷ token 0 7 ∷ [])
unfolding semantic_tokens delta_encode sort_tokens
encoded = refl

encoded_range : semantic_tokens_range raws range ≡ some (token 4 2 ∷ [])
unfolding semantic_tokens_range delta_encode sort_tokens
encoded_range = refl

decode-semantic_tokens_example :
    (ts : List SemanticToken) × (semantic_tokens raws ≡ some ts)
    × Perm (decode 0 0 ts) raws
    × SortedFrom 0 0 (decode 0 0 ts)
decode-semantic_tokens_example = decode-semantic_tokens raws

abbrev old_tokens : List SemanticToken
old_tokens = token 2 5 ∷ token 2 2 ∷ token 0 7 ∷ []

abbrev new_tokens : List SemanticToken
new_tokens = token 2 5 ∷ token 1 1 ∷ token 0 3 ∷ token 0 7 ∷ []

abbrev middle_edit : SemanticTokensEdit
middle_edit = record { start = 5; delete_count = 5; new_tokens = some (token 1 1 ∷ token 0 3 ∷ []) }

delta_of_middle : compute_token_delta old_tokens new_tokens ≡ middle_edit ∷ []
unfolding compute_token_delta
delta_of_middle = refl

small : length old_tokens * 5 < 2 ^ 32
small = omega arith

apply_edits-compute_token_delta_example :
    apply_edits (compute_token_delta old_tokens new_tokens) (flatten old_tokens)
    ≡ flatten new_tokens
apply_edits-compute_token_delta_example =
    apply_edits-compute_token_delta old_tokens new_tokens small
