-- ===== src/Analysis/Tokens/Order.antt =====
-- src/analysis/semantic_tokens.rs: the order of tokens, and what sorting and filtering keep of it.
use mathlib.Core.List.{Perm}
use mathlib.Core.List.Perm
use php_lsp.Prelude.{
  ℕ, Bool, true, false, ◌&&◌, ◌||◌, List, [], ◌∷◌, ltb, leb, ◌==◌, ◌≡◌, arith, Bool-cases, inl, inr,
}
use php_lsp.Analysis.Tokens.{RawToken, in_order, insert_token, sort_tokens, filter_tokens}

-- A token at or behind a place.
abbrev pub not_before : ℕ → ℕ → RawToken → Bool
not_before line col t = ltb line t.line || (line == t.line && leb col t.col)

-- Every token is at or behind the one in front of it, the first at or behind a place.
abbrev pub SortedFrom : ℕ → ℕ → List RawToken → Type 0
SortedFrom line col [] = Unit
SortedFrom line col (t ∷ l) = (not_before line col t ≡ true) × SortedFrom t.line t.col l

not_before_trans :
    (line col : ℕ) (t u : RawToken)
    → not_before line col t ≡ true
    → not_before t.line t.col u ≡ true
    → not_before line col u ≡ true
not_before_trans line col t u h k = ground arith

SortedFrom-earlier :
    (line col : ℕ) (t : RawToken) (l : List RawToken)
    → not_before line col t ≡ true
    → SortedFrom t.line t.col l
    → SortedFrom line col l
SortedFrom-earlier line col t [] h s = tt
SortedFrom-earlier line col t (u ∷ l) h s = (not_before_trans line col t u h s.0, s.1)

SortedFrom-insert :
    (line col : ℕ) (t : RawToken) (l : List RawToken)
    → not_before line col t ≡ true
    → SortedFrom line col l
    → SortedFrom line col (insert_token t l)
SortedFrom-insert line col t [] h s = (h, tt)
SortedFrom-insert line col t (u ∷ l) h s = elim (Bool-cases (in_order t u)) [
  | inl e ↦ rw (insert_token, e) (h, (e, s.1))
  | inr e ↦ rw (insert_token, e) (s.0, SortedFrom-insert u.line u.col t l (turn t u e) s.1)
]
  where
    turn : (t u : RawToken) → in_order t u ≡ false → not_before u.line u.col t ≡ true
    turn t u e = ground arith

pub sort_tokens-SortedFrom : (raw : List RawToken) → SortedFrom 0 0 (sort_tokens raw)
unfolding sort_tokens
sort_tokens-SortedFrom [] = tt
sort_tokens-SortedFrom (t ∷ raw) =
    SortedFrom-insert 0 0 t (sort_tokens raw) (ground arith) (sort_tokens-SortedFrom raw)

pub SortedFrom-filter :
    (p : RawToken → Bool) (line col : ℕ) (l : List RawToken)
    → SortedFrom line col l
    → SortedFrom line col (filter_tokens p l)
SortedFrom-filter p line col [] s = tt
SortedFrom-filter p line col (t ∷ l) s = elim (Bool-cases (p t)) [
  | inl e ↦ rw (filter_tokens, e) (s.0, SortedFrom-filter p t.line t.col l s.1)
  | inr e ↦
      rw (filter_tokens, e)
        (SortedFrom-filter p line col l (SortedFrom-earlier line col t l s.0 s.1))
]

insert-perm : (t : RawToken) (l : List RawToken) → Perm (insert_token t l) (t ∷ l)
insert-perm t [] = Perm.refl (t ∷ [])
insert-perm t (u ∷ l) = elim (Bool-cases (in_order t u)) [
  | inl e ↦ rw (insert_token, e) (Perm.refl (t ∷ u ∷ l))
  | inr e ↦ rw (insert_token, e) (Perm.trans (Perm.cons u (insert-perm t l)) (Perm.swap t u l))
]

pub sort_tokens-perm : (raw : List RawToken) → Perm (sort_tokens raw) raw
unfolding sort_tokens
sort_tokens-perm [] = Perm.refl []
sort_tokens-perm (t ∷ raw) =
    Perm.trans (insert-perm t (sort_tokens raw)) (Perm.cons t (sort_tokens-perm raw))
