-- ===== src/Index/Paths/Beneath.antt =====
-- src/index/mod.rs: a pattern matches a path, or anything beneath it.
use php_lsp.Prelude.{
  ℕ, Bool, true, List, [], ◌∷◌, ◌++◌, ◌≡◌, ◌≢◌, refl, arith, Option-cases, inl, inr,
}
use php_lsp.Prelude.Chars.{Text}
use php_lsp.Index.Paths.{
  slash, cons_head, split_slash, non_empty, path_segments, any_prefix, any_pattern,
  pattern_segments, segments_match, matches_from_start, matches_at_any_depth,
  matches_include_prefix,
}

cons_head-append :
    (c : ℕ) (xs ys : List Text) → xs ≢ [] → cons_head c (xs ++ ys) ≡ cons_head c xs ++ ys
cons_head-append c [] ys h = absurd (h refl)
cons_head-append c (x ∷ xs) ys h = refl

split_slash-ne-nil : (s : Text) → split_slash s ≢ []
split_slash-ne-nil [] = cc
split_slash-ne-nil (c ∷ s) = ground (arith, cons_head-ne-nil c (split_slash s))
  where
    cons_head-ne-nil : (c : ℕ) (xs : List Text) → cons_head c xs ≢ []
    cons_head-ne-nil c [] = cc
    cons_head-ne-nil c (x ∷ xs) = cc

split_slash-append : (p q : Text) → split_slash (p ++ slash ∷ q) ≡ split_slash p ++ split_slash q
split_slash-append [] q = refl
split_slash-append (c ∷ p) q = ground (
  arith,
  split_slash-append p q,
  cons_head-append c (split_slash p) (split_slash q) (split_slash-ne-nil p),
)

non_empty-append : (xs ys : List Text) → non_empty (xs ++ ys) ≡ non_empty xs ++ non_empty ys
non_empty-append [] ys = refl
non_empty-append (x ∷ xs) ys = ground (arith, non_empty-append xs ys)

-- The segments of a path beneath another are the segments of both, in order.
pub path_segments-append :
    (p q : Text) → path_segments (p ++ slash ∷ q) ≡ path_segments p ++ path_segments q
unfolding path_segments
path_segments-append p q = rw (split_slash-append, non_empty-append)

any_prefix-append :
    (q : List Text → Bool) (xs ys : List Text)
    → any_prefix q xs ≡ true
    → any_prefix q (xs ++ ys) ≡ true
any_prefix-append q [] [] h = h
any_prefix-append q [] (y ∷ ys) h = ground arith
any_prefix-append q (x ∷ xs) ys h = ground (arith, any_prefix-append (λ t. q (x ∷ t)) xs ys)

pub any_pattern_mono :
    (f g : List Text → Bool) (patterns : List Text)
    → ((pat : List Text) → f pat ≡ true → g pat ≡ true)
    → any_pattern f patterns ≡ true
    → any_pattern g patterns ≡ true
any_pattern_mono f g [] step h = h
any_pattern_mono f g (p ∷ patterns) step h = elim (Option-cases (pattern_segments p)) [
  | inl e ↦ ground (arith, any_pattern_mono f g patterns step)
  | inr (pat, e) ↦ ground (arith, step pat, any_pattern_mono f g patterns step)
]

pub matches_from_start-append :
    (pat path more : List Text)
    → matches_from_start pat path ≡ true
    → matches_from_start pat (path ++ more) ≡ true
unfolding matches_from_start
matches_from_start-append pat path more h = any_prefix-append (segments_match pat) path more h

-- A pattern that matches a path at some depth matches all that lies beneath the path.
pub matches_at_any_depth-append :
    (pat path more : List Text)
    → matches_at_any_depth pat path ≡ true
    → matches_at_any_depth pat (path ++ more) ≡ true
unfolding matches_at_any_depth
matches_at_any_depth-append pat [] more h = ground arith
matches_at_any_depth-append pat (name ∷ path) more h = ground (
  arith,
  matches_from_start-append pat (name ∷ path) more,
  matches_at_any_depth-append pat path more,
)

-- What lies beneath an included path is included.
pub matches_include_prefix-append :
    (p q : Text) (patterns : List Text)
    → matches_include_prefix p patterns ≡ true
    → matches_include_prefix (p ++ slash ∷ q) patterns ≡ true
unfolding matches_include_prefix
matches_include_prefix-append p q patterns h = rw path_segments-append (
    any_pattern_mono _ _ patterns
      (λ pat. matches_from_start-append pat (path_segments p) (path_segments q)) h)
