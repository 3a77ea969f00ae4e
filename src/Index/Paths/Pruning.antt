-- ===== src/Index/Paths/Pruning.antt =====
-- src/index/mod.rs: the directories that the workspace scan may skip.
use php_lsp.Prelude.{
  Bool, true, ◌||◌, List, [], ◌∷◌, ◌++◌, ◌≡◌, ◌⊎◌, refl, arith, Option-cases, inl, inr,
}
use php_lsp.Prelude.Chars.{Text}
use php_lsp.Index.Paths.{
  slash, path_segments, any_prefix, any_pattern, pattern_segments, segments_match,
  matches_from_start, matches_include_prefix, could_extend_to_match, has_included_children,
}
use php_lsp.Index.Paths.Beneath.{path_segments-append, any_pattern_mono}

extend-segments_match :
    (pat dir more : List Text)
    → segments_match pat (dir ++ more) ≡ true
    → could_extend_to_match pat dir ≡ true
unfolding segments_match could_extend_to_match
extend-segments_match [] [] more h = refl
extend-segments_match (seg ∷ rest) [] more h = refl
extend-segments_match [] (name ∷ tail) more h = ground arith
extend-segments_match (seg ∷ rest) (name ∷ tail) more h =
    ground (arith, extend-segments_match rest tail more)

-- A prefix that passes is a prefix of the first part, or takes the whole of it.
any_prefix-cases :
    (q : List Text → Bool) (xs ys : List Text)
    → any_prefix q (xs ++ ys) ≡ true
    → (any_prefix q xs ≡ true) ⊎ (any_prefix (λ t. q (xs ++ t)) ys ≡ true)
any_prefix-cases q [] ys h = inr h
any_prefix-cases q (x ∷ xs) ys h = ground (arith, any_prefix-cases (λ t. q (x ∷ t)) xs ys)

any_prefix_elim :
    (q : List Text → Bool) (xs : List Text) (b : Bool)
    → ((t : List Text) → q t ≡ true → b ≡ true)
    → any_prefix q xs ≡ true
    → b ≡ true
any_prefix_elim q [] b step h = step [] h
any_prefix_elim q (x ∷ xs) b step h =
    ground (arith, step [], any_prefix_elim (λ t. q (x ∷ t)) xs b (λ t. step (x ∷ t)))

start_or_extend :
    (pat dir more : List Text)
    → matches_from_start pat (dir ++ more) ≡ true
    → (matches_from_start pat dir || could_extend_to_match pat dir) ≡ true
unfolding matches_from_start
start_or_extend pat dir more h = elim (any_prefix-cases (segments_match pat) dir more h) [
  | inl e ↦ ground arith
  | inr e ↦
      let c : could_extend_to_match pat dir ≡ true =
        any_prefix_elim (λ t. segments_match pat (dir ++ t)) more (could_extend_to_match pat dir)
          (extend-segments_match pat dir) e in
      ground arith
]

any_pattern-or :
    (f g : List Text → Bool) (patterns : List Text)
    → any_pattern (λ pat. f pat || g pat) patterns ≡ true
    → (any_pattern f patterns || any_pattern g patterns) ≡ true
any_pattern-or f g [] h = h
any_pattern-or f g (p ∷ patterns) h = elim (Option-cases (pattern_segments p)) [
  | inl e ↦ ground (arith, any_pattern-or f g patterns)
  | inr (pat, e) ↦ ground (arith, any_pattern-or f g patterns)
]

-- A directory with an included path beneath it is included itself, or may have included children:
-- a scan that descends into no other directory misses none.
pub has_included_children_sound :
    (dir rest : Text) (patterns : List Text)
    → matches_include_prefix (dir ++ slash ∷ rest) patterns ≡ true
    → (matches_include_prefix dir patterns || has_included_children dir patterns) ≡ true
unfolding matches_include_prefix has_included_children
has_included_children_sound dir rest patterns h =
    any_pattern-or (λ pat. matches_from_start pat (path_segments dir))
      (λ pat. could_extend_to_match pat (path_segments dir)) patterns
      (any_pattern_mono _ _ patterns
        (λ pat. start_or_extend pat (path_segments dir) (path_segments rest))
        (rw path_segments-append at h))
