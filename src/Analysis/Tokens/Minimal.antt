-- ===== src/Analysis/Tokens/Minimal.antt =====
-- src/analysis/semantic_tokens.rs: no single-span edit is smaller than that of `compute_token_delta`.
use mathlib.Core.List.{reverse-append}
use mathlib.Core.Path.{ap₂}
use native.Mathlib.Nat.{mod-le}
use php_lsp.Prelude.{
  ℕ, ◌+◌, ◌-◌, ◌*◌, ◌^◌, ◌≤◌, Bool, true, false, ◌&&◌, List, [], ◌∷◌, ◌++◌, ◌==◌, if◌then◌else◌,
  length, take, drop, reverse, length-reverse, length-append, length-drop, take-append-drop, ◌≡◌,
  refl, sym, ap, ◌∙◌, subst, arith, append_assoc, min,
}
use php_lsp.Analysis.Tokens.{
  SemanticToken, SemanticTokensEdit, same_count, edit_between, compute_token_delta,
}
use php_lsp.Analysis.Tokens.Delta.{
  token_eq_self, Parts, parts, edit_data, edit_data-flatten, length-flatten,
}

-- A shared prefix is counted.
same_count-append : (a xs ys : List SemanticToken) → length a ≤ same_count (a ++ xs) (a ++ ys)
same_count-append [] xs ys = omega arith
same_count-append (t ∷ a) xs ys = ground (arith, same_count-append a xs ys, token_eq_self t)

-- A shared prefix `w` of two longer lists is counted in what is left of it in `xs` and in `ys`.
same_count-min :
    (w xs ys p q p' q' : List SemanticToken)
    → xs ++ p ≡ w ++ q
    → ys ++ p' ≡ w ++ q'
    → min (length w) (min (length xs) (length ys)) ≤ same_count xs ys
same_count-min [] xs ys p q p' q' e f = omega arith
same_count-min (t ∷ w) [] ys p q p' q' e f = omega arith
same_count-min (t ∷ w) (x ∷ xs) [] p q p' q' e f = omega arith
same_count-min (t ∷ w) (x ∷ xs) (y ∷ ys) p q p' q' e f =
    ground (arith, same_count-min w xs ys p q p' q', token_eq_self t)

turned :
    (n : ℕ) (xs u z : List SemanticToken)
    → xs ≡ u ++ z
    → reverse (drop n xs) ++ reverse (take n xs) ≡ reverse z ++ reverse u
turned n xs u z e =
    sym (reverse-append (take n xs) (drop n xs))
    ∙ ap reverse (take-append-drop n xs ∙ e)
    ∙ reverse-append u z

-- The same at the ends of two lists whose fronts were dropped.
same_back :
    (n : ℕ) (xs ys u v z : List SemanticToken)
    → xs ≡ u ++ z
    → ys ≡ v ++ z
    → min (length z) (min (length xs - n) (length ys - n))
      ≤ same_count (reverse (drop n xs)) (reverse (drop n ys))
same_back n xs ys u v z e f = omega (
  arith,
  same_count-min (reverse z) (reverse (drop n xs)) (reverse (drop n ys)) (reverse (take n xs))
      (reverse u) (reverse (take n ys)) (reverse v) (turned n xs u z e) (turned n ys v z f),
  length-reverse z,
  length-reverse (drop n xs),
  length-reverse (drop n ys),
  length-drop n xs,
  length-drop n ys,
)

length_three :
    (p r z xs : List SemanticToken)
    → xs ≡ p ++ (r ++ z)
    → length xs ≡ length p + length r + length z
length_three p r z xs e = omega (arith, ap length e, length-append p (r ++ z), length-append r z)

-- What the edit keeps is at least what any other way to keep a front and an end keeps.
kept :
    (a d i z old new : List SemanticToken) (q : Parts old new)
    → old ≡ a ++ (d ++ z)
    → new ≡ a ++ (i ++ z)
    → (length q.removed ≤ length d) × (length q.inserted ≤ length i)
kept a d i z old new q e f = omega (
  arith,
  length_three a d z old e,
  length_three a i z new f,
  length_three q.shared q.removed q.behind old q.old_parts,
  length_three q.shared q.inserted q.behind new q.new_parts,
  q.first_size,
  q.behind_size,
  subst (λ t. length a ≤ t) (ap₂ same_count (sym e) (sym f))
      (same_count-append a (d ++ z) (i ++ z)),
  same_back (same_count old new) old new (a ++ d) (a ++ i) z (e ∙ sym (append_assoc a d z))
      (f ∙ sym (append_assoc a i z)),
)

head_eq : {e f : SemanticTokensEdit} → ◌≡◌ {A = List SemanticTokensEdit} (e ∷ []) (f ∷ []) → e ≡ f
head_eq h = cc

edit_size :
    (a d i z old new : List SemanticToken) (q : Parts old new) (e : SemanticTokensEdit)
    → old ≡ a ++ (d ++ z)
    → new ≡ a ++ (i ++ z)
    → edit_between (same_count old new) old new ≡ e ∷ []
    → (e.delete_count ≤ length d * 5) × (length (edit_data e.new_tokens) ≤ length i * 5)
edit_size a d i z old new q e hold hnew h =
    let sizes = kept a d i z old new q hold hnew in
    subst
      (λ (t : SemanticTokensEdit).
        (t.delete_count ≤ length d * 5) × (length (edit_data t.new_tokens) ≤ length i * 5))
      (head_eq (sym q.the_edit ∙ h))
      (
        omega (arith, mod-le (length q.removed * 5) (2 ^ 32)),
        omega (arith, ap length (edit_data-flatten q.inserted), length-flatten q.inserted),
      )

-- However an old and a new answer are cut into a shared front, a middle and a shared end, the edit
-- deletes no more numbers than the old middle has, and sends no more than the new middle has.
pub compute_token_delta_minimal :
    (a d i z : List SemanticToken) (e : SemanticTokensEdit)
    → compute_token_delta (a ++ (d ++ z)) (a ++ (i ++ z)) ≡ e ∷ []
    → (e.delete_count ≤ length d * 5) × (length (edit_data e.new_tokens) ≤ length i * 5)
unfolding compute_token_delta
compute_token_delta_minimal a d i z e h =
    edit_size a d i z _ _ (parts (a ++ (d ++ z)) (a ++ (i ++ z))) e refl refl
      (not_empty (same_count old new == length old && same_count old new == length new) _ e h)
  where
    old : List SemanticToken
    old = a ++ (d ++ z)

    new : List SemanticToken
    new = a ++ (i ++ z)

    not_empty :
        (b : Bool) (edits : List SemanticTokensEdit) (e : SemanticTokensEdit)
        → (if b then [] else edits) ≡ e ∷ []
        → edits ≡ e ∷ []
    not_empty true edits e h = cc
    not_empty false edits e h = h
