-- ===== src/Analysis/Tokens/Delta.antt =====
-- src/analysis/semantic_tokens.rs: `compute_token_delta`, the edit between two answers.
use mathlib.Core.List.{reverse-append, reverse-reverse}
use native.Mathlib.Nat.{mod-eq_of_lt}
use php_lsp.Prelude.{
  ℕ, ◌+◌, ◌-◌, ◌*◌, ◌^◌, ◌≤◌, ◌<◌, Option, none, some, true, ◌&&◌, List, [], ◌∷◌, ◌++◌, ◌==◌,
  length, take, drop, reverse, take_whole, take-append, drop-append, length-reverse, length-append,
  length-take, length-drop, take-append-drop, ◌≡◌, refl, sym, ap, ◌∙◌, arith, append_assoc,
  Bool-cases, inl, inr,
}
use php_lsp.Text.Offset.{u32}
use php_lsp.Analysis.Tokens.{
  SemanticToken, SemanticTokensEdit, token_eq, same_count, insert_or_none, edit_between,
  compute_token_delta,
}

token_eq_sound : (a b : SemanticToken) → token_eq a b ≡ true → a ≡ b
token_eq_sound a b h = ground arith

pub token_eq_self : (a : SemanticToken) → token_eq a a ≡ true
token_eq_self a = ground arith

-- The counted tokens are the same.
take-same_count :
    (xs ys : List SemanticToken) → take (same_count xs ys) xs ≡ take (same_count xs ys) ys
take-same_count [] ys = refl
take-same_count (x ∷ xs) [] = refl
take-same_count (x ∷ xs) (y ∷ ys) = ground (arith, take-same_count xs ys, token_eq_sound x y)

pub same_count-le :
    (xs ys : List SemanticToken) → (same_count xs ys ≤ length xs) × (same_count xs ys ≤ length ys)
same_count-le [] ys = omega arith
same_count-le (x ∷ xs) [] = omega arith
same_count-le (x ∷ xs) (y ∷ ys) = ground (arith, same_count-le xs ys)

-- The last `k` tokens, through the reversed list.
abbrev front : ℕ → List SemanticToken → List SemanticToken
front k xs = reverse (drop k (reverse xs))

abbrev back : ℕ → List SemanticToken → List SemanticToken
back k xs = reverse (take k (reverse xs))

front-back : (k : ℕ) (xs : List SemanticToken) → front k xs ++ back k xs ≡ xs
front-back k xs =
    sym (reverse-append (take k (reverse xs)) (drop k (reverse xs)))
    ∙ ap reverse (take-append-drop k (reverse xs))
    ∙ reverse-reverse xs

length-front : (k : ℕ) (xs : List SemanticToken) → length (front k xs) ≡ length xs - k
length-front k xs =
    omega
      (arith, length-reverse (drop k (reverse xs)), length-drop k (reverse xs), length-reverse xs)

-- Both answers as what they share in front, what differs, and what they share behind.
pub record Parts (old new : List SemanticToken) : Type 0 where
  pub shared : List SemanticToken
  pub removed : List SemanticToken
  pub inserted : List SemanticToken
  pub behind : List SemanticToken
  pub old_parts : old ≡ shared ++ (removed ++ behind)
  pub new_parts : new ≡ shared ++ (inserted ++ behind)
  pub the_edit :
      edit_between (same_count old new) old new
      ≡ record {
        start = u32 (length shared * 5);
        delete_count = u32 (length removed * 5);
        new_tokens = insert_or_none inserted;
      }
        ∷ []
  pub first_size : length shared ≡ same_count old new
  pub behind_size :
      length behind
      ≡ same_count
          (reverse (drop (same_count old new) old))
          (reverse (drop (same_count old new) new))

middle :
    (p i z n : List SemanticToken) (a b : ℕ)
    → n ≡ p ++ (i ++ z)
    → length p ≡ a
    → length (p ++ i) ≡ b
    → drop a (take b n) ≡ i
middle p i z n a b e ha hb =
    rw (← ha, ← hb, e, ← append_assoc p i z, take-append (p ++ i) z, drop-append p i)

module _ (old new : List SemanticToken) where
  abbrev first : ℕ
  first = same_count old new

  abbrev old_rest : List SemanticToken
  old_rest = drop first old

  abbrev new_rest : List SemanticToken
  new_rest = drop first new

  abbrev trim : ℕ
  trim = same_count (reverse old_rest) (reverse new_rest)

  old_split : old ≡ take first old ++ (front trim old_rest ++ back trim old_rest)
  old_split = sym (
      ap (λ (l : List SemanticToken). take first old ++ l) (front-back trim old_rest)
      ∙ take-append-drop first old)

  back_same : back trim old_rest ≡ back trim new_rest
  back_same = ap reverse (take-same_count (reverse old_rest) (reverse new_rest))

  new_split : new ≡ take first old ++ (front trim new_rest ++ back trim old_rest)
  new_split =
      rw (back_same, take-same_count old new)
        (sym (
          ap (λ (l : List SemanticToken). take first new ++ l) (front-back trim new_rest)
          ∙ take-append-drop first new))

  length-shared : length (take first old) ≡ first
  length-shared = omega (arith, length-take first old, same_count-le old new)

  length-removed : length (front trim old_rest) ≡ length old - trim - first
  length-removed = omega (arith, length-front trim old_rest, length-drop first old)

  length-behind : length (back trim old_rest) ≡ trim
  length-behind = omega (
    arith,
    length-reverse (take trim (reverse old_rest)),
    length-take trim (reverse old_rest),
    same_count-le (reverse old_rest) (reverse new_rest),
  )

  new_end_size : length (take first old ++ front trim new_rest) ≡ length new - trim
  new_end_size = omega (
    arith,
    length-append (take first old) (front trim new_rest),
    length-shared,
    length-front trim new_rest,
    length-drop first new,
    same_count-le (reverse old_rest) (reverse new_rest),
    same_count-le old new,
    length-reverse new_rest,
  )

  inserted_tokens : drop first (take (length new - trim) new) ≡ front trim new_rest
  inserted_tokens =
      middle (take first old) (front trim new_rest) (back trim old_rest) new first
        (length new - trim) new_split length-shared new_end_size

  pub parts : Parts old new
  unfolding edit_between
  parts = record {
    shared = take first old;
    removed = front trim old_rest;
    inserted = front trim new_rest;
    behind = back trim old_rest;
    old_parts = old_split;
    new_parts = new_split;
    the_edit = rw (edit_between, inserted_tokens, length-shared, length-removed);
    first_size = length-shared;
    behind_size = length-behind;
  }

-- The protocol's form of tokens: five numbers each.
abbrev pub flatten : List SemanticToken → List ℕ
flatten [] = []
flatten (t ∷ l) = t.delta_line ∷ t.delta_start ∷ t.len ∷ t.token_type ∷ t.modifiers ∷ flatten l

-- What a client does with an edit of the numbers that it holds.
abbrev pub edit_data : Option (List SemanticToken) → List ℕ
edit_data none = []
edit_data (some ts) = flatten ts

abbrev pub apply_edits : List SemanticTokensEdit → List ℕ → List ℕ
apply_edits [] flat = flat
apply_edits (e ∷ edits) flat =
    apply_edits edits
      (take e.start flat ++ (edit_data e.new_tokens ++ drop (e.start + e.delete_count) flat))

flatten-append : (xs ys : List SemanticToken) → flatten (xs ++ ys) ≡ flatten xs ++ flatten ys
flatten-append [] ys = refl
flatten-append (x ∷ xs) ys = rw (flatten-append xs ys)

pub length-flatten : (xs : List SemanticToken) → length (flatten xs) ≡ length xs * 5
length-flatten [] = omega arith
length-flatten (x ∷ xs) = omega (arith, length-flatten xs)

pub edit_data-flatten : (xs : List SemanticToken) → edit_data (insert_or_none xs) ≡ flatten xs
edit_data-flatten [] = refl
edit_data-flatten (x ∷ xs) = refl

take_first : (p s : List ℕ) (a : ℕ) → length p ≡ a → take a (p ++ s) ≡ p
take_first p s a h = rw (← h) (take-append p s)

drop_both :
    (p r z : List ℕ) (a b : ℕ) → length p ≡ a → length r ≡ b → drop (a + b) (p ++ (r ++ z)) ≡ z
drop_both p r z a b ha hb =
    rw (← ha, ← hb, ← length-append p r, ← append_assoc p r z) (drop-append (p ++ r) z)

splice :
    (p r z : List ℕ) (i : List ℕ) (a b : ℕ)
    → length p ≡ a
    → length r ≡ b
    → take a (p ++ (r ++ z)) ++ (i ++ drop (a + b) (p ++ (r ++ z))) ≡ p ++ (i ++ z)
splice p r z i a b ha hb = rw (take_first p (r ++ z) a ha, drop_both p r z a b ha hb)

flatten_parts :
    (p r z : List SemanticToken) → flatten (p ++ (r ++ z)) ≡ flatten p ++ (flatten r ++ flatten z)
flatten_parts p r z = rw (flatten-append p (r ++ z), flatten-append r z)

apply-edit_between :
    (old new : List SemanticToken)
    → length old * 5 < 2 ^ 32
    → apply_edits (edit_between (same_count old new) old new) (flatten old) ≡ flatten new
apply-edit_between old new small =
    let q = parts old new in
    let sizes = length_parts q.shared q.removed q.behind old q.old_parts in
    let a : u32 (length q.shared * 5) ≡ length q.shared * 5 = mod-eq_of_lt (omega arith) in
    let b : u32 (length q.removed * 5) ≡ length q.removed * 5 = mod-eq_of_lt (omega arith) in
    let f : flatten old ≡ flatten q.shared ++ (flatten q.removed ++ flatten q.behind) =
      ap flatten q.old_parts ∙ flatten_parts q.shared q.removed q.behind in
    let g : flatten new ≡ flatten q.shared ++ (flatten q.inserted ++ flatten q.behind) =
      ap flatten q.new_parts ∙ flatten_parts q.shared q.inserted q.behind in
    ap (λ es. apply_edits es (flatten old)) q.the_edit
    ∙ rw (f, g, a, b, edit_data-flatten q.inserted)
        (splice (flatten q.shared) (flatten q.removed) (flatten q.behind) (flatten q.inserted) _ _
          (length-flatten q.shared) (length-flatten q.removed))
  where
    length_parts :
        (p r z old : List SemanticToken)
        → old ≡ p ++ (r ++ z)
        → length old ≡ length p + length r + length z
    length_parts p r z old e =
        omega (arith, ap length e, length-append p (r ++ z), length-append r z)

same_whole :
    (old new : List SemanticToken)
    → same_count old new ≡ length old
    → same_count old new ≡ length new
    → old ≡ new
same_whole old new a b =
    sym (take_whole old)
    ∙ ap (λ (n : ℕ). take n old) (sym a)
    ∙ take-same_count old new
    ∙ ap (λ (n : ℕ). take n new) b
    ∙ take_whole new

-- A client that holds the old answer, of fewer than 2^32 numbers, and applies the edit holds the
-- new answer.
pub apply_edits-compute_token_delta :
    (old new : List SemanticToken)
    → length old * 5 < 2 ^ 32
    → apply_edits (compute_token_delta old new) (flatten old) ≡ flatten new
unfolding compute_token_delta
apply_edits-compute_token_delta old new small =
    elim (Bool-cases (same_count old new == length old && same_count old new == length new)) [
      | inl e ↦ rw e (ap flatten (same_whole old new (ground arith) (ground arith)))
      | inr e ↦ rw e (apply-edit_between old new small)
    ]
