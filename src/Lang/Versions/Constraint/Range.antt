-- ===== src/Lang/Versions/Constraint/Range.antt =====
-- src/lang/autoload.rs: a constraint with an upper bound gives the highest version in its range.
use php_lsp.Prelude.{
  ℕ, ◌≡◌, refl, List, [], ◌∷◌, arith, All, Bool-cases, Option-cases, inl, inr, true, any, subst,
  none, some, reverse, Option, ap, ◌∙◌, ◌↔◌, ◌⊎◌, ◌≤◌, ◌<◌,
}
use php_lsp.Prelude.Chars.{Text}
use php_lsp.Prelude.Map.{is_some}
use php_lsp.Prelude.Strs.{text_eq, text_eq_iff}
use php_lsp.Lang.Versions.{supported_php_versions, is_valid_php_version, pair_leb, version_pair}
use php_lsp.Lang.Versions.Clamp.{numbers, All-any, All-valid, pair_leb_refl}
use php_lsp.Lang.Versions.Constraint.{
  Version, Bounds, UpperBound, inclusive, exclusive, below_upper, find_map, in_bounds, highest_in,
  version_within, floor_of,
}

-- A version is in the table, the versions of which a list goes through in falling order.
abbrev IsIn : List Text → Text → Type 0
IsIn l s = any (λ t. text_eq t s) l ≡ true

abbrev Falling : List Text → Type 0
Falling [] = Unit
Falling (x ∷ l) = All (λ y. pair_leb (numbers y) (numbers x) ≡ true) l × Falling l

-- What `find_map` finds, where it would find something for `s`.
record Finds (f : Text → Option Version) (l : List Text) (s : Text) : Type 0 where
  found : Text
  value : Version
  is_in : IsIn l found
  at_found : f found ≡ some value
  first : find_map f l ≡ some value
  above : pair_leb (numbers s) (numbers found) ≡ true

IsIn-cons : (x s : Text) (l : List Text) → IsIn l s → IsIn (x ∷ l) s
IsIn-cons x s l h = ground arith

le_head :
    (x s : Text) (l : List Text)
    → Falling (x ∷ l)
    → IsIn (x ∷ l) s
    → pair_leb (numbers s) (numbers x) ≡ true
le_head x s l h m = elim (Bool-cases (text_eq x s)) [
  | inl same ↦
      subst (λ t. pair_leb (numbers t) (numbers x) ≡ true) ((text_eq_iff x s).0 same)
        (pair_leb_refl (numbers x))
  | inr other ↦ All-any (λ y. pair_leb (numbers y) (numbers x) ≡ true) l s h.0 (ground arith)
]

find_map-Finds :
    (f : Text → Option Version) (l : List Text) (s : Text) {w : Version}
    → Falling l
    → IsIn l s
    → f s ≡ some w
    → Finds f l s
find_map-Finds f [] s h m e = absurd (ground arith)
find_map-Finds f (x ∷ l) s h m e = elim (Option-cases (f x)) [
  | inr (v, hit) ↦ record {
    found = x;
    value = v;
    is_in = ground (arith, text_eq_iff x x);
    at_found = hit;
    first = ground arith;
    above = le_head x s l h m;
  }
  | inl miss ↦
      let rest : Finds f l s = find_map-Finds f l s h.1 (tail_in miss) e in
      record {
        found = rest.found;
        value = rest.value;
        is_in = IsIn-cons x rest.found l rest.is_in;
        at_found = rest.at_found;
        first = ground (arith, rest.first);
        above = rest.above;
      }
]
  where
    tail_in : f x ≡ none → IsIn l s
    tail_in miss = elim (Bool-cases (text_eq x s)) [
      | inl same ↦ absurd (cc (ap_f ((text_eq_iff x s).0 same)))
      | inr other ↦ ground arith
    ]
      where
        ap_f : x ≡ s → f x ≡ f s
        ap_f p = λ i. f (p i)

in_bounds_sound :
    (upper : UpperBound) (floor : ℕ × ℕ) (u : Text) {v : Version}
    → in_bounds upper floor u ≡ some v
    → (v ≡ ((numbers u).0, (numbers u).1, u))
      × (below_upper upper (numbers u) ≡ true)
      × (pair_leb floor (numbers u) ≡ true)
unfolding in_bounds
in_bounds_sound upper floor u h = elim (Option-cases (version_pair u)) [
  | inl e ↦ ground arith
  | inr (p, e) ↦ ground arith
]

in_bounds_complete :
    (upper : UpperBound) (floor : ℕ × ℕ) (s : Text)
    → is_some (version_pair s) ≡ true
    → below_upper upper (numbers s) ≡ true
    → pair_leb floor (numbers s) ≡ true
    → in_bounds upper floor s ≡ some ((numbers s).0, (numbers s).1, s)
unfolding in_bounds
in_bounds_complete upper floor s p below above = elim (Option-cases (version_pair s)) [
  | inl e ↦ ground arith
  | inr (p, e) ↦ ground arith
]

table_falls : Falling (reverse supported_php_versions)
unfolding version_pair
table_falls = ground arith

table_parses : All (λ s. is_some (version_pair s) ≡ true) supported_php_versions
unfolding version_pair
table_parses = ground arith

IsIn-reverse : (s : Text) → is_valid_php_version s ≡ true → IsIn (reverse supported_php_versions) s
unfolding is_valid_php_version
IsIn-reverse s h = ground arith

IsIn-table : (s : Text) → IsIn (reverse supported_php_versions) s → is_valid_php_version s ≡ true
unfolding is_valid_php_version
IsIn-table s h = ground arith

-- The order of versions, by the first number and then by the second.
abbrev pub AtMost : ℕ × ℕ → ℕ × ℕ → Type 0
AtMost (a, b) (c, d) = (a < c) ⊎ ((a ≡ c) × (b ≤ d))

-- A version of two numbers, with the patch 0, is at most the bound, or comes before its three numbers.
abbrev pub IsWithin : UpperBound → ℕ × ℕ → Type 0
IsWithin (inclusive c d) (a, b) = (a < c) ⊎ ((a ≡ c) × (b ≤ d))
IsWithin (exclusive c d patch) (a, b) = (a < c) ⊎ ((a ≡ c) × ((b < d) ⊎ ((b ≡ d) × (0 < patch))))

-- A version is at least the lower bound, if there is one.
abbrev pub IsFrom : Option Version → ℕ × ℕ → Type 0
IsFrom none v = Unit
IsFrom (some (maj, min, text)) v = AtMost (maj, min) v

pair_leb-AtMost : (v w : ℕ × ℕ) → (pair_leb v w ≡ true) ↔ AtMost v w
pair_leb-AtMost (a, b) (c, d) = (λ h. ground arith, λ h. ground arith)

below_upper-IsWithin :
    (upper : UpperBound) (v : ℕ × ℕ) → (below_upper upper v ≡ true) ↔ IsWithin upper v
below_upper-IsWithin (inclusive c d) (a, b) = (λ h. ground arith, λ h. ground arith)
below_upper-IsWithin (exclusive c d patch) (a, b) = (λ h. ground arith, λ h. ground arith)

floor_of-IsFrom :
    (lower : Option Version) (v : ℕ × ℕ) → (pair_leb (floor_of lower) v ≡ true) ↔ IsFrom lower v
floor_of-IsFrom none (a, b) = (λ h. tt, λ h. ground arith)
floor_of-IsFrom (some (maj, min, text)) v = pair_leb-AtMost (maj, min) v

-- A version that is highest in a range, with the text of its numbers.
pub record IsHighestIn (upper : UpperBound) (lower : Option Version) (s : Text) (v : Version)
    : Type 0 where
  pub valid : is_valid_php_version v.2 ≡ true
  pub read : numbers v.2 ≡ (v.0, v.1)
  pub below : IsWithin upper (v.0, v.1)
  pub above : IsFrom lower (v.0, v.1)
  pub highest : AtMost (numbers s) (v.0, v.1)

Finds-IsHighestIn :
    (upper : UpperBound) (lower : Option Version) (s : Text)
    → (r : Finds (in_bounds upper (floor_of lower)) (reverse supported_php_versions) s)
    → IsHighestIn upper lower s ((numbers r.found).0, (numbers r.found).1, r.found)
Finds-IsHighestIn upper lower s r = record {
  valid = IsIn-table r.found r.is_in;
  read = refl;
  below =
      (below_upper-IsWithin upper (numbers r.found)).0
        (in_bounds_sound upper (floor_of lower) r.found r.at_found).1;
  above =
      (floor_of-IsFrom lower (numbers r.found)).0
        (in_bounds_sound upper (floor_of lower) r.found r.at_found).2;
  highest = (pair_leb-AtMost (numbers s) (numbers r.found)).0 r.above;
}

Finds-value :
    (upper : UpperBound) (floor : ℕ × ℕ) (s : Text)
    → (r : Finds (in_bounds upper floor) (reverse supported_php_versions) s)
    → highest_in upper floor ≡ some ((numbers r.found).0, (numbers r.found).1, r.found)
unfolding highest_in
Finds-value upper floor s r = r.first ∙ ap some (in_bounds_sound upper floor r.found r.at_found).0

-- The range holds a supported version: then the highest one is found.
Finds-in_range :
    (upper : UpperBound) (floor : ℕ × ℕ) (s : Text)
    → is_valid_php_version s ≡ true
    → below_upper upper (numbers s) ≡ true
    → pair_leb floor (numbers s) ≡ true
    → Finds (in_bounds upper floor) (reverse supported_php_versions) s
Finds-in_range upper floor s valid below above =
    find_map-Finds (in_bounds upper floor) (reverse supported_php_versions) s table_falls
      (IsIn-reverse s valid)
      (in_bounds_complete upper floor s
        (All-valid (λ t. is_some (version_pair t) ≡ true) s table_parses valid) below above)

-- Where a clause of a constraint has an upper bound and a supported version lies between its
-- bounds, the version of the clause is a supported one between the bounds, and at least that one.
-- An inclusive upper bound is compared by the first two numbers alone, an exclusive one lies above
-- the version with patch 0.
pub version_within-IsHighestIn :
    (b : Bounds) (upper : UpperBound) (s : Text)
    → b.upper ≡ some upper
    → is_valid_php_version s ≡ true
    → IsWithin upper (numbers s)
    → IsFrom b.lower (numbers s)
    → (v : Version) × (version_within b ≡ some v) × IsHighestIn upper b.lower s v
unfolding version_within
version_within-IsHighestIn b upper s e valid below above = (
  ((numbers r.found).0, (numbers r.found).1, r.found),
  (rw e (ground (arith, Finds-value upper (floor_of b.lower) s r))),
  Finds-IsHighestIn upper b.lower s r,
)
  where
    r : Finds (in_bounds upper (floor_of b.lower)) (reverse supported_php_versions) s
    r =
        Finds-in_range upper (floor_of b.lower) s valid
          ((below_upper-IsWithin upper (numbers s)).1 below)
          ((floor_of-IsFrom b.lower (numbers s)).1 above)
