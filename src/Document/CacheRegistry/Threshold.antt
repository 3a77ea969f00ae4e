-- ===== src/Document/CacheRegistry/Threshold.antt =====
-- src/document/cache_registry.rs: the threshold of `shed_stale`, and how many ticks it lets through.
use php_lsp.Prelude.{
  ℕ, zero, suc, ◌≤◌, ◌<◌, ◌≡◌, ◌≢◌, ◌⊎◌, inl, inr, List, [], ◌∷◌, leb, if◌then◌else◌, length, All,
  arith, Bool-cases, refl,
}
use php_lsp.Document.CacheRegistry.{insert_sorted, sort, nth}

-- How many numbers of a list do not exceed a bound.
abbrev pub count_le : ℕ → List ℕ → ℕ
count_le t [] = 0
count_le t (x ∷ l) = let rest = count_le t l in if leb x t then suc rest else rest

count_le-insert : (t x : ℕ) (l : List ℕ) → count_le t (insert_sorted x l) ≡ count_le t (x ∷ l)
count_le-insert t x [] = refl
count_le-insert t x (y ∷ l) = ground (arith, count_le-insert t x l)

pub count_le-sort : (t : ℕ) (l : List ℕ) → count_le t (sort l) ≡ count_le t l
count_le-sort t [] = refl
count_le-sort t (x ∷ l) = ground (arith, count_le-insert t x (sort l), count_le-sort t l)

length-insert_sorted : (x : ℕ) (l : List ℕ) → length (insert_sorted x l) ≡ suc (length l)
length-insert_sorted x [] = refl
length-insert_sorted x (y ∷ l) = ground (arith, length-insert_sorted x l)

pub length-sort : (l : List ℕ) → length (sort l) ≡ length l
length-sort [] = refl
length-sort (x ∷ l) = ground (arith, length-insert_sorted x (sort l), length-sort l)

-- In ascending order from a number on.
abbrev Ascends : ℕ → List ℕ → Type 0
Ascends x [] = Unit
Ascends x (y ∷ l) = (x ≤ y) × Ascends y l

Ascends-insert : (b x : ℕ) (l : List ℕ) → b ≤ x → Ascends b l → Ascends b (insert_sorted x l)
Ascends-insert b x [] h s = (h, tt)
Ascends-insert b x (y ∷ l) h s = elim (Bool-cases (leb x y)) [
  | inl e ↦ rw (insert_sorted, e) (h, (ground arith, s.1))
  | inr e ↦ rw (insert_sorted, e) (s.0, Ascends-insert y x l (ground arith) s.1)
]

sort-Ascends : (l : List ℕ) → Ascends 0 (sort l)
sort-Ascends [] = tt
sort-Ascends (x ∷ l) = Ascends-insert 0 x (sort l) (omega arith) (sort-Ascends l)

nth-le : (b : ℕ) (l : List ℕ) (i : ℕ) → Ascends b l → i < length l → b ≤ nth l i
nth-le b [] i s h = absurd (omega arith)
nth-le b (x ∷ l) zero s h = s.0
nth-le b (x ∷ l) (suc i) s h = omega (arith, nth-le x l i s.1 (omega arith))

count_le-nth :
    (b : ℕ) (l : List ℕ) (i : ℕ) → Ascends b l → i < length l → suc i ≤ count_le (nth l i) l
count_le-nth b [] i s h = absurd (omega arith)
count_le-nth b (x ∷ l) zero s h = ground arith
count_le-nth b (x ∷ l) (suc i) s h = ground (arith, count_le-nth x l i s.1, nth-le x l i s.1)

-- At least as many numbers pass as the place of the threshold says.
pub count_le-threshold : (l : List ℕ) (i : ℕ) → i < length l → suc i ≤ count_le (nth (sort l) i) l
count_le-threshold l i h = omega (
  arith,
  count_le-nth 0 (sort l) i (sort-Ascends l) (omega (arith, length-sort l)),
  count_le-sort (nth (sort l) i) l,
)

-- Two ticks differ, or are both the default of an entry that was never touched.
abbrev pub Differs : ℕ → ℕ → Type 0
Differs x y = (x ≢ y) ⊎ (x ≡ 0)

abbrev pub Unique : List ℕ → Type 0
Unique [] = Unit
Unique (x ∷ l) = All (Differs x) l × Unique l

abbrev Above : ℕ → ℕ → Type 0
Above x y = (x < y) ⊎ ((x ≡ 0) × (y ≡ 0))

abbrev Climbs : List ℕ → Type 0
Climbs [] = Unit
Climbs (x ∷ l) = All (Above x) l × Climbs l

All-insert : (P : ℕ → Type 0) (x : ℕ) (l : List ℕ) → P x → All P l → All P (insert_sorted x l)
All-insert P x [] h s = (h, tt)
All-insert P x (y ∷ l) h s = elim (Bool-cases (leb x y)) [
  | inl e ↦ rw (insert_sorted, e) (h, s)
  | inr e ↦ rw (insert_sorted, e) (s.0, All-insert P x l h s.1)
]

All-sort : (P : ℕ → Type 0) (l : List ℕ) → All P l → All P (sort l)
All-sort P [] s = tt
All-sort P (x ∷ l) s = All-insert P x (sort l) s.0 (All-sort P l s.1)

Above-All :
    (x y : ℕ) (l : List ℕ)
    → x ≤ y
    → Differs x y
    → All (Above y) l
    → All (Differs x) l
    → All (Above x) l
Above-All x y [] h d a s = tt
Above-All x y (z ∷ l) h d a s = (ground arith, Above-All x y l h d a.1 s.1)

Climbs-insert : (x : ℕ) (l : List ℕ) → All (Differs x) l → Climbs l → Climbs (insert_sorted x l)
Climbs-insert x [] d s = (tt, tt)
Climbs-insert x (y ∷ l) d s = elim (Bool-cases (leb x y)) [
  | inl e ↦ rw (insert_sorted, e) ((ground arith, Above-All x y l (ground arith) d.0 s.0 d.1), s)
  | inr e ↦
      rw (insert_sorted, e) (All-insert (Above y) x l (ground arith) s.0, Climbs-insert x l d.1 s.1)
]

sort-Climbs : (l : List ℕ) → Unique l → Climbs (sort l)
sort-Climbs [] u = tt
sort-Climbs (x ∷ l) u = Climbs-insert x (sort l) (All-sort (Differs x) l u.0) (sort-Climbs l u.1)

count_le-Above : (x : ℕ) (l : List ℕ) → 0 < x → All (Above x) l → count_le x l ≡ 0
count_le-Above x [] h s = refl
count_le-Above x (y ∷ l) h s = ground (arith, count_le-Above x l h s.1)

All-nth : (P : ℕ → Type 0) (l : List ℕ) (i : ℕ) → All P l → i < length l → P (nth l i)
All-nth P [] i s h = absurd (omega arith)
All-nth P (x ∷ l) zero s h = s.0
All-nth P (x ∷ l) (suc i) s h = All-nth P l i s.1 (omega arith)

count_le_exact :
    (l : List ℕ) (i : ℕ) → Climbs l → i < length l → 0 < nth l i → count_le (nth l i) l ≡ suc i
count_le_exact [] i s h p = absurd (omega arith)
count_le_exact (x ∷ l) zero s h p = ground (arith, count_le-Above x l p s.0)
count_le_exact (x ∷ l) (suc i) s h p =
    ground (arith, count_le_exact l i s.1, All-nth (Above x) l i s.0)

-- If the ticks are unique, and the threshold is the tick of a touched entry, no more pass.
pub count_le-threshold_exact :
    (l : List ℕ) (i : ℕ)
    → Unique l
    → i < length l
    → 0 < nth (sort l) i
    → count_le (nth (sort l) i) l ≡ suc i
count_le-threshold_exact l i u h p = omega (
  arith,
  count_le_exact (sort l) i (sort-Climbs l u) (omega (arith, length-sort l)) p,
  count_le-sort (nth (sort l) i) l,
)
