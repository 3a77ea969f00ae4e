-- ===== src/Lang/Versions/Clamp.antt =====
-- src/lang/autoload.rs: `clamp_php_version` goes to the nearest supported version.
use php_lsp.Prelude.{
  ℕ, ◌≡◌, List, [], ◌∷◌, arith, All, Bool-cases, inl, inr, true, false, any, subst,
}
use php_lsp.Prelude.Chars.{Text}
use php_lsp.Prelude.Strs.{text_eq, text_eq_iff}
use php_lsp.Lang.Versions.{
  supported_php_versions, is_valid_php_version, pair_leb, version_pair, major_minor, find_by,
  clamp_pair, clamp_php_version, pair_or,
}

-- The numbers of a version of the table.
abbrev pub numbers : Text → ℕ × ℕ
numbers s = pair_or (0, 0) (version_pair s)

find_by_eq :
    (l : List Text) (d v : Text)
    → any (λ s. text_eq s v) l ≡ true
    → pair_or d (find_by (λ s. text_eq s v) l) ≡ v
find_by_eq [] d v h = ground arith
find_by_eq (s ∷ l) d v h = ground (arith, text_eq_iff s v, find_by_eq l d v)

clamp_valid : (v : Text) → is_valid_php_version v ≡ true → clamp_php_version v ≡ v
unfolding clamp_php_version is_valid_php_version
clamp_valid v h = rw h (find_by_eq supported_php_versions _ v h)

clamp_unknown :
    (v : Text) → is_valid_php_version v ≡ false → clamp_php_version v ≡ clamp_pair (major_minor v)
unfolding clamp_php_version
clamp_unknown v h = rw h

-- A property of the table holds for every supported version.
pub All-any :
    (P : Text → Type 0) (l : List Text) (v : Text) → All P l → any (λ s. text_eq s v) l ≡ true → P v
All-any P [] v h e = absurd (ground arith)
All-any P (s ∷ l) v h e = elim (Bool-cases (text_eq s v)) [
  | inl hit ↦ subst P ((text_eq_iff s v).0 hit) h.0
  | inr miss ↦ All-any P l v h.1 (ground arith)
]

pub All-valid :
    (P : Text → Type 0) (v : Text)
    → All P supported_php_versions
    → is_valid_php_version v ≡ true
    → P v
unfolding is_valid_php_version
All-valid P v h e = All-any P supported_php_versions v h e

clamp_pair-valid : (v : ℕ × ℕ) → is_valid_php_version (clamp_pair v) ≡ true
unfolding is_valid_php_version clamp_pair text_eq
clamp_pair-valid (a, b) = ground arith

-- The result of `clamp_pair` against one version of the table.
abbrev IsHighest : ℕ × ℕ → Text → Text → Type 0
IsHighest v r s =
    pair_leb (numbers s) v ≡ true
    → (pair_leb (numbers s) (numbers r) ≡ true) × (pair_leb (numbers r) v ≡ true)

clamp_pair-IsHighest : (v : ℕ × ℕ) → All (IsHighest v (clamp_pair v)) supported_php_versions
unfolding clamp_pair version_pair
clamp_pair-IsHighest (a, b) = ground arith

numbers_table : All (λ s. major_minor s ≡ numbers s) supported_php_versions
unfolding major_minor version_pair
numbers_table = ground arith

pub pair_leb_refl : (v : ℕ × ℕ) → pair_leb v v ≡ true
pair_leb_refl (a, b) = ground arith

-- For a version at or above a supported one, `clamp_php_version` gives a supported version that is
-- at least that one and not above the version.
pub clamp_php_version-highest :
    (v s : Text)
    → is_valid_php_version s ≡ true
    → pair_leb (numbers s) (major_minor v) ≡ true
    → (is_valid_php_version (clamp_php_version v) ≡ true)
      × (pair_leb (numbers s) (numbers (clamp_php_version v)) ≡ true)
      × (pair_leb (numbers (clamp_php_version v)) (major_minor v) ≡ true)
clamp_php_version-highest v s valid le = elim (Bool-cases (is_valid_php_version v)) [
  | inl known ↦
      let same : major_minor v ≡ numbers v =
        All-valid (λ t. major_minor t ≡ numbers t) v numbers_table known in
      rw (clamp_valid v known) (known, rw same at le, rw same (pair_leb_refl (numbers v)))
  | inr unknown ↦ rw (clamp_unknown v unknown) (
    clamp_pair-valid (major_minor v),
    (All-valid (IsHighest (major_minor v) (clamp_pair (major_minor v))) s
        (clamp_pair-IsHighest (major_minor v)) valid le).0,
    (All-valid (IsHighest (major_minor v) (clamp_pair (major_minor v))) s
        (clamp_pair-IsHighest (major_minor v)) valid le).1,
  )
]

pub clamp_php_version-valid : (v : Text) → is_valid_php_version (clamp_php_version v) ≡ true
clamp_php_version-valid v = elim (Bool-cases (is_valid_php_version v)) [
  | inl known ↦ rw (clamp_valid v known) known
  | inr unknown ↦ rw (clamp_unknown v unknown) (clamp_pair-valid (major_minor v))
]
