-- ===== src/Lang/Versions.antt =====
-- src/lang/autoload.rs: the versions of PHP, from `SUPPORTED_PHP_VERSIONS` to the constraints of
-- composer.json. What is read from files and what `php --version` says are arguments.
pub mod Clamp
pub mod Constraint
pub mod Resolve
mod Tests
use php_lsp.Prelude.{
  ℕ, ◌+◌, Option, none, some, Bool, true, false, ◌&&◌, ◌||◌, not, List, [], ◌∷◌, ◌++◌, ltb, ◌==◌,
  if◌then◌else◌, any,
}
use php_lsp.Prelude.Chars.{Text, codes}
use php_lsp.Prelude.Strs.{text_eq, split_by, split_once, parse_u32}

abbrev pub php_7_4 : Text
php_7_4 = codes "7.4"

abbrev pub php_8_5 : Text
php_8_5 = codes "8.5"

abbrev pub php_8_6 : Text
php_8_6 = codes "8.6"

abbrev pub supported_php_versions : List Text
supported_php_versions =
    php_7_4
    ∷ codes "8.0"
    ∷ codes "8.1"
    ∷ codes "8.2"
    ∷ codes "8.3"
    ∷ codes "8.4"
    ∷ php_8_5
    ∷ php_8_6
    ∷ []

unfoldable pub is_valid_php_version : Text → Bool
is_valid_php_version v = any (λ s. text_eq s v) supported_php_versions

-- `<` on pairs
abbrev pub pair_ltb : ℕ × ℕ → ℕ × ℕ → Bool
pair_ltb (a, b) (c, d) = ltb a c || (a == c && ltb b d)

abbrev pub pair_leb : ℕ × ℕ → ℕ × ℕ → Bool
pair_leb v w = not (pair_ltb w v)

abbrev pub both : Option ℕ → Option ℕ → Option (ℕ × ℕ)
both none b = none
both (some a) none = none
both (some a) (some b) = some (a, b)

-- `s.split_once('.').and_then(…)`
unfoldable pub version_pair : Text → Option (ℕ × ℕ)
unfolding parse_u32 split_once
version_pair s = elim (split_once (codes ".") s) [
  | none ↦ none
  | some (a, b) ↦ both (parse_u32 a) (parse_u32 b)
]

abbrev pub pair_or {ℓ} : {A : Type ℓ} → A → Option A → A
pair_or default none = default
pair_or default (some v) = v

abbrev pub first_part : List Text → Text → Text
first_part [] s = s
first_part (part ∷ parts) s = part

-- The major and the minor number that `clamp_php_version` reads.
unfoldable pub major_minor : Text → ℕ × ℕ
unfolding split_once split_by parse_u32
major_minor v = elim (split_once (codes ".") v) [
  | some (maj, min) ↦ (
    pair_or 0 (parse_u32 maj),
    pair_or 0 (parse_u32 (first_part (split_by (λ c. c == b'.') min) min)),
  )
  | none ↦ (pair_or 0 (parse_u32 v), 0)
]

-- `find` and `rfind`
abbrev pub find_by {ℓ} : {A : Type ℓ} → (A → Bool) → List A → Option A
find_by test [] = none
find_by test (s ∷ l) = let later = find_by test l in if test s then some s else later

abbrev pub rfind_by {ℓ} : {A : Type ℓ} → (A → Bool) → List A → Option A
rfind_by test [] = none
rfind_by test (s ∷ l) = elim (rfind_by test l) [
  | some later ↦ some later
  | none ↦ if test s then some s else none
]

abbrev pub lowest : ℕ × ℕ
unfolding version_pair
lowest = pair_or (7, 4) (version_pair php_7_4)

abbrev pub highest : ℕ × ℕ
unfolding version_pair
highest = pair_or (8, 6) (version_pair php_8_6)

abbrev pub not_above : ℕ × ℕ → Text → Bool
unfolding version_pair
not_above v s = pair_leb (pair_or (0, 0) (version_pair s)) v

-- What becomes of a version that is not in the table.
unfoldable pub clamp_pair : ℕ × ℕ → Text
unfolding lowest highest not_above
clamp_pair v =
    if pair_ltb v lowest
    then php_7_4
    else if pair_ltb highest v
    then php_8_6
    else pair_or php_7_4 (rfind_by (not_above v) supported_php_versions)

unfoldable pub clamp_php_version : Text → Text
unfolding is_valid_php_version major_minor clamp_pair
clamp_php_version v =
    if is_valid_php_version v
    then pair_or php_8_5 (find_by (λ s. text_eq s v) supported_php_versions)
    else clamp_pair (major_minor v)
