-- ===== src/Lang/Config/Sane.antt =====
-- src/lang/config.rs: what holds of the settings, whatever the JSON value is.
use php_lsp.Prelude.{
  ℕ, Option, none, some, Bool, true, false, ◌≡◌, ◌≢◌, ◌≤◌, refl, arith, List, [], ◌∷◌, All,
  Bool-cases, inl, inr, ◌==◌, not,
}
use php_lsp.Prelude.Chars.{Text, codes}
use php_lsp.Prelude.Strs.{text_eq, is_empty, trim_start_by}
use php_lsp.Prelude.Json.{Value, Items, object, get, get_member, as_str, as_array, strings_of}
use php_lsp.Lang.Versions.{is_valid_php_version, php_8_5}
use php_lsp.Lang.Config.External.{at_least_one, number_of, external_or}
use php_lsp.Lang.Config.{
  LspConfig, from_value, version_from, without_dots, unless_none, extensions_or,
}

-- No version, or a supported one.
abbrev pub is_supported : Option Text → Bool
is_supported none = true
is_supported (some ver) = is_valid_php_version ver

-- An extension has a character, and does not begin with a dot.
abbrev pub is_plain : Text → Bool
is_plain [] = false
is_plain (c ∷ s) = not (c == b'.')

pub record IsSane (cfg : LspConfig) : Type 0 where
  pub supported : is_supported cfg.php_version ≡ true
  pub debounce : 1 ≤ cfg.debounce_ms
  pub flush : 1 ≤ cfg.flush_interval_ms
  pub timeout : 1 ≤ cfg.external_tools.timeout_ms
  pub extensions : cfg.indexed_extensions ≢ []
  pub plain : All (λ e. is_plain e ≡ true) cfg.indexed_extensions

php_8_5-valid : is_valid_php_version php_8_5 ≡ true
unfolding is_valid_php_version text_eq
php_8_5-valid = refl

version_from-is_supported : (o : Option Text) → is_supported (version_from o) ≡ true
version_from-is_supported none = refl
version_from-is_supported (some ver) = elim (Bool-cases (is_valid_php_version ver)) [
  | inl valid ↦ rw valid valid
  | inr other ↦ rw other php_8_5-valid
]

at_least_one-positive : (default : ℕ) (o : Option ℕ) → 1 ≤ default → 1 ≤ at_least_one default o
at_least_one-positive default none h = h
at_least_one-positive default (some n) h = omega arith

trim_start_by-plain :
    (s : Text)
    → is_empty (trim_start_by (λ c. c == b'.') s) ≡ false
    → is_plain (trim_start_by (λ c. c == b'.') s) ≡ true
unfolding trim_start_by
trim_start_by-plain [] h = ground arith
trim_start_by-plain (c ∷ s) h = ground (arith, trim_start_by-plain s)

without_dots-plain : (l : List Text) → All (λ e. is_plain e ≡ true) (without_dots l)
unfolding without_dots
without_dots-plain [] = tt
without_dots-plain (s ∷ l) = elim (Bool-cases (is_empty (trim_start_by (λ c. c == b'.') s))) [
  | inl empty ↦ rw empty (without_dots-plain l)
  | inr other ↦ rw other (trim_start_by-plain s other, without_dots-plain l)
]

unless_none-plain :
    (l : List Text)
    → All (λ e. is_plain e ≡ true) l
    → (unless_none l ≢ []) × All (λ e. is_plain e ≡ true) (unless_none l)
unless_none-plain [] h = ((λ e. cc e), (refl, tt))
unless_none-plain (e ∷ l) h = ((λ p. cc p), h)

extensions_or-plain :
    (o : Option Items) → (extensions_or o ≢ []) × All (λ e. is_plain e ≡ true) (extensions_or o)
unfolding extensions_or
extensions_or-plain none = ((λ e. cc e), (refl, tt))
extensions_or-plain (some arr) =
    unless_none-plain (without_dots (strings_of arr)) (without_dots-plain (strings_of arr))

module _ (as_u64 : Text → Option ℕ) where
  external_or-positive : (o : Option Value) → 1 ≤ (external_or as_u64 o).timeout_ms
  unfolding external_or
  external_or-positive none = omega arith
  external_or-positive (some (object obj)) =
      at_least_one-positive 120_000 (number_of as_u64 (get_member (codes "timeoutMs") obj))
        (omega arith)
  external_or-positive (some _) = omega arith

  -- Whatever the JSON value is, `from_value` gives a supported version of PHP or none, no delay of
  -- zero, and at least one file extension, each not empty and without a leading dot.
  pub from_value-IsSane : (v : Value) → IsSane (from_value as_u64 v)
  unfolding from_value
  from_value-IsSane v = record {
    supported = version_from-is_supported (as_str (get (codes "phpVersion") v));
    debounce =
        at_least_one-positive 100 (number_of as_u64 (get (codes "debounceMs") v)) (omega arith);
    flush =
        at_least_one-positive 20_000
          (number_of as_u64 (get (codes "analysisCacheFlushIntervalMs") v)) (omega arith);
    timeout = external_or-positive (get (codes "externalTools") v);
    extensions = (extensions_or-plain (as_array (get (codes "indexedExtensions") v))).0;
    plain = (extensions_or-plain (as_array (get (codes "indexedExtensions") v))).1;
  }
