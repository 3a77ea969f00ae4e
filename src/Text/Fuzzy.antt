-- ===== src/Text/Fuzzy.antt =====
-- src/text/fuzzy.rs: fuzzy matching for completion and workspace symbols. The Unicode tables of the
-- standard library are an argument. A suffix `candidate[at..]` at a character is a suffix of the list.
pub mod Abbreviation
pub mod Substring
mod Tests
use php_lsp.Prelude.{
  ℕ, Option, none, some, Bool, true, false, ◌&&◌, ◌||◌, List, [], ◌∷◌, ◌++◌, ◌==◌, if◌then◌else◌,
}
use php_lsp.Prelude.Chars.{Text}

pub record CharTables : Type 0 where
  pub to_lowercase : ℕ → Text
  pub is_uppercase : ℕ → Bool
  pub is_lowercase : ℕ → Bool
  pub str_to_lowercase : Text → Text

pub record FuzzyQuery : Type 0 where
  pub lower : Text

-- The loop of `starts_with_at`, from the query and the candidate's lowercase characters.
pub starts_loop : Text → Text → Bool
starts_loop [] c = true
starts_loop (qc ∷ q) [] = false
starts_loop (qc ∷ q) (cc ∷ c) = let rest = starts_loop q c in if qc == cc then rest else false

abbrev pub first_is : Text → ℕ → Bool
first_is [] c = false
first_is (d ∷ s) c = d == c

abbrev pub no_chars : Text → Bool
no_chars [] = true
no_chars (c ∷ s) = false

module _ (u : CharTables) where
  unfoldable pub new : Text → FuzzyQuery
  new query = record { lower = u.str_to_lowercase query }

  -- `flat_map(char::to_lowercase)`
  abbrev pub lowered : Text → Text
  lowered [] = []
  lowered (c ∷ s) = u.to_lowercase c ++ lowered s

  unfoldable pub starts_with_at : Text → Text → Bool
  unfolding starts_loop
  starts_with_at query_lower rest = starts_loop query_lower (lowered rest)

  -- `is_boundary`, after the character before, if there is one
  abbrev pub boundary : Option ℕ → ℕ → Bool
  boundary none cc = true
  boundary (some p) cc = p == b'_' || p == b'$' || (u.is_uppercase cc && u.is_lowercase p)

  -- The loop of `camel_abbrev`: the query that is left, `prev`, and the candidate that is left.
  abbrev_loop : Text → Option ℕ → Text → Bool
  abbrev_loop [] prev candidate = true
  abbrev_loop (qc ∷ query) prev [] = false
  abbrev_loop (qc ∷ query) prev (cc ∷ candidate) =
      let hit = abbrev_loop query (some cc) candidate in
      let miss = abbrev_loop (qc ∷ query) (some cc) candidate in
      if boundary prev cc && first_is (u.to_lowercase cc) qc then hit else miss

  unfoldable pub camel_abbrev : FuzzyQuery → Text → Bool
  unfolding abbrev_loop
  camel_abbrev query candidate = abbrev_loop query.lower none candidate

  unfoldable pub camel_match : FuzzyQuery → Text → Bool
  unfolding starts_with_at camel_abbrev
  camel_match query candidate =
      if no_chars query.lower
      then true
      else if starts_with_at query.lower candidate
      then true
      else camel_abbrev query candidate

  -- `char_indices().any(…)`
  abbrev pub starts_anywhere : Text → Text → Bool
  starts_anywhere query_lower [] = false
  starts_anywhere query_lower (c ∷ rest) =
      starts_with_at query_lower (c ∷ rest) || starts_anywhere query_lower rest

  unfoldable pub symbol_match : FuzzyQuery → Text → Bool
  unfolding camel_match starts_with_at
  symbol_match query candidate =
      if camel_match query candidate then true else starts_anywhere query.lower candidate

  unfoldable pub camel_sort_key : Text → Text → Text
  unfolding starts_loop
  camel_sort_key query label =
      let ll = u.str_to_lowercase label in
      if starts_loop (u.str_to_lowercase query) ll then b'0' ∷ ll else b'1' ∷ ll
