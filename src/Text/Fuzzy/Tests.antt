-- ===== src/Text/Fuzzy/Tests.antt =====
-- src/text/fuzzy.rs: matching over the letters of ASCII.
use php_lsp.Prelude.{ℕ, ◌+◌, ◌≡◌, refl, Bool, true, false, ◌&&◌, [], ◌∷◌, leb, if◌then◌else◌}
use php_lsp.Prelude.Chars.{Text, codes}
use php_lsp.Text.Fuzzy.{
  CharTables, FuzzyQuery, new, camel_match, symbol_match, starts_with_at, camel_abbrev, starts_loop,
}
use php_lsp.Text.Fuzzy.Abbreviation.{HasPrefix, starts_loop-HasPrefix}

abbrev upper : ℕ → Bool
upper c = leb b'A' c && leb c b'Z'

abbrev lower_char : ℕ → ℕ
lower_char c = if upper c then c + 32 else c

abbrev lower_text : Text → Text
lower_text [] = []
lower_text (c ∷ s) = lower_char c ∷ lower_text s

abbrev ascii : CharTables
ascii = record {
  to_lowercase = λ c. lower_char c ∷ [];
  is_uppercase = upper;
  is_lowercase = λ c. leb b'a' c && leb c b'z';
  str_to_lowercase = lower_text;
}

initials_match : camel_match ascii (new ascii (codes "GRF")) (codes "getRecentFiles") ≡ true
unfolding camel_match new starts_with_at camel_abbrev
initials_match = refl

inside_matches : symbol_match ascii (new ascii (codes "Cont")) (codes "BlogController") ≡ true
unfolding symbol_match camel_match new starts_with_at camel_abbrev
inside_matches = refl

abbrev query : FuzzyQuery
query = record { lower = codes "gr" }

goes_on : HasPrefix (ascii.str_to_lowercase (codes "Gr")) (ascii.str_to_lowercase (codes "Group"))
goes_on = (codes "oup", refl)

no_true : false ≡ true → ⊥
no_true h = cc

does_not : ¬ HasPrefix (ascii.str_to_lowercase (codes "Gr")) (ascii.str_to_lowercase (codes "Age"))
unfolding starts_loop
does_not p = no_true ((starts_loop-HasPrefix (codes "gr") (codes "age")).1 p)
