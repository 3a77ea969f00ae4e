-- ===== src/Text/Fuzzy/Substring.antt =====
-- src/text/fuzzy.rs: what `symbol_match` accepts, and the order of sort keys.
use php_lsp.Prelude.{◌≡◌, inl, inr, true, ◌++◌, arith, Bool-cases}
use php_lsp.Prelude.Chars.{Text}
use php_lsp.Prelude.Strs.{text_ltb}
use php_lsp.Text.Fuzzy.{CharTables, starts_loop, lowered, camel_sort_key}
use php_lsp.Text.Fuzzy.Abbreviation.{HasPrefix, starts_loop-HasPrefix}

module _ (u : CharTables) where
  -- Some suffix of the candidate goes on from the query, in lowercase.
  abbrev pub Contains : Text → Text → Type 0
  Contains q candidate =
      (before : Text) × (after : Text) × (candidate ≡ before ++ after)
      × HasPrefix q (lowered u after)

  -- The key of a label that goes on from the query comes before the key of one that does not.
  pub camel_sort_key-text_ltb :
      (query label other : Text)
      → HasPrefix (u.str_to_lowercase query) (u.str_to_lowercase label)
      → ¬ HasPrefix (u.str_to_lowercase query) (u.str_to_lowercase other)
      → text_ltb (camel_sort_key u query label) (camel_sort_key u query other) ≡ true
  unfolding camel_sort_key
  camel_sort_key-text_ltb query label other p n =
      let q = u.str_to_lowercase query in
      let ll = u.str_to_lowercase other in
      elim (Bool-cases (starts_loop q ll)) [
        | inl e ↦ absurd (n ((starts_loop-HasPrefix q ll).0 e))
        | inr e ↦ ground (arith, e, (starts_loop-HasPrefix q (u.str_to_lowercase label)).1 p)
      ]
