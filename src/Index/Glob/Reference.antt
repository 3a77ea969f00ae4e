-- ===== src/Index/Glob/Reference.antt =====
-- What a segment pattern means: `?` stands for one character, `*` for any number of them.
use php_lsp.Prelude.{ℕ, Bool, true, false, ◌&&◌, ◌||◌, List, [], ◌∷◌, ◌==◌, if◌then◌else◌}
use php_lsp.Prelude.Chars.{Text}
use php_lsp.Index.Glob.{star, question}

module _ {ℓ} {A : Type ℓ} where
  -- Some part of the list, from a place to its end, passes the test.
  abbrev pub any_suffix : (List A → Bool) → List A → Bool
  any_suffix q [] = q []
  any_suffix q (x ∷ xs) = q (x ∷ xs) || any_suffix q xs

  abbrev pub any_tail : (List A → Bool) → List A → Bool
  any_tail q [] = false
  any_tail q (x ∷ xs) = any_suffix q xs

abbrev head_then : (ℕ → Bool) → (Text → Bool) → Text → Bool
head_then one rest [] = false
head_then one rest (d ∷ n) = one d && rest n

unfoldable pub glob : Text → Text → Bool
glob [] [] = true
glob [] (d ∷ n) = false
glob (c ∷ p) n =
    let rest = glob p in
    if c == star then any_suffix rest n else head_then (λ d. c == question || c == d) rest n
