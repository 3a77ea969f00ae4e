-- ===== src/Index/Glob.antt =====
-- src/index/mod.rs: `segment_matches`, the loop with one backtrack point that matches one path
-- segment against `*` and `?`. The indices `pi` and `ni` are the rests of the pattern and the name
-- that they point to; the backtrack point is the pattern behind its star and the name from `star_ni`.
pub mod Reference
pub mod Agrees
pub mod Limits
use php_lsp.Prelude.{
  ℕ, zero, suc, ◌+◌, ◌*◌, Option, none, some, Bool, true, false, ◌&&◌, ◌||◌, not, [], ◌∷◌, any, all,
  ◌==◌, length, if◌then◌else◌,
}
use php_lsp.Prelude.Chars.{Text}
use php_lsp.Prelude.Strs.{text_eq}

abbrev pub star : ℕ
star = b'*'

abbrev pub question : ℕ
question = b'?'

abbrev pub is_wild : ℕ → Bool
is_wild c = c == star || c == question

-- `tail` of the name from the backtrack point: `star_ni + 1`
abbrev pub tail : Text → Text
tail [] = []
tail (c ∷ s) = s

-- `none` means that the fuel ran out.
pub wild_loop : ℕ → Text → Text → Option (Text × Text) → Option Bool
wild_loop zero p n backtrack = none
wild_loop (suc fuel) p [] backtrack = some (all (λ c. c == star) p)
wild_loop (suc fuel) [] (d ∷ n) none = some false
wild_loop (suc fuel) [] (d ∷ n) (some (star_p, star_n)) =
    wild_loop fuel star_p (tail star_n) (some (star_p, tail star_n))
wild_loop (suc fuel) (c ∷ p) (d ∷ n) none =
    let step = wild_loop fuel p n none in
    let mark = wild_loop fuel p (d ∷ n) (some (p, d ∷ n)) in
    if c == question || c == d then step else if c == star then mark else some false
wild_loop (suc fuel) (c ∷ p) (d ∷ n) (some (star_p, star_n)) =
    let step = wild_loop fuel p n (some (star_p, star_n)) in
    let mark = wild_loop fuel p (d ∷ n) (some (p, d ∷ n)) in
    let retry = wild_loop fuel star_p (tail star_n) (some (star_p, tail star_n)) in
    if c == question || c == d then step else if c == star then mark else retry

-- Every round shortens the pattern that is left, or moves the backtrack point on.
abbrev pub wild_fuel : Text → Text → ℕ
wild_fuel p n = (length n + 2) * (length p + 1)

-- Out of fuel, which does not happen, the answer would be `false`.
abbrev pub answer : Option Bool → Bool
answer none = false
answer (some b) = b

unfoldable pub segment_matches : Text → Text → Bool
unfolding wild_loop text_eq
segment_matches pat name =
    if not (any is_wild pat)
    then text_eq pat name
    else answer (wild_loop (wild_fuel pat name) pat name none)
