-- ===== src/Prelude/Chars.antt =====
-- Texts as the lists of their Unicode scalar values, with the sizes that Rust's `char` gives them in
-- UTF-8 and in UTF-16. A byte offset into a `str` is a sum of UTF-8 sizes; a slice at an offset that
-- is not such a sum panics, which is `none` here.
use Prim.Native.Char.{code}
use php_lsp.Prelude.Tests.{ltb, ◌==◌, if◌then◌else◌, Bool-cases, Option-cases}
use php_lsp.Prelude.Lists.{All}
use Prim.Native.Nat.{ℕ, ◌+◌, ◌-◌, ◌≤◌}
use Prim.Native.String.{String}
use mathlib.Core.Path.{◌≡◌, refl}
use mathlib.Core.Logic.{◌≢◌, inl, inr}
use mathlib.Core.List.{List, [], ◌∷◌, ◌++◌, append-nil}
use mathlib.Core.Option.{Option, none, some}
use native.Mathlib.Omega.{arith}

-- A `str`.
abbrev pub Text : Type 0
Text = List ℕ

-- The scalar values of a literal.
abbrev pub codes : String → Text
codes String.[] = []
codes (String.◌∷◌ c s) = code c ∷ codes s

-- `char::len_utf8` and `char::len_utf16`
unfoldable pub len_utf8 : ℕ → ℕ
len_utf8 c = if ltb c 0x80 then 1 else if ltb c 0x800 then 2 else if ltb c 0x1_0000 then 3 else 4

unfoldable pub len_utf16 : ℕ → ℕ
len_utf16 c = if ltb c 0x1_0000 then 1 else 2

-- `str::len`
abbrev pub byte_len : Text → ℕ
byte_len [] = 0
byte_len (c ∷ s) = len_utf8 c + byte_len s

-- The UTF-16 code units of a text.
abbrev pub units : Text → ℕ
units [] = 0
units (c ∷ s) = len_utf16 c + units s

-- `(&s[..n], &s[n..])`
unfoldable pub split_at : Text → ℕ → Option (Text × Text)
split_at [] n = if n == 0 then some ([], []) else none
split_at (c ∷ s) n =
    let rest = split_at s (n - len_utf8 c) in
    if n == 0
    then some ([], c ∷ s)
    else if ltb n (len_utf8 c)
    then none
    else elim rest [ none ↦ none | some (l, r) ↦ some (c ∷ l, r) ]

-- `&s[n..]` and `&s[..n]`
abbrev pub slice_from : Text → ℕ → Option Text
slice_from s n = elim (split_at s n) [ none ↦ none | some (l, r) ↦ some r ]

abbrev pub slice_to : Text → ℕ → Option Text
slice_to s n = elim (split_at s n) [ none ↦ none | some (l, r) ↦ some l ]

pub len_utf8_pos : (c : ℕ) → (1 ≤ len_utf8 c) × (len_utf8 c ≤ 4)
unfolding len_utf8
len_utf8_pos c = ground arith

pub len_utf16_pos : (c : ℕ) → (1 ≤ len_utf16 c) × (len_utf16 c ≤ 2)
unfolding len_utf16
len_utf16_pos c = ground arith

pub byte_len-append : (s t : Text) → byte_len (s ++ t) ≡ byte_len s + byte_len t
byte_len-append [] t = omega arith
byte_len-append (c ∷ s) t = omega (arith, byte_len-append s t)

pub units-append : (s t : Text) → units (s ++ t) ≡ units s + units t
units-append [] t = omega arith
units-append (c ∷ s) t = omega (arith, units-append s t)

-- A text can be cut where a part of it ends.
pub split_at-append : (s t : Text) → split_at (s ++ t) (byte_len s) ≡ some (s, t)
unfolding split_at
split_at-append [] [] = refl
split_at-append [] (c ∷ t) = refl
split_at-append (c ∷ s) t = ground (arith, len_utf8_pos c, split_at-append s t, cancel c s)
  where
    cancel : (c : ℕ) (s : Text) → len_utf8 c + byte_len s - len_utf8 c ≡ byte_len s
    cancel c s = omega arith

pub split_at_whole : (s : Text) → split_at s (byte_len s) ≡ some (s, [])
split_at_whole s = rw append-nil at (split_at-append s [])

-- `s.find(x)` for a `char`: the byte offset of its first occurrence.
unfoldable pub find_char : ℕ → Text → Option ℕ
find_char x [] = none
find_char x (c ∷ s) =
    let rest = find_char x s in
    if c == x then some 0 else elim rest [ none ↦ none | some i ↦ some (len_utf8 c + i) ]

abbrev pub Lacks : ℕ → Text → Type 0
Lacks x = All (λ c. c ≢ x)

-- What `find_char` says of a text: there is no `x`, or the first one stands behind `l`.
pub data Found (x : ℕ) (s : Text) : Type 0 where
  absent : Lacks x s → find_char x s ≡ none → Found x s
  present :
      (l r : Text) → s ≡ l ++ x ∷ r → Lacks x l → find_char x s ≡ some (byte_len l) → Found x s

Found-cons : (x c : ℕ) (s : Text) → c ≢ x → Found x s → Found x (c ∷ s)
unfolding find_char
Found-cons x c s h (absent lacks e) = absent (h, lacks) (ground arith)
Found-cons x c s h (present l r split lacks e) =
    present (c ∷ l) r (rw split) (h, lacks) (ground arith)

pub find_char-Found : (x : ℕ) (s : Text) → Found x s
unfolding find_char
find_char-Found x [] = absent tt refl
find_char-Found x (c ∷ s) = elim (Bool-cases (c == x)) [
  | inl hit ↦ present [] s (ground arith) tt (rw hit)
  | inr miss ↦ Found-cons x c s (ground arith) (find_char-Found x s)
]

-- A text can be cut nowhere but where a part of it ends.
pub split_at_sound :
    (s : Text) (n : ℕ) (l r : Text) → split_at s n ≡ some (l, r) → (s ≡ l ++ r) × (n ≡ byte_len l)
unfolding split_at
split_at_sound [] n l r h = ground arith
split_at_sound (c ∷ s) n l r h = elim (Option-cases (split_at s (n - len_utf8 c))) [
  | inl e ↦ ground arith
  | inr (lr, e) ↦ ground (arith, split_at_sound s (n - len_utf8 c) lr.0 lr.1 e)
]
