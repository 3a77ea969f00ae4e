-- ===== src/Document/Positions/Back.antt =====
-- src/document/ast.rs: back from the position of a byte to the byte.
use native.Mathlib.Nat.{zero-add}
use native.Mathlib.Numerals.{add-one}
use php_lsp.Prelude.{
  ℕ, ◌+◌, ◌^◌, ◌≡◌, ◌<◌, refl, sym, ap, subst, ◌∙◌, some, none, Option, [], ◌∷◌, ◌++◌, ◌==◌, arith,
  append_assoc, append-nil, min, get_elem?, Bool-cases, inl, inr,
}
use php_lsp.Prelude.Chars.{
  Text, len_utf8, len_utf16, byte_len, units, byte_len-append, find_char-Found, Found, absent,
  present, len_utf16_pos,
}
use php_lsp.Prelude.Strs.{strip_return}
use php_lsp.Text.Offset.{newline, Position, u32}
use php_lsp.Text.Offset.Ends.{units-le}
use php_lsp.Document.Positions.{
  starts_from, build_line_starts, position_of, column_loop, line_end, byte_on_line, byte_from,
  byte_of_position,
}
use php_lsp.Document.Positions.Scan.{
  view_of, u32_small, slice_between, starts_from_absent, starts_from_present, next_bound,
  line_sizes,
}
use php_lsp.Document.Positions.Place.{
  newlines, cut, last_line, place_of, cut_sizes, cut_whole, line_begins, position_of-place_of,
}

line_after :
    (l r : Text) (i : ℕ)
    → get_elem? (starts_from (l ++ r) i) (newlines l) ≡ get_elem? (starts_from r (i + byte_len l)) 0
unfolding starts_from
line_after [] r i = ap (λ n. get_elem? (starts_from r n) 0) (zero_right i)
  where
    zero_right : (i : ℕ) → i ≡ i + 0
    zero_right i = omega arith
line_after (c ∷ l) r i = elim (Bool-cases (c == newline)) [
  | inl hit ↦ rw hit (rw (regroup i (len_utf8 c) (byte_len l)) (line_after l r (i + len_utf8 c)))
  | inr miss ↦ rw miss (rw (regroup i (len_utf8 c) (byte_len l)) (line_after l r (i + len_utf8 c)))
]
  where
    regroup : (a b c : ℕ) → a + (b + c) ≡ a + b + c
    regroup a b c = omega arith

col_loop_start : (s : Text) (col idx : ℕ) → column_loop s col col idx ≡ idx
unfolding column_loop
col_loop_start [] col idx = refl
col_loop_start (c ∷ s) col idx = ground arith

column_loop-append :
    (q m : Text) (col idx : ℕ)
    → col + units q < 2 ^ 32
    → column_loop (q ++ m) (col + units q) col idx ≡ idx + byte_len q
unfolding column_loop
column_loop-append [] m col idx h =
    rw (zero_right col) (col_loop_start m col idx ∙ sym (zero_right idx))
  where
    zero_right : (i : ℕ) → i + 0 ≡ i
    zero_right i = omega arith
column_loop-append (c ∷ q) m col idx h = ground (
  arith,
  u32_small (col + len_utf16 c) (omega arith),
  column_loop-append q m (col + len_utf16 c) (idx + len_utf8 c) (omega arith),
  regroup col (len_utf16 c) (units q),
  regroup idx (len_utf8 c) (byte_len q),
  len_utf16_pos c,
)
  where
    regroup : (a b c : ℕ) → a + b + c ≡ a + (b + c)
    regroup a b c = omega arith

-- What is left of a line without its carriage return still begins with a part that has none at its
-- end.
strip_return-append :
    (q m : Text) → strip_return q ≡ q → (m' : Text) × (strip_return (q ++ m) ≡ q ++ m')
strip_return-append [] m h = (strip_return m, refl)
strip_return-append (c ∷ []) [] h = ([], h)
strip_return-append (c ∷ []) (d ∷ m) h = (strip_return (d ∷ m), refl)
strip_return-append (c ∷ d ∷ q) m h =
    let rest = strip_return-append (d ∷ q) m (ground arith) in (rest.0, ap (◌∷◌ c) rest.1)

-- A line with more behind the offset: the end of the slice, by whether another line follows.
byte_on_line_at :
    (p q m t : Text) (next : Option ℕ)
    → min (line_end (p ++ (q ++ (m ++ t))) next) (byte_len (p ++ (q ++ (m ++ t))))
      ≡ byte_len p + byte_len (q ++ m)
    → strip_return q ≡ q
    → byte_len (p ++ (q ++ (m ++ t))) < 2 ^ 32
    → byte_on_line (p ++ (q ++ (m ++ t))) (byte_len p) next (units (strip_return q))
      ≡ some (byte_len p + byte_len q)
unfolding byte_on_line
byte_on_line_at p q m t next e plain bound =
    rw
      (
        byte_on_line,
        e,
        rw (append_assoc q m t) at (slice_between p (q ++ m) t),
        (strip_return-append q m plain).1,
        plain,
      )
      (ap some (
        ap (λ n. u32 (byte_len p + n))
          (column q (strip_return-append q m plain).0 (omega (arith, units-le q, whole)))
        ∙ u32_small _ (omega (arith, whole))))
  where
    whole : byte_len (p ++ (q ++ (m ++ t))) ≡ byte_len p + (byte_len q + byte_len (m ++ t))
    whole = omega (arith, byte_len-append p (q ++ (m ++ t)), byte_len-append q (m ++ t))

    column : (q m' : Text) → 0 + units q < 2 ^ 32 → column_loop (q ++ m') (units q) 0 0 ≡ byte_len q
    column q m' h =
        rw (zero-add (units q), zero-add (byte_len q)) at (column_loop-append q m' 0 0 h)

-- The text is cut around the last line before the offset; `m` is what follows on that line.
byte_on_last_line :
    (l m t : Text) (next : Option ℕ)
    → min (line_end (l ++ (m ++ t)) next) (byte_len (l ++ (m ++ t))) ≡ byte_len l + byte_len m
    → strip_return (last_line l) ≡ last_line l
    → byte_len (l ++ (m ++ t)) < 2 ^ 32
    → byte_on_line (l ++ (m ++ t)) (byte_len (cut l).0) next (units (strip_return (last_line l)))
      ≡ some (byte_len l)
byte_on_last_line l m t next e plain h = rw (cut_whole l (m ++ t)) (
    byte_on_line_at (cut l).0 (last_line l) m t next
      (rw (cut_whole l (m ++ t)) at e ∙ omega (arith, cut_sizes l, byte_len-append (last_line l) m))
      plain (rw (cut_whole l (m ++ t)) at h)
    ∙ ap some (sym (cut_sizes l)))

-- The next line, by what follows the offset.
byte_from_line :
    (l r : Text)
    → strip_return (last_line l) ≡ last_line l
    → byte_len (l ++ r) < 2 ^ 32
    → Found newline r
    → byte_from
        (l ++ r)
        (some (byte_len (cut l).0))
        (get_elem? (starts_from r (byte_len l)) 0)
        (units (strip_return (last_line l)))
      ≡ some (byte_len l)
unfolding byte_from
byte_from_line l r plain h (absent lacks e) = rw (starts_from_absent r (byte_len l) lacks) (
    rw append-nil at (
      byte_on_last_line l r [] none (rw append-nil (omega (arith, byte_len-append l r))) plain
        (rw append-nil h)))
byte_from_line l r plain h (present m t split lacks e) =
    subst
      (λ u.
        byte_from (l ++ u) (some (byte_len (cut l).0)) (get_elem? (starts_from u (byte_len l)) 0)
          (units (strip_return (last_line l)))
        ≡ some (byte_len l))
      (sym split)
      (rw (starts_from_present m t (byte_len l) lacks (next_bound l m t (rw split at h))) (
        byte_on_last_line l m (newline ∷ t) (some (byte_len l + byte_len m + 1))
          (omega (arith, line_sizes l m t)) plain (rw split at h)))

-- In a text of less than 2^32 bytes, `position_of` at a character boundary whose text before does
-- not end in a carriage return gives a position, and `byte_of_position` leads back from it to the
-- same byte.
pub byte_of_position-position_of :
    (l r : Text)
    → strip_return (last_line l) ≡ last_line l
    → byte_len (l ++ r) < 2 ^ 32
    → (pos : Position) × (position_of (view_of (l ++ r)) (byte_len l) ≡ some pos)
      × (byte_of_position (view_of (l ++ r)) pos ≡ some (byte_len l))
unfolding byte_of_position build_line_starts
byte_of_position-position_of l r plain h = (
  place_of l,
  position_of-place_of l r h,
  rw (line_begins l r h, add-one (newlines l), line_after l r 0, zero-add (byte_len l))
      (byte_from_line l r plain h (find_char-Found newline r)),
)
