-- ===== src/Document/Positions/Place.antt =====
-- src/document/ast.rs: the position of a byte is that of the text before it.
use mathlib.Core.Path.{ap₂}
use php_lsp.Prelude.{
  ℕ, suc, ◌+◌, ◌^◌, ◌≡◌, ◌<◌, ◌≤◌, refl, sym, ap, subst, ◌∙◌, some, [], ◌∷◌, ◌++◌, ◌==◌,
  if◌then◌else◌, arith, append_assoc, min, get_elem?, List, Bool-cases, inl, inr, true, false,
}
use php_lsp.Prelude.Chars.{Text, len_utf8, byte_len, units, byte_len-append, len_utf8_pos}
use php_lsp.Prelude.Strs.{strip_return, slice}
use php_lsp.Text.Offset.{newline, Position, u32}
use php_lsp.Text.Offset.Ends.{units-le}
use php_lsp.Document.Positions.{
  starts_from, build_line_starts, partition_point, before_point, offset_to_position, position_of,
}
use php_lsp.Document.Positions.Scan.{view_of, u32_small, newline_bytes, slice_between}

-- How many newlines a text holds, and the text cut behind the last one.
abbrev pub newlines : Text → ℕ
newlines [] = 0
newlines (c ∷ s) = let n = newlines s in if c == newline then suc n else n

abbrev keep : ℕ → Text × Text → Text × Text
keep c ([], q) = if c == newline then (c ∷ [], q) else ([], c ∷ q)
keep c (d ∷ p, q) = (c ∷ d ∷ p, q)

abbrev pub cut : Text → Text × Text
cut [] = ([], [])
cut (c ∷ s) = keep c (cut s)

-- The text on the last line of a text.
abbrev pub last_line : Text → Text
last_line s = (cut s).1

-- The position behind a text: a carriage return at its end is no column.
abbrev pub place_of : Text → Position
place_of l = record { line = newlines l; character = units (strip_return (last_line l)) }

keep-append : (c : ℕ) (p : Text × Text) → (keep c p).0 ++ (keep c p).1 ≡ c ∷ (p.0 ++ p.1)
keep-append c ([], q) = ground arith
keep-append c (d ∷ p, q) = refl

cut-append : (s : Text) → (cut s).0 ++ (cut s).1 ≡ s
cut-append [] = refl
cut-append (c ∷ s) = keep-append c (cut s) ∙ ap (◌∷◌ c) (cut-append s)

pub next_start : (i : ℕ) → i + 1 < 2 ^ 32 → u32 (u32 i + 1) ≡ i + 1
next_start i h = omega arith

pub newline_len : (c : ℕ) → (c == newline) ≡ true → len_utf8 c ≡ 1
newline_len c h = subst (λ d. len_utf8 d ≡ 1) (same c h) newline_bytes
  where
    same : (c : ℕ) → (c == newline) ≡ true → newline ≡ c
    same c h = ground arith

-- No line starts at or before an offset where the text begins.
starts_above :
    (s : Text) (i o : ℕ) → o ≤ i → i + byte_len s < 2 ^ 32 → partition_point (starts_from s i) o ≡ 0
unfolding starts_from
starts_above [] i o le h = refl
starts_above (c ∷ s) i o le h = elim (Bool-cases (c == newline)) [
  | inl hit ↦ rw hit (rw (next_start i (omega (arith, len_utf8_pos c))) (above _ i o le))
  | inr miss ↦ rw miss (starts_above s (i + len_utf8 c) o (omega arith) (omega arith))
]
  where
    above : (rest : List ℕ) (i o : ℕ) → o ≤ i → partition_point ((i + 1) ∷ rest) o ≡ 0
    above rest i o le = ground arith

partition_point-suc :
    (a o : ℕ) (l : List ℕ) → a ≤ o → partition_point (a ∷ l) o ≡ suc (partition_point l o)
partition_point-suc a o l h = ground arith

partition_point-newlines :
    (l r : Text) (i : ℕ)
    → i + byte_len (l ++ r) < 2 ^ 32
    → partition_point (starts_from (l ++ r) i) (i + byte_len l) ≡ newlines l
unfolding starts_from
partition_point-newlines [] r i h = starts_above r i (i + 0) (omega arith) h
partition_point-newlines (c ∷ l) r i h = elim (Bool-cases (c == newline)) [
  | inl hit ↦ rw hit (
      rw (next_start i (omega (arith, newline_len c hit))) (
        partition_point-suc (i + 1) (i + (len_utf8 c + byte_len l))
          (starts_from (l ++ r) (i + len_utf8 c)) (omega (arith, newline_len c hit))
        ∙ ap suc (
            rw (regroup i (len_utf8 c) (byte_len l))
              (partition_point-newlines l r (i + len_utf8 c) (omega arith)))))
  | inr miss ↦ rw miss (
      rw (regroup i (len_utf8 c) (byte_len l))
        (partition_point-newlines l r (i + len_utf8 c) (omega arith)))
]
  where
    regroup : (a b c : ℕ) → a + (b + c) ≡ a + b + c
    regroup a b c = omega arith

-- Where the last line of a text begins, which follows `cur` where it holds no newline.
abbrev begin : ℕ → ℕ → Text × Text → ℕ
begin cur i ([], q) = cur
begin cur i (c ∷ p, q) = i + byte_len (c ∷ p)

get_elem?-begin :
    (l r : Text) (cur i : ℕ)
    → i + byte_len (l ++ r) < 2 ^ 32
    → get_elem? (cur ∷ starts_from (l ++ r) i) (newlines l) ≡ some (begin cur i (cut l))
unfolding starts_from
get_elem?-begin [] r cur i h = refl
get_elem?-begin (c ∷ l) r cur i h = elim (Bool-cases (c == newline)) [
  | inl hit ↦ rw hit (
      ap (λ a. get_elem? (a ∷ starts_from (l ++ r) (i + len_utf8 c)) (newlines l))
        (next_start i (omega (arith, newline_len c hit)))
      ∙ get_elem?-begin l r (i + 1) (i + len_utf8 c) (omega arith)
      ∙ ap some (begin_hit i (cut l) hit))
  | inr miss ↦
      rw miss (
        get_elem?-begin l r cur (i + len_utf8 c) (omega arith)
        ∙ ap some (begin_miss i (cut l) miss))
]
  where
    begin_hit :
        (i : ℕ) (p : Text × Text)
        → (c == newline) ≡ true
        → begin (i + 1) (i + len_utf8 c) p ≡ begin cur i (keep c p)
    begin_hit i ([], q) h = rw h (omega (arith, newline_len c h))
    begin_hit i (d ∷ p, q) h = omega arith

    begin_miss :
        (i : ℕ) (p : Text × Text)
        → (c == newline) ≡ false
        → begin cur (i + len_utf8 c) p ≡ begin cur i (keep c p)
    begin_miss i ([], q) h = rw h
    begin_miss i (d ∷ p, q) h = omega arith

begin-zero : (p : Text × Text) → begin 0 0 p ≡ byte_len p.0
begin-zero ([], q) = refl
begin-zero (c ∷ p, q) = omega arith

newlines-le : (s : Text) → newlines s ≤ byte_len s
newlines-le [] = omega arith
newlines-le (c ∷ s) = ground (arith, newlines-le s, len_utf8_pos c)

units-strip_return : (s : Text) → units (strip_return s) ≤ units s
units-strip_return [] = omega arith
units-strip_return (c ∷ []) = ground arith
units-strip_return (c ∷ d ∷ s) = omega (arith, units-strip_return (d ∷ s))

pub cut_sizes : (l : Text) → byte_len l ≡ byte_len (cut l).0 + byte_len (last_line l)
cut_sizes l = ap byte_len (sym (cut-append l)) ∙ byte_len-append (cut l).0 (last_line l)

pub cut_whole : (l r : Text) → l ++ r ≡ (cut l).0 ++ (last_line l ++ r)
cut_whole l r =
    ap (λ (t : Text). t ++ r) (sym (cut-append l)) ∙ append_assoc (cut l).0 (last_line l) r

-- The line on which an offset lies, and where it begins.
line_found :
    (l r : Text)
    → byte_len (l ++ r) < 2 ^ 32
    → partition_point (0 ∷ starts_from (l ++ r) 0) (byte_len l) ≡ suc (newlines l)
line_found l r h =
    partition_point-suc 0 (byte_len l) (starts_from (l ++ r) 0) (omega arith)
    ∙ ap suc (rw (zero_add (byte_len l)) at (partition_point-newlines l r 0 (omega arith)))
  where
    zero_add : (n : ℕ) → 0 + n ≡ n
    zero_add n = omega arith

pub line_begins :
    (l r : Text)
    → byte_len (l ++ r) < 2 ^ 32
    → get_elem? (0 ∷ starts_from (l ++ r) 0) (newlines l) ≡ some (byte_len (cut l).0)
line_begins l r h = get_elem?-begin l r 0 0 (omega arith) ∙ ap some (begin-zero (cut l))

segment :
    (l r : Text)
    → slice (l ++ r) (byte_len (cut l).0) (min (byte_len l) (byte_len (l ++ r)))
      ≡ some (last_line l)
segment l r = rw (cut_whole l r, stop) (slice_between (cut l).0 (last_line l) r)
  where
    stop :
        min (byte_len l) (byte_len ((cut l).0 ++ (last_line l ++ r)))
        ≡ byte_len (cut l).0 + byte_len (last_line l)
    stop = omega (
      arith,
      cut_sizes l,
      byte_len-append (cut l).0 (last_line l ++ r),
      byte_len-append (last_line l) r,
    )

offset_on_line :
    (source : Text) (starts : List ℕ) (o line start : ℕ) (on_line : Text)
    → partition_point starts o ≡ suc line
    → u32 line ≡ line
    → get_elem? starts line ≡ some start
    → slice source start (min o (byte_len source)) ≡ some on_line
    → u32 (units (strip_return on_line)) ≡ units (strip_return on_line)
    → offset_to_position source starts o
      ≡ some (record { line = line; character = units (strip_return on_line) })
unfolding offset_to_position
offset_on_line source starts o line start on_line at_line small begins sliced few =
    rw (offset_to_position, at_line, small, begins, sliced)
      (ap₂ (λ a b. some (record { line = a; character = b })) (ap before_point at_line ∙ small) few)

-- In a text of less than 2^32 bytes, `position_of` panics at no character boundary, and gives the
-- number of newlines before it and the UTF-16 units behind the last one, without a carriage return
-- at the end.
pub position_of-place_of :
    (l r : Text)
    → byte_len (l ++ r) < 2 ^ 32
    → position_of (view_of (l ++ r)) (byte_len l) ≡ some (place_of l)
unfolding position_of build_line_starts
position_of-place_of l r h =
    offset_on_line (l ++ r) (build_line_starts (l ++ r)) (byte_len l) (newlines l)
      (byte_len (cut l).0) (last_line l) (line_found l r h)
      (u32_small (newlines l) (omega (arith, newlines-le l, byte_len-append l r)))
      (line_begins l r h) (segment l r)
      (u32_small (units (strip_return (last_line l))) (
        omega (
          arith,
          units-strip_return (last_line l),
          units-le (last_line l),
          cut_sizes l,
          byte_len-append l r,
        )))
