-- ===== src/Document/Positions/Scan.antt =====
-- src/document/ast.rs: finding a byte through the table of line starts refines the scan of
-- src/text/offset.rs.
use native.Mathlib.Numerals.{add-one}
use mathlib.Core.Path.{ap₂}
use php_lsp.Prelude.{
  ℕ, zero, suc, ◌+◌, ◌-◌, ◌^◌, ◌≡◌, ◌<◌, ◌≤◌, refl, sym, ap, true, subst, ◌∙◌, some, none, Option,
  [], ◌∷◌, ◌++◌, arith, append_assoc, append-nil, min, leb, get_elem?,
}
use php_lsp.Prelude.Chars.{
  Text, len_utf8, len_utf16, byte_len, units, find_char-Found, Found, split_at-append, slice_to,
  byte_len-append, Lacks, absent, present,
}
use php_lsp.Prelude.Strs.{strip_return, slice}
use php_lsp.Text.Offset.{newline, Position, u32, position_to_byte_offset}
use php_lsp.Text.Offset.Spec.{
  line_prefix, prefix_at, prefix_at-append, prefix_at_last, line_prefix-append, sub_sub, sub-zero,
  regroup, position_to_byte_offset-prefix_at,
}
use php_lsp.Text.Offset.Ends.{units-le}
use php_lsp.Document.Positions.{
  SourceView, starts_from, build_line_starts, column_loop, line_end, byte_on_line, byte_from,
  byte_of_position,
}

-- The view of a parsed document.
abbrev pub view_of : Text → SourceView
unfolding build_line_starts
view_of source = record { source = source; line_starts = build_line_starts source }

abbrev pub carriage_return : ℕ
carriage_return = 13

Lacks-append-left : (x : ℕ) (l r : Text) → Lacks x (l ++ r) → Lacks x l
Lacks-append-left x [] r h = tt
Lacks-append-left x (c ∷ l) r h = (h.0, Lacks-append-left x l r h.1)

Lacks-append-right : (x : ℕ) (l r : Text) → Lacks x (l ++ r) → Lacks x r
Lacks-append-right x [] r h = h
Lacks-append-right x (c ∷ l) r h = Lacks-append-right x l r h.1

strip_return_none : (s : Text) → Lacks carriage_return s → strip_return s ≡ s
strip_return_none [] h = refl
strip_return_none (c ∷ []) h = ground (arith, h.0)
strip_return_none (c ∷ d ∷ s) h = ap (◌∷◌ c) (strip_return_none (d ∷ s) h.1)

pub u32_small : (n : ℕ) → n < 2 ^ 32 → u32 n ≡ n
u32_small n h = omega arith

-- On a line, the loop stops at the end of the described prefix.
column_loop-line_prefix :
    (s : Text) (character col idx : ℕ)
    → Lacks newline s
    → col + units s < 2 ^ 32
    → column_loop s character col idx ≡ idx + byte_len (line_prefix s (character - col))
unfolding column_loop
column_loop-line_prefix [] character col idx h bound = omega arith
column_loop-line_prefix (c ∷ s) character col idx (hc, hs) bound = ground (
  arith,
  u32_small (col + len_utf16 c) (omega arith),
  column_loop-line_prefix s character (col + len_utf16 c) (idx + len_utf8 c) hs (omega arith),
  sub_sub character col (len_utf16 c),
)

pub starts_from_absent : (s : Text) (i : ℕ) → Lacks newline s → starts_from s i ≡ []
unfolding starts_from
starts_from_absent [] i h = refl
starts_from_absent (c ∷ s) i (hc, hs) = ground (arith, starts_from_absent s (i + len_utf8 c) hs)

pub newline_bytes : len_utf8 newline ≡ 1
unfolding len_utf8
newline_bytes = refl

u32_next : (i : ℕ) → i + 1 < 2 ^ 32 → u32 (u32 i + 1) ≡ i + 0 + 1
u32_next i h = omega arith

pub starts_from_present :
    (l r : Text) (i : ℕ)
    → Lacks newline l
    → i + byte_len l + 1 < 2 ^ 32
    → starts_from (l ++ newline ∷ r) i ≡ (i + byte_len l + 1) ∷ starts_from r (i + byte_len l + 1)
unfolding starts_from
starts_from_present [] r i h bound =
    ap₂ (λ (a b : ℕ). a ∷ starts_from r b) (u32_next i (omega arith)) (newline_size i)
  where
    newline_size : (i : ℕ) → i + len_utf8 newline ≡ i + 0 + 1
    newline_size i = omega (arith, newline_bytes)
starts_from_present (c ∷ l) r i (hc, hs) bound = ground (
  arith,
  starts_from_present l r (i + len_utf8 c) hs (omega arith),
  shift i (len_utf8 c) (byte_len l),
)
  where
    shift : (a b c : ℕ) → a + (b + c) + 1 ≡ a + b + c + 1
    shift a b c = omega arith

pub slice_between :
    (before l t : Text)
    → slice (before ++ (l ++ t)) (byte_len before) (byte_len before + byte_len l) ≡ some l
unfolding slice
slice_between before l t =
    rw (slice, split_at-append before (l ++ t), le_sum, difference, slice_to, split_at-append l t)
  where
    le_sum : leb (byte_len before) (byte_len before + byte_len l) ≡ true
    le_sum = ground arith

    difference : byte_len before + byte_len l - byte_len before ≡ byte_len l
    difference = omega arith

line_prefix-le : (s : Text) (col : ℕ) → byte_len (line_prefix s col) ≤ byte_len s
line_prefix-le [] col = omega arith
line_prefix-le (c ∷ s) col = ground (arith, line_prefix-le s (col - len_utf16 c))

-- The line that starts behind `before` and is `l`, with the start of the next line, if there is one.
byte_on_line-prefix :
    (before l t : Text) (next : Option ℕ) (col : ℕ)
    → min (line_end (before ++ (l ++ t)) next) (byte_len (before ++ (l ++ t)))
      ≡ byte_len before + byte_len l
    → Lacks newline l
    → Lacks carriage_return l
    → byte_len (before ++ (l ++ t)) < 2 ^ 32
    → byte_on_line (before ++ (l ++ t)) (byte_len before) next col
      ≡ some (byte_len before + byte_len (line_prefix l col))
unfolding byte_on_line
byte_on_line-prefix before l t next col e lacks plain bound =
    rw (byte_on_line, e, slice_between before l t, strip_return_none l plain)
      (ap some (
        rw (column_loop-line_prefix l col 0 0 lacks (omega (arith, units-le l, whole))) rw
          (sub-zero col) (omega (arith, line_prefix-le l col, whole))))
  where
    whole : byte_len (before ++ (l ++ t)) ≡ byte_len before + (byte_len l + byte_len t)
    whole = omega (arith, byte_len-append before (l ++ t), byte_len-append l t)

-- The statement about the table from the line start behind `before`.
abbrev LooksUp : Text → Text → ℕ → ℕ → Type 0
LooksUp before rest k col =
    byte_from (before ++ rest) (get_elem? (byte_len before ∷ starts_from rest (byte_len before)) k)
      (get_elem? (byte_len before ∷ starts_from rest (byte_len before)) (suc k)) col
    ≡ some (byte_len before + byte_len (prefix_at rest k col))

LooksUp-last :
    (before rest : Text) (k col : ℕ)
    → Lacks newline rest
    → Lacks carriage_return rest
    → byte_len (before ++ rest) < 2 ^ 32
    → LooksUp before rest k col
unfolding byte_from
LooksUp-last before rest zero col lacks plain bound =
    rw (starts_from_absent rest (byte_len before) lacks) (
      rw append-nil at (
        byte_on_line-prefix before rest [] none col
          (rw append-nil (omega (arith, byte_len-append before rest))) lacks plain
          (rw append-nil bound)))
LooksUp-last before rest (suc k) col lacks plain bound =
    rw (starts_from_absent rest (byte_len before) lacks) (
      rw (prefix_at_last rest k col lacks)
        (ap some (u32_small _ bound ∙ byte_len-append before rest)))

pub line_sizes :
    (before l r : Text)
    → byte_len (before ++ (l ++ newline ∷ r)) ≡ byte_len before + byte_len l + 1 + byte_len r
line_sizes before l r = omega (
  arith,
  byte_len-append before (l ++ newline ∷ r),
  byte_len-append l (newline ∷ r),
  newline_bytes,
)

pub next_bound :
    (before l r : Text)
    → byte_len (before ++ (l ++ newline ∷ r)) < 2 ^ 32
    → byte_len before + byte_len l + 1 < 2 ^ 32
next_bound before l r bound = omega (arith, line_sizes before l r)

next_start :
    (before l : Text) → byte_len before + byte_len l + 1 ≡ byte_len (before ++ (l ++ newline ∷ []))
next_start before l = omega (arith, line_sizes before l [])

LooksUp-next :
    (before l r : Text) (k col : ℕ)
    → ((b r' : Text) → Lacks carriage_return r' → byte_len (b ++ r') < 2 ^ 32 → LooksUp b r' k col)
    → Lacks newline l
    → Lacks carriage_return (l ++ newline ∷ r)
    → byte_len (before ++ (l ++ newline ∷ r)) < 2 ^ 32
    → LooksUp before (l ++ newline ∷ r) (suc k) col
LooksUp-next before l r k col ih lacks plain bound =
    rw
      (
        starts_from_present l r (byte_len before) lacks (next_bound before l r bound),
        prefix_at-append l r k col lacks,
      )
      ((rw (regroup before l r, ← next_start before l) at
          (ih (before ++ (l ++ newline ∷ [])) r
            (Lacks-append-right carriage_return (l ++ newline ∷ []) r
              (rw (append_assoc l (newline ∷ []) r) plain))
            (rw (regroup before l r) bound)))
        ∙ ap some (line_prefix_sizes before l (prefix_at r k col)))
  where
    line_prefix_sizes :
        (before l t : Text)
        → byte_len before + byte_len l + 1 + byte_len t
          ≡ byte_len before + byte_len (l ++ newline ∷ t)
    line_prefix_sizes before l t = omega (arith, byte_len-append l (newline ∷ t), newline_bytes)

LooksUp-first :
    (before l r : Text) (col : ℕ)
    → Lacks newline l
    → Lacks carriage_return (l ++ newline ∷ r)
    → byte_len (before ++ (l ++ newline ∷ r)) < 2 ^ 32
    → LooksUp before (l ++ newline ∷ r) zero col
unfolding byte_from
LooksUp-first before l r col lacks plain bound =
    rw (starts_from_present l r (byte_len before) lacks (next_bound before l r bound)) (
      byte_on_line-prefix before l (newline ∷ r) (some (byte_len before + byte_len l + 1)) col
        (omega (arith, line_sizes before l r)) lacks
        (Lacks-append-left carriage_return l (newline ∷ r) plain) bound
      ∙ ap (λ (t : Text). some (byte_len before + byte_len t))
          (sym (line_prefix-append l r col lacks)))

LooksUp-step :
    (before rest : Text) (k col : ℕ)
    → ((b r' : Text) → Lacks carriage_return r' → byte_len (b ++ r') < 2 ^ 32 → LooksUp b r' k col)
    → Found newline rest
    → Lacks carriage_return rest
    → byte_len (before ++ rest) < 2 ^ 32
    → LooksUp before rest (suc k) col
LooksUp-step before rest k col ih (absent lacks e) plain bound =
    LooksUp-last before rest (suc k) col lacks plain bound
LooksUp-step before rest k col ih (present l r split lacks e) plain bound =
    subst (λ t. LooksUp before t (suc k) col) (sym split)
      (LooksUp-next before l r k col ih lacks (rw split at plain) (rw split at bound))

LooksUp-zero :
    (before rest : Text) (col : ℕ)
    → Found newline rest
    → Lacks carriage_return rest
    → byte_len (before ++ rest) < 2 ^ 32
    → LooksUp before rest zero col
LooksUp-zero before rest col (absent lacks e) plain bound =
    LooksUp-last before rest zero col lacks plain bound
LooksUp-zero before rest col (present l r split lacks e) plain bound =
    subst (λ t. LooksUp before t zero col) (sym split)
      (LooksUp-first before l r col lacks (rw split at plain) (rw split at bound))

LooksUp-all :
    (before rest : Text) (k col : ℕ)
    → Lacks carriage_return rest
    → byte_len (before ++ rest) < 2 ^ 32
    → LooksUp before rest k col
LooksUp-all before rest zero col plain bound =
    LooksUp-zero before rest col (find_char-Found newline rest) plain bound
LooksUp-all before rest (suc k) col plain bound =
    LooksUp-step before rest k col (λ b r. LooksUp-all b r k col) (find_char-Found newline rest)
      plain bound

-- In a text without carriage returns and of less than 2^32 bytes, `byte_of_position`, which looks
-- the line up in the table of line starts, gives the byte that `position_to_byte_offset`, which
-- scans the text, gives, for every position.
pub byte_of_position-position_to_byte_offset :
    (source : Text) (pos : Position)
    → Lacks carriage_return source
    → byte_len source < 2 ^ 32
    → byte_of_position (view_of source) pos ≡ position_to_byte_offset source pos
unfolding byte_of_position build_line_starts
byte_of_position-position_to_byte_offset source pos plain bound =
    rw (add-one pos.line, position_to_byte_offset-prefix_at source pos)
      (LooksUp-all [] source pos.line pos.character plain bound ∙ ap some (omega arith))
