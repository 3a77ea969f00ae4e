-- ===== src/Text/Offset/Ends.antt =====
-- src/text/offset.rs: the end of a text, and offsets within a line.
use native.Mathlib.Nat.{mod-eq_of_lt, add_assoc, zero-add}
use mathlib.Core.Path.{subst₂}
use php_lsp.Prelude.{
  ℕ, zero, suc, ◌+◌, ◌-◌, ◌^◌, ◌≤◌, ◌<◌, ◌≡◌, refl, sym, ap, ◌∙◌, subst, some, [], ◌∷◌, ◌++◌, leb,
  ltb, ◌==◌, ◌&&◌, ◌||◌, Bool, true, false, min, if◌then◌else◌, arith, append-nil, Option-cases,
  inl, inr,
}
use php_lsp.Prelude.Chars.{
  Text, len_utf8, len_utf16, byte_len, units, slice_to, split_at, split_at-append, byte_len-append,
  split_at_sound, len_utf16_pos, len_utf8_pos,
}
use php_lsp.Text.Offset.{
  position_to_byte_offset, apply_content_change, units_loop, utf16_offset_to_byte, byte_to_utf16,
  count_newlines, last_line_from, end_position,
}
use php_lsp.Text.Offset.Spec.{line_prefix, prefix_at, position_to_byte_offset-prefix_at}
use php_lsp.Text.Offset.Change.{edited, suffix_at, prefix_at-suffix_at, apply_content_change-edited}

line_prefix_whole : (s : Text) → count_newlines s ≡ 0 → line_prefix s (units s) ≡ s
unfolding count_newlines
line_prefix_whole [] h = refl
line_prefix_whole (c ∷ s) h =
    ground (arith, line_prefix_whole s, len_utf16_pos c, cancel (len_utf16 c) (units s))
  where
    cancel : (a b : ℕ) → a + b - a ≡ b
    cancel a b = omega arith

last_line_whole : (line s : Text) → count_newlines s ≡ 0 → last_line_from line s ≡ line
unfolding count_newlines last_line_from
last_line_whole line [] h = refl
last_line_whole line (c ∷ s) h = ground (arith, last_line_whole line s)

last_line_any :
    (line line' s : Text) (n : ℕ)
    → count_newlines s ≡ suc n
    → last_line_from line s ≡ last_line_from line' s
unfolding count_newlines last_line_from
last_line_any line line' [] n h = ground arith
last_line_any line line' (c ∷ s) n h = ground (arith, last_line_any line line' s n)

-- The text before its last line and the units of that line is the whole text.
prefix_at_end :
    (s : Text) (n : ℕ) → count_newlines s ≡ n → prefix_at s n (units (last_line_from s s)) ≡ s
unfolding count_newlines last_line_from
prefix_at_end [] zero h = refl
prefix_at_end [] (suc n) h = refl
prefix_at_end (c ∷ s) zero h = ground (arith, last_line_whole (c ∷ s) s, line_prefix_whole (c ∷ s))
prefix_at_end (c ∷ s) (suc n) h =
    ground (arith, prefix_at_end s n, prefix_at_end s (suc n), last_line_any (c ∷ s) s s n)

pub len_utf16-le : (c : ℕ) → len_utf16 c ≤ len_utf8 c
unfolding len_utf16 len_utf8
len_utf16-le c = ground arith

pub units-le : (s : Text) → units s ≤ byte_len s
units-le [] = omega arith
units-le (c ∷ s) = omega (arith, units-le s, len_utf16-le c)

count_newlines-le : (s : Text) → count_newlines s ≤ byte_len s
unfolding count_newlines
count_newlines-le [] = omega arith
count_newlines-le (c ∷ s) = ground (arith, count_newlines-le s, len_utf8_pos c)

last_line-le : (line s : Text) → units s ≤ units line → units (last_line_from line s) ≤ units line
unfolding last_line_from
last_line-le line [] h = omega arith
last_line-le line (c ∷ s) h = ground (arith, last_line-le line s, last_line-le s s, len_utf16_pos c)

count_newlines-small : (s : Text) → byte_len s < 2 ^ 32 → count_newlines s < 2 ^ 32
count_newlines-small s h = omega (arith, count_newlines-le s)

last_line-small : (s : Text) → byte_len s < 2 ^ 32 → units (last_line_from s s) < 2 ^ 32
last_line-small s h = omega (arith, last_line-le s s (omega arith), units-le s)

nil_of_size : (s : Text) → byte_len s ≡ 0 → s ≡ []
nil_of_size [] h = refl
nil_of_size (c ∷ s) h = absurd (omega (arith, len_utf8_pos c))

suffix_at_end : (s : Text) → suffix_at s (count_newlines s) (units (last_line_from s s)) ≡ []
suffix_at_end s =
    let k = count_newlines s in
    let col = units (last_line_from s s) in
    nil_of_size (suffix_at s k col) (
      omega (
        arith,
        byte_len-append (prefix_at s k col) (suffix_at s k col),
        ap byte_len (prefix_at-suffix_at s k col),
        ap byte_len (prefix_at_end s k refl),
      ))

-- Nothing of the end of a text is lost to the 32-bit fields if the text is shorter than 4 GiB.
end_position_exact :
    (s : Text)
    → byte_len s < 2 ^ 32
    → end_position s ≡ record { line = count_newlines s; character = units (last_line_from s s) }
unfolding end_position
end_position_exact s h =
    rw (mod-eq_of_lt (count_newlines-small s h), mod-eq_of_lt (last_line-small s h))

-- In a text of less than 2^32 bytes the end position points behind the last byte.
pub position_to_byte_offset-end_position :
    (s : Text)
    → byte_len s < 2 ^ 32
    → position_to_byte_offset s (end_position s) ≡ some (byte_len s)
position_to_byte_offset-end_position s h = rw (
  end_position_exact s h,
  position_to_byte_offset-prefix_at,
  prefix_at_end s (count_newlines s) refl,
)

same_branch {ℓ} : {A : Type ℓ} (b : Bool) (x : A) → (if b then x else x) ≡ x
same_branch true x = refl
same_branch false x = refl

edited_append :
    (s new_text : Text)
    → byte_len s < 2 ^ 32
    → edited s (record { start = end_position s; stop = end_position s }) new_text ≡ s ++ new_text
edited_append s new_text h = rw (
  end_position_exact s h,
  same_branch _ (suffix_at s (count_newlines s) (units (last_line_from s s))),
  suffix_at_end s,
  prefix_at_end s (count_newlines s) refl,
  append-nil,
)

whole : (s : Text) → prefix_at s 0 0 ≡ []
whole [] = refl
whole (c ∷ s) = refl

origin_first : (a b : ℕ) → (ltb 0 a || (0 == a && leb 0 b)) ≡ true
origin_first a b = ground arith

edited_whole :
    (s new_text : Text)
    → byte_len s < 2 ^ 32
    → edited s
        (record { start = record { line = 0; character = 0 }; stop = end_position s })
        new_text
      ≡ new_text
edited_whole s new_text h = rw (
  end_position_exact s h,
  whole s,
  origin_first (count_newlines s) (units (last_line_from s s)),
  suffix_at_end s,
  append-nil,
)

-- In a text of less than 2^32 bytes a change at the end position appends, and a change of the
-- whole range replaces.
pub apply_content_change-end_position :
    (s new_text : Text)
    → byte_len s < 2 ^ 32
    → (apply_content_change s (record { start = end_position s; stop = end_position s }) new_text
        ≡ some (s ++ new_text))
      × (apply_content_change s
            (record { start = record { line = 0; character = 0 }; stop = end_position s })
            new_text
          ≡ some new_text)
apply_content_change-end_position s new_text h = (
  apply_content_change-edited s _ new_text ∙ ap some (edited_append s new_text h),
  apply_content_change-edited s _ new_text ∙ ap some (edited_whole s new_text h),
)

min_left : (l r : Text) → min (byte_len l) (byte_len (l ++ r)) ≡ byte_len l
min_left l r = omega (arith, byte_len-append l r)

-- `byte_to_utf16` at the end of a part, and back.
byte_to_utf16-append :
    (l r : Text) → units l < 2 ^ 32 → byte_to_utf16 (l ++ r) (byte_len l) ≡ some (units l)
unfolding byte_to_utf16
byte_to_utf16-append l r h =
    rw (byte_to_utf16, slice_to, min_left l r, split_at-append l r, mod-eq_of_lt h)

units_loop-append :
    (l r : Text) (count idx : ℕ)
    → units_loop (l ++ r) (count + units l) count idx ≡ idx + byte_len l
unfolding units_loop
units_loop-append [] [] count idx = omega arith
units_loop-append [] (c ∷ r) count idx = ground arith
units_loop-append (c ∷ l) r count idx = ground (
  arith,
  units_loop-append l r (count + len_utf16 c) (idx + len_utf8 c),
  len_utf16_pos c,
  add_assoc count (len_utf16 c) (units l),
)

utf16_offset_to_byte-append : (l r : Text) → utf16_offset_to_byte (l ++ r) (units l) ≡ byte_len l
unfolding utf16_offset_to_byte
utf16_offset_to_byte-append l r = ground (arith, units_loop-append l r 0 0, zero-add (units l))

units-small : (l r : Text) → byte_len (l ++ r) < 2 ^ 32 → units l < 2 ^ 32
units-small l r h = omega (arith, units-le l, byte_len-append l r)

column_back :
    (l r : Text) (u : ℕ)
    → byte_len (l ++ r) < 2 ^ 32
    → byte_to_utf16 (l ++ r) (byte_len l) ≡ some u
    → utf16_offset_to_byte (l ++ r) u ≡ byte_len l
column_back l r u small h =
    let e : units l ≡ u = cc (byte_to_utf16-append l r (units-small l r small)) in
    subst (λ k. utf16_offset_to_byte (l ++ r) k ≡ byte_len l) e (utf16_offset_to_byte-append l r)

min_within : (n m : ℕ) → n ≤ m → min n m ≡ n
min_within n m h = omega arith

-- A column is given only where the offset cuts the text.
column_cut :
    (s : Text) (n u : ℕ)
    → n ≤ byte_len s
    → byte_to_utf16 s n ≡ some u
    → (l : Text) × (r : Text) × (l ++ r ≡ s) × (byte_len l ≡ n)
unfolding byte_to_utf16
column_cut s n u within h = elim (Option-cases (split_at s n)) [
  | inl e ↦ ground (arith, min_within n (byte_len s) within)
  | inr (lr, e) ↦ let p = split_at_sound s n lr.0 lr.1 e in (lr.0, lr.1, sym p.0, sym p.1)
]

-- Where `byte_to_utf16` gives a column, for an offset within a text of less than 2^32 bytes,
-- `utf16_offset_to_byte` gives the offset back.
pub utf16_offset_to_byte-byte_to_utf16 :
    (s : Text) (n u : ℕ)
    → byte_len s < 2 ^ 32
    → n ≤ byte_len s
    → byte_to_utf16 s n ≡ some u
    → utf16_offset_to_byte s u ≡ n
utf16_offset_to_byte-byte_to_utf16 s n u small within h =
    let (l, r, e, f) = column_cut s n u within h in
    subst₂ (λ t k. utf16_offset_to_byte t u ≡ k) e f
      (column_back l r u (subst (λ t. byte_len t < 2 ^ 32) (sym e) small)
        (subst₂ (λ t k. byte_to_utf16 t k ≡ some u) (sym e) (sym f) h))
