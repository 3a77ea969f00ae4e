-- ===== src/Text/Word/Bounds.antt =====
-- src/text/word.rs: the word under the cursor is the longest run of word characters that touches it.
use php_lsp.Prelude.{
  ℕ, ◌+◌, ◌-◌, ◌≤◌, ◌<◌, ◌≡◌, refl, sym, ap, ◌∙◌, Option, none, some, Bool, true, false, ◌&&◌, not,
  [], ◌∷◌, ◌++◌, ltb, ◌==◌, if◌then◌else◌, length, take, drop, all, reverse, length-append,
  length-take, length-drop, length-reverse, take-append-drop, arith, append_assoc, Option-cases,
  take-append, drop-append, inl, inr,
}
use mathlib.Core.Path.{subst₂}
use mathlib.Core.List.{reverse-append, reverse-cons, reverse-reverse}
use php_lsp.Prelude.Chars.{Text, units}
use php_lsp.Text.Offset.{Position, Range, u32, utf16_col_to_char_index}
use php_lsp.Text.Offset.Columns.{utf16_col_to_char_index-le}
use php_lsp.Text.Word.{
  split_lines, nth_line, strip_return, if_any, slice_of, range_on, word_range_at, word_at_position,
  run_length, is_word, char_range_for_word,
}

-- No character of the kind stands first.
abbrev pub stops : (ℕ → Bool) → Text → Bool
stops test [] = true
stops test (c ∷ s) = not (test c)

run_length-le : (test : ℕ → Bool) (s : Text) → run_length test s ≤ length s
run_length-le test [] = omega arith
run_length-le test (c ∷ s) = ground (arith, run_length-le test s)

all-take_run : (test : ℕ → Bool) (s : Text) → all test (take (run_length test s) s) ≡ true
all-take_run test [] = refl
all-take_run test (c ∷ s) = ground (arith, all-take_run test s)

stops-drop_run : (test : ℕ → Bool) (s : Text) → stops test (drop (run_length test s) s) ≡ true
stops-drop_run test [] = refl
stops-drop_run test (c ∷ s) = ground (arith, stops-drop_run test s)

all-append : (test : ℕ → Bool) (s t : Text) → all test (s ++ t) ≡ (all test s && all test t)
all-append test [] t = refl
all-append test (c ∷ s) t = ground (arith, all-append test s t)

all-reverse : (test : ℕ → Bool) (s : Text) → all test (reverse s) ≡ all test s
all-reverse test [] = refl
all-reverse test (c ∷ s) =
    rw (reverse-cons c s, all-append test (reverse s) (c ∷ []), all-reverse test s) (ground arith)

-- The longest run that ends a text, and what is before it.
abbrev run_before : (ℕ → Bool) → Text → Text
run_before test s = reverse (take (run_length test (reverse s)) (reverse s))

abbrev left_of_run : (ℕ → Bool) → Text → Text
left_of_run test s = reverse (drop (run_length test (reverse s)) (reverse s))

left_of_run-run_before : (test : ℕ → Bool) (s : Text) → left_of_run test s ++ run_before test s ≡ s
left_of_run-run_before test s =
    sym (
      reverse-append (take (run_length test (reverse s)) (reverse s))
        (drop (run_length test (reverse s)) (reverse s)))
    ∙ ap reverse (take-append-drop (run_length test (reverse s)) (reverse s))
    ∙ reverse-reverse s

abbrev found_range : Bool → Bool → ℕ × ℕ → Option (ℕ × ℕ)
found_range a b range = if a then none else if b then none else some range

range_found :
    (a b : Bool) (x y left right : ℕ)
    → found_range a b (x, y) ≡ some (left, right)
    → (b ≡ false) × (x ≡ left) × (y ≡ right)
range_found a b x y left right h = ground arith

add-sub : (a b : ℕ) → a + b - a ≡ b
add-sub a b = omega arith

take_front :
    (before word after : Text)
    → take (length before + length word) (before ++ (word ++ after)) ≡ before ++ word
take_front before word after =
    rw (sym (append_assoc before word after), sym (length-append before word))
      (take-append (before ++ word) after)

slice_cut :
    (before word after : Text)
    → slice_of (before ++ (word ++ after)) (length before, length before + length word) ≡ word
slice_cut before word after =
    rw
      (
        drop-append before (word ++ after),
        add-sub (length before) (length word),
        take-append word after,
      )
      refl

any_char : (word : Text) → 0 < length word → if_any word ≡ some word
any_char [] p = absurd (omega arith)
any_char (c ∷ word) p = refl

range_cut :
    (before word after : Text) (line : ℕ)
    → range_on (before ++ (word ++ after)) line (length before, length before + length word)
      ≡ record {
        start = record { line = line; character = u32 (units before) };
        stop = record { line = line; character = u32 (units (before ++ word)) };
      }
range_cut before word after line =
    rw (take-append before (word ++ after), take_front before word after) refl

some_inj : {A : Type 0} {a b : A} → some a ≡ some b → a ≡ b
some_inj h = cc

module _ (is_alphanumeric : ℕ → Bool) where
  -- The cut of a line that the indices `left` and `right` stand for.
  pub record IsWordCut (line : Text) (left right : ℕ) (before word after : Text) : Type 0 where
    pub whole : line ≡ before ++ (word ++ after)
    pub left_at : left ≡ length before
    pub right_at : right ≡ length before + length word
    pub is_run : all (is_word is_alphanumeric) word ≡ true
    pub stops_before : stops (is_word is_alphanumeric) (reverse before) ≡ true
    pub stops_after : stops (is_word is_alphanumeric) after ≡ true

  cut_at :
      (line l r : Text)
      → l ++ r ≡ line
      → IsWordCut line
          (length l - run_length (is_word is_alphanumeric) (reverse l))
          (length l + run_length (is_word is_alphanumeric) r)
          (left_of_run (is_word is_alphanumeric) l)
          (run_before (is_word is_alphanumeric) l
            ++ take (run_length (is_word is_alphanumeric) r) r)
          (drop (run_length (is_word is_alphanumeric) r) r)
  cut_at line l r e =
      let w : ℕ → Bool = is_word is_alphanumeric in
      let n = run_length w (reverse l) in
      let k = run_length w r in
      record {
        whole =
            sym e
            ∙ ap (λ t. t ++ r) (sym (left_of_run-run_before w l))
            ∙ ap (λ t. (left_of_run w l ++ run_before w l) ++ t) (sym (take-append-drop k r))
            ∙ simp append_assoc;
        left_at = omega (
          arith,
          length-reverse (drop n (reverse l)),
          length-drop n (reverse l),
          length-reverse l,
        );
        right_at = omega (
          arith,
          length-reverse (drop n (reverse l)),
          length-drop n (reverse l),
          length-reverse l,
          run_length-le w (reverse l),
          run_length-le w r,
          length-reverse (take n (reverse l)),
          length-take n (reverse l),
          length-take k r,
          length-append (run_before w l) (take k r),
        );
        is_run =
            rw
              (
                all-append w (run_before w l) (take k r),
                all-reverse w (take n (reverse l)),
                all-take_run w (reverse l),
                all-take_run w r,
              )
              refl;
        stops_before = rw (reverse-reverse (drop n (reverse l))) (stops-drop_run w (reverse l));
        stops_after = stops-drop_run w r;
      }

  -- A range of a word is a cut of the line into what is before the word, the word, which is not
  -- empty, and what is behind it, and neither side goes on with a word character.
  pub char_range_for_word-IsWordCut :
      (line : Text) (char_offset left right : ℕ)
      → char_range_for_word is_alphanumeric line char_offset ≡ some (left, right)
      → (before word after : Text) × IsWordCut line left right before word after × (0 < length word)
  unfolding char_range_for_word
  char_range_for_word-IsWordCut line char_offset left right h =
      let w : ℕ → Bool = is_word is_alphanumeric in
      let pos = utf16_col_to_char_index line char_offset in
      let l : Text = take pos line in
      let r : Text = drop pos line in
      let n = run_length w (reverse l) in
      let k = run_length w r in
      let (apart, at_left, at_right) =
        range_found (ltb (units line) char_offset) (pos - n == pos + k) (pos - n) (pos + k) left
          right h in
      let same : length l ≡ pos =
        omega (arith, length-take pos line, utf16_col_to_char_index-le line char_offset) in
      let cut =
        subst₂ (λ a b. IsWordCut line a b (left_of_run w l) (run_before w l ++ take k r) (drop k r))
          (ap (λ i. i - n) same ∙ at_left) (ap (λ i. i + k) same ∙ at_right)
          (cut_at line l r (take-append-drop pos line)) in
      (
        left_of_run w l,
        run_before w l ++ take k r,
        drop k r,
        cut,
        ground (arith, cut.left_at, cut.right_at, apart, at_left, at_right),
      )

  -- The word under the cursor and its range are found together, and the range stands around the
  -- word: on the cursor's line, between the text before the word and the text behind it, neither of
  -- which goes on with a word character.
  pub word_at_position-word_range_at :
      (source : Text) (position : Position) (range : Range)
      → word_range_at is_alphanumeric source position ≡ some range
      → (line before word after : Text) × (nth_line (split_lines source) position.line ≡ some line)
        × (strip_return line ≡ before ++ (word ++ after))
        × (word_at_position is_alphanumeric source position ≡ some word)
        × (range.start ≡ record { line = position.line; character = u32 (units before) })
        × (range.stop ≡ record { line = position.line; character = u32 (units (before ++ word)) })
        × (all (is_word is_alphanumeric) word ≡ true)
        × (stops (is_word is_alphanumeric) (reverse before) ≡ true)
        × (stops (is_word is_alphanumeric) after ≡ true)
  unfolding word_range_at word_at_position
  word_at_position-word_range_at source position range h =
      elim (Option-cases (nth_line (split_lines source) position.line)) [
        | inl g ↦ absurd cc
        | inr (raw, g) ↦
            elim (Option-cases
              (char_range_for_word is_alphanumeric (strip_return raw) position.character)) [
                | inl f ↦ absurd cc
                | inr ((left, right), f) ↦
                    let (before, word, after, cut, some_char) =
                      char_range_for_word-IsWordCut (strip_return raw) position.character left right
                        f in
                    let stands : range_on (strip_return raw) position.line (left, right) ≡ range =
                      some_inj (rw (word_range_at, g, f) at h) in
                    let range_is =
                      sym stands
                      ∙ rw (cut.whole, cut.left_at, cut.right_at)
                          (range_cut before word after position.line) in
                    (
                      raw,
                      before,
                      word,
                      after,
                      g,
                      cut.whole,
                      rw (word_at_position, g, f, cut.whole, cut.left_at, cut.right_at)
                          (ap if_any (slice_cut before word after) ∙ any_char word some_char),
                      ap (λ r. r.start) range_is,
                      ap (λ r. r.stop) range_is,
                      cut.is_run,
                      cut.stops_before,
                      cut.stops_after,
                    )
              ]
      ]
