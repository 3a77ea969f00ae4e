-- ===== src/Editing/OrganizeImports/Statement/Used.antt =====
-- src/editing/organize_imports.rs: where `is_used` finds a name, and where it panics.
use php_lsp.Prelude.{
  ℕ, ◌≡◌, ◌≢◌, refl, sym, ap, ◌∙◌, ◌↔◌, ◌⊎◌, ◌≤◌, Option, none, some, Bool, true, false, ◌&&◌, [],
  ◌∷◌, ◌++◌, if◌then◌else◌, length, drop, drop-append, append_assoc, arith, Bool-cases, inl, inr,
}
use php_lsp.Prelude.Chars.{Text, len_utf8, Lacks}
use php_lsp.Prelude.Strs.{starts_with}
use php_lsp.Editing.OrganizeImports.Statement.{
  UseStatement, before_ok, after_ok, used_from, is_used,
}

-- The character before the place behind a text.
abbrev pub last_of : Option ℕ → Text → Option ℕ
last_of prev [] = prev
last_of prev (c ∷ s) = last_of (some c) s

-- A letter or digit of ASCII, or `_`.
abbrev pub IsNameChar : ℕ → Type 0
IsNameChar c =
    ((b'0' ≤ c) × (c ≤ b'9'))
    ⊎ (((b'A' ≤ c) × (c ≤ b'Z')) ⊎ (((b'a' ≤ c) × (c ≤ b'z')) ⊎ (c ≡ b'_')))

-- The character before a word, if there is one.
abbrev pub BeginsWord : Option ℕ → Type 0
BeginsWord none = Unit
BeginsWord (some c) = (¬ IsNameChar c) × (c ≢ b'\\')

-- The text behind a word.
abbrev pub EndsWord : Text → Type 0
EndsWord [] = Unit
EndsWord (c ∷ s) = ¬ IsNameChar c

-- The word stands in the text, not behind a letter or digit of ASCII, `_` or `\`, and not in front of
-- a letter or digit of ASCII or `_`.
abbrev pub StandsIn : Text → Option ℕ → Text → Type 0
StandsIn word prev text =
    (before : Text) × (after : Text) × (text ≡ before ++ (word ++ after))
    × BeginsWord (last_of prev before)
    × EndsWord after

before_ok-BeginsWord : (o : Option ℕ) → (before_ok o ≡ true) ↔ BeginsWord o
before_ok-BeginsWord none = (λ h. tt, λ h. refl)
before_ok-BeginsWord (some c) = (λ h. ground arith, λ (h, k). ground arith)

after_ok-EndsWord : (s : Text) → (after_ok s ≡ true) ↔ EndsWord s
after_ok-EndsWord [] = (λ h. tt, λ h. refl)
after_ok-EndsWord (c ∷ s) = (λ h. ground arith, λ h. ground arith)

starts_with-cut : (p s : Text) → starts_with p s ≡ true → s ≡ p ++ drop (length p) s
unfolding starts_with
starts_with-cut [] s h = refl
starts_with-cut (c ∷ p) [] h = cc
starts_with-cut (c ∷ p) (d ∷ s) h = ground (arith, starts_with-cut p s)

starts_with-append : (p s : Text) → starts_with p (p ++ s) ≡ true
unfolding starts_with
starts_with-append [] s = refl
starts_with-append (c ∷ p) s = ground (arith, starts_with-append p s)

narrow_first :
    (w c : ℕ) (word s : Text)
    → len_utf8 w ≡ 1
    → starts_with (w ∷ word) (c ∷ s) ≡ true
    → len_utf8 c ≡ 1
unfolding starts_with
narrow_first w c word s narrow h = ap len_utf8 same ∙ narrow
  where
    same : c ≡ w
    same = ground (arith, h)

last_of-append : (prev : Option ℕ) (s : Text) (c : ℕ) → last_of prev (s ++ c ∷ []) ≡ some c
last_of-append prev [] c = refl
last_of-append prev (d ∷ s) c = last_of-append (some d) s c

some_inj : {A : Type 0} {a b : A} → some a ≡ some b → a ≡ b
some_inj h = cc

module _ (w : ℕ) (word : Text) where
  used_sound :
      (prev : Option ℕ) (s : Text)
      → used_from (w ∷ word) prev s ≡ some true
      → StandsIn (w ∷ word) prev s
  unfolding used_from
  used_sound prev [] h = cc
  used_sound prev (c ∷ s) h =
      elim (Bool-cases (
        starts_with (w ∷ word) (c ∷ s)
        && (before_ok prev && after_ok (drop (length (w ∷ word)) (c ∷ s))))) [
          | inl here ↦ (
            [],
            drop (length (w ∷ word)) (c ∷ s),
            ground (arith, starts_with-cut (w ∷ word) (c ∷ s)),
            (before_ok-BeginsWord prev).0 (ground arith),
            (after_ok-EndsWord (drop (length (w ∷ word)) (c ∷ s))).0 (ground arith),
          )
          | inr later ↦
              let (before, after, split, front, back) = used_sound (some c) s (ground arith) in
              (c ∷ before, after, ap (λ t. c ∷ t) split, front, back)
        ]

  used_complete :
      (prev : Option ℕ) (before after : Text)
      → len_utf8 w ≡ 1
      → before_ok (last_of prev before) ≡ true
      → after_ok after ≡ true
      → used_from (w ∷ word) prev (before ++ (w ∷ word ++ after)) ≡ some true
  unfolding used_from
  used_complete prev [] after narrow front back =
      ground (arith, starts_with-append (w ∷ word) after, drop-append (w ∷ word) after)
  used_complete prev (c ∷ before) after narrow front back = ground (
    arith,
    used_complete (some c) before after narrow front back,
    narrow_first w c word (before ++ (w ∷ word ++ after)) narrow,
  )

  used_safe :
      (prev : Option ℕ) (s : Text)
      → len_utf8 w ≡ 1
      → (b : Bool) × (used_from (w ∷ word) prev s ≡ some b)
  unfolding used_from
  used_safe prev [] narrow = (false, refl)
  used_safe prev (c ∷ s) narrow =
      let (b, e) = used_safe (some c) s narrow in
      (
        if starts_with (w ∷ word) (c ∷ s)
              && (before_ok prev && after_ok (drop (length (w ∷ word)) (c ∷ s)))
            then true
            else b,
        ground (arith, e, narrow_first w c word s narrow),
      )

  -- A name that begins with an ASCII character is looked for without a panic, and is found exactly
  -- if it stands in the body neither behind an ASCII letter or digit, `_` or `\` nor in front of
  -- an ASCII letter or digit or `_`.
  pub is_used-StandsIn :
      (u : UseStatement) (body : Text)
      → u.short ≡ w ∷ word
      → len_utf8 w ≡ 1
      → (b : Bool) × (is_used u body ≡ some b) × ((b ≡ true) ↔ StandsIn (w ∷ word) none body)
  unfolding is_used
  is_used-StandsIn u body e narrow =
      let (b, found) = used_safe none body narrow in
      (
        b,
        ap (λ t. used_from t none body) e ∙ found,
        (
          (λ is_true. used_sound none body (found ∙ ap some is_true)),
          λ (before, after, split, front, back). some_inj (
              sym found
              ∙ ap (used_from (w ∷ word) none) split
              ∙ used_complete none before after narrow
                  ((before_ok-BeginsWord (last_of none before)).1 front)
                  ((after_ok-EndsWord after).1 back)),
        ),
      )

  skips_lacking :
      (prev : Option ℕ) (before s : Text)
      → Lacks w before
      → used_from (w ∷ word) prev (before ++ s) ≡ used_from (w ∷ word) (last_of prev before) s
  unfolding used_from starts_with
  skips_lacking prev [] s h = refl
  skips_lacking prev (c ∷ before) s h = ground (arith, skips_lacking (some c) before s h.1)

  panics_at :
      (c : ℕ) (after : Text)
      → len_utf8 w ≢ 1
      → before_ok (some c) ≡ false
      → used_from (w ∷ word) (some c) (w ∷ word ++ after) ≡ none
  unfolding used_from
  panics_at c after wide joined = ground (arith, starts_with-append (w ∷ word) after, wide, joined)

  -- A name that begins with a character outside ASCII, where it stands as the end of another name,
  -- makes the search panic, if that character has not been met before.
  pub is_used_panics :
      (u : UseStatement) (before after : Text) (c : ℕ)
      → u.short ≡ w ∷ word
      → len_utf8 w ≢ 1
      → Lacks w (before ++ c ∷ [])
      → before_ok (some c) ≡ false
      → is_used u (before ++ (c ∷ w ∷ word ++ after)) ≡ none
  unfolding is_used
  is_used_panics u before after c e wide lacks joined =
      ap (λ t. used_from t none (before ++ (c ∷ w ∷ word ++ after))) e
      ∙ ap (used_from (w ∷ word) none) (sym (append_assoc before (c ∷ []) (w ∷ word ++ after)))
      ∙ skips_lacking none (before ++ c ∷ []) (w ∷ word ++ after) lacks
      ∙ ap (λ o. used_from (w ∷ word) o (w ∷ word ++ after)) (last_of-append none before c)
      ∙ panics_at c after wide joined
