-- ===== src/Editing/OnTypeFormat/Scan.antt =====
-- The backward scan of `close_brace`, against nested blocks of braces.
use php_lsp.Prelude.{
  ℕ, suc, ◌+◌, ◌-◌, ◌≤◌, ◌≡◌, refl, some, none, Bool, true, false, ◌||◌, not, List, [], ◌∷◌, ◌++◌,
  ◌==◌, if◌then◌else◌, reverse, ap, ◌∙◌, arith,
}
use mathlib.Core.List.{reverse_aux, reverse_aux-append}
use php_lsp.Text.Offset.{newline}
use php_lsp.Editing.OnTypeFormat.{scan_step, scan_back, onward}

-- A character that the scan passes over: a masked one, or one that is no brace.
abbrev pub is_plain : ℕ → Bool → Bool
is_plain c masked = masked || c == newline || not (c == b'{' || c == b'}')

-- Text whose braces match, apart from the masked ones.
pub data Nested : Type 0 where
  nothing : Nested
  char : (c : ℕ) (masked : Bool) → is_plain c masked ≡ true → Nested → Nested
  block : Nested → Nested → Nested

abbrev pub flat : Nested → List (ℕ × Bool)
flat nothing = []
flat (char c masked h rest) = (c, masked) ∷ flat rest
flat (block inner rest) = (b'{', false) ∷ flat inner ++ ((b'}', false) ∷ flat rest)

-- The lines that end in it.
abbrev pub newlines : List (ℕ × Bool) → ℕ
newlines [] = 0
newlines ((c, masked) ∷ s) = if c == newline then suc (newlines s) else newlines s

newlines-append : (s t : List (ℕ × Bool)) → newlines (s ++ t) ≡ newlines s + newlines t
newlines-append [] t = omega arith
newlines-append ((c, masked) ∷ s) t = ground (arith, newlines-append s t)

-- The newline that a character is.
abbrev line_end : ℕ → ℕ
line_end c = if c == newline then 1 else 0

scan_step-plain :
    (c : ℕ) (masked : Bool) (depth line : ℕ)
    → is_plain c masked ≡ true
    → line_end c ≤ line
    → scan_step c masked depth line ≡ onward depth (line - line_end c)
unfolding scan_step
scan_step-plain c masked depth line p h = ground arith

scan_back-step :
    (c : ℕ) (masked : Bool) (front : List (ℕ × Bool)) (depth line depth' line' : ℕ)
    → scan_step c masked depth line ≡ onward depth' line'
    → scan_back ((c, masked) ∷ front) depth line ≡ scan_back front depth' line'
unfolding scan_back
scan_back-step c masked front depth line depth' line' e = rw (scan_back, e) refl

scan_step-close : (depth line : ℕ) → scan_step b'}' false depth line ≡ onward (suc depth) line
unfolding scan_step
scan_step-close depth line = ap (λ d. onward d line) (omega arith)

scan_step-open :
    (depth line : ℕ) → scan_step b'{' false (suc (suc depth)) line ≡ onward (suc depth) line
unfolding scan_step
scan_step-open depth line = ground arith

scan_back-found :
    (front : List (ℕ × Bool)) (line : ℕ)
    → scan_back ((b'{', false) ∷ front) 1 line ≡ some (some line)
unfolding scan_back scan_step
scan_back-found front line = refl

newlines-cons :
    (c : ℕ) (masked : Bool) (s : List (ℕ × Bool))
    → newlines ((c, masked) ∷ s) ≡ newlines s + line_end c
newlines-cons c masked s = ground arith

newlines-block :
    (inner rest : Nested)
    → newlines (flat (block inner rest)) ≡ newlines (flat inner) + newlines (flat rest)
newlines-block inner rest = newlines-append (flat inner) ((b'}', false) ∷ flat rest)

scan_back-end : (depth line : ℕ) → scan_back [] depth line ≡ some none
unfolding scan_back
scan_back-end depth line = refl

-- The scan passes over nested text and only counts its lines.
scan_back-flat :
    (b : Nested) (front : List (ℕ × Bool)) (depth line : ℕ)
    → newlines (flat b) ≤ line
    → scan_back (reverse_aux (flat b) front) (suc depth) line
      ≡ scan_back front (suc depth) (line - newlines (flat b))
scan_back-flat nothing front depth line h = ap (scan_back front (suc depth)) (omega arith)
scan_back-flat (char c masked p rest) front depth line h =
    scan_back-flat rest ((c, masked) ∷ front) depth line
      (omega (arith, newlines-cons c masked (flat rest), h))
    ∙ scan_back-step c masked front (suc depth) _ _ _ (
        scan_step-plain c masked (suc depth) (line - newlines (flat rest)) p
          (omega (arith, newlines-cons c masked (flat rest), h)))
    ∙ ap (scan_back front (suc depth)) (omega (arith, newlines-cons c masked (flat rest)))
scan_back-flat (block inner rest) front depth line h =
    ap (λ s. scan_back s (suc depth) line)
      (reverse_aux-append (flat inner) ((b'}', false) ∷ flat rest) ((b'{', false) ∷ front))
    ∙ scan_back-flat rest ((b'}', false) ∷ reverse_aux (flat inner) ((b'{', false) ∷ front)) depth
        line (omega (arith, newlines-block inner rest, h))
    ∙ scan_back-step b'}' false (reverse_aux (flat inner) ((b'{', false) ∷ front)) (suc depth)
        (line - newlines (flat rest)) _ _
        (scan_step-close (suc depth) (line - newlines (flat rest)))
    ∙ scan_back-flat inner ((b'{', false) ∷ front) (suc depth) (line - newlines (flat rest))
        (omega (arith, newlines-block inner rest, h))
    ∙ scan_back-step b'{' false front (suc (suc depth))
        (line - newlines (flat rest) - newlines (flat inner)) _ _
        (scan_step-open depth (line - newlines (flat rest) - newlines (flat inner)))
    ∙ ap (scan_back front (suc depth)) (omega (arith, newlines-block inner rest))

-- Over nested blocks, whose braces match where they are not masked, with no more line breaks than
-- the line it starts on, the backward scan of `close_brace` finds the line of the open brace in
-- front of them, and no line where there is nothing in front of them.
pub scan_back-Nested :
    (before : List (ℕ × Bool)) (inner : Nested) (line : ℕ)
    → newlines (flat inner) ≤ line
    → (scan_back (reverse (before ++ ((b'{', false) ∷ flat inner))) 1 line
        ≡ some (some (line - newlines (flat inner))))
      × (scan_back (reverse (flat inner)) 1 line ≡ some none)
scan_back-Nested before inner line h = (
  ap (λ s. scan_back s 1 line) (reverse_aux-append before ((b'{', false) ∷ flat inner) [])
      ∙ scan_back-flat inner ((b'{', false) ∷ reverse before) 0 line h
      ∙ scan_back-found (reverse before) (line - newlines (flat inner)),
  scan_back-flat inner [] 0 line h ∙ scan_back-end 1 (line - newlines (flat inner)),
)
