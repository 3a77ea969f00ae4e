-- ===== src/Editing/OnTypeFormat/Applied.antt =====
-- The edits of both handlers, applied to the text as a change of the client.
use php_lsp.Prelude.{
  ℕ, zero, suc, ◌+◌, ◌-◌, ◌<◌, ◌^◌, ◌≡◌, refl, sym, ap, subst, ◌∙◌, Option, some, none, Bool, true,
  false, List, [], ◌∷◌, ◌++◌, ◌==◌, ◌&&◌, not, ltb, if◌then◌else◌, take, get_elem?, arith,
  Bool-cases, inl, inr, all, All,
}
use native.Mathlib.Nat.{mod-eq_of_lt}
use php_lsp.Prelude.Chars.{Text, len_utf8, len_utf16, byte_len, codes, len_utf8_pos}
use php_lsp.Prelude.Strs.{lines, is_whitespace, is_empty, text_eq}
use php_lsp.Text.Offset.{newline, Position, apply_content_change}
use php_lsp.Text.Offset.Spec.{prefix_at}
use php_lsp.Text.Offset.Change.{line_suffix, suffix_at, apply_content_change-edited, pos_leb}
use php_lsp.Editing.OnTypeFormat.{
  FormattingOptions, TextEdit, replace_indent, edits_unless_same, leading_whitespace, or_empty,
  desired_indent, previous_line, indent_new_line, chars_within, with_match, close_brace,
  on_type_format,
}

-- The text in front of line `k`, from the start of the text on.
abbrev pub is_lines : ℕ → Text → Bool
is_lines zero [] = true
is_lines zero (c ∷ s) = false
is_lines (suc k) [] = false
is_lines (suc k) (c ∷ s) = is_lines (if c == newline then k else suc k) s

-- Characters that take one byte and do not end a line.
abbrev pub is_ascii_inline : ℕ → Bool
is_ascii_inline c = ltb c 128 && not (c == newline)

prefix_at-is_lines : (s t : Text) (k : ℕ) → is_lines k s ≡ true → prefix_at (s ++ t) k 0 ≡ s
prefix_at-is_lines [] [] zero h = refl
prefix_at-is_lines [] (c ∷ t) zero h = ground arith
prefix_at-is_lines [] t (suc k) h = absurd (ground arith)
prefix_at-is_lines (c ∷ s) t zero h = absurd (ground arith)
prefix_at-is_lines (c ∷ s) t (suc k) h =
    ground (arith, prefix_at-is_lines s t k, prefix_at-is_lines s t (suc k))

suffix_at-is_lines :
    (s t : Text) (k col : ℕ) → is_lines k s ≡ true → suffix_at (s ++ t) k col ≡ line_suffix t col
suffix_at-is_lines [] t zero col h = refl
suffix_at-is_lines [] t (suc k) col h = absurd (ground arith)
suffix_at-is_lines (c ∷ s) t zero col h = absurd (ground arith)
suffix_at-is_lines (c ∷ s) t (suc k) col h =
    ground (arith, suffix_at-is_lines s t k col, suffix_at-is_lines s t (suc k) col)

line_suffix-zero : (s : Text) → line_suffix s 0 ≡ s
line_suffix-zero [] = refl
line_suffix-zero (c ∷ s) = refl

one_byte :
    (c : ℕ) (s : Text)
    → is_ascii_inline c ≡ true
    → len_utf8 c + byte_len s - len_utf16 c ≡ byte_len s
unfolding len_utf8 len_utf16
one_byte c s h = ground arith

line_suffix-ascii :
    (indent rest : Text)
    → all is_ascii_inline indent ≡ true
    → line_suffix (indent ++ rest) (byte_len indent) ≡ rest
line_suffix-ascii [] rest h = line_suffix-zero rest
line_suffix-ascii (c ∷ s) rest h = ground (
  arith,
  len_utf8_pos c,
  ap (line_suffix (s ++ rest)) (one_byte c s (ground arith)),
  line_suffix-ascii s rest (ground arith),
)

in_order :
    (k n : ℕ)
    → pos_leb (record { line = k; character = 0 }) (record { line = k; character = n }) ≡ true
in_order k n = ground arith

replace_indent-applied :
    (position : Position) (before indent rest new_text : Text)
    → is_lines position.line before ≡ true
    → all is_ascii_inline indent ≡ true
    → byte_len indent < 2 ^ 32
    → apply_content_change
        (before ++ (indent ++ rest))
        (replace_indent position indent new_text).range
        new_text
      ≡ some (before ++ (new_text ++ rest))
unfolding replace_indent
replace_indent-applied position before indent rest new_text h a b =
    rw
      (
        mod-eq_of_lt b,
        apply_content_change-edited,
        prefix_at-is_lines before (indent ++ rest) position.line h,
        suffix_at-is_lines before (indent ++ rest) position.line (byte_len indent) h,
        line_suffix-ascii indent rest a,
        in_order position.line (byte_len indent),
      )
      refl

-- Applied to the text, the edit puts its new text in place of what stands between the two parts.
abbrev pub IsReindent : Text → Text → Text → TextEdit → Type 0
IsReindent source before rest e =
    apply_content_change source e.range e.new_text ≡ some (before ++ (e.new_text ++ rest))

All-if :
    (P : TextEdit → Type 0) (b : Bool) (x y : List TextEdit)
    → All P x
    → All P y
    → All P (if b then x else y)
All-if P true x y hx hy = hx
All-if P false x y hx hy = hy

-- The edits of a handler that does not panic.
abbrev OnSome : (TextEdit → Type 0) → Option (List TextEdit) → Type 0
OnSome P none = Unit
OnSome P (some edits) = All P edits

module _ (source : Text) (position : Position) (before indent rest : Text)
    (placed : source ≡ before ++ (indent ++ rest)) (line_h : is_lines position.line before ≡ true)
    (ascii : all is_ascii_inline indent ≡ true) (small : byte_len indent < 2 ^ 32)
    (indented : leading_whitespace (or_empty (get_elem? (lines source) position.line))
      ≡ indent) where
  edits_unless_same-applied :
      (old new_indent : Text)
      → old ≡ indent
      → All (IsReindent source before rest) (edits_unless_same position old new_indent)
  unfolding edits_unless_same replace_indent
  edits_unless_same-applied old new_indent e = elim (Bool-cases (text_eq new_indent old)) [
    | inl t ↦ rw t tt
    | inr t ↦
        rw (t, e, placed)
          (replace_indent-applied position before indent rest new_indent line_h ascii small, tt)
  ]

  indent_new_line-applied :
      (options : FormattingOptions)
      → All (IsReindent source before rest) (indent_new_line source position options)
  unfolding indent_new_line
  indent_new_line-applied options = All-if _ (position.line == 0) [] _ tt (
      All-if _
        (is_empty (desired_indent options (or_empty (previous_line (lines source) position.line))))
        [] _ tt (edits_unless_same-applied _ _ indented))

  with_match-applied :
      (cur_line : Text) (m : Option (Option ℕ))
      → leading_whitespace cur_line ≡ indent
      → OnSome (IsReindent source before rest) (with_match source position cur_line m)
  with_match-applied cur_line none e = tt
  with_match-applied cur_line (some m) e = edits_unless_same-applied _ _ e

  close_brace-applied :
      (o : Option Text)
      → get_elem? (lines source) position.line ≡ o
      → OnSome (IsReindent source before rest) (close_brace source position)
  unfolding close_brace
  close_brace-applied none h = rw (close_brace, h) tt
  close_brace-applied (some l) h =
      elim (Bool-cases (all is_whitespace (take (chars_within position.character 0 l - 1) l))) [
        | inl t ↦
            rw (close_brace, h, t)
              (with_match-applied l _
                (sym (ap (λ o. leading_whitespace (or_empty o)) h) ∙ indented))
        | inr t ↦ rw (close_brace, h, t) tt
      ]

  format-applied :
      (ch : Text) (options : FormattingOptions)
      → OnSome (IsReindent source before rest) (on_type_format source position ch options)
  unfolding on_type_format
  format-applied ch options = elim (Bool-cases (text_eq ch (codes "}"))) [
    | inl t ↦ rw t (close_brace-applied _ refl)
    | inr t ↦ elim (Bool-cases (text_eq ch (codes "\n"))) [
      | inl n ↦ rw (t, n) (indent_new_line-applied options)
      | inr n ↦ rw (t, n) tt
    ]
  ]

  -- Where the white space at the start of the typed line is ASCII, of less than 2^32 bytes and
  -- stands behind the lines in front of it, every edit of `on_type_format`, applied to the text as
  -- a change, replaces exactly that white space by the edit's new text.
  pub on_type_format-applied :
      (ch : Text) (options : FormattingOptions) (edits : List TextEdit)
      → on_type_format source position ch options ≡ some edits
      → All (IsReindent source before rest) edits
  on_type_format-applied ch options edits h =
      subst (OnSome (IsReindent source before rest)) h (format-applied ch options)
