-- ===== src/Editing/OrganizeImports/Statement/RoundTrip.antt =====
-- src/editing/organize_imports.rs: `parse_single_use` reads back what `render_group` writes.
use php_lsp.Prelude.{
  ℕ, ◌≡◌, ◌≢◌, refl, ap, ◌∙◌, none, some, Bool, true, false, not, [], ◌∷◌, ◌++◌, all, arith,
}
use php_lsp.Prelude.Chars.{Text, codes}
use php_lsp.Prelude.Strs.{
  is_whitespace, is_empty, strip_prefix, split_once, trim, trim_start_by, trim_end_by,
}
use php_lsp.Editing.OrganizeImports.Statement.{UseKind, fqn_short_name, parse_single_use}

-- No white space stands in the text.
abbrev pub solid : Text → Bool
solid s = all (λ c. not (is_whitespace c)) s

trim_end-solid : (s : Text) → solid s ≡ true → trim_end_by is_whitespace s ≡ s
unfolding trim_end_by
trim_end-solid [] h = refl
trim_end-solid (c ∷ []) h = ground arith
trim_end-solid (c ∷ d ∷ s) h = rw (trim_end_by, trim_end-solid (d ∷ s) (ground arith)) refl

trim-solid : (s : Text) → solid s ≡ true → trim s ≡ s
unfolding trim_start_by
trim-solid [] h = trim_end-solid [] h
trim-solid (c ∷ s) h =
    let starts : trim_start_by is_whitespace (c ∷ s) ≡ c ∷ s = ground arith in
    ap (trim_end_by is_whitespace) starts ∙ trim_end-solid (c ∷ s) h

abbrev as_word : Text
as_word = codes " as "

not_space : (c : ℕ) → is_whitespace c ≡ false → c ≢ 32
unfolding is_whitespace
not_space c h = ground arith

no_as : (c : ℕ) (s : Text) → is_whitespace c ≡ false → strip_prefix as_word (c ∷ s) ≡ none
unfolding strip_prefix
no_as c s h = ground (arith, not_space c h)

split_once-as :
    (fqn alias : Text)
    → solid fqn ≡ true
    → split_once as_word (fqn ++ (as_word ++ alias)) ≡ some (fqn, alias)
unfolding split_once strip_prefix
split_once-as [] alias h = refl
split_once-as (c ∷ fqn) alias h =
    rw
      (
        split_once,
        no_as c (fqn ++ (as_word ++ alias)) (ground arith),
        split_once-as fqn alias (ground arith),
      )
      refl

split_once-solid : (fqn : Text) → solid fqn ≡ true → split_once as_word fqn ≡ none
unfolding split_once strip_prefix
split_once-solid [] h = refl
split_once-solid (c ∷ fqn) h =
    rw (split_once, no_as c fqn (ground arith), split_once-solid fqn (ground arith)) refl

is_empty-false : (s : Text) → s ≢ [] → is_empty s ≡ false
is_empty-false [] ne = ground arith
is_empty-false (c ∷ s) ne = refl

-- A name without white space, alone or with an alias that is trimmed, is read back as it stands.
pub parse_single_use_printed :
    (fqn alias : Text) (kind : UseKind)
    → fqn ≢ []
    → solid fqn ≡ true
    → trim alias ≡ alias
    → (parse_single_use fqn kind
        ≡ some record { fqn = fqn; alias = none; short = fqn_short_name fqn; kind = kind })
      × (parse_single_use (fqn ++ (codes " as " ++ alias)) kind
          ≡ some record { fqn = fqn; alias = some alias; short = alias; kind = kind })
unfolding parse_single_use fqn_short_name
parse_single_use_printed fqn alias kind ne h t = (
  rw (parse_single_use, split_once-solid fqn h, trim-solid fqn h, is_empty-false fqn ne) refl,
  rw (parse_single_use, split_once-as fqn alias h, trim-solid fqn h, t, is_empty-false fqn ne) refl,
)
