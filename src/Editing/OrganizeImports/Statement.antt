-- ===== src/Editing/OrganizeImports/Statement.antt =====
-- src/editing/organize_imports.rs: one `use` statement, parsed and tested for being used.
pub mod RoundTrip
pub mod Used
use php_lsp.Prelude.{
  ℕ, zero, suc, Option, none, some, Bool, true, false, ◌&&◌, ◌||◌, not, List, [], ◌∷◌, ◌++◌, ◌==◌,
  if◌then◌else◌, length, drop,
}
use php_lsp.Prelude.Chars.{Text, codes, len_utf8}
use php_lsp.Prelude.Strs.{
  is_ascii_alphanumeric, is_empty, strip_prefix, starts_with, split_by, split_once, span_to, trim,
  trim_start, trim_end_by, after_last,
}

pub data UseKind : Type 0 where
  class : UseKind
  function : UseKind
  const : UseKind

pub record UseStatement : Type 0 where
  pub fqn : Text
  pub alias : Option Text
  pub short : Text
  pub kind : UseKind

abbrev pub backslash : ℕ
backslash = b'\\'

-- `crate::text::fqn_short_name`
unfoldable pub fqn_short_name : Text → Text
fqn_short_name fqn = after_last backslash fqn

-- `text.split_once(" as ")`, trimmed
abbrev pub fqn_and_alias : Text → Option (Text × Text) → Text × Option Text
fqn_and_alias text none = (trim text, none)
fqn_and_alias text (some (fqn, al)) = (trim fqn, some (trim al))

abbrev pub short_of : Text → Option Text → Text
short_of fqn none = fqn_short_name fqn
short_of fqn (some alias) = alias

unfoldable pub parse_single_use : Text → UseKind → Option UseStatement
unfolding fqn_short_name
parse_single_use text kind =
    let parts = fqn_and_alias text (split_once (codes " as ") text) in
    if is_empty parts.0
    then none
    else some
        record { fqn = parts.0; alias = parts.1; short = short_of parts.0 parts.1; kind = kind }

abbrev pub or_else {ℓ} : {A : Type ℓ} → Option A → Option A → Option A
or_else none o = o
or_else (some a) o = some a

abbrev pub with_kind : UseKind → Option Text → Option (UseKind × Text)
with_kind kind none = none
with_kind kind (some rest) = some (kind, trim_start rest)

-- The kind of a member of a group of class imports, by its prefix.
abbrev pub member_kind : UseKind → Text → UseKind × Text
member_kind class member =
    elim (or_else (with_kind function (strip_prefix (codes "function ") member))
      (with_kind const (strip_prefix (codes "const ") member))) [
        | none ↦ (class, member)
        | some kind_and_rest ↦ kind_and_rest
      ]
member_kind function member = (function, member)
member_kind const member = (const, member)

unfoldable pub parse_group_member : Text → Text → UseKind → Option UseStatement
unfolding parse_single_use
parse_group_member member ns_prefix kind =
    let parts = member_kind kind (trim member) in
    if is_empty (trim member)
    then none
    else parse_single_use
        (if is_empty ns_prefix then parts.1 else ns_prefix ++ (backslash ∷ parts.1)) parts.0

-- `filter_map(…).collect()`
abbrev pub cons_some {ℓ} : {A : Type ℓ} → Option A → List A → List A
cons_some none l = l
cons_some (some a) l = a ∷ l

unfoldable pub parse_members : List Text → Text → UseKind → List UseStatement
unfolding parse_group_member
parse_members [] ns_prefix kind = []
parse_members (member ∷ members) ns_prefix kind =
    cons_some (parse_group_member member ns_prefix kind) (parse_members members ns_prefix kind)

-- What stands before a `}`, if it is there.
abbrev pub closed : Text × Text → Option Text
closed (inner, []) = none
closed (inner, d ∷ rest) = some inner

-- What stands between the `{` that comes first and the next `}`.
abbrev pub brace_body : Text → Option Text
brace_body [] = none
brace_body (c ∷ s) = closed (span_to (λ d. d == b'}') s)

unfoldable pub parse_use_statement : Text → UseKind → List UseStatement
unfolding parse_single_use parse_members
parse_use_statement text kind =
    let cut = span_to (λ c. c == b'{') text in
    if is_empty cut.1 then cons_some (parse_single_use text kind) [] else elim (brace_body cut.1) [
      | none ↦ []
      | some inner ↦
          parse_members (split_by (λ c. c == b',') inner)
            (trim_end_by (λ c. c == backslash) (trim cut.0)) kind
    ]

-- The byte before a place, if it is there, is the last of the character before; only an ASCII
-- character is alphanumeric, `_` or `\` by its last byte.
abbrev pub before_ok : Option ℕ → Bool
before_ok none = true
before_ok (some c) = not (is_ascii_alphanumeric c || c == b'_' || c == backslash)

abbrev pub after_ok : Text → Bool
after_ok [] = true
after_ok (c ∷ s) = not (is_ascii_alphanumeric c) && not (c == b'_')

-- The search for `short` from a place on, with the character before it. `none` is the panic of
-- `body[abs + 1..]` inside a character or behind the end.
used_from : Text → Option ℕ → Text → Option Bool
used_from short prev [] =
    if is_empty short then (if before_ok prev then some true else none) else some false
used_from short prev (c ∷ rest) =
    let later = used_from short (some c) rest in
    if starts_with short (c ∷ rest)
    then (if before_ok prev && after_ok (drop (length short) (c ∷ rest))
        then some true
        else if len_utf8 c == 1
        then later
        else none)
    else later

unfoldable pub is_used : UseStatement → Text → Option Bool
unfolding used_from
is_used u body = used_from u.short none body
