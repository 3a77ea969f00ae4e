-- ===== src/Lang/DocHtml.antt =====
-- src/lang/doc_html.rs: the HTML of docblocks as Markdown. Every place of a cut is found by a search for
-- a character of ASCII, so a cut is one between characters. The loop over the text runs on fuel, the
-- length of the text: every round takes a character. `from_str_radix` and `parse` of the standard
-- library, on a `u32`, and `char::from_u32` are written out.
pub mod Total
pub mod Escaped
mod Tests
use php_lsp.Prelude.{
  ℕ, zero, suc, ◌+◌, ◌-◌, ◌*◌, ◌^◌, Option, none, some, Bool, false, ◌&&◌, ◌||◌, not, List, [], ◌∷◌,
  ◌++◌, length, leb, ltb, ◌==◌, any, if◌then◌else◌, map,
}
use php_lsp.Prelude.Chars.{Text, codes, len_utf8}
use php_lsp.Prelude.Strs.{
  split_by, trim, strip_plus, parse_u32, strip_prefix, text_eq, trim_start_by, span_to, is_empty,
  is_ascii_alphanumeric, to_ascii_lowercase, is_ascii_digit,
}

abbrev pub is_one_of : List Text → Text → Bool
is_one_of names name = any (text_eq name) names

-- The Markdown of a tag, by its name in lowercase.
unfoldable pub replacement : Bool → Text → Option Text
unfolding text_eq
replacement closing name =
    if is_one_of
      (codes "br"
        ∷ codes "p"
        ∷ codes "ul"
        ∷ codes "ol"
        ∷ codes "dl"
        ∷ codes "table"
        ∷ codes "blockquote"
        ∷ [])
      name
    then some (codes "\n\n")
    else if text_eq name (codes "pre")
    then some (codes "\n```\n")
    else if text_eq name (codes "li") && not closing
    then some (codes "\n- ")
    else if is_one_of (codes "dt" ∷ codes "tr" ∷ []) name && not closing
    then some (codes "\n")
    else if is_one_of (codes "b" ∷ codes "strong" ∷ []) name
    then some (codes "**")
    else if is_one_of (codes "i" ∷ codes "em" ∷ []) name
    then some (codes "*")
    else if text_eq name (codes "code")
    then some (codes "`")
    else if is_one_of (codes "td" ∷ codes "th" ∷ []) name && not closing
    then some (codes " ")
    else if is_one_of
        (codes "li"
          ∷ codes "dt"
          ∷ codes "dd"
          ∷ codes "tr"
          ∷ codes "td"
          ∷ codes "th"
          ∷ codes "tbody"
          ∷ codes "thead"
          ∷ codes "span"
          ∷ codes "a"
          ∷ codes "tt"
          ∷ codes "sup"
          ∷ codes "sub"
          ∷ [])
        name
    then some []
    else none

abbrev pub begins_with : ℕ → Text → Bool
begins_with c [] = false
begins_with c (d ∷ s) = d == c

-- `attrs.is_empty() || attrs.starts_with([' ', '/'])`
abbrev pub ends_name : Text → Bool
ends_name attrs = is_empty attrs || begins_with 32 attrs || begins_with b'/' attrs

-- The tag between `<` and `>`.
unfoldable pub tag_markdown : Text → Option Text
unfolding replacement span_to trim_start_by
tag_markdown inner =
    let (name, attrs) =
      span_to (λ c. not (is_ascii_alphanumeric c)) (trim_start_by (λ c. c == b'/') inner) in
    if ends_name attrs
    then replacement (begins_with b'/' inner) (map to_ascii_lowercase name)
    else none

-- `tag` behind its `<`: the Markdown and the text behind the tag.
unfoldable pub tag : Text → Option (Text × Text)
unfolding tag_markdown span_to
tag s =
    let (inner, rest) = span_to (λ c. c == b'>') s in
    elim rest [
      | [] ↦ none
      | c ∷ behind ↦ elim (tag_markdown inner) [ none ↦ none | some md ↦ some (md, behind) ]
    ]

-- `u32::from_str_radix(_, 16)`, whose digits are all digits
abbrev pub hex_digit : ℕ → Option ℕ
hex_digit c =
    if is_ascii_digit c
    then some (c - b'0')
    else if leb b'a' c && leb c b'f'
    then some (c - b'a' + 10)
    else if leb b'A' c && leb c b'F'
    then some (c - b'A' + 10)
    else none

unfoldable pub hex_from : Text → ℕ → Option ℕ
hex_from [] n = some n
hex_from (c ∷ s) n = elim (hex_digit c) [
  | none ↦ none
  | some d ↦ let rest = hex_from s (n * 16 + d) in if ltb (n * 16 + d) (2 ^ 32) then rest else none
]

unfoldable pub parse_hex : Text → Option ℕ
unfolding hex_from
parse_hex s = if is_empty (strip_plus s) then none else hex_from (strip_plus s) 0

abbrev pub strip_x : Text → Option Text
strip_x [] = none
strip_x (c ∷ s) = if c == b'x' || c == b'X' then some s else none

-- `char::from_u32`
abbrev pub char_from : Option ℕ → Option ℕ
char_from none = none
char_from (some n) = if ltb n 0xD800 || (leb 0xE000 n && ltb n 0x110000) then some n else none

abbrev pub code_of : Text → Option Text → Option ℕ
code_of digits none = parse_u32 digits
code_of digits (some hex) = parse_hex hex

abbrev pub numeric : Option Text → Option ℕ
numeric none = none
numeric (some digits) = char_from (code_of digits (strip_x digits))

unfoldable pub entity_char : Text → Option ℕ
unfolding text_eq strip_prefix
entity_char name =
    if text_eq name (codes "gt")
    then some b'>'
    else if text_eq name (codes "lt")
    then some b'<'
    else if text_eq name (codes "amp")
    then some b'&'
    else if text_eq name (codes "quot")
    then some b'"'
    else if text_eq name (codes "apos")
    then some b'\''
    else if text_eq name (codes "nbsp")
    then some 32
    else if text_eq name (codes "deg")
    then some 0xB0
    else if text_eq name (codes "pi")
    then some 0x3C0
    else numeric (strip_prefix (codes "#") name)

-- The text in front of a `;` among the next bytes, and the text behind it.
unfoldable pub to_semicolon : ℕ → Text → Option (Text × Text)
unfolding len_utf8
to_semicolon bytes [] = none
to_semicolon bytes (c ∷ s) = elim (to_semicolon (bytes - len_utf8 c) s) [
  | none ↦ if c == b';' && ltb 0 bytes then some ([], s) else none
  | some (name, behind) ↦ if c == b';' && ltb 0 bytes then some ([], s) else some (c ∷ name, behind)
]

-- `entity` behind its `&`, the first of the ten bytes.
unfoldable pub entity : Text → Option (Text × Text)
unfolding entity_char to_semicolon
entity s = elim (to_semicolon 9 s) [
  | none ↦ none
  | some (name, behind) ↦ elim (entity_char name) [ none ↦ none | some c ↦ some (c ∷ [], behind) ]
]

abbrev pub or_kept : ℕ → Text → Option (Text × Text) → Text × Text
or_kept c s none = (c ∷ [], s)
or_kept c s (some consumed) = consumed

-- What a `<` or a `&` becomes, and the rest.
unfoldable pub convert_mark : ℕ → Text → Text × Text
unfolding tag entity
convert_mark c s = or_kept c s (if c == b'<' then tag s else entity s)

abbrev pub is_mark : ℕ → Bool
is_mark c = c == b'<' || c == b'&'

abbrev pub after : Text → Option Text → Option Text
after out none = none
after out (some rest) = some (out ++ rest)

-- The loop `while let`; `none` when the fuel is used up.
unfoldable pub convert : ℕ → Text → Option Text
unfolding span_to convert_mark
convert zero s =
    let (before, rest) = span_to is_mark s in elim rest [ [] ↦ some before | c ∷ t ↦ none ]
convert (suc fuel) s =
    let (before, rest) = span_to is_mark s in
    elim rest [
      | [] ↦ some before
      | c ∷ t ↦ let (md, behind) = convert_mark c t in after (before ++ md) (convert fuel behind)
    ]

-- The loop over the trimmed lines.
unfoldable pub tidy_lines : Text → ℕ → List Text → Text
tidy_lines out blank_run [] = out
tidy_lines out blank_run (line ∷ rest) =
    let separator =
      if is_empty out then [] else if ltb 0 blank_run then codes "\n\n" else codes "\n" in
    let blank = is_empty line in
    tidy_lines (if blank then out else out ++ separator ++ line)
      (if blank then blank_run + 1 else 0) rest

unfoldable pub tidy_whitespace : Text → Text
unfolding split_by tidy_lines
tidy_whitespace s = tidy_lines [] 0 (map trim (split_by (λ c. c == 10) s))

unfoldable pub html_to_markdown : Text → Option Text
unfolding convert tidy_whitespace
html_to_markdown text =
    if any is_mark text
    then elim (convert (length text) text) [ none ↦ none | some out ↦ some (tidy_whitespace out) ]
    else some text
