-- ===== src/Protocol/DriveLetter/Tests.antt =====
-- src/backend/drive_letter.rs: the spellings of one file.
use php_lsp.Prelude.{◌≡◌, refl, none, some, false, List, [], ◌∷◌, arith}
use php_lsp.Prelude.Chars.{Text, codes, split_at, len_utf8}
use php_lsp.Prelude.Map.{Map, lookup}
use php_lsp.Prelude.Strs.{text_eq, text_key, starts_with}
use php_lsp.Prelude.Json.{Value, string, object, nil_members, member}
use php_lsp.Protocol.DriveLetter.{
  normalized_drive_uri, contains_drive_uri, normalize_value, normalized_request, normalize_request,
  restore_value, is_uri_key,
}
use php_lsp.Protocol.DriveLetter.Guard.{normalize_request-normalize_value}
use php_lsp.Protocol.DriveLetter.Spellings.{IsValid, normalize_value-restore_value, plain}
use php_lsp.Protocol.DriveLetter.Noted.{normalize_request-IsValid}

abbrev params : Text → Value
params uri = object (
    member (codes "textDocument") (object (member (codes "uri") (string uri) nil_members))
      nil_members)

abbrev spelled_uri : Text
spelled_uri = codes "file:///c:/a.php"

abbrev canonical_uri : Text
canonical_uri = codes "file:///C%3A/a.php"

abbrev noted_spellings : Map Text Text
noted_spellings = (canonical_uri, spelled_uri) ∷ []

normalizes : normalized_drive_uri spelled_uri ≡ some canonical_uri
unfolding normalized_drive_uri starts_with text_eq
normalizes = refl

keeps_canonical : normalized_drive_uri canonical_uri ≡ none
unfolding normalized_drive_uri starts_with text_eq
keeps_canonical = refl

-- A key that ends inside of a character of its last three bytes is a panic.
key_panics : is_uri_key (0x20AC ∷ b'a' ∷ []) ≡ none
unfolding is_uri_key len_utf8 split_at
key_panics = refl

rewrites :
    normalize_request [] (some (params spelled_uri))
    ≡ some (noted_spellings, some (params canonical_uri))
unfolding normalize_request len_utf8 split_at starts_with text_eq normalized_request
rewrites = refl

restores : restore_value (λ m. m) noted_spellings (params canonical_uri) ≡ some (params spelled_uri)
unfolding restore_value text_eq len_utf8 split_at
restores = refl

nothing_noted : IsValid []
unfolding IsValid lookup
nothing_noted s original h = ground arith

normalize_request-IsValid_example :
    IsValid noted_spellings
    × ((w : Value) × (some (params canonical_uri) ≡ some w) × (contains_drive_uri w ≡ some false))
normalize_request-IsValid_example =
    normalize_request-IsValid [] noted_spellings (params spelled_uri) (some (params canonical_uri))
      nothing_noted rewrites

normalize_request-normalize_value_example :
    normalize_request [] (some (params spelled_uri))
    ≡ normalized_request [] (normalize_value (params spelled_uri))
normalize_request-normalize_value_example =
    normalize_request-normalize_value [] (params spelled_uri)

normalize_value-restore_value_example :
    (seen : List (Text × Text)) × (normalize_value (params spelled_uri)
      ≡ some (params canonical_uri, seen))
unfolding plain contains_drive_uri text_eq len_utf8 split_at starts_with
normalize_value-restore_value_example =
    normalize_value-restore_value (λ m. m) noted_spellings (params canonical_uri)
      (params spelled_uri) normalize_request-IsValid_example.0 refl refl restores
