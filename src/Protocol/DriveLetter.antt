-- ===== src/Protocol/DriveLetter.antt =====
-- src/backend/drive_letter.rs: the spellings of a drive letter in the URIs of a client. `none` is the
-- panic of `is_uri_key`, whose slice may stand off a character boundary. The order of the entries of
-- a JSON object, which serde_json keeps, is the argument `collect`.
pub mod Canonical
pub mod Rewrite
pub mod Guard
pub mod Spellings
pub mod Noted
pub mod Tests
use php_lsp.Prelude.{
  ℕ, ◌-◌, ◌⊎◌, inl, inr, Option, none, some, Bool, true, false, ◌&&◌, ◌||◌, List, [], ◌∷◌, ◌++◌,
  ltb, if◌then◌else◌,
}
use php_lsp.Prelude.Chars.{Text, codes, byte_len, slice_from}
use php_lsp.Prelude.Json.{
  Value, Items, Members, null, boolean, number, string, array, object, nil, item, nil_members,
  member,
}
use php_lsp.Prelude.Map.{Map, is_some, lookup, insert}
use php_lsp.Prelude.Strs.{
  text_eq, text_key, is_ascii_alphabetic, to_ascii_uppercase, eq_ignore_ascii_case, is_empty,
  strip_prefix, starts_with,
}

unfoldable pub is_uri_key : Text → Option Bool
unfolding eq_ignore_ascii_case
is_uri_key key =
    if ltb (byte_len key) 3 then some false else elim (slice_from key (byte_len key - 3)) [
      | none ↦ none
      | some tail ↦ some (eq_ignore_ascii_case tail (codes "uri"))
    ]

abbrev pub or_else : Option Text → Option Text → Option Text
or_else none o = o
or_else (some s) o = some s

abbrev pub drive_tail : Text → Option Text
unfolding strip_prefix
drive_tail after =
    or_else (strip_prefix (codes ":") after)
      (or_else (strip_prefix (codes "%3A") after) (strip_prefix (codes "%3a") after))

abbrev pub drive_uri : ℕ → Text → Text
drive_uri drive tail = codes "file:///" ++ (to_ascii_uppercase drive ∷ (codes "%3A" ++ tail))

unfoldable pub normalized_tail : Text → ℕ → Option Text → Option Text
normalized_tail s drive none = none
normalized_tail s drive (some tail) =
    if is_empty tail || starts_with (codes "/") tail
    then (if text_eq (drive_uri drive tail) s then none else some (drive_uri drive tail))
    else none

unfoldable pub normalized_rest : Text → Option Text → Option Text
unfolding normalized_tail drive_tail
normalized_rest s none = none
normalized_rest s (some []) = none
normalized_rest s (some (drive ∷ after)) =
    if is_ascii_alphabetic drive then normalized_tail s drive (drive_tail after) else none

unfoldable pub normalized_drive_uri : Text → Option Text
unfolding normalized_rest
normalized_drive_uri s = normalized_rest s (strip_prefix (codes "file:///") s)

-- `any` where a test may panic
abbrev pub or_any : Option Bool → Option Bool → Option Bool
or_any none later = none
or_any (some true) later = some true
or_any (some false) later = later

-- `is_uri_key(key) && normalized_drive_uri(s).is_some()`
abbrev pub contains_string : Option Bool → Option Text → Option Bool
contains_string none normalized = none
contains_string (some is_uri) normalized = some (is_uri && is_some normalized)

-- The test of one entry, where `deep` is the test of its value.
unfoldable pub contains_entry : Text → Value → Option Bool → Option Bool
unfolding is_uri_key normalized_drive_uri
contains_entry key (string s) deep = contains_string (is_uri_key key) (normalized_drive_uri s)
contains_entry key v deep = deep

unfoldable mutual
  unfolding contains_entry

  pub contains_drive_uri : Value → Option Bool
  contains_drive_uri (array items) = contains_items items
  contains_drive_uri (object map) = contains_members map
  contains_drive_uri v = some false

  pub contains_items : Items → Option Bool
  contains_items nil = some false
  contains_items (item v items) = or_any (contains_drive_uri v) (contains_items items)

  pub contains_members : Members → Option Bool
  contains_members nil_members = some false
  contains_members (member key v map) =
      or_any (contains_entry key v (contains_drive_uri v)) (contains_members map)

-- Each canonical form with the spelling that it replaced.
abbrev pub Seen : Type 0
Seen = List (Text × Text)

abbrev pub replaced : Text → Option Text → Value × Seen
replaced s none = (string s, [])
replaced s (some normalized) = (string normalized, (normalized, s) ∷ [])

abbrev pub normalize_string : Option Bool → Text → Option Text → Option (Value × Seen)
normalize_string none s normalized = none
normalize_string (some true) s normalized = some (replaced s normalized)
normalize_string (some false) s normalized = some (string s, [])

unfoldable pub normalize_entry : Text → Value → Option (Value × Seen) → Option (Value × Seen)
unfolding is_uri_key normalized_drive_uri
normalize_entry key (string s) deep = normalize_string (is_uri_key key) s (normalized_drive_uri s)
normalize_entry key v deep = deep

abbrev pub with_item : Option (Value × Seen) → Option (Items × Seen) → Option (Items × Seen)
with_item none rest = none
with_item (some v) none = none
with_item (some (v, seen)) (some (items, later)) = some (item v items, seen ++ later)

abbrev pub with_member :
    Text → Option (Value × Seen) → Option (Members × Seen) → Option (Members × Seen)
with_member key none rest = none
with_member key (some v) none = none
with_member key (some (v, seen)) (some (map, later)) = some (member key v map, seen ++ later)

abbrev pub as_array : Option (Items × Seen) → Option (Value × Seen)
as_array none = none
as_array (some (items, seen)) = some (array items, seen)

abbrev pub as_object : Option (Members × Seen) → Option (Value × Seen)
as_object none = none
as_object (some (map, seen)) = some (object map, seen)

unfoldable mutual
  unfolding normalize_entry

  pub normalize_value : Value → Option (Value × Seen)
  normalize_value (array items) = as_array (normalize_items items)
  normalize_value (object map) = as_object (normalize_members map)
  normalize_value v = some (v, [])

  pub normalize_items : Items → Option (Items × Seen)
  normalize_items nil = some (nil, [])
  normalize_items (item v items) = with_item (normalize_value v) (normalize_items items)

  pub normalize_members : Members → Option (Members × Seen)
  normalize_members nil_members = some (nil_members, [])
  normalize_members (member key v map) =
      with_member key (normalize_entry key v (normalize_value v)) (normalize_members map)

unfoldable pub or_insert : Option Text → Text → Text → Map Text Text → Map Text Text
unfolding insert
or_insert none canonical original spellings = insert canonical original spellings
or_insert (some known) canonical original spellings = spellings

-- `entry(canonical).or_insert(original)` for each pair
unfoldable pub note_spellings : Map Text Text → Seen → Map Text Text
unfolding lookup or_insert
note_spellings spellings [] = spellings
note_spellings spellings ((canonical, original) ∷ seen) =
    note_spellings (or_insert (lookup canonical spellings) canonical original spellings) seen

abbrev pub normalized_request :
    Map Text Text → Option (Value × Seen) → Option (Map Text Text × Option Value)
unfolding note_spellings
normalized_request spellings none = none
normalized_request spellings (some (v, seen)) = some (note_spellings spellings seen, some v)

abbrev pub normalize_params : Map Text Text → Option Value → Option (Map Text Text × Option Value)
unfolding contains_drive_uri normalize_value
normalize_params spellings none = some (spellings, none)
normalize_params spellings (some params) = elim (contains_drive_uri params) [
  | none ↦ none
  | some false ↦ some (spellings, some params)
  | some true ↦ normalized_request spellings (normalize_value params)
]

-- A request is its params here: the method and the id are passed on.
unfoldable pub normalize_request :
    Map Text Text → Option Value → Option (Map Text Text × Option Value)
unfolding normalize_params
normalize_request spellings params = normalize_params spellings params

abbrev pub spelled : Map Text Text → Text → Text
unfolding lookup
spelled spellings s = elim (lookup s spellings) [ none ↦ s | some original ↦ original ]

abbrev pub map_value {ℓ} : {A : Type ℓ} → (A → Value) → Option A → Option Value
map_value f none = none
map_value f (some a) = some (f a)

abbrev pub restore_item : Option Value → Option Items → Option Items
restore_item none rest = none
restore_item (some v) none = none
restore_item (some v) (some items) = some (item v items)

abbrev pub restore_member : Text → Option Value → Option Members → Option Members
restore_member key none rest = none
restore_member key (some v) none = none
restore_member key (some v) (some map) = some (member key v map)

-- A string is put back under a `uri`-suffixed key only.
abbrev pub restore_string : Option Bool → Text → Text → Option Value
restore_string none s original = none
restore_string (some is_uri) s original = some (string (if is_uri then original else s))

module _ (collect : Members → Members) (spellings : Map Text Text) where
  -- One entry of an object, where `deep` is its value restored and `changed` is its value as the
  -- map of a `WorkspaceEdit`.
  unfoldable pub restore_entry : Text → Value → Option Value → Option Value → Option Value
  unfolding is_uri_key spelled
  restore_entry key (string s) deep changed =
      restore_string (is_uri_key key) s (spelled spellings s)
  restore_entry key (object map) deep changed =
      if text_eq key (codes "changes") then changed else deep
  restore_entry key v deep changed = deep

  unfoldable mutual
    unfolding restore_entry spelled

    pub restore_value : Value → Option Value
    restore_value (array items) = map_value array (restore_items items)
    restore_value (object map) = map_value object (restore_members map)
    restore_value v = some v

    pub restore_items : Items → Option Items
    restore_items nil = some nil
    restore_items (item v items) = restore_item (restore_value v) (restore_items items)

    pub restore_members : Members → Option Members
    restore_members nil_members = some nil_members
    restore_members (member key v map) =
        restore_member key (restore_entry key v (restore_value v) (restore_changed v))
          (restore_members map)

    pub restore_changed : Value → Option Value
    restore_changed (object changes) =
        map_value (λ map. object (collect map)) (restore_changes changes)
    restore_changed v = some v

    pub restore_changes : Members → Option Members
    restore_changes nil_members = some nil_members
    restore_changes (member uri edits map) =
        restore_member (spelled spellings uri) (restore_value edits) (restore_changes map)

abbrev pub no_spellings : Map Text Text → Bool
no_spellings [] = true
no_spellings (s ∷ l) = false

-- `restore_request`, by the params; `some none` is a request without params.
unfoldable pub restore_request :
    (Members → Members) → Map Text Text → Option Value → Option (Option Value)
unfolding restore_value
restore_request collect spellings none = some none
restore_request collect spellings (some params) =
    if no_spellings spellings
    then some (some params)
    else elim (restore_value collect spellings params) [
      | none ↦ none
      | some restored ↦ some (some restored)
    ]

-- `restore_response`: the body is a result or an error, which stays as it is.
unfoldable pub restore_response :
    {E : Type 0} → (Members → Members) → Map Text Text → E ⊎ Value → Option (E ⊎ Value)
unfolding restore_value
restore_response collect spellings (inl error) = some (inl error)
restore_response collect spellings (inr result) =
    if no_spellings spellings
    then some (inr result)
    else elim (restore_value collect spellings result) [
      | none ↦ none
      | some restored ↦ some (inr restored)
    ]
