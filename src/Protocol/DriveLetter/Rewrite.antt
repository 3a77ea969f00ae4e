-- ===== src/Protocol/DriveLetter/Rewrite.antt =====
-- src/backend/drive_letter.rs: what `normalize_value` leaves, and that the guard of
-- `normalize_request` skips no work.
use php_lsp.Prelude.{◌≡◌, ◌∙◌, ap, subst, refl, Option, none, some, Bool, true, false, arith}
use php_lsp.Prelude.Chars.{Text}
use php_lsp.Prelude.Json.{
  Value, Items, Members, null, boolean, number, string, array, object, nil, item, nil_members,
  member,
}
use php_lsp.Protocol.DriveLetter.{
  Seen, is_uri_key, normalized_drive_uri, contains_entry, contains_drive_uri, contains_items,
  contains_members, contains_string, normalize_string, normalize_entry, with_item, with_member,
  as_array, as_object, normalize_value, normalize_items, normalize_members,
}
use php_lsp.Protocol.DriveLetter.Canonical.{normalized_drive_uri_canonical}

-- No URI is left to rewrite, and no test panics, unless the rewriting did.
abbrev pub CleanValue : Option (Value × Seen) → Type 0
unfolding contains_drive_uri
CleanValue none = Unit
CleanValue (some (v, seen)) = contains_drive_uri v ≡ some false

abbrev pub CleanItems : Option (Items × Seen) → Type 0
unfolding contains_drive_uri
CleanItems none = Unit
CleanItems (some (items, seen)) = contains_items items ≡ some false

abbrev pub CleanMembers : Option (Members × Seen) → Type 0
unfolding contains_drive_uri
CleanMembers none = Unit
CleanMembers (some (map, seen)) = contains_members map ≡ some false

abbrev pub CleanEntry : Text → Option (Value × Seen) → Type 0
unfolding contains_entry contains_drive_uri
CleanEntry key none = Unit
CleanEntry key (some (v, seen)) = contains_entry key v (contains_drive_uri v) ≡ some false

CleanItems-with :
    (a : Option (Value × Seen)) (b : Option (Items × Seen))
    → CleanValue a
    → CleanItems b
    → CleanItems (with_item a b)
unfolding contains_drive_uri CleanValue CleanItems
CleanItems-with none b h k = tt
CleanItems-with (some v) none h k = tt
CleanItems-with (some (v, seen)) (some (items, later)) h k = ground (arith, h, k)

CleanMembers-with :
    (key : Text) (a : Option (Value × Seen)) (b : Option (Members × Seen))
    → CleanEntry key a
    → CleanMembers b
    → CleanMembers (with_member key a b)
unfolding contains_drive_uri CleanEntry CleanMembers
CleanMembers-with key none b h k = tt
CleanMembers-with key (some v) none h k = tt
CleanMembers-with key (some (v, seen)) (some (map, later)) h k = ground (arith, h, k)

CleanValue-array : (o : Option (Items × Seen)) → CleanItems o → CleanValue (as_array o)
unfolding contains_drive_uri CleanValue CleanItems
CleanValue-array none h = tt
CleanValue-array (some (items, seen)) h = h

CleanValue-object : (o : Option (Members × Seen)) → CleanMembers o → CleanValue (as_object o)
unfolding contains_drive_uri CleanValue CleanMembers
CleanValue-object none h = tt
CleanValue-object (some (map, seen)) h = h

CleanEntry-string :
    (key s : Text) (o : Option Bool) (t : Option Text)
    → is_uri_key key ≡ o
    → normalized_drive_uri s ≡ t
    → CleanEntry key (normalize_string o s t)
unfolding contains_entry CleanEntry
CleanEntry-string key s none t h k = tt
CleanEntry-string key s (some false) t h k = ap (λ o. contains_string o (normalized_drive_uri s)) h
CleanEntry-string key s (some true) none h k =
    ap (λ o. contains_string o (normalized_drive_uri s)) h ∙ ap (contains_string (some true)) k
CleanEntry-string key s (some true) (some t) h k =
    ap (λ o. contains_string o (normalized_drive_uri t)) h
    ∙ ap (contains_string (some true)) (normalized_drive_uri_canonical s t k)

CleanEntry-deep :
    (key : Text) (v : Value)
    → CleanValue (normalize_value v)
    → CleanEntry key (normalize_entry key v (normalize_value v))
unfolding contains_entry normalize_entry normalize_value contains_drive_uri CleanEntry CleanValue
CleanEntry-deep key null h = refl
CleanEntry-deep key (boolean b) h = refl
CleanEntry-deep key (number n) h = refl
CleanEntry-deep key (string s) h =
    CleanEntry-string key s (is_uri_key key) (normalized_drive_uri s) refl refl
CleanEntry-deep key (array items) h = array_clean (normalize_items items) h
  where
    array_clean :
        (o : Option (Items × Seen)) → CleanValue (as_array o) → CleanEntry key (as_array o)
    array_clean none h = tt
    array_clean (some (items, seen)) h = h
CleanEntry-deep key (object map) h = object_clean (normalize_members map) h
  where
    object_clean :
        (o : Option (Members × Seen)) → CleanValue (as_object o) → CleanEntry key (as_object o)
    object_clean none h = tt
    object_clean (some (map, seen)) h = h

mutual
  unfolding normalize_value contains_drive_uri CleanValue CleanItems CleanMembers

  value_clean : (v : Value) → CleanValue (normalize_value v)
  value_clean null = refl
  value_clean (boolean b) = refl
  value_clean (number n) = refl
  value_clean (string s) = refl
  value_clean (array items) = CleanValue-array (normalize_items items) (items_clean items)
  value_clean (object map) = CleanValue-object (normalize_members map) (members_clean map)

  items_clean : (items : Items) → CleanItems (normalize_items items)
  items_clean nil = refl
  items_clean (item v items) =
      CleanItems-with (normalize_value v) (normalize_items items) (value_clean v)
        (items_clean items)

  members_clean : (map : Members) → CleanMembers (normalize_members map)
  members_clean nil_members = refl
  members_clean (member key v map) =
      CleanMembers-with key (normalize_entry key v (normalize_value v)) (normalize_members map)
        (CleanEntry-deep key v (value_clean v)) (members_clean map)

-- After `normalize_value` no URI of a drive is left to rewrite: a second run finds nothing, and
-- panics at no key.
pub normalize_value-contains_drive_uri :
    (v w : Value) (seen : Seen)
    → normalize_value v ≡ some (w, seen)
    → contains_drive_uri w ≡ some false
unfolding CleanValue
normalize_value-contains_drive_uri v w seen h = subst CleanValue h (value_clean v)
