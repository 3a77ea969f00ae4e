-- ===== src/Protocol/DriveLetter/Spellings.antt =====
-- src/backend/drive_letter.rs: what the server sends in the spelling of the client comes back in the
-- canonical form.
use php_lsp.Prelude.{
  ◌≡◌, ap, subst, refl, Option, none, some, Bool, true, false, ◌&&◌, not, if◌then◌else◌, arith,
}
use php_lsp.Prelude.Chars.{Text, codes}
use php_lsp.Prelude.Strs.{text_eq, text_key}
use php_lsp.Prelude.Map.{Map, lookup}
use php_lsp.Prelude.Json.{
  Value, Items, Members, null, boolean, number, string, array, object, nil, item, nil_members,
  member,
}
use php_lsp.Protocol.DriveLetter.{
  Seen, is_uri_key, normalized_drive_uri, or_any, contains_string, contains_entry,
  contains_drive_uri, contains_items, contains_members, normalize_string, normalize_entry,
  with_item, with_member, as_array, as_object, normalize_value, normalize_items, normalize_members,
  spelled, map_value, restore_item, restore_string, restore_member, restore_entry, restore_value,
  restore_items, restore_members, restore_changed,
}

-- Every noted spelling is one of the URI that it is noted for.
unfoldable pub IsValid : Map Text Text → Type 0
unfolding lookup normalized_drive_uri
IsValid spellings =
    (s original : Text)
    → lookup s spellings ≡ some original
    → normalized_drive_uri original ≡ some s

-- No object is the value of a key `changes`.
abbrev pub plain_entry : Text → Value → Bool
plain_entry key (object map) = not (text_eq key (codes "changes"))
plain_entry key v = true

unfoldable mutual
  pub plain : Value → Bool
  plain (array items) = plain_items items
  plain (object map) = plain_members map
  plain v = true

  pub plain_items : Items → Bool
  plain_items nil = true
  plain_items (item v items) = plain v && plain_items items

  pub plain_members : Members → Bool
  plain_members nil_members = true
  plain_members (member key v map) = (plain_entry key v && plain v) && plain_members map

-- A result without the list of what was replaced.
abbrev pub value_of {ℓ} : {A : Type ℓ} → Option (A × Seen) → Option A
value_of none = none
value_of (some (a, seen)) = some a

Back : Value → Option Value → Type 0
unfolding normalize_value
Back w none = Unit
Back w (some v) = value_of (normalize_value v) ≡ some w

BackItems : Items → Option Items → Type 0
unfolding normalize_value
BackItems items none = Unit
BackItems items (some v) = value_of (normalize_items v) ≡ some items

BackMembers : Members → Option Members → Type 0
unfolding normalize_value
BackMembers map none = Unit
BackMembers map (some v) = value_of (normalize_members v) ≡ some map

BackEntry : Text → Value → Option Value → Type 0
unfolding normalize_value normalize_entry
BackEntry key w none = Unit
BackEntry key w (some v) = value_of (normalize_entry key v (normalize_value v)) ≡ some w

value_of-with_item :
    (v : Value) (items : Items) (a : Option (Value × Seen)) (b : Option (Items × Seen))
    → value_of a ≡ some v
    → value_of b ≡ some items
    → value_of (with_item a b) ≡ some (item v items)
value_of-with_item v items none b h k = ground arith
value_of-with_item v items (some a) none h k = ground arith
value_of-with_item v items (some (a, s)) (some (b, t)) h k = ground arith

value_of-with_member :
    (key : Text) (v : Value) (map : Members) (a : Option (Value × Seen))
    (b : Option (Members × Seen))
    → value_of a ≡ some v
    → value_of b ≡ some map
    → value_of (with_member key a b) ≡ some (member key v map)
value_of-with_member key v map none b h k = ground arith
value_of-with_member key v map (some a) none h k = ground arith
value_of-with_member key v map (some (a, s)) (some (b, t)) h k = ground arith

value_of-array :
    (items : Items) (a : Option (Items × Seen))
    → value_of a ≡ some items
    → value_of (as_array a) ≡ some (array items)
value_of-array items none h = ground arith
value_of-array items (some (a, s)) h = ground arith

value_of-object :
    (map : Members) (a : Option (Members × Seen))
    → value_of a ≡ some map
    → value_of (as_object a) ≡ some (object map)
value_of-object map none h = ground arith
value_of-object map (some (a, s)) h = ground arith

or_any_split : (a b : Option Bool) → or_any a b ≡ some false → (a ≡ some false) × (b ≡ some false)
or_any_split none b h = ground arith
or_any_split (some true) b h = ground arith
or_any_split (some false) b h = (refl, h)

Back-item :
    (v : Value) (items : Items) (a : Option Value) (b : Option Items)
    → Back v a
    → BackItems items b
    → BackItems (item v items) (restore_item a b)
unfolding Back BackItems normalize_value
Back-item v items none b h k = tt
Back-item v items (some v') none h k = tt
Back-item v items (some v') (some items') h k =
    value_of-with_item v items (normalize_value v') (normalize_items items') h k

Back-member :
    (key : Text) (v : Value) (map : Members) (a : Option Value) (b : Option Members)
    → BackEntry key v a
    → BackMembers map b
    → BackMembers (member key v map) (restore_member key a b)
unfolding BackEntry BackMembers normalize_value
Back-member key v map none b h k = tt
Back-member key v map (some v') none h k = tt
Back-member key v map (some v') (some map') h k =
    value_of-with_member key v map (normalize_entry key v' (normalize_value v'))
      (normalize_members map') h k

Back-array :
    (items : Items) (o : Option Items) → BackItems items o → Back (array items) (map_value array o)
unfolding Back BackItems normalize_value
Back-array items none h = tt
Back-array items (some items') h = value_of-array items (normalize_items items') h

Back-object :
    (map : Members) (o : Option Members)
    → BackMembers map o
    → Back (object map) (map_value object o)
unfolding Back BackMembers normalize_value
Back-object map none h = tt
Back-object map (some map') h = value_of-object map (normalize_members map') h

-- The test of an entry covers the test of its value.
inside :
    (key : Text) (v : Value)
    → contains_entry key v (contains_drive_uri v) ≡ some false
    → contains_drive_uri v ≡ some false
unfolding contains_entry contains_drive_uri
inside key null h = refl
inside key (boolean b) h = refl
inside key (number n) h = refl
inside key (string s) h = refl
inside key (array items) h = h
inside key (object map) h = h

and_split : (a b : Bool) → (a && b) ≡ true → (a ≡ true) × (b ≡ true)
and_split a b h = ground arith

module _ (collect : Members → Members) (spellings : Map Text Text) (valid : IsValid spellings) where
  Back-spelled :
      (key s : Text) (o : Option Text)
      → lookup s spellings ≡ o
      → is_uri_key key ≡ some true
      → normalized_drive_uri s ≡ none
      → value_of (
          normalize_string
            (is_uri_key key)
            (spelled spellings s)
            (normalized_drive_uri (spelled spellings s)))
        ≡ some (string s)
  unfolding spelled IsValid
  Back-spelled key s none found uri canonical = rw (spelled, found, uri, canonical) refl
  Back-spelled key s (some original) found uri canonical =
      rw (spelled, found, uri, valid s original found) refl

  Back-string :
      (key s : Text) (o : Option Bool) (t : Option Text)
      → is_uri_key key ≡ o
      → normalized_drive_uri s ≡ t
      → contains_string o t ≡ some false
      → BackEntry key (string s) (restore_string o s (spelled spellings s))
  unfolding BackEntry normalize_entry
  Back-string key s none t e n h = tt
  Back-string key s (some false) t e n h =
      ap (λ o. value_of (normalize_string o s (normalized_drive_uri s))) e
  Back-string key s (some true) none e n h = Back-spelled key s (lookup s spellings) refl e n
  Back-string key s (some true) (some t) e n h = ground arith

  Back-entry :
      (key : Text) (v : Value)
      → plain_entry key v ≡ true
      → contains_entry key v (contains_drive_uri v) ≡ some false
      → Back v (restore_value collect spellings v)
      → BackEntry key v (
          restore_entry collect spellings key v
            (restore_value collect spellings v)
            (restore_changed collect spellings v))
  unfolding Back BackEntry restore_value restore_entry normalize_value normalize_entry
      contains_drive_uri contains_entry
  Back-entry key null p h b = refl
  Back-entry key (boolean c) p h b = refl
  Back-entry key (number n) p h b = refl
  Back-entry key (string s) p h b =
      Back-string key s (is_uri_key key) (normalized_drive_uri s) refl refl h
  Back-entry key (array items) p h b = deep (restore_items collect spellings items) b
    where
      deep :
          (o : Option Items)
          → Back (array items) (map_value array o)
          → BackEntry key (array items) (map_value array o)
      deep none b = tt
      deep (some items') b = b
  Back-entry key (object map) p h b =
      other (text_eq key (codes "changes")) _ (restore_members collect spellings map) p b
    where
      other :
          (c : Bool) (o : Option Value) (deep : Option Members)
          → not c ≡ true
          → Back (object map) (map_value object deep)
          → BackEntry key (object map) (if c then o else map_value object deep)
      other true o deep p b = ground arith
      other false o none p b = tt
      other false o (some map') p b = b

  mutual
    unfolding Back BackItems BackMembers normalize_value contains_drive_uri restore_value plain

    Back-value :
        (v : Value)
        → plain v ≡ true
        → contains_drive_uri v ≡ some false
        → Back v (restore_value collect spellings v)
    Back-value null p h = refl
    Back-value (boolean b) p h = refl
    Back-value (number n) p h = refl
    Back-value (string s) p h = refl
    Back-value (array items) p h =
        Back-array items (restore_items collect spellings items) (Back-items items p h)
    Back-value (object map) p h =
        Back-object map (restore_members collect spellings map) (Back-members map p h)

    Back-items :
        (items : Items)
        → plain_items items ≡ true
        → contains_items items ≡ some false
        → BackItems items (restore_items collect spellings items)
    Back-items nil p h = refl
    Back-items (item v items) p h =
        let (first, later) = or_any_split (contains_drive_uri v) (contains_items items) h in
        let (here, there) = and_split (plain v) (plain_items items) p in
        Back-item v items (restore_value collect spellings v)
          (restore_items collect spellings items) (Back-value v here first)
          (Back-items items there later)

    Back-members :
        (map : Members)
        → plain_members map ≡ true
        → contains_members map ≡ some false
        → BackMembers map (restore_members collect spellings map)
    Back-members nil_members p h = refl
    Back-members (member key v map) p h =
        let (first, later) =
          or_any_split (contains_entry key v (contains_drive_uri v)) (contains_members map) h in
        let (here, there) = and_split (plain_entry key v && plain v) (plain_members map) p in
        let (entry, inner) = and_split (plain_entry key v) (plain v) here in
        Back-member key v map
          (restore_entry collect spellings key v (restore_value collect spellings v)
            (restore_changed collect spellings v))
          (restore_members collect spellings map)
          (Back-entry key v entry first (Back-value v inner (inside key v first)))
          (Back-members map there later)

value_of-some :
    {A : Type 0} (o : Option (A × Seen)) (a : A)
    → value_of o ≡ some a
    → (seen : Seen) × (o ≡ some (a, seen))
value_of-some none a h = ground arith
value_of-some (some (b, seen)) a h = (seen, ground arith)

-- A value without a URI to rewrite and without a `changes` map, put into the spelling of the client
-- and rewritten again, is the same value, where each noted spelling is one of its URI.
pub normalize_value-restore_value :
    (collect : Members → Members) (spellings : Map Text Text) (w v : Value)
    → IsValid spellings
    → plain w ≡ true
    → contains_drive_uri w ≡ some false
    → restore_value collect spellings w ≡ some v
    → (seen : Seen) × (normalize_value v ≡ some (w, seen))
unfolding Back
normalize_value-restore_value collect spellings w v valid p h e =
    value_of-some (normalize_value v) w
      (subst (Back w) e (Back-value collect spellings valid w p h))
