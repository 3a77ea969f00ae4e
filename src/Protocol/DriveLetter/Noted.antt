-- ===== src/Protocol/DriveLetter/Noted.antt =====
-- src/backend/drive_letter.rs: the spellings that `normalize_request` notes.
use php_lsp.Prelude.{
  ◌≡◌, ◌∙◌, subst, sym, refl, Option, none, some, Bool, true, false, List, [], ◌∷◌, ◌++◌, All,
  arith, Bool-cases, inl, inr,
}
use php_lsp.Prelude.Chars.{Text}
use php_lsp.Prelude.Strs.{text_eq, text_eq_iff, text_key}
use php_lsp.Prelude.Map.{Map, lookup, insert, lookup-insert}
use php_lsp.Prelude.Json.{
  Value, Items, Members, null, boolean, number, string, array, object, nil, item, nil_members,
  member,
}
use php_lsp.Protocol.DriveLetter.{
  Seen, is_uri_key, normalized_drive_uri, contains_drive_uri, normalize_string, normalize_entry,
  with_item, with_member, as_array, as_object, normalize_value, normalize_items, normalize_members,
  or_insert, note_spellings, normalized_request, normalize_request,
}
use php_lsp.Protocol.DriveLetter.Rewrite.{normalize_value-contains_drive_uri}
use php_lsp.Protocol.DriveLetter.Guard.{normalize_request-normalize_value}
use php_lsp.Protocol.DriveLetter.Spellings.{IsValid}

-- Each replaced spelling is one of the URI that it was replaced by.
abbrev ValidSeen : Seen → Type 0
ValidSeen seen = All (λ p. normalized_drive_uri p.1 ≡ some p.0) seen

abbrev Replaces {ℓ} : {A : Type ℓ} → Option (A × Seen) → Type 0
Replaces none = Unit
Replaces (some (a, seen)) = ValidSeen seen

All-append {ℓ κ} : {A : Type ℓ} (P : A → Type κ) (l m : List A) → All P l → All P m → All P (l ++ m)
All-append P [] m h k = k
All-append P (a ∷ l) m h k = (h.0, All-append P l m h.1 k)

Replaces-string :
    (s : Text) (o : Option Bool) (t : Option Text)
    → normalized_drive_uri s ≡ t
    → Replaces (normalize_string o s t)
Replaces-string s none t h = tt
Replaces-string s (some false) t h = tt
Replaces-string s (some true) none h = tt
Replaces-string s (some true) (some t) h = (h, tt)

Replaces-entry :
    (key : Text) (v : Value) (o : Option (Value × Seen))
    → Replaces o
    → Replaces (normalize_entry key v o)
unfolding normalize_entry
Replaces-entry key null o h = h
Replaces-entry key (boolean b) o h = h
Replaces-entry key (number n) o h = h
Replaces-entry key (string s) o h = Replaces-string s (is_uri_key key) (normalized_drive_uri s) refl
Replaces-entry key (array items) o h = h
Replaces-entry key (object map) o h = h

Replaces-item :
    (a : Option (Value × Seen)) (b : Option (Items × Seen))
    → Replaces a
    → Replaces b
    → Replaces (with_item a b)
Replaces-item none b h k = tt
Replaces-item (some v) none h k = tt
Replaces-item (some (v, s)) (some (items, t)) h k = All-append _ s t h k

Replaces-member :
    (key : Text) (a : Option (Value × Seen)) (b : Option (Members × Seen))
    → Replaces a
    → Replaces b
    → Replaces (with_member key a b)
Replaces-member key none b h k = tt
Replaces-member key (some v) none h k = tt
Replaces-member key (some (v, s)) (some (map, t)) h k = All-append _ s t h k

Replaces-array : (o : Option (Items × Seen)) → Replaces o → Replaces (as_array o)
Replaces-array none h = tt
Replaces-array (some (items, seen)) h = h

Replaces-object : (o : Option (Members × Seen)) → Replaces o → Replaces (as_object o)
Replaces-object none h = tt
Replaces-object (some (map, seen)) h = h

mutual
  unfolding normalize_value

  value-Replaces : (v : Value) → Replaces (normalize_value v)
  value-Replaces null = tt
  value-Replaces (boolean b) = tt
  value-Replaces (number n) = tt
  value-Replaces (string s) = tt
  value-Replaces (array items) = Replaces-array (normalize_items items) (items-Replaces items)
  value-Replaces (object map) = Replaces-object (normalize_members map) (members-Replaces map)

  items-Replaces : (items : Items) → Replaces (normalize_items items)
  items-Replaces nil = tt
  items-Replaces (item v items) =
      Replaces-item (normalize_value v) (normalize_items items) (value-Replaces v)
        (items-Replaces items)

  members-Replaces : (map : Members) → Replaces (normalize_members map)
  members-Replaces nil_members = tt
  members-Replaces (member key v map) =
      Replaces-member key (normalize_entry key v (normalize_value v)) (normalize_members map)
        (Replaces-entry key v (normalize_value v) (value-Replaces v)) (members-Replaces map)

IsValid-insert :
    (spellings : Map Text Text) (canonical original : Text)
    → IsValid spellings
    → normalized_drive_uri original ≡ some canonical
    → IsValid (insert canonical original spellings)
unfolding IsValid
IsValid-insert spellings canonical original valid h s o found =
    elim (Bool-cases (text_eq canonical s)) [
      | inl same ↦
          let kept : original ≡ o =
            ground (arith, lookup-insert canonical s original spellings, same) in
          subst (λ c. normalized_drive_uri o ≡ some c) ((text_eq_iff canonical s).0 same)
            (subst (λ t. normalized_drive_uri t ≡ some canonical) kept h)
      | inr other ↦ valid s o (ground (arith, lookup-insert canonical s original spellings, other))
    ]

IsValid-or_insert :
    (spellings : Map Text Text) (known : Option Text) (canonical original : Text)
    → IsValid spellings
    → normalized_drive_uri original ≡ some canonical
    → IsValid (or_insert known canonical original spellings)
unfolding or_insert
IsValid-or_insert spellings none canonical original valid h =
    IsValid-insert spellings canonical original valid h
IsValid-or_insert spellings (some known) canonical original valid h = valid

IsValid-note :
    (spellings : Map Text Text) (seen : Seen)
    → IsValid spellings
    → ValidSeen seen
    → IsValid (note_spellings spellings seen)
unfolding note_spellings
IsValid-note spellings [] valid h = valid
IsValid-note spellings ((canonical, original) ∷ seen) valid h =
    IsValid-note (or_insert (lookup canonical spellings) canonical original spellings) seen
      (IsValid-or_insert spellings (lookup canonical spellings) canonical original valid h.0) h.1

Noted : Option (Map Text Text × Option Value) → Type 0
unfolding IsValid contains_drive_uri
Noted none = Unit
Noted (some (spellings, params)) =
    IsValid spellings × ((w : Value) × (params ≡ some w) × (contains_drive_uri w ≡ some false))

noted :
    (spellings : Map Text Text) (v : Value) (o : Option (Value × Seen))
    → normalize_value v ≡ o
    → IsValid spellings
    → Replaces o
    → Noted (normalized_request spellings o)
unfolding normalized_request Noted
noted spellings v none e valid h = tt
noted spellings v (some (w, seen)) e valid h =
    (IsValid-note spellings seen valid h, (w, refl, normalize_value-contains_drive_uri v w seen e))

-- `normalize_request` keeps it that every noted spelling is one of the URI that it is noted for, and
-- leaves no URI of a drive in the params that would be rewritten.
pub normalize_request-IsValid :
    (spellings spellings' : Map Text Text) (v : Value) (params : Option Value)
    → IsValid spellings
    → normalize_request spellings (some v) ≡ some (spellings', params)
    → IsValid spellings' × ((w : Value) × (params ≡ some w) × (contains_drive_uri w ≡ some false))
unfolding Noted
normalize_request-IsValid spellings spellings' v params valid h =
    subst Noted (sym (normalize_request-normalize_value spellings v) ∙ h)
      (noted spellings v (normalize_value v) refl valid (value-Replaces v))
