-- ===== src/Protocol/DriveLetter/Guard.antt =====
-- src/backend/drive_letter.rs: the guard of `normalize_request` skips no work.
use php_lsp.Prelude.{◌≡◌, ◌∙◌, ap, sym, refl, Option, none, some, Bool, true, false, []}
use php_lsp.Prelude.Chars.{Text}
use php_lsp.Prelude.Map.{Map}
use php_lsp.Prelude.Json.{
  Value, Items, Members, null, boolean, number, string, array, object, nil, item, nil_members,
  member,
}
use php_lsp.Protocol.DriveLetter.{
  Seen, is_uri_key, normalized_drive_uri, or_any, contains_string, contains_entry,
  contains_drive_uri, contains_items, contains_members, normalize_string, normalize_entry,
  with_item, with_member, as_array, as_object, normalize_value, normalize_items, normalize_members,
  note_spellings, normalized_request, normalize_params, normalize_request,
}

-- What the rewriting gives where the test panics or finds nothing.
abbrev pub Agrees {ℓ} : {A : Type ℓ} → A → Option Bool → Option (A × Seen) → Type ℓ
Agrees a none o = o ≡ none
Agrees a (some false) o = o ≡ some (a, [])
Agrees a (some true) o = Unit

module _ where
  Agrees-item :
      (v : Value) (items : Items) (a b : Option Bool) (o : Option (Value × Seen))
      (p : Option (Items × Seen))
      → Agrees v a o
      → Agrees items b p
      → Agrees (item v items) (or_any a b) (with_item o p)
  Agrees-item v items none b o p h k = ap (λ o. with_item o p) h
  Agrees-item v items (some true) b o p h k = tt
  Agrees-item v items (some false) none o p h k =
      ap (λ o. with_item o p) h ∙ ap (with_item (some (v, []))) k
  Agrees-item v items (some false) (some true) o p h k = tt
  Agrees-item v items (some false) (some false) o p h k =
      ap (λ o. with_item o p) h ∙ ap (with_item (some (v, []))) k

  Agrees-member :
      (key : Text) (v : Value) (map : Members) (a b : Option Bool) (o : Option (Value × Seen))
      (p : Option (Members × Seen))
      → Agrees v a o
      → Agrees map b p
      → Agrees (member key v map) (or_any a b) (with_member key o p)
  Agrees-member key v map none b o p h k = ap (λ o. with_member key o p) h
  Agrees-member key v map (some true) b o p h k = tt
  Agrees-member key v map (some false) none o p h k =
      ap (λ o. with_member key o p) h ∙ ap (with_member key (some (v, []))) k
  Agrees-member key v map (some false) (some true) o p h k = tt
  Agrees-member key v map (some false) (some false) o p h k =
      ap (λ o. with_member key o p) h ∙ ap (with_member key (some (v, []))) k

  Agrees-array :
      (items : Items) (a : Option Bool) (o : Option (Items × Seen))
      → Agrees items a o
      → Agrees (array items) a (as_array o)
  Agrees-array items none o h = ap as_array h
  Agrees-array items (some true) o h = tt
  Agrees-array items (some false) o h = ap as_array h

  Agrees-object :
      (map : Members) (a : Option Bool) (o : Option (Members × Seen))
      → Agrees map a o
      → Agrees (object map) a (as_object o)
  Agrees-object map none o h = ap as_object h
  Agrees-object map (some true) o h = tt
  Agrees-object map (some false) o h = ap as_object h

Agrees-string :
    (s : Text) (o : Option Bool) (t : Option Text)
    → Agrees (string s) (contains_string o t) (normalize_string o s t)
Agrees-string s none t = refl
Agrees-string s (some false) t = refl
Agrees-string s (some true) none = refl
Agrees-string s (some true) (some t) = tt

Agrees-entry :
    (key : Text) (v : Value) (a : Option Bool) (o : Option (Value × Seen))
    → Agrees v a o
    → Agrees v (contains_entry key v a) (normalize_entry key v o)
unfolding contains_entry normalize_entry
Agrees-entry key null a o h = h
Agrees-entry key (boolean b) a o h = h
Agrees-entry key (number n) a o h = h
Agrees-entry key (string s) a o h = Agrees-string s (is_uri_key key) (normalized_drive_uri s)
Agrees-entry key (array items) a o h = h
Agrees-entry key (object map) a o h = h

mutual
  unfolding normalize_value contains_drive_uri

  value-Agrees : (v : Value) → Agrees v (contains_drive_uri v) (normalize_value v)
  value-Agrees null = refl
  value-Agrees (boolean b) = refl
  value-Agrees (number n) = refl
  value-Agrees (string s) = refl
  value-Agrees (array items) =
      Agrees-array items (contains_items items) (normalize_items items) (items-Agrees items)
  value-Agrees (object map) =
      Agrees-object map (contains_members map) (normalize_members map) (members-Agrees map)

  items-Agrees : (items : Items) → Agrees items (contains_items items) (normalize_items items)
  items-Agrees nil = refl
  items-Agrees (item v items) =
      Agrees-item v items (contains_drive_uri v) (contains_items items) (normalize_value v)
        (normalize_items items) (value-Agrees v) (items-Agrees items)

  members-Agrees : (map : Members) → Agrees map (contains_members map) (normalize_members map)
  members-Agrees nil_members = refl
  members-Agrees (member key v map) =
      Agrees-member key v map (contains_entry key v (contains_drive_uri v)) (contains_members map)
        (normalize_entry key v (normalize_value v)) (normalize_members map)
        (Agrees-entry key v (contains_drive_uri v) (normalize_value v) (value-Agrees v))
        (members-Agrees map)

guarded :
    (spellings : Map Text Text) (v : Value) (a : Option Bool) (o : Option (Value × Seen))
    → Agrees v a o
    → elim a [
      | none ↦ none
      | some false ↦ some (spellings, some v)
      | some true ↦ normalized_request spellings o
    ]
      ≡ normalized_request spellings o
unfolding normalized_request note_spellings
guarded spellings v none o h = sym (ap (normalized_request spellings) h)
guarded spellings v (some false) o h = sym (ap (normalized_request spellings) h)
guarded spellings v (some true) o h = refl

-- `normalize_request` does to the params of a request what `normalize_value` does, with the guard or
-- without it, and panics exactly where `normalize_value` does.
pub normalize_request-normalize_value :
    (spellings : Map Text Text) (params : Value)
    → normalize_request spellings (some params)
      ≡ normalized_request spellings (normalize_value params)
unfolding normalize_request normalize_params
normalize_request-normalize_value spellings params =
    guarded spellings params (contains_drive_uri params) (normalize_value params)
      (value-Agrees params)
