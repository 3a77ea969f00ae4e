-- ===== src/Prelude/Json.antt =====
-- JSON values of `serde_json`, with the accessors that the source uses. An object has each key once;
-- where a key is written anew, nothing is assumed of the order of the entries.
use php_lsp.Prelude.Tests.{if◌then◌else◌}
use php_lsp.Prelude.Chars.{Text}
use php_lsp.Prelude.Strs.{text_eq, text_eq_iff}
use mathlib.Core.Path.{◌≡◌, refl}
use mathlib.Core.Bool.{Bool, false}
use mathlib.Core.List.{List, [], ◌∷◌, ◌++◌}
use mathlib.Core.Option.{Option, none, some}
use native.Mathlib.Omega.{arith}

-- `serde_json::Value`; a number is its literal.
mutual
  pub data Value : Type 0 where
    null : Value
    boolean : Bool → Value
    number : Text → Value
    string : Text → Value
    array : Items → Value
    object : Members → Value

  pub data Items : Type 0 where
    nil : Items
    item : Value → Items → Items

  pub data Members : Type 0 where
    nil_members : Members
    member : Text → Value → Members → Members

-- `Map::get`
unfoldable pub get_member : Text → Members → Option Value
get_member key nil_members = none
get_member key (member j v map) = if text_eq j key then some v else get_member key map

-- `Map::insert`
unfoldable pub insert_member : Text → Value → Members → Members
insert_member key v nil_members = member key v nil_members
insert_member key v (member j w map) =
    if text_eq j key then member j v map else member j w (insert_member key v map)

-- `Map::remove`
unfoldable pub remove_member : Text → Members → Members
remove_member key nil_members = nil_members
remove_member key (member j w map) =
    let rest = remove_member key map in if text_eq j key then rest else member j w rest

-- `Value::get`, and the conversions of a value
abbrev pub get : Text → Value → Option Value
get key (object map) = get_member key map
get key v = none

abbrev pub as_object : Option Value → Option Members
as_object (some (object map)) = some map
as_object o = none

abbrev pub as_array : Option Value → Option Items
as_array (some (array items)) = some items
as_array o = none

abbrev pub as_str : Option Value → Option Text
as_str (some (string s)) = some s
as_str o = none

abbrev pub as_bool : Option Value → Option Bool
as_bool (some (boolean b)) = some b
as_bool o = none

abbrev pub append_items : Items → Items → Items
append_items nil later = later
append_items (item v items) later = item v (append_items items later)

-- `filter_map(|x| x.as_str().map(str::to_string))`
abbrev pub strings_of : Items → List Text
strings_of nil = []
strings_of (item (string s) items) = s ∷ strings_of items
strings_of (item v items) = strings_of items

-- The keys of an object differ.
abbrev pub Lacks : Text → Members → Type 0
Lacks key nil_members = Unit
Lacks key (member j v map) = (text_eq j key ≡ false) × Lacks key map

abbrev pub IsObject : Members → Type 0
IsObject nil_members = Unit
IsObject (member key v map) = Lacks key map × IsObject map

pub get_member-Lacks : (key : Text) (map : Members) → Lacks key map → get_member key map ≡ none
unfolding get_member
get_member-Lacks key nil_members h = refl
get_member-Lacks key (member j v map) h = ground (arith, get_member-Lacks key map)

pub get_member-insert_member :
    (key j : Text) (v : Value) (map : Members)
    → get_member j (insert_member key v map) ≡ (if text_eq key j then some v else get_member j map)
unfolding get_member insert_member
get_member-insert_member key j v nil_members = refl
get_member-insert_member key j v (member i w map) = ground (
  arith,
  text_eq_iff key j,
  text_eq_iff i key,
  text_eq_iff i j,
  get_member-insert_member key j v map,
)

pub get_member-remove_member :
    (key j : Text) (map : Members)
    → get_member j (remove_member key map) ≡ (if text_eq key j then none else get_member j map)
unfolding get_member remove_member
get_member-remove_member key j nil_members = ground arith
get_member-remove_member key j (member i w map) = ground (
  arith,
  text_eq_iff key j,
  text_eq_iff i key,
  text_eq_iff i j,
  get_member-remove_member key j map,
)

pub strings_of-append :
    (xs ys : Items) → strings_of (append_items xs ys) ≡ strings_of xs ++ strings_of ys
strings_of-append nil ys = refl
strings_of-append (item (string s) xs) ys = rw (strings_of-append xs ys)
strings_of-append (item null xs) ys = strings_of-append xs ys
strings_of-append (item (boolean b) xs) ys = strings_of-append xs ys
strings_of-append (item (number n) xs) ys = strings_of-append xs ys
strings_of-append (item (array a) xs) ys = strings_of-append xs ys
strings_of-append (item (object m) xs) ys = strings_of-append xs ys
