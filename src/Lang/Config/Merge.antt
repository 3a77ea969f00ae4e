-- ===== src/Lang/Config/Merge.antt =====
-- src/lang/config.rs: what the merge of the project's file and the editor's settings holds.
use php_lsp.Lang.Config.External.{external_or}
use php_lsp.Prelude.{
  ℕ, Option, none, some, Bool, true, false, ◌||◌, ◌≡◌, refl, ◌++◌, if◌then◌else◌, arith, Bool-cases,
  ap, ◌∙◌, subst, sym, append-nil, any, List, [], ◌∷◌, Option-cases, inl, inr,
}
use mathlib.Core.Path.{ap₂}
use mathlib.Core.Option.{some-injective}
use php_lsp.Prelude.Chars.{Text, codes}
use php_lsp.Prelude.Strs.{text_eq, text_eq_iff}
use php_lsp.Prelude.Json.{
  Value, Members, array, object, nil_members, member, get, get_member, remove_member, as_str,
  append_items, strings_of, Lacks, IsObject, get_member-Lacks, get_member-insert_member,
  get_member-remove_member, strings_of-append,
}
use php_lsp.Lang.Config.Toggles.{strings}
use php_lsp.Lang.Config.{
  from_value, without_editor_keys, is_additive, array_or_none, merge_entry, merge_entries,
  or_object, merge_onto, merge_project_configs,
}

-- The documented keys of lists of paths.
abbrev pub path_lists : List Text
path_lists = codes "excludePaths" ∷ codes "includePaths" ∷ codes "stubDirs" ∷ []

text_eq-sym : (s t : Text) → text_eq s t ≡ text_eq t s
unfolding text_eq
text_eq-sym [] [] = refl
text_eq-sym [] (d ∷ t) = refl
text_eq-sym (c ∷ s) [] = refl
text_eq-sym (c ∷ s) (d ∷ t) = ground (arith, text_eq-sym s t)

or_end : (a b c : Bool) → (a || b || c) ≡ (a || (b || (c || false)))
or_end a b c = ground arith

is_additive-path_lists : (key : Text) → is_additive key ≡ any (λ k. text_eq k key) path_lists
unfolding is_additive
is_additive-path_lists key =
    rw
      (
        is_additive,
        text_eq-sym key (codes "excludePaths"),
        text_eq-sym key (codes "includePaths"),
        text_eq-sym key (codes "stubDirs"),
      )
      (or_end (text_eq (codes "excludePaths") key) (text_eq (codes "includePaths") key)
        (text_eq (codes "stubDirs") key))

-- The value under a key of the merged object, from those of the two objects.
unfoldable pub merged_value : Text → Option Value → Option Value → Option Value
merged_value key file none = file
merged_value key file (some val) = some (
    if any (λ k. text_eq k key) path_lists
    then array (append_items (array_or_none file) (array_or_none (some val)))
    else val)

get_member-merge_entry :
    (key j : Text) (val : Value) (merged : Members)
    → get_member j (merge_entry key val merged) ≡ (
        if text_eq key j
        then merged_value key (get_member key merged) (some val)
        else get_member j merged)
unfolding merge_entry merged_value
get_member-merge_entry key j val merged = elim (Bool-cases (is_additive key)) [
  | inl additive ↦
      rw (additive, sym (is_additive-path_lists key) ∙ additive)
        (get_member-insert_member key j
          (array (append_items (array_or_none (get_member key merged)) (array_or_none (some val))))
          merged)
  | inr replaced ↦
      rw (replaced, sym (is_additive-path_lists key) ∙ replaced)
        (get_member-insert_member key j val merged)
]

-- The editor has each key once, so every entry of it meets the value of the file.
get_member-merge_entries :
    (j : Text) (merged editor : Members)
    → IsObject editor
    → get_member j (merge_entries merged editor)
      ≡ merged_value j (get_member j merged) (get_member j editor)
unfolding merge_entries merged_value get_member
get_member-merge_entries j merged nil_members h = refl
get_member-merge_entries j merged (member key val editor) h =
    get_member-merge_entries j (merge_entry key val merged) editor h.1
    ∙ elim (Bool-cases (text_eq key j)) [
      | inl same ↦
          let e : key ≡ j = (text_eq_iff key j).0 same in
          rw same (
            rw (get_member-Lacks j editor (subst (λ k. Lacks k editor) e h.0)) (
              get_member-merge_entry key j val merged
              ∙ rw same (ap (λ k. merged_value k (get_member k merged) (some val)) e)))
      | inr other ↦ rw other (
          ap (λ o. merged_value j o (get_member j editor))
            (rw other at (get_member-merge_entry key j val merged)))
    ]

-- The editor's settings: an object with different keys, or no object.
abbrev pub IsEditor : Option Value → Type 0
IsEditor (some (object editor)) = IsObject editor
IsEditor editor = Unit

abbrev pub of_value : Text → Option Value → Option Value
of_value key none = none
of_value key (some v) = get key v

-- Whether a key of the project's file is dropped.
abbrev pub is_editor_only : Text → Bool
is_editor_only key = text_eq (codes "externalTools") key || text_eq (codes "cachePath") key

get_member-remove_both :
    (a b key : Text) (file : Members)
    → get_member key (remove_member b (remove_member a file))
      ≡ (if text_eq a key || text_eq b key then none else get_member key file)
get_member-remove_both a b key file = ground (
  arith,
  get_member-remove_member b key (remove_member a file),
  get_member-remove_member a key file,
)

if_none : (b : Bool) → ◌≡◌ {A = Option Value} none (if b then none else none)
if_none true = refl
if_none false = refl

get-without_editor_keys :
    (key : Text) (file : Value)
    → get key (without_editor_keys file) ≡ (if is_editor_only key then none else get key file)
unfolding without_editor_keys
get-without_editor_keys key (object file) =
    get_member-remove_both (codes "externalTools") (codes "cachePath") key file
get-without_editor_keys key _ = if_none (is_editor_only key)

get-merge_onto :
    (key : Text) (base : Value) (editor : Option Value) {merged : Value}
    → IsEditor editor
    → merge_onto base editor ≡ some merged
    → get key merged ≡ merged_value key (get key base) (of_value key editor)
unfolding merge_onto merged_value
get-merge_onto key (object base) (some (object editor)) {merged} h e =
    subst (λ m. get key m ≡ merged_value key (get_member key base) (get_member key editor))
      (some-injective _ _ e) (get_member-merge_entries key base editor h)
get-merge_onto key base (some (object editor)) h e = absurd (cc e)
get-merge_onto key base editor h e = ap (get key) (sym (some-injective _ _ e))

-- Where the keys of the editor's object differ and the merge does not panic, the value under any
-- key is that of the editor, if it has the key, and else that of the project's file, where the
-- keys of the editor alone are dropped; under `excludePaths`, `includePaths` and `stubDirs` the
-- elements of both, those of the file first.
pub merge_project_configs-merged_value :
    (key : Text) (file editor : Option Value) {merged : Value}
    → IsEditor editor
    → merge_project_configs file editor ≡ some merged
    → get key merged
      ≡ merged_value key
          (if is_editor_only key then none else get key (or_object file))
          (of_value key editor)
unfolding merge_project_configs
merge_project_configs-merged_value key file editor h e =
    rw (← get-without_editor_keys key (or_object file))
      (get-merge_onto key (without_editor_keys (or_object file)) editor h e)

get-or_object : (key : Text) (o : Option Value) → of_value key o ≡ get key (or_object o)
unfolding get_member
get-or_object key none = refl
get-or_object key (some v) = refl

editor_key :
    (key : Text) (file editor : Option Value) {merged : Value}
    → is_editor_only key ≡ true
    → is_additive key ≡ false
    → IsEditor editor
    → merge_project_configs file editor ≡ some merged
    → get key merged ≡ get key (or_object editor)
unfolding merged_value
editor_key key file editor only single h e =
    merge_project_configs-merged_value key file editor h e
    ∙ rw only (
        rw (← get-or_object key editor) (elim (Option-cases (of_value key editor)) [
          | inl absent ↦ rw absent
          | inr (v, present) ↦ rw present (rw (sym (is_additive-path_lists key) ∙ single))
        ]))

strings_array : (o : Option Value) → strings o ≡ strings_of (array_or_none o)
strings_array none = refl
strings_array (some (array a)) = refl
strings_array (some _) = refl

path_key :
    (key : Text) (file editor : Option Value) {merged : Value}
    → is_editor_only key ≡ false
    → is_additive key ≡ true
    → IsEditor editor
    → merge_project_configs file editor ≡ some merged
    → strings (get key merged)
      ≡ strings (get key (or_object file)) ++ strings (get key (or_object editor))
unfolding merged_value
path_key key file editor both additive h e =
    ap strings (merge_project_configs-merged_value key file editor h e)
    ∙ rw both (
        rw (← get-or_object key editor) (elim (Option-cases (of_value key editor)) [
          | inl absent ↦ rw absent (sym (append-nil _))
          | inr (v, present) ↦ rw present (
              rw (sym (is_additive-path_lists key) ∙ additive) (
                strings_of-append (array_or_none (get key (or_object file)))
                  (array_or_none (some v))
                ∙ ap₂ ◌++◌ (sym (strings_array (get key (or_object file))))
                    (sym (strings_array (some v)))))
        ]))

-- A file that is absent counts as an object without entries.
pub merge_project_configs-none :
    (editor : Option Value)
    → merge_project_configs none editor ≡ merge_project_configs (some (object nil_members)) editor
unfolding merge_project_configs remove_member
merge_project_configs-none editor = refl

pub merge_project_configs-total :
    (f : Members) (editor : Option Value)
    → (merged : Value) × (merge_project_configs (some (object f)) editor ≡ some merged)
unfolding merge_project_configs
merge_project_configs-total f (some (object editor)) = (_, refl)
merge_project_configs-total f none = (_, refl)
merge_project_configs-total f (some _) = (_, refl)

module _ (as_u64 : Text → Option ℕ) where
  -- Whatever the project's file is, nothing of it reaches the external tools and the path of the
  -- cache: where the keys of the editor's object differ and the merge does not panic, they are
  -- those of the editor's settings alone.
  pub merge_project_configs-editor_only :
      (file editor : Option Value) (merged : Value)
      → IsEditor editor
      → merge_project_configs file editor ≡ some merged
      → ((from_value as_u64 merged).external_tools
          ≡ (from_value as_u64 (or_object editor)).external_tools)
        × ((from_value as_u64 merged).cache_path
            ≡ (from_value as_u64 (or_object editor)).cache_path)
  unfolding from_value is_additive text_eq
  merge_project_configs-editor_only file editor merged h e = (
    ap (external_or as_u64) (editor_key (codes "externalTools") file editor refl refl h e),
    ap as_str (editor_key (codes "cachePath") file editor refl refl h e),
  )

  -- A project's file that is an object does not make the merge panic, and, where the keys of the
  -- editor's object differ, the excluded, included and stub paths are those of the file followed
  -- by those of the editor.
  pub merge_project_configs-paths :
      (file : Members) (editor : Option Value)
      → IsEditor editor
      → (merged : Value) × (merge_project_configs (some (object file)) editor ≡ some merged)
        × ((from_value as_u64 merged).exclude_paths
            ≡ (from_value as_u64 (object file)).exclude_paths
              ++ (from_value as_u64 (or_object editor)).exclude_paths)
        × ((from_value as_u64 merged).include_paths
            ≡ (from_value as_u64 (object file)).include_paths
              ++ (from_value as_u64 (or_object editor)).include_paths)
        × ((from_value as_u64 merged).stub_dirs
            ≡ (from_value as_u64 (object file)).stub_dirs
              ++ (from_value as_u64 (or_object editor)).stub_dirs)
  unfolding from_value is_additive text_eq
  merge_project_configs-paths file editor h =
      let total = merge_project_configs-total file editor in
      (
        total.0,
        total.1,
        path_key (codes "excludePaths") (some (object file)) editor refl refl h total.1,
        path_key (codes "includePaths") (some (object file)) editor refl refl h total.1,
        path_key (codes "stubDirs") (some (object file)) editor refl refl h total.1,
      )
