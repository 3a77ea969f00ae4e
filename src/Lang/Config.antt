-- ===== src/Lang/Config.antt =====
-- src/lang/config.rs: `LspConfig` from a JSON value, and the merge of the project's `.php-lsp.json`
-- with the settings of the editor. `none` is the panic of the merge. `as_u64` reads the literal of a
-- number; a path is its text.
pub mod Toggles
pub mod External
pub mod Merge
pub mod Sane
pub mod Startup
mod Tests
use php_lsp.Prelude.{
  ℕ, Option, none, some, Bool, true, false, ◌||◌, List, [], ◌∷◌, ◌==◌, if◌then◌else◌,
}
use php_lsp.Prelude.Chars.{Text, codes}
use php_lsp.Prelude.Strs.{text_eq, is_empty, trim_start_by}
use php_lsp.Prelude.Json.{
  Value, Items, Members, array, object, nil, nil_members, member, get_member, insert_member,
  remove_member, get, as_array, as_str, as_bool, append_items, strings_of,
}
use php_lsp.Lang.Versions.{is_valid_php_version, php_8_5}
use php_lsp.Lang.Config.Toggles.{
  DiagnosticsConfig, FeaturesConfig, bool_or, strings, default_diagnostics, default_features,
  diagnostics_from_value, features_from_value,
}
use php_lsp.Lang.Config.External.{
  ExternalToolsConfig, default_external_tools, at_least_one, number_of, external_or,
}

pub record LspConfig : Type 0 where
  pub php_version : Option Text
  pub exclude_paths : List Text
  pub include_paths : List Text
  pub stub_dirs : List Text
  pub diagnostics : DiagnosticsConfig
  pub features : FeaturesConfig
  pub max_indexed_files : ℕ
  pub index_vendor : Bool
  pub debug : Bool
  pub debounce_ms : ℕ
  pub warm_analysis : Bool
  pub cache_path : Option Text
  pub flush_interval_ms : ℕ
  pub external_tools : ExternalToolsConfig
  pub indexed_extensions : List Text

abbrev pub max_indexed_files : ℕ
max_indexed_files = 50_000

abbrev pub default_config : LspConfig
default_config = record {
  php_version = none;
  exclude_paths = [];
  include_paths = [];
  stub_dirs = [];
  diagnostics = default_diagnostics;
  features = default_features;
  max_indexed_files = max_indexed_files;
  index_vendor = true;
  debug = false;
  debounce_ms = 100;
  warm_analysis = true;
  cache_path = none;
  flush_interval_ms = 20_000;
  external_tools = default_external_tools;
  indexed_extensions = codes "php" ∷ [];
}

abbrev pub version_from : Option Text → Option Text
version_from none = none
version_from (some ver) = some (if is_valid_php_version ver then ver else php_8_5)

unfoldable pub diagnostics_or : Option Value → DiagnosticsConfig
unfolding diagnostics_from_value
diagnostics_or none = default_diagnostics
diagnostics_or (some v) = diagnostics_from_value v

unfoldable pub features_or : Option Value → FeaturesConfig
unfolding features_from_value
features_or none = default_features
features_or (some v) = features_from_value v

abbrev pub number_or : ℕ → Option ℕ → ℕ
number_or default none = default
number_or default (some n) = n

-- The extensions without leading dots, and without the empty ones.
unfoldable pub without_dots : List Text → List Text
unfolding trim_start_by
without_dots [] = []
without_dots (s ∷ l) =
    let rest = without_dots l in
    if is_empty (trim_start_by (λ c. c == b'.') s)
    then rest
    else trim_start_by (λ c. c == b'.') s ∷ rest

abbrev pub unless_none : List Text → List Text
unless_none [] = codes "php" ∷ []
unless_none (e ∷ exts) = e ∷ exts

unfoldable pub extensions_or : Option Items → List Text
unfolding without_dots
extensions_or none = codes "php" ∷ []
extensions_or (some arr) = unless_none (without_dots (strings_of arr))

module _ (as_u64 : Text → Option ℕ) where
  unfoldable pub from_value : Value → LspConfig
  unfolding diagnostics_or features_or external_or extensions_or
  from_value v = record {
    php_version = version_from (as_str (get (codes "phpVersion") v));
    exclude_paths = strings (get (codes "excludePaths") v);
    include_paths = strings (get (codes "includePaths") v);
    stub_dirs = strings (get (codes "stubDirs") v);
    diagnostics = diagnostics_or (get (codes "diagnostics") v);
    features = features_or (get (codes "features") v);
    max_indexed_files =
        number_or max_indexed_files (number_of as_u64 (get (codes "maxIndexedFiles") v));
    index_vendor = bool_or true (as_bool (get (codes "indexVendor") v));
    debug = bool_or false (as_bool (get (codes "debug") v));
    debounce_ms = at_least_one 100 (number_of as_u64 (get (codes "debounceMs") v));
    warm_analysis = bool_or true (as_bool (get (codes "warmAnalysis") v));
    cache_path = as_str (get (codes "cachePath") v);
    flush_interval_ms =
        at_least_one 20_000 (number_of as_u64 (get (codes "analysisCacheFlushIntervalMs") v));
    external_tools = external_or as_u64 (get (codes "externalTools") v);
    indexed_extensions = extensions_or (as_array (get (codes "indexedExtensions") v));
  }

-- `EDITOR_ONLY_KEYS`
abbrev pub editor_only_keys : List Text
editor_only_keys = codes "externalTools" ∷ codes "cachePath" ∷ []

unfoldable pub remove_keys : List Text → Members → Members
unfolding remove_member
remove_keys [] obj = obj
remove_keys (key ∷ keys) obj = remove_keys keys (remove_member key obj)

unfoldable pub without_editor_keys : Value → Value
unfolding remove_keys
without_editor_keys (object obj) = object (remove_keys editor_only_keys obj)
without_editor_keys v = v

unfoldable pub is_additive : Text → Bool
unfolding text_eq
is_additive key =
    text_eq key (codes "excludePaths")
    || text_eq key (codes "includePaths")
    || text_eq key (codes "stubDirs")

-- `and_then(|v| v.as_array()).cloned().unwrap_or_default()`
abbrev pub array_or_none : Option Value → Items
array_or_none (some (array items)) = items
array_or_none v = nil

unfoldable pub merge_entry : Text → Value → Members → Members
unfolding is_additive get_member insert_member
merge_entry key val merged =
    if is_additive key
    then insert_member key
        (array (append_items (array_or_none (get_member key merged)) (array_or_none (some val))))
        merged
    else insert_member key val merged

unfoldable pub merge_entries : Members → Members → Members
unfolding merge_entry
merge_entries merged nil_members = merged
merge_entries merged (member key val editor) = merge_entries (merge_entry key val merged) editor

-- `file.cloned().unwrap_or(…)`
abbrev pub or_object : Option Value → Value
or_object none = object nil_members
or_object (some v) = v

unfoldable pub merge_onto : Value → Option Value → Option Value
unfolding merge_entries
merge_onto (object base) (some (object editor)) = some (object (merge_entries base editor))
merge_onto base (some (object editor)) = none
merge_onto base editor = some base

unfoldable pub merge_project_configs : Option Value → Option Value → Option Value
unfolding merge_onto without_editor_keys
merge_project_configs file editor = merge_onto (without_editor_keys (or_object file)) editor
