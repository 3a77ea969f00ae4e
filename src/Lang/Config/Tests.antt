-- ===== src/Lang/Config/Tests.antt =====
-- src/lang/config.rs: settings on small values. Numbers are read as `u32` here.
use php_lsp.Prelude.{ℕ, ◌≡◌, ◌++◌, refl, Option, none, some, true, [], ◌∷◌, if◌then◌else◌}
use php_lsp.Prelude.Chars.{Text, codes}
use php_lsp.Prelude.Strs.{text_eq, parse_u32}
use php_lsp.Prelude.Json.{
  Value, Members, null, boolean, number, string, array, object, nil, item, nil_members, member, get,
  get_member,
}
use php_lsp.Lang.Versions.{is_valid_php_version, php_8_5}
use php_lsp.Lang.Config.{LspConfig, from_value, or_object, merge_project_configs}
use php_lsp.Lang.Config.Sane.{IsSane, from_value-IsSane}
use php_lsp.Lang.Config.Merge.{
  of_value, is_editor_only, merged_value, merge_project_configs-merged_value,
  merge_project_configs-editor_only, merge_project_configs-paths,
}
use php_lsp.Lang.Config.Startup.{initialize_config}
use php_lsp.Lang.Config.Startup.Version.{initialize_config-supported, initialize_config-unsupported}
use php_lsp.Lang.Versions.Resolve.{load_project_config_json}

-- A project's file that asks for an executable, a cache, a path and an unsupported version.
abbrev project : Members
project =
    member (codes "externalTools")
      (object (
        member (codes "phpstan") (object (member (codes "enabled") (boolean true) nil_members))
          nil_members))
      (member (codes "cachePath") (string (codes "/tmp/x")) (
        member (codes "excludePaths") (array (item (string (codes "a")) nil)) (
          member (codes "phpVersion") (string (codes "9.9"))
            (member (codes "debounceMs") (number (codes "0")) nil_members))))

abbrev editor : Option Value
editor = some (
    object (
      member (codes "excludePaths") (array (item (string (codes "b")) nil))
        (member (codes "debug") (boolean true) nil_members)))

abbrev parsed : Value
parsed = object project

abbrev merged_project : Value
merged_project = object (
    member (codes "excludePaths")
      (array (item (string (codes "a")) (item (string (codes "b")) nil)))
      (member (codes "phpVersion") (string (codes "9.9")) (
        member (codes "debounceMs") (number (codes "0"))
          (member (codes "debug") (boolean true) nil_members))))

merges : merge_project_configs (some parsed) editor ≡ some merged_project
unfolding merge_project_configs text_eq
merges = refl

panics : merge_project_configs (some null) editor ≡ none
unfolding merge_project_configs
panics = refl

reads_delay : (from_value parse_u32 parsed).debounce_ms ≡ 1
unfolding from_value get_member text_eq parse_u32
reads_delay = refl

from_value-IsSane_example : IsSane (from_value parse_u32 parsed)
from_value-IsSane_example = from_value-IsSane parse_u32 parsed

merge_project_configs-merged_value_example :
    get (codes "excludePaths") merged_project
    ≡ merged_value
        (codes "excludePaths")
        (if is_editor_only (codes "excludePaths") then none else get (codes "excludePaths") parsed)
        (of_value (codes "excludePaths") editor)
unfolding text_eq
merge_project_configs-merged_value_example =
    merge_project_configs-merged_value (codes "excludePaths") (some parsed) editor
      ((refl, tt), (tt, tt)) merges

merge_project_configs-editor_only_example :
    ((from_value parse_u32 merged_project).external_tools
      ≡ (from_value parse_u32 (or_object editor)).external_tools)
    × ((from_value parse_u32 merged_project).cache_path
        ≡ (from_value parse_u32 (or_object editor)).cache_path)
unfolding text_eq
merge_project_configs-editor_only_example =
    merge_project_configs-editor_only parse_u32 (some parsed) editor merged_project
      ((refl, tt), (tt, tt)) merges

merge_project_configs-paths_example :
    (merged : Value) × (merge_project_configs (some parsed) editor ≡ some merged)
    × ((from_value parse_u32 merged).exclude_paths
        ≡ (from_value parse_u32 parsed).exclude_paths
          ++ (from_value parse_u32 (or_object editor)).exclude_paths)
    × ((from_value parse_u32 merged).include_paths
        ≡ (from_value parse_u32 parsed).include_paths
          ++ (from_value parse_u32 (or_object editor)).include_paths)
    × ((from_value parse_u32 merged).stub_dirs
        ≡ (from_value parse_u32 parsed).stub_dirs
          ++ (from_value parse_u32 (or_object editor)).stub_dirs)
unfolding text_eq
merge_project_configs-paths_example =
    merge_project_configs-paths parse_u32 project editor ((refl, tt), (tt, tt))

-- One root, whose project file is the one above, and whose composer.json cannot be read.
abbrev read_config : ℕ → Option (Option Value)
read_config root = some (some parsed)

abbrev read_composer : ℕ → Option (Option Value)
read_composer root = none

loads : load_project_config_json read_config read_composer (0 ∷ []) ≡ some parsed
unfolding load_project_config_json
loads = refl

initialize_config-supported_example :
    (cfg : LspConfig) × (ver : Text) × (initialize_config parse_u32 read_config read_composer
        (some (codes "8.3"))
        (0 ∷ [])
        editor
      ≡ some cfg)
    × (cfg.php_version ≡ some ver)
    × (is_valid_php_version ver ≡ true)
initialize_config-supported_example =
    initialize_config-supported parse_u32 read_config read_composer (some (codes "8.3")) (0 ∷ [])
      editor

initialize_config-unsupported_example :
    (cfg : LspConfig) × (initialize_config parse_u32 read_config read_composer
        (some (codes "8.3"))
        (0 ∷ [])
        editor
      ≡ some cfg)
    × (cfg.php_version ≡ some php_8_5)
unfolding text_eq get_member is_valid_php_version
initialize_config-unsupported_example =
    initialize_config-unsupported parse_u32 read_config read_composer (some (codes "8.3")) (0 ∷ [])
      editor project (codes "9.9") ((refl, tt), (tt, tt)) loads refl refl refl
