-- ===== src/Lang/Config/Startup.antt =====
-- src/backend/handlers/workspace.rs: the settings that `initialize` stores, from the project's file,
-- the editor's options and the detection of the PHP version. The log messages, the autoload map and
-- the document store are left out. `none` is the panic of the merge.
pub mod Version
use php_lsp.Prelude.{ℕ, Option, none, some, Bool, true, false, ◌&&◌, not, List, if◌then◌else◌}
use php_lsp.Prelude.Chars.{Text, codes}
use php_lsp.Prelude.Strs.{text_eq}
use php_lsp.Prelude.Json.{Value, object}
use php_lsp.Lang.Versions.{is_valid_php_version, clamp_php_version}
use php_lsp.Lang.Versions.Resolve.{load_project_config_json, resolve_php_version_from_roots}
use php_lsp.Lang.Config.{LspConfig, from_value, merge_project_configs}

-- `file_cfg.as_ref().filter(|v| v.is_object())`
abbrev pub only_object : Option Value → Option Value
only_object (some (object obj)) = some (object obj)
only_object v = none

-- An unsupported version is clamped, unless the settings gave it.
unfoldable pub effective_version : Text × Text → Text
unfolding text_eq
effective_version (ver, source) =
    if not (text_eq source (codes "set by editor")) && not (is_valid_php_version ver)
    then clamp_php_version ver
    else ver

module _ (as_u64 : Text → Option ℕ) {Root : Type 0}
    (read_config read_composer : Root → Option (Option Value)) (binary : Option Text) where
  -- The version and its source, as they are logged.
  unfoldable pub resolved : List Root → LspConfig → Text × Text
  resolved roots cfg =
      resolve_php_version_from_roots read_config read_composer binary roots cfg.php_version

  -- `cfg.php_version = Some(ver.clone())`
  unfoldable pub with_version : List Root → LspConfig → LspConfig
  unfolding effective_version resolved
  with_version roots cfg = record cfg {
    php_version = some (effective_version (resolved roots cfg));
  }

  unfoldable pub initialize_config : List Root → Option Value → Option LspConfig
  unfolding with_version
  initialize_config roots opts =
      elim (merge_project_configs
        (only_object (load_project_config_json read_config read_composer roots)) opts) [
          | none ↦ none
          | some merged ↦ some (with_version roots (from_value as_u64 merged))
        ]
