-- ===== src/Lang/Versions/Resolve.antt =====
-- src/lang/autoload.rs: which version of PHP is used. What a file holds and what `php --version` says
-- are arguments: `read_config` and `read_composer` give `none` for a file that cannot be read, and
-- `some none` for one that holds no JSON.
use php_lsp.Prelude.{Option, none, some, List, [], ◌∷◌, if◌then◌else◌}
use php_lsp.Prelude.Chars.{Text, codes}
use php_lsp.Prelude.Json.{Value, null, object, get, get_member, as_str}
use php_lsp.Lang.Versions.{is_valid_php_version, php_8_5}
use php_lsp.Lang.Versions.Constraint.{extract_major_minor, parse_php_version_constraint}

abbrev pub or_value : Option Text → Option Text → Option Text
or_value none later = later
or_value (some v) later = some v

abbrev pub and_then : Option Text → (Text → Option Text) → Option Text
and_then none f = none
and_then (some v) f = f v

-- `pointer("/a/b")`, where no key is a number
abbrev pub get_in : Text → Option Value → Option Value
get_in key none = none
get_in key (some v) = get key v

abbrev pub parsed_or_null : Option Value → Value
parsed_or_null none = null
parsed_or_null (some v) = v

abbrev pub json_of : Option (Option Value) → Option Value
json_of none = none
json_of (some parsed) = parsed

module _ {Root : Type 0} (read_config read_composer : Root → Option (Option Value)) where
  -- The first root that has the file; `null` stands for invalid JSON.
  unfoldable pub load_project_config_json : List Root → Option Value
  load_project_config_json [] = none
  load_project_config_json (root ∷ roots) = elim (read_config root) [
    | none ↦ load_project_config_json roots
    | some parsed ↦ some (parsed_or_null parsed)
  ]

  unfoldable pub detect_php_platform_version_from_composer : Root → Option Text
  unfolding extract_major_minor get_member
  detect_php_platform_version_from_composer root =
      and_then
        (as_str (
          get_in (codes "php")
            (get_in (codes "platform") (get_in (codes "config") (json_of (read_composer root))))))
        extract_major_minor

  unfoldable pub detect_php_require_version_from_composer : Root → Option Text
  unfolding parse_php_version_constraint get_member
  detect_php_require_version_from_composer root =
      and_then
        (as_str (get_in (codes "php") (get_in (codes "require") (json_of (read_composer root)))))
        parse_php_version_constraint

  -- `roots.iter().find_map`
  abbrev pub first_of_roots : (Root → Option Text) → List Root → Option Text
  first_of_roots detect [] = none
  first_of_roots detect (root ∷ roots) = or_value (detect root) (first_of_roots detect roots)

  -- The version of the project's file, where it is supported.
  abbrev pub valid_only : Option Text → Option Text
  unfolding is_valid_php_version
  valid_only none = none
  valid_only (some ver) = if is_valid_php_version ver then some ver else none

  unfoldable pub config_version : Option Value → Option Text
  unfolding valid_only get_member
  config_version (some (object obj)) = valid_only (as_str (get_member (codes "phpVersion") obj))
  config_version _ = none

  unfoldable pub resolve_php_version_from_roots :
      Option Text → List Root → Option Text → Text × Text
  unfolding load_project_config_json detect_php_platform_version_from_composer
      detect_php_require_version_from_composer config_version
  resolve_php_version_from_roots binary roots explicit = elim explicit [
    | some ver ↦ (ver, codes "set by editor")
    | none ↦ elim (config_version (load_project_config_json roots)) [
      | some ver ↦ (ver, codes ".php-lsp.json")
      | none ↦ elim (first_of_roots detect_php_platform_version_from_composer roots) [
        | some ver ↦ (ver, codes "composer.json config.platform.php")
        | none ↦ elim binary [
          | some ver ↦ (ver, codes "php binary")
          | none ↦ elim (first_of_roots detect_php_require_version_from_composer roots) [
            | some ver ↦ (ver, codes "composer.json require")
            | none ↦ (php_8_5, codes "default")
          ]
        ]
      ]
    ]
  ]
