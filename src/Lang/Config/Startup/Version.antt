-- ===== src/Lang/Config/Startup/Version.antt =====
-- src/backend/handlers/workspace.rs: the version of PHP after `initialize`.
use php_lsp.Prelude.{
  ℕ, Option, none, some, true, false, ◌≡◌, refl, arith, List, Bool-cases, inl, inr, ◌⊎◌, ◌∙◌, ap,
}
use php_lsp.Prelude.Chars.{Text, codes}
use php_lsp.Prelude.Strs.{text_eq}
use php_lsp.Prelude.Json.{Value, Members, string, object, nil_members, get, get_member}
use php_lsp.Lang.Versions.{is_valid_php_version, php_8_5}
use php_lsp.Lang.Versions.Clamp.{clamp_php_version-valid}
use php_lsp.Lang.Versions.Resolve.{load_project_config_json, resolve_php_version_from_roots}
use php_lsp.Lang.Config.{LspConfig, from_value, merge_project_configs}
use php_lsp.Lang.Config.Sane.{is_supported, from_value-IsSane}
use php_lsp.Lang.Config.Merge.{
  IsEditor, of_value, merged_value, merge_project_configs-none, merge_project_configs-total,
  merge_project_configs-merged_value,
}
use php_lsp.Lang.Config.Startup.{
  only_object, effective_version, resolved, with_version, initialize_config,
}

effective_version-valid :
    (ver source : Text)
    → (text_eq source (codes "set by editor") ≡ false) ⊎ (is_valid_php_version ver ≡ true)
    → is_valid_php_version (effective_version (ver, source)) ≡ true
unfolding effective_version
effective_version-valid ver source (inl detected) = elim (Bool-cases (is_valid_php_version ver)) [
  | inl valid ↦ rw detected (rw valid valid)
  | inr other ↦ rw detected (rw other (clamp_php_version-valid ver))
]
effective_version-valid ver source (inr valid) =
    elim (Bool-cases (text_eq source (codes "set by editor"))) [
      | inl set ↦ ground (arith)
      | inr detected ↦ ground arith
    ]

effective_version_set : (ver : Text) → effective_version (ver, codes "set by editor") ≡ ver
unfolding effective_version
effective_version_set ver = refl

module _ {Root : Type 0} (read_config read_composer : Root → Option (Option Value))
    (binary : Option Text) (roots : List Root) where
  -- A version that the settings do not give has another source.
  detected_source :
      text_eq
        (resolve_php_version_from_roots read_config read_composer binary roots none).1
        (codes "set by editor")
      ≡ false
  unfolding resolve_php_version_from_roots text_eq
  detected_source = ground arith

  given_source :
      (ver : Text)
      → resolve_php_version_from_roots read_config read_composer binary roots (some ver)
        ≡ (ver, codes "set by editor")
  unfolding resolve_php_version_from_roots
  given_source ver = refl

  resolved-valid :
      (explicit : Option Text)
      → is_supported explicit ≡ true
      → is_valid_php_version (
          effective_version
            (resolve_php_version_from_roots read_config read_composer binary roots explicit))
        ≡ true
  resolved-valid none h = effective_version-valid _ _ (inl detected_source)
  resolved-valid (some ver) h = rw (given_source ver) (effective_version-valid _ _ (inr h))

only_object-total :
    (file editor : Option Value)
    → (merged : Value) × (merge_project_configs (only_object file) editor ≡ some merged)
only_object-total none editor =
    rw (merge_project_configs-none editor) (merge_project_configs-total nil_members editor)
only_object-total (some (object f)) editor = merge_project_configs-total f editor
only_object-total (some _) editor =
    rw (merge_project_configs-none editor) (merge_project_configs-total nil_members editor)

-- The version that the settings give for a project's file.
file_version :
    (as_u64 : Text → Option ℕ) (file : Members) (opts : Option Value) {merged : Value} {ver : Text}
    → IsEditor opts
    → merge_project_configs (some (object file)) opts ≡ some merged
    → get_member (codes "phpVersion") file ≡ some (string ver)
    → is_valid_php_version ver ≡ false
    → of_value (codes "phpVersion") opts ≡ none
    → (from_value as_u64 merged).php_version ≡ some php_8_5
unfolding from_value merged_value text_eq
file_version as_u64 file opts {merged} {ver} h e given bad absent = rw value (rw bad)
  where
    value : get (codes "phpVersion") merged ≡ some (string ver)
    value =
        merge_project_configs-merged_value (codes "phpVersion") (some (object file)) opts h e
        ∙ rw absent given

module _ (as_u64 : Text → Option ℕ) {Root : Type 0}
    (read_config read_composer : Root → Option (Option Value)) (binary : Option Text)
    (roots : List Root) where
  -- Whatever the files, the options and the detected versions are, `initialize` stores settings,
  -- and their version of PHP is a supported one.
  pub initialize_config-supported :
      (opts : Option Value)
      → (cfg : LspConfig) × (ver : Text) × (initialize_config as_u64 read_config read_composer
            binary roots opts
          ≡ some cfg)
        × (cfg.php_version ≡ some ver)
        × (is_valid_php_version ver ≡ true)
  unfolding initialize_config
  initialize_config-supported opts = (
    with_version as_u64 read_config read_composer binary roots settled,
    effective_version (resolved as_u64 read_config read_composer binary roots settled),
    rw (total.1, initialize_config),
    refl,
    resolved-valid read_config read_composer binary roots settled.php_version
        (from_value-IsSane as_u64 total.0).supported,
  )
    where
      total :
          (merged : Value) × (merge_project_configs
              (only_object (load_project_config_json read_config read_composer roots))
              opts
            ≡ some merged)
      total = only_object-total (load_project_config_json read_config read_composer roots) opts

      settled : LspConfig
      settled = from_value as_u64 total.0

  -- Where the project's file, an object, gives a version that is not supported and the options,
  -- with different keys, give none, `initialize` stores 8.5, whatever composer.json and the `php`
  -- binary say.
  pub initialize_config-unsupported :
      (opts : Option Value) (file : Members) (ver : Text)
      → IsEditor opts
      → load_project_config_json read_config read_composer roots ≡ some (object file)
      → get_member (codes "phpVersion") file ≡ some (string ver)
      → is_valid_php_version ver ≡ false
      → of_value (codes "phpVersion") opts ≡ none
      → (cfg : LspConfig) × (initialize_config as_u64 read_config read_composer binary roots opts
          ≡ some cfg)
        × (cfg.php_version ≡ some php_8_5)
  unfolding initialize_config
  initialize_config-unsupported opts file ver h loaded given bad absent = (
    with_version as_u64 read_config read_composer binary roots settled,
    rw (loaded, total.1, initialize_config),
    ap some (
        ap
          (λ o.
            effective_version
              (resolve_php_version_from_roots read_config read_composer binary roots o))
          version
        ∙ ap effective_version (given_source read_config read_composer binary roots php_8_5)
        ∙ effective_version_set php_8_5),
  )
    where
      total : (merged : Value) × (merge_project_configs (some (object file)) opts ≡ some merged)
      total = merge_project_configs-total file opts

      settled : LspConfig
      settled = from_value as_u64 total.0

      version : settled.php_version ≡ some php_8_5
      version = file_version as_u64 file opts h total.1 given bad absent
