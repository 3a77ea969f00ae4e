-- ===== src/Lang/Config/Toggles.antt =====
-- src/lang/config.rs: the toggles of diagnostics and features.
use php_lsp.Prelude.{Option, none, some, Bool, true, false, List, []}
use php_lsp.Prelude.Chars.{Text, codes}
use php_lsp.Prelude.Json.{Value, Items, Members, object, strings_of, get_member, as_array, as_bool}

-- `obj.get(key).and_then(|x| x.as_bool()).unwrap_or(default)`
abbrev pub bool_or : Bool → Option Bool → Bool
bool_or default none = default
bool_or default (some b) = b

unfoldable pub flag_or : Bool → Members → Text → Bool
unfolding get_member
flag_or default obj key = bool_or default (as_bool (get_member key obj))

-- The strings of an array, or nothing.
abbrev pub strings_or {ℓ} : {A : Type ℓ} → A → (List Text → A) → Option Items → A
strings_or default f none = default
strings_or default f (some arr) = f (strings_of arr)

abbrev pub strings : Option Value → List Text
strings v = strings_or [] (λ l. l) (as_array v)

pub record DiagnosticsConfig : Type 0 where
  pub enabled : Bool
  pub undefined_variables : Bool
  pub undefined_functions : Bool
  pub undefined_classes : Bool
  pub arity_errors : Bool
  pub type_errors : Bool
  pub deprecated_calls : Bool
  pub duplicate_declarations : Bool
  pub unused_symbols : Bool
  pub missing_types : Bool
  pub mixed_usage : Bool
  pub taint : Bool
  pub disabled : List Text
  pub exclude_paths : List Text

abbrev pub default_diagnostics : DiagnosticsConfig
default_diagnostics = record {
  enabled = true;
  undefined_variables = true;
  undefined_functions = true;
  undefined_classes = true;
  arity_errors = true;
  type_errors = true;
  deprecated_calls = true;
  duplicate_declarations = true;
  unused_symbols = false;
  missing_types = false;
  mixed_usage = false;
  taint = false;
  disabled = [];
  exclude_paths = [];
}

unfoldable pub diagnostics_from_value : Value → DiagnosticsConfig
unfolding flag_or
diagnostics_from_value (object obj) = record {
  enabled = flag_or true obj (codes "enabled");
  undefined_variables = flag_or true obj (codes "undefinedVariables");
  undefined_functions = flag_or true obj (codes "undefinedFunctions");
  undefined_classes = flag_or true obj (codes "undefinedClasses");
  arity_errors = flag_or true obj (codes "arityErrors");
  type_errors = flag_or true obj (codes "typeErrors");
  deprecated_calls = flag_or true obj (codes "deprecatedCalls");
  duplicate_declarations = flag_or true obj (codes "duplicateDeclarations");
  unused_symbols = flag_or false obj (codes "unusedSymbols");
  missing_types = flag_or false obj (codes "missingTypes");
  mixed_usage = flag_or false obj (codes "mixedUsage");
  taint = flag_or false obj (codes "taint");
  disabled = strings (get_member (codes "disabled") obj);
  exclude_paths = strings (get_member (codes "excludePaths") obj);
}
diagnostics_from_value v = default_diagnostics

pub record FeaturesConfig : Type 0 where
  pub completion : Bool
  pub hover : Bool
  pub definition : Bool
  pub declaration : Bool
  pub references : Bool
  pub document_symbols : Bool
  pub workspace_symbols : Bool
  pub rename : Bool
  pub signature_help : Bool
  pub inlay_hints : Bool
  pub semantic_tokens : Bool
  pub selection_range : Bool
  pub call_hierarchy : Bool
  pub document_highlight : Bool
  pub implementation : Bool
  pub code_action : Bool
  pub type_definition : Bool
  pub code_lens : Bool
  pub formatting : Bool
  pub range_formatting : Bool
  pub on_type_formatting : Bool
  pub document_link : Bool
  pub linked_editing_range : Bool
  pub inline_values : Bool

abbrev pub default_features : FeaturesConfig
default_features = record {
  completion = true;
  hover = true;
  definition = true;
  declaration = true;
  references = true;
  document_symbols = true;
  workspace_symbols = true;
  rename = true;
  signature_help = true;
  inlay_hints = true;
  semantic_tokens = true;
  selection_range = true;
  call_hierarchy = true;
  document_highlight = true;
  implementation = true;
  code_action = true;
  type_definition = true;
  code_lens = true;
  formatting = true;
  range_formatting = true;
  on_type_formatting = true;
  document_link = true;
  linked_editing_range = true;
  inline_values = true;
}

unfoldable pub features_from_value : Value → FeaturesConfig
unfolding flag_or
features_from_value (object obj) = record {
  completion = flag_or true obj (codes "completion");
  hover = flag_or true obj (codes "hover");
  definition = flag_or true obj (codes "definition");
  declaration = flag_or true obj (codes "declaration");
  references = flag_or true obj (codes "references");
  document_symbols = flag_or true obj (codes "documentSymbols");
  workspace_symbols = flag_or true obj (codes "workspaceSymbols");
  rename = flag_or true obj (codes "rename");
  signature_help = flag_or true obj (codes "signatureHelp");
  inlay_hints = flag_or true obj (codes "inlayHints");
  semantic_tokens = flag_or true obj (codes "semanticTokens");
  selection_range = flag_or true obj (codes "selectionRange");
  call_hierarchy = flag_or true obj (codes "callHierarchy");
  document_highlight = flag_or true obj (codes "documentHighlight");
  implementation = flag_or true obj (codes "implementation");
  code_action = flag_or true obj (codes "codeAction");
  type_definition = flag_or true obj (codes "typeDefinition");
  code_lens = flag_or true obj (codes "codeLens");
  formatting = flag_or true obj (codes "formatting");
  range_formatting = flag_or true obj (codes "rangeFormatting");
  on_type_formatting = flag_or true obj (codes "onTypeFormatting");
  document_link = flag_or true obj (codes "documentLink");
  linked_editing_range = flag_or true obj (codes "linkedEditingRange");
  inline_values = flag_or true obj (codes "inlineValues");
}
features_from_value v = default_features
