-- ===== src/Analysis/External.antt =====
-- src/analysis/external/mod.rs, phpstan.rs and phpcs.rs: the commands of the external tools, and their
-- reports as diagnostics. What a command prints, if it ends in time, and the reading of a report from
-- JSON are arguments. `none` is the overflow of a column. A path is its text.
pub mod Runs
pub mod Sources
mod Tests
use php_lsp.Prelude.{
  ℕ, ◌+◌, ◌-◌, ◌^◌, Option, none, some, Bool, true, false, List, [], ◌∷◌, ◌++◌, ltb, if◌then◌else◌,
}
use php_lsp.Prelude.Chars.{Text, codes}
use php_lsp.Prelude.Strs.{text_eq}
use php_lsp.Prelude.Map.{Map}
use php_lsp.Text.Offset.{Position, Range}
use php_lsp.Lang.Config.External.{PhpstanConfig, PhpcsConfig, ExternalToolsConfig}

pub data Severity : Type 0 where
  error : Severity
  warning : Severity

-- The fields of `Diagnostic` that are set.
pub record Diagnostic : Type 0 where
  pub range : Range
  pub severity : Severity
  pub code : Option Text
  pub source : Text
  pub message : Text

pub record Command : Type 0 where
  pub program : Text
  pub args : List Text
  pub current_dir : Option Text

-- `Message` of phpstan.rs and of phpcs.rs.
pub record PhpstanMessage : Type 0 where
  pub message : Text
  pub line : Option ℕ
  pub identifier : Option Text

pub record PhpcsMessage : Type 0 where
  pub message : Text
  pub source : Option Text
  pub kind : Text
  pub line : Option ℕ
  pub column : Option ℕ

abbrev pub or_one : Option ℕ → ℕ
or_one none = 1
or_one (some n) = n

unfoldable pub phpstan_to_diagnostic : PhpstanMessage → Diagnostic
phpstan_to_diagnostic m = record {
  range = record {
    start = record { line = or_one m.line - 1; character = 0 };
    stop = record { line = or_one m.line - 1; character = 2 ^ 32 - 1 };
  };
  severity = error;
  code = m.identifier;
  source = codes "phpstan";
  message = m.message;
}

abbrev pub phpcs_diagnostic : PhpcsMessage → ℕ → Diagnostic
phpcs_diagnostic m character = record {
  range = record {
    start = record { line = or_one m.line - 1; character = character };
    stop = record { line = or_one m.line - 1; character = character + 1 };
  };
  severity = if text_eq m.kind (codes "WARNING") then warning else error;
  code = m.source;
  source = codes "phpcs";
  message = m.message;
}

-- `character + 1` is a `u32`.
unfoldable pub phpcs_to_diagnostic : PhpcsMessage → Option Diagnostic
unfolding text_eq
phpcs_to_diagnostic m =
    if ltb (or_one m.column - 1 + 1) (2 ^ 32)
    then some (phpcs_diagnostic m (or_one m.column - 1))
    else none

-- `iter().map(to_diagnostic).collect()`
abbrev pub phpstan_diagnostics : List PhpstanMessage → List Diagnostic
phpstan_diagnostics [] = []
phpstan_diagnostics (m ∷ ms) = phpstan_to_diagnostic m ∷ phpstan_diagnostics ms

abbrev pub cons_diagnostic : Option Diagnostic → Option (List Diagnostic) → Option (List Diagnostic)
cons_diagnostic none rest = none
cons_diagnostic (some d) none = none
cons_diagnostic (some d) (some ds) = some (d ∷ ds)

abbrev pub phpcs_diagnostics : List PhpcsMessage → Option (List Diagnostic)
phpcs_diagnostics [] = some []
phpcs_diagnostics (m ∷ ms) = cons_diagnostic (phpcs_to_diagnostic m) (phpcs_diagnostics ms)

-- The arguments that follow the fixed ones.
abbrev pub config_args : Option Text → List Text
config_args none = []
config_args (some config_path) = codes "-c" ∷ config_path ∷ []

abbrev pub standard_args : Option Text → List Text
standard_args none = []
standard_args (some standard) = (codes "--standard=" ++ standard) ∷ []

unfoldable pub phpstan_command : PhpstanConfig → Text → Option Text → Command
phpstan_command cfg path workspace_root = record {
  program = cfg.bin_path;
  args =
      codes "analyse"
      ∷ codes "--error-format=json"
      ∷ codes "--no-progress"
      ∷ codes "--no-interaction"
      ∷ codes "--memory-limit=1G"
      ∷ (config_args cfg.config_path ++ (path ∷ []));
  current_dir = workspace_root;
}

unfoldable pub phpcs_command : PhpcsConfig → Text → Option Text → Command
phpcs_command cfg path workspace_root = record {
  program = cfg.bin_path;
  args = codes "-q" ∷ codes "--report=json" ∷ (standard_args cfg.standard ++ (path ∷ []));
  current_dir = workspace_root;
}

-- The messages of the first file of a report, in the map's order, if there is one.
abbrev pub first_messages {ℓ} : {M : Type ℓ} → List (Text × List M) → List M
first_messages [] = []
first_messages ((file, messages) ∷ files) = messages

abbrev pub messages_of {ℓ} : {M : Type ℓ} → Option (List (Text × List M)) → List M
messages_of none = []
messages_of (some files) = first_messages files

-- What a report of a tool says of a command's output.
abbrev pub read_output {ℓ} :
    {M : Type ℓ} → (Text → Option (List (Text × List M))) → Option Text → List M
read_output parse none = []
read_output parse (some stdout) = messages_of (parse stdout)

-- `out.extend(..)`
abbrev pub append_to : List Diagnostic → Option (List Diagnostic) → Option (List Diagnostic)
append_to out none = none
append_to out (some more) = some (out ++ more)

module _ (output_with_timeout : Command → ℕ → Option Text)
    (parse_phpstan : Text → Option (List (Text × List PhpstanMessage)))
    (parse_phpcs : Text → Option (List (Text × List PhpcsMessage))) where
  unfoldable pub run_phpstan : PhpstanConfig → Text → Option Text → ℕ → List Diagnostic
  run_phpstan cfg path workspace_root timeout = phpstan_diagnostics (
      read_output parse_phpstan
        (output_with_timeout (phpstan_command cfg path workspace_root) timeout))

  unfoldable pub run_phpcs : PhpcsConfig → Text → Option Text → ℕ → Option (List Diagnostic)
  run_phpcs cfg path workspace_root timeout = phpcs_diagnostics (
      read_output parse_phpcs (output_with_timeout (phpcs_command cfg path workspace_root) timeout))

  unfoldable pub run_external_diagnostics :
      ExternalToolsConfig → Text → Option Text → Option (List Diagnostic)
  unfolding run_phpstan run_phpcs
  run_external_diagnostics cfg path workspace_root =
      append_to
        (if cfg.phpstan.enabled
          then run_phpstan cfg.phpstan path workspace_root cfg.timeout_ms
          else [])
        (if cfg.phpcs.enabled
          then run_phpcs cfg.phpcs path workspace_root cfg.timeout_ms
          else some [])
