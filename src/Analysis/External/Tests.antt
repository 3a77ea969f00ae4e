-- ===== src/Analysis/External/Tests.antt =====
-- src/analysis/external: the theorems on small inputs. A report is one message of PHPCS for a command
-- that names it, and columns are read as they are.
use php_lsp.Prelude.{ℕ, Option, none, some, true, false, List, [], ◌∷◌, All, arith}
use php_lsp.Prelude.Chars.{Text, codes}
use php_lsp.Prelude.Strs.{text_key}
use php_lsp.Lang.Config.External.{ExternalToolsConfig}
use php_lsp.Analysis.External.{
  Command, PhpcsMessage, PhpstanMessage, run_external_diagnostics, messages_of,
}
use php_lsp.Analysis.External.Runs.{
  RunRegistry, new, start, created, started, IsAccounted, IsStopped, cancel-IsStopped,
}
use php_lsp.Analysis.External.Sources.{
  FitsU32, Gives, IsEnabled, run_external_diagnostics-IsEnabled,
}

abbrev phpcs_only : ExternalToolsConfig
phpcs_only = record {
  phpstan = record { enabled = false; bin_path = codes "phpstan"; config_path = none };
  phpcs = record { enabled = true; bin_path = codes "phpcs"; standard = some (codes "PSR12") };
  timeout_ms = 1000;
}

abbrev too_long : PhpcsMessage
too_long = record {
  message = codes "long";
  source = none;
  kind = codes "WARNING";
  line = some 20;
  column = some 1;
}

-- Each command prints its program.
abbrev output : Command → ℕ → Option Text
output command timeout = some command.program

abbrev parse_phpstan : Text → Option (List (Text × List PhpstanMessage))
parse_phpstan s = none

abbrev parse_phpcs : Text → Option (List (Text × List PhpcsMessage))
parse_phpcs s = some ((s, too_long ∷ []) ∷ [])

columns : (s : Text) → All (λ m. FitsU32 m.column) (messages_of (parse_phpcs s))
columns s = (omega arith, tt)

run_external_diagnostics-IsEnabled_example :
    Gives
      (IsEnabled phpcs_only)
      (run_external_diagnostics output parse_phpstan parse_phpcs phpcs_only (codes "a.php") none)
run_external_diagnostics-IsEnabled_example =
    run_external_diagnostics-IsEnabled phpcs_only output parse_phpstan parse_phpcs columns
      (codes "a.php") none

-- Two runs of one file and one of another.
abbrev three_runs : RunRegistry Text
three_runs = start (codes "b") (start (codes "a") (start (codes "a") new))

cancel-IsStopped_example :
    All (IsAccounted three_runs) three_runs.spawned
    × All (IsStopped (codes "a") three_runs) three_runs.spawned
cancel-IsStopped_example =
    cancel-IsStopped (codes "a")
      (started (codes "b") (started (codes "a") (started (codes "a") created)))
