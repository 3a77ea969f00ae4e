-- ===== src/Analysis/External/Sources.antt =====
-- src/analysis/external: what the diagnostics of the external tools say, and which tools run.
use php_lsp.Prelude.{
  ℕ, ◌+◌, ◌-◌, ◌^◌, ◌<◌, ◌≡◌, refl, ◌⊎◌, inl, inr, Option, none, some, Bool, true, false, List, [],
  ◌∷◌, ◌++◌, if◌then◌else◌, All, arith,
}
use php_lsp.Prelude.Chars.{Text, codes}
use php_lsp.Lang.Config.External.{ExternalToolsConfig}
use php_lsp.Analysis.External.{
  Command, Diagnostic, PhpstanMessage, PhpcsMessage, or_one, messages_of, phpcs_diagnostic,
  phpstan_to_diagnostic, phpcs_to_diagnostic, phpstan_diagnostics, phpcs_diagnostics, run_phpstan,
  run_phpcs, run_external_diagnostics, append_to, read_output, cons_diagnostic,
}

-- A field of JSON that was read as a `u32`.
abbrev pub FitsU32 : Option ℕ → Type 0
FitsU32 none = 0 < 2 ^ 32
FitsU32 (some n) = n < 2 ^ 32

-- The diagnostic is of an enabled tool, and its range is on one line of the protocol, in front of its end.
abbrev pub IsOfTool : Text → Bool → Diagnostic → Type 0
IsOfTool tool enabled d =
    (d.source ≡ tool)
    × ((enabled ≡ true)
        × ((d.range.start.line ≡ d.range.stop.line)
            × ((d.range.start.character < d.range.stop.character)
                × (d.range.stop.character < 2 ^ 32))))

abbrev pub IsEnabled : ExternalToolsConfig → Diagnostic → Type 0
IsEnabled cfg d =
    IsOfTool (codes "phpstan") cfg.phpstan.enabled d ⊎ IsOfTool (codes "phpcs") cfg.phpcs.enabled d

-- The diagnostics of a tool that does not panic.
abbrev pub Gives : (Diagnostic → Type 0) → Option (List Diagnostic) → Type 0
Gives P none = 1 < 0
Gives P (some ds) = All P ds

module _ (P : Diagnostic → Type 0) where
  All-append : (ds es : List Diagnostic) → All P ds → All P es → All P (ds ++ es)
  All-append [] es h i = i
  All-append (d ∷ ds) es (h, hs) i = (h, All-append ds es hs i)

  All-if_enabled :
      (b : Bool) (ds : List Diagnostic) → (b ≡ true → All P ds) → All P (if b then ds else [])
  All-if_enabled true ds h = h refl
  All-if_enabled false ds h = tt

  Gives-if_enabled :
      (b : Bool) (o : Option (List Diagnostic))
      → (b ≡ true → Gives P o)
      → Gives P (if b then o else some [])
  Gives-if_enabled true o h = h refl
  Gives-if_enabled false o h = tt

  Gives-append_to :
      (ds : List Diagnostic) (o : Option (List Diagnostic))
      → All P ds
      → Gives P o
      → Gives P (append_to ds o)
  Gives-append_to ds none h i = i
  Gives-append_to ds (some es) h i = All-append ds es h i

  Gives-cons_diagnostic :
      (d : Diagnostic) (o : Option (List Diagnostic))
      → P d
      → Gives P o
      → Gives P (cons_diagnostic (some d) o)
  Gives-cons_diagnostic d none h i = i
  Gives-cons_diagnostic d (some ds) h i = (h, i)

column_end : (o : Option ℕ) → FitsU32 o → or_one o - 1 + 1 < 2 ^ 32
column_end none h = omega arith
column_end (some n) h = omega (arith, h)

phpcs_to_diagnostic-fits :
    (m : PhpcsMessage)
    → FitsU32 m.column
    → phpcs_to_diagnostic m ≡ some (phpcs_diagnostic m (or_one m.column - 1))
unfolding phpcs_to_diagnostic
phpcs_to_diagnostic-fits m h = ground (arith, column_end m.column h)

module _ (cfg : ExternalToolsConfig) where
  IsEnabled-phpstan :
      (ms : List PhpstanMessage)
      → cfg.phpstan.enabled ≡ true
      → All (IsEnabled cfg) (phpstan_diagnostics ms)
  unfolding phpstan_to_diagnostic
  IsEnabled-phpstan [] e = tt
  IsEnabled-phpstan (m ∷ ms) e =
      (inl (refl, (e, (refl, (omega arith, omega arith)))), IsEnabled-phpstan ms e)

  IsEnabled-phpcs :
      (ms : List PhpcsMessage)
      → All (λ m. FitsU32 m.column) ms
      → cfg.phpcs.enabled ≡ true
      → Gives (IsEnabled cfg) (phpcs_diagnostics ms)
  IsEnabled-phpcs [] h e = tt
  IsEnabled-phpcs (m ∷ ms) (h, hs) e = rw (phpcs_to_diagnostic-fits m h) (
      Gives-cons_diagnostic (IsEnabled cfg) _ (phpcs_diagnostics ms)
        (inr (refl, (e, (refl, (omega arith, column_end m.column h))))) (IsEnabled-phpcs ms hs e))

  module _ (output : Command → ℕ → Option Text)
      (parse_phpstan : Text → Option (List (Text × List PhpstanMessage)))
      (parse_phpcs : Text → Option (List (Text × List PhpcsMessage)))
      (columns : (s : Text) → All (λ m. FitsU32 m.column) (messages_of (parse_phpcs s)))
      (path : Text) (workspace_root : Option Text) where
    columns_read : (o : Option Text) → All (λ m. FitsU32 m.column) (read_output parse_phpcs o)
    columns_read none = tt
    columns_read (some s) = columns s

    phpstan_part : All (IsEnabled cfg) (
        if cfg.phpstan.enabled
        then run_phpstan output parse_phpstan parse_phpcs cfg.phpstan path workspace_root
            cfg.timeout_ms
        else [])
    unfolding run_phpstan
    phpstan_part = All-if_enabled (IsEnabled cfg) cfg.phpstan.enabled _ (λ e. IsEnabled-phpstan _ e)

    phpcs_part : Gives (IsEnabled cfg) (
        if cfg.phpcs.enabled
        then run_phpcs output parse_phpstan parse_phpcs cfg.phpcs path workspace_root cfg.timeout_ms
        else some [])
    unfolding run_phpcs
    phpcs_part =
        Gives-if_enabled (IsEnabled cfg) cfg.phpcs.enabled _
          (λ e. IsEnabled-phpcs _ (columns_read _) e)

    -- Where the columns that are read from a report of PHPCS are below 2^32,
    -- `run_external_diagnostics` does not overflow, and each diagnostic is of an enabled tool and
    -- on one line, with an end behind its start and below 2^32.
    pub run_external_diagnostics-IsEnabled :
        Gives
          (IsEnabled cfg)
          (run_external_diagnostics output parse_phpstan parse_phpcs cfg path workspace_root)
    unfolding run_external_diagnostics
    run_external_diagnostics-IsEnabled = Gives-append_to (IsEnabled cfg) _ _ phpstan_part phpcs_part
