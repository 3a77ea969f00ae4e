-- ===== src/Lang/Config/External.antt =====
-- src/lang/config.rs: the settings of PHPStan and PHPCS. `as_u64` reads the literal of a number.
use php_lsp.Prelude.{ℕ, Option, none, some, Bool, false, max}
use php_lsp.Prelude.Chars.{Text, codes}
use php_lsp.Prelude.Json.{Value, number, object, get_member, as_str}
use php_lsp.Lang.Config.Toggles.{flag_or}

abbrev pub text_or : Text → Option Text → Text
text_or default none = default
text_or default (some s) = s

pub record PhpstanConfig : Type 0 where
  pub enabled : Bool
  pub bin_path : Text
  pub config_path : Option Text

abbrev pub default_phpstan : PhpstanConfig
default_phpstan = record { enabled = false; bin_path = codes "phpstan"; config_path = none }

unfoldable pub phpstan_from_value : Value → PhpstanConfig
unfolding flag_or
phpstan_from_value (object obj) = record {
  enabled = flag_or false obj (codes "enabled");
  bin_path = text_or (codes "phpstan") (as_str (get_member (codes "binPath") obj));
  config_path = as_str (get_member (codes "configPath") obj);
}
phpstan_from_value v = default_phpstan

pub record PhpcsConfig : Type 0 where
  pub enabled : Bool
  pub bin_path : Text
  pub standard : Option Text

abbrev pub default_phpcs : PhpcsConfig
default_phpcs = record { enabled = false; bin_path = codes "phpcs"; standard = none }

unfoldable pub phpcs_from_value : Value → PhpcsConfig
unfolding flag_or
phpcs_from_value (object obj) = record {
  enabled = flag_or false obj (codes "enabled");
  bin_path = text_or (codes "phpcs") (as_str (get_member (codes "binPath") obj));
  standard = as_str (get_member (codes "standard") obj);
}
phpcs_from_value v = default_phpcs

pub record ExternalToolsConfig : Type 0 where
  pub phpstan : PhpstanConfig
  pub phpcs : PhpcsConfig
  pub timeout_ms : ℕ

abbrev pub default_external_tools : ExternalToolsConfig
default_external_tools = record {
  phpstan = default_phpstan;
  phpcs = default_phpcs;
  timeout_ms = 120_000;
}

unfoldable pub phpstan_or : Option Value → PhpstanConfig
unfolding phpstan_from_value
phpstan_or none = default_phpstan
phpstan_or (some v) = phpstan_from_value v

unfoldable pub phpcs_or : Option Value → PhpcsConfig
unfolding phpcs_from_value
phpcs_or none = default_phpcs
phpcs_or (some v) = phpcs_from_value v

-- `n.max(1)`, or the default
abbrev pub at_least_one : ℕ → Option ℕ → ℕ
at_least_one default none = default
at_least_one default (some n) = max n 1

module _ (as_u64 : Text → Option ℕ) where
  abbrev pub number_of : Option Value → Option ℕ
  number_of (some (number literal)) = as_u64 literal
  number_of o = none

  unfoldable pub external_from_value : Value → ExternalToolsConfig
  unfolding phpstan_or phpcs_or
  external_from_value (object obj) = record {
    phpstan = phpstan_or (get_member (codes "phpstan") obj);
    phpcs = phpcs_or (get_member (codes "phpcs") obj);
    timeout_ms = at_least_one 120_000 (number_of (get_member (codes "timeoutMs") obj));
  }
  external_from_value v = default_external_tools

  unfoldable pub external_or : Option Value → ExternalToolsConfig
  unfolding external_from_value
  external_or none = default_external_tools
  external_or (some v) = external_from_value v
