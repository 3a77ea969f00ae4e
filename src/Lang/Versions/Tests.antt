-- ===== src/Lang/Versions/Tests.antt =====
-- src/lang/autoload.rs: versions and constraints on small inputs.
use php_lsp.Prelude.{inr, inl, arith, ◌≡◌, refl, none, some}
use php_lsp.Prelude.Chars.{codes}
use php_lsp.Prelude.Strs.{text_eq, is_whitespace, trim_start_by, trim_end_by}
use php_lsp.Lang.Versions.{is_valid_php_version, version_pair, clamp_php_version}
use php_lsp.Lang.Versions.Constraint.{
  Version, Bounds, exclusive, extract_major_minor, parse_php_version_constraint, version_within,
}
use php_lsp.Lang.Versions.Constraint.Range.{IsHighestIn, version_within-IsHighestIn}

takes_patch : clamp_php_version (codes "8.1.5") ≡ codes "8.1"
unfolding clamp_php_version text_eq
takes_patch = refl

clamps_up : clamp_php_version (codes "5.6") ≡ codes "7.4"
unfolding clamp_php_version text_eq
clamps_up = refl

clamps_down : clamp_php_version (codes "9") ≡ codes "8.6"
unfolding clamp_php_version text_eq
clamps_down = refl

takes_alternatives : parse_php_version_constraint (codes "^7.4 || >= 8.0 <8.3") ≡ some (codes "8.2")
unfolding parse_php_version_constraint is_whitespace
takes_alternatives = refl

takes_hyphens : parse_php_version_constraint (codes "7.4 - 8.2") ≡ some (codes "8.2")
unfolding parse_php_version_constraint is_whitespace
takes_hyphens = refl

takes_stars : parse_php_version_constraint (codes "8.*") ≡ some (codes "8.0")
unfolding parse_php_version_constraint is_whitespace
takes_stars = refl

reads_nothing : parse_php_version_constraint (codes "*") ≡ none
unfolding parse_php_version_constraint is_whitespace
reads_nothing = refl

cuts_patch : extract_major_minor (codes "8.1.27") ≡ some (codes "8.1")
unfolding extract_major_minor trim_end_by trim_start_by is_whitespace
cuts_patch = refl

abbrev bounds : Bounds
bounds = record { lower = some (8, 0, codes "8.0"); upper = some (exclusive 8 3 0) }

version_within-IsHighestIn_example :
    (v : Version) × (version_within bounds ≡ some v)
    × IsHighestIn (exclusive 8 3 0) bounds.lower (codes "8.1") v
unfolding is_valid_php_version text_eq version_pair
version_within-IsHighestIn_example =
    version_within-IsHighestIn bounds (exclusive 8 3 0) (codes "8.1") refl refl
      (inr (refl, inl (omega arith))) (inr (refl, omega arith))
