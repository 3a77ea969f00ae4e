-- ===== src/Editing/OrganizeImports/Tests.antt =====
-- src/editing/organize_imports.rs: a file with an unused import and imports out of order.
use php_lsp.Prelude.{
  ◌≡◌, ◌≢◌, ◌↔◌, refl, none, some, Bool, true, List, [], ◌∷◌, ◌++◌, map, All, any, arith,
}
use php_lsp.Prelude.Chars.{Text, codes, slice_from, split_at, len_utf8, len_utf16, find_char}
use php_lsp.Prelude.Strs.{
  text_eq, is_whitespace, eq_ignore_ascii_case, strip_prefix, starts_with, contains_text,
  trim_start_by, trim_end_by, split_by, span_to, split_once, to_ascii_lowercase,
}
use php_lsp.Editing.OrganizeImports.Statement.{
  UseStatement, class, function, is_used, parse_use_statement,
}
use php_lsp.Editing.OrganizeImports.Statement.Used.{StandsIn, is_used-StandsIn, is_used_panics}
use php_lsp.Editing.OrganizeImports.Group.{Groups, sort_and_dedup, group_used}
use php_lsp.Editing.OrganizeImports.Group.Keeps.{Sorted}
use php_lsp.Editing.OrganizeImports.Group.Imports.{
  Distinct, Has, IsSameImport, sort_and_dedup-Sorted,
}
use php_lsp.Editing.OrganizeImports.Block.{UseBlock, find_use_block}
use php_lsp.Editing.OrganizeImports.Edit.Action.{IsOrganized, organize_imports_action-IsOrganized}
use php_lsp.Editing.OrganizeImports.{TextEdit, organize_imports_action}

abbrev lowered : Text → Text
lowered s = map to_ascii_lowercase s

abbrev user : UseStatement
user = record { fqn = codes "App\\User"; alias = none; short = codes "User"; kind = class }

abbrev mailer : UseStatement
mailer = record {
  fqn = codes "App\\Mailer";
  alias = some (codes "M");
  short = codes "M";
  kind = class;
}

abbrev helper : UseStatement
helper = record { fqn = codes "App\\help"; alias = none; short = codes "help"; kind = function }

abbrev body : Text
body = codes "new User(M::of());"

abbrev three : List UseStatement
three = user ∷ helper ∷ mailer ∷ []

abbrev groups : Groups
groups = record { class_uses = user ∷ mailer ∷ []; fn_uses = []; const_uses = [] }

parses_group : parse_use_statement (codes "App\\{User, function help}") class ≡ user ∷ helper ∷ []
unfolding parse_use_statement span_to split_by trim_end_by trim_start_by is_whitespace split_once
parses_group = refl

finds_used : group_used body three ≡ some groups
unfolding group_used starts_with
finds_used = refl

abbrev source : Text
source =
    codes
      "<?php\nuse App\\User;\nuse function App\\help;\nuse App\\Mailer as M;\nnew User(M::of());"

abbrev edit : TextEdit
edit = record {
  range = record {
    start = record { line = 1; character = 0 };
    stop = record { line = 4; character = 0 };
  };
  new_text = codes "use App\\Mailer as M;\nuse App\\User;\n";
}

-- Neither the unused import nor the wrong order survives.
organizes : organize_imports_action lowered source ≡ some (some edit)
unfolding organize_imports_action split_by contains_text trim_end_by trim_start_by is_whitespace
    strip_prefix span_to split_once starts_with split_at find_char len_utf8 len_utf16 text_eq
    eq_ignore_ascii_case php_lsp.Prelude.Strs.slice
organizes = refl

narrow : len_utf8 b'U' ≡ 1
unfolding len_utf8
narrow = refl

is_used-StandsIn_example :
    (b : Bool) × (is_used user body ≡ some b) × ((b ≡ true) ↔ StandsIn (codes "User") none body)
is_used-StandsIn_example = is_used-StandsIn b'U' (codes "ser") user body refl narrow

-- `Été`, whose first letter takes two bytes
abbrev summer : UseStatement
summer = record {
  fqn = 0xC9 ∷ b't' ∷ 0xE9 ∷ [];
  alias = none;
  short = 0xC9 ∷ b't' ∷ 0xE9 ∷ [];
  kind = class;
}

wide : len_utf8 0xC9 ≢ 1
unfolding len_utf8
wide = ground arith

is_used_panics_example :
    is_used summer (codes "new Bel" ++ (b'_' ∷ 0xC9 ∷ b't' ∷ 0xE9 ∷ codes "();")) ≡ none
is_used_panics_example =
    is_used_panics 0xC9 (b't' ∷ 0xE9 ∷ []) summer (codes "new Bel") (codes "();") b'_' refl wide
      (ground arith) refl

abbrev repeated : List UseStatement
repeated = user ∷ mailer ∷ user ∷ []

sort_and_dedup-Sorted_example :
    Sorted lowered (sort_and_dedup lowered repeated)
    × (Distinct (sort_and_dedup lowered repeated)
        × (All (λ v. Has (λ u. u ≡ v) repeated) (sort_and_dedup lowered repeated)
            × All (λ u. Has (IsSameImport u) (sort_and_dedup lowered repeated)) repeated))
sort_and_dedup-Sorted_example = sort_and_dedup-Sorted lowered repeated

abbrev block : UseBlock
block = record {
  range = record {
    start = record { line = 1; character = 0 };
    stop = record { line = 4; character = 0 };
  };
  statements = three;
  indent = [];
  body_start_byte = 64;
}

finds_block : find_use_block source ≡ some (some block)
unfolding find_use_block split_by contains_text trim_end_by trim_start_by is_whitespace strip_prefix
    span_to split_once split_at find_char len_utf8
finds_block = refl

takes_body : slice_from source 64 ≡ some body
unfolding split_at len_utf8
takes_body = refl

organize_imports_action-IsOrganized_example : IsOrganized block body edit
organize_imports_action-IsOrganized_example =
    organize_imports_action-IsOrganized lowered source block body edit finds_block takes_body
      organizes
