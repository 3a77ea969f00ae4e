-- ===== src/Lib.antt =====
-- php-lsp: the core of the language server that computes without the syntax tree.
--
-- Text (src/text/offset.rs) converts between the positions of the protocol, lines and UTF-16
-- columns, and byte offsets, and applies incremental changes; it also finds the word under the
-- cursor and the text of a selection (src/text/word.rs) and matches names against what a user types
-- (src/text/fuzzy.rs).
-- Index (src/index/mod.rs) matches paths against the patterns of the configuration and decides
-- which directories a scan descends into.
-- Analysis (src/analysis/semantic_tokens.rs) encodes semantic tokens and computes the edit between
-- two answers; it also runs PHPStan and PHPCS (src/analysis/external), whose settings Lang reads,
-- keeps a registry of their runs, and turns their reports into diagnostics.
-- Document holds the caches per file (src/document/cache_registry.rs), the open buffers with the
-- order of open and close messages (src/document/open_files.rs), the service that notes these
-- messages (`LifecycleService` of src/backend/mod.rs), the handlers `did_open` and `did_close`,
-- which ask it whether their message still counts, and the text after a change message
-- (`did_change` of src/backend/server.rs), which uses Text for every change. It also turns byte
-- offsets of a parsed document into positions and back, through the table of line starts
-- (src/document/ast.rs).
-- Lang holds the table of PHP functions (src/lang/php_names.rs), the file header, the lines before
-- the first code (src/lang/file_header.rs), the versions of PHP and the constraints on them
-- (src/lang/autoload.rs), and the configuration (src/lang/config.rs): it reads a JSON value into
-- `LspConfig`, merges the project's file with the settings of the editor, and settles the version
-- at start-up (`initialize` of src/backend/handlers/workspace.rs), for which it asks the versions.
-- It also turns the HTML of docblocks into Markdown (src/lang/doc_html.rs).
-- Editing sorts the imports of a file and drops the unused ones (src/editing/organize_imports.rs):
-- it reads `use` lines of the header from Lang and turns places into bytes with Text. It also
-- indents a line when `}` or a line break is typed (src/editing/on_type_format.rs), where braces in
-- strings and comments do not count (`string_literal_mask` of src/editing/signature_help.rs).
-- Protocol rewrites the drive letters in the URIs of incoming messages to one form and puts the
-- spelling of the client back into outgoing ones (src/backend/drive_letter.rs).
--
-- Files and code:
--   Prelude          shared tests into Bool, lists, texts and maps
--   Text/Offset      every function of src/text/offset.rs but `Utf16Columns`; Spec, Change, Ends
--                    and Columns hold the proofs
--   Text/Word        `word_at_position` and `word_range_at` of src/text/word.rs, Bounds holds the proofs;
--                    Selection is `selected_text_range`, Selection/Line and Selection/Between hold the
--                    proofs; Names holds `split_params` and the helpers on names
--   Text/Fuzzy       src/text/fuzzy.rs; Abbreviation and Substring hold the proofs
--   Index/Glob       `segment_matches`; Reference is the meaning of a pattern, Agrees and Limits compare
--   Index/Paths      `pattern_segments`, `segments_match`, `matches_any`, `matches_include_prefix`,
--                    `has_included_children`; Beneath and Pruning hold the proofs
--   Analysis/Tokens  `delta_encode`, `semantic_tokens`, `semantic_tokens_range` from the collected
--                    tokens on, `compute_token_delta`; Order, Decode, Delta and Minimal hold the proofs
--   Analysis/External  `run_external_diagnostics` with the `run` and `to_diagnostic` of both tools; Runs is
--                    `RunRegistry` with the steps it takes, Sources holds proofs on the diagnostics
--   Document/CacheRegistry  the struct `CacheRegistry` with its operations; Threshold, Shedding,
--                    Recency and Sound hold the proofs
--   Document/Positions  `SourceView` and the functions on line starts of src/document/ast.rs; Scan
--                    compares the search of a byte with counting units, Place and Back go from an
--                    offset to its position and back
--   Document/OpenFiles  the struct `OpenFiles` with its operations and the loop of `did_change`;
--                    Lifecycle is the step relation of the service, Ordering, Superseded, Staleness and
--                    Changes hold the proofs
--   Document/Handlers  `did_open` and `did_close` of src/backend/server.rs, each cut at its await;
--                    Superseded holds the proofs
--   Prelude/Strs     the operations of `str` that the source uses
--   Prelude/Json     `serde_json::Value` with the operations on objects that the source uses
--   Lang/Builtins    `PHP_BUILTINS` with `is_php_builtin` and `php_doc_url`; Search holds the proof
--   Lang/FileHeader  `header_line_count` and `header_lines`
--   Lang/Versions    the version functions of src/lang/autoload.rs: `clamp_php_version` (Clamp holds
--                    proofs), Constraint parses the constraints of composer.json (Range holds proofs),
--                    Resolve is `resolve_php_version` and the order of its sources
--   Lang/Config      src/lang/config.rs: Toggles and External are the switches of diagnostics, features
--                    and external tools; Merge and Sane hold proofs on the merge of two values and on
--                    the limits of a parsed configuration; Startup is the part of `initialize` that
--                    reads the configuration, Startup/Version holds the proofs on its version
--   Lang/DocHtml     src/lang/doc_html.rs; Total and Escaped hold the proofs
--   Editing/OrganizeImports  `organize_imports_action` and its edit; Statement parses one statement and
--                    tests whether it is used (Used, RoundTrip hold proofs), Group sorts and prints
--                    (Keeps and Imports hold proofs), Block is `find_use_block`; Edit, with Written and
--                    Action, holds the proofs on the whole edit
--   Editing/StringMask  `string_literal_mask`; Strings puts a text together from code, strings and comments
--   Editing/OnTypeFormat  `on_type_format` with both handlers; Scan is about the backward scan, Total about
--                    panics, Applied about the edits as changes of the text
--   Protocol/DriveLetter  `normalize_request`, `restore_request` and what they call; Canonical, Rewrite,
--                    Guard, Spellings and Noted hold the proofs
--   Tests            in each part: the code run on small inputs
--
-- A text is the list of its Unicode scalar values. A byte offset is a sum of UTF-8 sizes, and a slice
-- off a character boundary, which panics in Rust, is `none`, as is a subtraction below zero. Results
-- that the source casts to u32 are taken modulo 2^32, counters of 64 bits modulo 2^64. Hash maps are
-- association lists in the order of iteration, about which nothing is assumed. `segment_matches` runs
-- on fuel, (length of the name + 2) * (length of the pattern + 1): every round shortens the pattern that
-- is left or moves the backtrack point on. `html_to_markdown` runs on the length of its text: every
-- round takes a character.
--
-- Not modelled: the syntax tree, the analyser and the salsa database, which other crates define,
-- with the features that walk them (completion, hover, navigation, code actions, the collection of
-- tokens); the asynchronous runtime, of which only the order of messages and of finished handlers
-- remains; the file system and child processes, whose output is an argument. The types of keys,
-- documents and analyses, and the diagnostics of open files, are parameters, as are the Unicode
-- tables of the standard library and the operations of the document store and of the registry of
-- external runs that open files and handlers call, the value of a number of JSON as an unsigned
-- integer, and what a file of the project or `php --version` says.
pub mod Prelude
pub mod Text
pub mod Index
pub mod Analysis
pub mod Document
pub mod Lang
pub mod Editing
pub mod Protocol
