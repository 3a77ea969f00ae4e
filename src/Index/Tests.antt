-- ===== src/Index/Tests.antt =====
-- src/index/mod.rs: the matchers run on small patterns, and their theorems at concrete inputs.
use php_lsp.Prelude.{ℕ, ◌≡◌, ◌≢◌, refl, true, false, List, [], ◌∷◌, ◌++◌, ◌||◌, arith}
use php_lsp.Prelude.Strs.{text_eq}
use php_lsp.Prelude.Chars.{Text, codes, Lacks}
use php_lsp.Index.Glob.{star, segment_matches}
use php_lsp.Index.Glob.Reference.{glob}
use php_lsp.Index.Glob.Agrees.{segment_matches-glob}
use php_lsp.Index.Glob.Limits.{segment_matches-star_in_name}
use php_lsp.Index.Paths.{
  slash, pattern_segments, matches_any, matches_include_prefix, has_included_children,
}
use php_lsp.Index.Paths.Pruning.{has_included_children_sound}

star_goes_back : segment_matches (codes "*ab?") (codes "xaabc") ≡ true
unfolding segment_matches
star_goes_back = refl

stem_is_tried : matches_any (codes "src/Foo.php") (codes "Fo?" ∷ []) ≡ true
unfolding matches_any pattern_segments text_eq segment_matches
stem_is_tried = refl

vendor_is_matched : matches_any (codes "a/vendor/b/C.php") (codes "./vendor/**" ∷ []) ≡ true
unfolding matches_any pattern_segments text_eq segment_matches
vendor_is_matched = refl

Lacks-star : Lacks star (codes "xaab")
Lacks-star = ground arith

segment_matches-glob_example :
    segment_matches (codes "*a?") (codes "xaab") ≡ glob (codes "*a?") (codes "xaab")
segment_matches-glob_example = segment_matches-glob (codes "*a?") (codes "xaab") Lacks-star

abbrev letter_a : ℕ
letter_a = b'a'

abbrev letter_b : ℕ
letter_b = b'b'

differ : letter_a ≢ letter_b
differ = omega arith

segment_matches-star_in_name_example :
    (segment_matches (star ∷ letter_a ∷ []) (star ∷ letter_b ∷ letter_a ∷ []) ≡ false)
    × (glob (star ∷ letter_a ∷ []) (star ∷ letter_b ∷ letter_a ∷ []) ≡ true)
segment_matches-star_in_name_example = segment_matches-star_in_name letter_a letter_b differ refl

abbrev patterns : List Text
patterns = codes "vendor/acme/*/src" ∷ codes "lib" ∷ []

included : matches_include_prefix (codes "vendor/acme/x/src") patterns ≡ true
unfolding matches_include_prefix pattern_segments text_eq segment_matches
included = refl

included_beneath :
    matches_include_prefix (codes "vendor/acme" ++ slash ∷ codes "x/src") patterns ≡ true
unfolding matches_include_prefix pattern_segments text_eq segment_matches
included_beneath = refl

has_included_children_sound_example :
    (matches_include_prefix (codes "vendor/acme") patterns
      || has_included_children (codes "vendor/acme") patterns)
    ≡ true
has_included_children_sound_example =
    has_included_children_sound (codes "vendor/acme") (codes "x/src") patterns included_beneath
