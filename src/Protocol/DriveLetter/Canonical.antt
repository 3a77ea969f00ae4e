-- ===== src/Protocol/DriveLetter/Canonical.antt =====
-- src/backend/drive_letter.rs: `normalized_drive_uri` gives a canonical form.
use php_lsp.Prelude.{
  ℕ, ◌≡◌, ◌∙◌, ap, refl, Option, none, some, true, ◌||◌, [], ◌∷◌, arith, Bool-cases, inl, inr,
}
use php_lsp.Prelude.Chars.{Text, codes}
use php_lsp.Prelude.Strs.{
  text_eq_iff, is_ascii_alphabetic, to_ascii_uppercase, is_empty, strip_prefix, starts_with,
}
use php_lsp.Protocol.DriveLetter.{
  drive_tail, drive_uri, normalized_tail, normalized_rest, normalized_drive_uri,
}

upper_alphabetic :
    (d : ℕ)
    → is_ascii_alphabetic d ≡ true
    → (is_ascii_alphabetic (to_ascii_uppercase d) ≡ true)
      × (to_ascii_uppercase (to_ascii_uppercase d) ≡ to_ascii_uppercase d)
upper_alphabetic d h = ground arith

drive_uri_canonical :
    (d : ℕ) (tail : Text)
    → is_ascii_alphabetic d ≡ true
    → (is_empty tail || starts_with (codes "/") tail) ≡ true
    → normalized_drive_uri (drive_uri d tail) ≡ none
unfolding normalized_drive_uri strip_prefix
drive_uri_canonical d tail alpha ends =
    let (upper, again) = upper_alphabetic d alpha in
    let same = (text_eq_iff (drive_uri d tail) (drive_uri d tail)).1 refl in
    rw (normalized_rest, upper) rw (normalized_tail, ends, again, same) refl

-- A drive, and what stands behind it, that `normalized_drive_uri` reads.
pub data Spelled (t : Text) : Type 0 where
  spells :
      (d : ℕ) (tail : Text)
      → is_ascii_alphabetic d ≡ true
      → (is_empty tail || starts_with (codes "/") tail) ≡ true
      → t ≡ drive_uri d tail
      → Spelled t

tail-Spelled :
    (s t : Text) (d : ℕ) (o : Option Text)
    → is_ascii_alphabetic d ≡ true
    → normalized_tail s d o ≡ some t
    → Spelled t
unfolding normalized_tail
tail-Spelled s t d none alpha h = cc
tail-Spelled s t d (some tail) alpha h =
    elim (Bool-cases (is_empty tail || starts_with (codes "/") tail)) [
      | inl ends ↦ spells d tail alpha ends (ground (arith, ends))
      | inr not_ends ↦ ground (arith, not_ends)
    ]

rest-Spelled : (s t : Text) (o : Option Text) → normalized_rest s o ≡ some t → Spelled t
unfolding normalized_rest
rest-Spelled s t none h = cc
rest-Spelled s t (some []) h = cc
rest-Spelled s t (some (d ∷ after)) h = elim (Bool-cases (is_ascii_alphabetic d)) [
  | inl alpha ↦ tail-Spelled s t d (drive_tail after) alpha (ground (arith, alpha))
  | inr other ↦ ground (arith, other)
]

canonical_of : (t : Text) → Spelled t → normalized_drive_uri t ≡ none
canonical_of t (spells d tail alpha ends e) =
    ap normalized_drive_uri e ∙ drive_uri_canonical d tail alpha ends

-- What `normalized_drive_uri` gives is not rewritten again.
pub normalized_drive_uri_canonical :
    (s t : Text) → normalized_drive_uri s ≡ some t → normalized_drive_uri t ≡ none
unfolding normalized_drive_uri
normalized_drive_uri_canonical s t h =
    canonical_of t (rest-Spelled s t (strip_prefix (codes "file:///") s) h)
