-- ===== src/Lang/Builtins/Search.antt =====
-- src/lang/php_names.rs: a search of a sorted table finds what stands in it, and the table is sorted.
use php_lsp.Prelude.{
  ℕ, zero, suc, ◌-◌, ◌/◌, ◌≤◌, ◌<◌, ◌≡◌, refl, sym, ap, ◌∙◌, subst, Bool, true, false, ◌&&◌, ◌||◌,
  List, [], ◌∷◌, ◌++◌, length, take, drop, any, All, arith, length-take, length-drop,
  take-append-drop,
}
use php_lsp.Prelude.Chars.{Text}
use php_lsp.Prelude.Strs.{text_eq, text_ltb, text_eq_iff}
use php_lsp.Lang.Builtins.{
  builtins, is_greater, is_first, search_loop, binary_search, is_php_builtin,
}

-- The entry is in the table.
abbrev pub is_in : Text → List Text → Bool
is_in name table = any (λ entry. text_eq entry name) table

text_ltb_irrefl : (s : Text) → text_ltb s s ≡ false
text_ltb_irrefl [] = refl
text_ltb_irrefl (c ∷ s) = ground (arith, text_ltb_irrefl s)

text_ltb_trans : (r s t : Text) → text_ltb r s ≡ true → text_ltb s t ≡ true → text_ltb r t ≡ true
text_ltb_trans r [] t h k = cc
text_ltb_trans r (d ∷ s) [] h k = cc
text_ltb_trans [] (d ∷ s) (e ∷ t) h k = refl
text_ltb_trans (c ∷ r) (d ∷ s) (e ∷ t) h k = ground (arith, text_ltb_trans r s t)

-- Every entry comes before the next.
abbrev pub ascending : List Text → Bool
ascending [] = true
ascending (s ∷ []) = true
ascending (s ∷ t ∷ l) = text_ltb s t && ascending (t ∷ l)

-- Every entry comes before all later ones.
abbrev pub IsSorted : List Text → Type 0
IsSorted [] = Unit
IsSorted (s ∷ l) = All (λ t. text_ltb s t ≡ true) l × IsSorted l

after-All :
    (s t : Text) (l : List Text)
    → text_ltb s t ≡ true
    → All (λ u. text_ltb t u ≡ true) l
    → All (λ u. text_ltb s u ≡ true) l
after-All s t [] h a = tt
after-All s t (u ∷ l) h a = (text_ltb_trans s t u h a.0, after-All s t l h a.1)

ascending-IsSorted : (l : List Text) → ascending l ≡ true → IsSorted l
ascending-IsSorted [] h = tt
ascending-IsSorted (s ∷ []) h = (tt, tt)
ascending-IsSorted (s ∷ t ∷ l) h =
    let st : text_ltb s t ≡ true = ground arith in
    let rest = ascending-IsSorted (t ∷ l) (ground arith) in ((st, after-All s t l st rest.0), rest)

builtins-IsSorted : IsSorted builtins
builtins-IsSorted = ascending-IsSorted builtins refl

absent_after :
    (name : Text) (l : List Text) → All (λ t. text_ltb name t ≡ true) l → is_in name l ≡ false
absent_after name [] h = refl
absent_after name (t ∷ l) h =
    ground (arith, absent_after name l, text_eq_iff t name, text_ltb_irrefl name)

All-middle :
    (s t : Text) (a r : List Text)
    → All (λ u. text_ltb s u ≡ true) (a ++ t ∷ r)
    → text_ltb s t ≡ true
All-middle s t [] r h = h.0
All-middle s t (u ∷ a) r h = All-middle s t a r h.1

absent_before :
    (name t : Text) (a r : List Text)
    → text_ltb name t ≡ false
    → IsSorted (a ++ t ∷ r)
    → is_in name a ≡ false
absent_before name t [] r h sorted = refl
absent_before name t (s ∷ a) r h sorted =
    ground
      (arith, All-middle s t a r sorted.0, absent_before name t a r h sorted.1, text_eq_iff s name)

All-append_left :
    (s : Text) (a b : List Text)
    → All (λ u. text_ltb s u ≡ true) (a ++ b)
    → All (λ u. text_ltb s u ≡ true) a
All-append_left s [] b h = tt
All-append_left s (u ∷ a) b h = (h.0, All-append_left s a b h.1)

IsSorted-append_left : (a b : List Text) → IsSorted (a ++ b) → IsSorted a
IsSorted-append_left [] b h = tt
IsSorted-append_left (s ∷ a) b h = (All-append_left s a b h.0, IsSorted-append_left a b h.1)

IsSorted-append_right : (a b : List Text) → IsSorted (a ++ b) → IsSorted b
IsSorted-append_right [] b h = h
IsSorted-append_right (s ∷ a) b h = IsSorted-append_right a b h.1

IsSorted-take : (n : ℕ) (l : List Text) → IsSorted l → IsSorted (take n l)
IsSorted-take n l h =
    IsSorted-append_left (take n l) (drop n l) (subst IsSorted (sym (take-append-drop n l)) h)

IsSorted-drop : (n : ℕ) (l : List Text) → IsSorted l → IsSorted (drop n l)
IsSorted-drop n l h =
    IsSorted-append_right (take n l) (drop n l) (subst IsSorted (sym (take-append-drop n l)) h)

is_in-append :
    (name : Text) (a b : List Text) → is_in name (a ++ b) ≡ (is_in name a || is_in name b)
is_in-append name [] b = refl
is_in-append name (s ∷ a) b = ground (arith, is_in-append name a b)

is_in-cut :
    (name : Text) (n : ℕ) (l : List Text)
    → is_in name l ≡ (is_in name (take n l) || is_in name (drop n l))
is_in-cut name n l =
    ap (is_in name) (sym (take-append-drop n l)) ∙ is_in-append name (take n l) (drop n l)

absent-drop :
    (name : Text) (h k : ℕ) (l : List Text)
    → h ≤ k
    → is_in name (drop h l) ≡ false
    → is_in name (drop k l) ≡ false
absent-drop name zero zero l le a = a
absent-drop name zero (suc k) [] le a = refl
absent-drop name zero (suc k) (s ∷ l) le a = ground (arith, absent-drop name zero k l)
absent-drop name (suc h) zero l le a = absurd (omega arith)
absent-drop name (suc h) (suc k) [] le a = refl
absent-drop name (suc h) (suc k) (s ∷ l) le a = absent-drop name h k l (omega arith) a

-- The half that a round keeps holds the name if the part does.
keeps_lower :
    (name : Text) (h k : ℕ) (l : List Text)
    → h ≤ k
    → IsSorted l
    → is_greater name (drop h l) ≡ true
    → is_in name (take k l) ≡ is_in name l
keeps_lower name h k l le sorted greater =
    let gone = absent-drop name h k l le (above (drop h l) (IsSorted-drop h l sorted) greater) in
    ground (arith, is_in-cut name k l, gone)
  where
    above :
        (part : List Text) → IsSorted part → is_greater name part ≡ true → is_in name part ≡ false
    above [] s g = refl
    above (t ∷ r) s g = absent_after name (t ∷ r) (g, after-All name t r g s.0)

keeps_upper :
    (name : Text) (h : ℕ) (l : List Text)
    → h < length l
    → IsSorted l
    → is_greater name (drop h l) ≡ false
    → is_in name (drop h l) ≡ is_in name l
keeps_upper name h l lt sorted greater =
    let gone =
      below (drop h l) (omega (arith, length-drop h l))
        (subst IsSorted (sym (take-append-drop h l)) sorted) greater in
    ground (arith, is_in-cut name h l, gone)
  where
    below :
        (part : List Text)
        → 0 < length part
        → IsSorted (take h l ++ part)
        → is_greater name part ≡ false
        → is_in name (take h l) ≡ false
    below [] p s g = absurd (omega arith)
    below (t ∷ r) p s g = absent_before name t (take h l) r g s

first_of_small : (name : Text) (l : List Text) → length l ≤ 1 → is_first name l ≡ is_in name l
first_of_small name [] h = refl
first_of_small name (s ∷ []) h = ground arith
first_of_small name (s ∷ t ∷ l) h = absurd (omega arith)

search_loop-is_in :
    (fuel size : ℕ) (part : List Text) (name : Text)
    → size ≡ length part
    → size ≤ fuel
    → IsSorted part
    → search_loop fuel size part name ≡ is_in name part
unfolding search_loop
search_loop-is_in zero size part name e le sorted = first_of_small name part (omega arith)
search_loop-is_in (suc fuel) size part name e le sorted =
    let half = size / 2 in
    ground (
      arith,
      first_of_small name part,
      length-take (size - half) part,
      length-drop half part,
      search_loop-is_in fuel (size - half) (take (size - half) part) name,
      search_loop-is_in fuel (size - half) (drop half part) name,
      IsSorted-take (size - half) part sorted,
      IsSorted-drop half part sorted,
      keeps_lower name half (size - half) part,
      keeps_upper name half part,
    )

-- The search finds exactly the names of the table: the table is sorted, as the search needs it.
pub is_php_builtin-is_in : (name : Text) → is_php_builtin name ≡ is_in name builtins
unfolding is_php_builtin binary_search
is_php_builtin-is_in name =
    search_loop-is_in (length builtins) (length builtins) builtins name refl (omega arith)
      builtins-IsSorted
