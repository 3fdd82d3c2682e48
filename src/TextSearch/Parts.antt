-- ===== src/TextSearch/Parts.antt =====
-- Searches of a text that is put together of others.
use freebuff2api.Base.{
  ◌≡◌, refl, Bool, true, false, ◌||◌, ◌&&◌, not, List, [], ◌∷◌, ◌++◌, ◌==◌, Text, arith,
}
use freebuff2api.TextSearch.{has_prefix, contains, lower_after, to_lower}

pub contains-append : (s t p : Text) → contains t p ≡ true → contains (s ++ t) p ≡ true
unfolding contains
contains-append [] t p h = h
contains-append (a ∷ s) t p h = ground (arith, contains-append s t p h)

has_prefix-append : (s t p : Text) → has_prefix s p ≡ true → has_prefix (s ++ t) p ≡ true
unfolding has_prefix
has_prefix-append [] [] [] h = refl
has_prefix-append [] (b ∷ t) [] h = refl
has_prefix-append [] t (c ∷ p) h = ground arith
has_prefix-append (a ∷ s) t [] h = refl
has_prefix-append (a ∷ s) t (c ∷ p) h = ground (arith, has_prefix-append s t p)

contains-nil : (t p : Text) → has_prefix t p ≡ true → contains t p ≡ true
unfolding contains
contains-nil [] p h = h
contains-nil (a ∷ t) p h = ground arith

pub contains-before : (s t p : Text) → contains s p ≡ true → contains (s ++ t) p ≡ true
unfolding contains
contains-before [] t p h = contains-nil t p (has_prefix-append [] t p h)
contains-before (a ∷ s) t p h = ground (arith, has_prefix-append (a ∷ s) t p, contains-before s t p)

-- One of the patterns occurs.
unfoldable pub contains_any : Text → List Text → Bool
contains_any m [] = false
contains_any m (p ∷ ps) = contains m p || contains_any m ps

pub contains_any-append :
    (s t : Text) (ps : List Text) → contains_any t ps ≡ true → contains_any (s ++ t) ps ≡ true
unfolding contains_any
contains_any-append s t [] h = h
contains_any-append s t (p ∷ ps) h =
    ground (arith, contains-append s t p, contains_any-append s t ps)

pub contains_any-before :
    (s t : Text) (ps : List Text) → contains_any s ps ≡ true → contains_any (s ++ t) ps ≡ true
unfolding contains_any
contains_any-before s t [] h = h
contains_any-before s t (p ∷ ps) h =
    ground (arith, contains-before s t p, contains_any-before s t ps)

-- No byte begins U+0130.
unfoldable pub is_plain : Text → Bool
is_plain [] = true
is_plain (a ∷ s) = not (a == 0xc4) && is_plain s

pub to_lower-append :
    (s t : Text) → is_plain s ≡ true → to_lower (s ++ t) ≡ to_lower s ++ to_lower t
unfolding to_lower lower_after is_plain
to_lower-append [] t h = refl
to_lower-append (a ∷ s) t h = ground (arith, to_lower-append s t)
