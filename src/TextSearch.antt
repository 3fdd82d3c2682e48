-- ===== src/TextSearch.antt =====
-- The functions of `strings` that server.go and accounts.go search texts with, and `containsString`
-- of config.go.
pub mod Parts
use freebuff2api.Base.{
  ℕ, ◌+◌, Bool, true, false, ◌&&◌, ◌||◌, List, [], ◌∷◌, leb, ◌==◌, if◌then◌else◌, Text, text_eq,
}

-- `strings.HasPrefix` and `strings.TrimPrefix`
unfoldable pub has_prefix : Text → Text → Bool
has_prefix s [] = true
has_prefix [] (b ∷ p) = false
has_prefix (a ∷ s) (b ∷ p) = (a == b) && has_prefix s p

unfoldable pub drop_prefix : Text → Text → Text
drop_prefix s [] = s
drop_prefix [] (b ∷ p) = []
drop_prefix (a ∷ s) (b ∷ p) = drop_prefix s p

unfoldable pub trim_prefix : Text → Text → Text
trim_prefix s p = if has_prefix s p then drop_prefix s p else s

-- `containsString`
unfoldable pub contains_string : List Text → Text → Bool
contains_string [] needle = false
contains_string (v ∷ rest) needle = text_eq v needle || contains_string rest needle

-- `strings.ToLower`, as far as it can matter for a search of the patterns below: the ASCII letters,
-- and U+0130, whose lower case is the ASCII letter i.
abbrev lower_byte : ℕ → ℕ
lower_byte a = if leb 65 a && leb a 90 then a + 32 else a

-- Beside the text stands whether its last byte was 0xc4, the first of U+0130.
lower_after : Bool → Text → Text
lower_after false [] = []
lower_after true [] = 0xc4 ∷ []
lower_after false (a ∷ r) =
    let later = lower_after false r in
    let held = lower_after true r in if a == 0xc4 then held else lower_byte a ∷ later
lower_after true (a ∷ r) =
    let later = lower_after false r in
    let held = lower_after true r in
    if a == 0xb0
    then 105 ∷ later
    else if a == 0xc4
    then 0xc4 ∷ held
    else 0xc4 ∷ lower_byte a ∷ later

unfoldable pub to_lower : Text → Text
unfolding lower_after
to_lower s = lower_after false s

-- `strings.Contains`
unfoldable pub contains : Text → Text → Bool
contains [] p = has_prefix [] p
contains (a ∷ s) p = has_prefix (a ∷ s) p || contains s p

-- `strings.EqualFold` with a text in lower case that has no k: the ASCII letters, and U+017F, which
-- folds to s.
unfoldable pub equal_fold : Text → Text → Bool
equal_fold [] [] = true
equal_fold [] (b ∷ p) = false
equal_fold (a ∷ s) [] = false
equal_fold (a ∷ []) (b ∷ p) = (lower_byte a == b) && equal_fold [] p
equal_fold (a ∷ c ∷ s) (b ∷ p) =
    let near = equal_fold (c ∷ s) p in
    let far = equal_fold s p in
    if lower_byte a == b then near else (b == 115) && (a == 0xc5) && (c == 0xbf) && far
