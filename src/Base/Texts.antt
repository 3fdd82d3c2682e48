-- ===== src/Base/Texts.antt =====
-- Go strings as lists of bytes: comparison, and `strings.TrimSpace` over UTF-8.
pub mod Graphic
use Prim.Native.Nat.{ℕ, zero, suc}
use Prim.Native.Char.{code}
use Prim.Native.String.{String}
use mathlib.Core.Path.{◌≡◌, refl}
use mathlib.Core.Bool.{Bool, true, false, ◌&&◌, ◌||◌}
use mathlib.Core.List.{List, [], ◌∷◌, reverse}
use mathlib.Core.Logic.{◌↔◌}
use native.Mathlib.Omega.{arith}
use freebuff2api.Base.Tests.{ltb, leb, ◌==◌, if◌then◌else◌}

abbrev pub Text : Type 0
Text = List ℕ

-- The bytes of an ASCII literal.
abbrev pub codes : String → Text
codes String.[] = []
codes (String.◌∷◌ c s) = code c ∷ codes s

-- `a == b`
unfoldable pub text_eq : Text → Text → Bool
text_eq [] [] = true
text_eq [] (b ∷ t) = false
text_eq (a ∷ s) [] = false
text_eq (a ∷ s) (b ∷ t) = (a == b) && text_eq s t

text_eq_sound : (s t : Text) → text_eq s t ≡ true → s ≡ t
unfolding text_eq
text_eq_sound [] [] h = refl
text_eq_sound [] (b ∷ t) h = ground arith
text_eq_sound (a ∷ s) [] h = ground arith
text_eq_sound (a ∷ s) (b ∷ t) h = ground (arith, text_eq_sound s t)

pub text_eq_refl : (s : Text) → text_eq s s ≡ true
unfolding text_eq
text_eq_refl [] = refl
text_eq_refl (a ∷ s) = ground (arith, text_eq_refl s)

text_eq_complete : (s t : Text) → s ≡ t → text_eq s t ≡ true
text_eq_complete s t e = ground (arith, text_eq_refl s)

pub text_eq_iff : (s t : Text) → (text_eq s t ≡ true) ↔ (s ≡ t)
text_eq_iff s t = (text_eq_sound s t, text_eq_complete s t)

pub text_eq_comm : (s t : Text) → text_eq s t ≡ text_eq t s
text_eq_comm s t = ground (arith, text_eq_iff s t, text_eq_iff t s)

-- `a < b`, byte by byte.
unfoldable pub text_lt : Text → Text → Bool
text_lt s [] = false
text_lt [] (b ∷ t) = true
text_lt (a ∷ s) (b ∷ t) = ltb a b || ((a == b) && text_lt s t)

-- The two-byte and three-byte encodings of `unicode.IsSpace`: U+0085, U+00A0; U+1680, U+2000 to
-- U+200A, U+2028, U+2029, U+202F, U+205F, U+3000.
is_space₁ : ℕ → Bool
is_space₁ a = (leb 9 a && leb a 13) || (a == 32)

is_space₂ : ℕ → ℕ → Bool
is_space₂ a b = (a == 0xc2) && ((b == 0x85) || (b == 0xa0))

is_space₃ : ℕ → ℕ → ℕ → Bool
is_space₃ a b c =
    ((a == 0xe1) && (b == 0x9a) && (c == 0x80))
    || ((a == 0xe2)
        && (b == 0x80)
        && ((leb 0x80 c && leb c 0x8a) || (c == 0xa8) || (c == 0xa9) || (c == 0xaf)))
    || ((a == 0xe2) && (b == 0x81) && (c == 0x9f))
    || ((a == 0xe3) && (b == 0x80) && (c == 0x80))

-- The bytes of the space that a text begins with; 0 where it begins with none.
space_width : ℕ → Text → ℕ
unfolding is_space₁ is_space₂ is_space₃
space_width a [] = if is_space₁ a then 1 else 0
space_width a (b ∷ []) = if is_space₁ a then 1 else if is_space₂ a b then 2 else 0
space_width a (b ∷ c ∷ r) =
    if is_space₁ a then 1 else if is_space₂ a b then 2 else if is_space₃ a b c then 3 else 0

-- The same at the end of a text, whose bytes stand in reverse.
space_width_end : ℕ → Text → ℕ
unfolding is_space₁ is_space₂ is_space₃
space_width_end a [] = if is_space₁ a then 1 else 0
space_width_end a (b ∷ []) = if is_space₁ a then 1 else if is_space₂ b a then 2 else 0
space_width_end a (b ∷ c ∷ r) =
    if is_space₁ a then 1 else if is_space₂ b a then 2 else if is_space₃ c b a then 3 else 0

-- Drops leading spaces, after `k` bytes that belong to one already seen.
strip : (ℕ → Text → ℕ) → ℕ → Text → Text
strip width k [] = []
strip width (suc k) (a ∷ r) = strip width k r
strip width zero (a ∷ r) = elim (width a r) [ zero ↦ a ∷ r | suc w ↦ strip width w r ]

-- `strings.TrimSpace`
unfoldable pub trim_space : Text → Text
unfolding space_width space_width_end strip
trim_space s = reverse (strip space_width_end 0 (reverse (strip space_width 0 s)))

trim_space_test : trim_space (codes "\t  a b \n") ≡ codes "a b"
unfolding trim_space
trim_space_test = refl

trim_space_wide_test : trim_space (0xe3 ∷ 0x80 ∷ 0x80 ∷ 97 ∷ 0xc2 ∷ 0xa0 ∷ []) ≡ codes "a"
unfolding trim_space
trim_space_wide_test = refl
