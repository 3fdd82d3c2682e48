-- ===== src/Base/Texts/Graphic.antt =====
-- `strings.TrimSpace` leaves a text alone that has neither spaces nor bytes outside of ASCII.
use Prim.Native.Nat.{ℕ, ◌≤◌, ◌<◌}
use mathlib.Core.Path.{◌≡◌, refl}
use mathlib.Core.List.{[], ◌∷◌, reverse, reverse_aux, reverse-reverse}
use native.Mathlib.Omega.{arith}
use freebuff2api.Base.Lists.{All}
use freebuff2api.Base.Texts.{
  Text, is_space₁, is_space₂, is_space₃, space_width, space_width_end, strip, trim_space,
}

abbrev pub Graphic : Text → Type 0
Graphic = All (λ a. (33 ≤ a) × (a < 128))

space_width-Graphic : (a : ℕ) (r : Text) → 33 ≤ a → a < 128 → space_width a r ≡ 0
unfolding space_width is_space₁ is_space₂ is_space₃
space_width-Graphic a [] h k = ground arith
space_width-Graphic a (b ∷ []) h k = ground arith
space_width-Graphic a (b ∷ c ∷ r) h k = ground arith

space_width_end-Graphic : (a : ℕ) (r : Text) → 33 ≤ a → a < 128 → space_width_end a r ≡ 0
unfolding space_width_end is_space₁ is_space₂ is_space₃
space_width_end-Graphic a [] h k = ground arith
space_width_end-Graphic a (b ∷ []) h k = ground arith
space_width_end-Graphic a (b ∷ c ∷ r) h k = ground arith

strip-Graphic : (s : Text) → Graphic s → strip space_width 0 s ≡ s
unfolding strip
strip-Graphic [] g = refl
strip-Graphic (a ∷ r) g = rw (space_width-Graphic a r g.0.0 g.0.1, strip) refl

strip_end-Graphic : (s : Text) → Graphic s → strip space_width_end 0 s ≡ s
unfolding strip
strip_end-Graphic [] g = refl
strip_end-Graphic (a ∷ r) g = rw (space_width_end-Graphic a r g.0.0 g.0.1, strip) refl

Graphic-reverse_aux : (s t : Text) → Graphic s → Graphic t → Graphic (reverse_aux s t)
Graphic-reverse_aux [] t g h = h
Graphic-reverse_aux (a ∷ s) t g h = Graphic-reverse_aux s (a ∷ t) g.1 (g.0, h)

pub trim_space-Graphic : (s : Text) → Graphic s → trim_space s ≡ s
unfolding trim_space
trim_space-Graphic s g =
    rw (strip-Graphic s g, strip_end-Graphic (reverse s) (Graphic-reverse_aux s [] g tt))
      (reverse-reverse s)
