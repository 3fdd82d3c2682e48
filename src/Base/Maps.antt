-- ===== src/Base/Maps.antt =====
-- Go maps with string keys, as association lists. The order of the list stands for the order of
-- iteration, which Go leaves open.
use mathlib.Core.Path.{◌≡◌, refl}
use mathlib.Core.Bool.{Bool}
use mathlib.Core.List.{List, [], ◌∷◌}
use mathlib.Core.Option.{Option, none, some}
use native.Mathlib.Omega.{arith}
use freebuff2api.Base.Tests.{if◌then◌else◌, Bool-cases}
use freebuff2api.Base.Lists.{All}
use mathlib.Core.Path.{subst₂}
use mathlib.Core.Logic.{inl, inr}
use freebuff2api.Base.Texts.{Text, text_eq, text_eq_iff, text_eq_refl}

module _ {ℓ} {V : Type ℓ} where
  -- `m[k]`
  unfoldable pub lookup : Text → List (Text × V) → Option V
  lookup k [] = none
  lookup k ((j, v) ∷ m) = if text_eq j k then some v else lookup k m

  -- `delete(m, k)`
  unfoldable pub delete : Text → List (Text × V) → List (Text × V)
  delete k [] = []
  delete k ((j, v) ∷ m) = let rest = delete k m in if text_eq j k then rest else (j, v) ∷ rest

  -- `m[k] = v`
  unfoldable pub insert : Text → V → List (Text × V) → List (Text × V)
  insert k v m = (k, v) ∷ delete k m

  -- The entries whose value passes a test.
  unfoldable pub retain : (V → Bool) → List (Text × V) → List (Text × V)
  retain p [] = []
  retain p ((j, v) ∷ m) = let rest = retain p m in if p v then (j, v) ∷ rest else rest

  -- No key stands twice.
  abbrev pub Unique : List (Text × V) → Type ℓ
  Unique [] = Unit
  Unique ((j, v) ∷ m) = (lookup j m ≡ none) × Unique m

  pub lookup-delete :
      (k j : Text) (m : List (Text × V))
      → lookup j (delete k m) ≡ (if text_eq k j then none else lookup j m)
  unfolding lookup delete
  lookup-delete k j [] = ground arith
  lookup-delete k j ((i, w) ∷ m) =
      ground (arith, text_eq_iff k j, text_eq_iff i k, text_eq_iff i j, lookup-delete k j m)

  pub lookup-insert :
      (k j : Text) (v : V) (m : List (Text × V))
      → lookup j (insert k v m) ≡ (if text_eq k j then some v else lookup j m)
  unfolding lookup insert
  lookup-insert k j v m = ground (arith, lookup-delete k j m)

  pub Unique-delete : (k : Text) (m : List (Text × V)) → Unique m → Unique (delete k m)
  unfolding delete
  Unique-delete k [] u = u
  Unique-delete k ((i, w) ∷ m) u = ground (arith, lookup-delete k i m, Unique-delete k m u.1)

  pub Unique-insert : (k : Text) (v : V) (m : List (Text × V)) → Unique m → Unique (insert k v m)
  unfolding insert
  Unique-insert k v m u = ground (arith, lookup-delete k k m, text_eq_refl k, Unique-delete k m u)

  lookup-retain-none :
      (p : V → Bool) (k : Text) (m : List (Text × V))
      → lookup k m ≡ none
      → lookup k (retain p m) ≡ none
  unfolding lookup retain
  lookup-retain-none p k [] h = refl
  lookup-retain-none p k ((i, w) ∷ m) h = ground (arith, lookup-retain-none p k m)

  -- What a key means after a filter, in a map where no key stands twice.
  abbrev pub keep_value : (V → Bool) → Option V → Option V
  keep_value p none = none
  keep_value p (some v) = if p v then some v else none

  pub lookup-retain :
      (p : V → Bool) (k : Text) (m : List (Text × V))
      → Unique m
      → lookup k (retain p m) ≡ keep_value p (lookup k m)
  unfolding lookup retain
  lookup-retain p k [] u = refl
  lookup-retain p k ((i, w) ∷ m) u =
      ground (arith, text_eq_iff i k, lookup-retain p k m u.1, lookup-retain-none p k m)

  pub Unique-retain : (p : V → Bool) (m : List (Text × V)) → Unique m → Unique (retain p m)
  unfolding retain
  Unique-retain p [] u = u
  Unique-retain p ((i, w) ∷ m) u =
      ground (arith, lookup-retain-none p i m u.0, Unique-retain p m u.1)

module _ {ℓ} {V : Type ℓ} (P : Text × V → Type ℓ) where
  pub All-lookup :
      (m : List (Text × V)) (k : Text) (v : V) → All P m → lookup k m ≡ some v → P (k, v)
  unfolding lookup
  All-lookup [] k v h e = absurd (ground arith)
  All-lookup ((j, w) ∷ m) k v h e = elim (Bool-cases (text_eq j k)) [
    | inl same ↦ subst₂ (λ x y. P (x, y)) ((text_eq_iff j k).0 same) (ground arith) h.0
    | inr other ↦ All-lookup m k v h.1 (ground arith)
  ]

  pub All-delete : (k : Text) (m : List (Text × V)) → All P m → All P (delete k m)
  unfolding delete
  All-delete k [] h = tt
  All-delete k ((j, w) ∷ m) h = elim (Bool-cases (text_eq j k)) [
    | inl same ↦ rw same (All-delete k m h.1)
    | inr other ↦ rw other (h.0, All-delete k m h.1)
  ]

  pub All-insert :
      (k : Text) (v : V) (m : List (Text × V)) → P (k, v) → All P m → All P (insert k v m)
  unfolding insert
  All-insert k v m p h = (p, All-delete k m h)
