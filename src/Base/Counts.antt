-- ===== src/Base/Counts.antt =====
-- Multisets of addresses as lists: how often one stands in a list, and removal.
use Prim.Native.Nat.{ℕ, suc, ◌+◌, ◌-◌}
use mathlib.Core.Path.{◌≡◌, refl}
use mathlib.Core.List.{List, [], ◌∷◌, ◌++◌}
use native.Mathlib.Omega.{arith}
use freebuff2api.Base.Tests.{◌==◌, if◌then◌else◌}

unfoldable pub count : ℕ → List ℕ → ℕ
count a [] = 0
count a (x ∷ xs) = let rest = count a xs in if a == x then suc rest else rest

-- Every occurrence goes.
unfoldable pub remove : ℕ → List ℕ → List ℕ
remove a [] = []
remove a (x ∷ xs) = let rest = remove a xs in if a == x then rest else x ∷ rest

-- One occurrence goes.
unfoldable pub remove_one : ℕ → List ℕ → List ℕ
remove_one a [] = []
remove_one a (x ∷ xs) = let rest = remove_one a xs in if a == x then xs else x ∷ rest

pub count-append : (a : ℕ) (xs ys : List ℕ) → count a (xs ++ ys) ≡ count a xs + count a ys
unfolding count
count-append a [] ys = omega arith
count-append a (x ∷ xs) ys = ground (arith, count-append a xs ys)

pub count-remove :
    (a b : ℕ) (xs : List ℕ) → count b (remove a xs) ≡ (if a == b then 0 else count b xs)
unfolding count remove
count-remove a b [] = ground arith
count-remove a b (x ∷ xs) = ground (arith, count-remove a b xs)

pub count-remove_one :
    (a b : ℕ) (xs : List ℕ)
    → count b (remove_one a xs) ≡ (if a == b then count b xs - 1 else count b xs)
unfolding count remove_one
count-remove_one a b [] = ground arith
count-remove_one a b (x ∷ xs) = ground (arith, count-remove_one a b xs)

pub count-nil : (a : ℕ) → count a [] ≡ 0
unfolding count
count-nil a = refl

pub count-cons :
    (a x : ℕ) (xs : List ℕ) → count a (x ∷ xs) ≡ (if a == x then suc (count a xs) else count a xs)
unfolding count
count-cons a x xs = refl
