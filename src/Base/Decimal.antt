-- ===== src/Base/Decimal.antt =====
-- Numbers in decimal, as `%d` prints them, and read back.
use Prim.Native.Nat.{ℕ, zero, suc, ◌+◌, ◌-◌, ◌*◌, ◌/◌, ◌%◌, ◌<◌}
use mathlib.Core.Path.{◌≡◌, refl, sym, ap, ◌∙◌}
use mathlib.Core.List.{[], ◌∷◌}
use native.Mathlib.Omega.{arith}
use freebuff2api.Base.Tests.{ltb, if◌then◌else◌}
use freebuff2api.Base.Lists.{All}
use freebuff2api.Base.Texts.{Text, codes}

-- The digits of a number, before the given text; the fuel is more than the number.
decimal_before : ℕ → ℕ → Text → Text
decimal_before zero n later = later
decimal_before (suc fuel) n later =
    let all = decimal_before fuel (n / 10) ((48 + n % 10) ∷ later) in
    if ltb n 10 then (48 + n) ∷ later else all

unfoldable pub decimal : ℕ → Text
unfolding decimal_before
decimal n = decimal_before (suc n) n []

-- The number that the digits of a text have after those of `n`.
read_after : ℕ → Text → ℕ
read_after n [] = n
read_after n (d ∷ t) = read_after (n * 10 + (d - 48)) t

read_decimal : Text → ℕ
unfolding read_after
read_decimal t = read_after 0 t

read_after-decimal_before :
    (fuel n : ℕ) (later : Text)
    → n < fuel
    → read_after 0 (decimal_before fuel n later) ≡ read_after n later
unfolding read_after decimal_before
read_after-decimal_before zero n later h = omega arith
read_after-decimal_before (suc fuel) n later h =
    ground (arith, read_after-decimal_before fuel (n / 10) ((48 + n % 10) ∷ later))

read_decimal-decimal : (n : ℕ) → read_decimal (decimal n) ≡ n
unfolding read_decimal decimal read_after
read_decimal-decimal n = read_after-decimal_before (suc n) n [] (omega arith)

pub decimal-injective : (m n : ℕ) → decimal m ≡ decimal n → m ≡ n
decimal-injective m n e =
    sym (read_decimal-decimal m) ∙ (ap read_decimal e ∙ read_decimal-decimal n)

decimal_before-All :
    (fuel n : ℕ) (later : Text)
    → All (λ d. d < 58) later
    → All (λ d. d < 58) (decimal_before fuel n later)
unfolding decimal_before
decimal_before-All zero n later h = h
decimal_before-All (suc fuel) n later h =
    ground (arith, decimal_before-All fuel (n / 10) ((48 + n % 10) ∷ later))

pub decimal-All : (n : ℕ) → All (λ d. d < 58) (decimal n)
unfolding decimal
decimal-All n = decimal_before-All (suc n) n [] tt

decimal_test : decimal 407 ≡ codes "407"
unfolding decimal
decimal_test = refl
