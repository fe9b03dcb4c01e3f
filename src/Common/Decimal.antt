-- ===== src/Common/Decimal.antt =====
-- Decimal numerals, as `printf` writes an unsigned number.
use linux_utilities.Common.Lists.{length, length-append}
use linux_utilities.Common.Order.{Bytes}
use linux_utilities.Common.Tests.{ltb, if◌then◌else◌}
use Prim.Native.Nat.{ℕ, zero, suc, ◌+◌, ◌*◌, ◌/◌, ◌%◌, ◌≤◌, ◌<◌}
use mathlib.Core.List.{[], ◌∷◌, ◌++◌}
use mathlib.Core.Path.{◌≡◌, refl}
use native.Mathlib.Omega.{arith}

-- On fuel, of which a number needs no more than its value and one.
digits : ℕ → ℕ → Bytes
digits zero n = []
digits (suc fuel) n =
    let rest = digits fuel (n / 10) ++ (48 + n % 10) ∷ [] in
    if ltb n 10 then (48 + n) ∷ [] else rest

unfoldable pub decimal : ℕ → Bytes
unfolding digits
decimal n = digits (suc n) n

digits-fuel : (f g n : ℕ) → n < f → n < g → digits f n ≡ digits g n
unfolding digits
digits-fuel zero g n h k = absurd (omega arith)
digits-fuel (suc f) zero n h k = absurd (omega arith)
digits-fuel (suc f) (suc g) n h k = ground (arith, digits-fuel f g (n / 10))

pub decimal_small : (n : ℕ) → n < 10 → decimal n ≡ (48 + n) ∷ []
unfolding decimal digits
decimal_small n h = ground arith

pub decimal_large : (n : ℕ) → 10 ≤ n → decimal n ≡ decimal (n / 10) ++ (48 + n % 10) ∷ []
unfolding decimal digits
decimal_large n h = ground (arith, digits-fuel n (suc (n / 10)) (n / 10))

-- Appending a digit.
pub decimal-step : (a d : ℕ) → 0 < a → d < 10 → decimal (a * 10 + d) ≡ decimal a ++ (48 + d) ∷ []
decimal-step a d h k =
    let tens : (a * 10 + d) / 10 ≡ a = omega arith in
    let unit : (a * 10 + d) % 10 ≡ d = omega arith in
    let large = decimal_large (a * 10 + d) (omega arith) in rw (large, tens, unit) refl

abbrev pub pow10 : ℕ → ℕ
pow10 zero = 1
pow10 (suc m) = 10 * pow10 m

-- A number below 10 ^ (m + 1) has at most m + 1 digits.
pub length-decimal : (m n : ℕ) → n < pow10 (suc m) → length (decimal n) ≤ suc m
length-decimal zero n h = rw (decimal_small n (omega arith)) (omega arith)
length-decimal (suc m) n h = ground (
  arith,
  decimal_small n,
  decimal_large n,
  length-decimal m (n / 10),
  length-append (decimal (n / 10)) ((48 + n % 10) ∷ []),
)
