-- ===== src/Common/Digits.antt =====
-- Binary digits with fuel, and masks of low bits as remainders.
use Prim.Native.Nat.{ℕ, zero, suc, ◌+◌, ◌-◌, ◌*◌, ◌/◌, ◌%◌, ◌≤◌, min}
use Prim.Native.Nat.{digits, bit_and, bit_and-bitwise}
use mathlib.Core.Path.{◌≡◌, refl, ap, ◌∙◌}
use native.Mathlib.Nat.{le_refl}
use native.Mathlib.Omega.{arith}

module _ (rest : ℕ → ℕ) (combine : ℕ → ℕ → ℕ) where
  -- Where the fuel reaches, one unit more changes nothing.
  digits-suc :
      (fuel x y : ℕ) → x ≤ fuel → digits rest combine (suc fuel) x y ≡ digits rest combine fuel x y
  digits-suc fuel zero y reach = unfueled fuel
    where
      unfueled : (k : ℕ) → digits rest combine (suc k) zero y ≡ digits rest combine k zero y
      unfueled zero = refl
      unfueled (suc k) = refl
  digits-suc zero (suc x) y reach = absurd (omega arith)
  digits-suc (suc fuel) (suc x) y reach =
      ap (λ (high : ℕ). high * 2 + combine (suc x % 2) (y % 2))
        (digits-suc fuel (suc x / 2) (y / 2) (omega arith))

  -- So the fuel can be as large as one likes.
  digits_add : (more x y : ℕ) → digits rest combine (more + x) x y ≡ digits rest combine x x y
  digits_add zero x y = ap (λ k. digits rest combine k x y) (omega arith)
  digits_add (suc more) x y =
      let one_more : suc more + x ≡ suc (more + x) = omega arith in
      ap (λ k. digits rest combine k x y) one_more
      ∙ digits-suc (more + x) x y (omega arith)
      ∙ digits_add more x y

  -- The fuel that is left after one digit is enough for the others.
  pub digits_half :
      (x y : ℕ)
      → digits rest combine x (suc x / 2) y ≡ digits rest combine (suc x / 2) (suc x / 2) y
  digits_half x y =
      ap (λ k. digits rest combine k (suc x / 2) y) (omega arith)
      ∙ digits_add (x - suc x / 2) (suc x / 2) y

zero-bit_and : (b : ℕ) → bit_and 0 b ≡ 0
zero-bit_and b = bit_and-bitwise 0 b

and_step : (a b : ℕ) → bit_and a b ≡ bit_and (a / 2) (b / 2) * 2 + min (a % 2) (b % 2)
and_step zero b = omega (arith, zero-bit_and b, zero-bit_and (b / 2))
and_step (suc a) b = omega (
  arith,
  bit_and-bitwise (suc a) b,
  bit_and-bitwise (suc a / 2) (b / 2),
  digits_half (λ y. zero) min a (b / 2),
)

and-zero_below : (n a : ℕ) → a ≤ n → bit_and a 0 ≡ 0
and-zero_below n zero h = refl
and-zero_below zero (suc a) h = absurd (omega arith)
and-zero_below (suc n) (suc a) h =
    omega (arith, and_step (suc a) 0, and-zero_below n (suc a / 2) (omega arith))

-- `a & 1`, `a & 0x7F` and `a & 0xFF`.
pub and_1 : (a : ℕ) → bit_and a 1 ≡ a % 2
and_1 a = omega (arith, and_step a 1, and-zero_below (a / 2) (a / 2) (le_refl _))

and_15 : (a : ℕ) → bit_and a 15 ≡ a % 16
and_15 a =
    omega (arith, and_step a 15, and_step (a / 2) 7, and_step (a / 2 / 2) 3, and_1 (a / 2 / 2 / 2))

pub and_127 : (a : ℕ) → bit_and a 0x7F ≡ a % 128
and_127 a =
    omega
      (arith, and_step a 127, and_step (a / 2) 63, and_step (a / 2 / 2) 31, and_15 (a / 2 / 2 / 2))

pub and_255 : (a : ℕ) → bit_and a 0xFF ≡ a % 256
and_255 a = omega (arith, and_step a 255, and_127 (a / 2))
