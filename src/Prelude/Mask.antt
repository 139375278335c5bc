-- ===== src/Prelude/Mask.antt =====
-- Conjunction with a mask of low ones is a remainder.
use Prim.Native.Nat.{bit_and-bitwise}
use cuttle.Prelude.Digits.{lowest, digits-zero}
use cuttle.Prelude.{ℕ, zero, suc, ◌+◌, ◌*◌, ◌/◌, ◌%◌, ◌≡◌, refl, ap, ◌∙◌, arith, bit_and, min}

pub and-zero : (a : ℕ) → bit_and a 0 ≡ 0
and-zero a = bit_and-bitwise a 0 ∙ digits-zero (λ d. 0) min a a (λ d. omega arith) refl

pub and_step : (a b : ℕ) → bit_and a b ≡ bit_and (a / 2) (b / 2) * 2 + min (a % 2) (b % 2)
and_step zero b = omega (arith, bit_and-bitwise 0 b, bit_and-bitwise 0 (b / 2))
and_step (suc a) b = lowest (λ d. 0) min bit_and (λ x y. bit_and-bitwise x y) a b

-- A mask of four ones, and one of eight.
pub and_low4 : (a : ℕ) → bit_and a 15 ≡ a % 16
and_low4 a = omega (
  arith,
  and_step a 15,
  and_step (a / 2) 7,
  and_step (a / 2 / 2) 3,
  and_step (a / 2 / 2 / 2) 1,
  and-zero (a / 2 / 2 / 2 / 2),
)

and_high4 : (a : ℕ) → bit_and a 255 ≡ bit_and (a / 16) 15 * 16 + a % 16
and_high4 a =
    let quarter : a / 2 / 2 / 2 / 2 ≡ a / 16 = omega arith in
    omega (
      arith,
      and_step a 255,
      and_step (a / 2) 127,
      and_step (a / 2 / 2) 63,
      and_step (a / 2 / 2 / 2) 31,
      ap (λ (x : ℕ). bit_and x 15) quarter,
    )

pub and_low8 : (a : ℕ) → bit_and a 255 ≡ a % 256
and_low8 a = omega (arith, and_high4 a, and_low4 (a / 16))
