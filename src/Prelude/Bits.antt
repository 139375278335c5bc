-- ===== src/Prelude/Bits.antt =====
-- Words as sets of flags: a flag tested, set and cleared.
use Prim.Native.Nat.{bit_and-bitwise, bit_or-bitwise, max}
use native.Mathlib.Nat.{pow-suc}
use cuttle.Prelude.Digits.{lowest}
use cuttle.Prelude.Mask.{and_step, and-zero}
use cuttle.Prelude.{
  ℕ, zero, suc, ◌+◌, ◌-◌, ◌*◌, ◌/◌, ◌%◌, ◌^◌, ◌≤◌, ◌<◌, ◌≡◌, refl, ap, arith, bit_and, bit_or, Bool,
  true, not, ◌==◌, min, Bool-cases, inl, inr,
}

-- `a & b` as a condition.
abbrev pub test : ℕ → ℕ → Bool
test a b = not (bit_and a b == 0)

-- `~a` in 32 bits.
abbrev pub complement : ℕ → ℕ
complement a = 2 ^ 32 - 1 - a

pub and_half : (a b : ℕ) → bit_and a b / 2 ≡ bit_and (a / 2) (b / 2)
and_half a b = omega (arith, and_step a b)

and_lowest : (a b : ℕ) → bit_and a b % 2 ≡ min (a % 2) (b % 2)
and_lowest a b = omega (arith, and_step a b)

zero-or : (b : ℕ) → bit_or 0 b ≡ b
zero-or b = bit_or-bitwise 0 b

or_step : (a b : ℕ) → bit_or a b ≡ bit_or (a / 2) (b / 2) * 2 + max (a % 2) (b % 2)
or_step zero b = omega (arith, zero-or b, zero-or (b / 2))
or_step (suc a) b = lowest (λ (d : ℕ). d) max bit_or (λ x y. bit_or-bitwise x y) a b

even : (x : ℕ) → x / 2 ≡ 0 → x % 2 ≡ 0 → x ≡ 0
even x h k = omega arith

-- Flags that have been cleared are not set.
and-clear : (k e m : ℕ) → m < 2 ^ k → bit_and (bit_and e (2 ^ k - 1 - m)) m ≡ 0
and-clear zero e m h = let z : m ≡ 0 = omega arith in rw z (and-zero _)
and-clear (suc k) e m h =
    let p = pow-suc 2 k in
    let half : (2 ^ suc k - 1 - m) / 2 ≡ 2 ^ k - 1 - m / 2 = omega (arith, p) in
    even _
      (rw (and_half (bit_and e (2 ^ suc k - 1 - m)) m, and_half e (2 ^ suc k - 1 - m), half)
        (and-clear k (e / 2) (m / 2) (omega (arith, p))))
      (omega
        (arith, p, and_lowest (bit_and e (2 ^ suc k - 1 - m)) m, and_lowest e (2 ^ suc k - 1 - m)))

pub and-complement : (e m : ℕ) → m < 2 ^ 32 → bit_and (bit_and e (complement m)) m ≡ 0
and-complement e m h = and-clear 32 e m h

-- The flags 1, 2 and 4.
pub and_one : (a : ℕ) → bit_and a 1 ≡ a % 2
and_one a = omega (arith, and_step a 1, and-zero (a / 2))

pub and_two : (a : ℕ) → bit_and a 2 ≡ a / 2 % 2 * 2
and_two a = omega (arith, and_step a 2, and_one (a / 2))

pub and_four : (a : ℕ) → bit_and a 4 ≡ a / 4 % 2 * 4
and_four a =
    let quarter : a / 2 / 2 ≡ a / 4 = omega arith in omega (arith, and_step a 4, and_two (a / 2))

or-zero_fuel : (n a : ℕ) → a ≤ n → bit_or a 0 ≡ a
or-zero_fuel zero a h = let z : a ≡ 0 = omega arith in rw z (zero-or 0)
or-zero_fuel (suc n) a h = omega (arith, or_step a 0, or-zero_fuel n (a / 2) (omega arith))

or-zero : (a : ℕ) → bit_or a 0 ≡ a
or-zero a = or-zero_fuel a a (omega arith)

-- Flag 2 is set, and no other changes.
pub or_two : (a : ℕ) → bit_or a 2 ≡ a / 4 * 4 + 2 + a % 2
or_two a = omega (arith, or_step a 2, or_step (a / 2) 1, or-zero (a / 2 / 2))

-- Flag 4 cleared leaves flag 2 as it is.
pub clear_four-two : (a : ℕ) → bit_and (bit_and a (complement 4)) 2 ≡ bit_and a 2
clear_four-two a = omega (
  arith,
  and_two (bit_and a (complement 4)),
  and_two a,
  and_half a (complement 4),
  and_lowest (a / 2) (complement 4 / 2),
)

or_half : (a b : ℕ) → bit_or a b / 2 ≡ bit_or (a / 2) (b / 2)
or_half a b = omega (arith, or_step a b)

-- Flags that are set stay set when others are added.
or_and-zero_fuel : (n a b m : ℕ) → b ≤ n → bit_and (bit_or a b) m ≡ 0 → bit_and b m ≡ 0
or_and-zero_fuel zero a b m h e = let z : b ≡ 0 = omega arith in rw z (bit_and-bitwise 0 m)
or_and-zero_fuel (suc n) a b m h e =
    let half : bit_and (bit_or (a / 2) (b / 2)) (m / 2) ≡ 0 =
      omega (arith, and_half (bit_or a b) m, ap (λ (t : ℕ). bit_and t (m / 2)) (or_half a b)) in
    let rest = or_and-zero_fuel n (a / 2) (b / 2) (m / 2) (omega arith) half in
    omega (arith, and_step b m, and_lowest (bit_or a b) m, or_step a b)

pub test-or : (a b m : ℕ) → test b m ≡ true → test (bit_or a b) m ≡ true
test-or a b m h = elim (Bool-cases (bit_and (bit_or a b) m == 0)) [
  | inl e ↦ let z = or_and-zero_fuel b a b m (omega arith) (ground arith) in ground arith
  | inr e ↦ rw e refl
]
