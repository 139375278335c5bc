-- ===== src/Prelude/Xor.antt =====
-- Exclusive or at variables: the law for the lowest digit, and what follows from it.
use Prim.Native.Nat.{differ, bit_xor-bitwise}
use native.Mathlib.Nat.{pow-suc}
use cuttle.Prelude.Digits.{lowest}
use cuttle.Prelude.{
  ℕ, zero, suc, ◌+◌, ◌*◌, ◌/◌, ◌%◌, ◌^◌, ◌≤◌, ◌<◌, ◌≡◌, refl, ap, ap₂, ◌∙◌, arith, bit_xor,
}

pub zero-xor : (b : ℕ) → bit_xor 0 b ≡ b
zero-xor b = bit_xor-bitwise 0 b

xor_step : (a b : ℕ) → bit_xor a b ≡ bit_xor (a / 2) (b / 2) * 2 + differ (a % 2) (b % 2)
xor_step zero b = omega (arith, zero-xor b, zero-xor (b / 2))
xor_step (suc a) b = lowest (λ (d : ℕ). d) differ bit_xor (λ x y. bit_xor-bitwise x y) a b

differ_bits : (x y : ℕ) → x < 2 → y < 2 → differ x y ≡ (x + y) % 2
differ_bits zero y p q = omega arith
differ_bits (suc zero) zero p q = refl
differ_bits (suc zero) (suc zero) p q = refl
differ_bits (suc zero) (suc (suc y)) p q = absurd (omega arith)
differ_bits (suc (suc x)) y p q = absurd (omega arith)

bit_cases : (a b : ℕ) → differ (a % 2) (b % 2) ≡ (a % 2 + b % 2) % 2
bit_cases a b = differ_bits (a % 2) (b % 2) (omega arith) (omega arith)

pub xor_half : (a b : ℕ) → bit_xor a b / 2 ≡ bit_xor (a / 2) (b / 2)
xor_half a b = omega (arith, xor_step a b, bit_cases a b)

pub xor_parity : (a b : ℕ) → bit_xor a b % 2 ≡ (a % 2 + b % 2) % 2
xor_parity a b = omega (arith, xor_step a b, bit_cases a b)

xor_down2 : (a b : ℕ) → bit_xor a b / 4 ≡ bit_xor (a / 4) (b / 4)
xor_down2 a b =
    let down : bit_xor a b / 4 ≡ bit_xor a b / 2 / 2 = omega arith in
    let at_a : a / 2 / 2 ≡ a / 4 = omega arith in
    let at_b : b / 2 / 2 ≡ b / 4 = omega arith in
    down ∙ ap (λ (t : ℕ). t / 2) (xor_half a b) ∙ xor_half (a / 2) (b / 2) ∙ ap₂ bit_xor at_a at_b

xor_down4 : (a b : ℕ) → bit_xor a b / 16 ≡ bit_xor (a / 16) (b / 16)
xor_down4 a b =
    let down : bit_xor a b / 16 ≡ bit_xor a b / 4 / 4 = omega arith in
    let at_a : a / 4 / 4 ≡ a / 16 = omega arith in
    let at_b : b / 4 / 4 ≡ b / 16 = omega arith in
    down ∙ ap (λ (t : ℕ). t / 4) (xor_down2 a b) ∙ xor_down2 (a / 4) (b / 4) ∙ ap₂ bit_xor at_a at_b

pub xor_down8 : (a b : ℕ) → bit_xor a b / 256 ≡ bit_xor (a / 256) (b / 256)
xor_down8 a b =
    let down : bit_xor a b / 256 ≡ bit_xor a b / 16 / 16 = omega arith in
    let at_a : a / 16 / 16 ≡ a / 256 = omega arith in
    let at_b : b / 16 / 16 ≡ b / 256 = omega arith in
    down
    ∙ ap (λ (t : ℕ). t / 16) (xor_down4 a b)
    ∙ xor_down4 (a / 16) (b / 16)
    ∙ ap₂ bit_xor at_a at_b

eq_of_half : (a b : ℕ) → a / 2 ≡ b / 2 → a % 2 ≡ b % 2 → a ≡ b
eq_of_half a b p q = omega arith

xor_assoc_fuel : (n a b c : ℕ) → a + b + c ≤ n → bit_xor (bit_xor a b) c ≡ bit_xor a (bit_xor b c)
xor_assoc_fuel zero a b c h =
    let za : a ≡ 0 = omega arith in rw (za, zero-xor b, zero-xor (bit_xor b c))
xor_assoc_fuel (suc n) a b c h =
    eq_of_half _ _
      (rw (xor_half (bit_xor a b) c, xor_half a b, xor_half a (bit_xor b c), xor_half b c)
        (xor_assoc_fuel n (a / 2) (b / 2) (c / 2) (omega arith)))
      (omega (
        arith,
        xor_parity (bit_xor a b) c,
        xor_parity a b,
        xor_parity a (bit_xor b c),
        xor_parity b c,
      ))

pub xor_assoc : (a b c : ℕ) → bit_xor (bit_xor a b) c ≡ bit_xor a (bit_xor b c)
xor_assoc a b c = xor_assoc_fuel (a + b + c) a b c (omega arith)

xor_comm_fuel : (n a b : ℕ) → a + b ≤ n → bit_xor a b ≡ bit_xor b a
xor_comm_fuel zero a b h =
    let za : a ≡ 0 = omega arith in let zb : b ≡ 0 = omega arith in rw (za, zb)
xor_comm_fuel (suc n) a b h =
    eq_of_half _ _ (rw (xor_half a b, xor_half b a) (xor_comm_fuel n (a / 2) (b / 2) (omega arith)))
      (omega (arith, xor_parity a b, xor_parity b a))

pub xor_comm : (a b : ℕ) → bit_xor a b ≡ bit_xor b a
xor_comm a b = xor_comm_fuel (a + b) a b (omega arith)

xor_self_fuel : (n a : ℕ) → a ≤ n → bit_xor a a ≡ 0
xor_self_fuel zero a h = let za : a ≡ 0 = omega arith in rw za
xor_self_fuel (suc n) a h =
    eq_of_half _ _ (rw (xor_half a a) (xor_self_fuel n (a / 2) (omega arith)))
      (omega (arith, xor_parity a a))

pub xor_self : (a : ℕ) → bit_xor a a ≡ 0
xor_self a = xor_self_fuel a a (omega arith)

pub xor_lt : (k a b : ℕ) → a < 2 ^ k → b < 2 ^ k → bit_xor a b < 2 ^ k
xor_lt zero a b p q =
    let za : a ≡ 0 = omega arith in let zb : b ≡ 0 = omega arith in rw (za, zb) (omega arith)
xor_lt (suc k) a b p q = omega (
  arith,
  pow-suc 2 k,
  xor_half a b,
  xor_lt k (a / 2) (b / 2) (omega (arith, pow-suc 2 k)) (omega (arith, pow-suc 2 k)),
)

mul-two-pow : (q k : ℕ) → q * 2 ^ suc k ≡ 2 * (q * 2 ^ k)
mul-two-pow q k = omega (arith, ap (λ (t : ℕ). q * t) (pow-suc 2 k))

-- Disjoint digits add up.
pub xor_fields : (k q r : ℕ) → r < 2 ^ k → bit_xor (q * 2 ^ k) r ≡ q * 2 ^ k + r
xor_fields zero q r h =
    let zr : r ≡ 0 = omega arith in
    rw (zr, xor_comm (q * 2 ^ 0) 0, zero-xor (q * 2 ^ 0)) (omega arith)
xor_fields (suc k) q r h =
    let twice = mul-two-pow q k in
    let half : q * 2 ^ suc k / 2 ≡ q * 2 ^ k = omega arith in
    eq_of_half _ _
      (rw (xor_half (q * 2 ^ suc k) r, half)
        (omega (arith, xor_fields k q (r / 2) (omega (arith, pow-suc 2 k)))))
      (omega (arith, xor_parity (q * 2 ^ suc k) r))
