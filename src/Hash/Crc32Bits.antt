-- ===== src/Hash/Crc32Bits.antt =====
-- The table of src/hash/crc32.c against the polynomial: CRC-32C, bit by bit.
use native.Mathlib.Nat.{pow-suc, mul_comm}
use cuttle.Prelude.{
  ℕ, zero, suc, ◌*◌, ◌/◌, ◌%◌, ◌^◌, ◌<◌, ◌≡◌, refl, sym, ap, ◌∙◌, List, [], ◌∷◌, bit_xor, get_or,
  ◌==◌, ==_iff, if◌then◌else◌, arith, true, Bool-cases, inl, inr,
}
use cuttle.Prelude.Table.{every_below, every_below_lem}
use cuttle.Prelude.Xor.{xor_half, xor_down8, xor_parity, xor_assoc, xor_fields, zero-xor, xor_comm}
use cuttle.Prelude.Mask.{and_low8}
use cuttle.Hash.Crc32.{crc_c, add_byte, update}

-- Castagnoli's polynomial 0x1EDC6F41, reflected.
abbrev pub poly : ℕ
poly = 0x82f63b78

-- One step of the shift register.
unfoldable pub crc_bit : ℕ → ℕ
crc_bit c = if c % 2 == 1 then bit_xor (c / 2) poly else c / 2

unfoldable pub crc_bits : ℕ → ℕ → ℕ
unfolding crc_bit
crc_bits zero c = c
crc_bits (suc n) c = crc_bits n (crc_bit c)

table : every_below (λ i. get_or crc_c i 0 == crc_bits 8 i) 256 ≡ true
unfolding every_below crc_c crc_bits
table = refl

-- Every entry of the table is its index after eight steps.
pub crc_c-crc_bits : (i : ℕ) → i < 256 → get_or crc_c i 0 ≡ crc_bits 8 i
crc_c-crc_bits i h = (==_iff _ _).0 (every_below_lem _ 256 table i h)

-- A step moves the high digits down, and works on the low ones apart.
crc_bit-xor : (a l : ℕ) → crc_bit (bit_xor (2 * a) l) ≡ bit_xor a (crc_bit l)
unfolding crc_bit
crc_bit-xor a l =
    let half : 2 * a / 2 ≡ a = omega arith in
    let down : bit_xor (2 * a) l / 2 ≡ bit_xor a (l / 2) = xor_half (2 * a) l ∙ rw half in
    let parity : bit_xor (2 * a) l % 2 ≡ l % 2 = omega (arith, xor_parity (2 * a) l) in
    rw (parity, down)
      (elim (Bool-cases (l % 2 == 1)) [
        | inl odd ↦ rw odd (xor_assoc a (l / 2) poly)
        | inr even ↦ rw even
      ])

crc_bits-xor : (n a l : ℕ) → crc_bits n (bit_xor (2 ^ n * a) l) ≡ bit_xor a (crc_bits n l)
unfolding crc_bits
crc_bits-xor zero a l = let one : 2 ^ 0 * a ≡ a = omega arith in rw one
crc_bits-xor (suc n) a l =
    let twice : 2 ^ suc n * a ≡ 2 * (2 ^ n * a) =
      omega (arith, ap (λ (t : ℕ). t * a) (pow-suc 2 n)) in
    rw (twice, crc_bit-xor (2 ^ n * a) l) (crc_bits-xor n a (crc_bit l))

-- A byte by the table is eight steps bit by bit, from any register.
pub add_byte-crc_bits : (c d : ℕ) → d < 256 → add_byte c d ≡ crc_bits 8 (bit_xor c d)
unfolding add_byte
add_byte-crc_bits c d h =
    let x : ℕ = bit_xor c d in
    let whole : bit_xor (2 ^ 8 * (x / 256)) (x % 256) ≡ x =
      ap (λ t. bit_xor t (x % 256)) (mul_comm (2 ^ 8) (x / 256))
      ∙ xor_fields 8 (x / 256) (x % 256) (omega arith)
      ∙ omega arith in
    let high : x / 256 ≡ c / 256 =
      let none_left : d / 256 ≡ 0 = omega arith in
      xor_down8 c d ∙ rw none_left (xor_comm (c / 256) 0 ∙ zero-xor (c / 256)) in
    rw (and_low8 x, crc_c-crc_bits (x % 256) (omega arith), ← high)
      (sym (crc_bits-xor 8 (x / 256) (x % 256)) ∙ ap (crc_bits 8) whole)

-- The CRC of the bytes, one bit at a time.
unfoldable pub bitwise : ℕ → List ℕ → ℕ
bitwise c [] = c
bitwise c (b ∷ bs) = bitwise (crc_bits 8 (bit_xor c b)) bs

abbrev pub AreBytes : List ℕ → Type 0
AreBytes [] = Unit
AreBytes (b ∷ bs) = (b < 256) × AreBytes bs

-- On every buffer of bytes and from any register, `update` by the table gives what the reflected
-- polynomial gives bit by bit.
pub update-bitwise : (c : ℕ) (bs : List ℕ) → AreBytes bs → update c bs ≡ bitwise c bs
unfolding update bitwise
update-bitwise c [] h = refl
update-bitwise c (b ∷ bs) h =
    rw (add_byte-crc_bits c b h.0) (update-bitwise (crc_bits 8 (bit_xor c b)) bs h.1)
