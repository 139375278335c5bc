-- ===== src/Tests/Hashes.antt =====
-- Runs of src/hash and src/hexbits.c.
use cuttle.Prelude.{ℕ, ◌≡◌, refl, List, [], ◌∷◌, ◌++◌, some, arith}
use cuttle.Hash.Crc32
use cuttle.Hash.Crc32Bits.{AreBytes, bitwise, crc_bits, crc_bit, update-bitwise}
use cuttle.HexBits.{bits2hex, hex2bits}
use cuttle.HexBits.RoundTrip.{hex2bits-bits2hex}

abbrev word : List ℕ
word = b'a' ∷ b'b' ∷ []

word-AreBytes : AreBytes word
word-AreBytes = (omega arith, (omega arith, tt))

update-bitwise_example : Crc32.update Crc32.begin word ≡ bitwise Crc32.begin word
update-bitwise_example = update-bitwise Crc32.begin word word-AreBytes

-- The polynomial is that of CRC-32C, by its published check value.
castagnoli :
    Crc32.finalize
      (bitwise Crc32.begin (b'1' ∷ b'2' ∷ b'3' ∷ b'4' ∷ b'5' ∷ b'6' ∷ b'7' ∷ b'8' ∷ b'9' ∷ []))
    ≡ 0xE3069283
unfolding Crc32.finalize bitwise crc_bits crc_bit
castagnoli = refl

hex2bits-bits2hex_example :
    hex2bits (bits2hex (171 ∷ 5 ∷ []) ++ (33 ∷ [])) 4 ≡ some (171 ∷ 5 ∷ [], 2)
hex2bits-bits2hex_example =
    hex2bits-bits2hex (171 ∷ 5 ∷ []) (33 ∷ []) 4 (omega arith, (omega arith, tt))
