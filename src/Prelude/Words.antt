-- ===== src/Prelude/Words.antt =====
-- Unsigned words of 16 and 32 bits on a little-endian machine: their bytes in memory, and the
-- change to and from network order of <arpa/inet.h> and <endian.h>.
use cuttle.Prelude.{ℕ, ◌+◌, ◌*◌, ◌/◌, ◌%◌, ◌^◌, ◌<◌, ◌≡◌, List, [], ◌∷◌, arith}

abbrev pub u16 : ℕ → ℕ
u16 x = x % 2 ^ 16

abbrev pub u32 : ℕ → ℕ
u32 x = x % 2 ^ 32

abbrev pub mem16 : ℕ → List ℕ
mem16 x = (x % 256) ∷ (x / 256 % 256) ∷ []

abbrev pub mem32 : ℕ → List ℕ
mem32 x = (x % 256) ∷ (x / 256 % 256) ∷ (x / 65536 % 256) ∷ (x / 16777216 % 256) ∷ []

abbrev pub load16 : ℕ → ℕ → ℕ
load16 a b = a + 256 * b

abbrev pub load32 : ℕ → ℕ → ℕ → ℕ → ℕ
load32 a b c d = a + 256 * b + 65536 * c + 16777216 * d

-- `htons` and `ntohs`.
unfoldable pub swap16 : ℕ → ℕ
swap16 x = load16 (x / 256 % 256) (x % 256)

-- `htonl`, `ntohl` and `htobe32`.
unfoldable pub swap32 : ℕ → ℕ
swap32 x = load32 (x / 16777216 % 256) (x / 65536 % 256) (x / 256 % 256) (x % 256)

pub swap16-swap16 : (x : ℕ) → x < 2 ^ 16 → swap16 (swap16 x) ≡ x
unfolding swap16
swap16-swap16 x h = omega arith

pub swap32-swap32 : (x : ℕ) → x < 2 ^ 32 → swap32 (swap32 x) ≡ x
unfolding swap32
swap32-swap32 x h = omega arith

pub swap16-lt : (x : ℕ) → swap16 x < 2 ^ 16
unfolding swap16
swap16-lt x = omega arith

pub swap32-lt : (x : ℕ) → swap32 x < 2 ^ 32
unfolding swap32
swap32-lt x = omega arith

pub load16-mem16 : (x : ℕ) → x < 2 ^ 16 → load16 (x % 256) (x / 256 % 256) ≡ x
load16-mem16 x h = omega arith

pub load32-mem32 :
    (x : ℕ)
    → x < 2 ^ 32
    → load32 (x % 256) (x / 256 % 256) (x / 65536 % 256) (x / 16777216 % 256) ≡ x
load32-mem32 x h = omega arith
