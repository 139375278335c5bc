-- ===== src/HexBits.antt =====
-- src/hexbits.c: bytes as hexadecimal text and back. Text is the list of its character codes in
-- memory. `none` is a read past the memory given.
pub mod RoundTrip
use cuttle.Prelude.{
  ℕ, zero, suc, ◌+◌, ◌-◌, ◌*◌, ◌/◌, ◌%◌, ◌^◌, List, [], ◌∷◌, ◌++◌, Option, none, some, Bool, true,
  false, ◌&&◌, ◌||◌, ◌==◌, leb, if◌then◌else◌, ◌>>=◌, bit_and, bit_or, get_or, length,
}

-- `ctoh`; -1 is `none`.
pub ctoh : ℕ → Option ℕ
ctoh c =
    if leb b'0' c && leb c b'9'
    then some (c - b'0')
    else if leb b'A' c && leb c b'F'
    then some (c - b'A' + 10)
    else if leb b'a' c && leb c b'f'
    then some (c - b'a' + 10)
    else none

hex : List ℕ
hex =
    b'0' ∷ b'1' ∷ b'2' ∷ b'3' ∷ b'4' ∷ b'5' ∷ b'6' ∷ b'7' ∷ b'8' ∷ b'9' ∷ b'A' ∷ b'B' ∷ b'C' ∷ b'D'
    ∷ b'E' ∷ b'F' ∷ []

pub digit : ℕ → ℕ
unfolding hex
digit n = get_or hex n 0

-- What stands at `str` afterwards, the final 0 included.
pub bits2hex : List ℕ → List ℕ
bits2hex [] = 0 ∷ []
bits2hex (b ∷ bs) = digit (bit_and (b / 2 ^ 4) 0x0f) ∷ digit (bit_and b 0x0f) ∷ bits2hex bs

-- `isspace` in the C locale.
pub isspace : ℕ → Bool
isspace c = c == 32 || leb 9 c && leb c 13

-- The first loop.
skip : List ℕ → Option (List ℕ)
skip [] = none
skip (c ∷ cs) = let rest = skip cs in if isspace c then rest else some (c ∷ cs)

-- The byte of two digits, if both are digits.
pair : ℕ → ℕ → Option ℕ
unfolding ctoh
pair c d = ctoh c >>= (λ c1. ctoh d >>= (λ c2. some (bit_or (c1 * 2 ^ 4) c2 % 256)))

-- `!*hex || isspace(*hex)`
stops : ℕ → Bool
stops c = c == 0 || isspace c

-- The second loop: the bytes written, and whether `c1 >= 0 && c2 >= 0` in the end. `room` is
-- `cbbitsmax - i`; `ok` is what the flag was before. The second digit is read after the first is
-- found to be one, and a round that fails leaves -1 in `c1` or in `c2`.
scan : List ℕ → ℕ → Bool → Option (List ℕ × Bool)
scan [] room ok = none
scan (c ∷ []) room ok =
    if stops c || room == 0
    then some ([], ok)
    else elim (ctoh c) [ none ↦ some ([], false) | some c1 ↦ none ]
scan (c ∷ d ∷ cs) room ok =
    let rest = scan cs (room - 1) true in
    if stops c || room == 0
    then some ([], ok)
    else elim (pair c d) [ none ↦ some ([], false) | some b ↦ rest >>= (λ r. some (b ∷ r.0, r.1)) ]

-- The bytes written to `bits`, and the result.
pub hex2bits : List ℕ → ℕ → Option (List ℕ × ℕ)
unfolding skip
hex2bits text cbbitsmax =
    skip text
    >>= (λ text'. scan text' cbbitsmax false >>= (λ r. some (r.0, if r.1 then length r.0 else 0)))
