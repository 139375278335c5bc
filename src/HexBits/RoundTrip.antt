-- ===== src/HexBits/RoundTrip.antt =====
-- What `cf_bits2hex` writes, `cf_hex2bits` reads back.
use cuttle.Prelude.{
  ℕ, zero, suc, ◌-◌, ◌/◌, ◌^◌, ◌<◌, ◌≡◌, refl, ap, List, [], ◌∷◌, ◌++◌, Option, none, some, Bool,
  true, false, ◌&&◌, ◌||◌, not, ◌==◌, ==_iff, if◌then◌else◌, bit_and, take, length, min, arith,
  length-take,
}
use cuttle.Prelude.Table.{every_below, every_below_lem}
use cuttle.HexBits.{digit, bits2hex, skip, pair, stops, scan, hex2bits, isspace}

-- The two digits of a byte: neither ends the text, and together they give the byte back.
abbrev high : ℕ → ℕ
high b = digit (bit_and (b / 2 ^ 4) 0x0f)

abbrev low : ℕ → ℕ
low b = digit (bit_and b 0x0f)

abbrev is_byte : Option ℕ → ℕ → Bool
is_byte none b = false
is_byte (some x) b = x == b

is_byte_sound : (o : Option ℕ) (b : ℕ) → is_byte o b ≡ true → o ≡ some b
is_byte_sound none b h = cc
is_byte_sound (some x) b h = ap some ((==_iff x b).0 h)

abbrev reads_back : ℕ → Bool
reads_back b = is_byte (pair (high b) (low b)) b && not (stops (high b))

table : every_below (λ b. reads_back b) 256 ≡ true
unfolding every_below pair stops digit isspace
table = refl

and_true : (a b : Bool) → (a && b) ≡ true → (a ≡ true) × (b ≡ true)
and_true a b h = ground arith

not-true : (a : Bool) → not a ≡ true → a ≡ false
not-true a h = ground arith

abbrev pub AreBytes : List ℕ → Type 0
AreBytes [] = Unit
AreBytes (b ∷ bs) = (b < 256) × AreBytes bs

module _ (b : ℕ) (h : b < 256) where
  both : (is_byte (pair (high b) (low b)) b ≡ true) × (not (stops (high b)) ≡ true)
  both = and_true _ _ (every_below_lem (λ b. reads_back b) 256 table b h)

  pair-digits : pair (high b) (low b) ≡ some b
  pair-digits = is_byte_sound _ b both.0

  stops-high : stops (high b) ≡ false
  stops-high = not-true _ both.1

or_false : (a b : Bool) → (a || b) ≡ false → b ≡ false
or_false a b h = ground arith

no_space : (b : ℕ) → b < 256 → isspace (high b) ≡ false
unfolding stops
no_space b h = or_false (high b == 0) _ (stops-high b h)

stops-zero : stops 0 ≡ true
unfolding stops isspace
stops-zero = refl

zero-sub-one : (n : ℕ) → suc n - 1 ≡ n
zero-sub-one n = omega arith

-- Whether the last round of the scan has read two digits.
abbrev read_some : ℕ → List ℕ → Bool → Bool
read_some zero bs ok = ok
read_some (suc room) [] ok = ok
read_some (suc room) (b ∷ bs) ok = true

read_some-true : (room : ℕ) (bs : List ℕ) → read_some room bs true ≡ true
read_some-true zero bs = refl
read_some-true (suc room) [] = refl
read_some-true (suc room) (b ∷ bs) = refl

scan_end : (rest : List ℕ) (room : ℕ) (ok : Bool) → scan (0 ∷ rest) room ok ≡ some ([], ok)
unfolding scan
scan_end [] room ok = rw stops-zero
scan_end (c ∷ rest) room ok = rw stops-zero

scan-bits2hex :
    (bs rest : List ℕ) (room : ℕ) (ok : Bool)
    → AreBytes bs
    → scan (bits2hex bs ++ rest) room ok ≡ some (take room bs, read_some room bs ok)
unfolding bits2hex scan
scan-bits2hex [] rest zero ok h = scan_end rest 0 ok
scan-bits2hex [] rest (suc room) ok h = scan_end rest (suc room) ok
scan-bits2hex (b ∷ bs) rest zero ok h = rw (stops-high b h.0)
scan-bits2hex (b ∷ bs) rest (suc room) ok h =
    let more : (suc room == 0) ≡ false = ground arith in
    rw (
      stops-high b h.0,
      more,
      pair-digits b h.0,
      zero-sub-one room,
      scan-bits2hex bs rest room true h.1,
      read_some-true room bs,
    )

skip-bits2hex :
    (bs rest : List ℕ) → AreBytes bs → skip (bits2hex bs ++ rest) ≡ some (bits2hex bs ++ rest)
unfolding bits2hex skip
skip-bits2hex [] rest h = (unfold isspace in refl)
skip-bits2hex (b ∷ bs) rest h = rw (no_space b h.0)

-- The text that `bits2hex` makes of any bytes reads back by `hex2bits` as those bytes, as many as
-- there is room for, whatever stands behind its final 0.
pub hex2bits-bits2hex :
    (bs rest : List ℕ) (cbbitsmax : ℕ)
    → AreBytes bs
    → hex2bits (bits2hex bs ++ rest) cbbitsmax ≡ some (take cbbitsmax bs, min cbbitsmax (length bs))
unfolding hex2bits
hex2bits-bits2hex bs rest cbbitsmax h =
    rw (skip-bits2hex bs rest h, scan-bits2hex bs rest cbbitsmax false h)
      (ap (λ n. some (take cbbitsmax bs, n)) (count cbbitsmax bs))
  where
    count :
        (room : ℕ) (bs : List ℕ)
        → (if read_some room bs false then length (take room bs) else 0) ≡ min room (length bs)
    count zero bs = omega arith
    count (suc room) [] = omega arith
    count (suc room) (b ∷ bs) = length-take (suc room) (b ∷ bs)
