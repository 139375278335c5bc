-- ===== src/Prelude/Int.antt =====
-- The integers that a signed counter goes through.
use cuttle.Prelude.{ℕ, zero, suc, Bool, true, false}

pub data ℤ : Type 0 where
  pos : ℕ → ℤ
  negsuc : ℕ → ℤ

-- `++n` and `--n`
unfoldable pub inc : ℤ → ℤ
inc (ℤ.pos n) = ℤ.pos (suc n)
inc (ℤ.negsuc zero) = ℤ.pos 0
inc (ℤ.negsuc (suc n)) = ℤ.negsuc n

unfoldable pub dec : ℤ → ℤ
dec (ℤ.pos zero) = ℤ.negsuc 0
dec (ℤ.pos (suc n)) = ℤ.pos n
dec (ℤ.negsuc n) = ℤ.negsuc (suc n)

-- `n < 1`
unfoldable pub below_one : ℤ → Bool
below_one (ℤ.pos zero) = true
below_one (ℤ.pos (suc n)) = false
below_one (ℤ.negsuc n) = true
