-- ===== src/Hash/Text.antt =====
-- Memory that holds a C string: bytes up to a 0, and whatever follows.
use cuttle.Prelude.{ℕ, ◌+◌, ◌*◌, ◌≢◌, List, [], ◌∷◌}

abbrev pub NoZero : List ℕ → Type 0
NoZero [] = Unit
NoZero (b ∷ bs) = (b ≢ 0) × NoZero bs

-- The value of the digits `bs` to the base `k`, after those of `h`: no word wraps.
unfoldable pub horner : ℕ → ℕ → List ℕ → ℕ
horner k h [] = h
horner k h (b ∷ bs) = horner k (k * h + b) bs
