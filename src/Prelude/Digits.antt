-- ===== src/Prelude/Digits.antt =====
-- The operations on binary digits of the native numbers go by the lowest digit.
use Prim.Native.Nat.{digits}
use cuttle.Prelude.{ℕ, zero, suc, ◌+◌, ◌*◌, ◌/◌, ◌%◌, ◌≤◌, ◌≡◌, refl, sym, ap, ◌∙◌, arith}

module _ (last : ℕ → ℕ) (on : ℕ → ℕ → ℕ) where
  none_left : (n y : ℕ) → digits last on n 0 y ≡ last y
  none_left zero y = refl
  none_left (suc n) y = refl

  -- A count past the digits of the first number changes nothing.
  enough : (x y n m : ℕ) → x ≤ n → n ≤ m → digits last on m x y ≡ digits last on n x y
  enough zero y n m h k = none_left m y ∙ sym (none_left n y)
  enough (suc x) y zero m h k = absurd (omega arith)
  enough (suc x) y (suc n) zero h k = absurd (omega arith)
  enough (suc x) y (suc n) (suc m) h k =
      ap (λ (t : ℕ). t * 2 + on (suc x % 2) (y % 2))
        (enough (suc x / 2) (y / 2) n m (omega arith) (omega arith))

  pub lowest :
      (op : ℕ → ℕ → ℕ)
      → ((x y : ℕ) → op x y ≡ digits last on x x y)
      → (x y : ℕ) → op (suc x) y ≡ op (suc x / 2) (y / 2) * 2 + on (suc x % 2) (y % 2)
  lowest op by_digits x y =
      by_digits (suc x) y
      ∙ ap (λ (t : ℕ). t * 2 + on (suc x % 2) (y % 2))
          (enough (suc x / 2) (y / 2) (suc x / 2) x (omega arith) (omega arith)
            ∙ sym (by_digits (suc x / 2) (y / 2)))

  pub digits-zero : (n x : ℕ) → ((d : ℕ) → on d 0 ≡ 0) → last 0 ≡ 0 → digits last on n x 0 ≡ 0
  digits-zero zero x h z = z
  digits-zero (suc n) zero h z = z
  digits-zero (suc n) (suc x) h z = omega (arith, digits-zero n (suc x / 2) h z, h (suc x % 2))
