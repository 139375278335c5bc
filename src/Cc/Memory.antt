-- ===== src/Cc/Memory.antt =====
-- A block of memory as the list of its cells, with `memmove` and single reads and writes.
-- `none` is an access outside the block, which C leaves undefined.
use cuttle.Prelude.{
  ℕ, zero, suc, ◌+◌, ◌-◌, ◌≤◌, ◌<◌, ◌%◌, ◌^◌, ◌≡◌, refl, ap, List, [], ◌∷◌, ◌++◌, Option, none,
  some, ◌&&◌, arith, leb, ltb, if◌then◌else◌, length, get_elem?, set, take, drop,
}

-- `size_t` addition.
abbrev pub add_size : ℕ → ℕ → ℕ
add_size a b = (a + b) % 2 ^ 64

-- `size_t` subtraction.
abbrev pub sub_size : ℕ → ℕ → ℕ
sub_size a b = (a + 2 ^ 64 - b) % 2 ^ 64

module _ {ℓ} {A : Type ℓ} where
  abbrev pub load : List A → ℕ → Option A
  load b i = get_elem? b i

  unfoldable pub store : List A → ℕ → A → Option (List A)
  store b i v = if ltb i (length b) then some (set b i v) else none

  -- `memmove(b + dst, b + src, n)`, in cells.
  unfoldable pub move : List A → ℕ → ℕ → ℕ → Option (List A)
  move b dst src n =
      if leb (dst + n) (length b) && leb (src + n) (length b)
      then some (take dst b ++ (take n (drop src b) ++ drop (dst + n) b))
      else none

module _ {ℓ} {A : Type ℓ} where
  pub take-append_exact : (n : ℕ) (xs ys : List A) → length xs ≡ n → take n (xs ++ ys) ≡ xs
  take-append_exact zero [] ys h = refl
  take-append_exact zero (x ∷ xs) ys h = absurd (omega arith)
  take-append_exact (suc n) [] ys h = absurd (omega arith)
  take-append_exact (suc n) (x ∷ xs) ys h = ap (◌∷◌ x) (take-append_exact n xs ys (omega arith))

  pub take-set :
      (n : ℕ) (b : List A) (v : A) → n < length b → take (suc n) (set b n v) ≡ take n b ++ (v ∷ [])
  take-set n [] v h = absurd (omega arith)
  take-set zero (x ∷ b) v h = refl
  take-set (suc n) (x ∷ b) v h = ap (◌∷◌ x) (take-set n b v (omega arith))

  pub get_elem?-take : (n i : ℕ) (b : List A) → i < n → get_elem? (take n b) i ≡ get_elem? b i
  get_elem?-take zero i b h = absurd (omega arith)
  get_elem?-take (suc n) i [] h = refl
  get_elem?-take (suc n) zero (x ∷ b) h = refl
  get_elem?-take (suc n) (suc i) (x ∷ b) h = get_elem?-take n i b (omega arith)

  pub get_elem?-lt : (b : List A) (i : ℕ) → i < length b → (x : A) × (get_elem? b i ≡ some x)
  get_elem?-lt [] i h = absurd (omega arith)
  get_elem?-lt (x ∷ b) zero h = (x, refl)
  get_elem?-lt (x ∷ b) (suc i) h = get_elem?-lt b i (omega arith)

  pub take-append_le : (n : ℕ) (xs ys : List A) → n ≤ length xs → take n (xs ++ ys) ≡ take n xs
  take-append_le zero xs ys h = refl
  take-append_le (suc n) [] ys h = absurd (omega arith)
  take-append_le (suc n) (x ∷ xs) ys h = ap (◌∷◌ x) (take-append_le n xs ys (omega arith))

  pub take-suc_head :
      (n : ℕ) (b : List A) (x : A) → get_elem? b 0 ≡ some x → take (suc n) b ≡ x ∷ take n (drop 1 b)
  take-suc_head n [] x e = cc
  take-suc_head n (y ∷ b) x e = ground arith

  pub get_elem?-ge : (b : List A) (i : ℕ) → length b ≤ i → get_elem? b i ≡ none
  get_elem?-ge [] i h = refl
  get_elem?-ge (x ∷ b) zero h = absurd (omega arith)
  get_elem?-ge (x ∷ b) (suc i) h = get_elem?-ge b i (omega arith)

  pub drop-get_elem? :
      (i : ℕ) (b : List A) (x : A) → get_elem? b i ≡ some x → drop i b ≡ x ∷ drop (i + 1) b
  drop-get_elem? i [] x e = cc
  drop-get_elem? zero (y ∷ b) x e = ground arith
  drop-get_elem? (suc i) (y ∷ b) x e =
      let next : suc i + 1 ≡ suc (i + 1) = omega arith in rw next (drop-get_elem? i b x e)
