-- ===== src/Hash/Djb2.antt =====
-- src/hash/djb2.c. Bytes are numbers below 256, words are below 2 ^ 32.
use cuttle.Prelude.{
  ℕ, ◌+◌, ◌*◌, ◌^◌, ◌<◌, ◌≡◌, refl, List, [], ◌∷◌, ◌++◌, Option, none, some, arith, ◌==◌,
  if◌then◌else◌,
}
use cuttle.Prelude.Words.{u32, swap32, swap32-swap32}
use cuttle.Hash.Text.{NoZero, horner}

abbrev pub begin : ℕ
begin = 5381

-- `h = ((h << 5) + h) + b`
add_byte : ℕ → ℕ → ℕ
add_byte h b = u32 (u32 (u32 (h * 2 ^ 5) + h) + b)

pub update : ℕ → List ℕ → ℕ
unfolding add_byte
update h [] = h
update h (b ∷ bs) = update (add_byte h b) bs

-- `none`: no 0 ends the string in the memory given.
pub update_s : ℕ → List ℕ → Option ℕ
unfolding add_byte
update_s h [] = none
update_s h (b ∷ bs) = let rest = update_s (add_byte h b) bs in if b == 0 then some h else rest

pub finalize : ℕ → ℕ
finalize h = swap32 h

-- A buffer hashed in two parts gives the hash of the whole.
pub update-append : (h : ℕ) (xs ys : List ℕ) → update h (xs ++ ys) ≡ update (update h xs) ys
unfolding update
update-append h [] ys = refl
update-append h (x ∷ xs) ys = update-append (add_byte h x) xs ys

-- The hash of a buffer, wrapped to 32 bits at each step, is the base-33 value of its bytes behind
-- that of the start, wrapped once.
pub update_value : (h k : ℕ) (bs : List ℕ) → h ≡ u32 k → update h bs ≡ u32 (horner 33 k bs)
unfolding update horner
update_value h k [] e = e
update_value h k (b ∷ bs) e = update_value (add_byte h b) (33 * k + b) bs (omega arith)

-- On memory that holds a C string, `update_s` gives what `update` gives on the bytes before the 0.
pub update_s-update :
    (h : ℕ) (bs rest : List ℕ) → NoZero bs → update_s h (bs ++ (0 ∷ rest)) ≡ some (update h bs)
unfolding update update_s
update_s-update h [] rest z = refl
update_s-update h (b ∷ bs) rest z = ground (arith, update_s-update (add_byte h b) bs rest z.1)

pub finalize-finalize : (h : ℕ) → h < 2 ^ 32 → finalize (finalize h) ≡ h
unfolding finalize
finalize-finalize h w = swap32-swap32 h w
