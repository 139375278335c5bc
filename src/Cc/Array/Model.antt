-- ===== src/Cc/Array/Model.antt =====
-- The array as the list of its items: what it promises, and the operations that add items.
use cuttle.Prelude.{
  ℕ, zero, suc, ◌+◌, ◌-◌, ◌*◌, ◌%◌, ◌^◌, ◌≤◌, ◌<◌, ◌≡◌, refl, ap, List, [], ◌∷◌, ◌++◌, Option, some,
  arith, ltb, ltb→lt, lt→ltb, if◌then◌else◌, length, set, take, drop, length-set, length-take,
  length-drop, length-append, Bool-cases, inl, inr,
}
use cuttle.Cc.Memory.{store, move, take-set, take-append_exact, add_size, sub_size}
use cuttle.Cc.Array.{Array, npos, init, push_back, insert}

module _ {ℓ} {A : Type ℓ} where
  abbrev pub contents : Array A → List A
  contents c = take c.size c.items

  pub length-contents : (c : Array A) → c.size ≤ length c.items → length (contents c) ≡ c.size
  length-contents c h = omega (arith, length-take c.size c.items)

pub record IsValid {ℓ} {A : Type ℓ} (c : Array A) : Type 0 where
  pub fits : c.size ≤ c.capacity
  pub block : c.capacity ≤ length c.items
  pub word : c.capacity < 2 ^ 64

module _ {ℓ} {A : Type ℓ} where
  unfoldable pub insert_at : ℕ → A → List A → List A
  insert_at zero v xs = v ∷ xs
  insert_at (suc i) v [] = v ∷ []
  insert_at (suc i) v (x ∷ xs) = x ∷ insert_at i v xs

  -- Where `malloc` gives a block of the size asked for and that size does not wrap, `init` gives a
  -- valid empty array of this capacity.
  pub init_lem :
      (malloc : ℕ → Option (List A)) (c : Array A) (capacity item_size : ℕ) (b : List A)
      → ((n : ℕ) (b : List A) → malloc n ≡ some b → n ≤ length b * item_size)
      → 0 < item_size
      → capacity * item_size < 2 ^ 64
      → malloc (capacity * item_size) ≡ some b
      → (r : Array A) × (init malloc (some c) capacity item_size ≡ some r)
        × IsValid r
        × (contents r ≡ [])
        × (r.capacity ≡ capacity)
  unfolding init
  init_lem malloc c capacity item_size b enough positive small e =
      let whole : (capacity * item_size) % 2 ^ 64 ≡ capacity * item_size = omega arith in
      let room : capacity * item_size ≤ length b * item_size = enough _ b e in
      let cells : capacity ≤ length b = grind arith in
      (
        record { items = b; capacity = capacity; size = 0; item_size = item_size },
        rw (whole, e, init),
        record { fits = omega arith; block = cells; word = grind arith },
        refl,
        refl,
      )

  -- On a valid array, `push_back` puts the value behind the items and gives its place, or gives
  -- npos and changes nothing where the array is full; the array stays valid with its capacity.
  pub push_back_lem :
      (c : Array A) (v : A)
      → IsValid c
      → (r : Array A) × (push_back c v ≡ some (r, if ltb c.size c.capacity then c.size else npos))
        × (contents r ≡ (if ltb c.size c.capacity then contents c ++ (v ∷ []) else contents c))
        × IsValid r
        × (r.capacity ≡ c.capacity)
  unfolding push_back store
  push_back_lem c v h = elim (Bool-cases (ltb c.size c.capacity)) [
    | inl room ↦
        let lt : c.size < c.capacity = ltb→lt _ _ room in
        (
          record c { items = set c.items c.size v; size = suc c.size },
          ground arith,
          rw room (take-set c.size c.items v (omega arith)),
          record {
            fits = omega arith;
            block = omega (arith, length-set c.items c.size v);
            word = h.word;
          },
          refl,
        )
    | inr full ↦ (c, rw full, rw full, h, refl)
  ]

  -- What `insert` leaves in the first `n + 1` cells.
  shift_in :
      (pos m n : ℕ) (b rest : List A) (v : A)
      → pos + m ≡ n
      → n < length b
      → take (suc n) (set (take (suc pos) b ++ (take m (drop pos b) ++ rest)) pos v)
        ≡ insert_at pos v (take n b)
  unfolding insert_at
  shift_in pos m n [] rest v e h = absurd (omega arith)
  shift_in zero m n (x ∷ b) rest v e h =
      let e' : m ≡ n = omega arith in
      rw e' (
        ap (◌∷◌ v)
          (take-append_exact n (take n (x ∷ b)) rest (omega (arith, length-take n (x ∷ b)))))
  shift_in (suc pos) m zero (x ∷ b) rest v e h = absurd (omega arith)
  shift_in (suc pos) m (suc n) (x ∷ b) rest v e h =
      ap (◌∷◌ x) (shift_in pos m n b rest v (omega arith) (omega arith))

  length-move :
      (b : List A) (dst src n : ℕ)
      → dst + n ≤ length b
      → src + n ≤ length b
      → length (take dst b ++ (take n (drop src b) ++ drop (dst + n) b)) ≡ length b
  length-move b dst src n h k = omega (
    arith,
    length-append (take dst b) (take n (drop src b) ++ drop (dst + n) b),
    length-append (take n (drop src b)) (drop (dst + n) b),
    length-take dst b,
    length-take n (drop src b),
    length-drop src b,
    length-drop (dst + n) b,
  )

  pub move_lem :
      (b : List A) (dst src n : ℕ)
      → dst + n ≤ length b
      → src + n ≤ length b
      → (move b dst src n ≡ some (take dst b ++ (take n (drop src b) ++ drop (dst + n) b)))
        × (length (take dst b ++ (take n (drop src b) ++ drop (dst + n) b)) ≡ length b)
  unfolding move
  move_lem b dst src n h k = (ground arith, length-move b dst src n h k)

  pub store_lem : (b : List A) (i : ℕ) (v : A) → i < length b → store b i v ≡ some (set b i v)
  unfolding store
  store_lem b i v h = rw (lt→ltb _ _ h)

  -- On a valid array and at a place up to its size, `insert` puts the value there and shifts the
  -- items behind it, or gives npos and changes nothing where the array is full; the array stays
  -- valid with its capacity, and no access leaves its block.
  pub insert_lem :
      (c : Array A) (pos : ℕ) (v : A)
      → IsValid c
      → pos ≤ c.size
      → (r : Array A) × (insert c pos v ≡ some (r, if ltb c.size c.capacity then pos else npos))
        × (contents r
            ≡ (if ltb c.size c.capacity then insert_at pos v (contents c) else contents c))
        × IsValid r
        × (r.capacity ≡ c.capacity)
  unfolding insert
  insert_lem c pos v h le = elim (Bool-cases (ltb c.size c.capacity)) [
    | inl room ↦
        let lt : c.size < c.capacity = ltb→lt _ _ room in
        let b : List A =
          take (suc pos) c.items
          ++ (take (c.size - pos) (drop pos c.items) ++ drop (suc pos + (c.size - pos)) c.items) in
        let moved = move_lem c.items (suc pos) pos (c.size - pos) (omega arith) (omega arith) in
        let len : length b ≡ length c.items = moved.1 in
        let a : add_size pos 1 ≡ suc pos = omega arith in
        let d : sub_size c.size pos ≡ c.size - pos = omega arith in
        let s : add_size c.size 1 ≡ suc c.size = omega arith in
        (
          record c { items = set b pos v; size = suc c.size },
          rw (room, a, d, s, moved.0, store_lem b pos v (omega arith)),
          rw room (shift_in pos (c.size - pos) c.size c.items _ v (omega arith) (omega arith)),
          record { fits = omega arith; block = omega (arith, length-set b pos v); word = h.word },
          refl,
        )
    | inr full ↦ (c, rw full, rw full, h, refl)
  ]
