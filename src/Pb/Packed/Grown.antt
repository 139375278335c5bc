-- ===== src/Pb/Packed/Grown.antt =====
-- The array of a packed array: an item at its end, and its growth.
use native.Mathlib.Nat.{div-le_self}
use cuttle.Prelude.{
  ℕ, suc, ◌+◌, ◌*◌, ◌/◌, ◌%◌, ◌^◌, ◌≤◌, ◌<◌, ◌≡◌, refl, List, [], ◌∷◌, ◌++◌, Option, some, true,
  false, ltb, leb, ◌==◌, length, take, set, arith, Bool-cases, inl, inr, length-set,
}
use cuttle.Cc.Memory.{add_size, store, take-set}
use cuttle.Cc.Array.{Array, realloc}
use cuttle.Cc.Array.Model.{contents, IsValid}
use cuttle.Pb.Packed.{room_for, put_item, grow}

pub mul_mono : (a b c : ℕ) → a ≤ b → a * c ≤ b * c
mul_mono a b c h = grind arith

pub cells_le : (a b c : ℕ) → 0 < c → a * c ≤ b * c → a ≤ b
cells_le a b c h e = grind arith

module _ {In : Type 0} {A : Type 0} (decode : In → Option A × In) (bytes_left : In → ℕ)
    (again : List A → ℕ → Option (List A)) where
  -- `realloc` gives memory of the size asked for, with what stood in the old block.
  abbrev pub HasMemory : ℕ → Type 0
  HasMemory item_size =
      (b : List A) (n : ℕ)
      → (b' : List A) × (again b n ≡ some b')
        × (n ≤ length b' * item_size)
        × ((k : ℕ) → k * item_size ≤ n → k ≤ length b → take k b' ≡ take k b)

  pub put_lem :
      (a : Array A) (v : A)
      → IsValid a
      → a.size < a.capacity
      → (b : List A) × (put_item decode bytes_left again a v
          ≡ some (record a { items = b; size = suc a.size }))
        × (take (suc a.size) b ≡ contents a ++ (v ∷ []))
        × (length b ≡ length a.items)
  unfolding put_item store
  put_lem a v h room =
      let inside : ltb a.size (length a.items) ≡ true = ground (arith, h.block) in
      let next : add_size a.size 1 ≡ suc a.size = omega (arith, h.word) in
      (
        set a.items a.size v,
        rw (inside, next) refl,
        take-set a.size a.items v (omega (arith, h.block)),
        length-set a.items a.size v,
      )

  regrown :
      (a : Array A) (capacity : ℕ) (b : List A)
      → again a.items ((capacity * a.item_size) % 2 ^ 64) ≡ some b
      → ltb capacity a.size ≡ false
      → realloc again a capacity ≡ (record a { items = b; capacity = capacity }, capacity)
  unfolding realloc
  regrown a capacity b run less = rw (run, realloc) (rw less refl)

  module _ (item_size bound : ℕ) (positive : 0 < item_size) (memory : HasMemory item_size)
      (small : (2 * bound + 1) * item_size < 2 ^ 64) where
    -- An array of the loop: it has room for the next item.
    pub record IsOpen (a : Array A) (left : ℕ) : Type 0 where
      pub valid : IsValid a
      pub room : a.size < a.capacity
      pub items : a.size + left ≤ bound
      pub limit : a.capacity ≤ 2 * bound + 1
      pub cell : a.item_size ≡ item_size

    -- The growth of a full array of `size` items.
    module _ (size left : ℕ) (items : size + left ≤ bound) where
      quotient : 2 * left / item_size ≤ 2 * left
      quotient = div-le_self (2 * left) item_size

      pub bound_small : 2 * bound + 1 < 2 ^ 64
      bound_small = grind arith

      pub room_lem : room_for left item_size ≡ 2 * left / item_size + 1
      room_lem =
          let no_wrap : (2 * left) % 2 ^ 64 ≡ 2 * left = omega (arith, bound_small) in
          rw no_wrap (omega (arith, quotient, bound_small))

      growth : add_size size (room_for left item_size) ≡ size + (2 * left / item_size + 1)
      growth = rw room_lem (omega (arith, quotient, bound_small))

      bytes_small : (size + (2 * left / item_size + 1)) * item_size < 2 ^ 64
      bytes_small =
          let most : size + (2 * left / item_size + 1) ≤ 2 * bound + 1 = omega (arith, quotient) in
          omega (arith, mul_mono _ _ item_size most)

    realloc_lem :
        (a : Array A) (capacity : ℕ)
        → IsValid a
        → a.item_size ≡ item_size
        → capacity * item_size < 2 ^ 64
        → a.size ≤ capacity
        → (b : List A) × (realloc again a capacity
            ≡ (record a { items = b; capacity = capacity }, capacity))
          × (capacity ≤ length b)
          × (take a.size b ≡ contents a)
    realloc_lem a capacity h cell short enough =
        let n : ℕ = capacity * item_size in
        let (b, run, room, kept) = memory a.items n in
        let whole : n % 2 ^ 64 ≡ n = omega arith in
        let less : ltb capacity a.size ≡ false = ground arith in
        (
          b,
          regrown a capacity b (rw (cell, whole) run) less,
          cells_le _ _ item_size positive room,
          kept a.size (mul_mono a.size capacity item_size enough) (omega (arith, h.fits, h.block)),
        )

    pub grow_lem :
        (a : Array A) (left : ℕ)
        → IsValid a
        → a.size + left ≤ bound
        → a.capacity ≤ 2 * bound + 1
        → a.item_size ≡ item_size
        → (a' : Array A) × (grow decode bytes_left again a left ≡ (a', true))
          × (contents a' ≡ contents a)
          × IsOpen a' left
    unfolding grow
    grow_lem a left h items limit cell = elim (Bool-cases (leb a.capacity a.size)) [
      | inr room ↦ (
        a,
        rw room refl,
        refl,
        record { valid = h; room = ground arith; items = items; limit = limit; cell = cell },
      )
      | inl full ↦
          let same : a.capacity ≡ a.size = ground (arith, h.fits) in
          let capacity : ℕ = a.size + (2 * left / item_size + 1) in
          let (b, run, room, kept) =
            realloc_lem a capacity h cell (bytes_small a.size left items) (omega arith) in
          let more : add_size a.capacity (room_for left a.item_size) ≡ capacity =
            rw (same, cell) (growth a.size left items) in
          let some_cells : (capacity == 0) ≡ false = ground arith in
          let q : 2 * left / item_size ≤ 2 * left = quotient a.size left items in
          (
            record a { items = b; capacity = capacity },
            rw (full, more, run, some_cells) refl,
            kept,
            record {
              valid = record {
                fits = omega arith;
                block = room;
                word = omega (arith, q, bound_small a.size left items);
              };
              room = omega arith;
              items = items;
              limit = omega (arith, q);
              cell = cell;
            },
          )
    ]

    pub put_IsValid :
        (a : Array A) (b : List A) {left : ℕ}
        → IsOpen a left
        → length b ≡ length a.items
        → IsValid {A = A} (record a { items = b; size = suc a.size })
    put_IsValid a b h same = record {
      fits = omega (arith, h.room);
      block = omega (arith, h.valid.block);
      word = h.valid.word;
    }
