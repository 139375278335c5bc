-- ===== src/Pb/Packed/Filled.antt =====
-- What the loop reads, and where it puts it.
use native.Mathlib.Nat.{div-le_self}
use cuttle.Prelude.{
  ℕ, zero, suc, ◌+◌, ◌*◌, ◌/◌, ◌%◌, ◌^◌, ◌≤◌, ◌<◌, ◌≡◌, ◌⊎◌, refl, sym, ap, ◌∙◌, List, [], ◌∷◌,
  ◌++◌, Option, none, some, true, false, ltb, ◌==◌, length, arith, Bool-cases, inl, inr,
  append_assoc, append-nil,
}
use cuttle.Cc.Array.{Array, init}
use cuttle.Cc.Array.Model.{contents, IsValid}
use cuttle.Pb.Packed.Grown.{
  mul_mono, cells_le, HasMemory, IsOpen, put_lem, room_lem, bound_small, grow_lem, put_IsValid,
}
use cuttle.Pb.Packed.{room_for, put_item, grow, fill_more, fill, decode_packed}

module _ {In : Type 0} {A : Type 0} (decode : In → Option A × In) (bytes_left : In → ℕ)
    (again : List A → ℕ → Option (List A)) where
  -- The items that stand on a stream one after the other, up to its end, or to one that the decoder
  -- refuses; and the stream then.
  pub data Decodes : In → List A → In → Type 0 where
    empty : (i : In) → bytes_left i ≡ 0 → Decodes i [] i
    refused : (i j : In) → 0 < bytes_left i → decode i ≡ (none, j) → Decodes i [] j
    item :
        (v : A) (vs : List A) (i i' j : In)
        → 0 < bytes_left i
        → decode i ≡ (some v, i')
        → Decodes i' vs j
        → Decodes i (v ∷ vs) j

  fill_over :
      (fuel : ℕ) (i : In) (a : Array A)
      → ltb 0 (bytes_left i) ≡ false
      → fill decode bytes_left again (suc fuel) i a ≡ some (i, a)
  unfolding fill
  fill_over fuel i a over = rw over refl

  fill_round :
      (fuel : ℕ) (i : In) (a : Array A) (r : Option A × In)
      → ltb 0 (bytes_left i) ≡ true
      → decode i ≡ r
      → fill decode bytes_left again (suc fuel) i a
        ≡ fill_more decode bytes_left again (fill decode bytes_left again fuel) a r
  unfolding fill
  fill_round fuel i a r more e =
      rw more (ap (fill_more decode bytes_left again (fill decode bytes_left again fuel) a) e)

  fill_refused :
      (k : In → Array A → Option (In × Array A)) (a : Array A) (j : In)
      → fill_more decode bytes_left again k a (none, j) ≡ some (j, a)
  unfolding fill_more
  fill_refused k a j = refl

  fill_item :
      (k : In → Array A → Option (In × Array A)) (a : Array A) (v : A) (j : In) (a' a'' : Array A)
      → put_item decode bytes_left again a v ≡ some a'
      → grow decode bytes_left again a' (bytes_left j) ≡ (a'', true)
      → fill_more decode bytes_left again k a (some v, j) ≡ k j a''
  unfolding fill_more
  fill_item k a v j a' a'' put grows = rw (put, grows) refl

  read_cases :
      (r : Option A × In) → ((j : In) × (r ≡ (none, j))) ⊎ ((v : A) × (j : In) × (r ≡ (some v, j)))
  read_cases (none, j) = inl (j, refl)
  read_cases (some v, j) = inr (v, j, refl)

  module _ (item_size bound : ℕ) (positive : 0 < item_size)
      (memory : HasMemory decode bytes_left again item_size)
      (small : (2 * bound + 1) * item_size < 2 ^ 64) where
    -- The loop reads the items that stand on the stream, and puts them behind those of the array.
    Filled : ℕ → In → Array A → Type 0
    Filled fuel i a =
        (vs : List A) × (j : In) × (a' : Array A) × Decodes i vs j
        × (fill decode bytes_left again fuel i a ≡ some (j, a'))
        × (contents a' ≡ contents a ++ vs)
        × IsValid a'

    module _
        (shrinks : (i : In) (v : A) (j : In)
          → decode i ≡ (some v, j)
          → bytes_left j < bytes_left i) where
      fill_lem :
          (fuel : ℕ) (i : In) (a : Array A)
          → bytes_left i < fuel
          → IsOpen decode bytes_left again item_size bound positive memory small a (bytes_left i)
          → Filled fuel i a
      unfolding Filled
      fill_lem zero i a enough begun = absurd (omega arith)
      fill_lem (suc fuel) i a enough begun = elim (Bool-cases (ltb 0 (bytes_left i))) [
        | inr over ↦ (
          [],
          i,
          a,
          Decodes.empty i (ground arith),
          fill_over fuel i a over,
          sym (append-nil (contents a)),
          begun.valid,
        )
        | inl more ↦
            let left : 0 < bytes_left i = ground arith in
            elim (read_cases (decode i)) [
              | inl (j, r) ↦ (
                [],
                j,
                a,
                Decodes.refused i j left r,
                fill_round fuel i a (none, j) more r
                    ∙ fill_refused (fill decode bytes_left again fuel) a j,
                sym (append-nil (contents a)),
                begun.valid,
              )
              | inr (v, j, r) ↦
                  let (b, put, cells, same) =
                    put_lem decode bytes_left again a v begun.valid begun.room in
                  let fewer : bytes_left j < bytes_left i = shrinks i v j r in
                  let (a', grows, kept, next) =
                    grow_lem decode bytes_left again item_size bound positive memory small
                      (record a { items = b; size = suc a.size }) (bytes_left j)
                      (put_IsValid decode bytes_left again item_size bound positive memory small a b
                        begun same)
                      (omega (arith, begun.items)) begun.limit begun.cell in
                  let (vs, k, a'', reads, run, all, valid) =
                    fill_lem fuel j a' (omega arith) next in
                  (
                    v ∷ vs,
                    k,
                    a'',
                    Decodes.item v vs i j k left r reads,
                    fill_round fuel i a (some v, j) more r
                        ∙ fill_item (fill decode bytes_left again fuel) a v j _ a' put grows
                        ∙ run,
                    all
                        ∙ ap (λ xs. xs ++ vs) (kept ∙ cells)
                        ∙ append_assoc (contents a) (v ∷ []) vs,
                    valid,
                  )
            ]
      ]

module _ {In : Type 0} {A : Type 0} (decode : In → Option A × In) (bytes_left : In → ℕ)
    (again : List A → ℕ → Option (List A)) where
  init_part :
      (malloc : ℕ → Option (List A)) (item_size capacity bytes : ℕ) (a : Array A) (b : List A)
      → (capacity * item_size) % 2 ^ 64 ≡ bytes
      → malloc bytes ≡ some b
      → init malloc (some a) capacity item_size
        ≡ some (record { items = b; capacity = capacity; size = 0; item_size = item_size })
  unfolding init
  init_part malloc item_size capacity bytes a b size at_b = rw (size, at_b, init) refl

  fill_part :
      (malloc : ℕ → Option (List A)) (item_size fuel : ℕ) (i j : In) (a begun a' : Array A)
      → init malloc (some a) (room_for (bytes_left i) item_size) item_size ≡ some begun
      → fill decode bytes_left again fuel i begun ≡ some (j, a')
      → decode_packed decode bytes_left again malloc item_size fuel i a
        ≡ some (a', bytes_left j == 0)
  unfolding decode_packed
  fill_part malloc item_size fuel i j a begun a' starts run =
      rw (starts, decode_packed) (rw run refl)

  -- Where each item that is decoded takes bytes, there is memory, items have a size and the sizes
  -- of arrays do not wrap: the loop of a packed array writes inside its block and is over after as
  -- many rounds as there are bytes, and one; the array then holds the items that stand on the
  -- stream, in their order, up to its end or to the first that is refused, and the result is true
  -- exactly where no bytes are left then, be it that the last item has been refused.
  pub decode_packed_lem :
      (malloc : ℕ → Option (List A)) (item_size : ℕ) (i : In) (a : Array A) (b : List A)
      → ((i : In) (v : A) (j : In) → decode i ≡ (some v, j) → bytes_left j < bytes_left i)
      → HasMemory decode bytes_left again item_size
      → ((n : ℕ) (b : List A) → malloc n ≡ some b → n ≤ length b * item_size)
      → malloc ((2 * bytes_left i / item_size + 1) * item_size) ≡ some b
      → 0 < item_size
      → (2 * bytes_left i + 1) * item_size < 2 ^ 64
      → (vs : List A) × (j : In) × (a' : Array A) × Decodes decode bytes_left again i vs j
        × (decode_packed decode bytes_left again malloc item_size (suc (bytes_left i)) i a
            ≡ some (a', bytes_left j == 0))
        × (contents a' ≡ vs)
        × IsValid a'
  unfolding Filled
  decode_packed_lem malloc item_size i a b shrinks memory enough at_b positive small =
      let left : ℕ = bytes_left i in
      let capacity : ℕ = 2 * left / item_size + 1 in
      let room : room_for left item_size ≡ capacity =
        room_lem decode bytes_left again item_size left positive memory small 0 left
          (omega arith) in
      let less : 2 * left / item_size ≤ 2 * left = div-le_self (2 * left) item_size in
      let short : capacity * item_size < 2 ^ 64 =
        omega (arith, mul_mono capacity (2 * left + 1) item_size (omega (arith, less))) in
      let begun : Array A = record {
        items = b;
        capacity = capacity;
        size = 0;
        item_size = item_size;
      } in
      let whole : (capacity * item_size) % 2 ^ 64 ≡ capacity * item_size = omega (arith, short) in
      let (vs, j, a', reads, run, all, valid) =
        fill_lem decode bytes_left again item_size left positive memory small shrinks (suc left) i
          begun (omega arith)
          (record {
            valid = record {
              fits = omega arith;
              block = cells_le capacity (length b) item_size positive (enough _ b at_b);
              word = omega (
                arith,
                less,
                bound_small decode bytes_left again item_size left positive memory small 0 left
                    (omega arith),
              );
            };
            room = omega arith;
            items = omega arith;
            limit = omega (arith, less);
            cell = refl;
          }) in
      (
        vs,
        j,
        a',
        reads,
        fill_part malloc item_size (suc left) i j a begun a'
            (rw room (init_part malloc item_size capacity (capacity * item_size) a b whole at_b))
            run,
        all,
        valid,
      )
