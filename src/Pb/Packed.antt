-- ===== src/Pb/Packed.antt =====
-- The loop of `cf_pb_decode_array` that reads a packed array, and the growth of its array.
pub mod Grown
pub mod Filled
use cuttle.Prelude.{
  ℕ, zero, suc, ◌+◌, ◌*◌, ◌/◌, ◌%◌, ◌^◌, List, Option, none, some, Bool, true, false, not, ltb, leb,
  ◌==◌, if◌then◌else◌, ◌>>=◌,
}
use cuttle.Cc.Memory.{add_size, store}
use cuttle.Cc.Array.{Array, init, realloc}

-- `2 * substream.bytes_left / field->item_size + 1`
abbrev pub room_for : ℕ → ℕ → ℕ
room_for left item_size = add_size ((2 * left) % 2 ^ 64 / item_size) 1

-- `!ccarray_realloc(...)` looks at the capacity that it returns.
abbrev pub not_null : {A : Type 0} → Array A × ℕ → Array A × Bool
not_null (a, capacity) = (a, not (capacity == 0))

-- `decode` is the decoder of an item, and `again` the `realloc` of the array.
module _ {In : Type 0} {A : Type 0} (decode : In → Option A × In) (bytes_left : In → ℕ)
    (again : List A → ℕ → Option (List A)) where
  -- The decoder writes its item through `ccarray_peek_end`, and `++array->size`.
  unfoldable pub put_item : Array A → A → Option (Array A)
  put_item a v =
      store a.items a.size v
      >>= (λ items. some (record a { items = items; size = add_size a.size 1 }))

  -- The flag says whether the loop goes on.
  unfoldable pub grow : Array A → ℕ → Array A × Bool
  grow a left =
      if leb a.capacity a.size
      then not_null (realloc again a (add_size a.capacity (room_for left a.item_size)))
      else (a, true)

  -- After the decoder, `k` being what the further rounds do.
  unfoldable pub fill_more :
      (In → Array A → Option (In × Array A)) → Array A → Option A × In → Option (In × Array A)
  unfolding put_item grow
  fill_more k a (none, sub) = some (sub, a)
  fill_more k a (some v, sub) =
      put_item a v
      >>= (λ a'. let g = grow a' (bytes_left sub) in if g.1 then k sub g.0 else some (sub, g.0))

  -- The loop, on fuel. `none` is a write outside the block, or an end of the fuel.
  unfoldable pub fill : ℕ → In → Array A → Option (In × Array A)
  unfolding fill_more
  fill zero sub a = none
  fill (suc fuel) sub a =
      if ltb 0 (bytes_left sub) then fill_more (fill fuel) a (decode sub) else some (sub, a)

  -- The packed case, on the bytes of the array. The flag is the result; `malloc` is for the array,
  -- of which nothing is used but its place.
  unfoldable pub decode_packed :
      (ℕ → Option (List A)) → ℕ → ℕ → In → Array A → Option (Array A × Bool)
  unfolding fill
  decode_packed malloc item_size fuel sub a =
      elim (init malloc (some a) (room_for (bytes_left sub) item_size) item_size) [
        | none ↦ some (a, false)
        | some a' ↦ fill fuel sub a' >>= (λ r. some (r.1, bytes_left r.0 == 0))
      ]
