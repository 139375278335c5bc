-- ===== src/Cc/Fifo.antt =====
-- include/cuttle/ccfifo.h, a bounded queue on a ring of cells. An item is a value of `A`; the null
-- block is the one of no cells. `none` as a result is an access outside the block.
pub mod Repr
use cuttle.Prelude.{
  ℕ, ◌+◌, ◌-◌, ◌*◌, ◌%◌, ◌^◌, List, [], Option, none, some, Bool, true, false, ltb, leb, ◌==◌,
  if◌then◌else◌, ◌>>=◌,
}
use cuttle.Cc.Memory.{add_size, load, store}

pub record Fifo {ℓ} (A : Type ℓ) : Type ℓ where
  pub items : List A
  pub capacity : ℕ
  pub size : ℕ
  pub item_size : ℕ
  pub first : ℕ
  pub last : ℕ

-- `++i; if ( i >= capacity ) i = 0`
abbrev pub next : ℕ → ℕ → ℕ
next capacity i = if leb capacity (add_size i 1) then 0 else add_size i 1

module _ {ℓ} {A : Type ℓ} where
  -- `malloc` gets a number of bytes, computed in `size_t`.
  unfoldable pub init : (ℕ → Option (List A)) → Fifo A → ℕ → ℕ → Fifo A × Bool
  init malloc q capacity item_size = elim (malloc ((capacity * item_size) % 2 ^ 64)) [
    | none ↦ (record q { items = [] }, false)
    | some block ↦ (
      record {
        items = block;
        capacity = capacity;
        size = 0;
        item_size = item_size;
        first = 0;
        last = 0;
      },
      true,
    )
  ]

  unfoldable pub cleanup : Fifo A → Fifo A
  cleanup q = record { items = []; capacity = 0; size = 0; item_size = 0; first = 0; last = 0 }

  -- What is written is none where `item` is null. The result is the place of the item, the null
  -- pointer where the queue is full.
  unfoldable pub push_bytes : Fifo A → Option A → Option (Fifo A × Option ℕ)
  push_bytes q item =
      if ltb q.size q.capacity
      then elim item [ none ↦ some q.items | some x ↦ store q.items q.last x ] >>= (λ items. some (
        record q { items = items; size = add_size q.size 1; last = next q.capacity q.last },
        some q.last,
      ))
      else some (q, none)

  -- The flag says whether `pitem` is not null; the last part is what goes through it.
  unfoldable pub pop_bytes : Fifo A → Bool → Option (Fifo A × Bool × Option A)
  pop_bytes q wanted =
      if q.size == 0
      then some (q, false, none)
      else (if wanted then load q.items q.first >>= (λ x. some (some x)) else some none) >>= (λ out.
          some (record q { size = q.size - 1; first = next q.capacity q.first }, true, out))

  unfoldable pub push : Fifo A → A → Option (Fifo A × Option ℕ)
  unfolding push_bytes
  push q item = push_bytes q (some item)

  unfoldable pub pop : Fifo A → Bool → Option (Fifo A × Bool × Option A)
  unfolding pop_bytes
  pop q wanted = pop_bytes q wanted

  -- The item popped, the null pointer if there is none.
  unfoldable pub ppop : Fifo A → Option (Fifo A × Option A)
  unfolding pop
  ppop q = pop q true >>= (λ r. some (r.0, r.2))

  unfoldable pub ppeek : Fifo A → ℕ → Option A
  ppeek q index = load q.items (q.first + index)

  unfoldable pub ppeek_front : Fifo A → Option (Option A)
  ppeek_front q = if q.size == 0 then some none else load q.items q.first >>= (λ x. some (some x))

  abbrev pub is_full : Fifo A → Bool
  is_full q = q.size == q.capacity

  abbrev pub is_empty : Fifo A → Bool
  is_empty q = q.size == 0
