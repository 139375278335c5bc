-- ===== src/Cc/Array.antt =====
-- include/cuttle/ccarray.h. An item is a value of `A`, and `items` is the allocated block, with
-- whatever its cells hold past `size`. The null block is the one of no cells. `none` as a result
-- is an access outside the block. `malloc` and `realloc` are parameters of what calls them, and
-- so is the comparison function that a client passes, which C calls through a pointer.
pub mod Model
pub mod Remove
pub mod Find
pub mod LowerBound
use Prim.Native.Nat.{Ordering}
use cuttle.Prelude.{
  ℕ, zero, suc, ◌+◌, ◌-◌, ◌*◌, ◌/◌, ◌%◌, ◌^◌, ◌≡◌, List, [], Option, none, some, Bool, true, false,
  ◌&&◌, ltb, leb, ◌==◌, ◌++◌, take, drop, if◌then◌else◌, ◌>>=◌,
}
use cuttle.Cc.Memory.{add_size, sub_size, load, store, move}

pub record Array {ℓ} (A : Type ℓ) : Type ℓ where
  pub items : List A
  pub capacity : ℕ
  pub size : ℕ
  pub item_size : ℕ

-- `ccarray_npos`, which is `(size_t)(-1)`.
abbrev pub npos : ℕ
npos = 2 ^ 64 - 1

module _ {ℓ} {A : Type ℓ} where
  -- `malloc` gets a number of bytes, computed in `size_t`. Without memory `*c` stays as it was.
  unfoldable pub init : (ℕ → Option (List A)) → Option (Array A) → ℕ → ℕ → Option (Array A)
  init malloc none capacity item_size = none
  init malloc (some c) capacity item_size = elim (malloc ((capacity * item_size) % 2 ^ 64)) [
    | none ↦ none
    | some block ↦
        some (record { items = block; capacity = capacity; size = 0; item_size = item_size })
  ]

  unfoldable pub cleanup : Array A → Array A
  cleanup c = record c { items = [] }

  -- `create` on the object that `calloc` gives, if it gives one.
  unfoldable pub create : (ℕ → Option (List A)) → Bool → ℕ → ℕ → Option (Array A)
  create malloc false capacity item_size = none
  create malloc true capacity item_size =
      init malloc (some (record { items = []; capacity = 0; size = 0; item_size = 0 })) capacity
        item_size

  unfoldable pub realloc : (List A → ℕ → Option (List A)) → Array A → ℕ → Array A × ℕ
  realloc again c capacity = elim (again c.items ((capacity * c.item_size) % 2 ^ 64)) [
    | none ↦ (c, c.capacity)
    | some block ↦ (
      record c {
        items = block;
        capacity = capacity;
        size = if ltb capacity c.size then capacity else c.size;
      },
      capacity,
    )
  ]

  unfoldable pub resize : (List A → ℕ → Option (List A)) → Array A → ℕ → Array A × ℕ
  resize again c size =
      let (c', cap) = realloc again c size in
      if cap == size && ltb c.size size then (record c' { size = size }, size) else (c', c'.size)

  unfoldable pub size_of : Option (Array A) → ℕ
  size_of none = 0
  size_of (some c) = c.size

  unfoldable pub capacity_of : Option (Array A) → ℕ
  capacity_of none = 0
  capacity_of (some c) = c.capacity

  pub push_back : Array A → A → Option (Array A × ℕ)
  push_back c value =
      if ltb c.size c.capacity
      then store c.items c.size value
        >>= (λ items. some (record c { items = items; size = add_size c.size 1 }, c.size))
      else some (c, npos)

  -- The source shifts the items and writes the first, and leaves `size` alone.
  unfoldable pub push_front : Array A → A → Option (Array A × ℕ)
  push_front c value =
      if ltb c.size c.capacity
      then move c.items 1 0 c.size
        >>= (λ items. store items 0 value >>= (λ items'. some (record c { items = items' }, 0)))
      else some (c, npos)

  pub insert : Array A → ℕ → A → Option (Array A × ℕ)
  insert c pos value =
      if ltb c.size c.capacity
      then move c.items (add_size pos 1) pos (sub_size c.size pos) >>= (λ items.
        store items pos value
        >>= (λ items'. some (record c { items = items'; size = add_size c.size 1 }, pos)))
      else some (c, npos)

  -- The third part is what goes through `data`.
  pub pop_back : Array A → Option (Array A × ℕ × Option A)
  pop_back c =
      if ltb c.size 1
      then some (c, npos, none)
      else load c.items (c.size - 1)
        >>= (λ x. some (record c { size = c.size - 1 }, c.size - 1, some x))

  -- The flag says whether `data` is not null.
  pub pop_front : Array A → Bool → Option (Array A × ℕ × Option A)
  pop_front c wanted =
      if ltb c.size 1
      then some (c, npos, none)
      else load c.items 0 >>= (λ x. move c.items 0 1 (c.size - 1) >>= (λ items. some (
        record c { items = items; size = c.size - 1 },
        c.size - 1,
        if wanted then some x else none,
      )))

  pub erase : Array A → ℕ → Option (Array A × ℕ)
  erase c pos =
      if ltb pos c.size
      then move c.items pos (add_size pos 1) (c.size - 1 - pos)
        >>= (λ items. some (record c { items = items; size = c.size - 1 }, c.size - 1))
      else some (c, c.size)

  unfoldable pub clear : Array A → Array A
  clear c = record c { size = 0 }

  -- Frees the pointers in order, and empties the array. The list is what `free` gets.
  unfoldable pub pclear : Array A → List A × Array A
  pclear c = (take c.size c.items, clear c)

  -- `qsort` is the C library's; it works on the cells from `beg` to `end`.
  unfoldable pub sort : (List A → List A) → Array A → ℕ → ℕ → Array A
  sort qsort c beg end = record c {
    items = take beg c.items ++ (qsort (take (end - beg) (drop beg c.items)) ++ drop end c.items);
  }

  unfoldable pub peek : Array A → ℕ → Option A
  peek c pos = load c.items pos

  unfoldable pub set_size : Array A → ℕ → Array A × ℕ
  set_size c newsize = (record c { size = newsize }, newsize)

  -- `while ( pos < c->size && cmp(item(pos), value) != 0 ) ++pos`, with `left` rounds to the end.
  -- The test says whether the comparison is 0.
  find_from : (A → Bool) → List A → ℕ → ℕ → Option ℕ
  find_from same items zero pos = some pos
  find_from same items (suc left) pos =
      let rest = find_from same items left (pos + 1) in
      load items pos >>= (λ x. if same x then some pos else rest)

  pub find : (A → Bool) → Array A → Option ℕ
  unfolding find_from
  find same c = find_from same c.items c.size 0

  -- `ccarray_find_item` and `ccarray_erase_item` compare by `memcmp`, as `same` does.
  pub erase_item : (A → Bool) → Array A → Option (Array A × ℕ)
  erase_item same c =
      find same c
      >>= (λ pos. if ltb pos c.size then erase c pos >>= (λ r. some (r.0, pos)) else some (c, pos))

module _ {ℓ κ} {A : Type ℓ} {V : Type κ} (cmp : A → V → Ordering) (value : V) where
  -- The first loop of `ccarray_lowerbound`, on fuel. `none` is also an end of the fuel.
  halve : List A → ℕ → ℕ → ℕ → Option ℕ
  halve items zero beg len = if ltb 0 len then none else some beg
  halve items (suc fuel) beg len =
      let half = len / 2 in
      let mid = beg + half in
      let left = halve items fuel beg half in
      let right = halve items fuel (mid + 1) (len - (half + 1)) in
      if ltb 0 len
      then load items mid >>= (λ x. elim (cmp x value) [
        | Ordering.eq ↦ some mid
        | Ordering.gt ↦ left
        | Ordering.lt ↦ right
      ])
      else some beg

  -- The second loop: `beg` is `oldbeg + back`.
  step_back : List A → ℕ → ℕ → Option ℕ
  step_back items oldbeg zero = some oldbeg
  step_back items oldbeg (suc back) =
      let rest = step_back items oldbeg back in
      load items (oldbeg + back)
      >>= (λ x. elim (cmp x value) [ Ordering.eq ↦ rest | _ ↦ some (oldbeg + suc back) ])

  pub lower_bound : Array A → ℕ → ℕ → Option ℕ
  unfolding halve step_back
  lower_bound c beg end =
      halve c.items (end - beg) beg (end - beg) >>= (λ found. step_back c.items beg (found - beg))
