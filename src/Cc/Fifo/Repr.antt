-- ===== src/Cc/Fifo/Repr.antt =====
-- A queue in the abstract is the list of its items, oldest first. `Repr q xs` says that the ring
-- `q` holds the queue `xs`.
use cuttle.Prelude.{
  ℕ, zero, suc, ◌+◌, ◌-◌, ◌*◌, ◌%◌, ◌^◌, ◌≤◌, ◌<◌, ◌≡◌, ◌≢◌, ◌⊎◌, refl, ap, ◌∙◌, List, [], ◌∷◌,
  ◌++◌, Option, none, some, true, false, arith, ltb, lt→ltb, ◌==◌, if◌then◌else◌, length, set,
  get_elem?, length-set, length-append, get_elem?-set_self, get_elem?-set_ne, inl, inr, Bool-cases,
  ltb→lt,
}
use cuttle.Cc.Memory.{add_size, store, get_elem?-ge}
use cuttle.Cc.Fifo.{Fifo, next, init, push, ppop, ppeek}

module _ {ℓ} {A : Type ℓ} where
  -- From cell `i` on, round the end of the ring, the cells hold `xs`.
  abbrev pub Holds : List A → ℕ → ℕ → List A → Type ℓ
  Holds items cap i [] = Unit
  Holds items cap i (x ∷ xs) = (get_elem? items i ≡ some x) × Holds items cap (next cap i) xs

-- `l` is `n` cells behind `i`, round the end of the ring.
abbrev Behind : ℕ → ℕ → ℕ → ℕ → Type 0
Behind cap i n l = (i + n ≡ l) ⊎ (i + n ≡ l + cap)

pub record Repr {ℓ} {A : Type ℓ} (q : Fifo A) (xs : List A) : Type ℓ where
  pub holds : Holds q.items q.capacity q.first xs
  pub count : length xs ≡ q.size
  pub fits : q.size ≤ q.capacity
  pub first_in : q.first < q.capacity
  pub last_in : q.last < q.capacity
  pub behind : (q.first + q.size ≡ q.last) ⊎ (q.first + q.size ≡ q.last + q.capacity)
  pub block : q.capacity ≤ length q.items
  pub word : q.capacity < 2 ^ 64

-- `l` is not among the `n` cells from `i` on.
abbrev Outside : ℕ → ℕ → ℕ → ℕ → Type 0
Outside cap i n l = (i + n ≤ l) ⊎ ((l < i) × (i + n ≤ l + cap))

module _ {ℓ} {A : Type ℓ} (cap l : ℕ) (items : List A) (v : A) (l_in : l < cap)
    (word : cap < 2 ^ 64) where
  Holds-set :
      (i : ℕ) (xs : List A)
      → i < cap
      → Outside cap i (length xs) l
      → Holds items cap i xs
      → Holds (set items l v) cap i xs
  Holds-set i [] h o held = tt
  Holds-set i (x ∷ xs) h o held =
      let apart : l ≢ i = omega arith in
      (
        get_elem?-set_ne items v apart ∙ held.0,
        Holds-set (next cap i) xs (ground arith) (ground arith) held.1,
      )

  Holds-snoc :
      (i : ℕ) (xs : List A)
      → i < cap
      → length xs < cap
      → Behind cap i (length xs) l
      → get_elem? items l ≡ some v
      → Holds items cap i xs
      → Holds items cap i (xs ++ (v ∷ []))
  Holds-snoc i [] h n b at held = let e : i ≡ l = omega arith in (ap (get_elem? items) e ∙ at, tt)
  Holds-snoc i (x ∷ xs) h n b at held =
      (held.0, Holds-snoc (next cap i) xs (ground arith) (omega arith) (ground arith) at held.1)

module _ {ℓ} {A : Type ℓ} where
  -- With memory for the items, a capacity that is not 0 and sizes that do not wrap, `init`
  -- succeeds with a ring that holds the empty queue.
  pub init-Repr :
      (malloc : ℕ → Option (List A)) (q : Fifo A) (capacity item_size : ℕ) (b : List A)
      → malloc (capacity * item_size) ≡ some b
      → capacity ≤ length b
      → 0 < capacity
      → capacity * item_size < 2 ^ 64
      → capacity < 2 ^ 64
      → (r : Fifo A) × (init malloc q capacity item_size ≡ (r, true))
        × Repr r []
        × (r.capacity ≡ capacity)
  unfolding init
  init-Repr malloc q capacity item_size b e enough some_room small word =
      let whole : (capacity * item_size) % 2 ^ 64 ≡ capacity * item_size = omega arith in
      (
        record {
          items = b;
          capacity = capacity;
          size = 0;
          item_size = item_size;
          first = 0;
          last = 0;
        },
        rw (whole, e, init),
        record {
          holds = tt;
          count = refl;
          fits = omega arith;
          first_in = some_room;
          last_in = some_room;
          behind = inl (omega arith);
          block = enough;
          word = word;
        },
        refl,
      )

  pub push_room :
      (q : Fifo A) (xs : List A) (x : A)
      → Repr q xs
      → length xs < q.capacity
      → (r : Fifo A) × (push q x ≡ some (r, some q.last))
        × Repr r (xs ++ (x ∷ []))
        × (r.capacity ≡ q.capacity)
  unfolding push store
  push_room q xs x h room =
      let fits : ltb q.size q.capacity ≡ true = lt→ltb _ _ (omega arith) in
      let inside : ltb q.last (length q.items) ≡ true = lt→ltb _ _ (omega arith) in
      let items : List A = set q.items q.last x in
      (
        record q { items = items; size = add_size q.size 1; last = next q.capacity q.last },
        rw (fits, inside),
        record {
          holds =
              Holds-snoc q.capacity q.last items x h.last_in h.word q.first xs h.first_in room
                (omega arith) (get_elem?-set_self q.items q.last x (omega arith))
                (Holds-set q.capacity q.last q.items x h.last_in h.word q.first xs h.first_in
                  (omega arith) h.holds);
          count = omega (arith, length-append xs (x ∷ []));
          fits = omega arith;
          first_in = h.first_in;
          last_in = ground arith;
          behind = ground arith;
          block = omega (arith, length-set q.items q.last x);
          word = h.word;
        },
        refl,
      )

  -- The abstract queue: an item is taken in while there is room.
  unfoldable pub enqueue : ℕ → List A → A → List A
  enqueue cap xs x = if ltb (length xs) cap then xs ++ (x ∷ []) else xs

  -- The result points at a cell exactly where the item was taken in.
  unfoldable pub place : ℕ → List A → ℕ → Option ℕ
  place cap xs last = if ltb (length xs) cap then some last else none

  -- On a ring that holds the queue `xs`, `push` is the `enqueue` of the bounded queue: with room
  -- the item goes in behind the others and the result points at its cell, without room nothing
  -- changes and the result is null; the ring stays well formed, and no access leaves its block.
  pub push-Repr :
      (q : Fifo A) (xs : List A) (x : A)
      → Repr q xs
      → (r : Fifo A) × (push q x ≡ some (r, place q.capacity xs q.last))
        × Repr r (enqueue q.capacity xs x)
        × (r.capacity ≡ q.capacity)
  unfolding enqueue place
  push-Repr q xs x h = elim (Bool-cases (ltb (length xs) q.capacity)) [
    | inl room ↦ rw room (push_room q xs x h (ltb→lt _ _ room))
    | inr full ↦
        let no_room : ltb q.size q.capacity ≡ false = ground arith in
        rw full (q, (unfold push in rw no_room), h, refl)
  ]

  pub ppop_cons :
      (q : Fifo A) (x : A) (xs : List A)
      → Repr q (x ∷ xs)
      → (r : Fifo A) × (ppop q ≡ some (r, some x)) × Repr r xs × (r.capacity ≡ q.capacity)
  unfolding ppop
  ppop_cons q x xs h =
      let some_item : (q.size == 0) ≡ false = ground arith in
      (
        record q { size = q.size - 1; first = next q.capacity q.first },
        rw (some_item, h.holds.0),
        record {
          holds = h.holds.1;
          count = omega arith;
          fits = omega arith;
          first_in = ground arith;
          last_in = h.last_in;
          behind = ground arith;
          block = h.block;
          word = h.word;
        },
        refl,
      )

  pub ppop_nil : (q : Fifo A) → Repr q [] → ppop q ≡ some (q, none)
  unfolding ppop
  ppop_nil q h = let empty : (q.size == 0) ≡ true = ground arith in rw empty

  abbrev pub front : List A → Option A
  front [] = none
  front (x ∷ xs) = some x

  abbrev pub rest : List A → List A
  rest [] = []
  rest (x ∷ xs) = xs

  -- On a ring that holds the queue `xs`, `ppop` gives the oldest item and leaves the others in
  -- order, or gives null and changes nothing where the queue is empty.
  pub ppop-Repr :
      (q : Fifo A) (xs : List A)
      → Repr q xs
      → (r : Fifo A) × (ppop q ≡ some (r, front xs)) × Repr r (rest xs) × (r.capacity ≡ q.capacity)
  ppop-Repr q [] h = (q, ppop_nil q h, h, refl)
  ppop-Repr q (x ∷ xs) h = ppop_cons q x xs h

  -- The library peeks at `first + index` and does not go round the end of the ring.
  Holds-get_elem? :
      (items : List A) (cap i k : ℕ) (xs : List A)
      → cap < 2 ^ 64
      → i + k < cap
      → k < length xs
      → Holds items cap i xs
      → get_elem? items (i + k) ≡ get_elem? xs k
  Holds-get_elem? items cap i k [] w h n held = absurd (omega arith)
  Holds-get_elem? items cap i zero (x ∷ xs) w h n held =
      let e : i + 0 ≡ i = omega arith in rw e held.0
  Holds-get_elem? items cap i (suc k) (x ∷ xs) w h n held =
      let e : next cap i ≡ i + 1 = ground arith in
      let e' : i + suc k ≡ i + 1 + k = omega arith in
      rw e' (Holds-get_elem? items cap (i + 1) k xs w (omega arith) (omega arith) (rw e at held.1))

  -- On a ring in a block of exactly its capacity, `ppeek` of the place of an item gives that item
  -- only where it stands before the end of the block: behind an item that stands round the end it
  -- reads out of the block.
  pub ppeek_lem :
      (q : Fifo A) (xs : List A) (k : ℕ)
      → Repr q xs
      → length q.items ≡ q.capacity
      → k < length xs
      → ppeek q k ≡ (if ltb (q.first + k) q.capacity then get_elem? xs k else none)
  unfolding ppeek
  ppeek_lem q xs k h exact n = elim (Bool-cases (ltb (q.first + k) q.capacity)) [
    | inl inside ↦
        rw inside
          (Holds-get_elem? q.items q.capacity q.first k xs h.word (ltb→lt _ _ inside) n h.holds)
    | inr beyond ↦ rw beyond (get_elem?-ge q.items (q.first + k) (ground arith))
  ]
