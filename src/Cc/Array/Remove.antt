-- ===== src/Cc/Array/Remove.antt =====
-- The operations that take items away, on the list of items.
use cuttle.Prelude.{
  ℕ, zero, suc, ◌+◌, ◌-◌, ◌<◌, ◌≡◌, refl, sym, ap, ◌∙◌, List, [], ◌∷◌, ◌++◌, none, some, arith, ltb,
  ltb→lt, lt→ltb, if◌then◌else◌, length, set, take, drop, length-take, length-drop, get_elem?,
  Bool-cases, inl, inr, Bool, false,
}
use cuttle.Cc.Memory.{take-append_le, take-suc_head, take-append_exact, add_size, get_elem?-lt}
use cuttle.Cc.Array.{Array, pop_back, pop_front, erase, push_front}
use cuttle.Cc.Array.Model.{contents, IsValid, move_lem, store_lem}

module _ {ℓ} {A : Type ℓ} where
  unfoldable pub remove_at : ℕ → List A → List A
  remove_at i [] = []
  remove_at zero (x ∷ xs) = xs
  remove_at (suc i) (x ∷ xs) = x ∷ remove_at i xs

  -- What `erase` leaves in the first `n` cells.
  shift_out :
      (pos m n : ℕ) (b rest : List A)
      → pos + m ≡ n
      → n < length b
      → take n (take pos b ++ (take m (drop (suc pos) b) ++ rest)) ≡ remove_at pos (take (suc n) b)
  unfolding remove_at
  shift_out pos m n [] rest e h = absurd (omega arith)
  shift_out zero m n (x ∷ b) rest e h =
      let e' : m ≡ n = omega arith in
      rw e' (take-append_exact n (take n b) rest (omega (arith, length-take n b)))
  shift_out (suc pos) m zero (x ∷ b) rest e h = absurd (omega arith)
  shift_out (suc pos) m (suc n) (x ∷ b) rest e h =
      ap (◌∷◌ x) (shift_out pos m n b rest (omega arith) (omega arith))

  -- On a valid array, `erase` takes the item at a place out and closes the gap, or changes nothing
  -- where the place is not below the size; the result is the new size, and the array stays valid
  -- with its capacity.
  pub erase_lem :
      (c : Array A) (pos : ℕ)
      → IsValid c
      → (r : Array A) × (erase c pos ≡ some (r, if ltb pos c.size then c.size - 1 else c.size))
        × (contents r ≡ (if ltb pos c.size then remove_at pos (contents c) else contents c))
        × IsValid r
        × (r.capacity ≡ c.capacity)
  unfolding erase
  erase_lem c pos h = elim (Bool-cases (ltb pos c.size)) [
    | inl within ↦
        let lt : pos < c.size = ltb→lt _ _ within in
        let m : ℕ = c.size - 1 - pos in
        let moved = move_lem c.items pos (suc pos) m (omega arith) (omega arith) in
        let a : add_size pos 1 ≡ suc pos = omega arith in
        let whole : suc (c.size - 1) ≡ c.size = omega arith in
        (
          record c {
            items = take pos c.items ++ (take m (drop (suc pos) c.items) ++ drop (pos + m) c.items);
            size = c.size - 1;
          },
          rw (within, a, moved.0),
          rw within (
              shift_out pos m (c.size - 1) c.items _ (omega arith) (omega arith)
              ∙ ap (λ n. remove_at pos (take n c.items)) whole),
          record { fits = omega arith; block = omega (arith, moved.1); word = h.word },
          refl,
        )
    | inr beyond ↦ (c, rw beyond, rw beyond, h, refl)
  ]

  -- The last item, and the rest.
  take-get_elem? :
      (n : ℕ) (b : List A) (x : A) → get_elem? b n ≡ some x → take (suc n) b ≡ take n b ++ (x ∷ [])
  take-get_elem? n [] x e = cc
  take-get_elem? zero (y ∷ b) x e = ground arith
  take-get_elem? (suc n) (y ∷ b) x e = ap (◌∷◌ y) (take-get_elem? n b x e)

  -- On a valid array with an item, `pop_back` takes the last item out and gives it.
  pub pop_back-some :
      (c : Array A)
      → IsValid c
      → 0 < c.size
      → (r : Array A) × (x : A) × (pop_back c ≡ some (r, r.size, some x))
        × (contents c ≡ contents r ++ (x ∷ []))
        × IsValid r
  unfolding pop_back
  pop_back-some c h some_item =
      let (x, e) = get_elem?-lt c.items (c.size - 1) (omega arith) in
      let whole : suc (c.size - 1) ≡ c.size = omega arith in
      let many : ltb c.size 1 ≡ false = ground arith in
      (
        record c { size = c.size - 1 },
        x,
        rw (many, e),
        ap (λ n. take n c.items) (sym whole) ∙ take-get_elem? (c.size - 1) c.items x e,
        record { fits = omega arith; block = h.block; word = h.word },
      )

  -- On a valid array with an item, `pop_front` takes the first item out, gives it where it is
  -- wanted, and leaves the others in order.
  pub pop_front-some :
      (c : Array A) (wanted : Bool)
      → IsValid c
      → 0 < c.size
      → (r : Array A) × (x : A) × (pop_front c wanted
          ≡ some (r, r.size, if wanted then some x else none))
        × (contents c ≡ x ∷ contents r)
        × IsValid r
  unfolding pop_front
  pop_front-some c wanted h some_item =
      let (x, e) = get_elem?-lt c.items 0 (omega arith) in
      let n : ℕ = c.size - 1 in
      let moved = move_lem c.items 0 1 n (omega arith) (omega arith) in
      let rest : List A = drop (0 + n) c.items in
      let whole : c.size ≡ suc n = omega arith in
      let many : ltb c.size 1 ≡ false = ground arith in
      let len : length (take n (drop 1 c.items)) ≡ n =
        omega (arith, length-take n (drop 1 c.items), length-drop 1 c.items) in
      (
        record c { items = take n (drop 1 c.items) ++ rest; size = n },
        x,
        rw (many, e, moved.0),
        ap (λ k. take k c.items) whole
            ∙ take-suc_head n c.items x e
            ∙ ap (◌∷◌ x) (sym (take-append_exact n (take n (drop 1 c.items)) rest len)),
        record { fits = omega arith; block = omega (arith, moved.1); word = h.word },
      )

  front :
      (n : ℕ) (b : List A) (v : A)
      → n < length b
      → take n (set (take 1 b ++ (take n b ++ drop (1 + n) b)) 0 v) ≡ take n (v ∷ take n b)
  front n [] v h = absurd (omega arith)
  front zero (x ∷ b) v h = refl
  front (suc n) (x ∷ b) v h =
      ap (◌∷◌ v) (take-append_le n (take (suc n) (x ∷ b)) _ (omega (arith, length-take n b)))

  -- On a valid array with room, `push_front` puts the value in front but keeps the size, so the
  -- last item is lost.
  pub push_front-loses :
      (c : Array A) (v : A)
      → IsValid c
      → c.size < c.capacity
      → (r : Array A) × (push_front c v ≡ some (r, 0))
        × (contents r ≡ take c.size (v ∷ contents c))
        × (r.size ≡ c.size)
  unfolding push_front
  push_front-loses c v h room =
      let b : List A = take 1 c.items ++ (take c.size c.items ++ drop (1 + c.size) c.items) in
      let moved = move_lem c.items 1 0 c.size (omega arith) (omega arith) in
      let len : length b ≡ length c.items = moved.1 in
      (
        record c { items = set b 0 v },
        rw (lt→ltb _ _ room, moved.0, store_lem b 0 v (omega arith)),
        front c.size c.items v (omega arith),
        refl,
      )
