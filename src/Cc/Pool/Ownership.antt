-- ===== src/Cc/Pool/Ownership.antt =====
-- Who has which block: each block is free or handed out, and to one holder.
use mathlib.Core.List.{Perm, Permᴰ, perm_middle}
use mathlib.Core.Logic.{∥∥₁_elim}
use native.Mathlib.Nat.{ℕ_set}
use mathlib.Core.List.Perm
use cuttle.Prelude.{
  ℕ, zero, suc, ◌+◌, ◌*◌, ◌^◌, ◌≤◌, ◌<◌, ◌≡◌, refl, ◌∙◌, List, [], ◌∷◌, ◌++◌, Option, none, some,
  true, arith, length, length-append, append_assoc, append-nil, ap,
}
use cuttle.Cc.Fifo.Repr
use cuttle.Cc.Fifo.{Fifo}
use cuttle.Cc.Fifo.Repr.{Repr, push_room, ppop_cons, ppop_nil, init-Repr}
use cuttle.Cc.Pool.{Pool, fill, init_with, init, alloc, free, zeroed}

-- The numbers below `n`, downwards: the order in which `init` frees the blocks.
unfoldable pub below : ℕ → List ℕ
below zero = []
below (suc n) = n ∷ below n

length-below : (n : ℕ) → length (below n) ≡ n
unfolding below
length-below zero = refl
length-below (suc n) = omega (arith, length-below n)

fill_lem :
    (left : ℕ) (q : Fifo ℕ) (xs : List ℕ)
    → Repr q xs
    → length xs + left ≤ q.capacity
    → (r : Fifo ℕ) × (fill left q ≡ some r) × Repr r (xs ++ below left) × (r.capacity ≡ q.capacity)
unfolding fill below
fill_lem zero q xs h room = (q, refl, rw append-nil h, refl)
fill_lem (suc left) q xs h room =
    let (r, run, h', cap) = push_room q xs left h (omega arith) in
    let (s, run', h'', cap') =
      fill_lem left r (xs ++ (left ∷ [])) h' (omega (arith, length-append xs (left ∷ []))) in
    (s, rw run run', rw append_assoc at h'', cap' ∙ cap)

length-permᴰ : {xs ys : List ℕ} → Permᴰ xs ys → length xs ≡ length ys
length-permᴰ Permᴰ.nil = refl
length-permᴰ (Permᴰ.cons e p) = ap suc (length-permᴰ p)
length-permᴰ (Permᴰ.swap e f) = refl
length-permᴰ (Permᴰ.trans p q) = length-permᴰ p ∙ length-permᴰ q

length-perm : {xs ys : List ℕ} → Perm xs ys → length xs ≡ length ys
length-perm p = ∥∥₁_elim p (ℕ_set _ _) length-permᴰ

-- A pool and the blocks that its users hold.
pub record Use : Type 0 where
  pub pool : Pool
  pub held : List ℕ

-- The calls of users that free only what they hold.
pub data Step (u : Use) : Use → Type 0 where
  takes :
      (p : Pool) (b : ℕ)
      → alloc u.pool ≡ some (p, some b)
      → Step u (record { pool = p; held = b ∷ u.held })
  fails : (p : Pool) → alloc u.pool ≡ some (p, none) → Step u (record { pool = p; held = u.held })
  gives :
      (p : Pool) (before : List ℕ) (b : ℕ) (after : List ℕ)
      → u.held ≡ before ++ (b ∷ after)
      → free u.pool b ≡ some p
      → Step u (record { pool = p; held = before ++ after })

pub data Reach (u : Use) : Use → Type 0 where
  here : Reach u u
  next : {v w : Use} → Reach u v → Step v w → Reach u w

-- The free blocks and those in use are together the blocks of the pool, each once.
pub record Owns (n : ℕ) (u : Use) : Type 0 where
  pub idle : List ℕ
  pub queue : Repr u.pool.fifo idle
  pub size : u.pool.fifo.capacity ≡ n
  pub whole : Perm (idle ++ u.held) (below n)

pub owned_count : (n : ℕ) (u : Use) (o : Owns n u) → length o.idle + length u.held ≡ n
owned_count n u o = omega (arith, length-append o.idle u.held, length-perm o.whole, length-below n)

-- With memory for both of its blocks and a size that does not wrap, `init` of a pool of n blocks
-- succeeds, and each of the n blocks is free, once.
pub init-Owns :
    (malloc : ℕ → Option (List ℕ)) (n : ℕ) (cells : List ℕ)
    → 0 < n
    → n * 8 < 2 ^ 64
    → malloc (n * 8) ≡ some cells
    → n ≤ length cells
    → (p : Pool) × (init true malloc n ≡ some (p, true)) × Owns n (record { pool = p; held = [] })
unfolding init
init-Owns malloc n cells positive small e room =
    let (q, made, h, cap) = init-Repr malloc zeroed n 8 cells e room positive small (omega arith) in
    let (r, run, h', cap') = fill_lem n q [] h (rw cap (omega arith)) in
    (
      record { blocks = true; fifo = r },
      ap (init_with n) made ∙ rw run,
      record {
        idle = below n;
        queue = h';
        size = cap' ∙ cap;
        whole = rw append-nil (Perm.refl (below n));
      },
    )

-- `alloc` gives the block that has been free for longest, and fails only when all are in use.
pub alloc_lem :
    (n : ℕ) (u : Use) (o : Owns n u)
    → (p : Pool) × (alloc u.pool ≡ some (p, Repr.front o.idle))
      × Repr p.fifo (Repr.rest o.idle)
      × (p.fifo.capacity ≡ n)
unfolding alloc
alloc_lem n u o =
    let (q, run, h, cap) = Repr.ppop-Repr u.pool.fifo o.idle o.queue in
    (record u.pool { fifo = q }, rw run, h, cap ∙ o.size)

pub takes-Owns :
    (n : ℕ) (u : Use) (idle : List ℕ) (p : Pool) (b : ℕ)
    → Repr u.pool.fifo idle
    → u.pool.fifo.capacity ≡ n
    → Perm (idle ++ u.held) (below n)
    → alloc u.pool ≡ some (p, some b)
    → Owns n (record { pool = p; held = b ∷ u.held })
takes-Owns n u [] p b queue size whole e =
    let (q, run, _, _) =
      alloc_lem n u (record { idle = []; queue = queue; size = size; whole = whole }) in
    absurd (cc)
takes-Owns n u (x ∷ xs) p b queue size whole e =
    let (q, run, h, cap) =
      alloc_lem n u (record { idle = x ∷ xs; queue = queue; size = size; whole = whole }) in
    let same : q ≡ p = cc in
    let block : x ≡ b = cc in
    record {
      idle = xs;
      queue = rw same at h;
      size = rw same at cap;
      whole = Perm.trans (rw (← block) (perm_middle xs u.held)) whole;
    }

pub fails-Owns :
    (n : ℕ) (u : Use) (p : Pool)
    → Owns n u
    → alloc u.pool ≡ some (p, none)
    → Owns n (record { pool = p; held = u.held })
fails-Owns n u p o e = go o.idle o.queue o.whole
  where
    go :
        (idle : List ℕ)
        → Repr u.pool.fifo idle
        → Perm (idle ++ u.held) (below n)
        → Owns n (record { pool = p; held = u.held })
    go [] queue whole =
        let (q, run, h, cap) =
          alloc_lem n u (record { idle = []; queue = queue; size = o.size; whole = whole }) in
        let same : q ≡ p = cc in
        record { idle = []; queue = rw same at h; size = rw same at cap; whole = whole }
    go (x ∷ xs) queue whole =
        let (q, run, h, cap) =
          alloc_lem n u (record { idle = x ∷ xs; queue = queue; size = o.size; whole = whole }) in
        absurd (cc)

pub Owns-perm :
    (n : ℕ) (p : Pool) {held held' : List ℕ}
    → Perm held held'
    → Owns n (record { pool = p; held = held })
    → Owns n (record { pool = p; held = held' })
Owns-perm n p same o = record {
  idle = o.idle;
  queue = o.queue;
  size = o.size;
  whole = Perm.trans (Perm.append_left o.idle (Perm.symm same)) o.whole;
}

-- A block that is held goes back: there is room for it.
pub free_lem :
    (n : ℕ) (u : Use) (o : Owns n u) (b : ℕ)
    → 0 < length u.held
    → (p : Pool) × (free u.pool b ≡ some p)
      × Repr p.fifo (o.idle ++ (b ∷ []))
      × (p.fifo.capacity ≡ n)
unfolding free
free_lem n u o b some_held =
    let count = owned_count n u o in
    let (q, run, h, cap) = push_room u.pool.fifo o.idle b o.queue (omega (arith, o.size)) in
    (record u.pool { fifo = q }, rw run, h, cap ∙ o.size)

pub gives-Owns :
    (n : ℕ) (u : Use) (p : Pool) (before : List ℕ) (b : ℕ) (after : List ℕ)
    → Owns n u
    → u.held ≡ before ++ (b ∷ after)
    → free u.pool b ≡ some p
    → Owns n (record { pool = p; held = before ++ after })
gives-Owns n u p before b after o e f =
    let some_held : 0 < length u.held = rw e (omega (arith, length-append before (b ∷ after))) in
    let (q, run, h, cap) = free_lem n u o b some_held in
    let same : q ≡ p = cc in
    record {
      idle = o.idle ++ (b ∷ []);
      queue = rw same at h;
      size = rw same at cap;
      whole = rw append_assoc (
          Perm.trans (Perm.append_left o.idle (Perm.symm (perm_middle before after)))
            (rw e at o.whole));
    }

Step-Owns : (n : ℕ) {u v : Use} → Owns n u → Step u v → Owns n v
Step-Owns n {u} o (Step.takes p b e) = takes-Owns n u o.idle p b o.queue o.size o.whole e
Step-Owns n {u} o (Step.fails p e) = fails-Owns n u p o e
Step-Owns n {u} o (Step.gives p before b after e f) = gives-Owns n u p before b after o e f

pub reach-Owns : (n : ℕ) {u v : Use} → Owns n u → Reach u v → Owns n v
reach-Owns n o Reach.here = o
reach-Owns n o (Reach.next r s) = Step-Owns n (reach-Owns n o r) s
