-- ===== src/Tests/Queues.antt =====
-- Runs of include/cuttle/ccfifo.h and include/cuttle/ccheap.h.
use mathlib.Core.List.{Mem, Nodup}
use mathlib.Core.List.Perm
use cuttle.Prelude.{
  ℕ, ◌<◌, ◌≡◌, refl, List, [], ◌∷◌, Option, none, some, true, false, arith, ltb, if◌then◌else◌, inr,
}
use cuttle.Cc.Fifo.{Fifo, init, cleanup, pop, ppop, ppeek_front, is_full, is_empty}
use cuttle.Cc.Fifo.Repr.{Repr}
use cuttle.Cc.Pool
use cuttle.Cc.Pool.{Pool}
use cuttle.Cc.Pool.Ownership.{Use, Step, Reach, Owns, below}
use cuttle.Cc.Pool.Safety.{Answers, reach_safe}

-- 8, then 9, round the end of a ring of three.
abbrev wrapped : Fifo ℕ
wrapped = record {
  items = 9 ∷ 7 ∷ 8 ∷ [];
  capacity = 3;
  size = 2;
  item_size = 4;
  first = 2;
  last = 1;
}

wrapped-Repr : Repr wrapped (8 ∷ 9 ∷ [])
wrapped-Repr = record {
  holds = (refl, (refl, tt));
  count = refl;
  fits = omega arith;
  first_in = omega arith;
  last_in = omega arith;
  behind = inr (omega arith);
  block = omega arith;
  word = omega arith;
}

abbrev cells : List ℕ
cells = 0 ∷ 0 ∷ 0 ∷ []

abbrev malloc : ℕ → Option (List ℕ)
malloc n = if ltb 24 n then none else some cells

fifo_runs :
    ((pop wrapped true ≡ some (record wrapped { size = 1; first = 0 }, true, some 8))
      × (pop wrapped false ≡ some (record wrapped { size = 1; first = 0 }, true, none))
      × (ppeek_front wrapped ≡ some (some 8))
      × (is_full wrapped ≡ false)
      × (is_empty wrapped ≡ false)
      × (is_empty (cleanup wrapped) ≡ true)
      × ((init malloc wrapped 4 8).1 ≡ false))
unfolding pop ppeek_front cleanup init
fifo_runs = (refl, refl, refl, refl, refl, refl, refl)

-- A pool of two blocks, as `init` leaves it.
abbrev pool : Pool
pool = record {
  blocks = true;
  fifo = record {
    items = 1 ∷ 0 ∷ 0 ∷ [];
    capacity = 2;
    size = 2;
    item_size = 8;
    first = 0;
    last = 0;
  };
}

abbrev fresh : Use
fresh = record { pool = pool; held = [] }

fresh-Owns : Owns 2 fresh
unfolding below
fresh-Owns = record {
  idle = 1 ∷ 0 ∷ [];
  queue = record {
    holds = (refl, (refl, tt));
    count = refl;
    fits = omega arith;
    first_in = omega arith;
    last_in = omega arith;
    behind = inr (omega arith);
    block = omega arith;
    word = omega arith;
  };
  size = refl;
  whole = Perm.refl (1 ∷ 0 ∷ []);
}

-- One block taken.
abbrev left : Pool
left = record pool {
  fifo = record {
    items = 1 ∷ 0 ∷ 0 ∷ [];
    capacity = 2;
    size = 1;
    item_size = 8;
    first = 1;
    last = 0;
  };
}

abbrev used : Use
used = record { pool = left; held = 1 ∷ [] }

used-Reach : Reach fresh used
unfolding Pool.alloc ppop pop
used-Reach = Reach.next Reach.here (Step.takes left 1 refl)

reach_safe_example : Nodup used.held × ((b : ℕ) → Mem b used.held → b < 2) × Answers 2 used
reach_safe_example = reach_safe 2 fresh-Owns used-Reach
