-- ===== src/Tests/Lists.antt =====
-- Runs of include/cuttle/cclist.h.
use mathlib.Core.List.Perm
use cuttle.Prelude.{
  ℕ, ◌+◌, ◌≡◌, refl, [], ◌∷◌, Option, none, some, true, arith, ◌==◌, if◌then◌else◌, inr,
}
use cuttle.Cc.Links.{Field}
use cuttle.Cc.Pool.{Pool}
use cuttle.Cc.Pool.Ownership.{below}
use cuttle.Cc.LinkedList.{LinkedList, erase}
use cuttle.Cc.LinkedList.Order.{IsList, erase-IsList}

-- Nodes 2 and 1 of a pool of three are linked in this order, and 0 is free.
abbrev pool : Pool
pool = record {
  blocks = true;
  fifo = record {
    items = 2 ∷ 1 ∷ 0 ∷ [];
    capacity = 3;
    size = 1;
    item_size = 8;
    first = 2;
    last = 0;
  };
}

abbrev prev : Field
prev p = if p == 1 then some 2 else none

abbrev next : Field
next p = if p == 2 then some 1 else none

abbrev item : ℕ → Option ℕ
item p = some (p + 10)

abbrev two : LinkedList ℕ
two = record {
  heap = pool;
  prev = prev;
  next = next;
  item = item;
  head = some 2;
  tail = some 1;
  capacity = 3;
}

two-IsList : IsList 3 two (2 ∷ 1 ∷ [])
unfolding below
two-IsList = record {
  first = refl;
  last = refl;
  chain = (refl, refl, (refl, refl, tt));
  distinct = (((λ e. absurd (omega arith)), tt), (tt, tt));
  owns = record {
    idle = 0 ∷ [];
    queue = record {
      holds = (refl, tt);
      count = refl;
      fits = omega arith;
      first_in = omega arith;
      last_in = omega arith;
      behind = inr (omega arith);
      block = omega arith;
      word = omega arith;
    };
    size = refl;
    whole = Perm.trans (Perm.swap 2 0 (1 ∷ [])) (Perm.cons 2 (Perm.swap 1 0 []));
  };
}

erase-IsList_example :
    (r : LinkedList ℕ) × (erase two (some 2) ≡ some r) × IsList 3 r (1 ∷ []) × (r.item ≡ item)
erase-IsList_example = erase-IsList 3 two [] 2 (1 ∷ []) two-IsList
