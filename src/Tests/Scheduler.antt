-- ===== src/Tests/Scheduler.antt =====
-- Runs of the walk, the queues, the requests and the loop of src/cothread/co-scheduler.c.
use cuttle.Prelude.{
  ℕ, ◌+◌, ◌≤◌, ◌<◌, ◌≡◌, ◌≢◌, refl, [], ◌∷◌, List, Option, none, some, true, false, arith, ◌==◌,
  if◌then◌else◌, ap,
}
use cuttle.Prelude.Int.{ℤ}
use cuttle.Cc.Links.{Field, Chain, Distinct}
use cuttle.Cc.LinkedList.{LinkedList}
use cuttle.Cothread.Waiter.{Waiter}
use cuttle.Cothread.Walk.{Walk, Turn, walk_waiters_list, verdict, due}
use cuttle.Cothread.Walk.Scan.{Holds, fresh, ready}
use cuttle.Cothread.Walk.Result.{Found, walk_waiters_list_lem}
use cuttle.Cothread.Walk.Called.{Found-in_time}

-- Coroutine 70 yields, 71 has an event, 72 waits until 500.
abbrev yielding : Waiter
yielding = record {
  tmo = ℤ.pos 100;
  co = some 70;
  mask = 0x2018;
  events = 0;
  revents = 0;
  flags = 4;
}

abbrev reading : Waiter
reading = record {
  tmo = ℤ.negsuc 0;
  co = some 71;
  mask = 0x2019;
  events = 1;
  revents = 0;
  flags = 0;
}

abbrev sleeping : Waiter
sleeping = record {
  tmo = ℤ.pos 500;
  co = some 72;
  mask = 0x2018;
  events = 0;
  revents = 0;
  flags = 0;
}

abbrev three : List Waiter
three = yielding ∷ reading ∷ sleeping ∷ []

abbrev prev : Field
prev p = if p == 1 then some 0 else if p == 2 then some 1 else none

abbrev next : Field
next p = if p == 0 then some 1 else if p == 1 then some 2 else none

abbrev item : ℕ → Option Waiter
item p =
    if p == 0
    then some yielding
    else if p == 1
    then some reading
    else if p == 2
    then some sleeping
    else none

abbrev waiters : LinkedList Waiter
waiters = record {
  heap = record {
    blocks = true;
    fifo = record {
      items = 0 ∷ 1 ∷ 2 ∷ [];
      capacity = 3;
      size = 0;
      item_size = 8;
      first = 0;
      last = 0;
    };
  };
  prev = prev;
  next = next;
  item = item;
  head = some 0;
  tail = some 2;
  capacity = 3;
}

-- At 200 only 71 is called, and at once 70 has its turn; at 600 all are called, if there is room.
finds : Turn → List ℕ × ℕ
finds (Turn.goes_on s) = ([], 0)
finds (Turn.done s) = (s.cc, s.tmo)
finds Turn.exits = ([], 1)
finds Turn.faults = ([], 2)

at_200 : finds (walk_waiters_list 3 200 10 waiters (λ c. false)) ≡ (71 ∷ [], 0)
unfolding finds walk_waiters_list due
at_200 = refl

ready_at_600 : ready 600 three ≡ 71 ∷ 72 ∷ []
unfolding ready verdict due
ready_at_600 = refl

no_zero : {t : ℕ} → 0 < t → ℤ.pos t ≢ ℤ.pos 0
no_zero {t} h e = let z = ap (λ z. elim z [ ℤ.pos n ↦ n | ℤ.negsuc n ↦ 1 ]) e in omega arith

three-Chain : Chain prev next none (0 ∷ 1 ∷ 2 ∷ [])
three-Chain = (refl, refl, (refl, refl, (refl, refl, tt)))

three-Distinct : Distinct (0 ∷ 1 ∷ 2 ∷ [])
three-Distinct = (
  ((λ e. absurd (omega arith)), ((λ e. absurd (omega arith)), tt)),
  (((λ e. absurd (omega arith)), tt), (tt, tt)),
)

three-Holds : Holds item (0 ∷ 1 ∷ 2 ∷ []) three
three-Holds = (refl, no_zero (omega arith), (refl, (λ e. cc), (refl, no_zero (omega arith), tt)))

walk_waiters_list_lem_example :
    (s : Walk) × (walk_waiters_list 3 600 10 waiters (λ c. false) ≡ Turn.done s)
    × Found 600 10 (0 ∷ 1 ∷ 2 ∷ []) three s
walk_waiters_list_lem_example =
    walk_waiters_list_lem 3 600 10 waiters (0 ∷ 1 ∷ 2 ∷ []) three (omega arith) refl three-Chain
      three-Distinct three-Holds (omega arith)

-- 72 waits until 500, and a walk at 200 leaves at most 300.
abbrev resting : List Waiter
resting = sleeping ∷ []

abbrev alone : LinkedList Waiter
alone = record waiters { head = some 2; tail = some 2; prev = λ p. none; next = λ p. none }

alone_walk :
    (s : Walk) × (walk_waiters_list 1 200 10 alone (λ c. false) ≡ Turn.done s)
    × Found 200 10 (2 ∷ []) resting s
alone_walk =
    walk_waiters_list_lem 1 200 10 alone (2 ∷ []) resting (omega arith) refl (refl, refl, tt)
      (tt, tt) (refl, no_zero (omega arith), tt) (omega arith)

alone_found : alone_walk.0.cc ≡ []
unfolding ready verdict due fresh
alone_found = alone_walk.2.found

Found-in_time_example : 200 + alone_walk.0.tmo ≤ 500
Found-in_time_example =
    Found-in_time 200 10 72 500 (2 ∷ []) [] sleeping [] alone_walk.0 alone_walk.2 refl refl refl
      (λ e. absurd (omega arith)) (rw alone_found refl) (rw alone_found (omega arith))
