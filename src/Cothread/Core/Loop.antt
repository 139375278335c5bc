-- ===== src/Cothread/Core/Loop.antt =====
-- The loop of a scheduler: new coroutines first, in the order of their requests, and then a walk.
use cuttle.Prelude.{
  ℕ, ◌≤◌, ◌<◌, ◌≡◌, refl, List, [], ◌∷◌, none, some, arith, ◌==◌, if◌then◌else◌, length, ◌*◌, ◌-◌,
  ◌%◌, ◌/◌, ◌^◌,
}
use cuttle.Cc.Fifo.Repr.{Repr, ppop-Repr}
use cuttle.Cc.Links.{front, Distinct, Chain}
use cuttle.Cothread.Waiter.{Waiter}
use cuttle.Cothread.Walk.{Walk}
use cuttle.Cothread.Walk.Scan.{Holds}
use cuttle.Cothread.Walk.Result.{Found, walk_waiters_list_lem}
use cuttle.Cothread.Core.{Core, Action, next_action, after_walk, ccmax, thread_sleep}

abbrev pub action_of : Walk → Action
action_of s = if length s.cc == 0 then Action.sleeps s.tmo else Action.calls s.cc

-- What the loop does at the time `now`, where `xs` wait for their start and the nodes `ps` hold `ws`:
-- it starts the first of `xs`, or calls whom a walk finds, or sleeps as long as the walk says.
pub Acts : ℕ → List ℕ → List ℕ → List Waiter → Core → Action → Type 0
Acts now [] ps ws core action =
    (s : Walk) × Found now ccmax ps ws s
    × (action ≡ action_of s)
    × ((p : ℕ) → core.waiters.item p ≡ s.item p)
Acts now (x ∷ xs) ps ws core action = (action ≡ Action.starts x) × Repr core.queue xs

-- On a well-formed queue of new coroutines and list of waiters in which no deadline is 0, the loop
-- of a scheduler always has something to do: it starts the first of the new coroutines, or where
-- there is none calls whom a walk finds, or where there is none of these sleeps as long as the
-- walk says.
pub next_action-Acts :
    (fuel now : ℕ) (core : Core) (xs ps : List ℕ) (ws : List Waiter)
    → Repr core.queue xs
    → core.waiters.head ≡ front ps
    → Chain core.waiters.prev core.waiters.next none ps
    → Distinct ps
    → Holds core.waiters.item ps ws
    → length ps ≤ fuel
    → (core' : Core) × (action : Action) × (next_action fuel core now ≡ some (core', action))
      × Acts now xs ps ws core' action
unfolding next_action Acts
next_action-Acts fuel now core [] ps ws h first chain distinct held enough =
    let (q, pop, h', _) = ppop-Repr core.queue [] h in
    let (s, run, f) =
      walk_waiters_list_lem fuel now ccmax core.waiters ps ws (omega arith) first chain distinct
        held enough in
    (
      record core { waiters = record core.waiters { item = s.item } },
      action_of s,
      (unfold after_walk in rw (next_action, pop, run) refl),
      (s, f, refl, λ p. refl),
    )
next_action-Acts fuel now core (x ∷ xs) ps ws h first chain distinct held enough =
    let (q, pop, h', _) = ppop-Repr core.queue (x ∷ xs) h in
    (record core { queue = q }, Action.starts x, rw (next_action, pop) refl, (refl, h'))

-- A thread outside the scheduler that asks `co_sleep` for less than a second does not sleep.
pub thread_sleep-short : (msec : ℕ) → msec < 1000 → thread_sleep msec ≡ (0, 0)
unfolding thread_sleep
thread_sleep-short msec h =
    let none_left : (msec - msec % 1000) * 1000000 % 2 ^ 32 ≡ 0 = omega arith in
    let no_second : msec / 1000 ≡ 0 = omega arith in rw (none_left, no_second) refl
