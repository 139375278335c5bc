-- ===== src/Cothread/Walk.antt =====
-- src/cothread/co-scheduler.c: the walk of a scheduler through its waiters, which finds the
-- coroutines to call and the time to wait.
pub mod Scan
mod Found
mod Round
pub mod Result
pub mod Called
pub mod Yield
use cuttle.Prelude.{
  ℕ, zero, suc, ◌-◌, ◌^◌, List, [], ◌∷◌, ◌++◌, Option, none, some, Bool, true, false, ◌||◌, ltb,
  leb, ◌==◌, if◌then◌else◌, bit_and, length,
}
use cuttle.Prelude.Int.{ℤ}
use cuttle.Prelude.Bits.{test, complement}
use cuttle.Cc.Links.{Field}
use cuttle.Cc.LinkedList.{LinkedList, put_item}
use cuttle.Cothread.Waiter.{Waiter, mtx_wakeup_event, co_yield_flag}

-- What the loop works on: the waiters in memory, the coroutines whose scheduler data is set, the
-- coroutines found, in the order of the array `cc`, and the time to wait.
pub record Walk : Type 0 where
  pub item : ℕ → Option Waiter
  pub marked : ℕ → Bool
  pub cc : List ℕ
  pub tmo : ℕ

-- How the loop takes a waiter with a coroutine.
pub data Verdict : Type 0 where
  yields : Verdict
  signaled : Verdict
  waits : (dt : ℕ) → Verdict
  sleeps : Verdict
  bug : Verdict

-- The end of a round, and of the walk: the loop goes on, it is left at `break`, `exit(1)` is called,
-- or a waiter is not in memory.
pub data Turn : Type 0 where
  goes_on : Walk → Turn
  done : Walk → Turn
  exits : Turn
  faults : Turn

abbrev pub int_max : ℕ
int_max = 2 ^ 31 - 1

unfoldable pub due : ℕ → ℤ → Verdict
due ct (ℤ.pos zero) = Verdict.bug
due ct (ℤ.pos (suc t)) = if leb (suc t) ct then Verdict.signaled else Verdict.waits (suc t - ct)
due ct (ℤ.negsuc n) = Verdict.sleeps

unfoldable pub verdict : ℕ → Waiter → Verdict
verdict ct w =
    if test w.flags co_yield_flag
    then Verdict.yields
    else if test w.events w.mask || test w.flags mtx_wakeup_event
    then Verdict.signaled
    else due ct w.tmo

unfoldable pub mark : (ℕ → Bool) → ℕ → Bool → ℕ → Bool
mark marked co b c = if c == co then b else marked c

abbrev pub taken : Waiter → Waiter
taken w = record w { revents = w.events; events = bit_and w.events (complement w.mask) }

abbrev pub yielded : Waiter → Waiter
yielded w = record w { flags = bit_and w.flags (complement co_yield_flag) }

unfoldable pub add_signaled : Walk → ℕ → Waiter → ℕ → Walk
unfolding put_item
add_signaled s p w co = record s {
  item = put_item s.item p (taken w);
  marked = if s.marked co then s.marked else mark s.marked co true;
  cc = if s.marked co then s.cc else s.cc ++ (co ∷ []);
}

unfoldable pub react : ℕ → Walk → ℕ → Waiter → ℕ → Verdict → Turn
unfolding add_signaled put_item
react ccmax s p w co Verdict.yields =
    Turn.goes_on (record s { item = put_item s.item p (yielded w); tmo = 0 })
react ccmax s p w co Verdict.signaled =
    let s' = add_signaled s p w co in
    if length s'.cc == ccmax then Turn.done s' else Turn.goes_on s'
react ccmax s p w co (Verdict.waits dt) =
    Turn.goes_on (record s { tmo = if ltb dt s.tmo then dt else s.tmo })
react ccmax s p w co Verdict.sleeps = Turn.goes_on s
react ccmax s p w co Verdict.bug = Turn.exits

-- The body of the loop, for the waiter of the node `p`.
unfoldable pub turn : ℕ → ℕ → Walk → ℕ → Turn
unfolding react verdict
turn ct ccmax s p = elim (s.item p) [
  | none ↦ Turn.faults
  | some w ↦ elim w.co [ none ↦ Turn.goes_on s | some co ↦ react ccmax s p w co (verdict ct w) ]
]

abbrev pub continue : Turn → (Walk → Turn) → Turn
continue (Turn.goes_on s) f = f s
continue (Turn.done s) f = Turn.done s
continue Turn.exits f = Turn.exits
continue Turn.faults f = Turn.faults

-- The loop, on fuel.
unfoldable pub walk_from : ℕ → ℕ → ℕ → Field → Walk → Option ℕ → Turn
unfolding turn
walk_from fuel ct ccmax next s none = Turn.goes_on s
walk_from zero ct ccmax next s (some p) = Turn.faults
walk_from (suc fuel) ct ccmax next s (some p) =
    continue (turn ct ccmax s p) (λ s'. walk_from fuel ct ccmax next s' (next p))

-- The loop that resets the scheduler data.
unfoldable pub unmark : (ℕ → Bool) → List ℕ → ℕ → Bool
unfolding mark
unmark marked [] = marked
unmark marked (co ∷ cc) = unmark (mark marked co false) cc

-- A walk that has come to its end, or `exits` and `faults` as they are.
abbrev pub finish : Turn → Turn
finish (Turn.goes_on s) = Turn.done (record s { marked = unmark s.marked s.cc })
finish (Turn.done s) = Turn.done (record s { marked = unmark s.marked s.cc })
finish Turn.exits = Turn.exits
finish Turn.faults = Turn.faults

unfoldable pub walk_waiters_list : ℕ → ℕ → ℕ → LinkedList Waiter → (ℕ → Bool) → Turn
unfolding walk_from unmark
walk_waiters_list fuel ct ccmax waiters marked = finish (
    walk_from fuel ct ccmax waiters.next
      (record { item = waiters.item; marked = marked; cc = []; tmo = int_max }) waiters.head)
