-- ===== src/Cothread/Lock.antt =====
-- src/cothread/co-scheduler.c: the locks of coroutines and threads, with waits and signals. Who asks
-- is named by a number, the address of a coroutine or the value of `pthread_self()`. All functions
-- hold one global mutex; a loop that gives it up between its rounds gets what it finds as an
-- argument.
pub mod Exclusion
mod Flags
pub mod Signal
pub mod Wait
use cuttle.Prelude.{
  ℕ, zero, suc, ◌+◌, ◌≤◌, ◌≡◌, List, [], ◌∷◌, Option, none, some, Bool, true, false, not, ◌&&◌,
  ◌||◌, ◌==◌, ltb, if◌then◌else◌, bit_or,
}
use cuttle.Prelude.Int.{ℤ}
use cuttle.Prelude.Bits.{test}
use cuttle.Cc.Links.{Field, points_at}
use cuttle.Cc.LinkedList.{is_null}
use cuttle.Cothread.Waiter.{Waiter, mtx_wakeup_waiting, mtx_wakeup_event, deadline, epollin}
use cuttle.Cothread.Queue.{Memory, write, Iorq, iowait_eventfd}

pub record Lock : Type 0 where
  pub e : Iorq
  pub co : Option ℕ

-- How `co_thread_lock_init_internal` ends: with the lock, or with null, and then with the descriptor
-- that it has closed.
pub data Made : Type 0 where
  made : Lock → Made
  failed : (closed : Option ℤ) → Made

abbrev pub is_minus_one : ℤ → Bool
is_minus_one (ℤ.negsuc zero) = true
is_minus_one (ℤ.negsuc (suc n)) = false
is_minus_one (ℤ.pos n) = false

abbrev pub is_zero : ℤ → Bool
is_zero (ℤ.pos zero) = true
is_zero (ℤ.pos (suc n)) = false
is_zero (ℤ.negsuc n) = false

-- The code from `end` on, where the lock is not made.
unfoldable pub unmake : ℤ → Made
unmake so = Made.failed (if is_minus_one so then none else some so)

-- The arguments are what `calloc`, `eventfd`, `set_non_blocking` and `epoll_add` return.
unfoldable pub lock_init_internal : Bool → ℤ → Bool → Bool → Made
unfolding unmake
lock_init_internal false so non_blocking added = Made.failed none
lock_init_internal true so non_blocking added =
    if is_zero so
    then unmake so
    else if not non_blocking
    then unmake so
    else if not added
    then unmake so
    else Made.made (record {
      e = record { head = none; tail = none; so = so; kind = iowait_eventfd };
      co = none;
    })

-- `co_thread_check`: null for no lock, and for a lock that `self` does not hold. Both also raise
-- SIGINT.
unfoldable pub co_thread_check : Option Lock → ℕ → Option Lock
co_thread_check none self = none
co_thread_check (some obj) self = if points_at obj.co self then some obj else none

-- A round of the loop of `co_thread_lock_internal`, with what follows where it ends: whether `self`
-- has the lock.
unfoldable pub lock_round : Lock → ℕ → Lock × Bool
lock_round obj self = if is_null obj.co then (record obj { co = some self }, true) else (obj, false)

-- The write to the eventfd and the broadcast are what wakes the loops that wait.
unfoldable pub unlock_internal : Lock → Lock
unlock_internal obj = record obj { co = none }

-- The lock after it, and whether it was given up.
unfoldable pub co_thread_unlock : Option Lock → ℕ → Option Lock × Bool
unfolding co_thread_check unlock_internal
co_thread_unlock objp self = elim (co_thread_check objp self) [
  | none ↦ (objp, false)
  | some obj ↦ (some (unlock_internal obj), true)
]

abbrev pub woken : Waiter → Waiter
woken w =
    if test w.flags mtx_wakeup_event
    then w
    else record w { flags = bit_or w.flags mtx_wakeup_event }

-- The loop of `co_thread_signal_internal`, on fuel; `bc` is for a broadcast.
unfoldable pub signal_from : ℕ → Field → Bool → Memory → ℕ → Option ℕ → Option (Memory × ℕ)
unfolding write
signal_from fuel next bc m nb none = some (m, nb)
signal_from zero next bc m nb (some p) = none
signal_from (suc fuel) next bc m nb (some p) = elim (test (m p).flags mtx_wakeup_waiting) [
  | false ↦ signal_from fuel next bc m nb (next p)
  | true ↦ elim bc [
    | false ↦ some (write m p (woken (m p)), nb + 1)
    | true ↦ signal_from fuel next true (write m p (woken (m p))) (nb + 1) (next p)
  ]
]

-- The result is -1, as `none`, where `self` does not hold the lock.
unfoldable pub signal_internal :
    ℕ → Field → Option Lock → ℕ → Bool → Memory → Option (Memory × Option ℕ)
unfolding signal_from co_thread_check
signal_internal fuel next objp self bc m = elim (co_thread_check objp self) [
  | none ↦ some (m, none)
  | some obj ↦ elim (signal_from fuel next bc m 0 obj.e.head) [
    | none ↦ none
    | some (m', nb) ↦ some (m', some nb)
  ]
]

-- The waiter that `co_thread_wait` queues, at the time `now`: for a coroutine, and for a thread.
unfoldable pub wait_waiter : ℕ → Option ℕ → ℤ → Waiter
unfolding deadline
wait_waiter now co tmo = record {
  tmo = deadline now tmo;
  co = co;
  mask = elim co [ none ↦ 0 | some c ↦ epollin ];
  events = 0;
  revents = 0;
  flags = mtx_wakeup_waiting;
}

abbrev pub in_time : ℤ → ℕ → Bool
in_time (ℤ.pos t) now = ltb now t
in_time (ℤ.negsuc n) now = true

-- The loop of `co_thread_wait`, over what its rounds find: the waiter, and the time. The result is
-- the status; none where the loop has not ended.
unfoldable pub wait_loop : List (Waiter × ℕ) → Option Bool
wait_loop [] = none
wait_loop ((w, now) ∷ seen) =
    if test w.flags mtx_wakeup_event
    then some true
    else if in_time w.tmo now
    then wait_loop seen
    else some false
