-- ===== src/Cothread/Core.antt =====
-- src/cothread/co-scheduler.c: the scheduler of a thread, the requests that it takes, and its loop.
-- `none` as an outer result is an access outside a block of the queue or the pool.
pub mod Requests
pub mod Loop
use cuttle.Prelude.{
  ℕ, zero, suc, ◌*◌, ◌+◌, ◌-◌, ◌%◌, ◌/◌, ◌^◌, List, [], ◌∷◌, Option, none, some, Bool, true, false,
  not, ◌==◌, ◌>>=◌, if◌then◌else◌, bit_or, get_elem?, length,
}
use cuttle.Prelude.Int.{ℤ}
use cuttle.Cc.Fifo
use cuttle.Cc.Fifo.{Fifo}
use cuttle.Cc.LinkedList
use cuttle.Cc.LinkedList.{LinkedList}
use cuttle.Cothread.Waiter.{Waiter, unmasked_events, co_yield_flag}
use cuttle.Cothread.Walk.{Walk, Turn, walk_waiters_list}

-- `struct co_scheduler_context`; the coroutines are named by their addresses.
pub record Core : Type 0 where
  pub main : ℕ
  pub queue : Fifo ℕ
  pub waiters : LinkedList Waiter
  pub started : Bool
  pub csbusy : Bool

-- <errno.h>
abbrev pub ebusy : ℕ
ebusy = 16

abbrev pub enomem : ℕ
enomem = 12

abbrev pub default_thread_stack_size : ℕ
default_thread_stack_size = 1024 * 1024

-- The node is null where the list is full.
unfoldable pub add_waiter : Core → Waiter → Option (Core × Option ℕ)
add_waiter core w =
    LinkedList.push_back core.waiters (some (record w { mask = bit_or w.mask unmasked_events }))
    >>= (λ r. some (record core { waiters = r.0 }, r.1))

unfoldable pub remove_waiter : Core → Option ℕ → Option Core
remove_waiter core none = some core
remove_waiter core (some node) =
    LinkedList.erase core.waiters (some node) >>= (λ l. some (record core { waiters = l }))

-- `struct schedule_request`, without the function or the callback.
pub data Request : Type 0 where
  start_cothread : (stack_size : ℕ) → Request
  schedule_io : (so flags stack_size : ℕ) → Request

abbrev pub stack_of : ℕ → ℕ
stack_of stack_size = if stack_size == 0 then default_thread_stack_size else stack_size

-- What the request's calls return: `co_create` by the size of the stack, null or the coroutine;
-- `calloc` of the control block; `epoll_add`; and `errno` where one of them has failed.
pub record Answers : Type 0 where
  pub co_create : ℕ → Option ℕ
  pub calloc : Bool
  pub epoll_add : Bool
  pub errno : ℕ

abbrev pub errno_or_enomem : ℕ → ℕ
errno_or_enomem errno = if errno == 0 then enomem else errno

abbrev pub io_waiter : ℕ → ℕ → Waiter
io_waiter co flags = record {
  tmo = ℤ.negsuc 0;
  co = some co;
  mask = flags;
  events = 0;
  revents = 0;
  flags = 0;
}

unfoldable pub on_start : Core → Answers → ℕ → Option (Core × ℕ)
on_start core env stack_size =
    if Fifo.is_full core.queue
    then some (core, ebusy)
    else elim (env.co_create (stack_of stack_size)) [
      | none ↦ some (core, errno_or_enomem env.errno)
      | some co ↦ Fifo.push core.queue co >>= (λ r. some (record core { queue = r.0 }, 0))
    ]

-- From the new coroutine on.
unfoldable pub add_io : Core → Answers → ℕ → ℕ → Option (Core × ℕ)
unfolding add_waiter
add_io core env flags co = add_waiter core (io_waiter co flags) >>= (λ r. elim r.1 [
  | none ↦ some (r.0, errno_or_enomem env.errno)
  | some node ↦ some (r.0, if env.epoll_add then 0 else env.errno)
])

unfoldable pub on_io : Core → Answers → ℕ → ℕ → Option (Core × ℕ)
unfolding add_io
on_io core env flags stack_size =
    if Fifo.is_full core.queue
    then some (core, ebusy)
    else if not env.calloc
    then some (core, enomem)
    else elim (env.co_create (stack_of stack_size)) [
      | none ↦ some (core, errno_or_enomem env.errno)
      | some co ↦ add_io core env flags co
    ]

-- What `schedule_request_handler` does with a request, and the status that it sends back.
unfoldable pub handle : Core → Answers → Request → Option (Core × ℕ)
unfolding on_start on_io
handle core env (Request.start_cothread stack_size) = on_start core env stack_size
handle core env (Request.schedule_io so flags stack_size) = on_io core env flags stack_size

-- `co_schedule` and `co_schedule_io`: the scheduler that `rand()` names does the request. The flag is
-- the result; without a scheduler the remainder is undefined.
unfoldable pub schedule : List Core → ℕ → Answers → Request → Option (Core × Bool)
unfolding handle
schedule cores rand env rq =
    if length cores == 0
    then none
    else get_elem? cores (rand % length cores)
      >>= (λ core. handle core env rq)
      >>= (λ r. some (r.0, r.1 == 0))

-- A round of the test of `co_scheduler_lock`, under the spinlock: whether it gets the lock.
unfoldable pub co_scheduler_round : Core → Core × Bool
co_scheduler_round core =
    if core.csbusy then (core, false) else (record core { csbusy = true }, true)

unfoldable pub co_scheduler_unlock : Core → Core
co_scheduler_unlock core = record core { csbusy = false }

-- What the loop of `pclthread` does next.
pub data Action : Type 0 where
  starts : (co : ℕ) → Action
  calls : (cc : List ℕ) → Action
  sleeps : (tmo : ℕ) → Action

abbrev pub ccmax : ℕ
ccmax = 1000

-- A walk that has ended: who is called, or how long the thread waits. `exit(1)` and a fault are none.
unfoldable pub after_walk : Core → Turn → Option (Core × Action)
after_walk core (Turn.goes_on s) = none
after_walk core (Turn.done s) =
    let core' = record core { waiters = record core.waiters { item = s.item } } in
    some (core', (if length s.cc == 0 then Action.sleeps s.tmo else Action.calls s.cc))
after_walk core Turn.exits = none
after_walk core Turn.faults = none

-- One action of the loop: `ccfifo_pop`, and where the queue is empty a walk. The walk has no
-- scheduler data set before it.
unfoldable pub next_action : ℕ → Core → ℕ → Option (Core × Action)
unfolding after_walk
next_action fuel core now = Fifo.ppop core.queue >>= (λ r. elim r.1 [
  | some co ↦ some (record core { queue = r.0 }, Action.starts co)
  | none ↦ after_walk core (walk_waiters_list fuel now ccmax core.waiters (λ c. false))
])

-- The waiter of `co_sleep`, at the time `now`.
unfoldable pub sleep_waiter : ℕ → ℕ → ℕ → Waiter
sleep_waiter now co msec = record {
  tmo = ℤ.pos (now + msec);
  co = some co;
  mask = 0;
  events = 0;
  revents = 0;
  flags = if msec == 0 then co_yield_flag else 0;
}

-- `tv_sec` and `tv_nsec` of `co_sleep` in a thread, in 32 bits.
unfoldable pub thread_sleep : ℕ → ℕ × ℕ
thread_sleep msec = (msec / 1000, (msec - msec % 1000) * 1000000 % 2 ^ 32)
