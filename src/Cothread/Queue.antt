-- ===== src/Cothread/Queue.antt =====
-- src/cothread/co-scheduler.c: the queue of the waiters on a socket or an event, `struct iorq`, and
-- the functions that go through it. A waiter is named by its address.
pub mod Refine
pub mod Notify
use cuttle.Prelude.{
  ℕ, zero, suc, ◌+◌, ◌≡◌, List, Option, none, some, Bool, true, false, not, ◌&&◌, ◌||◌, ◌==◌,
  if◌then◌else◌, bit_or,
}
use cuttle.Prelude.Int.{ℤ, below_one}
use cuttle.Prelude.Bits.{test}
use cuttle.Cc.Links.{Field, update, relink, points_at}
use cuttle.Cc.LinkedList.{is_null}
use cuttle.Cothread.Waiter.{Waiter}

-- `iowait_io` and `iowait_eventfd`
abbrev pub iowait_io : ℕ
iowait_io = 0

abbrev pub iowait_eventfd : ℕ
iowait_eventfd = 1

pub record Iorq : Type 0 where
  pub head : Option ℕ
  pub tail : Option ℕ
  pub so : ℤ
  pub kind : ℕ

-- A queue, with the links `prev` and `next` of all waiters.
pub record Queue : Type 0 where
  pub prev : Field
  pub next : Field
  pub e : Iorq

abbrev pub known_kind : Iorq → Bool
known_kind e = (e.kind == iowait_io) || (e.kind == iowait_eventfd)

-- Both ends are null or neither is, and the head is not the address that the check names.
abbrev pub ends_agree : Iorq → Bool
ends_agree e =
    ((not (is_null e.head) && not (is_null e.tail)) || (is_null e.head && is_null e.tail))
    && not (points_at e.head 0x3100000004)

-- `!E_CHECK(e)` as the macro expands: `!` takes only its first part, the parenthesis of the kind.
unfoldable pub not_e_check : Iorq → Bool
not_e_check e = not (known_kind e) && (not (below_one e.so) && ends_agree e)

-- What is not `E_CHECK(e)`.
unfoldable pub is_broken : Iorq → Bool
is_broken e = not (known_kind e && (not (below_one e.so) && ends_agree e))

-- `raise(SIGINT)` ends the program: `none`.
abbrev pub checked : Queue → Option Queue
checked q = if not_e_check q.e then none else some q

-- The links and the ends, for a waiter that is not null.
unfoldable pub link : Queue → ℕ → Queue
link q w =
    let cleared = update q.next w none in
    let head = if is_null q.e.head then some w else q.e.head in
    elim q.e.tail [
      | none ↦ record {
        prev = update q.prev w none;
        next = cleared;
        e = record { head = head; tail = some w; so = q.e.so; kind = q.e.kind };
      }
      | some t ↦ record {
        prev = update q.prev w (some t);
        next = update cleared t (some w);
        e = record { head = head; tail = some w; so = q.e.so; kind = q.e.kind };
      }
    ]

unfoldable pub unlink : Queue → ℕ → Queue
unlink q w =
    let tail = if points_at q.e.tail w then q.prev w else q.e.tail in
    let next = relink q.next (q.prev w) (q.next w) in
    let prev = relink q.prev (next w) (q.prev w) in
    let head = if points_at q.e.head w then next w else q.e.head in
    record {
      prev = prev;
      next = next;
      e = record { head = head; tail = tail; so = q.e.so; kind = q.e.kind };
    }

abbrev pub bind : Option Queue → (Queue → Option Queue) → Option Queue
bind none f = none
bind (some q) f = f q

unfoldable pub epoll_queue : Queue → Option ℕ → Option Queue
unfolding link not_e_check
epoll_queue q none = checked q
epoll_queue q (some w) = bind (checked q) (λ q. checked (link q w))

unfoldable pub epoll_dequeue : Queue → Option ℕ → Option Queue
unfolding unlink not_e_check
epoll_dequeue q none = some q
epoll_dequeue q (some w) = bind (checked q) (λ q. checked (unlink q w))

-- The waiters in memory.
abbrev pub Memory : Type 0
Memory = ℕ → Waiter

unfoldable pub write : Memory → ℕ → Waiter → Memory
write m p w q = if q == p then w else m q

abbrev pub has_co : Waiter → Bool
has_co w = not (is_null w.co)

abbrev pub raised : ℕ → Waiter → Waiter
raised events w = record w { events = bit_or w.events events }

-- `((w->events |= events) & w->mask) && w->co`, of the waiter after it.
abbrev pub counts : Waiter → Bool
counts w = test w.events w.mask && has_co w

-- The loop of `epoll_listener_thread` through the waiters of an event, on fuel: the waiters, and how
-- many count. `none` is a loop that has run out of fuel.
unfoldable pub notify : ℕ → Field → ℕ → Memory → ℕ → Option ℕ → Option (Memory × ℕ)
unfolding write
notify fuel next events m c none = some (m, c)
notify zero next events m c (some p) = none
notify (suc fuel) next events m c (some p) =
    let w = raised events (m p) in
    notify fuel next events (write m p w) (if counts w then c + 1 else c) (next p)

-- What `epoll_listener_thread` makes of one event, under its lock: the waiters, whether it reads the
-- counter of the eventfd down, and whether it signals.
unfoldable pub on_event : ℕ → Queue → ℕ → Memory → Option (Memory × Bool × Bool)
unfolding notify
on_event fuel q events m = elim (notify fuel q.next events m 0 q.e.head) [
  | none ↦ none
  | some (m', c) ↦ some (m', q.e.kind == iowait_eventfd, not (c == 0))
]

-- The loop of `co_socket_close` through the waiters of the socket: `w->events |= w->mask`.
unfoldable pub wake_all : ℕ → Field → Memory → Option ℕ → Option Memory
unfolding write
wake_all fuel next m none = some m
wake_all zero next m (some p) = none
wake_all (suc fuel) next m (some p) =
    wake_all fuel next (write m p (raised (m p).mask (m p))) (next p)
