-- ===== src/Cothread/Core/Requests.antt =====
-- What a request to a scheduler does.
use cuttle.Prelude.{
  ℕ, ◌≡◌, ◌≢◌, refl, List, [], ◌∷◌, ◌++◌, Option, none, some, Bool, true, false, arith,
  if◌then◌else◌, length, ltb, bit_or, Bool-cases, inl, inr, Option-cases, subst,
}
use cuttle.Cc.Fifo
use cuttle.Cc.Fifo.{Fifo}
use cuttle.Cc.Fifo.Repr.{Repr, push-Repr, enqueue}
use cuttle.Cc.LinkedList.Order.{IsList}
use cuttle.Cothread.Waiter.{Waiter, unmasked_events}
use cuttle.Cothread.Core.{
  Core, Answers, Request, handle, on_start, io_waiter, stack_of, ebusy, errno_or_enomem,
}

has_room :
    (q : Fifo ℕ) (xs : List ℕ)
    → Repr q xs
    → Fifo.is_full q ≡ false
    → ltb (length xs) q.capacity ≡ true
has_room q xs h e = let count = h.count in let fits = h.fits in ground arith

enqueued :
    (q : Fifo ℕ) (xs : List ℕ) (x : ℕ)
    → ltb (length xs) q.capacity ≡ true
    → enqueue q.capacity xs x ≡ xs ++ (x ∷ [])
unfolding enqueue
enqueued q xs x e = rw e refl

-- The status of a request to start a coroutine.
abbrev pub start_status : Bool → Option ℕ → ℕ → ℕ
start_status true co errno = ebusy
start_status false none errno = errno_or_enomem errno
start_status false (some co) errno = 0

-- The queue after it.
abbrev pub queued : Bool → Option ℕ → List ℕ → List ℕ
queued true co xs = xs
queued false none xs = xs
queued false (some co) xs = xs ++ (co ∷ [])

-- A request to start a coroutine puts the new coroutine behind those that wait for their start;
-- with a full queue, or without a coroutine, nothing changes, and the status says why.
pub handle-start :
    (core : Core) (env : Answers) (stack_size : ℕ) (xs : List ℕ)
    → Repr core.queue xs
    → (r : Core) × (handle core env (Request.start_cothread stack_size)
        ≡ some (
          r,
          start_status (Fifo.is_full core.queue) (env.co_create (stack_of stack_size)) env.errno,
        ))
      × Repr r.queue (queued (Fifo.is_full core.queue) (env.co_create (stack_of stack_size)) xs)
      × (r.waiters ≡ core.waiters)
unfolding handle on_start
handle-start core env stack_size xs h = elim (Bool-cases (Fifo.is_full core.queue)) [
  | inl full ↦ (core, rw (on_start, full) refl, rw full h, refl)
  | inr free ↦ elim (Option-cases (env.co_create (stack_of stack_size))) [
    | inl e ↦ (core, rw (on_start, free, e) refl, rw (free, e) h, refl)
    | inr (co, e) ↦
        let (q, run, h', _) = push-Repr core.queue xs co h in
        let room : ltb (length xs) core.queue.capacity ≡ true = has_room core.queue xs h free in
        (
          record core { queue = q },
          rw (on_start, free, e, run) refl,
          rw (free, e) (subst (Repr q) (enqueued core.queue xs co room) h'),
          refl,
        )
  ]
]

-- The waiter of a request for a socket, with the events that nobody can mask.
abbrev pub unmasked : Waiter → Waiter
unmasked w = record w { mask = bit_or w.mask unmasked_events }

-- What a request for a socket does to a list of the waiters `ps`: its coroutine waits for the events
-- in a new node behind the others, and the status is that of `epoll_add`; or the list is full.
pub data Watches (n : ℕ) (core : Core) (env : Answers) (ps : List ℕ) (flags co stack_size so : ℕ)
    : Type 0 where
  watches :
      (r : Core) (node : ℕ)
      → handle core env (Request.schedule_io so flags stack_size)
        ≡ some (r, if env.epoll_add then 0 else env.errno)
      → IsList n r.waiters (ps ++ (node ∷ []))
      → r.waiters.item node ≡ some (unmasked (io_waiter co flags))
      → ((q : ℕ) → q ≢ node → r.waiters.item q ≡ core.waiters.item q)
      → r.queue ≡ core.queue
      → Watches n core env ps flags co stack_size so
  no_node :
      (r : Core)
      → handle core env (Request.schedule_io so flags stack_size)
        ≡ some (r, errno_or_enomem env.errno)
      → IsList n r.waiters ps
      → length ps ≡ n
      → r.queue ≡ core.queue
      → Watches n core env ps flags co stack_size so
