-- ===== src/Tests/Requests.antt =====
-- Runs of the requests, the loop and the transfers of src/cothread/co-scheduler.c.
use mathlib.Core.List.Perm
use cuttle.Prelude.{ℕ, ◌≡◌, refl, [], ◌∷◌, List, none, some, true, false, arith, inl, inr}
use cuttle.Prelude.Int.{ℤ}
use cuttle.Cc.Fifo.Repr.{Repr}
use cuttle.Cc.LinkedList.Order.{IsList, IsList-item}
use cuttle.Cc.Pool.Ownership.{below}
use cuttle.Cothread.Waiter.{Waiter, epollin, epollout}
use cuttle.Cothread.Core.{
  Core, Answers, Request, Action, handle, next_action, schedule, remove_waiter, co_scheduler_round,
  co_scheduler_unlock, thread_sleep,
}
use cuttle.Cothread.Core.Requests.{handle-start}
use cuttle.Cothread.Core.Loop.{Acts, next_action-Acts}
use cuttle.Cothread.Io.{
  Answer, Sent, Got, co_send, co_write, co_recv, socket_send_loop, nothing_sent, send_deadline,
  next_deadline,
}
use cuttle.Cothread.Io.Transmit.{IsPrefix, IsWhole, co_send-IsPrefix, co_send-IsWhole, takes}
use cuttle.Cothread.Io.Left.{Waited, co_io_wait-Waited}

-- A scheduler with coroutine 40 waiting for its start, and no waiter in a list for two.
abbrev core : Core
core = record {
  main = 1;
  queue = record {
    items = 40 ∷ 0 ∷ 0 ∷ [];
    capacity = 3;
    size = 1;
    item_size = 8;
    first = 0;
    last = 1;
  };
  waiters = record {
    heap = record {
      blocks = true;
      fifo = record {
        items = 1 ∷ 0 ∷ [];
        capacity = 2;
        size = 2;
        item_size = 8;
        first = 0;
        last = 0;
      };
    };
    prev = λ p. none;
    next = λ p. none;
    item = λ p. none;
    head = none;
    tail = none;
    capacity = 2;
  };
  started = true;
  csbusy = false;
}

core-Repr : Repr core.queue (40 ∷ [])
core-Repr = record {
  holds = (refl, tt);
  count = refl;
  fits = omega arith;
  first_in = omega arith;
  last_in = omega arith;
  behind = inl (omega arith);
  block = omega arith;
  word = omega arith;
}

core-IsList : IsList 2 core.waiters []
unfolding below
core-IsList = record {
  first = refl;
  last = refl;
  chain = tt;
  distinct = tt;
  owns = record {
    idle = 1 ∷ 0 ∷ [];
    queue = record {
      holds = (refl, (refl, tt));
      count = refl;
      fits = omega arith;
      first_in = omega arith;
      last_in = omega arith;
      behind = inr (omega arith);
      block = omega arith;
      word = omega arith;
    };
    size = refl;
    whole = Perm.refl (1 ∷ 0 ∷ []);
  };
}

abbrev works : Answers
works = record { co_create = λ n. some 50; calloc = true; epoll_add = true; errno = 0 }

handle-start_example :
    (r : Core) × (handle core works (Request.start_cothread 0) ≡ some (r, 0))
    × Repr r.queue (40 ∷ 50 ∷ [])
    × (r.waiters ≡ core.waiters)
handle-start_example = handle-start core works 0 (40 ∷ []) core-Repr

next_action-Acts_example :
    (r : Core) × (a : Action) × (next_action 0 core 10 ≡ some (r, a)) × Acts 10 (40 ∷ []) [] [] r a
next_action-Acts_example =
    next_action-Acts 0 10 core (40 ∷ []) [] [] core-Repr refl tt tt tt (omega arith)

-- Five bytes go out in two calls, with a wait between them; then a call fails after two.
abbrev text : List ℕ
text = 104 ∷ 101 ∷ 108 ∷ 108 ∷ 111 ∷ []

abbrev answers : List Answer
answers = Answer.took 2 ∷ Answer.again epollout ∷ Answer.took 1 ∷ Answer.took 1 ∷ Answer.took 1 ∷ []

abbrev breaks_off : List Answer
breaks_off = Answer.took 2 ∷ Answer.failed (ℤ.negsuc 0) ∷ []

transfers :
    (co_send breaks_off text ≡ some (record { count = 2; wire = 104 ∷ 101 ∷ [] }))
    × (co_write breaks_off text ≡ some (record { count = 2; wire = 104 ∷ 101 ∷ [] }))
    × (socket_send_loop breaks_off text nothing_sent ≡ some (ℤ.negsuc 0, 104 ∷ 101 ∷ []))
    × (co_recv (Got.again true ∷ Got.bytes text ∷ []) ≡ some (some text))
    × (send_deadline 100 (ℤ.pos 30) ≡ ℤ.pos 130)
    × (next_deadline 100 (ℤ.pos 30) (ℤ.pos 130) ≡ ℤ.pos 30100)
unfolding co_send co_write socket_send_loop co_recv send_deadline next_deadline
transfers = (refl, refl, refl, refl, refl, refl)

co_send-IsPrefix_example : IsPrefix text (record { count = 2; wire = 104 ∷ 101 ∷ [] })
co_send-IsPrefix_example =
    co_send-IsPrefix breaks_off text (record { count = 2; wire = 104 ∷ 101 ∷ [] }) (omega arith, tt)
      (transfers.0)

co_send-IsWhole_example :
    (r : Sent) × (co_send
        (Answer.took 3 ∷ Answer.took 2 ∷ Answer.took 0 ∷ Answer.took 0 ∷ Answer.took 0 ∷ [])
        text
      ≡ some r)
    × IsWhole text r
unfolding takes
co_send-IsWhole_example =
    co_send-IsWhole
      (Answer.took 3 ∷ Answer.took 2 ∷ Answer.took 0 ∷ Answer.took 0 ∷ Answer.took 0 ∷ []) text
      (
        inr (omega arith, omega arith),
        (
          inr (omega arith, omega arith),
          (inl (omega arith), (inl (omega arith), (inl (omega arith), tt))),
        ),
      )
      (omega arith)

abbrev waiting : Waiter
waiting = record {
  tmo = ℤ.negsuc 0;
  co = some 50;
  mask = epollin;
  events = 0;
  revents = 1;
  flags = 0;
}

-- Meanwhile the listener has seen the event.
abbrev listener : Core → Core
listener c = record c { waiters = record c.waiters { item = λ p. some waiting } }

co_io_wait-Waited_example :
    Waited 2 core waiting true listener [] (λ node. ([], [])) (λ node. waiting)
co_io_wait-Waited_example =
    co_io_wait-Waited 2 core waiting true listener [] (λ node. ([], [])) (λ node. waiting)
      core-IsList (λ c node l. (IsList-item 2 c.waiters (λ p. some waiting) l, refl))

request_runs :
    (schedule [] 5 works (Request.start_cothread 0) ≡ none)
    × (co_scheduler_round core ≡ (record core { csbusy = true }, true))
    × (co_scheduler_unlock (record core { csbusy = true }) ≡ core)
    × (remove_waiter core none ≡ some core)
    × (thread_sleep 500 ≡ (0, 0))
    × (thread_sleep 5000 ≡ (5, 705032704))
unfolding schedule co_scheduler_round co_scheduler_unlock remove_waiter thread_sleep
request_runs = (refl, refl, refl, refl, refl, refl)
