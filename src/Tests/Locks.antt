-- ===== src/Tests/Locks.antt =====
-- Runs of the queues and locks of src/cothread/co-scheduler.c, and of src/cothread/co-thread.c.
use cuttle.Prelude.{
  ℕ, ◌+◌, ◌≡◌, refl, [], ◌∷◌, ◌++◌, none, some, true, false, arith, ◌==◌, if◌then◌else◌,
}
use cuttle.Prelude.Int.{ℤ, below_one}
use cuttle.Cothread.Waiter.{epollin}
use cuttle.Cothread.Walk.{Verdict, verdict}
use cuttle.Cothread.Walk.Scan.{elem}
use cuttle.Cothread.Queue.{Queue, Memory, on_event, not_e_check, is_broken}
use cuttle.Cothread.Queue.Refine.{IsQueue}
use cuttle.Cothread.Queue.Notify.{on_event-verdict}
use cuttle.Cothread.Lock.{Lock, Made, lock_init_internal, lock_round, signal_internal, wait_loop}
use cuttle.Cothread.Lock.Exclusion.{System, Step, Reach, one_inside, set_inside}
use cuttle.Cothread.Lock.Signal.{
  signal-one, signal-all, one_signaled, first_waiting, count_waiting, heard,
}
use cuttle.Cothread.Lock.Wait.{Last, found, all_found, wait_loop_lem}
use cuttle.Cothread.Coroutine.{
  Coroutine, Thread, co_call, run, co_exit, co_create, co_resume, resumed, co_set_data,
  co_set_scheduler_data,
}
use cuttle.Cothread.Coroutine.Exit.{Exited}
use cuttle.Cothread.Coroutine.Runs
use cuttle.Cothread.Coroutine.Runs.{Running, IsStart, Reach-exits, set_started}
use cuttle.Cothread.Coroutine.Stack.{Fits, co_create-own}

-- Waiters 10 and 11 in the queue of an eventfd: 10 waits for the lock, 11 for a signal.
abbrev queue : Queue
queue = record {
  prev = λ p. if p == 11 then some 10 else none;
  next = λ p. if p == 10 then some 11 else none;
  e = record { head = some 10; tail = some 11; so = ℤ.pos 5; kind = 1 };
}

queue-IsQueue : IsQueue queue (10 ∷ 11 ∷ [])
queue-IsQueue = record {
  first = refl;
  last = refl;
  chain = (refl, refl, (refl, refl, tt));
  distinct = (((λ e. absurd (omega arith)), tt), (tt, tt));
}

abbrev memory : Memory
memory p = record {
  tmo = ℤ.negsuc 0;
  co = some (p + 100);
  mask = epollin;
  events = 0;
  revents = 0;
  flags = if p == 11 then 1 else 0;
}

on_event-verdict_example :
    (m : Memory) × (on_event 2 queue epollin memory ≡ some (m, true, true))
    × (verdict 500 (m 11) ≡ Verdict.signaled)
on_event-verdict_example =
    on_event-verdict 2 epollin 500 queue memory (10 ∷ 11 ∷ []) 11 queue-IsQueue (omega arith) refl
      refl refl refl

-- Coroutine 7 holds the lock.
abbrev lock : Lock
lock = record { e = queue.e; co = some 7 }

signal-one_example :
    signal_internal 2 queue.next (some lock) 7 false memory
    ≡ some (let r = one_signaled memory 0 (some 11) in (r.0, some r.1))
unfolding first_waiting
signal-one_example =
    signal-one 2 7 queue lock memory (10 ∷ 11 ∷ []) refl refl queue-IsQueue (omega arith)

signal-all_example :
    (m : Memory) × (signal_internal 2 queue.next (some lock) 7 true memory ≡ some (m, some 1))
    × ((p : ℕ) → m p ≡ (if elem p (10 ∷ 11 ∷ []) then heard (memory p) else memory p))
unfolding count_waiting
signal-all_example =
    signal-all 2 7 queue lock memory (10 ∷ 11 ∷ []) refl refl queue-IsQueue (omega arith)

wait_loop_lem_example :
    (wait_loop (all_found 100 (some 7) (ℤ.pos 30) ((1, 129) ∷ [])) ≡ none)
    × (wait_loop (
          all_found 100 (some 7) (ℤ.pos 30) ((1, 129) ∷ [])
          ++ (found 100 (some 7) (ℤ.pos 30) (1, 130) ∷ []))
        ≡ some false)
wait_loop_lem_example =
    wait_loop_lem 100 (some 7) 30 ((1, 129) ∷ []) 1 130 false [] (refl, omega arith, tt)
      (Last.times_out refl (omega arith))

-- A lock that is free, 7 that takes it and 8 that finds it taken.
abbrev free : Lock
free = record { e = queue.e; co = none }

abbrev before : System
before = record { lock = free; inside = λ i. false }

after : Reach before (record { lock = lock; inside = set_inside (λ i. false) 7 true })
unfolding lock_round
after = Reach.next (Reach.next Reach.here (Step.enters 7 lock refl)) (Step.spins 8 lock refl)

one_inside_example : ◌≡◌ {A = ℕ} 7 7
unfolding set_inside
one_inside_example = one_inside refl (λ i. refl) after 7 7 refl refl

lock_runs :
    (lock_init_internal true (ℤ.pos 5) true false ≡ Made.failed (some (ℤ.pos 5)))
    × (lock_init_internal true (ℤ.negsuc 0) false false ≡ Made.failed none)
    × (not_e_check (record queue.e { tail = none }) ≡ false)
    × (is_broken (record queue.e { tail = none }) ≡ true)
unfolding lock_init_internal not_e_check is_broken below_one
lock_runs = (refl, refl, refl, refl)

-- The scheduler 1 has started coroutine 9, whose stack is its own; 2 ends others.
abbrev blank : Coroutine
blank = record { alloc_size = 0; caller = none; restarget = none; value = 0; scheduler_data = 0 }

abbrev own : Coroutine
own = record { alloc_size = 8192; caller = none; restarget = none; value = 0; scheduler_data = 0 }

abbrev thread : Thread
thread = record {
  co = λ p. if p == 9 then own else blank;
  curr = 1;
  co_dhelper = none;
  dchelper = none;
  freed = [];
}

abbrev idle : Running
idle = record { thread = thread; started = λ c. false }

idle-IsStart : IsStart 1 2 idle
idle-IsStart = record {
  only = refl;
  no_helper = refl;
  nobody = λ c. refl;
  other = λ e. absurd (omega arith);
}

abbrev busy : Running
busy = record { thread = run (co_call thread 9); started = set_started (λ c. false) 9 true }

to_busy : Runs.Reach 1 2 idle busy
to_busy =
    Runs.Reach.next Runs.Reach.here
      (Runs.Step.starts 9 refl refl (λ e. absurd (omega arith)) (λ e. absurd (omega arith)))

Reach-exits_example :
    (r : Thread) × (co_exit (some 2) busy.thread ≡ some r) × Exited 2 1 busy.thread r
unfolding run co_call
Reach-exits_example = Reach-exits idle-IsStart to_busy (λ e. absurd (omega arith))

co_create-own_example :
    (block : ℕ) × (some 4096 ≡ some block)
    × Fits 1000 8192 block 17408
        (record { at = 4096; stack = 5120; ss_size = 16376; alloc_size = 17408 })
unfolding co_create
co_create-own_example =
    co_create-own 8192 1000 true (λ n. some 4096) 16387
      (record { at = 4096; stack = 5120; ss_size = 16376; alloc_size = 17408 }) (omega arith)
      (omega arith) refl

coroutine_runs :
    (co_resume thread ≡ none)
    × ((resumed (co_call thread 9)).curr ≡ 9)
    × ((co_set_data thread 9 5).1 ≡ 0)
    × ((co_set_scheduler_data thread 9 1).1 ≡ 0)
unfolding co_resume resumed co_call co_set_data co_set_scheduler_data
coroutine_runs = (refl, refl, refl, refl)
