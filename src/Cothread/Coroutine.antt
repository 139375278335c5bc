-- ===== src/Cothread/Coroutine.antt =====
-- src/cothread/co-thread.c: coroutines, who calls whom, and their stacks. A coroutine is named by its
-- address, and a switch of stacks by what it does to the records: who runs then is `curr`.
pub mod Stack
pub mod Exit
pub mod Runs
use cuttle.Prelude.{
  ℕ, ◌+◌, ◌-◌, ◌*◌, ◌/◌, ◌%◌, ◌^◌, List, [], ◌∷◌, Option, none, some, Bool, true, false, not, ltb,
  ◌==◌, ◌>>=◌, if◌then◌else◌,
}

pub record Coroutine : Type 0 where
  pub alloc_size : ℕ
  pub caller : Option ℕ
  pub restarget : Option ℕ
  pub value : ℕ
  pub scheduler_data : ℕ

-- `cothread_ctx`, with the coroutines in memory and the blocks given back, the last one first.
pub record Thread : Type 0 where
  pub co : ℕ → Coroutine
  pub curr : ℕ
  pub co_dhelper : Option ℕ
  pub dchelper : Option ℕ
  pub freed : List ℕ

abbrev pub put : (ℕ → Coroutine) → ℕ → Coroutine → ℕ → Coroutine
put co p c q = if q == p then c else co q

unfoldable pub co_call : Thread → ℕ → Thread
co_call t p = record t { co = put t.co p (record (t.co p) { caller = some t.curr }); curr = p }

-- The first thing that `co_runner` does, in a coroutine that is called for the first time.
unfoldable pub run : Thread → Thread
run t = record t {
  co = put t.co t.curr (record (t.co t.curr) { restarget = (t.co t.curr).caller });
}

-- `none` is `exit(1)`.
unfoldable pub co_delete : Thread → ℕ → Option Thread
co_delete t p =
    if p == t.curr
    then none
    else some (if (t.co p).alloc_size == 0 then t else record t { freed = p ∷ t.freed })

-- A round of `co_del_helper`, which runs in the coroutine `dchelper`; a null pointer is followed to
-- no coroutine: `none`.
unfoldable pub helper_round : Thread → Option Thread
unfolding co_delete co_call
helper_round t = t.co_dhelper >>= (λ cdh. (t.co t.curr).caller >>= (λ caller.
    co_delete (record t { co_dhelper = none }) caller >>= (λ t'. some (co_call t' cdh))))

-- From the call of the helper on: with the flag, it runs for the first time.
unfoldable pub to_helper : Thread → ℕ → ℕ → Bool → Option Thread
unfolding co_call run helper_round
to_helper t p helper true =
    helper_round (run (co_call (record t { co_dhelper = some p; dchelper = some helper }) helper))
to_helper t p helper false = helper_round (co_call (record t { co_dhelper = some p }) helper)

-- With the helper that there is, or else with the one made.
unfoldable pub by_helper : Option ℕ → Option ℕ → Thread → ℕ → Option Thread
unfolding to_helper
by_helper made (some helper) t p = to_helper t p helper false
by_helper none none t p = none
by_helper (some helper) none t p = to_helper t p helper true

-- `made` is what `co_create` returns for the helper; without it, `exit(1)`.
unfoldable pub co_exit_to : Option ℕ → Thread → ℕ → Option Thread
unfolding by_helper
co_exit_to made t p = by_helper made t.dchelper t p

unfoldable pub co_exit : Option ℕ → Thread → Option Thread
unfolding co_exit_to
co_exit made t = (t.co t.curr).restarget >>= (λ p. co_exit_to made t p)

-- `co_resume` up to the switch, and from where it comes back.
unfoldable pub co_resume : Thread → Option Thread
unfolding co_call
co_resume t = (t.co t.curr).restarget >>= (λ p. some (co_call t p))

unfoldable pub resumed : Thread → Thread
unfolding run
resumed t = run t

-- `co_set_data` and `co_set_scheduler_data`, with the old value.
unfoldable pub co_set_data : Thread → ℕ → ℕ → Thread × ℕ
co_set_data t p v = (record t { co = put t.co p (record (t.co p) { value = v }) }, (t.co p).value)

unfoldable pub co_set_scheduler_data : Thread → ℕ → ℕ → Thread × ℕ
co_set_scheduler_data t p v =
    (record t { co = put t.co p (record (t.co p) { scheduler_data = v }) }, (t.co p).scheduler_data)

-- A new coroutine: where its record and its stack are, and how much of the stack the context gets.
pub record Frame : Type 0 where
  pub at : ℕ
  pub stack : ℕ
  pub ss_size : ℕ
  pub alloc_size : ℕ

-- `size & ~(sizeof(size_t) - 1)`
abbrev pub whole_words : ℕ → ℕ
whole_words size = size - size % 8

-- `CO_STK_COROSIZE`, for a record of `n` bytes.
abbrev pub coro_size : ℕ → ℕ
coro_size n = (n + 255) / 256 * 256

module _ (min_size record_size : ℕ) where
  -- From the block on. The flag is whether `getcontext` succeeds.
  unfoldable pub frame : Bool → ℕ → ℕ → ℕ → Option Frame
  frame false block size alloc_size = none
  frame true block size alloc_size = some (record {
    at = block;
    stack = block + coro_size record_size;
    ss_size = size - coro_size record_size - 8;
    alloc_size = alloc_size;
  })

  -- `co_create`, with the block given, or with the memory that `alloc` gives; null where the size is
  -- too small or there is no memory.
  unfoldable pub co_create : Bool → (ℕ → Option ℕ) → Option ℕ → ℕ → Option Frame
  unfolding frame
  co_create context alloc (some block) size =
      if ltb (whole_words size) (min_size + coro_size record_size)
      then none
      else frame context block (whole_words size) 0
  co_create context alloc none size =
      if ltb (whole_words size) min_size
      then none
      else let whole = (whole_words size + coro_size record_size) % 2 ^ 64 in
        alloc whole >>= (λ block. frame context block whole whole)
