-- ===== src/Wait.antt =====
-- include/cuttle/pthread_wait.h: a condition to wait for, with its mutex. What the calls of
-- <pthread.h> and gettimeofday give is an argument. The mutex is held from the start of a wait to its
-- end, but while the thread sleeps.
pub mod Deadline
use cuttle.Prelude.{
  ℕ, ◌+◌, ◌-◌, ◌*◌, ◌/◌, Option, none, some, Bool, true, false, not, leb, ◌==◌, if◌then◌else◌,
}
use cuttle.Prelude.Int.{ℤ}

-- `mutex` and `cond` say whether the object is alive.
pub record Wait : Type 0 where
  pub mutex : Bool
  pub cond : Bool
  pub is_waiting : Bool

-- `struct timespec`
pub record Timespec : Type 0 where
  pub sec : ℕ
  pub nsec : ℕ

abbrev pub ebusy : ℕ
ebusy = 16

-- The statuses of `pthread_mutex_init` and `pthread_cond_init`.
unfoldable pub init : ℕ → ℕ → Wait × ℕ
init made_mutex made_cond =
    if made_mutex == 0
    then if made_cond == 0
      then (record { mutex = true; cond = true; is_waiting = false }, 0)
      else (record { mutex = false; cond = false; is_waiting = false }, made_cond)
    else (record { mutex = false; cond = false; is_waiting = false }, made_mutex)

-- The statuses of `pthread_cond_destroy` and `pthread_mutex_destroy`.
unfoldable pub destroy : Wait → ℕ → ℕ → Wait × ℕ
destroy w no_cond no_mutex =
    if w.is_waiting
    then (w, ebusy)
    else if no_cond == 0
    then (record w { cond = false; mutex = not (no_mutex == 0) }, no_mutex)
    else (w, no_cond)

-- The status, and whether `pthread_cond_signal` is called.
unfoldable pub signal : Wait → ℕ → ℕ × Bool
signal w sent = if w.is_waiting then (sent, true) else (0, false)

-- `now` is in seconds and microseconds, and `tmout` in milliseconds.
unfoldable pub deadline : ℕ → ℕ → ℕ → Timespec
deadline now_sec now_usec tmout =
    let sec = tmout / 1000 in
    let msec = tmout - sec * 1000 in
    let nsec = now_usec * 1000 + msec * 1000000 in
    if leb 1000000000 nsec
    then record { sec = now_sec + sec + 1; nsec = nsec - 1000000000 }
    else record { sec = now_sec + sec; nsec = nsec }

-- `clock` is what gettimeofday gives, or its error. `slept` is the status of a wait without a limit,
-- `timed` that of one with a limit, and `others` what other threads do meanwhile.
unfoldable pub wait : (Wait → Wait) → Option (ℕ × ℕ) → ℕ → ℕ → (Timespec → ℕ) → Wait → ℤ → Wait × ℕ
unfolding deadline
wait others clock errno slept timed w (ℤ.negsuc n) =
    (record (others (record w { is_waiting = true })) { is_waiting = false }, slept)
wait others none errno slept timed w (ℤ.pos tmout) = (record w { is_waiting = false }, errno)
wait others (some (now_sec, now_usec)) errno slept timed w (ℤ.pos tmout) = (
  record (others (record w { is_waiting = true })) { is_waiting = false },
  timed (deadline now_sec now_usec tmout),
)
