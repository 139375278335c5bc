-- ===== src/Wait/Deadline.antt =====
-- The time until which a wait lasts.
use cuttle.Prelude.{
  ℕ, ◌+◌, ◌-◌, ◌*◌, ◌/◌, ◌≤◌, ◌<◌, ◌≡◌, refl, some, false, leb, Bool-cases, inl, inr, arith,
}
use cuttle.Prelude.Int.{ℤ}
use cuttle.Wait.{Wait, Timespec, deadline, wait}

-- A time in nanoseconds.
abbrev pub nanoseconds : Timespec → ℕ
nanoseconds t = t.sec * 1000000000 + t.nsec

deadline_lem :
    (sec usec tmout : ℕ)
    → usec < 1000000
    → ((deadline sec usec tmout).nsec < 1000000000)
      × (nanoseconds (deadline sec usec tmout) ≡ sec * 1000000000 + usec * 1000 + tmout * 1000000)
unfolding deadline
deadline_lem sec usec tmout h =
    elim (Bool-cases (leb 1000000000 (usec * 1000 + (tmout - tmout / 1000 * 1000) * 1000000))) [
      | inl carry ↦
          let much : 1000000000 ≤ usec * 1000 + (tmout - tmout / 1000 * 1000) * 1000000 =
            ground arith in
          (rw carry (omega arith), rw carry (omega arith))
      | inr none_over ↦
          let little : usec * 1000 + (tmout - tmout / 1000 * 1000) * 1000000 < 1000000000 =
            ground arith in
          (rw none_over little, rw none_over (omega arith))
    ]

-- A wait with a limit calls pthread_cond_timedwait with the time that lies as many milliseconds
-- behind the clock as it is given, whose nanoseconds are below a second, where the microseconds of
-- the clock are; its status is the result, and nobody is waiting then.
pub wait_lem :
    (others : Wait → Wait) (sec usec errno slept : ℕ) (timed : Timespec → ℕ) (w : Wait) (tmout : ℕ)
    → usec < 1000000
    → (t : Timespec) × ((wait others (some (sec, usec)) errno slept timed w (ℤ.pos tmout)).1
        ≡ timed t)
      × (t.nsec < 1000000000)
      × (nanoseconds t ≡ sec * 1000000000 + usec * 1000 + tmout * 1000000)
      × ((wait others (some (sec, usec)) errno slept timed w (ℤ.pos tmout)).0.is_waiting ≡ false)
unfolding wait
wait_lem others sec usec errno slept timed w tmout h =
    let (below, behind) = deadline_lem sec usec tmout h in
    (deadline sec usec tmout, refl, below, behind, refl)
