-- ===== src/Tests/Waits.antt =====
-- A wait of one millisecond, at the end of a second.
use cuttle.Prelude.{ℕ, ◌+◌, ◌*◌, ◌<◌, ◌≡◌, refl, some, true, false, arith}
use cuttle.Prelude.Int.{ℤ}
use cuttle.Wait.{Wait, Timespec, wait, signal, destroy, deadline}
use cuttle.Wait.Deadline.{nanoseconds, wait_lem}

abbrev idle : Wait
idle = record { mutex = true; cond = true; is_waiting = false }

abbrev alone : Wait → Wait
alone w = w

abbrev timed : Timespec → ℕ
timed t = 110

wait_lem_example :
    (t : Timespec) × ((wait alone (some (5, 999999)) 0 0 timed idle (ℤ.pos 1)).1 ≡ timed t)
    × (t.nsec < 1000000000)
    × (nanoseconds t ≡ 5 * 1000000000 + 999999 * 1000 + 1 * 1000000)
    × ((wait alone (some (5, 999999)) 0 0 timed idle (ℤ.pos 1)).0.is_waiting ≡ false)
wait_lem_example = wait_lem alone 5 999999 0 0 timed idle 1 (omega arith)

deadline_run : deadline 5 999999 1 ≡ record { sec = 6; nsec = 999000 }
unfolding deadline
deadline_run = refl

-- Of two that wait, the first to leave takes the flag away, and the second gets no signal.
second_run :
    signal (wait alone (some (5, 0)) 0 0 timed (record idle { is_waiting = true }) (ℤ.pos 1)).0 0
    ≡ (0, false)
unfolding wait signal
second_run = refl

busy_run : (destroy (record idle { is_waiting = true }) 0 0).1 ≡ 16
unfolding destroy
busy_run = refl
