-- ===== src/Cothread/Lock/Wait.antt =====
-- How a wait ends.
use cuttle.Prelude.{
  ℕ, ◌+◌, ◌≤◌, ◌≡◌, ◌≢◌, refl, ap, ◌∙◌, sym, List, [], ◌∷◌, ◌++◌, Option, none, some, true, false,
  arith, bit_and, Bool, ◌<◌, Bool-cases, inl, inr, append-nil, some_eq,
}
use cuttle.Prelude.Int.{ℤ}
use cuttle.Prelude.Bits.{test}
use cuttle.Cothread.Waiter.{Waiter, mtx_wakeup_event, deadline}
use cuttle.Cothread.Lock.{wait_loop, wait_waiter, in_time}

-- A wait that started at `start`, with the flags `f` found at the time `now`.
abbrev pub found : ℕ → Option ℕ → ℤ → ℕ × ℕ → Waiter × ℕ
found start co tmo (f, now) = (record (wait_waiter start co tmo) { flags = f }, now)

abbrev pub all_found : ℕ → Option ℕ → ℤ → List (ℕ × ℕ) → List (Waiter × ℕ)
all_found start co tmo [] = []
all_found start co tmo (r ∷ rs) = found start co tmo r ∷ all_found start co tmo rs

-- The flag of a wake-up is one of `f`, or is not.
abbrev pub Woken : ℕ → Type 0
Woken f = bit_and f mtx_wakeup_event ≢ 0

abbrev pub Calm : ℕ → Type 0
Calm f = bit_and f mtx_wakeup_event ≡ 0

-- No round finds the waiter woken, and each comes less than `t` milliseconds after the start.
abbrev pub Idle : ℕ → ℕ → List (ℕ × ℕ) → Type 0
Idle start t [] = Unit
Idle start t ((f, now) ∷ rs) = Calm f × (now < start + t) × Idle start t rs

-- A round that finds the waiter woken, or the `t` milliseconds over without that; and the status.
pub data Last (start t f now : ℕ) : Bool → Type 0 where
  wakes : Woken f → Last start t f now true
  times_out : Calm f → start + t ≤ now → Last start t f now false

test-Woken : (f : ℕ) → Woken f → test f mtx_wakeup_event ≡ true
test-Woken f h = ground arith

test-Calm : (f : ℕ) → Calm f → test f mtx_wakeup_event ≡ false
test-Calm f h = ground arith

early : (start t now : ℕ) → now < start + t → in_time (deadline start (ℤ.pos t)) now ≡ true
unfolding deadline
early start t now h = ground arith

goes_on :
    (start : ℕ) (co : Option ℕ) (t : ℕ) (rs : List (ℕ × ℕ)) (after : List (Waiter × ℕ))
    → Idle start t rs
    → wait_loop (all_found start co (ℤ.pos t) rs ++ after) ≡ wait_loop after
unfolding wait_loop wait_waiter
goes_on start co t [] after h = refl
goes_on start co t ((f, now) ∷ rs) after h =
    rw (test-Calm f h.0, early start t now h.1) (goes_on start co t rs after h.2)

late : (start t now : ℕ) → start + t ≤ now → in_time (deadline start (ℤ.pos t)) now ≡ false
unfolding deadline
late start t now h = ground arith

ends :
    (start : ℕ) (co : Option ℕ) (t f now : ℕ) (status : Bool) (after : List (Waiter × ℕ))
    → Last start t f now status
    → wait_loop (found start co (ℤ.pos t) (f, now) ∷ after) ≡ some status
unfolding wait_loop wait_waiter
ends start co t f now true after (Last.wakes h) = rw (test-Woken f h) refl
ends start co t f now false after (Last.times_out h over) =
    rw (test-Calm f h, late start t now over) refl

nothing : wait_loop [] ≡ none
unfolding wait_loop
nothing = refl

-- A wait of `t` milliseconds goes on while its rounds find no flag of a wake-up and come less than
-- `t` milliseconds after its start; it ends in the first round that finds the flag, with status 1,
-- whatever the time is, or that finds no flag and comes `t` milliseconds or more after the start,
-- with status 0.
pub wait_loop_lem :
    (start : ℕ) (co : Option ℕ) (t : ℕ) (rs : List (ℕ × ℕ)) (f now : ℕ) (status : Bool)
    (after : List (Waiter × ℕ))
    → Idle start t rs
    → Last start t f now status
    → (wait_loop (all_found start co (ℤ.pos t) rs) ≡ none)
      × (wait_loop (all_found start co (ℤ.pos t) rs ++ (found start co (ℤ.pos t) (f, now) ∷ after))
          ≡ some status)
wait_loop_lem start co t rs f now status after h e = (
  ap wait_loop (sym (append-nil (all_found start co (ℤ.pos t) rs)))
      ∙ goes_on start co t rs [] h
      ∙ nothing,
  goes_on start co t rs _ h ∙ ends start co t f now status after e,
)

-- A wait without a limit ends only when its waiter has been woken.
pub wait_loop-forever :
    (start : ℕ) (co : Option ℕ) (n : ℕ) (rs : List (ℕ × ℕ))
    → wait_loop (all_found start co (ℤ.negsuc n) rs) ≢ some false
unfolding wait_loop wait_waiter deadline
wait_loop-forever start co n [] e = cc
wait_loop-forever start co n ((f, now) ∷ rs) e = elim (Bool-cases (test f mtx_wakeup_event)) [
  | inl woken ↦
      let no : some true ≡ some false = rw woken at e in let no' : true ≡ false = some_eq no in cc
  | inr calm ↦ wait_loop-forever start co n rs (rw calm at e)
]
