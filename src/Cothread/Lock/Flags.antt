-- ===== src/Cothread/Lock/Flags.antt =====
-- The flags of a waiter that is woken by a signal.
use cuttle.Prelude.{
  ℕ, ◌≡◌, refl, ap, ◌∙◌, Bool, true, false, not, ◌==◌, if◌then◌else◌, arith, Bool-cases, inl, inr,
  bit_or, bit_and,
}
use cuttle.Prelude.Bits.{test, and_two, and_four, or_two, and_one}
use cuttle.Cothread.Waiter.{Waiter, mtx_wakeup_waiting, mtx_wakeup_event, co_yield_flag}
use cuttle.Cothread.Walk.{Verdict, verdict}
use cuttle.Cothread.Lock.{woken}

abbrev pub is_waiting : Waiter → Bool
is_waiting w = test w.flags mtx_wakeup_waiting

or_two-one : (a : ℕ) → bit_and (bit_or a 2) 1 ≡ bit_and a 1
or_two-one a = omega (arith, and_one (bit_or a 2), and_one a, or_two a)

or_two-two : (a : ℕ) → bit_and (bit_or a 2) 2 ≡ 2
or_two-two a = omega (arith, and_two (bit_or a 2), or_two a)

or_two-four : (a : ℕ) → bit_and (bit_or a 2) 4 ≡ bit_and a 4
or_two-four a = omega (arith, and_four (bit_or a 2), and_four a, or_two a)

-- The flag of a wake-up changes no other.
pub woken-is_waiting : (w : Waiter) → is_waiting (woken w) ≡ is_waiting w
woken-is_waiting w = elim (Bool-cases (test w.flags mtx_wakeup_event)) [
  | inl e ↦ rw e refl
  | inr e ↦ rw e (ap (λ (n : ℕ). not (n == 0)) (or_two-one w.flags))
]

woken-event : (w : Waiter) → test (woken w).flags mtx_wakeup_event ≡ true
woken-event w = elim (Bool-cases (test w.flags mtx_wakeup_event)) [
  | inl e ↦ rw e e
  | inr e ↦ rw e (ap (λ (n : ℕ). not (n == 0)) (or_two-two w.flags))
]

woken-yield : (w : Waiter) → test (woken w).flags co_yield_flag ≡ test w.flags co_yield_flag
woken-yield w = elim (Bool-cases (test w.flags mtx_wakeup_event)) [
  | inl e ↦ rw e refl
  | inr e ↦ rw e (ap (λ (n : ℕ). not (n == 0)) (or_two-four w.flags))
]

pub woken-woken : (w : Waiter) → woken (woken w) ≡ woken w
woken-woken w =
    ap (λ b. if b then woken w else record (woken w) { flags = bit_or (woken w).flags 2 })
      (woken-event w)

verdict-event :
    (ct : ℕ) (w : Waiter)
    → test w.flags co_yield_flag ≡ false
    → test w.flags mtx_wakeup_event ≡ true
    → verdict ct w ≡ Verdict.signaled
unfolding verdict
verdict-event ct w y e = ground arith

-- Who has been woken is called: a scheduler that walks through its waiters, at whatever time, finds
-- that the waiter has something to do, unless it has just yielded.
pub woken-verdict :
    (ct : ℕ) (w : Waiter)
    → test w.flags co_yield_flag ≡ false
    → verdict ct (woken w) ≡ Verdict.signaled
woken-verdict ct w y = verdict-event ct (woken w) (woken-yield w ∙ y) (woken-event w)
