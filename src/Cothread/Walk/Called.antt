-- ===== src/Cothread/Walk/Called.antt =====
-- Who is called after a walk, and how long the scheduler waits.
use cuttle.Prelude.{
  ℕ, zero, suc, ◌+◌, ◌-◌, ◌≤◌, ◌<◌, ◌≡◌, ◌≢◌, refl, ap, ◌∙◌, sym, List, [], ◌∷◌, ◌++◌, some, Bool,
  true, false, ◌||◌, if◌then◌else◌, length, arith, ◌⊎◌, inl, inr, subst, some_eq, lt_or_le,
  Bool-cases,
}
use cuttle.Prelude.Int.{ℤ}
use cuttle.Prelude.Bits.{test}
use cuttle.Cc.Links.{Distinct}
use cuttle.Cothread.Waiter.{Waiter, co_yield_flag, mtx_wakeup_event}
use cuttle.Cothread.Walk.{Walk, Verdict, int_max, verdict, due}
use cuttle.Cothread.Walk.Scan.{elem, ready, wait_time, is_signaled, shorten}
use cuttle.Cothread.Walk.Found.{fresh-Distinct, Distinct-take, elem-fresh, elem-take_or_full}
use cuttle.Cothread.Walk.Round.{by_co}
use cuttle.Cothread.Walk.Result.{Found}

-- A coroutine that has something to do is called, unless so many others are that there is no room.
pub Found-called :
    (ct ccmax : ℕ) (ps : List ℕ) (ws : List Waiter) (s : Walk) (co : ℕ)
    → Found ct ccmax ps ws s
    → elem co (ready ct ws) ≡ true
    → (elem co s.cc ≡ true) ⊎ (length s.cc ≡ ccmax)
Found-called ct ccmax ps ws s co f e =
    subst (λ cc. (elem co cc ≡ true) ⊎ (length cc ≡ ccmax)) (sym f.found)
      (elem-take_or_full co ccmax _ (elem-fresh co [] (ready ct ws) refl ∙ e))

-- Nobody is called twice.
pub Found-Distinct :
    (ct ccmax : ℕ) (ps : List ℕ) (ws : List Waiter) (s : Walk)
    → Found ct ccmax ps ws s
    → Distinct s.cc
Found-Distinct ct ccmax ps ws s f =
    subst Distinct (sym f.found) (Distinct-take ccmax _ (fresh-Distinct [] (ready ct ws)))

shorten-le : (v : Verdict) (tmo : ℕ) → shorten tmo v ≤ tmo
unfolding shorten
shorten-le Verdict.yields tmo = omega arith
shorten-le (Verdict.waits dt) tmo = ground arith
shorten-le Verdict.signaled tmo = omega arith
shorten-le Verdict.sleeps tmo = omega arith
shorten-le Verdict.bug tmo = omega arith

shorten_waits : (tmo dt : ℕ) → shorten tmo (Verdict.waits dt) ≤ dt
unfolding shorten
shorten_waits tmo dt = ground arith

wait_time-le : (ct tmo : ℕ) (ws : List Waiter) → wait_time ct tmo ws ≤ tmo
unfolding wait_time
wait_time-le ct tmo [] = omega arith
wait_time-le ct tmo (w ∷ ws) =
    by_co (λ w. wait_time ct tmo (w ∷ ws) ≤ tmo) w (λ v. wait_time-le ct tmo ws)
      (λ v co.
        let h = wait_time-le ct (shorten tmo (verdict ct (record v { co = some co }))) ws in
        omega (arith, shorten-le (verdict ct (record v { co = some co })) tmo))

wait_time-in :
    (ct dt co : ℕ) (before : List Waiter) (w : Waiter) (after : List Waiter) (tmo : ℕ)
    → w.co ≡ some co
    → verdict ct w ≡ Verdict.waits dt
    → wait_time ct tmo (before ++ (w ∷ after)) ≤ dt
unfolding wait_time
wait_time-in ct dt co [] w after tmo e v =
    by_co
      (λ w. w.co ≡ some co → verdict ct w ≡ Verdict.waits dt → wait_time ct tmo (w ∷ after) ≤ dt) w
      (λ u e v. cc)
      (λ u c e v. rw v (
        let h = wait_time-le ct (shorten tmo (Verdict.waits dt)) after in
        omega (arith, shorten_waits tmo dt)))
      e v
wait_time-in ct dt co (b ∷ before) w after tmo e v =
    by_co (λ b. wait_time ct tmo (b ∷ (before ++ (w ∷ after))) ≤ dt) b
      (λ u. wait_time-in ct dt co before w after tmo e v)
      (λ u c. wait_time-in ct dt co before w after _ e v)

pub elem-ready :
    (ct co : ℕ) (before : List Waiter) (w : Waiter) (after : List Waiter)
    → w.co ≡ some co
    → verdict ct w ≡ Verdict.signaled
    → elem co (ready ct (before ++ (w ∷ after))) ≡ true
unfolding ready is_signaled
elem-ready ct co [] w after e v =
    by_co
      (λ w.
        w.co ≡ some co → verdict ct w ≡ Verdict.signaled → elem co (ready ct (w ∷ after)) ≡ true)
      w (λ u e v. cc) (λ u c e v. let same = some_eq e in rw v (ground arith)) e v
elem-ready ct co (b ∷ before) w after e v =
    by_co (λ b. elem co (ready ct (b ∷ (before ++ (w ∷ after)))) ≡ true) b
      (λ u. elem-ready ct co before w after e v)
      (λ u c. either _ _ c (elem-ready ct co before w after e v))
  where
    either :
        (b : Bool) (xs : List ℕ) (c : ℕ)
        → elem co xs ≡ true
        → elem co (if b then c ∷ xs else xs) ≡ true
    either true xs c h = ground arith
    either false xs c h = h

due_deadline :
    (ct t : ℕ)
    → t ≢ 0
    → (due ct (ℤ.pos t) ≡ Verdict.signaled)
      ⊎ ((dt : ℕ) × (due ct (ℤ.pos t) ≡ Verdict.waits dt) × (ct + dt ≡ t))
unfolding due
due_deadline ct zero pos = absurd (pos refl)
due_deadline ct (suc t) pos = elim (lt_or_le ct (suc t)) [
  | inl h ↦ inr (suc t - ct, ground arith, omega arith)
  | inr h ↦ inl (ground arith)
]

pub due_late : (ct t : ℕ) → t ≢ 0 → t ≤ ct → due ct (ℤ.pos t) ≡ Verdict.signaled
unfolding due
due_late ct zero pos late = absurd (pos refl)
due_late ct (suc t) pos late = ground arith

-- A waiter that does not yield has something to do, or its deadline decides.
pub verdict_calm :
    (ct : ℕ) (w : Waiter)
    → test w.flags co_yield_flag ≡ false
    → (verdict ct w ≡ Verdict.signaled) ⊎ (verdict ct w ≡ due ct w.tmo)
verdict_calm ct w y = elim (Bool-cases (test w.events w.mask || test w.flags mtx_wakeup_event)) [
  | inl b ↦ inl (unfold verdict in rw (y, b))
  | inr b ↦ inr (unfold verdict in rw (y, b))
]

verdict_deadline :
    (ct t : ℕ) (w : Waiter)
    → test w.flags co_yield_flag ≡ false
    → w.tmo ≡ ℤ.pos t
    → t ≢ 0
    → (verdict ct w ≡ Verdict.signaled)
      ⊎ ((dt : ℕ) × (verdict ct w ≡ Verdict.waits dt) × (ct + dt ≡ t))
verdict_deadline ct t w y e pos = elim (verdict_calm ct w y) [
  | inl v ↦ inl v
  | inr v ↦ elim (due_deadline ct t pos) [
    | inl h ↦ inl (v ∙ ap (due ct) e ∙ h)
    | inr (dt, h, k) ↦ inr (dt, v ∙ ap (due ct) e ∙ h, k)
  ]
]

-- The scheduler does not sleep past a deadline: a coroutine that does not yield, waits for a
-- deadline, and is not called although there is room, is not overdue, and the time to wait is at
-- most what is left.
pub Found-in_time :
    (ct ccmax co t : ℕ) (ps : List ℕ) (before : List Waiter) (w : Waiter) (after : List Waiter)
    (s : Walk)
    → Found ct ccmax ps (before ++ (w ∷ after)) s
    → w.co ≡ some co
    → test w.flags co_yield_flag ≡ false
    → w.tmo ≡ ℤ.pos t
    → t ≢ 0
    → elem co s.cc ≡ false
    → length s.cc < ccmax
    → ct + s.tmo ≤ t
Found-in_time ct ccmax co t ps before w after s f e y d pos out room =
    elim (verdict_deadline ct t w y d pos) [
      | inl v ↦ elim (Found-called ct ccmax ps _ s co f (elem-ready ct co before w after e v)) [
        | inl h ↦ cc
        | inr h ↦ absurd (omega arith)
      ]
      | inr (dt, v, h) ↦
          let k = wait_time-in ct dt co before w after int_max e v in omega (arith, f.time room)
    ]
