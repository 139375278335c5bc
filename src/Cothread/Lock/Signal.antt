-- ===== src/Cothread/Lock/Signal.antt =====
-- Who is woken by a signal and by a broadcast.
use cuttle.Prelude.{
  ℕ, zero, suc, ◌+◌, ◌≤◌, ◌≡◌, refl, ap, ap₂, ◌∙◌, sym, List, [], ◌∷◌, Option, none, some, Bool,
  true, false, ◌==◌, if◌then◌else◌, length, arith, Bool-cases, inl, inr,
}
use cuttle.Cc.Links.{Field, front, NotIn, Distinct, Chain, points_at}
use cuttle.Cothread.Waiter.{Waiter}
use cuttle.Cothread.Walk.Scan.{elem}
use cuttle.Cothread.Queue.{Memory, write, Queue, Iorq}
use cuttle.Cothread.Queue.Refine.{IsQueue}
use cuttle.Cothread.Queue.Notify.{write_ne, changed, write_self}
use cuttle.Cothread.Lock.Flags.{is_waiting, woken-is_waiting, woken-woken}
use cuttle.Cothread.Lock.{Lock, woken, signal_from, signal_internal, co_thread_check}

-- The first of the waiters `ps` that waits for a signal.
unfoldable pub first_waiting : Memory → List ℕ → Option ℕ
first_waiting m [] = none
first_waiting m (p ∷ ps) = if is_waiting (m p) then some p else first_waiting m ps

unfoldable pub one_signaled : Memory → ℕ → Option ℕ → Memory × ℕ
unfolding write
one_signaled m nb none = (m, nb)
one_signaled m nb (some p) = (write m p (woken (m p)), nb + 1)

signal_one :
    (prev next : Field) (b : Option ℕ) (fuel : ℕ) (m : Memory) (nb : ℕ) (ps : List ℕ)
    → Chain prev next b ps
    → length ps ≤ fuel
    → signal_from fuel next false m nb (front ps) ≡ some (one_signaled m nb (first_waiting m ps))
unfolding signal_from first_waiting one_signaled
signal_one prev next b fuel m nb [] ch h = refl
signal_one prev next b zero m nb (p ∷ ps) ch h = absurd (omega arith)
signal_one prev next b (suc fuel) m nb (p ∷ ps) ch h = elim (Bool-cases (is_waiting (m p))) [
  | inl e ↦ rw (signal_from, e) refl
  | inr e ↦
      rw (signal_from, e)
        (ap (signal_from fuel next false m nb) ch.1
          ∙ signal_one prev next (some p) fuel m nb ps ch.2 (omega arith))
]

unfoldable pub count_waiting : Memory → List ℕ → ℕ
count_waiting m [] = 0
count_waiting m (p ∷ ps) = (if is_waiting (m p) then 1 else 0) + count_waiting m ps

count_waiting-write :
    (m : Memory) (p : ℕ) (w : Waiter) (ps : List ℕ)
    → NotIn p ps
    → count_waiting (write m p w) ps ≡ count_waiting m ps
unfolding count_waiting
count_waiting-write m p w [] out = refl
count_waiting-write m p w (q ∷ ps) out =
    ap₂ ◌+◌ (ap (λ v. if is_waiting v then 1 else 0) (write_ne m p q w (λ e. out.0 (sym e))))
      (count_waiting-write m p w ps out.1)

-- What a broadcast leaves of a waiter.
abbrev pub heard : Waiter → Waiter
heard w = if is_waiting w then woken w else w

heard_waiting : (w : Waiter) → is_waiting w ≡ true → heard w ≡ woken w
heard_waiting w e = ap (λ b. if b then woken w else w) e

zero_add : (n : ℕ) → 0 + n ≡ n
zero_add n = omega arith

one_more : (nb a b : ℕ) → a ≡ b → nb + 1 + a ≡ nb + (1 + b)
one_more nb a b e = omega arith

passed_over :
    (m : Memory) (p q : ℕ) (ps : List ℕ)
    → is_waiting (m p) ≡ false
    → (if elem q ps then heard (m q) else m q) ≡ (if elem q (p ∷ ps) then heard (m q) else m q)
passed_over m p q ps e = elim (Bool-cases (q == p)) [
  | inl k ↦
      let same : q ≡ p = ground arith in
      let calm : is_waiting (m q) ≡ false = rw same e in
      rw k (either (elem q ps) (ap (λ b. if b then woken (m q) else m q) calm))
  | inr k ↦ rw k refl
]
  where
    either : {v w : Waiter} (b : Bool) → w ≡ v → (if b then w else v) ≡ w
    either true h = refl
    either false h = sym h

signal_all :
    (prev next : Field) (b : Option ℕ) (fuel : ℕ) (m : Memory) (nb : ℕ) (ps : List ℕ)
    → Chain prev next b ps
    → Distinct ps
    → length ps ≤ fuel
    → (m' : Memory) × (signal_from fuel next true m nb (front ps)
        ≡ some (m', nb + count_waiting m ps))
      × ((q : ℕ) → m' q ≡ (if elem q ps then heard (m q) else m q))
unfolding signal_from count_waiting
signal_all prev next b fuel m nb [] ch d h =
    let none_more : nb + 0 ≡ nb = omega arith in (m, rw none_more refl, λ q. refl)
signal_all prev next b zero m nb (p ∷ ps) ch d h = absurd (omega arith)
signal_all prev next b (suc fuel) m nb (p ∷ ps) ch d h = elim (Bool-cases (is_waiting (m p))) [
  | inl e ↦
      let (m', run, at) =
        signal_all prev next (some p) fuel (write m p (woken (m p))) (nb + 1) ps ch.2 d.1
          (omega arith) in
      (
        m',
        rw (signal_from, e)
            (ap (signal_from fuel next true (write m p (woken (m p))) (nb + 1)) ch.1
              ∙ run
              ∙ ap (λ (n : ℕ). some (m', n))
                  (one_more nb _ _ (count_waiting-write m p (woken (m p)) ps d.0))),
        λ q.
            at q
            ∙ ap (λ v. if elem q ps then heard (write m p v q) else write m p v q)
                (sym (heard_waiting (m p) e))
            ∙ changed heard m p q ps d.0,
      )
  | inr e ↦
      let (m', run, at) = signal_all prev next (some p) fuel m nb ps ch.2 d.1 (omega arith) in
      (
        m',
        rw (signal_from, e)
            (ap (signal_from fuel next true m nb) ch.1
              ∙ run
              ∙ ap (λ (n : ℕ). some (m', nb + n)) (sym (zero_add (count_waiting m ps)))),
        λ q. at q ∙ passed_over m p q ps e,
      )
]

-- What a signal by who holds the lock does: the first waiter that waits for a signal gets the flag
-- of a wake-up, no other waiter changes, and the result is the number of the woken, 0 or 1.
pub signal-one :
    (fuel self : ℕ) (q : Queue) (obj : Lock) (m : Memory) (ps : List ℕ)
    → points_at obj.co self ≡ true
    → obj.e ≡ q.e
    → IsQueue q ps
    → length ps ≤ fuel
    → signal_internal fuel q.next (some obj) self false m
      ≡ some (let r = one_signaled m 0 (first_waiting m ps) in (r.0, some r.1))
unfolding signal_internal co_thread_check
signal-one fuel self q obj m ps mine e h enough =
    let same : obj.e.head ≡ front ps = ap (λ (x : Iorq). x.head) e ∙ h.first in
    rw (signal_internal, mine, same, signal_one q.prev q.next none fuel m 0 ps h.chain enough) refl

-- A broadcast by who holds the lock gives the flag of a wake-up to every waiter of the queue that
-- waits for a signal, to no other, and returns their number.
pub signal-all :
    (fuel self : ℕ) (q : Queue) (obj : Lock) (m : Memory) (ps : List ℕ)
    → points_at obj.co self ≡ true
    → obj.e ≡ q.e
    → IsQueue q ps
    → length ps ≤ fuel
    → (m' : Memory) × (signal_internal fuel q.next (some obj) self true m
        ≡ some (m', some (count_waiting m ps)))
      × ((p : ℕ) → m' p ≡ (if elem p ps then heard (m p) else m p))
unfolding signal_internal co_thread_check
signal-all fuel self q obj m ps mine e h enough =
    let same : obj.e.head ≡ front ps = ap (λ (x : Iorq). x.head) e ∙ h.first in
    let (m', run, at) = signal_all q.prev q.next none fuel m 0 ps h.chain h.distinct enough in
    (
      m',
      rw (signal_internal, mine, same, run)
          (ap (λ (n : ℕ). some (m', some n)) (zero_add (count_waiting m ps))),
      at,
    )

is_waiting-write :
    (m : Memory) (p q : ℕ) → is_waiting (write m p (woken (m p)) q) ≡ is_waiting (m q)
is_waiting-write m p q = elim (Bool-cases (q == p)) [
  | inl k ↦
      let same : p ≡ q = ground arith in
      rw same (ap is_waiting (write_self m q (woken (m q))) ∙ woken-is_waiting (m q))
  | inr k ↦ ap is_waiting (write_ne m p q (woken (m p)) (λ e. ground arith))
]

first_waiting-write :
    (m : Memory) (p : ℕ) (ps : List ℕ)
    → first_waiting (write m p (woken (m p))) ps ≡ first_waiting m ps
unfolding first_waiting
first_waiting-write m p [] = refl
first_waiting-write m p (q ∷ ps) =
    rw (is_waiting-write m p q)
      (ap (λ o. if is_waiting (m q) then some q else o) (first_waiting-write m p ps))

write_same : (m : Memory) (p r : ℕ) (w : Waiter) → w ≡ m p → write m p w r ≡ m r
unfolding write
write_same m p r w e = elim (Bool-cases (r == p)) [
  | inl k ↦ let same : r ≡ p = ground arith in rw k (e ∙ ap m (sym same))
  | inr k ↦ rw k refl
]

-- Two signals before the first woken waiter has left the queue wake nobody else: the second finds
-- the same waiter, counts it, and changes nothing.
pub signal-signal :
    (fuel self p : ℕ) (q : Queue) (obj : Lock) (m : Memory) (ps : List ℕ)
    → points_at obj.co self ≡ true
    → obj.e ≡ q.e
    → IsQueue q ps
    → length ps ≤ fuel
    → first_waiting m ps ≡ some p
    → (m₁ : Memory) × (m₂ : Memory) × (signal_internal fuel q.next (some obj) self false m
        ≡ some (m₁, some 1))
      × (signal_internal fuel q.next (some obj) self false m₁ ≡ some (m₂, some 1))
      × ((r : ℕ) → m₂ r ≡ m₁ r)
unfolding one_signaled
signal-signal fuel self p q obj m ps mine e h enough found =
    let m₁ = write m p (woken (m p)) in
    let again = first_waiting-write m p ps ∙ found in
    (
      m₁,
      write m₁ p (woken (m₁ p)),
      signal-one fuel self q obj m ps mine e h enough
          ∙ ap (λ o. some (let r = one_signaled m 0 o in (r.0, some r.1))) found,
      signal-one fuel self q obj m₁ ps mine e h enough
          ∙ ap (λ o. some (let r = one_signaled m₁ 0 o in (r.0, some r.1))) again,
      λ r. write_same m₁ p r _ (
          ap woken (write_self m p (woken (m p)))
          ∙ woken-woken (m p)
          ∙ sym (write_self m p (woken (m p)))),
    )
