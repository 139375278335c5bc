-- ===== src/Cothread/Queue/Notify.antt =====
-- An event on a socket: who sees it, and that the scheduler then calls who waits for it.
use cuttle.Prelude.{
  ℕ, zero, suc, ◌+◌, ◌≤◌, ◌<◌, ◌≡◌, ◌≢◌, refl, ap, ap₂, ◌∙◌, sym, List, [], ◌∷◌, Option, none, some,
  Bool, true, false, not, ◌==◌, if◌then◌else◌, length, arith, Bool-cases, inl, inr,
}
use cuttle.Prelude.Bits.{test, test-or}
use cuttle.Cc.Links.{Field, front, NotIn, Distinct, Chain}
use cuttle.Cothread.Waiter.{Waiter, co_yield_flag}
use cuttle.Cothread.Walk.{Verdict, verdict}
use cuttle.Cothread.Walk.Scan.{elem}
use cuttle.Cothread.Queue.{
  Queue, Memory, write, raised, counts, has_co, notify, on_event, wake_all, iowait_eventfd,
}
use cuttle.Cothread.Queue.Refine.{IsQueue}

-- How many of the waiters `ps` count once they have seen the event.
unfoldable pub count : ℕ → Memory → List ℕ → ℕ
count events m [] = 0
count events m (p ∷ ps) = (if counts (raised events (m p)) then 1 else 0) + count events m ps

pub write_self : (m : Memory) (p : ℕ) (w : Waiter) → write m p w p ≡ w
unfolding write
write_self m p w = ground arith

pub write_ne : (m : Memory) (p q : ℕ) (w : Waiter) → q ≢ p → write m p w q ≡ m q
unfolding write
write_ne m p q w h = ground arith

elem-NotIn : (c : ℕ) (xs : List ℕ) → NotIn c xs → elem c xs ≡ false
elem-NotIn c [] o = refl
elem-NotIn c (x ∷ xs) o = ground (arith, elem-NotIn c xs o.1)

add_up : (b : Bool) (c n : ℕ) → (if b then c + 1 else c) + n ≡ c + ((if b then 1 else 0) + n)
add_up true c n = omega arith
add_up false c n = omega arith

-- What a waiter is, when `p` and then the waiters of `ps` have been changed.
pub changed :
    (f : Waiter → Waiter) (m : Memory) (p q : ℕ) (ps : List ℕ)
    → NotIn p ps
    → (if elem q ps then f (write m p (f (m p)) q) else write m p (f (m p)) q)
      ≡ (if elem q (p ∷ ps) then f (m q) else m q)
unfolding write
changed f m p q ps out = elim (Bool-cases (q == p)) [
  | inl e ↦
      let same : q ≡ p = ground arith in
      let apart : elem q ps ≡ false = rw same (elem-NotIn p ps out) in
      rw (apart, e) (ap (λ r. f (m r)) (sym same))
  | inr e ↦ rw e refl
]

count-write :
    (events : ℕ) (m : Memory) (p : ℕ) (w : Waiter) (ps : List ℕ)
    → NotIn p ps
    → count events (write m p w) ps ≡ count events m ps
unfolding count write
count-write events m p w [] out = refl
count-write events m p w (q ∷ ps) out =
    ap₂ ◌+◌
      (ap (λ v. if counts (raised events v) then 1 else 0) (write_ne m p q w (λ e. out.0 (sym e))))
      (count-write events m p w ps out.1)

-- Every waiter of the queue sees the event and no other does, and the number is right.
notify_lem :
    (prev next : Field) (b : Option ℕ) (fuel events : ℕ) (m : Memory) (c : ℕ) (ps : List ℕ)
    → Chain prev next b ps
    → Distinct ps
    → length ps ≤ fuel
    → (m' : Memory) × (notify fuel next events m c (front ps) ≡ some (m', c + count events m ps))
      × ((q : ℕ) → m' q ≡ (if elem q ps then raised events (m q) else m q))
unfolding notify count
notify_lem prev next b fuel events m c [] ch d h =
    let none_more : c + 0 ≡ c = omega arith in (m, rw none_more refl, λ q. refl)
notify_lem prev next b zero events m c (p ∷ ps) ch d h = absurd (omega arith)
notify_lem prev next b (suc fuel) events m c (p ∷ ps) ch d h =
    let w = raised events (m p) in
    let (m', e, at) =
      notify_lem prev next (some p) fuel events (write m p w) (if counts w then c + 1 else c) ps
        ch.2 d.1 (omega arith) in
    (
      m',
      ap (notify fuel next events (write m p w) (if counts w then c + 1 else c)) ch.1
          ∙ e
          ∙ ap (λ (n : ℕ). some (m', n))
              (ap (λ (n : ℕ). (if counts w then c + 1 else c) + n) (count-write events m p w ps d.0)
                ∙ add_up (counts w) c _),
      λ q. at q ∙ changed (raised events) m p q ps d.0,
    )

count-pos :
    (events : ℕ) (m : Memory) (q : ℕ) (ps : List ℕ)
    → elem q ps ≡ true
    → counts (raised events (m q)) ≡ true
    → 0 < count events m ps
unfolding count
count-pos events m q [] e k = cc
count-pos events m q (p ∷ ps) e k = elim (Bool-cases (q == p)) [
  | inl b ↦ let same : q ≡ p = ground arith in rw⁻¹ same (rw k (omega arith))
  | inr b ↦ let rest = count-pos events m q ps (ground arith) k in omega arith
]

pos_test : (n : ℕ) → 0 < n → not ((0 + n) == 0) ≡ true
pos_test n h = ground arith

verdict-counts :
    (ct : ℕ) (w : Waiter)
    → test w.flags co_yield_flag ≡ false
    → counts w ≡ true
    → verdict ct w ≡ Verdict.signaled
unfolding verdict
verdict-counts ct w y k = let wanted : test w.events w.mask ≡ true = ground arith in rw (y, wanted)

-- No event is lost: when one comes on a socket in whose queue a coroutine waits for it, the
-- listener signals, whatever else waits there, and a scheduler that then walks through its
-- waiters, at whatever time, finds that the coroutine has something to do, unless it has just
-- yielded.
pub on_event-verdict :
    (fuel events ct : ℕ) (q : Queue) (m : Memory) (ps : List ℕ) (p : ℕ)
    → IsQueue q ps
    → length ps ≤ fuel
    → elem p ps ≡ true
    → test events (m p).mask ≡ true
    → has_co (m p) ≡ true
    → test (m p).flags co_yield_flag ≡ false
    → (m' : Memory) × (on_event fuel q events m ≡ some (m', q.e.kind == iowait_eventfd, true))
      × (verdict ct (m' p) ≡ Verdict.signaled)
unfolding on_event
on_event-verdict fuel events ct q m ps p h enough here wanted co y =
    let (m', e, at) = notify_lem q.prev q.next none fuel events m 0 ps h.chain h.distinct enough in
    let k : counts (raised events (m p)) ≡ true =
      rw (test-or (m p).events events (m p).mask wanted) co in
    let some_count = count-pos events m p ps here k in
    let some_c : not ((0 + count events m ps) == 0) ≡ true = pos_test _ some_count in
    (
      m',
      rw (on_event, h.first, e, some_c) refl,
      ap (verdict ct) (at p ∙ ap (λ b. if b then raised events (m p) else m p) here)
          ∙ verdict-counts ct (raised events (m p)) y k,
    )

-- `co_socket_close` wakes every waiter of the socket that waits for something, and comes to an end.
pub wake_all_lem :
    (prev next : Field) (b : Option ℕ) (fuel : ℕ) (m : Memory) (ps : List ℕ)
    → Chain prev next b ps
    → Distinct ps
    → length ps ≤ fuel
    → (m' : Memory) × (wake_all fuel next m (front ps) ≡ some m')
      × ((q : ℕ) → m' q ≡ (if elem q ps then raised (m q).mask (m q) else m q))
unfolding wake_all
wake_all_lem prev next b fuel m [] ch d h = (m, refl, λ q. refl)
wake_all_lem prev next b zero m (p ∷ ps) ch d h = absurd (omega arith)
wake_all_lem prev next b (suc fuel) m (p ∷ ps) ch d h =
    let (m', e, at) =
      wake_all_lem prev next (some p) fuel (write m p (raised (m p).mask (m p))) ps ch.2 d.1
        (omega arith) in
    (
      m',
      ap (wake_all fuel next (write m p (raised (m p).mask (m p)))) ch.1 ∙ e,
      λ q. at q ∙ changed (λ w. raised w.mask w) m p q ps d.0,
    )
