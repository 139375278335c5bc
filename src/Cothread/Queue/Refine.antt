-- ===== src/Cothread/Queue/Refine.antt =====
-- The queue as the sequence of its waiters, and what its checks see.
use cuttle.Prelude.{
  ℕ, ◌≡◌, refl, ap, ◌∙◌, sym, subst, List, [], ◌∷◌, ◌++◌, none, some, true, ◌==◌, ◌||◌,
  Option-cases, inl, inr,
}
use cuttle.Cc.Links.{update, relink, front, back_or, NotIn, Distinct, Chain}
use cuttle.Cc.Links.Append.{Chain-append, back_or-append, Distinct-append}
use cuttle.Cc.Links.Unlink.{
  Chain-unlink, links_of, front-unlink, back-unlink, Distinct-without, relink_before,
}
use cuttle.Cothread.Queue.{
  Queue, not_e_check, known_kind, checked, link, unlink, epoll_queue, epoll_dequeue, bind,
}

-- The waiters in the queue are `ps`, linked both ways in this order.
pub record IsQueue (q : Queue) (ps : List ℕ) : Type 0 where
  pub first : q.e.head ≡ front ps
  pub last : q.e.tail ≡ back_or none ps
  pub chain : Chain q.prev q.next none ps
  pub distinct : Distinct ps

-- A check never sees a queue whose kind is one of the two, whatever else is wrong with it.
pub checked-known : (q : Queue) → known_kind q.e ≡ true → checked q ≡ some q
unfolding not_e_check
checked-known q k = rw k refl

-- Both checks pass.
passes :
    (q : Queue) (f : Queue → Queue)
    → known_kind q.e ≡ true
    → known_kind (f q).e ≡ true
    → bind (checked q) (λ q. checked (f q)) ≡ some (f q)
passes q f k k' = ap (λ o. bind o (λ q. checked (f q))) (checked-known q k) ∙ checked-known (f q) k'

link-kind : (q : Queue) (w : ℕ) → (link q w).e.kind ≡ q.e.kind
unfolding link
link-kind q w = elim (Option-cases q.e.tail) [ inl e ↦ rw e refl | inr (t, e) ↦ rw e refl ]

back_some : (q : ℕ) (ps : List ℕ) → (t : ℕ) × (back_or (some q) ps ≡ some t)
back_some q [] = (q, refl)
back_some q (p ∷ ps) = back_some p ps

link-IsQueue :
    (q : Queue) (w : ℕ) (ps : List ℕ)
    → IsQueue q ps
    → NotIn w ps
    → IsQueue (link q w) (ps ++ (w ∷ []))
unfolding link relink
link-IsQueue q w [] h out =
    rw (h.last, h.first)
      (record {
        first = refl;
        last = refl;
        chain = Chain-append q.prev q.next none w [] tt tt tt;
        distinct = (tt, tt);
      })
link-IsQueue q w (p ∷ ps) h out =
    let (t, e) = back_some p ps in
    rw (h.last ∙ e, h.first)
      (record {
        first = refl;
        last = sym (back_or-append (some p) w ps);
        chain =
            subst
              (λ o.
                Chain (update q.prev w o) (relink (update q.next w none) o (some w)) none
                  ((p ∷ ps) ++ (w ∷ [])))
              e (Chain-append q.prev q.next none w (p ∷ ps) out h.distinct h.chain);
        distinct = Distinct-append w (p ∷ ps) out h.distinct;
      })

unlink-IsQueue :
    (q : Queue) (w : ℕ) (xs ys : List ℕ)
    → IsQueue q (xs ++ (w ∷ ys))
    → IsQueue (unlink q w) (xs ++ ys)
unfolding unlink
unlink-IsQueue q w xs ys h =
    let (before, behind) = links_of q.prev q.next none w xs ys h.chain in
    let kept : relink q.next (back_or none xs) (front ys) w ≡ front ys =
      relink_before q.next (front ys) w xs ys h.distinct ∙ behind in
    rw (h.first, h.last, before, behind, kept)
      (record {
        first = front-unlink w xs ys h.distinct;
        last = back-unlink none w xs ys h.distinct;
        chain = Chain-unlink q.prev q.next none w xs ys tt h.distinct h.chain;
        distinct = Distinct-without w xs ys h.distinct;
      })

-- `epoll_queue` puts a waiter that is not in the queue behind the others; a queue of a known kind
-- passes the checks.
pub epoll_queue_lem :
    (q : Queue) (w : ℕ) (ps : List ℕ)
    → known_kind q.e ≡ true
    → IsQueue q ps
    → NotIn w ps
    → (r : Queue) × (epoll_queue q (some w) ≡ some r)
      × IsQueue r (ps ++ (w ∷ []))
      × (known_kind r.e ≡ true)
unfolding epoll_queue
epoll_queue_lem q w ps k h out =
    let known = ap (λ (n : ℕ). (n == 0) || (n == 1)) (link-kind q w) ∙ k in
    (link q w, passes q (λ q. link q w) k known, link-IsQueue q w ps h out, known)

-- epoll_dequeue takes a waiter out of a queue of a known kind, wherever it stands, and leaves the
-- others in order, linked both ways.
pub epoll_dequeue_lem :
    (q : Queue) (w : ℕ) (xs ys : List ℕ)
    → known_kind q.e ≡ true
    → IsQueue q (xs ++ (w ∷ ys))
    → (r : Queue) × (epoll_dequeue q (some w) ≡ some r)
      × IsQueue r (xs ++ ys)
      × (known_kind r.e ≡ true)
unfolding epoll_dequeue unlink
epoll_dequeue_lem q w xs ys k h =
    (unlink q w, passes q (λ q. unlink q w) k k, unlink-IsQueue q w xs ys h, k)
