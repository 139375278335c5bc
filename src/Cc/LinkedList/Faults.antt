-- ===== src/Cc/LinkedList/Faults.antt =====
-- Insertion in the middle of a list. `push` behind a node with a successor leaves the successor
-- pointing back at that node, and `insert` before a node with a predecessor leaves the predecessor
-- pointing ahead at that node: one of the two directions misses the new node.
use mathlib.Core.List.{Mem, mem-append_right, mem-cons_self, mem-cons_of_mem}
use cuttle.Prelude.{
  some_eq, ℕ, ◌≡◌, ◌≢◌, sym, ◌∙◌, List, [], ◌∷◌, ◌++◌, Option, none, some, arith, length, ◌<◌,
}
use cuttle.Cc.Links.{Field, update, Chain, update_ne, update_self}
use cuttle.Cc.Pool.Safety.{Answers, answers}
use cuttle.Cc.LinkedList.{LinkedList, push, insert, link_after, link_before, put_if, put_item}
use cuttle.Cc.LinkedList.Order.{IsList}

neighbours :
    (prev next : Field) (b : Option ℕ) (xs : List ℕ) (a c : ℕ) (ys : List ℕ)
    → Chain prev next b (xs ++ (a ∷ c ∷ ys))
    → (next a ≡ some c) × (prev c ≡ some a)
neighbours prev next b [] a c ys h = (h.1, h.2.0)
neighbours prev next b (x ∷ xs) a c ys h = neighbours prev next (some x) xs a c ys h.2

behind :
    (prev next : Field) (o : Option ℕ) (xs : List ℕ) (a b c : ℕ) (ys : List ℕ)
    → Chain prev next o (xs ++ (a ∷ b ∷ c ∷ ys))
    → prev c ≡ some b
behind prev next o [] a b c ys h = h.2.2.0
behind prev next o (x ∷ xs) a b c ys h = behind prev next (some x) xs a b c ys h.2

mem_first : (xs : List ℕ) (a c : ℕ) (ys : List ℕ) → Mem a (xs ++ (a ∷ c ∷ ys))
mem_first xs a c ys = mem-append_right xs mem-cons_self

mem_second : (xs : List ℕ) (a c : ℕ) (ys : List ℕ) → Mem c (xs ++ (a ∷ c ∷ ys))
mem_second xs a c ys = mem-append_right xs (mem-cons_of_mem a mem-cons_self)

module _ {ℓ} {A : Type ℓ} (n : ℕ) (l : LinkedList A) (xs : List ℕ) (a c : ℕ) (ys : List ℕ)
    (h : IsList n l (xs ++ (a ∷ c ∷ ys))) where
  module _ (b : ℕ) (fresh : Mem b (xs ++ (a ∷ c ∷ ys)) → ⊥) where
    ne_first : b ≢ a
    ne_first e = fresh (rw e (mem_first xs a c ys))

    ne_second : b ≢ c
    ne_second e = fresh (rw e (mem_second xs a c ys))

  -- On a well-formed list with a free node, `push` behind a node that has a successor links the
  -- new node ahead, but leaves the successor pointing back at the old node, so the result is not a
  -- well-formed list of the nodes in their new order.
  pub push_middle :
      (x : Option A)
      → length (xs ++ (a ∷ c ∷ ys)) < n
      → (r : LinkedList A) × (b : ℕ) × (push l (some a) x ≡ some (r, some b))
        × (r.next a ≡ some b)
        × (r.next b ≡ some c)
        × (r.prev c ≡ some a)
        × (IsList n r (xs ++ (a ∷ b ∷ c ∷ ys)) → ⊥)
  unfolding push link_after
  push_middle x room = elim (answers n _ h.owns) [
    | Answers.block p b run lt fresh ↦
        let (ahead, back) = neighbours l.prev l.next none xs a c ys h.chain in
        let linked : LinkedList A = link_after (record l { heap = p }) b (some a) in
        let kept : update l.prev b (some a) c ≡ some a =
          update_ne l.prev b c (some a) (λ e. ne_second b fresh (sym e)) ∙ back in
        (
          record linked { item = put_if linked.item b x },
          b,
          rw run,
          update_self _ a (some b),
          update_ne _ a b (some b) (ne_first b fresh) ∙ update_self l.next b (l.next a) ∙ ahead,
          kept,
          λ whole.
              ne_first b fresh (some_eq (sym (behind _ _ none xs a b c ys whole.chain) ∙ kept)),
        )
    | Answers.exhausted p run all ↦ absurd (omega arith)
  ]

  -- On a well-formed list with a free node, `insert` before a node that has a predecessor links
  -- the new node back, but leaves the predecessor pointing ahead at the old node, so the result is
  -- not a well-formed list of the nodes in their new order.
  pub insert_middle :
      (x : A)
      → length (xs ++ (a ∷ c ∷ ys)) < n
      → (r : LinkedList A) × (b : ℕ) × (insert l (some c) x ≡ some (r, some b))
        × (r.prev c ≡ some b)
        × (r.prev b ≡ some a)
        × (r.next a ≡ some c)
        × (IsList n r (xs ++ (a ∷ b ∷ c ∷ ys)) → ⊥)
  unfolding insert link_before
  insert_middle x room = elim (answers n _ h.owns) [
    | Answers.block p b run lt fresh ↦
        let (ahead, back) = neighbours l.prev l.next none xs a c ys h.chain in
        let linked : LinkedList A = link_before (record l { heap = p }) b (some c) in
        let kept : update l.next b (some c) a ≡ some c =
          update_ne l.next b a (some c) (λ e. ne_first b fresh (sym e)) ∙ ahead in
        (
          record linked { item = put_item linked.item b x },
          b,
          rw run,
          update_self _ c (some b),
          update_ne _ c b (some b) (ne_second b fresh) ∙ update_self l.prev b (l.prev c) ∙ back,
          kept,
          λ whole.
              ne_second b fresh
                (some_eq (sym (neighbours _ _ none xs a b (c ∷ ys) whole.chain).0 ∙ kept)),
        )
    | Answers.exhausted p run all ↦ absurd (omega arith)
  ]
