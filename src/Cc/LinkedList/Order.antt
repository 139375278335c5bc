-- ===== src/Cc/LinkedList/Order.antt =====
-- A list that grows at its end and shrinks anywhere, as the sequence of its nodes.
use mathlib.Core.List.{Mem, mem-cons_self, mem-cons_of_mem, perm_append_singleton}
use mathlib.Core.List.Perm
use cuttle.Prelude.{
  ℕ, ◌<◌, ◌≡◌, ◌≢◌, refl, ap, ◌∙◌, subst, List, [], ◌∷◌, ◌++◌, Option, none, some, length, arith,
  ◌&&◌, not, false, length-append,
}
use cuttle.Cc.Links.{update, relink, front, back_or, NotIn, Distinct, Chain}
use cuttle.Cc.Links.Append.{Chain-append, Chain-append_last, back_or-append, Distinct-append}
use cuttle.Cc.Links.Unlink.{Chain-unlink, links_of, front-unlink, back-unlink, Distinct-without}
use cuttle.Cc.Pool.{Pool}
use cuttle.Cc.Pool.Ownership.{Owns, Owns-perm, takes-Owns, gives-Owns, free_lem, fails-Owns}
use cuttle.Cc.Pool.Safety.{Answers, answers}
use cuttle.Cc.LinkedList.{LinkedList, push, push_back, erase, link_after, unlink, is_null, put_item}

-- The nodes of the list are `ps`, in this order both ways, and the other blocks are free.
pub record IsList {ℓ} {A : Type ℓ} (n : ℕ) (cc : LinkedList A) (ps : List ℕ) : Type 0 where
  pub first : cc.head ≡ front ps
  pub last : cc.tail ≡ back_or none ps
  pub chain : Chain cc.prev cc.next none ps
  pub distinct : Distinct ps
  pub owns : Owns n (record { pool = cc.heap; held = ps })

pub NotIn-of : (b : ℕ) (ps : List ℕ) → (Mem b ps → ⊥) → NotIn b ps
NotIn-of b [] h = tt
NotIn-of b (p ∷ ps) h = (
  λ e. h (subst (λ x. Mem b (x ∷ ps)) e mem-cons_self),
  NotIn-of b ps (λ m. h (mem-cons_of_mem p m)),
)

back_some : (q : ℕ) (ps : List ℕ) → (t : ℕ) × (back_or (some q) ps ≡ some t)
back_some q [] = (q, refl)
back_some q (p ∷ ps) = back_some p ps

module _ {ℓ} {A : Type ℓ} (n : ℕ) (cc : LinkedList A) (p : Pool) (b : ℕ) where
  -- The list with `b` linked in at its end.
  linked : Option ℕ → LinkedList A
  linked after = link_after (record cc { heap = p }) b after

  push_back_links :
      (ps : List ℕ)
      → IsList n cc ps
      → NotIn b ps
      → Owns n (record { pool = p; held = b ∷ ps })
      → IsList n (linked cc.tail) (ps ++ (b ∷ []))
  unfolding linked link_after update relink
  push_back_links [] h fresh o = rw h.last (record {
    first = rw h.first;
    last = rw h.first;
    chain = Chain-append cc.prev cc.next none b [] tt tt tt;
    distinct = (tt, tt);
    owns = o;
  })
  push_back_links (q ∷ ps) h fresh o =
      let (t, e) = back_some q ps in
      rw (h.last ∙ e) (record {
        first = rw h.first;
        last = rw (h.first, back_or-append (some q) b ps) (ground arith);
        chain = Chain-append_last cc.prev cc.next b q t ps e fresh h.distinct h.chain;
        distinct = Distinct-append b (q ∷ ps) fresh h.distinct;
        owns = Owns-perm n p (Perm.symm (perm_append_singleton b (q ∷ ps))) o;
      })

pub some_held : (before : List ℕ) (w : ℕ) (after : List ℕ) → 0 < length (before ++ (w ∷ after))
some_held before w after = omega (arith, length-append before (w ∷ after))

module _ {ℓ} {A : Type ℓ} where
  -- What `push_back` of an item does to a list of the nodes `ps`.
  pub data Pushes (n : ℕ) (cc : LinkedList A) (ps : List ℕ) (x : A) : Type ℓ where
    linked_in :
        (r : LinkedList A) (b : ℕ)
        → push_back cc (some x) ≡ some (r, some b)
        → IsList n r (ps ++ (b ∷ []))
        → r.item b ≡ some x
        → ((q : ℕ) → q ≢ b → r.item q ≡ cc.item q)
        → Pushes n cc ps x
    full :
        (r : LinkedList A)
        → push_back cc (some x) ≡ some (r, none)
        → IsList n r ps
        → length ps ≡ n
        → Pushes n cc ps x

  guard_open :
      (n : ℕ) (cc : LinkedList A) (ps : List ℕ)
      → IsList n cc ps
      → (is_null cc.tail && not (is_null cc.head)) ≡ false
  guard_open n cc [] h = rw (h.first, h.last)
  guard_open n cc (q ∷ ps) h = let (t, e) = back_some q ps in rw (h.last ∙ e)

  pub IsList-item :
      (n : ℕ) (cc : LinkedList A) {ps : List ℕ} (item : ℕ → Option A)
      → IsList n cc ps
      → IsList n (record cc { item = item }) ps
  IsList-item n list item h = record {
    first = h.first;
    last = h.last;
    chain = h.chain;
    distinct = h.distinct;
    owns = h.owns;
  }

  item-linked :
      (n : ℕ) (cc : LinkedList A) (p : Pool) (b : ℕ) (after : Option ℕ)
      → (linked n cc p b after).item ≡ cc.item
  unfolding linked link_after
  item-linked n list p b none = refl
  item-linked n list p b (some a) = refl

  -- On a well-formed list, `push_back` links a new node with the item at the end, both ways, and
  -- leaves the items of the other nodes, or changes nothing and gives null where all n nodes are
  -- in the list.
  pub push_back-IsList :
      (n : ℕ) (cc : LinkedList A) (ps : List ℕ) (x : A) → IsList n cc ps → Pushes n cc ps x
  unfolding push_back push linked put_item
  push_back-IsList n cc ps x h = elim (answers n _ h.owns) [
    | Answers.block p b run lt fresh ↦
        let r : LinkedList A = linked n cc p b cc.tail in
        let same : r.item ≡ cc.item = item-linked n cc p b cc.tail in
        Pushes.linked_in (record r { item = put_item r.item b x }) b
          (rw (guard_open n cc ps h, run))
          (IsList-item n r _ (
            push_back_links n cc p b ps h (NotIn-of b ps fresh)
              (takes-Owns n _ h.owns.idle p b h.owns.queue h.owns.size h.owns.whole run)))
          (ground arith) (λ q ne. ground (arith, ap (λ f. f q) same))
    | Answers.exhausted p run all ↦
        Pushes.full (record cc { heap = p }) (rw (guard_open n cc ps h, run))
          (record {
            first = h.first;
            last = h.last;
            chain = h.chain;
            distinct = h.distinct;
            owns = fails-Owns n _ p h.owns run;
          })
          all
  ]

  -- On a well-formed list, `erase` of any of its nodes takes this node out, both ways, and gives
  -- it back to the pool: the list is well formed with the other nodes in their order and with
  -- their items.
  pub erase-IsList :
      (n : ℕ) (cc : LinkedList A) (before : List ℕ) (w : ℕ) (after : List ℕ)
      → IsList n cc (before ++ (w ∷ after))
      → (r : LinkedList A) × (erase cc (some w) ≡ some r)
        × IsList n r (before ++ after)
        × (r.item ≡ cc.item)
  unfolding erase
  erase-IsList n cc before w after h =
      let (p, run, _, _) = free_lem n _ h.owns w (some_held before w after) in
      let (back, ahead) = links_of cc.prev cc.next none w before after h.chain in
      (
        record (unlink cc w) { heap = p },
        rw run,
        record {
          first = rw (h.first, ahead) (front-unlink w before after h.distinct);
          last = rw (h.last, back) (back-unlink none w before after h.distinct);
          chain =
              rw (back, ahead)
                (Chain-unlink cc.prev cc.next none w before after tt h.distinct h.chain);
          distinct = Distinct-without w before after h.distinct;
          owns = gives-Owns n _ p before w after h.owns refl run;
        },
        refl,
      )
