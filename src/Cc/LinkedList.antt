-- ===== src/Cc/LinkedList.antt =====
-- include/cuttle/cclist.h, a doubly linked list whose nodes come from a pool. A node is named by
-- its block; `prev`, `next` and `item` are the fields of every node of the pool. `none` as an outer
-- result is an access outside the pool's queue.
pub mod Order
pub mod Faults
use cuttle.Prelude.{
  ℕ, List, Option, none, some, Bool, true, false, ◌>>=◌, ◌==◌, ◌&&◌, not, if◌then◌else◌,
}
use cuttle.Cc.Links.{Field, update, relink, points_at}
use cuttle.Cc.Pool
use cuttle.Cc.Pool.{Pool}

pub record LinkedList {ℓ} (A : Type ℓ) : Type ℓ where
  pub heap : Pool
  pub prev : Field
  pub next : Field
  pub item : ℕ → Option A
  pub head : Option ℕ
  pub tail : Option ℕ
  pub capacity : ℕ

abbrev pub is_null : Option ℕ → Bool
is_null none = true
is_null (some p) = false

module _ {ℓ} {A : Type ℓ} where
  -- The first flag and the function are the memory of the pool; the fields start as they are.
  pub init : Bool → (ℕ → Option (List ℕ)) → LinkedList A → ℕ → Option (LinkedList A × Bool)
  init blocks malloc cc capacity =
      Pool.init blocks malloc capacity
      >>= (λ r. some (record cc { heap = r.0; head = none; tail = none; capacity = capacity }, r.1))

  pub cleanup : LinkedList A → LinkedList A
  cleanup cc = record cc { heap = Pool.cleanup cc.heap; head = none; tail = none; capacity = 0 }

  -- `memcpy(node->item, pitem, …)`
  unfoldable pub put_item : (ℕ → Option A) → ℕ → A → ℕ → Option A
  put_item item node x p = if p == node then some x else item p

  -- `if ( pitem ) memcpy(…)`
  pub put_if : (ℕ → Option A) → ℕ → Option A → ℕ → Option A
  unfolding put_item
  put_if item node none = item
  put_if item node (some x) = put_item item node x

  -- The links of `push`, once it has the node: `node->prev = after`, and what follows.
  link_after : LinkedList A → ℕ → Option ℕ → LinkedList A
  link_after cc node none =
      let empty = is_null cc.head in
      record cc {
        prev = update cc.prev node none;
        head = if empty then some node else cc.head;
        tail = if empty then some node else cc.tail;
        next = update cc.next node none;
      }
  link_after cc node (some after) =
      let empty = is_null cc.head in
      let tail = if empty then some node else cc.tail in
      record cc {
        prev = update cc.prev node (some after);
        head = if empty then some node else cc.head;
        next = update (update cc.next node (cc.next after)) after (some node);
        tail = if points_at tail after then some node else tail;
      }

  -- The result is the node, the null pointer where there is none.
  pub push : LinkedList A → Option ℕ → Option A → Option (LinkedList A × Option ℕ)
  unfolding link_after put_if
  push cc after pitem =
      if is_null after && not (is_null cc.head)
      then some (cc, none)
      else Pool.alloc cc.heap >>= (λ r. elim r.1 [
        | none ↦ some (record cc { heap = r.0 }, none)
        | some node ↦
            let linked = link_after (record cc { heap = r.0 }) node after in
            some (record linked { item = put_if linked.item node pitem }, some node)
      ])

  pub push_back : LinkedList A → Option A → Option (LinkedList A × Option ℕ)
  unfolding push
  push_back cc pitem = push cc cc.tail pitem

  -- The links of `insert`: `node->next = before`, and what follows.
  link_before : LinkedList A → ℕ → Option ℕ → LinkedList A
  link_before cc node none =
      let empty = is_null cc.tail in
      record cc {
        next = update cc.next node none;
        tail = if empty then some node else cc.tail;
        head = if empty then some node else cc.head;
        prev = update cc.prev node none;
      }
  link_before cc node (some before) =
      let empty = is_null cc.tail in
      let head = if empty then some node else cc.head in
      record cc {
        next = update cc.next node (some before);
        tail = if empty then some node else cc.tail;
        prev = update (update cc.prev node (cc.prev before)) before (some node);
        head = if points_at head before then some node else head;
      }

  pub insert : LinkedList A → Option ℕ → A → Option (LinkedList A × Option ℕ)
  unfolding link_before put_item
  insert cc before pitem =
      if is_null before && not (is_null cc.tail)
      then some (cc, none)
      else Pool.alloc cc.heap >>= (λ r. elim r.1 [
        | none ↦ some (record cc { heap = r.0 }, none)
        | some node ↦
            let linked = link_before (record cc { heap = r.0 }) node before in
            some (record linked { item = put_item linked.item node pitem }, some node)
      ])

  -- The links of `erase`, for a node that is not null.
  unlink : LinkedList A → ℕ → LinkedList A
  unlink cc node =
      let prev = cc.prev node in
      let next = cc.next node in
      record cc {
        next = relink cc.next prev next;
        prev = relink cc.prev next prev;
        head = if points_at cc.head node then next else cc.head;
        tail = if points_at cc.tail node then prev else cc.tail;
      }

  pub erase : LinkedList A → Option ℕ → Option (LinkedList A)
  unfolding unlink
  erase cc none = some cc
  erase cc (some node) =
      Pool.free cc.heap node >>= (λ heap. some (record (unlink cc node) { heap = heap }))

  pub peek : LinkedList A → Option ℕ → Option A
  peek cc none = none
  peek cc (some node) = cc.item node
