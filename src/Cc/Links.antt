-- ===== src/Cc/Links.antt =====
-- Doubly linked lists of nodes, as the pairs of link fields `prev` and `next` of every node. The
-- linked list of include/cuttle/cclist.h and the queue of waiters of src/cothread/co-scheduler.c
-- are such; a node is named by its address.
pub mod Append
pub mod Unlink
use cuttle.Prelude.{
  ℕ, ◌≡◌, ◌≢◌, List, [], ◌∷◌, Option, none, some, Bool, true, false, ◌==◌, if◌then◌else◌, arith,
  refl,
}

-- A field of every node.
abbrev pub Field : Type 0
Field = ℕ → Option ℕ

unfoldable pub update : Field → ℕ → Option ℕ → Field
update f p v q = if q == p then v else f q

-- `if ( p ) p->field = v`
unfoldable pub relink : Field → Option ℕ → Option ℕ → Field
relink f none v = f
relink f (some p) v = update f p v

-- Comparison of a pointer with a node.
abbrev pub points_at : Option ℕ → ℕ → Bool
points_at none p = false
points_at (some q) p = q == p

abbrev pub front : List ℕ → Option ℕ
front [] = none
front (p ∷ ps) = some p

-- The last node, or `b` where there is none.
abbrev pub back_or : Option ℕ → List ℕ → Option ℕ
back_or b [] = b
back_or b (p ∷ ps) = back_or (some p) ps

abbrev pub NotIn : ℕ → List ℕ → Type 0
NotIn w [] = Unit
NotIn w (p ∷ ps) = (w ≢ p) × NotIn w ps

abbrev pub Distinct : List ℕ → Type 0
Distinct [] = Unit
Distinct (p ∷ ps) = NotIn p ps × Distinct ps

-- The nodes are linked both ways, and `b` is what stands before the first.
abbrev pub Chain : Field → Field → Option ℕ → List ℕ → Type 0
Chain prev next b [] = Unit
Chain prev next b (p ∷ ps) = (prev p ≡ b) × (next p ≡ front ps) × Chain prev next (some p) ps

pub update_self : (f : Field) (p : ℕ) (v : Option ℕ) → update f p v p ≡ v
unfolding update
update_self f p v = ground arith

pub update_ne : (f : Field) (p q : ℕ) (v : Option ℕ) → q ≢ p → update f p v q ≡ f q
unfolding update
update_ne f p q v h = ground arith

-- A write to a node that is not in the list leaves the list as it is.
pub Chain-update_prev :
    (prev next : Field) (b : Option ℕ) (w : ℕ) (v : Option ℕ) (ps : List ℕ)
    → NotIn w ps
    → Chain prev next b ps
    → Chain (update prev w v) next b ps
Chain-update_prev prev next b w v [] out c = tt
Chain-update_prev prev next b w v (p ∷ ps) out c = (
  ground (arith, update_ne prev w p v),
  c.1,
  Chain-update_prev prev next (some p) w v ps out.1 c.2,
)

pub Chain-update_next :
    (prev next : Field) (b : Option ℕ) (w : ℕ) (v : Option ℕ) (ps : List ℕ)
    → NotIn w ps
    → Chain prev next b ps
    → Chain prev (update next w v) b ps
Chain-update_next prev next b w v [] out c = tt
Chain-update_next prev next b w v (p ∷ ps) out c = (
  c.0,
  ground (arith, update_ne next w p v),
  Chain-update_next prev next (some p) w v ps out.1 c.2,
)
