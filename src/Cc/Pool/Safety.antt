-- ===== src/Cc/Pool/Safety.antt =====
-- What follows for the users of a pool: no block is given out twice.
use mathlib.Core.List.{
  Mem, Perm, Nodup, Nodup-cons, Nodup-nil, Nodup-append, mem-cons, not-mem-nil, mem-append_right,
  mem-cons_self,
}
use mathlib.Core.List.Perm
use mathlib.Core.Logic.Or
use native.Mathlib.Bridge.{le_prop}
use cuttle.Prelude.{
  ℕ, zero, suc, ◌<◌, ◌≡◌, refl, ap, ◌∙◌, ◌++◌, List, [], ◌∷◌, none, some, arith, length,
}
use cuttle.Cc.Fifo.Repr
use cuttle.Cc.Pool.{Pool, alloc}
use cuttle.Cc.Pool.Ownership.{Use, Owns, Reach, below, reach-Owns, alloc_lem, owned_count}

mem-below : (n a : ℕ) → Mem a (below n) → a < n
unfolding below
mem-below zero a m = absurd (not-mem-nil m)
mem-below (suc n) a m =
    Or.elim le_prop (mem-cons.0 m) (λ e. omega arith)
      (λ m'. let h = mem-below n a m' in omega arith)

below-Nodup : (n : ℕ) → Nodup (below n)
unfolding below
below-Nodup zero = Nodup-nil
below-Nodup (suc n) =
    Nodup-cons.1 ((λ m. let h : n < n = mem-below n n m in absurd (omega arith)), below-Nodup n)

-- What the next `alloc` gives: a block that nobody holds, or none where all are held.
pub data Answers (n : ℕ) (u : Use) : Type 0 where
  block :
      (p : Pool) (b : ℕ)
      → alloc u.pool ≡ some (p, some b)
      → b < n
      → (Mem b u.held → ⊥)
      → Answers n u
  exhausted : (p : Pool) → alloc u.pool ≡ some (p, none) → length u.held ≡ n → Answers n u

Answers-from : (n : ℕ) (u : Use) (idle : List ℕ) (o : Owns n u) → o.idle ≡ idle → Answers n u
Answers-from n u [] o e =
    let (p, run, _, _) = alloc_lem n u o in
    Answers.exhausted p (run ∙ ap (λ l. some (p, Repr.front l)) e)
      (omega (arith, owned_count n u o, ap length e))
Answers-from n u (x ∷ xs) o e =
    let (p, run, _, _) = alloc_lem n u o in
    let whole : Perm (x ∷ (xs ++ u.held)) (below n) = rw e at o.whole in
    Answers.block p x (run ∙ ap (λ l. some (p, Repr.front l)) e)
      (mem-below n x ((Perm.mem_iff whole).0 mem-cons_self))
      (λ m. (Nodup-cons.0 (Perm.nodup (Perm.symm whole) (below-Nodup n))).0 (mem-append_right xs m))

pub answers : (n : ℕ) (u : Use) → Owns n u → Answers n u
answers n u o = Answers-from n u o.idle o refl

-- From a pool whose blocks are free or held by one user each, whatever users that free only what
-- they hold take and give back: no block is held twice, every block held is one of the n blocks,
-- and the next `alloc` gives a block that nobody holds or fails, which it does only when all n are
-- held.
pub reach_safe :
    (n : ℕ) {u v : Use}
    → Owns n u
    → Reach u v
    → Nodup v.held × ((b : ℕ) → Mem b v.held → b < n) × Answers n v
reach_safe n {u} {v} o r =
    let o' = reach-Owns n o r in
    let once = Perm.nodup (Perm.symm o'.whole) (below-Nodup n) in
    (
      (Nodup-append.0 once).1,
      λ b m. mem-below n b ((Perm.mem_iff o'.whole).0 (mem-append_right o'.idle m)),
      answers n v o',
    )
