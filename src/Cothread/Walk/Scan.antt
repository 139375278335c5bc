-- ===== src/Cothread/Walk/Scan.antt =====
-- What a walk finds, in terms of the list of the waiters.
use cuttle.Prelude.{
  ℕ, zero, suc, ◌≤◌, ◌≡◌, ◌≢◌, refl, ap, ◌∙◌, sym, List, [], ◌∷◌, ◌++◌, Option, none, some, Bool,
  true, false, ◌||◌, ltb, ◌==◌, if◌then◌else◌, length, arith, fun_ext,
}
use cuttle.Prelude.Int.{ℤ}
use cuttle.Cc.Links.{Field, front, NotIn, Chain}
use cuttle.Cc.LinkedList.{put_item}
use cuttle.Cothread.Waiter.{Waiter}
use cuttle.Cothread.Walk.{Walk, Verdict, Turn, verdict, turn, walk_from, taken, yielded, continue}

-- The nodes `ps` hold the waiters `ws`, and no deadline is 0.
abbrev pub Holds : (ℕ → Option Waiter) → List ℕ → List Waiter → Type 0
Holds item [] [] = Unit
Holds item [] (w ∷ ws) = ⊥
Holds item (p ∷ ps) [] = ⊥
Holds item (p ∷ ps) (w ∷ ws) = (item p ≡ some w) × (w.tmo ≢ ℤ.pos 0) × Holds item ps ws

abbrev pub elem : ℕ → List ℕ → Bool
elem c [] = false
elem c (x ∷ xs) = (c == x) || elem c xs

-- What of a list has not been seen, each once.
unfoldable pub fresh : List ℕ → List ℕ → List ℕ
fresh seen [] = []
fresh seen (c ∷ cs) = elim (elem c seen) [
  | true ↦ fresh seen cs
  | false ↦ c ∷ fresh (seen ++ (c ∷ [])) cs
]

unfoldable pub is_signaled : Verdict → Bool
is_signaled Verdict.signaled = true
is_signaled Verdict.yields = false
is_signaled (Verdict.waits dt) = false
is_signaled Verdict.sleeps = false
is_signaled Verdict.bug = false

-- The coroutines that have something to do, in the order of their waiters.
unfoldable pub ready : ℕ → List Waiter → List ℕ
unfolding is_signaled
ready ct [] = []
ready ct (w ∷ ws) = elim w.co [
  | none ↦ ready ct ws
  | some co ↦ if is_signaled (verdict ct w) then co ∷ ready ct ws else ready ct ws
]

unfoldable pub shorten : ℕ → Verdict → ℕ
shorten tmo Verdict.yields = 0
shorten tmo (Verdict.waits dt) = if ltb dt tmo then dt else tmo
shorten tmo Verdict.signaled = tmo
shorten tmo Verdict.sleeps = tmo
shorten tmo Verdict.bug = tmo

-- The time to wait: none where a coroutine yields, and else the nearest deadline.
unfoldable pub wait_time : ℕ → ℕ → List Waiter → ℕ
unfolding shorten
wait_time ct tmo [] = tmo
wait_time ct tmo (w ∷ ws) = elim w.co [
  | none ↦ wait_time ct tmo ws
  | some co ↦ wait_time ct (shorten tmo (verdict ct w)) ws
]

unfoldable pub settle_by : Waiter → Verdict → Waiter
settle_by w Verdict.yields = yielded w
settle_by w Verdict.signaled = taken w
settle_by w (Verdict.waits dt) = w
settle_by w Verdict.sleeps = w
settle_by w Verdict.bug = w

-- A waiter after the walk.
unfoldable pub settle : ℕ → Waiter → Waiter
unfolding settle_by
settle ct w = elim w.co [ none ↦ w | some co ↦ settle_by w (verdict ct w) ]

-- The walk along the list of the nodes.
unfoldable pub scan : ℕ → ℕ → Walk → List ℕ → Turn
scan ct ccmax s [] = Turn.goes_on s
scan ct ccmax s (p ∷ ps) = continue (turn ct ccmax s p) (λ s'. scan ct ccmax s' ps)

-- The walk along the links is the walk along the list.
pub walk_from-scan :
    (prev next : Field) (b : Option ℕ) (fuel ct ccmax : ℕ) (s : Walk) (ps : List ℕ)
    → Chain prev next b ps
    → length ps ≤ fuel
    → walk_from fuel ct ccmax next s (front ps) ≡ scan ct ccmax s ps
unfolding walk_from scan
walk_from-scan prev next b fuel ct ccmax s [] c h = refl
walk_from-scan prev next b zero ct ccmax s (p ∷ ps) c h = absurd (omega arith)
walk_from-scan prev next b (suc fuel) ct ccmax s (p ∷ ps) c h = ap (continue (turn ct ccmax s p)) (
    fun_ext (λ s'.
      ap (walk_from fuel ct ccmax next s') c.1
      ∙ walk_from-scan prev next (some p) fuel ct ccmax s' ps c.2 (omega arith)))

pub put_self : (item : ℕ → Option Waiter) (p : ℕ) (w : Waiter) → put_item item p w p ≡ some w
unfolding put_item
put_self item p w = ground arith

pub put_ne :
    (item : ℕ → Option Waiter) (p q : ℕ) (w : Waiter) → q ≢ p → put_item item p w q ≡ item q
unfolding put_item
put_ne item p q w h = ground arith

pub Holds-put :
    (item : ℕ → Option Waiter) (p : ℕ) (w : Waiter) (ps : List ℕ) (ws : List Waiter)
    → NotIn p ps
    → Holds item ps ws
    → Holds (put_item item p w) ps ws
Holds-put item p w [] [] out h = tt
Holds-put item p w [] (v ∷ ws) out h = elim h [ ]
Holds-put item p w (q ∷ ps) [] out h = elim h [ ]
Holds-put item p w (q ∷ ps) (v ∷ ws) out h =
    (put_ne item p q w (λ e. out.0 (sym e)) ∙ h.0, h.1, Holds-put item p w ps ws out.1 h.2)
