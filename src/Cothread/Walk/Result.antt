-- ===== src/Cothread/Walk/Result.antt =====
-- A whole walk: what it finds, what it leaves, and that it comes to an end.
use cuttle.Prelude.{
  ℕ, zero, suc, ◌-◌, ◌≤◌, ◌<◌, ◌≡◌, refl, ap, ◌∙◌, sym, List, [], ◌∷◌, ◌++◌, none, Bool, true,
  false, if◌then◌else◌, length, arith, map, take, ◌⊎◌, inl, inr, append-nil,
}
use cuttle.Cc.Links.{front, Distinct, Chain}
use cuttle.Cc.LinkedList.{LinkedList}
use cuttle.Cothread.Waiter.{Waiter}
use cuttle.Cothread.Walk.{Walk, Turn, mark, unmark, walk_waiters_list, int_max, finish}
use cuttle.Cothread.Walk.Scan.{Holds, elem, fresh, ready, wait_time, settle, scan, walk_from-scan}
use cuttle.Cothread.Walk.Round.{IsWalk, extend, round_of, Holds-same}

abbrev Walks : (ct ccmax : ℕ) → Walk → List ℕ → List Waiter → Type 0
Walks ct ccmax s ps ws =
    ((c : ℕ) → s.marked c ≡ elem c s.cc)
    → length s.cc < ccmax
    → Distinct ps
    → Holds s.item ps ws
    → (r : Walk) × IsWalk ct ccmax s ps ws r

take_nothing : (n : ℕ) (xs : List ℕ) → xs ≡ xs ++ take n []
take_nothing zero xs = sym (append-nil xs)
take_nothing (suc n) xs = sym (append-nil xs)

walks : (ct ccmax : ℕ) (s : Walk) (ps : List ℕ) (ws : List Waiter) → Walks ct ccmax s ps ws
unfolding scan fresh ready wait_time
walks ct ccmax s [] [] m l d h = (
  s,
  record {
    ends = inl refl;
    found = take_nothing _ s.cc;
    marks = m;
    others = λ q o. refl;
    time = λ k. refl;
    settled = λ k. tt;
  },
)
walks ct ccmax s [] (w ∷ ws) m l d h = elim h [ ]
walks ct ccmax s (p ∷ ps) [] m l d h = elim h [ ]
walks ct ccmax s (p ∷ ps) (w ∷ ws) m l d h = elim (round_of ct ccmax s p ws m l w ps h.0 h.1) [
  | inl (t, g) ↦
      let (r, k) =
        walks ct ccmax t ps ws g.flags g.room d.1
          (Holds-same s.item t.item p ps ws d.0 g.there h.2) in
      (r, extend ct ccmax s t r p w ps ws g d.0 h.1 k)
  | inr found ↦ found
]

unmark_lem :
    (marked : ℕ → Bool) (cc : List ℕ) (c : ℕ)
    → unmark marked cc c ≡ (if elem c cc then false else marked c)
unfolding unmark mark
unmark_lem marked [] c = refl
unmark_lem marked (x ∷ cc) c = ground (arith, unmark_lem (mark marked x false) cc c)

-- What a walk finds and leaves.
pub record Found (ct ccmax : ℕ) (ps : List ℕ) (ws : List Waiter) (s : Walk) : Type 0 where
  pub found : s.cc ≡ take ccmax (fresh [] (ready ct ws))
  pub unmarked : (c : ℕ) → s.marked c ≡ false
  pub time : length s.cc < ccmax → s.tmo ≡ wait_time ct int_max ws
  pub settled : length s.cc < ccmax → Holds s.item ps (map (settle ct) ws)

-- On a list of waiters that is linked both ways and in which no deadline is 0, a walk comes to its
-- end after as many rounds as there are waiters; it has found the coroutines that have something
-- to do, each once, in the order of their waiters, up to the size of the array; no scheduler data
-- is set; and unless the array is full, the time to wait is that of the waiters, and each waiter
-- is left as its verdict says.
pub walk_waiters_list_lem :
    (fuel ct ccmax : ℕ) (waiters : LinkedList Waiter) (ps : List ℕ) (ws : List Waiter)
    → 0 < ccmax
    → waiters.head ≡ front ps
    → Chain waiters.prev waiters.next none ps
    → Distinct ps
    → Holds waiters.item ps ws
    → length ps ≤ fuel
    → (s : Walk) × (walk_waiters_list fuel ct ccmax waiters (λ c. false) ≡ Turn.done s)
      × Found ct ccmax ps ws s
unfolding walk_waiters_list
walk_waiters_list_lem fuel ct ccmax waiters ps ws room first chain distinct held enough =
    let start : Walk = record {
      item = waiters.item;
      marked = λ c. false;
      cc = [];
      tmo = int_max;
    } in
    let whole : ccmax - 0 ≡ ccmax = omega arith in
    let (r, k) = walks ct ccmax start ps ws (λ c. refl) room distinct held in
    (
      record r { marked = unmark r.marked r.cc },
      rw first (
          ap finish (walk_from-scan _ waiters.next none fuel ct ccmax start ps chain enough)
          ∙ finished k.ends),
      record {
        found = k.found ∙ ap (λ (n : ℕ). take n (fresh [] (ready ct ws))) whole;
        unmarked = λ c. unmark_lem r.marked r.cc c ∙ cleared _ _ (k.marks c);
        time = k.time;
        settled = k.settled;
      },
    )
  where
    finished :
        {t : Turn} {r : Walk}
        → (t ≡ Turn.goes_on r) ⊎ (t ≡ Turn.done r)
        → finish t ≡ Turn.done (record r { marked = unmark r.marked r.cc })
    finished (inl e) = rw e refl
    finished (inr e) = rw e refl

    cleared : (b m : Bool) → m ≡ b → (if b then false else m) ≡ false
    cleared true m e = refl
    cleared false m e = e
