-- ===== src/Cothread/Lock/Exclusion.antt =====
-- Who is between a lock and an unlock: coroutines and threads in any order of their steps.
use cuttle.Prelude.{
  ℕ, ◌≡◌, refl, ap, ◌∙◌, sym, Option, none, some, Bool, true, false, ◌==◌, if◌then◌else◌, arith,
  some_eq, Bool-cases, Option-cases, inl, inr,
}
use cuttle.Cc.Links.{points_at}
use cuttle.Cothread.Lock.{Lock, co_thread_check, lock_round, unlock_internal, co_thread_unlock}

-- A lock, and who has come back from `co_thread_lock` or `co_thread_wait` and has not given it up.
pub record System : Type 0 where
  pub lock : Lock
  pub inside : ℕ → Bool

unfoldable pub set_inside : (ℕ → Bool) → ℕ → Bool → ℕ → Bool
set_inside inside i b j = if j == i then b else inside j

-- `waits` is the start of `co_thread_wait`, which gives the lock up after the check; the wait ends
-- with the rounds of a lock. `refused` is an unlock, a signal or a wait without the lock.
pub data Step (s : System) : System → Type 0 where
  enters :
      (i : ℕ) (l : Lock)
      → lock_round s.lock i ≡ (l, true)
      → Step s (record { lock = l; inside = set_inside s.inside i true })
  spins :
      (i : ℕ) (l : Lock)
      → lock_round s.lock i ≡ (l, false)
      → Step s (record { lock = l; inside = s.inside })
  leaves :
      (i : ℕ) (l : Lock)
      → co_thread_unlock (some s.lock) i ≡ (some l, true)
      → Step s (record { lock = l; inside = set_inside s.inside i false })
  waits :
      (i : ℕ) (l : Lock)
      → co_thread_check (some s.lock) i ≡ some l
      → Step s (record { lock = unlock_internal l; inside = set_inside s.inside i false })
  refused :
      (i : ℕ) (l : Lock)
      → co_thread_unlock (some s.lock) i ≡ (some l, false)
      → Step s (record { lock = l; inside = s.inside })

pub data Reach (s : System) : System → Type 0 where
  here : Reach s s
  next : {t u : System} → Reach s t → Step t u → Reach s u

takes : (obj l : Lock) (i : ℕ) → lock_round obj i ≡ (l, true) → (obj.co ≡ none) × (l.co ≡ some i)
unfolding lock_round
takes obj l i e = elim (Option-cases obj.co) [
  | inl n ↦
      let run : lock_round obj i ≡ (record obj { co = some i }, true) = rw (lock_round, n) refl in
      (n, sym (ap (λ (r : Lock × Bool). r.0.co) (sym run ∙ e)))
  | inr (c, n) ↦
      let run : lock_round obj i ≡ (obj, false) = rw (lock_round, n) refl in
      let no : false ≡ true = ap (λ (r : Lock × Bool). r.1) (sym run ∙ e) in cc
]

keeps : (obj l : Lock) (i : ℕ) → lock_round obj i ≡ (l, false) → obj ≡ l
unfolding lock_round
keeps obj l i e = elim (Option-cases obj.co) [
  | inl n ↦
      let run : lock_round obj i ≡ (record obj { co = some i }, true) = rw (lock_round, n) refl in
      let no : true ≡ false = ap (λ (r : Lock × Bool). r.1) (sym run ∙ e) in cc
  | inr (c, n) ↦
      let run : lock_round obj i ≡ (obj, false) = rw (lock_round, n) refl in
      ap (λ (r : Lock × Bool). r.0) (sym run ∙ e)
]

checks :
    (obj l : Lock) (i : ℕ)
    → co_thread_check (some obj) i ≡ some l
    → (points_at obj.co i ≡ true) × (obj ≡ l)
unfolding co_thread_check
checks obj l i e = elim (Bool-cases (points_at obj.co i)) [
  | inl n ↦
      let run : co_thread_check (some obj) i ≡ some obj = rw (co_thread_check, n) refl in
      (n, some_eq (sym run ∙ e))
  | inr n ↦
      let run : co_thread_check (some obj) i ≡ none = rw (co_thread_check, n) refl in
      let no : none ≡ some l = sym run ∙ e in cc
]

unlock_held :
    (obj : Lock) (i : ℕ)
    → points_at obj.co i ≡ true
    → co_thread_unlock (some obj) i ≡ (some (record obj { co = none }), true)
unfolding co_thread_unlock co_thread_check unlock_internal
unlock_held obj i n = rw (co_thread_unlock, n) refl

unlock_free :
    (obj : Lock) (i : ℕ)
    → points_at obj.co i ≡ false
    → co_thread_unlock (some obj) i ≡ (some obj, false)
unfolding co_thread_unlock co_thread_check
unlock_free obj i n = rw (co_thread_unlock, n) refl

gives :
    (obj l : Lock) (i : ℕ)
    → co_thread_unlock (some obj) i ≡ (some l, true)
    → (points_at obj.co i ≡ true) × (l.co ≡ none)
gives obj l i e = elim (Bool-cases (points_at obj.co i)) [
  | inl n ↦ (
    n,
    ap (λ (k : Lock). k.co)
        (some_eq (ap (λ (r : Option Lock × Bool). r.0) (sym e ∙ unlock_held obj i n))),
  )
  | inr n ↦
      let no : false ≡ true =
        ap (λ (r : Option Lock × Bool). r.1) (sym (unlock_free obj i n) ∙ e) in
      cc
]

holds : (obj l : Lock) (i : ℕ) → co_thread_unlock (some obj) i ≡ (some l, false) → obj ≡ l
holds obj l i e = elim (Bool-cases (points_at obj.co i)) [
  | inl n ↦
      let no : true ≡ false =
        ap (λ (r : Option Lock × Bool). r.1) (sym (unlock_held obj i n) ∙ e) in
      cc
  | inr n ↦ some_eq (ap (λ (r : Option Lock × Bool). r.0) (sym (unlock_free obj i n) ∙ e))
]

-- The owner that the lock names is who is inside.
abbrev pub IsOwned : System → Type 0
IsOwned s = (i : ℕ) → s.inside i ≡ points_at s.lock.co i

joined : (i j : ℕ) (b : Bool) → b ≡ false → (if j == i then true else b) ≡ (i == j)
joined i j b e = ground arith

left :
    (o : Option ℕ) (i j : ℕ) (b : Bool)
    → points_at o i ≡ true
    → b ≡ points_at o j
    → (if j == i then false else b) ≡ false
left none i j b h e = cc
left (some k) i j b h e = ground arith

Step-IsOwned : {s t : System} → Step s t → IsOwned s → IsOwned t
unfolding set_inside
Step-IsOwned {s} (Step.enters i l e) o j =
    let (free, mine) = takes s.lock l i e in
    rw mine (joined i j (s.inside j) (o j ∙ ap (λ k. points_at k j) free))
Step-IsOwned {s} (Step.spins i l e) o j =
    o j ∙ ap (λ (k : Lock). points_at k.co j) (keeps s.lock l i e)
Step-IsOwned {s} (Step.leaves i l e) o j =
    let (mine, free) = gives s.lock l i e in rw free (left s.lock.co i j (s.inside j) mine (o j))
Step-IsOwned {s} (Step.waits i l e) o j =
    let (mine, same) = checks s.lock l i e in
    (unfold unlock_internal in left s.lock.co i j (s.inside j) mine (o j))
Step-IsOwned {s} (Step.refused i l e) o j =
    o j ∙ ap (λ (k : Lock). points_at k.co j) (holds s.lock l i e)

Reach-IsOwned : {s t : System} → Reach s t → IsOwned s → IsOwned t
Reach-IsOwned Reach.here o = o
Reach-IsOwned (Reach.next r st) o = Step-IsOwned st (Reach-IsOwned r o)

-- Two are never inside a lock together: from a lock that nobody holds, whatever coroutines and
-- threads do with it - lock it, spin on it, unlock it, wait on it, or try to unlock it without
-- holding it - in any order.
pub one_inside :
    {s t : System}
    → s.lock.co ≡ none
    → ((i : ℕ) → s.inside i ≡ false)
    → Reach s t
    → (i j : ℕ) → t.inside i ≡ true
    → t.inside j ≡ true
    → i ≡ j
one_inside {s} {t} free nobody r i j a b =
    let o = Reach-IsOwned r (λ k. nobody k ∙ ap (λ (p : Option ℕ). points_at p k) (sym free)) in
    one_owner t.lock.co i j (sym (o i) ∙ a) (sym (o j) ∙ b)
  where
    one_owner : (p : Option ℕ) (i j : ℕ) → points_at p i ≡ true → points_at p j ≡ true → i ≡ j
    one_owner none i j a b = cc
    one_owner (some k) i j a b = ground arith

-- Who is inside can give the lock up, and who is not cannot take it from who is.
pub inside-unlock :
    {s t : System}
    → s.lock.co ≡ none
    → ((i : ℕ) → s.inside i ≡ false)
    → Reach s t
    → (i : ℕ)
    → co_thread_unlock (some t.lock) i
      ≡ (if t.inside i then (some (record t.lock { co = none }), true) else (some t.lock, false))
inside-unlock {s} {t} free nobody r i =
    let o = Reach-IsOwned r (λ k. nobody k ∙ ap (λ (p : Option ℕ). points_at p k) (sym free)) in
    elim (Bool-cases (t.inside i)) [
      | inl k ↦ rw k (unlock_held t.lock i (sym (o i) ∙ k))
      | inr k ↦ rw k (unlock_free t.lock i (sym (o i) ∙ k))
    ]
