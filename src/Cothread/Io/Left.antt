-- ===== src/Cothread/Io/Left.antt =====
-- A coroutine that waits leaves no waiter behind.
use cuttle.Prelude.{
  ℕ, ◌≡◌, refl, subst, List, [], ◌∷◌, ◌++◌, some, Bool, true, false, append-nil, length, ◌⊎◌, inl,
  inr,
}
use cuttle.Cc.LinkedList.Order.{IsList, Pushes, push_back-IsList, erase-IsList}
use cuttle.Cothread.Waiter.{Waiter, epollerr}
use cuttle.Cothread.Core.{Core, add_waiter, remove_waiter, sleep_waiter}
use cuttle.Cothread.Core.Requests.{unmasked}
use cuttle.Cothread.Io.{co_io_wait, co_sleep}

-- What the scheduler and the other coroutines do while a coroutine waits: they leave the list well
-- formed and its node in it, whose waiter is then `found`.
abbrev pub Meanwhile : ℕ → (Core → Core) → List ℕ → (ℕ → List ℕ × List ℕ) → (ℕ → Waiter) → Type 0
Meanwhile n others ps around found =
    (c : Core) (node : ℕ)
    → IsList n c.waiters (ps ++ (node ∷ []))
    → IsList n (others c).waiters ((around node).0 ++ (node ∷ (around node).1))
      × ((others c).waiters.item node ≡ some (found node))

-- How `co_io_wait` ends: with the events found, and its node gone from where the others have left it;
-- or with EPOLLERR and the list as it was, where it was full with its n nodes or `epoll_add` failed.
pub data Waited (n : ℕ) (core : Core) (w : Waiter) (epoll_add : Bool) (others : Core → Core)
    (ps : List ℕ) (around : ℕ → List ℕ × List ℕ) (found : ℕ → Waiter) : Type 0 where
  comes_back :
      (r : Core) (node : ℕ)
      → epoll_add ≡ true
      → co_io_wait core w epoll_add others ≡ some (r, (found node).revents)
      → IsList n r.waiters ((around node).0 ++ (around node).1)
      → Waited n core w epoll_add others ps around found
  refused :
      (r : Core)
      → (length ps ≡ n) ⊎ (epoll_add ≡ false)
      → co_io_wait core w epoll_add others ≡ some (r, epollerr)
      → IsList n r.waiters ps
      → Waited n core w epoll_add others ps around found

-- A wait for a socket leaves no waiter behind: where the others leave the list well formed with
-- the node in it, co_io_wait ends with the events found and the node gone, or, where the list was
-- full or epoll_add failed, and only then, with EPOLLERR and the list as it was.
pub co_io_wait-Waited :
    (n : ℕ) (core : Core) (w : Waiter) (epoll_add : Bool) (others : Core → Core) (ps : List ℕ)
    (around : ℕ → List ℕ × List ℕ) (found : ℕ → Waiter)
    → IsList n core.waiters ps
    → Meanwhile n others ps around found
    → Waited n core w epoll_add others ps around found
unfolding co_io_wait add_waiter remove_waiter
co_io_wait-Waited n core w true others ps around found h during =
    elim (push_back-IsList n core.waiters ps (unmasked w) h) [
      | Pushes.linked_in r b run l at rest ↦
          let (l', at') = during (record core { waiters = r }) b l in
          let (r', erased, l'', _) =
            erase-IsList n (others (record core { waiters = r })).waiters (around b).0 b
              (around b).1 l' in
          Waited.comes_back (record (others (record core { waiters = r })) { waiters = r' }) b refl
            (rw (co_io_wait, run, at', erased) refl) l''
      | Pushes.full r run l all ↦
          Waited.refused (record core { waiters = r }) (inl all) (rw (co_io_wait, run) refl) l
    ]
co_io_wait-Waited n core w false others ps around found h during =
    elim (push_back-IsList n core.waiters ps (unmasked w) h) [
      | Pushes.linked_in r b run l at rest ↦
          let (r', erased, l'', _) = erase-IsList n r ps b [] l in
          Waited.refused (record core { waiters = r' }) (inr refl)
            (rw (co_io_wait, run, erased) refl) (subst (IsList n r') (append-nil ps) l'')
      | Pushes.full r run l all ↦
          Waited.refused (record core { waiters = r }) (inl all) (rw (co_io_wait, run) refl) l
    ]

-- Where the list has room, a coroutine that sleeps or yields is in it until the scheduler calls it
-- again, and then out of it; where the list is full, it goes on at once.
pub co_sleep-leaves :
    (n : ℕ) (core : Core) (now co msec : ℕ) (others : Core → Core) (ps : List ℕ)
    (around : ℕ → List ℕ × List ℕ) (found : ℕ → Waiter)
    → IsList n core.waiters ps
    → Meanwhile n others ps around found
    → (r : Core) × (co_sleep core now co msec others ≡ some r)
      × (((node : ℕ) × IsList n r.waiters ((around node).0 ++ (around node).1))
          ⊎ (IsList n r.waiters ps × (length ps ≡ n)))
unfolding co_sleep add_waiter remove_waiter
co_sleep-leaves n core now co msec others ps around found h during =
    elim (push_back-IsList n core.waiters ps (unmasked (sleep_waiter now co msec)) h) [
      | Pushes.linked_in r b run l at rest ↦
          let (l', at') = during (record core { waiters = r }) b l in
          let (r', erased, l'', _) =
            erase-IsList n (others (record core { waiters = r })).waiters (around b).0 b
              (around b).1 l' in
          (
            record (others (record core { waiters = r })) { waiters = r' },
            rw (co_sleep, run, erased) refl,
            inl (b, l''),
          )
      | Pushes.full r run l all ↦
          (record core { waiters = r }, rw (co_sleep, run) refl, inr (l, all))
    ]
