-- ===== src/Cothread/Coroutine/Runs.antt =====
-- A scheduler `m` that starts and calls coroutines, which yield to it and exit, in any order.
use cuttle.Prelude.{
  ℕ, ◌≡◌, ◌≢◌, refl, ap, ◌∙◌, sym, subst, none, some, Bool, true, false, ◌==◌, ◌⊎◌, inl, inr, arith,
  Bool-cases, some_eq, if◌then◌else◌,
}
use cuttle.Cothread.Coroutine.{Coroutine, Thread, put, co_call, run, co_exit}
use cuttle.Cothread.Coroutine.Exit.{
  Exited, co_exit_lem, restarget-call, restarget-run, restarget-run_self, caller-call, put_ne,
}

-- A thread, and which coroutines have started and have not exited.
pub record Running : Type 0 where
  pub thread : Thread
  pub started : ℕ → Bool

unfoldable pub set_started : (ℕ → Bool) → ℕ → Bool → ℕ → Bool
set_started started c b d = if d == c then b else started d

-- `h` is the coroutine that ends others.
pub data Step (m h : ℕ) (s : Running) : Running → Type 0 where
  creates :
      (c : ℕ) (new : Coroutine)
      → s.started c ≡ false
      → c ≢ m
      → c ≢ h
      → Step m h s (record s { thread = record s.thread { co = put s.thread.co c new } })
  starts :
      (c : ℕ)
      → s.thread.curr ≡ m
      → s.started c ≡ false
      → c ≢ m
      → c ≢ h
      → Step m h s
          (record { thread = run (co_call s.thread c); started = set_started s.started c true })
  calls :
      (c : ℕ)
      → s.thread.curr ≡ m
      → s.started c ≡ true
      → Step m h s (record s { thread = co_call s.thread c })
  yields : s.thread.curr ≢ m → Step m h s (record s { thread = co_call s.thread m })
  exits :
      (t : Thread)
      → s.thread.curr ≢ m
      → co_exit (some h) s.thread ≡ some t
      → Step m h s (record { thread = t; started = set_started s.started s.thread.curr false })

pub data Reach (m h : ℕ) (s : Running) : Running → Type 0 where
  here : Reach m h s s
  next : {t u : Running} → Reach m h s t → Step m h t u → Reach m h s u

-- Every coroutine that runs exits to the scheduler.
pub record IsRun (m h : ℕ) (s : Running) : Type 0 where
  pub helper : (s.thread.dchelper ≡ none) ⊎ (s.thread.dchelper ≡ some h)
  pub targets : (c : ℕ) → s.started c ≡ true → (s.thread.co c).restarget ≡ some m
  pub current : s.thread.curr ≢ m → s.started s.thread.curr ≡ true
  pub apart : (s.thread.curr ≢ h) × (m ≢ h) × (s.started h ≡ false) × (s.started m ≡ false)

ne_of : (started : ℕ → Bool) (c d : ℕ) → started c ≡ true → started d ≡ false → c ≢ d
ne_of started c d a b e = let no : true ≡ false = sym a ∙ ap started e ∙ b in cc

restarget-start : (t : Thread) (c : ℕ) → ((run (co_call t c)).co c).restarget ≡ some t.curr
unfolding co_call
restarget-start t c = restarget-run_self (co_call t c) ∙ caller-call t c

left : (b : Bool) (x : Bool) → (if b then false else x) ≡ true → (b ≡ false) × (x ≡ true)
left true x e = cc
left false x e = (refl, e)

off : (b : Bool) (x : Bool) → x ≡ false → (if b then false else x) ≡ false
off true x e = refl
off false x e = e

apart_of : (c d : ℕ) → c ≢ d → (c == d) ≡ false
apart_of c d h = ground arith

same_self : (c : ℕ) → (c == c) ≡ true
same_self c = ground arith

Step-IsRun : {m h : ℕ} {s t : Running} → Step m h s t → IsRun m h s → IsRun m h t
unfolding set_started co_call run
Step-IsRun {m} {h} {s} (Step.creates c new fresh nm nh) r = record {
  helper = r.helper;
  targets = λ d on.
      ap (λ (x : Coroutine). x.restarget)
        (put_ne s.thread.co c d new (ne_of s.started d c on fresh))
      ∙ r.targets d on;
  current = r.current;
  apart = r.apart;
}
Step-IsRun {m} {h} {s} (Step.starts c at fresh nm nh) r = record {
  helper = r.helper;
  targets = λ d on. elim (Bool-cases (d == c)) [
    | inl k ↦ let same : d ≡ c = ground arith in rw same (restarget-start s.thread c ∙ ap some at)
    | inr k ↦
        restarget-run (co_call s.thread c) d (λ e. ground arith)
        ∙ restarget-call s.thread c d
        ∙ r.targets d (rw k at on)
  ];
  current = λ away. rw (same_self c) refl;
  apart = (
    nh,
    r.apart.1,
    rw (apart_of h c (λ e. nh (sym e))) r.apart.2,
    rw (apart_of m c (λ e. nm (sym e))) r.apart.3,
  );
}
Step-IsRun {m} {h} {s} (Step.calls c at on) r = record {
  helper = r.helper;
  targets = λ d k. restarget-call s.thread c d ∙ r.targets d k;
  current = λ away. on;
  apart = (ne_of s.started c h on r.apart.2, r.apart.1, r.apart.2, r.apart.3);
}
Step-IsRun {m} {h} {s} (Step.yields away) r = record {
  helper = r.helper;
  targets = λ d k. restarget-call s.thread m d ∙ r.targets d k;
  current = λ there. absurd (there refl);
  apart = (r.apart.1, r.apart.1, r.apart.2, r.apart.3);
}
Step-IsRun {m} {h} {s} (Step.exits t away e) r =
    let (u, made, x) =
      co_exit_lem h m s.thread r.apart.0 r.helper (r.targets s.thread.curr (r.current away)) in
    let x' : Exited h m s.thread t = subst (Exited h m s.thread) (some_eq (sym made ∙ e)) x in
    record {
      helper = inr x'.helper;
      targets = λ d k.
          let (other, on) = left (d == s.thread.curr) (s.started d) k in
          x'.targets d (ne_of s.started d h on r.apart.2) ∙ r.targets d on;
      current = λ there. absurd (there x'.back);
      apart = (
        (λ k. r.apart.1 (sym x'.back ∙ k)),
        r.apart.1,
        off (h == s.thread.curr) (s.started h) r.apart.2,
        off (m == s.thread.curr) (s.started m) r.apart.3,
      );
    }

Reach-IsRun : {m h : ℕ} {s t : Running} → Reach m h s t → IsRun m h s → IsRun m h t
Reach-IsRun Reach.here r = r
Reach-IsRun (Reach.next p st) r = Step-IsRun st (Reach-IsRun p r)

-- At the start only the scheduler runs, and there is no helper yet.
pub record IsStart (m h : ℕ) (s : Running) : Type 0 where
  pub only : s.thread.curr ≡ m
  pub no_helper : s.thread.dchelper ≡ none
  pub nobody : (c : ℕ) → s.started c ≡ false
  pub other : m ≢ h

-- Whatever coroutines a scheduler has created, started and called, in any order, and however often
-- they have yielded and exited: the exit of the one that runs succeeds, comes back to the
-- scheduler, and gives back the memory of the one that has exited, and of no other.
pub Reach-exits :
    {m h : ℕ} {s t : Running}
    → IsStart m h s
    → Reach m h s t
    → t.thread.curr ≢ m
    → (r : Thread) × (co_exit (some h) t.thread ≡ some r) × Exited h m t.thread r
Reach-exits {m} {h} {s} {t} start p away =
    let r = Reach-IsRun p (record {
      helper = inl start.no_helper;
      targets = λ c on. absurd (ne_of s.started c c on (start.nobody c) refl);
      current = λ there. absurd (there start.only);
      apart =
          ((λ e. start.other (sym start.only ∙ e)), start.other, start.nobody h, start.nobody m);
    }) in
    co_exit_lem h m t.thread r.apart.0 r.helper (r.targets t.thread.curr (r.current away))
