-- ===== src/Cothread/Coroutine/Exit.antt =====
-- Where control goes: a scheduler that calls coroutines, which yield to it and exit.
use cuttle.Prelude.{
  ℕ, ◌≡◌, ◌≢◌, refl, ap, ◌∙◌, sym, List, ◌∷◌, none, some, false, ◌==◌, ◌>>=◌, ◌⊎◌, inl, inr, arith,
  Bool-cases, if◌then◌else◌,
}
use cuttle.Cothread.Coroutine.{
  Coroutine, Thread, put, co_call, run, co_delete, helper_round, to_helper, co_exit_to, co_exit,
  by_helper,
}

-- What an exit of the coroutine `t.curr`, which resumes `p` by the helper `h`, leaves.
pub record Exited (h p : ℕ) (t r : Thread) : Type 0 where
  pub back : r.curr ≡ p
  pub helper : r.dchelper ≡ some h
  pub given_back : r.freed ≡ (if (t.co t.curr).alloc_size == 0 then t.freed else t.curr ∷ t.freed)
  pub targets : (q : ℕ) → q ≢ h → (r.co q).restarget ≡ (t.co q).restarget

pub put_ne : (co : ℕ → Coroutine) (p q : ℕ) (c : Coroutine) → q ≢ p → put co p c q ≡ co q
put_ne co p q c h = ground arith

pub put_self : (co : ℕ → Coroutine) (p : ℕ) (c : Coroutine) → put co p c p ≡ c
put_self co p c = ground arith

restarget-put :
    (co : ℕ → Coroutine) (p : ℕ) (c : Coroutine) (q : ℕ)
    → c.restarget ≡ (co p).restarget
    → (put co p c q).restarget ≡ (co q).restarget
restarget-put co p c q h = elim (Bool-cases (q == p)) [
  | inl k ↦ let same : q ≡ p = ground arith in rw k (h ∙ ap (λ x. (co x).restarget) (sym same))
  | inr k ↦ rw k refl
]

size-put :
    (co : ℕ → Coroutine) (p : ℕ) (c : Coroutine) (q : ℕ)
    → c.alloc_size ≡ (co p).alloc_size
    → (put co p c q).alloc_size ≡ (co q).alloc_size
size-put co p c q h = elim (Bool-cases (q == p)) [
  | inl k ↦ let same : q ≡ p = ground arith in rw k (h ∙ ap (λ x. (co x).alloc_size) (sym same))
  | inr k ↦ rw k refl
]

pub caller-call : (t : Thread) (p : ℕ) → ((co_call t p).co p).caller ≡ some t.curr
unfolding co_call
caller-call t p = ap (λ (c : Coroutine). c.caller) (put_self t.co p _)

pub restarget-call : (t : Thread) (p q : ℕ) → ((co_call t p).co q).restarget ≡ (t.co q).restarget
unfolding co_call
restarget-call t p q = restarget-put t.co p _ q refl

-- A round of the helper, which `c` has called to resume `p`.
helper_round_lem :
    (t : Thread) (c p : ℕ)
    → t.co_dhelper ≡ some p
    → (t.co t.curr).caller ≡ some c
    → c ≢ t.curr
    → (r : Thread) × (helper_round t ≡ some r)
      × (r.curr ≡ p)
      × (r.dchelper ≡ t.dchelper)
      × (r.freed ≡ (if (t.co c).alloc_size == 0 then t.freed else c ∷ t.freed))
      × ((q : ℕ) → (r.co q).restarget ≡ (t.co q).restarget)
unfolding helper_round co_delete co_call
helper_round_lem t c p d e ne =
    let other : (c == t.curr) ≡ false = ground arith in
    elim (Bool-cases ((t.co c).alloc_size == 0)) [
      | inl k ↦ (
        co_call (record t { co_dhelper = none }) p,
        rw (helper_round, d, e, other, k) refl,
        refl,
        refl,
        rw k refl,
        restarget-call (record t { co_dhelper = none }) p,
      )
      | inr k ↦ (
        co_call (record t { co_dhelper = none; freed = c ∷ t.freed }) p,
        rw (helper_round, d, e, other, k) refl,
        refl,
        refl,
        rw k refl,
        restarget-call (record t { co_dhelper = none; freed = c ∷ t.freed }) p,
      )
    ]

caller-run : (t : Thread) → ((run t).co t.curr).caller ≡ (t.co t.curr).caller
unfolding run
caller-run t = ap (λ (c : Coroutine). c.caller) (put_self t.co t.curr _)

pub restarget-run :
    (t : Thread) (q : ℕ) → q ≢ t.curr → ((run t).co q).restarget ≡ (t.co q).restarget
unfolding run
restarget-run t q h = ap (λ (c : Coroutine). c.restarget) (put_ne t.co t.curr q _ h)

pub restarget-run_self : (t : Thread) → ((run t).co t.curr).restarget ≡ (t.co t.curr).caller
unfolding run
restarget-run_self t = ap (λ (c : Coroutine). c.restarget) (put_self t.co t.curr _)

size-run : (t : Thread) (q : ℕ) → ((run t).co q).alloc_size ≡ (t.co q).alloc_size
unfolding run
size-run t q = size-put t.co t.curr _ q refl

size-call : (t : Thread) (p q : ℕ) → ((co_call t p).co q).alloc_size ≡ (t.co q).alloc_size
unfolding co_call
size-call t p q = size-put t.co p _ q refl

exits :
    (h p : ℕ) (t : Thread)
    → (t.co t.curr).restarget ≡ some p
    → co_exit (some h) t ≡ by_helper (some h) t.dchelper t p
unfolding co_exit co_exit_to
exits h p t e = ap (λ o. o >>= (λ p. co_exit_to (some h) t p)) e

abbrev freed_by : Thread → ℕ → ℕ → List ℕ
freed_by t c n = if n == 0 then t.freed else c ∷ t.freed

-- An exit comes back to the target of the coroutine that exits, and gives back its memory and no
-- other's; the helper is made where there was none.
pub co_exit_lem :
    (h p : ℕ) (t : Thread)
    → t.curr ≢ h
    → (t.dchelper ≡ none) ⊎ (t.dchelper ≡ some h)
    → (t.co t.curr).restarget ≡ some p
    → (r : Thread) × (co_exit (some h) t ≡ some r) × Exited h p t r
unfolding by_helper to_helper co_call run
co_exit_lem h p t ne (inl n) e =
    let v : Thread = record t { co_dhelper = some p; dchelper = some h } in
    let u : Thread = co_call v h in
    let (r, round, back, helper, freed, targets) =
      helper_round_lem (run u) t.curr p refl (caller-run u ∙ caller-call v h) ne in
    (
      r,
      exits h p t e ∙ ap (λ o. by_helper (some h) o t p) n ∙ round,
      record {
        back = back;
        helper = helper;
        given_back = freed ∙ ap (freed_by t t.curr) (size-run u t.curr ∙ size-call v h t.curr);
        targets = λ q k. targets q ∙ restarget-run u q k ∙ restarget-call v h q;
      },
    )
co_exit_lem h p t ne (inr n) e =
    let v : Thread = record t { co_dhelper = some p } in
    let u : Thread = co_call v h in
    let (r, round, back, helper, freed, targets) =
      helper_round_lem u t.curr p refl (caller-call v h) ne in
    (
      r,
      exits h p t e ∙ ap (λ o. by_helper (some h) o t p) n ∙ round,
      record {
        back = back;
        helper = helper ∙ n;
        given_back = freed ∙ ap (freed_by t t.curr) (size-call v h t.curr);
        targets = λ q k. targets q ∙ restarget-call v h q;
      },
    )
