-- ===== src/Corpc/Channel/Thread/Loop.antt =====
-- The rounds of a channel's coroutine, and its loop, which is over after as many of them as there are
-- bytes, and one, with the reference count as it was.
use cuttle.Prelude.{
  ℕ, zero, suc, ◌<◌, ◌≡◌, refl, ap, ◌∙◌, List, Option, none, some, Bool, true, false, arith, length,
  Bool-cases, inl, inr, Option-cases, if◌then◌else◌,
}
use cuttle.Prelude.Int.{ℤ}
use cuttle.Corpc.Proto.{Comsg, recv_msg}
use cuttle.Corpc.Channel.Request.{Service}
use cuttle.Corpc.Channel.Thread.{
  Turn, Handled, State, End, Next, handle, handled, idle, after_handler, after_recv, round, serve,
}
use cuttle.Corpc.Channel.Thread.Switch.{KeepsRefs, handle-refs}
use cuttle.Corpc.Channel.Thread.Bytes.{recv_msg-shorter}

-- The rounds from round `n` on, where `pending` are the bytes on their way and `msg` the memory for
-- the next message, and the state that they end in; there is none where no memory is left for a
-- message, or the handler of one has no result. A round ends them where no message comes, or the
-- handler fails.
pub data Rounds (give : List ℕ → ℕ → ℕ) (services : Option (List Service)) (turns : ℕ → Turn)
    : ℕ → List ℕ → Option Comsg → State → Option State → Type 0 where
  no_memory :
      (n : ℕ) (pending : List ℕ) (s : State) → Rounds give services turns n pending none s none
  no_message :
      (n : ℕ) (pending left : List ℕ) (msg m : Comsg) (s : State)
      → recv_msg give pending msg ≡ (left, m, false)
      → Rounds give services turns n pending (some msg) s (some (idle (turns n) s))
  no_result :
      (n : ℕ) (pending left : List ℕ) (msg m : Comsg) (s : State)
      → recv_msg give pending msg ≡ (left, m, true)
      → handle services (turns n) s m ≡ none
      → Rounds give services turns n pending (some msg) s none
  fails :
      (n : ℕ) (pending left : List ℕ) (msg m : Comsg) (s : State) (h : Handled)
      → recv_msg give pending msg ≡ (left, m, true)
      → handle services (turns n) s m ≡ some h
      → h.fok ≡ false
      → Rounds give services turns n pending (some msg) s (some (handled s h))
  more :
      (n : ℕ) (pending left : List ℕ) (msg m : Comsg) (s : State) (h : Handled) (e : Option State)
      → recv_msg give pending msg ≡ (left, m, true)
      → handle services (turns n) s m ≡ some h
      → h.fok ≡ true
      → Rounds give services turns
          (suc n)
          left
          (if h.taken then (turns n).fresh else some m)
          (handled s h)
          e
      → Rounds give services turns n pending (some msg) s e

module _ (give : List ℕ → ℕ → ℕ) (services : Option (List Service)) (turns : ℕ → Turn)
    (keeps : (n : ℕ) → KeepsRefs (turns n)) where
  -- A round: the loop is over after it, or goes on with fewer bytes on their way.
  data Goes (n : ℕ) (pending : List ℕ) (msg : Option Comsg) (s : State) : Type 0 where
    stops :
        Rounds give services turns n pending msg s none
        → round give services (turns n) pending msg s ≡ Next.ends End.stopped
        → Goes n pending msg s
    ends :
        (s' : State) (fok : Bool)
        → s'.channel.refs ≡ s.channel.refs
        → Rounds give services turns n pending msg s (some s')
        → round give services (turns n) pending msg s ≡ Next.ends (End.ended s' fok)
        → Goes n pending msg s
    goes :
        (left : List ℕ) (msg' : Option Comsg) (s' : State)
        → s'.channel.refs ≡ s.channel.refs
        → ((e : Option State)
            → Rounds give services turns (suc n) left msg' s' e
            → Rounds give services turns n pending msg s e)
        → round give services (turns n) pending msg s ≡ Next.goes left msg' s'
        → length left < length pending
        → Goes n pending msg s

  received :
      (n : ℕ) (pending : List ℕ) (msg : Comsg) (s : State) (r : List ℕ × Comsg × Bool)
      → recv_msg give pending msg ≡ r
      → (r.2 ≡ true → length r.0 < length pending)
      → Goes n pending (some msg) s
  unfolding round after_recv after_handler
  received n pending msg s (left, m, false) run less =
      Goes.ends (idle (turns n) s) true ((keeps n).meanwhile s.channel)
        (Rounds.no_message n pending left msg m s run) (ap (after_recv services (turns n) s) run)
  received n pending msg s (left, m, true) run less =
      let begun : round give services (turns n) pending (some msg) s
          ≡ after_handler (turns n) s left m (handle services (turns n) s m) =
        ap (after_recv services (turns n) s) run in
      elim (Option-cases (handle services (turns n) s m)) [
        | inl r ↦
            Goes.stops (Rounds.no_result n pending left msg m s run r)
              (begun ∙ ap (after_handler (turns n) s left m) r)
        | inr (h, r) ↦
            let same : h.channel.refs ≡ s.channel.refs =
              handle-refs services (turns n) (keeps n) s m h r in
            elim (Bool-cases h.fok) [
              | inl ok ↦
                  Goes.goes left (if h.taken then (turns n).fresh else some m) (handled s h) same
                    (λ e. Rounds.more n pending left msg m s h e run r ok)
                    (begun ∙ ap (after_handler (turns n) s left m) r ∙ rw ok refl) (less refl)
              | inr bad ↦
                  Goes.ends (handled s h) false same
                    (Rounds.fails n pending left msg m s h run r bad)
                    (begun ∙ ap (after_handler (turns n) s left m) r ∙ rw bad refl)
            ]
      ]

  goes_on : (n : ℕ) (pending : List ℕ) (msg : Option Comsg) (s : State) → Goes n pending msg s
  unfolding round
  goes_on n pending none s = Goes.stops (Rounds.no_memory n pending s) refl
  goes_on n pending (some msg) s =
      received n pending msg s (recv_msg give pending msg) refl (recv_msg-shorter give pending msg)

  -- The loop is over, by its fuel or with its rounds, at an end that leaves the count at `k`.
  pub data Over (k : ℤ) (n : ℕ) (pending : List ℕ) (msg : Option Comsg) (s : State)
      : End → Type 0 where
    stuck : Rounds give services turns n pending msg s none → Over k n pending msg s End.stopped
    over :
        (e : State) (fok : Bool)
        → e.channel.refs ≡ k
        → Rounds give services turns n pending msg s (some e)
        → Over k n pending msg s (End.ended e fok)

  later :
      (k : ℤ) (n : ℕ) (pending left : List ℕ) (msg msg' : Option Comsg) (s s' : State) (e : End)
      → ((r : Option State)
          → Rounds give services turns (suc n) left msg' s' r
          → Rounds give services turns n pending msg s r)
      → Over k (suc n) left msg' s' e
      → Over k n pending msg s e
  later k n pending left msg msg' s s' _ before (Over.stuck rounds) = Over.stuck (before _ rounds)
  later k n pending left msg msg' s s' _ before (Over.over e fok same rounds) =
      Over.over e fok same (before _ rounds)

  pub serve-Over :
      (k : ℤ) (fuel n : ℕ) (pending : List ℕ) (msg : Option Comsg) (s : State)
      → s.channel.refs ≡ k
      → length pending < fuel
      → Over k n pending msg s (serve give services fuel turns n pending msg s)
  unfolding serve
  serve-Over k zero n pending msg s e enough = absurd (omega arith)
  serve-Over k (suc fuel) n pending msg s e enough = elim (goes_on n pending msg s) [
    | Goes.stops rounds run ↦ rw (run, serve) (Over.stuck rounds)
    | Goes.ends s' fok same rounds run ↦ rw (run, serve) (Over.over s' fok (same ∙ e) rounds)
    | Goes.goes left msg' s' same before run less ↦
        rw (run, serve)
          (later k n pending left msg msg' s s' _ before
            (serve-Over k fuel (suc n) left msg' s' (same ∙ e) (omega arith)))
  ]
