-- ===== src/Corpc/Channel/Thread/Ends.antt =====
-- The coroutine of a channel comes to its end, and what it leaves behind.
use cuttle.Prelude.{
  ℕ, zero, suc, ◌≡◌, refl, ap, ◌∙◌, List, [], none, some, Option, Bool, true, false, arith, length,
  Bool-cases, inl, inr, ◌&&◌, ltb,
}
use cuttle.Prelude.Int.{ℤ, inc, dec, below_one}
use cuttle.Corpc.Proto.{Comsg}
use cuttle.Corpc.Channel.{Channel, ChannelState}
use cuttle.Corpc.Channel.Lifetime.{close_internal, release_internal}
use cuttle.Corpc.Channel.Request.{Service}
use cuttle.Corpc.Channel.Thread.{
  Turn, State, End, Exit, start, finish, conclude, corpc_channel_thread,
}
use cuttle.Corpc.Channel.Thread.Switch.{KeepsRefs}
use cuttle.Corpc.Channel.Thread.Loop.{Rounds, Over, serve-Over}
use cuttle.Corpc.Channel.Thread.Start.{Begins, start_lem}

-- The channel `e` that the coroutine leaves of `c`, where the others and the callback have left `d`,
-- and whether it has been destroyed: it is closed, has the streams of `d`, counts the references that
-- `c` had, and is gone where these are none and no stream is left.
pub record Closed (c d e : Channel) (gone : Bool) : Type 0 where
  pub state : e.state ≡ ChannelState.closed
  pub streams : e.streams ≡ d.streams
  pub refs : e.refs ≡ c.refs
  pub destroyed : gone ≡ (below_one c.refs && ltb d.streams.size 1)

-- The state before the first message.
abbrev pub begun : Channel → ℕ → State
begun b gsid = record { channel = b; gsid = gsid; out = [] }

-- How the coroutine ends: its rounds have no end; or it has turned a client away, and nothing has gone
-- out; or its rounds have come to an end, and what they sent has gone out. `b` is the channel that it
-- begins with, which counts a reference more.
pub data Leaves (give : List ℕ → ℕ → ℕ) (services : Option (List Service))
    (others' disconnected : Channel → Channel) (handshake : Bool) (onaccept : Option Bool)
    (first : Option Comsg) (turns : ℕ → Turn) (c : Channel) (gsid : ℕ) (pending : List ℕ)
    : Exit → Type 0 where
  stuck :
      (b : Channel)
      → b.refs ≡ inc c.refs
      → Begins c.state handshake onaccept b.state true
      → Rounds give services turns 0 pending first (begun b gsid) none
      → Leaves give services others' disconnected handshake onaccept first turns c gsid pending
          Exit.stopped
  turned_away :
      (b e : Channel) (gone : Bool)
      → b.refs ≡ inc c.refs
      → Begins c.state handshake onaccept b.state false
      → Closed c (disconnected b) e gone
      → Leaves give services others' disconnected handshake onaccept first turns c gsid pending
          (Exit.exited e gone gsid [])
  served :
      (b e : Channel) (gone : Bool) (s : State)
      → b.refs ≡ inc c.refs
      → Begins c.state handshake onaccept b.state true
      → Rounds give services turns 0 pending first (begun b gsid) (some s)
      → Closed c (disconnected (others' s.channel)) e gone
      → Leaves give services others' disconnected handshake onaccept first turns c gsid pending
          (Exit.exited e gone s.gsid s.out)

dec-inc : (x : ℤ) → dec (inc x) ≡ x
unfolding dec inc
dec-inc (ℤ.pos n) = refl
dec-inc (ℤ.negsuc zero) = refl
dec-inc (ℤ.negsuc (suc n)) = refl

finish-Closed :
    (c : Channel) (disconnected : Channel → Channel) (s : State)
    → ((d : Channel) → (disconnected d).refs ≡ d.refs)
    → s.channel.refs ≡ inc c.refs
    → (e : Channel) × (gone : Bool) × (finish disconnected s ≡ Exit.exited e gone s.gsid s.out)
      × Closed c (disconnected s.channel) e gone
unfolding finish close_internal release_internal
finish-Closed c disconnected s keeps counted =
    let back : dec (disconnected s.channel).refs ≡ c.refs =
      ap dec (keeps s.channel ∙ counted) ∙ dec-inc c.refs in
    (
      _,
      _,
      refl,
      record {
        state = refl;
        streams = refl;
        refs = back;
        destroyed = ap (λ k. below_one k && ltb (disconnected s.channel).streams.size 1) back;
      },
    )

module _ (give : List ℕ → ℕ → ℕ) (services : Option (List Service))
    (others others' disconnected : Channel → Channel) (handshake : Bool) (onaccept : Option Bool)
    (first : Option Comsg) (turns : ℕ → Turn)
    (keeps_at_start : (d : Channel) → (others d).refs ≡ d.refs)
    (keeps_at_end : (d : Channel) → (others' d).refs ≡ d.refs)
    (keeps_after : (d : Channel) → (disconnected d).refs ≡ d.refs)
    (keeps : (n : ℕ) → KeepsRefs (turns n)) where
  conclude-Leaves :
      (c b : Channel) (gsid : ℕ) (pending : List ℕ) (end : End)
      → b.refs ≡ inc c.refs
      → Begins c.state handshake onaccept b.state true
      → Over give services turns keeps (inc c.refs) 0 pending first (begun b gsid) end
      → Leaves give services others' disconnected handshake onaccept first turns c gsid pending
          (conclude others' disconnected end)
  unfolding conclude
  conclude-Leaves c b gsid pending _ taken begins (Over.stuck rounds) =
      Leaves.stuck b taken begins rounds
  conclude-Leaves c b gsid pending _ taken begins (Over.over s fok counted rounds) =
      let (e, gone, run, closed) =
        finish-Closed c disconnected (record s { channel = others' s.channel }) keeps_after
          (keeps_at_end s.channel ∙ counted) in
      rw run (Leaves.served b e gone s taken begins rounds closed)

  -- Where the others neither take a reference to the channel nor give one back: whatever bytes the
  -- peer sends before its end of the connection, and however many a call delivers, the coroutine
  -- of a channel is over after as many rounds as there are bytes, and one. It begins with a
  -- reference more, and turns a client away, with nothing sent, exactly where a channel is being
  -- accepted and the handshake fails or the server refuses it. Otherwise it begins with a channel
  -- that is established where it was accepting or connecting, and receives and handles one message
  -- after another, until no message comes or a handler fails; what the handlers sent has gone out
  -- then. It is stuck only without memory for a message or in a handler that has no result. Where
  -- it is not stuck, the channel is closed at the end, has the streams it was left with, counts as
  -- many references as at the start, and is destroyed exactly where these are none and no stream
  -- is left.
  pub corpc_channel_thread-Leaves :
      (c : Channel) (gsid : ℕ) (pending : List ℕ)
      → Leaves give services others' disconnected handshake onaccept first turns c gsid pending (
          corpc_channel_thread give services others others' disconnected handshake onaccept first
            turns
            (suc (length pending))
            c
            gsid
            pending)
  unfolding corpc_channel_thread
  corpc_channel_thread-Leaves c gsid pending =
      let (taken, begins) = start_lem others handshake onaccept keeps_at_start c in
      let b : Channel = (start c others handshake onaccept).0 in
      elim (Bool-cases (start c others handshake onaccept).1) [
        | inl ok ↦ rw ok (
            conclude-Leaves c b gsid pending _ taken (rw ok at begins) (
              serve-Over give services turns keeps (inc c.refs) (suc (length pending)) 0 pending
                first (begun b gsid) taken (omega arith)))
        | inr bad ↦
            let (e, gone, run, closed) =
              finish-Closed c disconnected (begun b gsid) keeps_after taken in
            rw (bad, run) (Leaves.turned_away b e gone taken (rw bad at begins) closed)
      ]
