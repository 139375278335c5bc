-- ===== src/Corpc/Channel/Thread.antt =====
-- The coroutine of a channel, `corpc_channel_thread`: its start, the receives with the `switch` that
-- hands each message to its handler, and the end.
pub mod Bytes
pub mod Serves
pub mod Refs
pub mod Requests
pub mod Switch
pub mod Loop
pub mod Start
pub mod Ends
use cuttle.Prelude.{
  ℕ, zero, suc, ◌+◌, ◌≡◌, List, [], ◌∷◌, ◌++◌, Option, none, some, Bool, true, false, ◌&&◌, ◌==◌,
  if◌then◌else◌, ◌>>=◌,
}
use cuttle.Corpc.Proto.{
  Comsg, create_stream_req, create_stream_resp, close_stream_req, data_msg, data_ack, recv_msg,
}
use cuttle.Corpc.Channel.{Channel, ChannelState, set_channel_state}
use cuttle.Corpc.Channel.Lifetime.{addref_internal, close_internal}
use cuttle.Corpc.Channel.Receive.{
  on_create_stream_responce, on_close_stream_notify, on_data_message, on_data_ack,
}
use cuttle.Corpc.Channel.Request.{Service, on_create_stream_request}

-- What the coroutine meets in one round: what the others do to the channel and to `gsid` until a
-- message is in, what the handler of a request meets, and what `malloc` gives for the next message.
pub record Turn : Type 0 where
  pub meanwhile : Channel → Channel
  pub numbers : ℕ → ℕ
  pub sends : List ℕ → Bool
  pub others : Channel → Channel
  pub others' : Channel → Channel
  pub memory : Option ℕ
  pub malloc : ℕ → Option (List Comsg)
  pub starts : Bool
  pub seen : Channel → List (Channel × Bool)
  pub fresh : Option Comsg

-- `taken` says that a queue has the message now: `msg` is null then.
pub record Handled : Type 0 where
  pub channel : Channel
  pub gsid : ℕ
  pub out : List (List ℕ)
  pub fok : Bool
  pub taken : Bool

-- The channel, `gsid`, and the buffers that went out so far.
pub record State : Type 0 where
  pub channel : Channel
  pub gsid : ℕ
  pub out : List (List ℕ)

-- A handler that sends nothing and keeps no message.
abbrev pub plain : ℕ → Option (Channel × Bool) → Option Handled
plain gsid r =
    r >>= (λ x. some (record { channel = x.0; gsid = gsid; out = []; fok = x.1; taken = false }))

-- The `switch`. There is no result where a handler goes through a bad pointer, or waits for ever.
unfoldable pub dispatch : Option (List Service) → Turn → Channel → ℕ → Comsg → Option Handled
dispatch services t c gsid msg =
    let code = msg.hdr.code in
    if code == create_stream_req
    then on_create_stream_request t.sends t.others t.others' t.memory t.malloc t.starts t.seen
        services c gsid msg
      >>= (λ r. some (record { channel = r.0; gsid = r.1; out = r.2; fok = true; taken = false }))
    else if code == create_stream_resp
    then plain gsid (on_create_stream_responce c msg)
    else if code == close_stream_req
    then plain gsid (on_close_stream_notify c msg)
    else if code == data_msg
    then on_data_message c msg
      >>= (λ r. some (record { channel = r.0; gsid = gsid; out = []; fok = r.1; taken = r.2 }))
    else if code == data_ack
    then plain gsid (on_data_ack c msg)
    else some (record { channel = c; gsid = gsid; out = []; fok = false; taken = false })

-- The message is handled as the others have left the channel.
abbrev pub handle : Option (List Service) → Turn → State → Comsg → Option Handled
handle services t s msg = dispatch services t (t.meanwhile s.channel) (t.numbers s.gsid) msg

abbrev pub handled : State → Handled → State
handled s h = record { channel = h.channel; gsid = h.gsid; out = s.out ++ h.out }

-- How the loop ends: `running` is an end of the fuel, `stopped` one without a result, and the flag
-- of `ended` is `fok`.
pub data End : Type 0 where
  running : End
  stopped : End
  ended : State → Bool → End

-- One round: the loop ends, or goes on with the bytes on their way and the message in memory.
pub data Next : Type 0 where
  ends : End → Next
  goes : List ℕ → Option Comsg → State → Next

unfoldable pub after_handler : Turn → State → List ℕ → Comsg → Option Handled → Next
after_handler t s left msg none = Next.ends End.stopped
after_handler t s left msg (some h) =
    if h.fok
    then Next.goes left (if h.taken then t.fresh else some msg) (handled s h)
    else Next.ends (End.ended (handled s h) false)

-- The state when no message came; what the others did until then is in it.
abbrev pub idle : Turn → State → State
idle t s = record s { channel = t.meanwhile s.channel; gsid = t.numbers s.gsid }

-- After a receive that found `left` behind it, and put the message in memory.
unfoldable pub after_recv : Option (List Service) → Turn → State → List ℕ × Comsg × Bool → Next
unfolding after_handler
after_recv services t s (left, m, true) = after_handler t s left m (handle services t s m)
after_recv services t s (left, m, false) = Next.ends (End.ended (idle t s) true)

module _ (give : List ℕ → ℕ → ℕ) (services : Option (List Service)) where
  -- A receive into a null pointer has no result.
  unfoldable pub round : Turn → List ℕ → Option Comsg → State → Next
  round t pending none s = Next.ends End.stopped
  round t pending (some msg) s = after_recv services t s (recv_msg give pending msg)

  -- The loop, from round `n` on.
  unfoldable pub serve : ℕ → (ℕ → Turn) → ℕ → List ℕ → Option Comsg → State → End
  unfolding round
  serve zero turns n pending msg s = End.running
  serve (suc fuel) turns n pending msg s = elim (round (turns n) pending msg s) [
    | Next.ends e ↦ e
    | Next.goes left msg' s' ↦ serve fuel turns (suc n) left msg' s'
  ]

-- The start under the lock, which is let go for the handshake: `others` is what happens then,
-- `handshake` how `co_ssl_accept` ends, and `onaccept` the answer of the server, where it is asked.
unfoldable pub start : Channel → (Channel → Channel) → Bool → Option Bool → Channel × Bool
start c others handshake onaccept =
    let c' = addref_internal c in
    elim c'.state [
      | ChannelState.connecting ↦ (set_channel_state c' ChannelState.established, true)
      | ChannelState.accepting ↦
          let d = others c' in
          if handshake && elim onaccept [ none ↦ true | some answer ↦ answer ]
          then (set_channel_state d ChannelState.established, true)
          else (d, false)
      | _ ↦ (c', true)
    ]

-- How the coroutine ends: `exited` has the channel, whether it has been destroyed, `gsid`, and the
-- buffers that went out. The memory of the last message is freed then, and is not in the state.
pub data Exit : Type 0 where
  running : Exit
  stopped : Exit
  exited : Channel → Bool → ℕ → List (List ℕ) → Exit

-- From the last lock on; `disconnected` is the callback of the server.
unfoldable pub finish : (Channel → Channel) → State → Exit
finish disconnected s =
    let r : Channel × Bool = close_internal (disconnected s.channel) in
    Exit.exited r.0 r.1 s.gsid s.out

-- After the loop the coroutine waits for the lock again, and `others'` is what happens then.
unfoldable pub conclude : (Channel → Channel) → (Channel → Channel) → End → Exit
unfolding finish
conclude others' disconnected End.running = Exit.running
conclude others' disconnected End.stopped = Exit.stopped
conclude others' disconnected (End.ended s fok) =
    finish disconnected (record s { channel = others' s.channel })

module _ (give : List ℕ → ℕ → ℕ) (services : Option (List Service))
    (others others' disconnected : Channel → Channel) (handshake : Bool) (onaccept : Option Bool)
    (first : Option Comsg) (turns : ℕ → Turn) where
  -- `first` is what the first `malloc` gives, and `pending` all bytes that the peer sends.
  unfoldable pub corpc_channel_thread : ℕ → Channel → ℕ → List ℕ → Exit
  unfolding start serve conclude
  corpc_channel_thread fuel c gsid pending =
      let (c', fok) = start c others handshake onaccept in
      let s : State = record { channel = c'; gsid = gsid; out = [] } in
      if fok
      then conclude others' disconnected (serve give services fuel turns 0 pending first s)
      else finish disconnected s
