-- ===== src/Corpc/Channel/Transfer.antt =====
-- The sending and the reading of data on a stream. Between two steps under the global lock other
-- coroutines run: what they make of the channel is an argument of each function.
use cuttle.Prelude.{
  ℕ, ◌+◌, ◌-◌, ◌^◌, List, [], ◌∷◌, Option, none, some, Bool, true, false, ◌==◌, if◌then◌else◌,
  ◌>>=◌, ◌&&◌, ◌||◌, take,
}
use cuttle.Prelude.Words.{u16}
use cuttle.Cc.Fifo
use cuttle.Corpc.Proto.{Comsg, data_msg}
use cuttle.Corpc.Channel.{
  Channel, Stream, put, channel_established, stream_established, stream_opening, acquire_write_lock,
  release_write_lock, srwnd,
}
use cuttle.Corpc.Proto.Send

-- `--st->rwnd`, in 16 bits.
unfoldable pub spend : Channel → ℕ → Channel
spend c p =
    let st = c.heap p in
    record c { heap = put c.heap p (record st { rwnd = u16 (st.rwnd + (2 ^ 16 - 1)) }) }

-- What the channel is, the buffers that went out, and the result.
abbrev pub Sent : Type 0
Sent = Channel × List (List ℕ) × Bool

-- `others` is what others do to the channel while the socket takes the message, and `others'` what
-- they do between the two steps under the lock. `sends` is the socket's answer for a buffer.
module _ (sends : List ℕ → Bool) (others others' : Channel → Channel) where
  unfoldable pub send_data : List (Channel × Bool) → ℕ → List ℕ → Option Sent
  unfolding spend
  send_data seen p bytes = acquire_write_lock seen (some p) >>= (λ a.
      let (locked, c) = a in
      let st = c.heap p in
      let (out, fok) = Send.send_data sends st.sid st.did bytes in
      if locked
      then (let c' = others c in
          if fok
          then some (release_write_lock (others' (spend c' p)) true, out, true)
          else some (release_write_lock c' true, out, false))
      else some (c, [], false))

  -- The other senders have one step, and take the lock whatever the window is.
  unfoldable pub send_locked :
      (Channel → List (List ℕ) × Bool) → List (Channel × Bool) → Option Sent
  send_locked message seen = acquire_write_lock seen none >>= (λ a.
      let (locked, c) = a in
      let (out, fok) = message c in
      if locked then some (release_write_lock (others c) true, out, fok) else some (c, [], false))

  unfoldable pub send_create_stream_request :
      ℕ → List ℕ → List ℕ → List (Channel × Bool) → Option Sent
  unfolding send_locked
  send_create_stream_request p service method = send_locked (λ c.
      Send.send_create_stream_request sends (c.heap p).sid (srwnd (some (c.heap p))) service method)

  unfoldable pub send_create_stream_responce : ℕ → ℕ → ℕ → ℕ → List (Channel × Bool) → Option Sent
  unfolding send_locked
  send_create_stream_responce sid did rwnd status =
      send_locked (λ c. Send.send_create_stream_responce sends sid did rwnd status)

  unfoldable pub send_close_stream_notify : ℕ → List (Channel × Bool) → Option Sent
  unfolding send_locked
  send_close_stream_notify p =
      send_locked (λ c. Send.send_close_stream sends (c.heap p).sid (c.heap p).did 0)

  unfoldable pub send_data_ack : ℕ → List (Channel × Bool) → Option Sent
  unfolding send_locked
  send_data_ack p = send_locked (λ c. Send.send_data_ack sends (c.heap p).sid (c.heap p).did)

-- `corpc_stream_read_internal`: the test of its loop.
abbrev pub must_wait : Channel → Stream → Bool
must_wait c st =
    Fifo.is_empty st.rxq && (channel_established c && (stream_established st || stream_opening st))

-- The step after the loop: the channel, the message, and `is_connected`.
unfoldable pub take_message : Channel → ℕ → Option (Channel × Option Comsg × Bool)
take_message c p = Fifo.ppop (c.heap p).rxq >>= (λ r. some (
  record c { heap = put c.heap p (record (c.heap p) { rxq = r.0 }) },
  r.1,
  channel_established c && stream_established (c.heap p),
))

-- The rounds of the loop, on the states in which the reader finds the channel.
unfoldable pub wait_message : List Channel → ℕ → Option (Option (Channel × Option Comsg × Bool))
unfolding take_message
wait_message [] p = some none
wait_message (c ∷ seen) p =
    let later = wait_message seen p in
    if must_wait c (c.heap p) then later else take_message c p >>= (λ r. some (some r))

-- What the reader gets, and whether it owes the sender an ack.
unfoldable pub accept_message : Option Comsg → Bool → Option Comsg × Bool
accept_message none is_connected = (none, false)
accept_message (some msg) is_connected =
    if msg.hdr.code == data_msg then (some msg, is_connected) else (none, false)

-- `corpc_stream_read_internal`. `finds` is how the loop finds the channel, and `seen` what the
-- sender of the ack sees from the channel that the reader leaves. The result of the sender only
-- goes to the log. An inner `none` is a reader, or a sender, that still waits.
module _ (sends : List ℕ → Bool) (others others' : Channel → Channel)
    (seen : Channel → List (Channel × Bool)) where
  unfoldable pub acknowledge :
      Channel → ℕ → Option Comsg → Bool → Option (Channel × List (List ℕ) × Option Comsg)
  acknowledge c p out false = some (c, [], out)
  acknowledge c p out true =
      send_data_ack sends others others' p (seen c) >>= (λ sent. some (sent.0, sent.1, out))

  unfoldable pub read_internal :
      List Channel → ℕ → Option (Option (Channel × List (List ℕ) × Option Comsg))
  unfolding wait_message accept_message acknowledge
  read_internal finds p = wait_message finds p >>= (λ found. elim found [
    | none ↦ some none
    | some (c, msg, is_connected) ↦
        let (out, owes) = accept_message msg is_connected in some (acknowledge c p out owes)
  ])

-- `corpc_stream_read`: what `*out` is, and the size, -1 where it is none. `memory` says whether
-- there is memory for the bytes.
unfoldable pub stream_read : Option Comsg → Bool → Option (List ℕ)
stream_read none memory = none
stream_read (some msg) memory = if memory then some (take msg.hdr.pldsize msg.details) else none
