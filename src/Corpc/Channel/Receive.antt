-- ===== src/Corpc/Channel/Receive.antt =====
-- The handlers of received messages that answer nothing: each is one step under the global lock.
-- A result is the channel and the handler's result; `none` is an access through a bad pointer.
use cuttle.Prelude.{ℕ, ◌+◌, Option, none, some, Bool, true, false, ◌==◌, if◌then◌else◌, ◌>>=◌, not}
use cuttle.Prelude.Words.{u16, load16}
use cuttle.Cc.Fifo
use cuttle.Corpc.Proto.{Comsg, byte}
use cuttle.Corpc.Channel.{
  Channel, StreamState, put, signal, set_stream_state, stream_opening, find_stream_by_sid,
}

-- The state that a status of create_stream_responce_code gives, and whether the peer keeps to the
-- protocol.
unfoldable pub state_of_status : ℕ → StreamState × Bool
state_of_status status =
    if status == 0
    then (StreamState.established, true)
    else if status == 1
    then (StreamState.too_many_streams, true)
    else if status == 2
    then (StreamState.no_such_service, true)
    else if status == 3
    then (StreamState.no_such_method, true)
    else if status == 4
    then (StreamState.remote_internal_error, true)
    else (StreamState.protocol_error, false)

-- What a responce does to an opening stream.
unfoldable pub answered : Channel → ℕ → Comsg → Option (Channel × Bool)
unfolding state_of_status set_stream_state
answered c p msg =
    let status = load16 (byte msg.details 0) (byte msg.details 1) in
    let rwnd = load16 (byte msg.details 2) (byte msg.details 3) in
    let (state, fok) = state_of_status status in
    let st = c.heap p in
    let st' = if status == 0 then record st { did = msg.hdr.sid; rwnd = rwnd } else st in
    set_stream_state (record c { heap = put c.heap p st' }) (some p) state
    >>= (λ c'. some (c', fok))

unfoldable pub on_create_stream_responce : Channel → Comsg → Option (Channel × Bool)
unfolding answered
on_create_stream_responce c msg = find_stream_by_sid c msg.hdr.did >>= (λ stp. elim stp [
  | none ↦ some (c, false)
  | some p ↦ if not (stream_opening (c.heap p)) then some (c, true) else answered c p msg
])

unfoldable pub on_close_stream_notify : Channel → Comsg → Option (Channel × Bool)
on_close_stream_notify c msg = find_stream_by_sid c msg.hdr.did >>= (λ stp. elim stp [
  | none ↦ some (c, true)
  | some p ↦
      set_stream_state c (some p) StreamState.closed_by_remote_party >>= (λ c'. some (c', true))
])

-- A data message for the stream at `p`: with room it goes into the queue. The last flag says that
-- the queue has the message now, and the reader of messages needs memory for a new one.
unfoldable pub data_for : Channel → ℕ → Comsg → Option (Channel × Bool × Bool)
data_for c p msg =
    let st = c.heap p in
    if Fifo.is_full st.rxq
    then set_stream_state c (some p) StreamState.protocol_error >>= (λ c'. some (c', false, false))
    else Fifo.push st.rxq msg >>= (λ r.
      some (signal (record c { heap = put c.heap p (record st { rxq = r.0 }) }), true, true))

-- For a stream that is not there the source sets the state of the null pointer.
unfoldable pub on_data_message : Channel → Comsg → Option (Channel × Bool × Bool)
unfolding data_for
on_data_message c msg = find_stream_by_sid c msg.hdr.did >>= (λ stp. elim stp [
  | none ↦ set_stream_state c none StreamState.protocol_error >>= (λ c'. some (c', false, false))
  | some p ↦ data_for c p msg
])

-- `++st->rwnd`, in 16 bits.
unfoldable pub credit_for : Channel → ℕ → Channel
credit_for c p =
    let st = c.heap p in
    signal (record c { heap = put c.heap p (record st { rwnd = u16 (st.rwnd + 1) }) })

unfoldable pub on_data_ack : Channel → Comsg → Option (Channel × Bool)
unfolding credit_for
on_data_ack c msg =
    find_stream_by_sid c msg.hdr.did
    >>= (λ stp. elim stp [ none ↦ some (c, true) | some p ↦ some (credit_for c p, true) ])
