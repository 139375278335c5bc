-- ===== src/Corpc/Channel/Streams.antt =====
-- The making of streams. `malloc` of a stream gives its address, if any; that of the queue gives a
-- block. `gsid` is the static variable of `gensid`, which all channels share.
use cuttle.Prelude.{
  ℕ, ◌+◌, List, [], Option, none, some, Bool, true, false, leb, if◌then◌else◌, ◌>>=◌,
}
use cuttle.Prelude.Words.{u16}
use cuttle.Cc.Fifo
use cuttle.Cc.Fifo.{Fifo}
use cuttle.Cc.Array.{push_back}
use cuttle.Corpc.Proto.{Comsg}
use cuttle.Corpc.Channel.{Channel, Stream, StreamState, put}

abbrev pub zeroed : Fifo Comsg
zeroed = record { items = []; capacity = 0; size = 0; item_size = 0; first = 0; last = 0 }

-- CORPC_STREAM_DEFAULT_QUEUE_SIZE
abbrev pub default_queue_size : ℕ
default_queue_size = 8

-- The stream in memory, and whether it could be made. `state` and the rest are the options.
unfoldable pub stream_init : (ℕ → Option (List Comsg)) → StreamState → ℕ → ℕ → ℕ → Stream × Bool
stream_init malloc state sid did rwnd =
    let (q, made) = Fifo.init malloc zeroed default_queue_size 8 in
    if made
    then (record { rxq = q; state = state; sid = sid; did = did; rwnd = rwnd }, true)
    else (record { rxq = q; state = StreamState.created; sid = 0; did = 0; rwnd = 0 }, false)

-- The address of the new stream, and what stands there.
unfoldable pub stream_new :
    Option ℕ → (ℕ → Option (List Comsg)) → StreamState → ℕ → ℕ → ℕ → Option (ℕ × Stream)
unfolding stream_init
stream_new none malloc state sid did rwnd = none
stream_new (some p) malloc state sid did rwnd =
    let (st, made) = stream_init malloc state sid did rwnd in if made then some (p, st) else none

unfoldable pub gensid : ℕ → ℕ
gensid gsid = u16 (gsid + 1)

-- What `accept_stream` and `create_new_stream` share: the channel, `gsid`, and the address of the
-- stream. The number is `which`: 0 for a stream, 1 where there is no room, 2 without memory.
unfoldable pub add_stream :
    Option ℕ → (ℕ → Option (List Comsg)) → Channel → ℕ → ℕ → ℕ → Option (Channel × ℕ × Option ℕ × ℕ)
unfolding gensid
add_stream memory malloc c gsid did rwnd =
    if leb c.streams.capacity c.streams.size
    then some (c, gsid, none, 1)
    else elim (stream_new memory malloc StreamState.opening (gensid gsid) did rwnd) [
      | none ↦ some (c, gensid gsid, none, 2)
      | some (p, st) ↦ push_back c.streams p >>= (λ r.
          some (record c { streams = r.0; heap = put c.heap p st }, gensid gsid, some p, 0))
    ]

-- A stream that asks for its peer has no number and no window of it.
unfoldable pub create_new_stream :
    Option ℕ → (ℕ → Option (List Comsg)) → Channel → ℕ → Option (Channel × ℕ × Option ℕ)
unfolding add_stream
create_new_stream memory malloc c gsid =
    add_stream memory malloc c gsid 0 0 >>= (λ r. some (r.0, r.1, r.2))
