-- ===== src/Corpc/Channel/Flow/Start.antt =====
-- A stream as it is opened: the writer's window is the room that the reader has announced.
use cuttle.Prelude.{ℕ, ◌≤◌, ◌≡◌, refl, List, [], Option, some, true, false, length, arith}
use cuttle.Cc.Fifo.Repr.{Repr, init-Repr}
use cuttle.Corpc.Proto.{Comsg}
use cuttle.Corpc.Channel.{Channel, Stream, StreamState, srwnd}
use cuttle.Corpc.Channel.Streams.{stream_init, zeroed}
use cuttle.Corpc.Channel.Flow.{Phase, IsFlow}

-- With memory for its queue, a new stream is made, empty, and announces eight places.
pub stream_init_lem :
    (malloc : ℕ → Option (List Comsg)) (state : StreamState) (sid did rwnd : ℕ) (b : List Comsg)
    → malloc 64 ≡ some b
    → 8 ≤ length b
    → (st : Stream) × (stream_init malloc state sid did rwnd ≡ (st, true))
      × Repr st.rxq []
      × (st.rxq.capacity ≡ 8)
      × (srwnd (some st) ≡ 8)
      × (st.sid ≡ sid)
unfolding stream_init
stream_init_lem malloc state sid did rwnd b e room =
    let (q, made, h, cap) =
      init-Repr malloc zeroed 8 8 b e room (omega arith) (omega arith) (omega arith) in
    (
      record { rxq = q; state = state; sid = sid; did = did; rwnd = rwnd },
      rw made,
      h,
      cap,
      ground (arith, cap, h.count),
      refl,
    )

-- Where the reader has an empty queue of eight places and the writer has the window that the
-- reader announces by srwnd, the flow of the stream is as it should be.
pub start-IsFlow :
    (p q : ℕ) (writer reader : Channel)
    → Repr (reader.heap q).rxq []
    → (reader.heap q).rxq.capacity ≡ 8
    → (writer.heap p).rwnd ≡ srwnd (some (reader.heap q))
    → IsFlow 8 p q (record {
      writer = writer;
      reader = reader;
      wire = [];
      owed = 0;
      acks = 0;
      phase = Phase.away;
    })
start-IsFlow p q writer reader h cap e = record {
  queued = [];
  queue = h;
  places = cap;
  word = omega arith;
  sum = ground (arith, h.count);
  may = omega arith;
  lock = λ no. let no' : false ≡ true = no in cc;
}
