-- ===== src/Corpc/Channel/Table.antt =====
-- The streams of a channel: what `accept_stream` and `create_new_stream` add.
use cuttle.Prelude.{
  ℕ, ◌≤◌, ◌<◌, ◌≡◌, refl, ◌∙◌, List, [], ◌∷◌, ◌++◌, Option, some, true, false, leb, ltb, lt→ltb,
  arith, length,
}
use cuttle.Cc.Array.Model.{contents, IsValid, push_back_lem}
use cuttle.Cc.Fifo.Repr.{Repr}
use cuttle.Corpc.Proto.{Comsg}
use cuttle.Corpc.Channel.{Channel, Stream, StreamState, put, srwnd}
use cuttle.Corpc.Channel.Streams.{add_stream, stream_new, gensid}
use cuttle.Corpc.Channel.Flow.Start.{stream_init_lem}

-- With a valid table that has room, and memory for the stream and its queue, a stream is added: it
-- is the last of the streams, stands in memory at its address with the next number and an empty
-- queue, and announces a window of eight; the counter of numbers has moved on.
pub add_stream_lem :
    (malloc : ℕ → Option (List Comsg)) (c : Channel) (p gsid did rwnd : ℕ) (b : List Comsg)
    → IsValid c.streams
    → c.streams.size < c.streams.capacity
    → malloc 64 ≡ some b
    → 8 ≤ length b
    → (c' : Channel) × (st : Stream) × (add_stream (some p) malloc c gsid did rwnd
        ≡ some (c', gensid gsid, some p, 0))
      × IsValid c'.streams
      × (contents c'.streams ≡ contents c.streams ++ (p ∷ []))
      × (c'.heap ≡ put c.heap p st)
      × Repr st.rxq []
      × (st.sid ≡ gensid gsid)
      × (srwnd (some st) ≡ 8)
unfolding add_stream stream_new
add_stream_lem malloc c p gsid did rwnd b valid room e enough =
    let (st, made, h, cap, room8, number) =
      stream_init_lem malloc StreamState.opening (gensid gsid) did rwnd b e enough in
    let (r, run, now, valid', _) = push_back_lem c.streams p valid in
    let fits : ltb c.streams.size c.streams.capacity ≡ true = lt→ltb _ _ room in
    let open_ : leb c.streams.capacity c.streams.size ≡ false = ground arith in
    (
      record c { streams = r; heap = put c.heap p st },
      st,
      rw (open_, made, run),
      valid',
      now ∙ rw fits refl,
      refl,
      h,
      number,
      room8,
    )
