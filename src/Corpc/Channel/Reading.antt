-- ===== src/Corpc/Channel/Reading.antt =====
-- What a reader of a stream gets, and what it sends for it.
use cuttle.Prelude.{
  ℕ, ◌≡◌, refl, List, [], ◌∷◌, none, some, Bool, true, false, ◌&&◌, ◌==◌, arith, ==_iff,
}
use cuttle.Cc.Fifo
use cuttle.Cc.Fifo.{Fifo}
use cuttle.Cc.Fifo.Repr.{Repr, ppop_cons}
use cuttle.Corpc.Proto.{Comsg, data_msg}
use cuttle.Corpc.Proto.Send.{ack}
use cuttle.Corpc.Channel.{
  Channel, put, channel_established, stream_established, acquire_write_lock, release_write_lock,
}
use cuttle.Corpc.Channel.Transfer.{
  take_message, wait_message, accept_message, acknowledge, read_internal, send_data_ack,
  send_locked,
}
use cuttle.Corpc.Proto.Send

-- The queue of the stream at `p` becomes `q`.
abbrev pub with_queue : Channel → ℕ → Fifo Comsg → Channel
with_queue c p q = record c { heap = put c.heap p (record (c.heap p) { rxq = q }) }

module _ (sends : List ℕ → Bool) (others others' : Channel → Channel)
    (seen : Channel → List (Channel × Bool)) (c : Channel) (later : List Channel) (p : ℕ)
    (msg : Comsg) (xs : List Comsg) where
  wait_lem :
      Repr (c.heap p).rxq (msg ∷ xs)
      → (q : Fifo Comsg) × (wait_message (c ∷ later) p
          ≡ some (
              some (
                with_queue c p q,
                some msg,
                channel_established c && stream_established (c.heap p),
              )))
        × Repr q xs
  unfolding wait_message take_message
  wait_lem h =
      let (q, run, h', _) = ppop_cons (c.heap p).rxq msg xs h in
      let some_item : Fifo.is_empty (c.heap p).rxq ≡ false = ground (arith, h.count) in
      (q, rw (some_item, run), h')

  -- A reader that finds a data message in the queue of an established stream of an established
  -- channel, and for whose ack the write lock is to be had, gets the oldest message without a
  -- wait, leaves the others in order, and sends one ack for it.
  pub read_internal_lem :
      (grab : Channel → Channel)
      → ((d : Channel) → acquire_write_lock (seen d) none ≡ some (true, grab d))
      → Repr (c.heap p).rxq (msg ∷ xs)
      → msg.hdr.code ≡ 4
      → channel_established c ≡ true
      → stream_established (c.heap p) ≡ true
      → (q : Fifo Comsg) × Repr q xs
        × (read_internal sends others others' seen (c ∷ later) p
            ≡ some (
                some (
                  release_write_lock (others (grab (with_queue c p q))) true,
                  ack ((grab (with_queue c p q)).heap p).sid ((grab (with_queue c p q)).heap p).did
                      ∷ [],
                  some msg,
                )))
  unfolding read_internal accept_message acknowledge send_data_ack send_locked Send.send_data_ack
  read_internal_lem grab gets h code connected ready =
      let (q, run, h') = wait_lem h in
      let carries : (msg.hdr.code == data_msg) ≡ true = (==_iff _ _).1 code in
      (q, h', rw (run, carries, connected, ready, gets (with_queue c p q)) refl)
