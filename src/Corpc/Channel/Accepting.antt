-- ===== src/Corpc/Channel/Accepting.antt =====
-- The handler of a request for a stream from end to end: a request that can be served, and one that
-- is refused.
use cuttle.Prelude.{
  ℕ, suc, ◌≤◌, ◌<◌, ◌≡◌, refl, ap, ap₂, ◌∙◌, List, [], ◌∷◌, ◌++◌, Option, none, some, Bool, true,
  length,
}
use cuttle.Prelude.Words.{load16}
use cuttle.Cc.Array.Model.{contents, IsValid}
use cuttle.Corpc.Proto.{Comsg, byte}
use cuttle.Corpc.Proto.Send.{create_stream_responce}
use cuttle.Corpc.Proto.Send
use cuttle.Corpc.Proto.Message.{Message, IsMessage, Says}
use cuttle.Corpc.Channel.Naming.{IsText, Refused, target-Refused}
use cuttle.Corpc.Channel.Heap.{put_here}
use cuttle.Corpc.Channel.{
  Channel, Stream, StreamState, put, set_stream_state, acquire_write_lock, release_write_lock,
  srwnd,
}
use cuttle.Corpc.Channel.Streams.{gensid}
use cuttle.Corpc.Channel.Transfer.{send_create_stream_responce, send_locked}
use cuttle.Corpc.Channel.Request.{Service, Target, target, settle, answer, on_create_stream_request}
use cuttle.Corpc.Channel.Table.{add_stream_lem}

module _ (sends : List ℕ → Bool) (others others' : Channel → Channel) (memory : Option ℕ)
    (malloc : ℕ → Option (List Comsg)) (starts : Bool) (seen : Channel → List (Channel × Bool))
    (grab : Channel → Channel)
    (gets : (d : Channel) → acquire_write_lock (seen d) none ≡ some (true, grab d))
    (services : Option (List Service)) (c : Channel) (gsid : ℕ) (msg : Comsg) where
  -- The channel when the answer is out and others have run.
  abbrev pub after_answer : Channel → Channel
  after_answer d = others' (release_write_lock (others (grab d)) true)

  answer_lem :
      (d : Channel) (n : ℕ) (stp : Option ℕ) (sid did rwnd status : ℕ) (e : Channel)
      → settle (after_answer d) stp status ≡ some e
      → answer sends others others' memory malloc starts seen d n stp sid did rwnd status
        ≡ some (e, n, create_stream_responce sid did rwnd status ∷ [])
  unfolding answer send_create_stream_responce send_locked Send.send_create_stream_responce
  answer_lem d n stp sid did rwnd status e settled = rw (gets d, settled) refl

  refuses_lem :
      (status : ℕ)
      → target services msg ≡ some (Target.refused status)
      → on_create_stream_request sends others others' memory malloc starts seen services c gsid msg
        ≡ some (after_answer c, gsid, create_stream_responce 0 msg.hdr.sid 0 status ∷ [])
  unfolding on_create_stream_request settle
  refuses_lem status e = rw e (answer_lem c gsid none 0 msg.hdr.sid 0 status (after_answer c) refl)

  -- Where a message says what its sender meant, a request for a method of a service by their
  -- names, strings without a 0 inside, and the write lock is to be had: where there are no
  -- services, or none of this name, the peer is answered once, to its number, with status 2, the
  -- number 0 and no window; where the first service of this name has no such method, likewise with
  -- status 3; no number is used up, and the handler itself leaves the table and the streams as
  -- they are.
  pub on_create_stream_request-refuses :
      (sid rwnd : ℕ) (service method : List ℕ) (status : ℕ)
      → Says (Message.request sid rwnd service method) msg
      → IsMessage (Message.request sid rwnd service method)
      → IsText service
      → IsText method
      → Refused services service method status
      → on_create_stream_request sends others others' memory malloc starts seen services c gsid msg
        ≡ some (after_answer c, gsid, create_stream_responce 0 sid 0 status ∷ [])
  on_create_stream_request-refuses sid rwnd service method status says valid text_s text_m why =
      refuses_lem status
        (target-Refused sid rwnd service method services msg status says valid text_s text_m why)
      ∙ ap (λ n. some (after_answer c, gsid, create_stream_responce 0 n 0 status ∷ [])) says.sid

  -- Where a service and a method of it are asked for that exist, the table is valid and has room,
  -- there is memory, the coroutine of the service starts and the write lock is to be had: the
  -- stream goes into the table with the next number, the peer is answered once with this number
  -- and a window of eight, and, whatever others did meanwhile, the stream is established then.
  pub on_create_stream_request-accepts :
      (p : ℕ) (service : Service) (b : List Comsg)
      → target services msg ≡ some (Target.found service)
      → IsValid c.streams
      → c.streams.size < c.streams.capacity
      → memory ≡ some p
      → malloc 64 ≡ some b
      → 8 ≤ length b
      → starts ≡ true
      → (d : Channel) × (e : Channel) × (on_create_stream_request sends others others' memory malloc
            starts seen services c gsid msg
          ≡ some (e, gensid gsid, create_stream_responce (gensid gsid) msg.hdr.sid 8 0 ∷ []))
        × (contents d.streams ≡ contents c.streams ++ (p ∷ []))
        × (set_stream_state (after_answer d) (some p) StreamState.established ≡ some e)
  unfolding on_create_stream_request settle set_stream_state
  on_create_stream_request-accepts p service b found valid room at_p at_b enough started =
      let rwnd : ℕ = load16 (byte msg.details 0) (byte msg.details 1) in
      let (d, st, run, _, listed, heap, _, number, window) =
        add_stream_lem malloc c p gsid msg.hdr.sid rwnd b valid room at_b enough in
      let here : d.heap p ≡ st = ap (λ (h : ℕ → Stream). h p) heap ∙ put_here c.heap p st in
      let a : Channel = after_answer d in
      let e : Channel = record a {
        heap = put a.heap p (record (a.heap p) { state = StreamState.established });
        signals = suc a.signals;
      } in
      (
        d,
        e,
        rw (found, at_p, run, started)
            (answer_lem d (gensid gsid) (some p) (d.heap p).sid msg.hdr.sid
                (srwnd (some (d.heap p))) 0 e refl
              ∙ ap₂ (λ s w. some (e, gensid gsid, create_stream_responce s msg.hdr.sid w 0 ∷ []))
                  (ap (λ (t : Stream). t.sid) here ∙ number)
                  (ap (λ (t : Stream). srwnd (some t)) here ∙ window)),
        listed,
        refl,
      )
