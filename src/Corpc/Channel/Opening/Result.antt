-- ===== src/Corpc/Channel/Opening/Result.antt =====
-- What the client of a stream gets, once the answer or the end of the channel is there.
use cuttle.Prelude.{
  ℕ, ◌≤◌, ◌<◌, ◌≡◌, ◌≢◌, ◌⊎◌, ◌++◌, refl, ap, ap₂, ◌∙◌, List, [], ◌∷◌, Option, none, some, Bool,
  true, false, ◌&&◌, ◌==◌, inl, inr, length,
}
use cuttle.Cc.Array.Model.{contents, IsValid}
use cuttle.Cc.Array.Find.{erase_first, erase_item_lem}
use cuttle.Corpc.Proto.{Comsg}
use cuttle.Corpc.Proto.Send
use cuttle.Corpc.Proto.Send.{create_stream_request}
use cuttle.Corpc.Channel.Heap.{put_here}
use cuttle.Corpc.Channel.States.{connected_cases, established_cases, opening_cases}
use cuttle.Corpc.Channel.{
  Channel, ChannelState, Stream, StreamState, channel_established, stream_opening,
  acquire_write_lock, release_write_lock, srwnd,
}
use cuttle.Corpc.Channel.Streams.{create_new_stream, gensid}
use cuttle.Corpc.Channel.Transfer.{send_create_stream_request, send_locked}
use cuttle.Corpc.Channel.Table.{add_stream_lem}
use cuttle.Corpc.Channel.Opening.{give_up, wait_answer, conclude, await, ask, open_stream}

-- A look that finds the channel established and the stream opening, so that the client waits on.
abbrev pub Waiting : ℕ → List Channel → Type 0
Waiting p [] = Unit
Waiting p (c ∷ cs) =
    (c.state ≡ ChannelState.established) × ((c.heap p).state ≡ StreamState.opening) × Waiting p cs

-- What the client gets from the channel `d` that it finds when it looks no more: the stream, and the
-- table as it is then; or null, and the stream out of the table.
pub data Gets (p : ℕ) (d : Channel) : Option ℕ → List ℕ → Type 0 where
  stream : (d.heap p).state ≡ StreamState.established → Gets p d (some p) (contents d.streams)
  null :
      (d.heap p).state ≢ StreamState.established
      → Gets p d none (erase_first (λ q. q == p) (contents d.streams))

conclude_lem :
    (d : Channel) (n : ℕ) (out : List (List ℕ)) (p : ℕ)
    → IsValid d.streams
    → (e : Channel) × (stp : Option ℕ) × (conclude d n out p ≡ some (e, n, out, stp))
      × Gets p d stp (contents e.streams)
unfolding conclude give_up
conclude_lem d n out p valid = elim (established_cases (d.heap p)) [
  | inl (state, open_) ↦ (d, some p, rw open_ refl, Gets.stream state)
  | inr (state, shut) ↦
      let (r, run, now, _, _) = erase_item_lem (λ q. q == p) d.streams valid in
      (record d { streams = r }, none, rw (shut, run) refl, rw now (Gets.null state))
]

connected_test : (d : Channel) → d.state ≡ ChannelState.established → channel_established d ≡ true
connected_test d h = rw h refl

opening_test : (st : Stream) → st.state ≡ StreamState.opening → stream_opening st ≡ true
opening_test st h = rw h refl

-- The client looks no more where the channel is not established, or the stream not opening.
answer_test :
    (d : Channel) (p : ℕ)
    → (d.state ≢ ChannelState.established) ⊎ ((d.heap p).state ≢ StreamState.opening)
    → (channel_established d && stream_opening (d.heap p)) ≡ false
answer_test d p h = elim (connected_cases d) [
  | inr (off, shut) ↦ rw shut refl
  | inl (on, connected) ↦ elim (opening_cases (d.heap p)) [
    | inr (off, shut) ↦ rw (connected, shut) refl
    | inl (opens, _) ↦ elim h [ inl off ↦ absurd (off on) | inr over ↦ absurd (over opens) ]
  ]
]

waited :
    (p : ℕ) (waits : List Channel) (d : Channel) (later : List Channel)
    → Waiting p waits
    → wait_answer (waits ++ (d ∷ later)) p ≡ wait_answer (d ∷ later) p
unfolding wait_answer
waited p [] d later h = refl
waited p (c ∷ cs) d later h =
    rw (connected_test c h.0, opening_test (c.heap p) h.1) (waited p cs d later h.2)

answer_now :
    (p : ℕ) (d : Channel) (later : List Channel)
    → (channel_established d && stream_opening (d.heap p)) ≡ false
    → wait_answer (d ∷ later) p ≡ some d
unfolding wait_answer
answer_now p d later over = rw over refl

module _ (sends : List ℕ → Bool) (others others' : Channel → Channel)
    (malloc : ℕ → Option (List Comsg)) (seen : Channel → List (Channel × Bool))
    (finds : Channel → List Channel) (grab : Channel → Channel) (c d : Channel)
    (waits later : List Channel) (p gsid : ℕ) (service method : List ℕ) (b : List Comsg) where
  -- On an established channel with a valid table that has room, with memory for the stream, with
  -- the write lock to be had and a socket that takes the request whole, corpc_open_stream sends
  -- one request, with the next number and a window of eight, and waits on as long as the client
  -- finds the channel established and the stream opening; where it first finds one of them
  -- otherwise, it returns: with the stream, and the table as it is then, where the stream is
  -- established, and otherwise with null and the stream out of the table.
  pub open_stream_lem :
      ((x : Channel) → acquire_write_lock (seen x) none ≡ some (true, grab x))
      → ((x : Channel) → (grab x).heap p ≡ x.heap p)
      → ((bytes : List ℕ) → sends bytes ≡ true)
      → ((x : Channel) → finds x ≡ waits ++ (d ∷ later))
      → Waiting p waits
      → (d.state ≢ ChannelState.established) ⊎ ((d.heap p).state ≢ StreamState.opening)
      → IsValid d.streams
      → channel_established c ≡ true
      → IsValid c.streams
      → c.streams.size < c.streams.capacity
      → malloc 64 ≡ some b
      → 8 ≤ length b
      → (e : Channel) × (stp : Option ℕ) × (open_stream sends others others'
            (some p)
            malloc
            seen
            finds
            c
            gsid
            service
            method
          ≡ some (e, gensid gsid, create_stream_request (gensid gsid) 8 service method ∷ [], stp))
        × Gets p d stp (contents e.streams)
  unfolding open_stream create_new_stream ask await send_create_stream_request send_locked
      Send.send_create_stream_request
  open_stream_lem gets keeps whole answer waiting over valid_d connected valid room at_b enough =
      let (c', st, run, _, _, heap, _, number, window) =
        add_stream_lem malloc c p gsid 0 0 b valid room at_b enough in
      let here : (grab c').heap p ≡ st =
        keeps c' ∙ ap (λ (h : ℕ → Stream). h p) heap ∙ put_here c.heap p st in
      let sid : ((grab c').heap p).sid ≡ gensid gsid = ap (λ (t : Stream). t.sid) here ∙ number in
      let announced : srwnd (some ((grab c').heap p)) ≡ 8 =
        ap (λ (t : Stream). srwnd (some t)) here ∙ window in
      let message =
        create_stream_request ((grab c').heap p).sid (srwnd (some ((grab c').heap p))) service
          method in
      let (e, stp, end_, table) = conclude_lem d (gensid gsid) (message ∷ []) p valid_d in
      let met : wait_answer (waits ++ (d ∷ later)) p ≡ some d =
        waited p waits d later waiting ∙ answer_now p d later (answer_test d p over) in
      (
        e,
        stp,
        rw
            (
              connected,
              run,
              gets c',
              whole message,
              answer (release_write_lock (others (grab c')) true),
              met,
            )
            (end_
              ∙ ap₂
                  (λ s w. some (e, gensid gsid, create_stream_request s w service method ∷ [], stp))
                  sid announced),
        table,
      )
