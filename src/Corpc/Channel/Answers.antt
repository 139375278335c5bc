-- ===== src/Corpc/Channel/Answers.antt =====
-- What an answer to a request for a stream does to the stream that waits for it.
use cuttle.Prelude.{
  ℕ, suc, ◌≤◌, ◌≡◌, ◌≢◌, refl, ap, ◌∙◌, none, some, Bool, true, false, ◌==◌, if◌then◌else◌, ==_iff,
  Bool-cases, Option-cases, inl, inr, arith,
}
use cuttle.Prelude.Words.{load16}
use cuttle.Cc.Array.Model.{contents, IsValid}
use cuttle.Corpc.Proto.{Comsg, byte}
use cuttle.Corpc.Channel.Heap.{put_here, put_there}
use cuttle.Corpc.Channel.States.{opening_cases}
use cuttle.Corpc.Channel.Lookup.{lookup, find_stream_by_sid_lem}
use cuttle.Corpc.Channel.{Channel, Stream, StreamState, put, set_stream_state}
use cuttle.Corpc.Channel.Receive.{state_of_status, answered, on_create_stream_responce}

-- The statuses of create_stream_responce_code that turn a request down, the state that each gives
-- the stream, and whether the peer keeps to the protocol.
pub data Refuses : ℕ → StreamState → Bool → Type 0 where
  no_stream_resources : Refuses 1 StreamState.too_many_streams true
  no_service : Refuses 2 StreamState.no_such_service true
  no_method : Refuses 3 StreamState.no_such_method true
  internal_error : Refuses 4 StreamState.remote_internal_error true
  protocol_error : (status : ℕ) → 5 ≤ status → Refuses status StreamState.protocol_error false

-- What an answer makes of an opening stream, and the result of the handler.
pub data Answers (st : Stream) (sid status window : ℕ) : Stream → Bool → Type 0 where
  accepted :
      status ≡ 0
      → Answers st sid status window
          (record st { state = StreamState.established; did = sid; rwnd = window })
          true
  refused :
      (state : StreamState) (fok : Bool)
      → Refuses status state fok
      → Answers st sid status window (record st { state = state }) fok

-- The statuses, and what the switch makes of them.
data Status (n : ℕ) : Type 0 where
  ok : n ≡ 0 → state_of_status n ≡ (StreamState.established, true) → Status n
  turned_down :
      (state : StreamState) (fok : Bool)
      → Refuses n state fok
      → (n == 0) ≡ false
      → state_of_status n ≡ (state, fok)
      → Status n

status_of : (n : ℕ) → Status n
unfolding state_of_status
status_of n = elim (Bool-cases (n == 0)) [
  | inl k0 ↦ Status.ok (ground arith) (rw k0 refl)
  | inr n0 ↦ elim (Bool-cases (n == 1)) [
    | inl k ↦ Status.turned_down _ _ (is n 1 k Refuses.no_stream_resources) n0 (rw (n0, k) refl)
    | inr n1 ↦ elim (Bool-cases (n == 2)) [
      | inl k ↦ Status.turned_down _ _ (is n 2 k Refuses.no_service) n0 (rw (n0, n1, k) refl)
      | inr n2 ↦ elim (Bool-cases (n == 3)) [
        | inl k ↦ Status.turned_down _ _ (is n 3 k Refuses.no_method) n0 (rw (n0, n1, n2, k) refl)
        | inr n3 ↦ elim (Bool-cases (n == 4)) [
          | inl k ↦
              Status.turned_down _ _ (is n 4 k Refuses.internal_error) n0
                (rw (n0, n1, n2, n3, k) refl)
          | inr n4 ↦
              Status.turned_down _ _ (Refuses.protocol_error n (ground arith)) n0
                (rw (n0, n1, n2, n3, n4) refl)
        ]
      ]
    ]
  ]
]
  where
    is :
        (n k : ℕ) {state : StreamState} {fok : Bool}
        → (n == k) ≡ true
        → Refuses k state fok
        → Refuses n state fok
    is n k e r = rw ((==_iff n k).0 e) r

module _ (c : Channel) (msg : Comsg) where
  abbrev pub status : ℕ
  status = load16 (byte msg.details 0) (byte msg.details 1)

  abbrev pub window : ℕ
  window = load16 (byte msg.details 2) (byte msg.details 3)

  -- What the handler of an answer does.
  pub data Responds : Channel → Bool → Type 0 where
    unknown : lookup c.heap msg.hdr.did (contents c.streams) ≡ none → Responds c false
    late :
        (p : ℕ)
        → lookup c.heap msg.hdr.did (contents c.streams) ≡ some p
        → (c.heap p).state ≢ StreamState.opening
        → Responds c true
    answers :
        (p : ℕ) (c' : Channel) (st : Stream) (fok : Bool)
        → lookup c.heap msg.hdr.did (contents c.streams) ≡ some p
        → (c.heap p).state ≡ StreamState.opening
        → Answers (c.heap p) msg.hdr.sid status window st fok
        → c'.heap p ≡ st
        → ((q : ℕ) → q ≢ p → c'.heap q ≡ c.heap q)
        → c' ≡ record c { heap = c'.heap; signals = suc c.signals }
        → Responds c' fok

  answered_lem :
      (p : ℕ) (learnt : Stream) (state : StreamState) (fok : Bool)
      → (if status == 0 then record (c.heap p) { did = msg.hdr.sid; rwnd = window } else c.heap p)
        ≡ learnt
      → state_of_status status ≡ (state, fok)
      → (c' : Channel) × (answered c p msg ≡ some (c', fok))
        × (c'.heap p ≡ record learnt { state = state })
        × ((q : ℕ) → q ≢ p → c'.heap q ≡ c.heap q)
        × (c' ≡ record c { heap = c'.heap; signals = suc c.signals })
  unfolding answered set_stream_state
  answered_lem p learnt state fok learns means =
      let heap : ℕ → Stream = put c.heap p learnt in
      let now : Stream = record (heap p) { state = state } in
      (
        record c { heap = put heap p now; signals = suc c.signals },
        rw (learns, means) refl,
        put_here heap p now
            ∙ ap (λ (t : Stream). record t { state = state }) (put_here c.heap p learnt),
        λ q ne. put_there heap p q now ne ∙ put_there c.heap p q learnt ne,
        refl,
      )

  opening_lem :
      (p : ℕ)
      → lookup c.heap msg.hdr.did (contents c.streams) ≡ some p
      → (c.heap p).state ≡ StreamState.opening
      → (c' : Channel) × (fok : Bool) × (answered c p msg ≡ some (c', fok)) × Responds c' fok
  opening_lem p found opens = elim (status_of status) [
    | Status.ok zero_ means ↦
        let learns : (status == 0) ≡ true = (==_iff status 0).1 zero_ in
        let (c', run, here, there, whole) =
          answered_lem p (record (c.heap p) { did = msg.hdr.sid; rwnd = window })
            StreamState.established true (rw learns refl) means in
        (
          c',
          true,
          run,
          Responds.answers p c' _ true found opens (Answers.accepted zero_) here there whole,
        )
    | Status.turned_down state fok how other means ↦
        let (c', run, here, there, whole) =
          answered_lem p (c.heap p) state fok (rw other refl) means in
        (
          c',
          fok,
          run,
          Responds.answers p c' _ fok found opens (Answers.refused state fok how) here there whole,
        )
  ]

  -- On a valid table, the handler of an answer always has a result. Where no stream has the number
  -- the answer is for, nothing changes and it fails; where the stream is not opening, nothing
  -- changes and it succeeds; and an opening stream is established by status 0, with the number and
  -- the window of its peer, or gets the state of what has turned it down - no room, no service, no
  -- method, an error of the peer, or another status, for which alone the handler fails - and keeps
  -- the rest. No other stream changes then, nor the channel, but for its waiters, which are woken.
  pub on_create_stream_responce_lem :
      IsValid c.streams
      → (c' : Channel) × (fok : Bool) × (on_create_stream_responce c msg ≡ some (c', fok))
        × Responds c' fok
  unfolding on_create_stream_responce
  on_create_stream_responce_lem valid =
      let find = find_stream_by_sid_lem c msg.hdr.did valid in
      elim (Option-cases (lookup c.heap msg.hdr.did (contents c.streams))) [
        | inl missing ↦ (c, false, rw (find, missing) refl, Responds.unknown missing)
        | inr (p, found) ↦ elim (opening_cases (c.heap p)) [
          | inr (state, over) ↦ (c, true, rw (find, found, over) refl, Responds.late p found state)
          | inl (state, opens) ↦
              let (c', fok, run, how) = opening_lem p found state in
              (c', fok, rw (find, found, opens) run, how)
        ]
      ]
