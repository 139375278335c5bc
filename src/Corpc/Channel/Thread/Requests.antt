-- ===== src/Corpc/Channel/Thread/Requests.antt =====
-- The handler of a request leaves the reference count alone, where the others do.
use cuttle.Prelude.{
  ℕ, ◌≡◌, refl, ◌∙◌, subst, List, [], ◌∷◌, Option, none, some, Bool, true, false, ◌&&◌, ◌||◌, not,
  ◌==◌, leb, if◌then◌else◌, Bool-cases, inl, inr, ◌>>=◌,
}
use cuttle.Prelude.Int.{ℤ}
use cuttle.Prelude.Words.{load16}
use cuttle.Cc.Array.{push_back, erase_item}
use cuttle.Corpc.Proto.{Comsg, byte}
use cuttle.Corpc.Channel.{
  Channel, Stream, StreamState, Round, acquire_round, acquire_write_lock, release_write_lock,
  channel_established, unready, has_window, put, srwnd,
}
use cuttle.Corpc.Channel.Streams.{add_stream, stream_new, gensid}
use cuttle.Corpc.Channel.Transfer.{Sent, send_locked, send_create_stream_responce}
use cuttle.Corpc.Channel.Request.{
  Service, Target, target, settle, answer, status_of, on_create_stream_request,
}
use cuttle.Corpc.Channel.Thread.Refs.{
  Counts, bind-Counts, pure-Counts, if-Counts, set_stream_state-Counts,
}

-- All states in which a sender finds the channel have this count.
abbrev pub AllCount : ℤ → List (Channel × Bool) → Type 0
AllCount n [] = Unit
AllCount n (s ∷ seen) = (s.0.refs ≡ n) × AllCount n seen

acquire_round-refs :
    (c : Channel) (stp : Option ℕ) (expired : Bool) → (acquire_round c stp expired).1.refs ≡ c.refs
unfolding acquire_round
acquire_round-refs c stp expired =
    elim (Bool-cases (not (channel_established c) || unready c stp)) [
      | inl bad ↦ rw bad refl
      | inr ok ↦ elim (Bool-cases (not c.write_lock && has_window c stp)) [
        | inl free ↦ rw (ok, free) refl
        | inr busy ↦ elim (Bool-cases expired) [
          | inl over ↦ rw (ok, busy, over) refl
          | inr early ↦ rw (ok, busy, early) refl
        ]
      ]
    ]

acquire_write_lock-Counts :
    (n : ℤ) (seen : List (Channel × Bool)) (stp : Option ℕ)
    → AllCount n seen
    → Counts n (λ (r : Bool × Channel). r.1) (acquire_write_lock seen stp)
unfolding acquire_write_lock
acquire_write_lock-Counts n [] stp h = tt
acquire_write_lock-Counts n ((c, expired) ∷ seen) stp h =
    by_round (acquire_round c stp expired).0 (acquire_round c stp expired).1
      (acquire_write_lock seen stp) (acquire_round-refs c stp expired ∙ h.0)
      (acquire_write_lock-Counts n seen stp h.1)
  where
    by_round :
        (r : Round) (d : Channel) (later : Option (Bool × Channel))
        → d.refs ≡ n
        → Counts n (λ (r : Bool × Channel). r.1) later
        → Counts n
            (λ (r : Bool × Channel). r.1)
            (elim r [ Round.taken ↦ some (true, d) | Round.waits ↦ later | _ ↦ some (false, d) ])
    by_round Round.taken d later e h = e
    by_round Round.waits d later e h = h
    by_round Round.refused d later e h = e
    by_round Round.timed_out d later e h = e

abbrev sent_of : Sent → Channel
sent_of r = r.0

module _ (n : ℤ) (others : Channel → Channel)
    (keeps : (d : Channel) → (others d).refs ≡ d.refs) where
  send_locked-Counts :
      (sends : List ℕ → Bool) (others' : Channel → Channel)
      (message : Channel → List (List ℕ) × Bool) (seen : List (Channel × Bool))
      → AllCount n seen
      → Counts n sent_of (send_locked sends others others' message seen)
  unfolding send_locked release_write_lock
  send_locked-Counts sends others' message seen h =
      bind-Counts n (λ (r : Bool × Channel). r.1) sent_of (acquire_write_lock seen none) _
        (acquire_write_lock-Counts n seen none h)
        (λ r e. if-Counts n sent_of r.0 _ _ (keeps r.1 ∙ e) e)

settle-Counts :
    (c : Channel) (stp : Option ℕ) (status : ℕ)
    → Counts c.refs (λ (d : Channel). d) (settle c stp status)
unfolding settle
settle-Counts c none status = refl
settle-Counts c (some p) status =
    if-Counts c.refs (λ (d : Channel). d) (status == 0) _ _
      (set_stream_state-Counts c (some p) StreamState.established)
      (pure-Counts c.refs (λ (d : Channel). d) (erase_item (λ q. q == p) c.streams) _ (λ r. refl))

abbrev added_of : Channel × ℕ × Option ℕ × ℕ → Channel
added_of r = r.0

add_stream-Counts :
    (memory : Option ℕ) (malloc : ℕ → Option (List Comsg)) (c : Channel) (gsid did rwnd : ℕ)
    → Counts c.refs added_of (add_stream memory malloc c gsid did rwnd)
unfolding add_stream
add_stream-Counts memory malloc c gsid did rwnd =
    if-Counts c.refs added_of (leb c.streams.capacity c.streams.size) _ _ refl
      (by_memory (stream_new memory malloc StreamState.opening (gensid gsid) did rwnd))
  where
    by_memory :
        (o : Option (ℕ × Stream))
        → Counts c.refs added_of (elim o [
          | none ↦ some (c, gensid gsid, none, 2)
          | some (p, st) ↦ push_back c.streams p >>= (λ r.
              some (record c { streams = r.0; heap = put c.heap p st }, gensid gsid, some p, 0))
        ])
    by_memory none = refl
    by_memory (some (p, st)) = pure-Counts c.refs added_of (push_back c.streams p) _ (λ r. refl)

abbrev pub answer_of : Channel × ℕ × List (List ℕ) → Channel
answer_of r = r.0

module _ (sends : List ℕ → Bool) (others others' : Channel → Channel) (memory : Option ℕ)
    (malloc : ℕ → Option (List Comsg)) (starts : Bool) (seen : Channel → List (Channel × Bool))
    (keeps : (d : Channel) → (others d).refs ≡ d.refs)
    (keeps' : (d : Channel) → (others' d).refs ≡ d.refs)
    (sees : (d : Channel) → AllCount d.refs (seen d)) where
  answer-Counts :
      (c : Channel) (gsid : ℕ) (stp : Option ℕ) (sid did rwnd status : ℕ)
      → Counts c.refs answer_of
          (answer sends others others' memory malloc starts seen c gsid stp sid did rwnd status)
  unfolding answer send_create_stream_responce
  answer-Counts c gsid stp sid did rwnd status =
      bind-Counts c.refs sent_of answer_of _ _
        (send_locked-Counts c.refs others keeps sends others' _ (seen c) (sees c))
        (λ sent e.
          bind-Counts c.refs (λ (d : Channel). d) answer_of (settle (others' sent.0) stp status) _
            (subst (λ n. Counts n (λ (d : Channel). d) (settle (others' sent.0) stp status))
              (keeps' sent.0 ∙ e) (settle-Counts (others' sent.0) stp status))
            (λ d h. h))

  answer-from :
      (n : ℤ) (c : Channel) (gsid : ℕ) (stp : Option ℕ) (sid did rwnd status : ℕ)
      → c.refs ≡ n
      → Counts n answer_of
          (answer sends others others' memory malloc starts seen c gsid stp sid did rwnd status)
  answer-from n c gsid stp sid did rwnd status e =
      subst
        (λ m.
          Counts m answer_of
            (answer sends others others' memory malloc starts seen c gsid stp sid did rwnd status))
        e (answer-Counts c gsid stp sid did rwnd status)

  pub on_create_stream_request-Counts :
      (services : Option (List Service)) (c : Channel) (gsid : ℕ) (msg : Comsg)
      → Counts c.refs answer_of (
          on_create_stream_request sends others others' memory malloc starts seen services c gsid
            msg)
  unfolding on_create_stream_request
  on_create_stream_request-Counts services c gsid msg =
      pure-Counts c.refs answer_of (target services msg) _ by_target
    where
      by_stream :
          (c' : Channel) (gsid' : ℕ) (stp : Option ℕ) (which : ℕ)
          → c'.refs ≡ c.refs
          → Counts c.refs answer_of (elim stp [
            | none ↦
                answer sends others others' memory malloc starts seen c' gsid' none 0 msg.hdr.sid 0
                  (status_of which)
            | some p ↦
                let st = c'.heap p in
                if starts
                then answer sends others others' memory malloc starts seen c' gsid'
                    (some p)
                    st.sid
                    msg.hdr.sid
                    (srwnd (some st))
                    0
                else answer sends others others' memory malloc starts seen c' gsid'
                    (some p)
                    0
                    msg.hdr.sid
                    (srwnd (some st))
                    4
          ])
      by_stream c' gsid' none which e =
          answer-from c.refs c' gsid' none 0 msg.hdr.sid 0 (status_of which) e
      by_stream c' gsid' (some p) which e =
          if-Counts c.refs answer_of starts _ _
            (answer-from c.refs c' gsid' (some p) _ msg.hdr.sid _ 0 e)
            (answer-from c.refs c' gsid' (some p) 0 msg.hdr.sid _ 4 e)

      by_target :
          (t : Target)
          → Counts c.refs answer_of (elim t [
            | Target.refused status ↦
                answer sends others others' memory malloc starts seen c gsid none 0 msg.hdr.sid 0
                  status
            | Target.found service ↦
                add_stream memory malloc c gsid msg.hdr.sid
                  (load16 (byte msg.details 0) (byte msg.details 1))
                >>= (λ r.
                    let (c', gsid', stp, which) = r in
                    elim stp [
                      | none ↦
                          answer sends others others' memory malloc starts seen c' gsid' none 0
                            msg.hdr.sid 0
                            (status_of which)
                      | some p ↦
                          let st = c'.heap p in
                          if starts
                          then answer sends others others' memory malloc starts seen c' gsid'
                              (some p)
                              st.sid
                              msg.hdr.sid
                              (srwnd (some st))
                              0
                          else answer sends others others' memory malloc starts seen c' gsid'
                              (some p)
                              0
                              msg.hdr.sid
                              (srwnd (some st))
                              4
                    ])
          ])
      by_target (Target.refused status) = answer-from c.refs c gsid none 0 msg.hdr.sid 0 status refl
      by_target (Target.found service) =
          bind-Counts c.refs added_of answer_of
            (add_stream memory malloc c gsid msg.hdr.sid
              (load16 (byte msg.details 0) (byte msg.details 1)))
            _
            (add_stream-Counts memory malloc c gsid msg.hdr.sid
              (load16 (byte msg.details 0) (byte msg.details 1)))
            (λ r e. by_stream r.0 r.1 r.2 r.3 e)
