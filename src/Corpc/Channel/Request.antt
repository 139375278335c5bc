-- ===== src/Corpc/Channel/Request.antt =====
-- The handler of a request for a new stream: it looks the service and the method up, makes the
-- stream, starts the service's coroutine, answers, and then takes the stream up or down.
use cuttle.Prelude.{
  ℕ, ◌+◌, List, [], ◌∷◌, Option, none, some, Bool, true, false, ◌&&◌, leb, ◌==◌, if◌then◌else◌,
  ◌>>=◌, length, take, drop,
}
use cuttle.Prelude.Words.{load16}
use cuttle.Cc.Array.{erase_item}
use cuttle.Corpc.Proto.{Comsg, byte}
use cuttle.Corpc.Channel.{Channel, StreamState, set_stream_state, srwnd}
use cuttle.Corpc.Channel.Streams.{add_stream}
use cuttle.Corpc.Channel.Transfer.{send_create_stream_responce}

-- `corpc_service`, with the names of its methods.
pub record Service : Type 0 where
  pub name : List ℕ
  pub methods : List (List ℕ)

-- The C string that a buffer with a final 0 holds.
unfoldable pub text : List ℕ → List ℕ
text [] = []
text (x ∷ xs) = let rest = text xs in if x == 0 then [] else x ∷ rest

-- `strcmp(a, b) == 0`
unfoldable pub same_text : List ℕ → List ℕ → Bool
same_text [] [] = true
same_text [] (y ∷ ys) = false
same_text (x ∷ xs) [] = false
same_text (x ∷ xs) (y ∷ ys) = x == y && same_text xs ys

unfoldable pub find_service : List Service → List ℕ → Option Service
unfolding same_text
find_service [] name = none
find_service (s ∷ ss) name =
    let rest = find_service ss name in if same_text name s.name then some s else rest

unfoldable pub find_method : List (List ℕ) → List ℕ → Bool
unfolding same_text
find_method [] name = false
find_method (m ∷ ms) name =
    let rest = find_method ms name in if same_text name m then true else rest

-- The status that ends the handler early, or the service asked for.
pub data Target : Type 0 where
  refused : ℕ → Target
  found : Service → Target

-- `none`: the names run past the memory of the message. Their lengths are not held against
-- `pldsize`.
unfoldable pub target : Option (List Service) → Comsg → Option Target
unfolding text find_service find_method
target none msg = some (Target.refused 2)
target (some services) msg =
    let service_name_length = load16 (byte msg.details 2) (byte msg.details 3) in
    let method_name_length = load16 (byte msg.details 4) (byte msg.details 5) in
    let pack = drop 6 msg.details in
    let service_name = text (take service_name_length pack) in
    let method_name = text (take method_name_length (drop service_name_length pack)) in
    if leb (service_name_length + method_name_length) (length pack)
    then some (elim (find_service services service_name) [
      | none ↦ Target.refused 2
      | some service ↦
          if find_method service.methods method_name then Target.found service else Target.refused 3
    ])
    else none

-- The status for what `accept_stream` could not do.
abbrev pub status_of : ℕ → ℕ
status_of which = if which == 1 then 1 else 4

-- The last step: an accepted stream is established, or goes again.
unfoldable pub settle : Channel → Option ℕ → ℕ → Option Channel
settle c none status = some c
settle c (some p) status =
    if status == 0
    then set_stream_state c (some p) StreamState.established
    else erase_item (λ q. q == p) c.streams >>= (λ r. some (record c { streams = r.0 }))

-- `memory` and `malloc` are for the new stream, `starts` says whether its coroutine could be
-- started, `seen` is what the sender of the answer sees from the channel, and `others` and
-- `others'` what other coroutines do while it sends and before the last step.
module _ (sends : List ℕ → Bool) (others others' : Channel → Channel) (memory : Option ℕ)
    (malloc : ℕ → Option (List Comsg)) (starts : Bool)
    (seen : Channel → List (Channel × Bool)) where
  -- From `end:` on. The result is the channel, `gsid`, and the buffers that went out.
  unfoldable pub answer :
      Channel → ℕ → Option ℕ → ℕ → ℕ → ℕ → ℕ → Option (Channel × ℕ × List (List ℕ))
  unfolding settle
  answer c gsid stp sid did rwnd status =
      send_create_stream_responce sends others others' sid did rwnd status (seen c)
      >>= (λ sent. settle (others' sent.0) stp status >>= (λ c'. some (c', gsid, sent.1)))

  unfoldable pub on_create_stream_request :
      Option (List Service) → Channel → ℕ → Comsg → Option (Channel × ℕ × List (List ℕ))
  unfolding target answer
  on_create_stream_request services c gsid msg =
      let did = msg.hdr.sid in
      let rwnd = load16 (byte msg.details 0) (byte msg.details 1) in
      target services msg >>= (λ t. elim t [
        | Target.refused status ↦ answer c gsid none 0 did 0 status
        | Target.found service ↦ add_stream memory malloc c gsid did rwnd >>= (λ r.
            let (c', gsid', stp, which) = r in
            elim stp [
              | none ↦ answer c' gsid' none 0 did 0 (status_of which)
              | some p ↦
                  let st = c'.heap p in
                  if starts
                  then answer c' gsid' (some p) st.sid did (srwnd (some st)) 0
                  else answer c' gsid' (some p) 0 did (srwnd (some st)) 4
            ])
      ])
