-- ===== src/Corpc/Channel/Opening.antt =====
-- The opening of a stream by its client: `corpc_open_stream`.
pub mod Result
use cuttle.Prelude.{
  ℕ, ◌≡◌, refl, sym, ap, ◌∙◌, List, [], ◌∷◌, Option, none, some, Bool, true, false, ◌&&◌, not, ◌==◌,
  if◌then◌else◌, ◌>>=◌,
}
use cuttle.Cc.Array.{erase_item}
use cuttle.Corpc.Proto.{Comsg}
use cuttle.Corpc.Channel.{Channel, channel_established, stream_established, stream_opening}
use cuttle.Corpc.Channel.Streams.{create_new_stream}
use cuttle.Corpc.Channel.Transfer.{Sent, send_create_stream_request}

-- The stream goes out of the table. Its memory is not used again here.
unfoldable pub give_up : Channel → ℕ → Option Channel
give_up c p = erase_item (λ q. q == p) c.streams >>= (λ r. some (record c { streams = r.0 }))

-- The wait for the answer, on the states in which the client finds the channel. `none`: it waits.
unfoldable pub wait_answer : List Channel → ℕ → Option Channel
wait_answer [] p = none
wait_answer (c ∷ finds) p =
    let later = wait_answer finds p in
    if channel_established c && stream_opening (c.heap p) then later else some c

-- The channel, `gsid`, the buffers that went out, and the stream, null where it fails.
abbrev pub Opened : Type 0
Opened = Channel × ℕ × List (List ℕ) × Option ℕ

-- What comes after the wait.
unfoldable pub conclude : Channel → ℕ → List (List ℕ) → ℕ → Option Opened
unfolding give_up
conclude c gsid out p =
    if stream_established (c.heap p)
    then some (c, gsid, out, some p)
    else give_up c p >>= (λ c'. some (c', gsid, out, none))

-- What comes after the request is sent: `finds` is how the client finds the channel that the sender
-- leaves, each time it looks for the answer.
unfoldable pub await : (Channel → List Channel) → Sent → ℕ → ℕ → Option Opened
unfolding wait_answer conclude give_up
await finds (c, out, false) gsid p = give_up c p >>= (λ c'. some (c', gsid, out, none))
await finds (c, out, true) gsid p = wait_answer (finds c) p >>= (λ d. conclude d gsid out p)

module _ (sends : List ℕ → Bool) (others others' : Channel → Channel) (memory : Option ℕ)
    (malloc : ℕ → Option (List Comsg)) (seen : Channel → List (Channel × Bool))
    (finds : Channel → List Channel) where
  -- What comes after the stream is made.
  unfoldable pub ask : List ℕ → List ℕ → Channel × ℕ × Option ℕ → Option Opened
  unfolding await
  ask service method (c, gsid, none) = some (c, gsid, [], none)
  ask service method (c, gsid, some p) =
      send_create_stream_request sends others others' p service method (seen c)
      >>= (λ sent. await finds sent gsid p)

  unfoldable pub open_stream : Channel → ℕ → List ℕ → List ℕ → Option Opened
  unfolding ask
  open_stream c gsid service method =
      if not (channel_established c)
      then some (c, gsid, [], none)
      else create_new_stream memory malloc c gsid >>= ask service method
