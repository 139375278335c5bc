-- ===== src/Tests/Threads.antt =====
-- The coroutine of a channel that has one stream, at the end of the connection.
use cuttle.Prelude.{ℕ, ◌≡◌, refl, [], ◌∷◌, none, some, true, false, map}
use cuttle.Corpc.Proto.{Comsg}
use cuttle.Corpc.Proto.Message.{encode, concat}
use cuttle.Corpc.Channel.{Channel, ChannelState}
use cuttle.Corpc.Channel.Lifetime.{addref_internal}
use cuttle.Corpc.Channel.Thread.{Turn, State, serve, corpc_channel_thread, start}
use cuttle.Corpc.Channel.Thread.Switch.{KeepsRefs}
use cuttle.Corpc.Channel.Thread.Serves.{Serves, serve-encode}
use cuttle.Corpc.Channel.Thread.Ends.{Leaves, corpc_channel_thread-Leaves}
use cuttle.Tests.Channels.{writer, malloc}
use cuttle.Tests.Wire.{whole, whole-AllThere, blank, request, credit, both-AllMessages}

abbrev alone : Channel → Channel
alone c = c

abbrev turn : Turn
turn = record {
  meanwhile = alone;
  numbers = λ n. n;
  sends = λ b. true;
  others = alone;
  others' = alone;
  memory = some 9;
  malloc = malloc;
  starts = true;
  seen = λ c. (c, true) ∷ [];
  fresh = some blank;
}

abbrev turns : ℕ → Turn
turns n = turn

turns-memory : (n : ℕ) → (b : Comsg) × ((turns n).fresh ≡ some b)
turns-memory n = (blank, refl)

abbrev begun : State
begun = record { channel = writer; gsid = 1; out = [] }

serve-encode_example :
    Serves none turns 0
      (request ∷ credit ∷ [])
      begun
      (serve whole none 3 turns 0 (concat (map encode (request ∷ credit ∷ []))) (some blank) begun)
serve-encode_example =
    serve-encode whole none turns turns-memory whole-AllThere (request ∷ credit ∷ []) 0 blank begun
      both-AllMessages

abbrev connecting : Channel
connecting = record writer { state = ChannelState.connecting }

turn-KeepsRefs : KeepsRefs turn
turn-KeepsRefs = record {
  meanwhile = λ c. refl;
  others = λ c. refl;
  others' = λ c. refl;
  seen = λ c. (refl, tt);
}

corpc_channel_thread-Leaves_example :
    Leaves whole none alone alone true none (some blank) turns connecting 1 (1 ∷ 2 ∷ 3 ∷ []) (
      corpc_channel_thread whole none alone alone alone true none
        (some blank)
        turns
        4
        connecting
        1
        (1 ∷ 2 ∷ 3 ∷ []))
corpc_channel_thread-Leaves_example =
    corpc_channel_thread-Leaves whole none alone alone alone true none (some blank) turns
      (λ d. refl) (λ d. refl) (λ d. refl) (λ n. turn-KeepsRefs) connecting 1 (1 ∷ 2 ∷ 3 ∷ [])

-- A server that turns the client away keeps the channel as it was, but for the reference.
refused_run :
    (start (record writer { state = ChannelState.accepting }) alone true (some false)).1 ≡ false
unfolding start addref_internal
refused_run = refl
