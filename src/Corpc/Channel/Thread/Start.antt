-- ===== src/Corpc/Channel/Thread/Start.antt =====
-- How the coroutine of a channel starts: with a reference more, and for the messages or not.
use cuttle.Prelude.{
  ◌≡◌, ◌≢◌, ◌⊎◌, refl, ◌∙◌, Option, none, some, Bool, true, false, inl, inr, if◌then◌else◌, ◌&&◌,
  some_eq,
}
use cuttle.Prelude.Int.{ℤ, inc}
use cuttle.Corpc.Channel.{Channel, ChannelState, set_channel_state}
use cuttle.Corpc.Channel.Lifetime.{addref_internal}
use cuttle.Corpc.Channel.Thread.{start}

-- Whether the coroutine goes on to the messages, and the state of its channel then: only a channel
-- that is being accepted is turned away, where the handshake fails or the server does not want it;
-- it is established otherwise, as one that connects is.
pub data Begins (state : ChannelState) (handshake : Bool) (onaccept : Option Bool)
    (begun : ChannelState) : Bool → Type 0 where
  away :
      state ≡ ChannelState.accepting
      → (handshake ≡ false) ⊎ (onaccept ≡ some false)
      → Begins state handshake onaccept begun false
  welcome :
      state ≡ ChannelState.accepting
      → handshake ≡ true
      → onaccept ≢ some false
      → begun ≡ ChannelState.established
      → Begins state handshake onaccept begun true
  connected :
      state ≡ ChannelState.connecting
      → begun ≡ ChannelState.established
      → Begins state handshake onaccept begun true
  as_it_was :
      state ≢ ChannelState.accepting
      → state ≢ ChannelState.connecting
      → begun ≡ state
      → Begins state handshake onaccept begun true

welcomes :
    (handshake : Bool) (onaccept : Option Bool) (begun : ChannelState)
    → let answer : Bool = handshake && elim onaccept [ none ↦ true | some answer ↦ answer ] in
      (answer ≡ true → begun ≡ ChannelState.established)
      → Begins ChannelState.accepting handshake onaccept begun answer
welcomes false onaccept begun h = Begins.away refl (inl refl)
welcomes true none begun h = Begins.welcome refl refl (λ e. cc) (h refl)
welcomes true (some false) begun h = Begins.away refl (inr refl)
welcomes true (some true) begun h =
    Begins.welcome refl refl (λ e. let no_so : true ≡ false = some_eq e in cc) (h refl)

module _ (others : Channel → Channel) (handshake : Bool) (onaccept : Option Bool)
    (keeps : (d : Channel) → (others d).refs ≡ d.refs) where
  started :
      (c : Channel) (state : ChannelState) (k : ℤ)
      → c.refs ≡ k
      → c.state ≡ state
      → let r : Channel × Bool = elim state [
        | ChannelState.connecting ↦ (set_channel_state c ChannelState.established, true)
        | ChannelState.accepting ↦
            if handshake && elim onaccept [ none ↦ true | some answer ↦ answer ]
            then (set_channel_state (others c) ChannelState.established, true)
            else (others c, false)
        | _ ↦ (c, true)
      ] in
        (r.0.refs ≡ k) × Begins state handshake onaccept r.0.state r.1
  started c ChannelState.idle k e s = (e, Begins.as_it_was (λ x. cc) (λ x. cc) s)
  started c ChannelState.resolving k e s = (e, Begins.as_it_was (λ x. cc) (λ x. cc) s)
  started c ChannelState.connecting k e s = (e, Begins.connected refl refl)
  started c ChannelState.accepting k e s =
      by_answer (handshake && elim onaccept [ none ↦ true | some answer ↦ answer ])
        (welcomes handshake onaccept)
    where
      by_answer :
          (b : Bool)
          → ((begun : ChannelState)
              → (b ≡ true → begun ≡ ChannelState.established)
              → Begins ChannelState.accepting handshake onaccept begun b)
          → let r : Channel × Bool =
              if b
              then (set_channel_state (others c) ChannelState.established, true)
              else (others c, false) in
            (r.0.refs ≡ k) × Begins ChannelState.accepting handshake onaccept r.0.state r.1
      by_answer true h = (keeps c ∙ e, h ChannelState.established (λ x. refl))
      by_answer false h = (keeps c ∙ e, h (others c).state (λ x. cc))
  started c ChannelState.established k e s = (e, Begins.as_it_was (λ x. cc) (λ x. cc) s)
  started c ChannelState.disconnecting k e s = (e, Begins.as_it_was (λ x. cc) (λ x. cc) s)
  started c ChannelState.closed k e s = (e, Begins.as_it_was (λ x. cc) (λ x. cc) s)

  pub start_lem :
      (c : Channel)
      → let r : Channel × Bool = start c others handshake onaccept in
        (r.0.refs ≡ inc c.refs) × Begins c.state handshake onaccept r.0.state r.1
  unfolding start addref_internal
  start_lem c = started (addref_internal c) c.state (inc c.refs) refl refl
