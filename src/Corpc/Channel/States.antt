-- ===== src/Corpc/Channel/States.antt =====
-- The tests of the states of channels and streams, against the states.
use cuttle.Prelude.{◌≡◌, ◌≢◌, ◌⊎◌, refl, true, false, inl, inr}
use cuttle.Corpc.Channel.{
  Channel, ChannelState, Stream, StreamState, channel_established, stream_established,
  stream_opening,
}

connected_at :
    (s : ChannelState)
    → ((s ≡ ChannelState.established)
        × (elim s [ ChannelState.established ↦ true | _ ↦ false ] ≡ true))
      ⊎ ((s ≢ ChannelState.established)
          × (elim s [ ChannelState.established ↦ true | _ ↦ false ] ≡ false))
connected_at ChannelState.idle = inr ((λ e. cc), refl)
connected_at ChannelState.resolving = inr ((λ e. cc), refl)
connected_at ChannelState.connecting = inr ((λ e. cc), refl)
connected_at ChannelState.accepting = inr ((λ e. cc), refl)
connected_at ChannelState.established = inl (refl, refl)
connected_at ChannelState.disconnecting = inr ((λ e. cc), refl)
connected_at ChannelState.closed = inr ((λ e. cc), refl)

pub connected_cases :
    (c : Channel)
    → ((c.state ≡ ChannelState.established) × (channel_established c ≡ true))
      ⊎ ((c.state ≢ ChannelState.established) × (channel_established c ≡ false))
connected_cases c = connected_at c.state

established_at :
    (s : StreamState)
    → ((s ≡ StreamState.established)
        × (elim s [ StreamState.established ↦ true | _ ↦ false ] ≡ true))
      ⊎ ((s ≢ StreamState.established)
          × (elim s [ StreamState.established ↦ true | _ ↦ false ] ≡ false))
established_at StreamState.created = inr ((λ e. cc), refl)
established_at StreamState.opening = inr ((λ e. cc), refl)
established_at StreamState.too_many_streams = inr ((λ e. cc), refl)
established_at StreamState.no_such_service = inr ((λ e. cc), refl)
established_at StreamState.no_such_method = inr ((λ e. cc), refl)
established_at StreamState.local_internal_error = inr ((λ e. cc), refl)
established_at StreamState.remote_internal_error = inr ((λ e. cc), refl)
established_at StreamState.protocol_error = inr ((λ e. cc), refl)
established_at StreamState.established = inl (refl, refl)
established_at StreamState.closed = inr ((λ e. cc), refl)
established_at StreamState.closed_by_remote_party = inr ((λ e. cc), refl)

pub established_cases :
    (st : Stream)
    → ((st.state ≡ StreamState.established) × (stream_established st ≡ true))
      ⊎ ((st.state ≢ StreamState.established) × (stream_established st ≡ false))
established_cases st = established_at st.state

opening_at :
    (s : StreamState)
    → ((s ≡ StreamState.opening) × (elim s [ StreamState.opening ↦ true | _ ↦ false ] ≡ true))
      ⊎ ((s ≢ StreamState.opening) × (elim s [ StreamState.opening ↦ true | _ ↦ false ] ≡ false))
opening_at StreamState.created = inr ((λ e. cc), refl)
opening_at StreamState.opening = inl (refl, refl)
opening_at StreamState.too_many_streams = inr ((λ e. cc), refl)
opening_at StreamState.no_such_service = inr ((λ e. cc), refl)
opening_at StreamState.no_such_method = inr ((λ e. cc), refl)
opening_at StreamState.local_internal_error = inr ((λ e. cc), refl)
opening_at StreamState.remote_internal_error = inr ((λ e. cc), refl)
opening_at StreamState.protocol_error = inr ((λ e. cc), refl)
opening_at StreamState.established = inr ((λ e. cc), refl)
opening_at StreamState.closed = inr ((λ e. cc), refl)
opening_at StreamState.closed_by_remote_party = inr ((λ e. cc), refl)

pub opening_cases :
    (st : Stream)
    → ((st.state ≡ StreamState.opening) × (stream_opening st ≡ true))
      ⊎ ((st.state ≢ StreamState.opening) × (stream_opening st ≡ false))
opening_cases st = opening_at st.state
