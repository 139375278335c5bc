-- ===== src/Corpc/Channel/Thread/Refs.antt =====
-- The handlers of messages leave the reference count of a channel alone, where the others do.
use cuttle.Prelude.{ℕ, ◌≡◌, refl, Option, none, some, Bool, true, false, not, if◌then◌else◌, ◌>>=◌}
use cuttle.Prelude.Int.{ℤ}
use cuttle.Cc.Fifo
use cuttle.Corpc.Proto.{Comsg}
use cuttle.Corpc.Channel.{
  Channel, StreamState, set_stream_state, find_stream_by_sid, stream_opening,
}
use cuttle.Corpc.Channel.Receive.{
  answered, on_create_stream_responce, on_close_stream_notify, data_for, on_data_message,
  credit_for, on_data_ack,
}

-- Every result has the reference count `n` in its channel.
abbrev pub Counts : {R : Type 0} → ℤ → (R → Channel) → Option R → Type 0
Counts n of none = Unit
Counts n of (some r) = (of r).refs ≡ n

pub bind-Counts :
    {R : Type 0} {S : Type 0} (n : ℤ) (of : R → Channel) (of' : S → Channel) (o : Option R)
    (f : R → Option S)
    → Counts n of o
    → ((r : R) → (of r).refs ≡ n → Counts n of' (f r))
    → Counts n of' (o >>= f)
bind-Counts n of of' none f h next = tt
bind-Counts n of of' (some r) f h next = next r h

-- What is computed first does not touch the channel.
pub pure-Counts :
    {R : Type 0} {S : Type 0} (n : ℤ) (of : S → Channel) (o : Option R) (f : R → Option S)
    → ((r : R) → Counts n of (f r))
    → Counts n of (o >>= f)
pure-Counts n of none f next = tt
pure-Counts n of (some r) f next = next r

pub if-Counts :
    {R : Type 0} (n : ℤ) (of : R → Channel) (b : Bool) (x y : Option R)
    → Counts n of x
    → Counts n of y
    → Counts n of (if b then x else y)
if-Counts n of true x y h k = h
if-Counts n of false x y h k = k

abbrev pub channel_of : {A : Type 0} → Channel × A → Channel
channel_of r = r.0

pub set_stream_state-Counts :
    (c : Channel) (p : Option ℕ) (state : StreamState)
    → Counts c.refs (λ (d : Channel). d) (set_stream_state c p state)
unfolding set_stream_state
set_stream_state-Counts c none state = tt
set_stream_state-Counts c (some p) state = refl

pub on_data_ack-Counts : (c : Channel) (msg : Comsg) → Counts c.refs channel_of (on_data_ack c msg)
unfolding on_data_ack credit_for
on_data_ack-Counts c msg =
    pure-Counts c.refs channel_of (find_stream_by_sid c msg.hdr.did) _ by_stream
  where
    by_stream :
        (p : Option ℕ)
        → Counts c.refs channel_of
            (elim p [ none ↦ some (c, true) | some p ↦ some (credit_for c p, true) ])
    by_stream none = refl
    by_stream (some p) = refl

pub on_close_stream_notify-Counts :
    (c : Channel) (msg : Comsg) → Counts c.refs channel_of (on_close_stream_notify c msg)
unfolding on_close_stream_notify
on_close_stream_notify-Counts c msg =
    pure-Counts c.refs channel_of (find_stream_by_sid c msg.hdr.did) _ by_stream
  where
    by_stream :
        (p : Option ℕ)
        → Counts c.refs channel_of (elim p [
          | none ↦ some (c, true)
          | some p ↦
              set_stream_state c (some p) StreamState.closed_by_remote_party
              >>= (λ c'. some (c', true))
        ])
    by_stream none = refl
    by_stream (some p) =
        bind-Counts c.refs (λ (d : Channel). d) channel_of
          (set_stream_state c (some p) StreamState.closed_by_remote_party) _
          (set_stream_state-Counts c (some p) StreamState.closed_by_remote_party) (λ d h. h)

abbrev pub taken_of : Channel × Bool × Bool → Channel
taken_of r = r.0

data_for-Counts : (c : Channel) (p : ℕ) (msg : Comsg) → Counts c.refs taken_of (data_for c p msg)
unfolding data_for
data_for-Counts c p msg =
    if-Counts c.refs taken_of (Fifo.is_full (c.heap p).rxq) _ _
      (bind-Counts c.refs (λ (d : Channel). d) taken_of
        (set_stream_state c (some p) StreamState.protocol_error) _
        (set_stream_state-Counts c (some p) StreamState.protocol_error) (λ d h. h))
      (pure-Counts c.refs taken_of (Fifo.push (c.heap p).rxq msg) _ (λ r. refl))

pub on_data_message-Counts :
    (c : Channel) (msg : Comsg) → Counts c.refs taken_of (on_data_message c msg)
unfolding on_data_message
on_data_message-Counts c msg =
    pure-Counts c.refs taken_of (find_stream_by_sid c msg.hdr.did) _ by_stream
  where
    by_stream :
        (p : Option ℕ)
        → Counts c.refs taken_of (elim p [
          | none ↦
              set_stream_state c none StreamState.protocol_error >>= (λ c'. some (c', false, false))
          | some p ↦ data_for c p msg
        ])
    by_stream none =
        bind-Counts c.refs (λ (d : Channel). d) taken_of
          (set_stream_state c none StreamState.protocol_error) _
          (set_stream_state-Counts c none StreamState.protocol_error) (λ d h. h)
    by_stream (some p) = data_for-Counts c p msg

answered-Counts : (c : Channel) (p : ℕ) (msg : Comsg) → Counts c.refs channel_of (answered c p msg)
unfolding answered set_stream_state
answered-Counts c p msg = refl

pub on_create_stream_responce-Counts :
    (c : Channel) (msg : Comsg) → Counts c.refs channel_of (on_create_stream_responce c msg)
unfolding on_create_stream_responce
on_create_stream_responce-Counts c msg =
    pure-Counts c.refs channel_of (find_stream_by_sid c msg.hdr.did) _ by_stream
  where
    by_stream :
        (p : Option ℕ)
        → Counts c.refs channel_of (elim p [
          | none ↦ some (c, false)
          | some p ↦ if not (stream_opening (c.heap p)) then some (c, true) else answered c p msg
        ])
    by_stream none = refl
    by_stream (some p) =
        if-Counts c.refs channel_of (not (stream_opening (c.heap p))) _ _ refl
          (answered-Counts c p msg)
