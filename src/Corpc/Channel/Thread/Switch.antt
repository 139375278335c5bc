-- ===== src/Corpc/Channel/Thread/Switch.antt =====
-- The handling of a message leaves the reference count of the channel alone, where the others do.
use cuttle.Prelude.{ℕ, ◌≡◌, refl, ◌∙◌, subst, Option, none, some, List, Bool, ◌==◌}
use cuttle.Prelude.Int.{ℤ}
use cuttle.Corpc.Proto.{
  Comsg, create_stream_req, create_stream_resp, close_stream_req, data_msg, data_ack,
}
use cuttle.Corpc.Channel.{Channel}
use cuttle.Corpc.Channel.Receive.{
  on_create_stream_responce, on_close_stream_notify, on_data_message, on_data_ack,
}
use cuttle.Corpc.Channel.Request.{Service, on_create_stream_request}
use cuttle.Corpc.Channel.Thread.{Turn, Handled, State, plain, dispatch, handle}
use cuttle.Corpc.Channel.Thread.Refs.{
  Counts, bind-Counts, if-Counts, channel_of, taken_of, on_create_stream_responce-Counts,
  on_close_stream_notify-Counts, on_data_message-Counts, on_data_ack-Counts,
}
use cuttle.Corpc.Channel.Thread.Requests.{AllCount, answer_of, on_create_stream_request-Counts}

-- The others leave the count alone: they neither take the channel nor let it go.
pub record KeepsRefs (t : Turn) : Type 0 where
  pub meanwhile : (c : Channel) → (t.meanwhile c).refs ≡ c.refs
  pub others : (c : Channel) → (t.others c).refs ≡ c.refs
  pub others' : (c : Channel) → (t.others' c).refs ≡ c.refs
  pub seen : (c : Channel) → AllCount c.refs (t.seen c)

abbrev pub handled_of : Handled → Channel
handled_of h = h.channel

plain-Counts :
    (n : ℤ) (gsid : ℕ) (r : Option (Channel × Bool))
    → Counts n channel_of r
    → Counts n handled_of (plain gsid r)
plain-Counts n gsid none h = tt
plain-Counts n gsid (some r) h = h

module _ (services : Option (List Service)) (t : Turn) (keeps : KeepsRefs t) where
  dispatch-Counts :
      (c : Channel) (gsid : ℕ) (msg : Comsg)
      → Counts c.refs handled_of (dispatch services t c gsid msg)
  unfolding dispatch
  dispatch-Counts c gsid msg =
      let code : ℕ = msg.hdr.code in
      if-Counts c.refs handled_of (code == create_stream_req) _ _
        (bind-Counts c.refs answer_of handled_of
          (on_create_stream_request t.sends t.others t.others' t.memory t.malloc t.starts t.seen
            services c gsid msg)
          _
          (on_create_stream_request-Counts t.sends t.others t.others' t.memory t.malloc t.starts
            t.seen keeps.others keeps.others' keeps.seen services c gsid msg)
          (λ r h. h))
        (if-Counts c.refs handled_of (code == create_stream_resp) _ _
          (plain-Counts c.refs gsid (on_create_stream_responce c msg)
            (on_create_stream_responce-Counts c msg))
          (if-Counts c.refs handled_of (code == close_stream_req) _ _
            (plain-Counts c.refs gsid (on_close_stream_notify c msg)
              (on_close_stream_notify-Counts c msg))
            (if-Counts c.refs handled_of (code == data_msg) _ _
              (bind-Counts c.refs taken_of handled_of (on_data_message c msg) _
                (on_data_message-Counts c msg) (λ r h. h))
              (if-Counts c.refs handled_of (code == data_ack) _ _
                (plain-Counts c.refs gsid (on_data_ack c msg) (on_data_ack-Counts c msg)) refl))))

  -- A message that is handled leaves the count as it was.
  pub handle-refs :
      (s : State) (msg : Comsg) (h : Handled)
      → handle services t s msg ≡ some h
      → h.channel.refs ≡ s.channel.refs
  handle-refs s msg h run =
      subst (Counts (t.meanwhile s.channel).refs handled_of) run
        (dispatch-Counts (t.meanwhile s.channel) (t.numbers s.gsid) msg)
      ∙ keeps.meanwhile s.channel
