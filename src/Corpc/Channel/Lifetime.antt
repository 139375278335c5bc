-- ===== src/Corpc/Channel/Lifetime.antt =====
-- The reference counts of a channel, and the closing of channels and streams. A flag in a result
-- says whether the channel has been destroyed. The closing of the socket is the socket's.
pub mod Counted
use cuttle.Prelude.{
  ℕ, suc, ◌≡◌, List, Option, none, some, Bool, true, false, ◌&&◌, ltb, ◌==◌, ◌>>=◌,
}
use cuttle.Prelude.Int.{inc, dec, below_one}
use cuttle.Cc.Array.{erase_item}
use cuttle.Corpc.Channel.{Channel, ChannelState, set_channel_state}
use cuttle.Corpc.Channel.Transfer.{send_close_stream_notify}

unfoldable pub addref_internal : Channel → Channel
addref_internal c = record c { refs = inc c.refs }

unfoldable pub release_internal : Channel → Channel × Bool
release_internal c =
    let refs = dec c.refs in (record c { refs = refs }, below_one refs && ltb c.streams.size 1)

unfoldable pub close_internal : Channel → Channel × Bool
unfolding release_internal
close_internal c = release_internal (set_channel_state c ChannelState.closed)

-- The step of `corpc_close_stream` under the lock.
unfoldable pub leave : Channel → ℕ → Option (Channel × Bool)
leave c p = erase_item (λ q. q == p) c.streams >>= (λ r.
    let c' = record c { streams = r.0 } in some (c', ltb c'.streams.size 1 && below_one c'.refs))

-- `corpc_close_stream`; the result of the sender is not used.
unfoldable pub close_stream :
    (List ℕ → Bool)
    → (Channel → Channel)
    → (Channel → Channel)
    → List (Channel × Bool)
    → ℕ
    → Option (Channel × List (List ℕ) × Bool)
unfolding leave
close_stream sends others others' seen p =
    send_close_stream_notify sends others others' p seen
    >>= (λ sent. leave (others' sent.0) p >>= (λ r. some (r.0, sent.1, r.1)))

-- A channel, the number of those who hold it, and whether it has been destroyed.
pub record Life : Type 0 where
  pub channel : Channel
  pub holders : ℕ
  pub destroyed : Bool

-- What happens to a channel that is alive. A stream comes into the table, or goes out of it.
pub data Step (l : Life) : Life → Type 0 where
  takes :
      l.destroyed ≡ false
      → Step l (record l { channel = addref_internal l.channel; holders = suc l.holders })
  drops :
      (n : ℕ) (c : Channel) (gone : Bool)
      → l.destroyed ≡ false
      → l.holders ≡ suc n
      → release_internal l.channel ≡ (c, gone)
      → Step l (record { channel = c; holders = n; destroyed = gone })
  closes :
      (n : ℕ) (c : Channel) (gone : Bool)
      → l.destroyed ≡ false
      → l.holders ≡ suc n
      → close_internal l.channel ≡ (c, gone)
      → Step l (record { channel = c; holders = n; destroyed = gone })
  leaves :
      (p : ℕ) (c : Channel) (gone : Bool)
      → l.destroyed ≡ false
      → leave l.channel p ≡ some (c, gone)
      → Step l (record l { channel = c; destroyed = gone })
  moves :
      (c : Channel)
      → l.destroyed ≡ false
      → c.refs ≡ l.channel.refs
      → Step l (record l { channel = c })

pub data Reach (l : Life) : Life → Type 0 where
  here : Reach l l
  next : {m n : Life} → Reach l m → Step m n → Reach l n
