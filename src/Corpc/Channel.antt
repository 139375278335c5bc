-- ===== src/Corpc/Channel.antt =====
-- src/corpc/corpc-channel.c: the state of a channel and its streams, the write lock, and the look-up
-- of a stream. A stream is named by its address, and `heap` is the memory of all streams. What
-- happens under the global lock is one step of a function here.
pub mod Streams
pub mod Receive
pub mod Transfer
pub mod Flow
pub mod Heap
pub mod States
pub mod Naming
pub mod Lock
pub mod Answers
pub mod Table
pub mod Reading
pub mod Accepting
pub mod Opening
pub mod Lifetime
pub mod Lookup
pub mod Request
pub mod Thread
use cuttle.Prelude.{
  ℕ, zero, suc, ◌+◌, ◌%◌, ◌^◌, List, [], ◌∷◌, Option, none, some, Bool, true, false, not, ◌&&◌,
  ◌||◌, ltb, ◌==◌, if◌then◌else◌, ◌>>=◌,
}
use cuttle.Prelude.Int.{ℤ}
use cuttle.Prelude.Words.{u16}
use cuttle.Cc.Memory.{load, sub_size}
use cuttle.Cc.Fifo.{Fifo}
use cuttle.Cc.Array.{Array}
use cuttle.Corpc.Proto.{Comsg}

pub data ChannelState : Type 0 where
  idle : ChannelState
  resolving : ChannelState
  connecting : ChannelState
  accepting : ChannelState
  established : ChannelState
  disconnecting : ChannelState
  closed : ChannelState

pub data StreamState : Type 0 where
  created : StreamState
  opening : StreamState
  too_many_streams : StreamState
  no_such_service : StreamState
  no_such_method : StreamState
  local_internal_error : StreamState
  remote_internal_error : StreamState
  protocol_error : StreamState
  established : StreamState
  closed : StreamState
  closed_by_remote_party : StreamState

-- `rxq` holds pointers to messages, each of which it owns: here it holds the messages.
pub record Stream : Type 0 where
  pub rxq : Fifo Comsg
  pub state : StreamState
  pub sid : ℕ
  pub did : ℕ
  pub rwnd : ℕ

-- `signals` counts the broadcasts of `channel_state_signal`.
pub record Channel : Type 0 where
  pub state : ChannelState
  pub refs : ℤ
  pub write_lock : Bool
  pub streams : Array ℕ
  pub heap : ℕ → Stream
  pub signals : ℕ

abbrev pub channel_established : Channel → Bool
channel_established c = elim c.state [ ChannelState.established ↦ true | _ ↦ false ]

abbrev pub stream_established : Stream → Bool
stream_established st = elim st.state [ StreamState.established ↦ true | _ ↦ false ]

abbrev pub stream_opening : Stream → Bool
stream_opening st = elim st.state [ StreamState.opening ↦ true | _ ↦ false ]

abbrev pub signal : Channel → Channel
signal c = record c { signals = suc c.signals }

unfoldable pub put : (ℕ → Stream) → ℕ → Stream → ℕ → Stream
put heap p st q = if q == p then st else heap q

-- The callback of the client, which the source calls then, is not part of the state.
abbrev pub set_channel_state : Channel → ChannelState → Channel
set_channel_state c state = signal (record c { state = state })

-- Through a null pointer there is no result.
unfoldable pub set_stream_state : Channel → Option ℕ → StreamState → Option Channel
unfolding put
set_stream_state c none state = none
set_stream_state c (some p) state =
    some (signal (record c { heap = put c.heap p (record (c.heap p) { state = state }) }))

-- One round of the loop of `acquire_write_lock`, and the ways it can go. `stp` is the stream that
-- wants to send data, if any, and `expired` says whether the time is up.
pub data Round : Type 0 where
  refused : Round
  taken : Round
  timed_out : Round
  waits : Round

-- `st && st->state != corpc_stream_established`
abbrev pub unready : Channel → Option ℕ → Bool
unready c none = false
unready c (some p) = not (stream_established (c.heap p))

-- `!st || st->rwnd > 0`
abbrev pub has_window : Channel → Option ℕ → Bool
has_window c none = true
has_window c (some p) = ltb 0 (c.heap p).rwnd

unfoldable pub acquire_round : Channel → Option ℕ → Bool → Round × Channel
acquire_round c stp expired =
    if not (channel_established c) || unready c stp
    then (Round.refused, c)
    else if not c.write_lock && has_window c stp
    then (Round.taken, record c { write_lock = true })
    else if expired
    then (Round.timed_out, c)
    else (Round.waits, c)

-- The loop: `seen` is how the thread finds the channel, and whether time is up, each time it runs.
-- The flag is `wlock->locked`; there is no result while the thread waits.
unfoldable pub acquire_write_lock : List (Channel × Bool) → Option ℕ → Option (Bool × Channel)
unfolding acquire_round
acquire_write_lock [] stp = none
acquire_write_lock ((c, expired) ∷ seen) stp =
    let later = acquire_write_lock seen stp in
    let (round, c') = acquire_round c stp expired in
    elim round [ Round.taken ↦ some (true, c') | Round.waits ↦ later | _ ↦ some (false, c') ]

unfoldable pub release_write_lock : Channel → Bool → Channel
release_write_lock c locked = if locked then signal (record c { write_lock = false }) else c

-- `srwnd`
abbrev pub srwnd : Option Stream → ℕ
srwnd none = 0
srwnd (some st) = u16 (sub_size st.rxq.capacity st.rxq.size)

-- The loop of `find_stream_by_sid`, with `left` rounds to the end. An inner `none` is the null
-- pointer.
unfoldable pub find_from : Channel → ℕ → ℕ → ℕ → Option (Option ℕ)
find_from c sid zero i = some none
find_from c sid (suc left) i =
    let rest = find_from c sid left (i + 1) in
    load c.streams.items i >>= (λ p. if (c.heap p).sid == sid then some (some p) else rest)

unfoldable pub find_stream_by_sid : Channel → ℕ → Option (Option ℕ)
unfolding find_from
find_stream_by_sid c sid = find_from c sid c.streams.size 0
