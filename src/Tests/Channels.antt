-- ===== src/Tests/Channels.antt =====
-- A stream between two channels, src/corpc/corpc-channel.c.
use cuttle.Prelude.{
  ℕ, ◌≡◌, refl, List, [], ◌∷◌, Option, none, some, Bool, true, false, arith, inl, ◌==◌,
  if◌then◌else◌,
}
use cuttle.Prelude.Int.{ℤ}
use cuttle.Cc.Fifo.{Fifo}
use cuttle.Cc.Fifo.Repr.{Repr}
use cuttle.Cc.Array.{Array}
use cuttle.Cc.Array.Model.{IsValid}
use cuttle.Corpc.Proto.{Hdr, Comsg}
use cuttle.Corpc.Channel.{
  Channel, ChannelState, StreamState, acquire_round, find_from, find_stream_by_sid,
}
use cuttle.Corpc.Channel.Receive.{on_data_message, on_create_stream_responce}
use cuttle.Corpc.Channel.Lookup.{lookup, find_stream_by_sid_lem}
use cuttle.Corpc.Channel.Answers.{Responds, on_create_stream_responce_lem}
use cuttle.Corpc.Channel.Flow.{Phase, Link, Step, Reach, IsFlow}
use cuttle.Corpc.Channel.Flow.Start.{start-IsFlow}
use cuttle.Corpc.Channel.Flow.Window.{Reach-IsFlow, on_data_message-takes}

abbrev pub hdr : Hdr
hdr = record { crc = 0; code = 4; sid = 1; did = 2; pldsize = 0 }

-- A message to stream 2; as an answer to it, it says status 0 and a window of 8.
abbrev pub msg : Comsg
msg = record { hdr = hdr; details = 0 ∷ 0 ∷ 8 ∷ 0 ∷ [] }

abbrev pub cells : List Comsg
cells = msg ∷ msg ∷ msg ∷ msg ∷ msg ∷ msg ∷ msg ∷ msg ∷ []

abbrev pub queue : Fifo Comsg
queue = record { items = cells; capacity = 8; size = 0; item_size = 8; first = 0; last = 0 }

queue-Repr : Repr queue []
queue-Repr = record {
  holds = tt;
  count = refl;
  fits = omega arith;
  first_in = omega arith;
  last_in = omega arith;
  behind = inl (omega arith);
  block = omega arith;
  word = omega arith;
}

-- A channel with one stream, at address 5.
abbrev pub table : Array ℕ
table = record { items = 5 ∷ 0 ∷ []; capacity = 2; size = 1; item_size = 8 }

pub table-IsValid : IsValid table
table-IsValid = record { fits = omega arith; block = omega arith; word = omega arith }

abbrev pub end : StreamState → ℕ → ℕ → Channel
end state sid did = record {
  state = ChannelState.established;
  refs = ℤ.pos 1;
  write_lock = false;
  streams = table;
  heap = λ p. record { rxq = queue; state = state; sid = sid; did = did; rwnd = 8 };
  signals = 0;
}

abbrev pub writer : Channel
writer = end StreamState.established 1 2

abbrev reader : Channel
reader = end StreamState.established 2 1

abbrev pub asking : Channel
asking = end StreamState.opening 2 0

abbrev quiet : Link
quiet = record {
  writer = writer;
  reader = reader;
  wire = [];
  owed = 0;
  acks = 0;
  phase = Phase.away;
}

-- The writer holds the lock, and then a message is out.
abbrev pub holder : Channel
holder = record writer { write_lock = true }

abbrev busy : Link
busy = record quiet { writer = holder; wire = msg ∷ []; phase = Phase.sent }

busy-Reach : Reach 5 5 quiet busy
unfolding acquire_round
busy-Reach =
    Reach.next (Reach.next Reach.here (Step.locks false holder refl)) (Step.transmits msg refl)

quiet-IsFlow : IsFlow 8 5 5 quiet
quiet-IsFlow = start-IsFlow 5 5 writer reader queue-Repr refl refl

Reach-IsFlow_example : IsFlow 8 5 5 busy
Reach-IsFlow_example = Reach-IsFlow 8 5 5 quiet-IsFlow busy-Reach

reader_found : find_stream_by_sid reader 2 ≡ some (some 5)
unfolding find_stream_by_sid find_from
reader_found = refl

on_data_message-takes_example : (c : Channel) × (on_data_message reader msg ≡ some (c, true, true))
on_data_message-takes_example =
    on_data_message-takes 8 5 5 quiet busy msg [] quiet-IsFlow busy-Reach refl reader_found

find_stream_by_sid_lem_example : find_stream_by_sid writer 1 ≡ some (some 5)
unfolding lookup
find_stream_by_sid_lem_example = find_stream_by_sid_lem writer 1 table-IsValid

on_create_stream_responce_lem_example :
    (c : Channel) × (fok : Bool) × (on_create_stream_responce asking msg ≡ some (c, fok))
    × Responds asking msg c fok
on_create_stream_responce_lem_example = on_create_stream_responce_lem asking msg table-IsValid

abbrev pub malloc : ℕ → Option (List Comsg)
malloc n = if n == 64 then some cells else none
