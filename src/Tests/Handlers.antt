-- ===== src/Tests/Handlers.antt =====
-- A request for a stream, and the reading of a message, at a channel with one stream.
use cuttle.Prelude.{
  ℕ, ◌≡◌, ◌≢◌, ap, refl, List, [], ◌∷◌, Option, none, some, Bool, true, false, arith, inl, inr,
}
use cuttle.Cc.Fifo.{Fifo}
use cuttle.Cc.Fifo.Repr.{Repr}
use cuttle.Cc.Array.Model.{contents}
use cuttle.Corpc.Proto.{Comsg, byte}
use cuttle.Corpc.Proto.Message.{Message, Says}
use cuttle.Corpc.Channel.Naming.{Refused}
use cuttle.Corpc.Proto.Send.{ack, create_stream_responce, create_stream_request}
use cuttle.Corpc.Channel.{
  Channel, StreamState, acquire_round, acquire_write_lock, release_write_lock, set_stream_state,
  put,
}
use cuttle.Corpc.Channel.Streams.{gensid}
use cuttle.Corpc.Channel.Receive.{credit_for}
use cuttle.Corpc.Channel.Transfer.{read_internal, stream_read, spend}
use cuttle.Corpc.Channel.Request.{
  Service, Target, target, text, same_text, find_service, find_method, on_create_stream_request,
}
use cuttle.Corpc.Channel.Reading.{read_internal_lem}
use cuttle.Corpc.Channel.Accepting.{
  on_create_stream_request-refuses, on_create_stream_request-accepts,
}
use cuttle.Corpc.Channel.Opening.{open_stream}
use cuttle.Corpc.Channel.Opening.Result.{Gets, open_stream_lem}
use cuttle.Corpc.Channel.Lifetime.{Life, Step, Reach, release_internal}
use cuttle.Corpc.Channel.Lifetime.Counted.{IsCounted, Reach-IsCounted}
use cuttle.Prelude.Int.{ℤ, dec, below_one}
use cuttle.Tests.Channels.{hdr, msg, cells, queue, writer, asking, holder, malloc, table-IsValid}

abbrev alone : Channel → Channel
alone c = c

abbrev takes : List ℕ → Bool
takes b = true

-- A sender finds the channel of `writer`, and takes its lock.
abbrev seen : Channel → List (Channel × Bool)
seen d = (writer, false) ∷ []

abbrev grab : Channel → Channel
grab d = holder

gets : (d : Channel) → acquire_write_lock (seen d) none ≡ some (true, grab d)
unfolding acquire_write_lock acquire_round
gets d = refl

abbrev one : Fifo Comsg
one = record queue { size = 1; last = 1 }

one-Repr : Repr one (msg ∷ [])
one-Repr = record {
  holds = (refl, tt);
  count = refl;
  fits = omega arith;
  first_in = omega arith;
  last_in = omega arith;
  behind = inl (omega arith);
  block = omega arith;
  word = omega arith;
}

abbrev unread : Channel
unread = record writer { heap = λ p. record (writer.heap p) { rxq = one } }

read_internal_lem_example :
    (q : Fifo Comsg) × Repr q []
    × (read_internal takes alone alone seen (unread ∷ []) 5
        ≡ some (some (release_write_lock holder true, ack 1 2 ∷ [], some msg)))
read_internal_lem_example =
    read_internal_lem takes alone alone seen unread [] 5 msg [] grab gets one-Repr refl refl refl

abbrev service : Service
service = record { name = b'a' ∷ []; methods = (b'b' ∷ []) ∷ [] }

-- It asks for method "b" of service "a".
abbrev request : Comsg
request = record { hdr = hdr; details = 8 ∷ 0 ∷ 1 ∷ 0 ∷ 1 ∷ 0 ∷ b'a' ∷ b'b' ∷ [] }

target_found : target (some (service ∷ [])) request ≡ some (Target.found service)
unfolding target text same_text find_service find_method
target_found = refl

-- A client asks for method "c" of service "a", which has a method "b".
abbrev asked : Message
asked = Message.request 1 8 (b'a' ∷ []) (b'c' ∷ [])

abbrev asks : Comsg
asks = record {
  hdr = record { crc = 0; code = 1; sid = 1; did = 0; pldsize = 8 };
  details = 8 ∷ 0 ∷ 1 ∷ 0 ∷ 1 ∷ 0 ∷ b'a' ∷ b'c' ∷ 0 ∷ [];
}

asks-Says : Says asked asks
asks-Says = record { code = refl; sid = refl; did = refl; pldsize = refl; payload = refl }

on_create_stream_request-refuses_example :
    on_create_stream_request takes alone alone
      (some 9)
      malloc
      true
      seen
      (some (service ∷ []))
      writer
      1
      asks
    ≡ some (release_write_lock holder true, 1, create_stream_responce 0 1 0 3 ∷ [])
on_create_stream_request-refuses_example =
    on_create_stream_request-refuses takes alone alone (some 9) malloc true seen grab gets
      (some (service ∷ [])) writer 1 asks 1 8 (b'a' ∷ []) (b'c' ∷ []) 3 asks-Says
      (record { sid = omega arith; did = omega arith; size = omega arith }) ((λ e. omega arith), tt)
      ((λ e. omega arith), tt) (Refused.no_method [] [] service refl tt refl (other, tt))
  where
    other : ◌≢◌ {A = List ℕ} (b'c' ∷ []) (b'b' ∷ [])
    other e = let bad : 99 ≡ 98 = ap (λ (l : List ℕ). byte l 0) e in omega (arith, bad)

on_create_stream_request-accepts_example :
    (d : Channel) × (e : Channel) × (on_create_stream_request takes alone alone
        (some 9)
        malloc
        true
        seen
        (some (service ∷ []))
        writer
        1
        request
      ≡ some (e, gensid 1, create_stream_responce (gensid 1) 1 8 0 ∷ []))
    × (contents d.streams ≡ 5 ∷ 9 ∷ [])
    × (set_stream_state (release_write_lock holder true) (some 9) StreamState.established ≡ some e)
on_create_stream_request-accepts_example =
    on_create_stream_request-accepts takes alone alone (some 9) malloc true seen grab gets
      (some (service ∷ [])) writer 1 request 9 service cells target_found table-IsValid
      (omega arith) refl refl (omega arith) refl

-- A sender finds the streams of `x` at the channel of `writer`, and takes its lock.
abbrev meets : Channel → List (Channel × Bool)
meets x = (record writer { heap = x.heap }, false) ∷ []

abbrev takes_lock : Channel → Channel
takes_lock x = record holder { heap = x.heap }

meets_lock : (x : Channel) → acquire_write_lock (meets x) none ≡ some (true, takes_lock x)
unfolding acquire_write_lock acquire_round
meets_lock x = refl

-- The client looks twice: first it finds the stream opening.
abbrev answered : Channel → List Channel
answered x = asking ∷ writer ∷ []

open_stream_lem_example :
    (e : Channel) × (stp : Option ℕ) × (open_stream takes alone alone
        (some 9)
        malloc
        meets
        answered
        writer
        1
        (b'a' ∷ [])
        (b'b' ∷ [])
      ≡ some (e, gensid 1, create_stream_request (gensid 1) 8 (b'a' ∷ []) (b'b' ∷ []) ∷ [], stp))
    × Gets 9 writer stp (contents e.streams)
open_stream_lem_example =
    open_stream_lem takes alone alone malloc meets answered takes_lock writer writer (asking ∷ [])
      [] 9 1 (b'a' ∷ []) (b'b' ∷ []) cells meets_lock (λ x. refl) (λ bytes. refl) (λ x. refl)
      (refl, refl, tt) (inr (λ e. cc)) table-IsValid refl table-IsValid (omega arith) refl
      (omega arith)

-- The channel of `writer`, with one holder, who lets it go while it has a stream.
abbrev kept : Life
kept = record { channel = writer; holders = 1; destroyed = false }

kept-IsCounted : IsCounted kept
kept-IsCounted = record { counted = refl; gone = λ e. let no : false ≡ true = e in cc }

abbrev let_go : Life
let_go = record { channel = record writer { refs = ℤ.pos 0 }; holders = 0; destroyed = false }

let_go-Reach : Reach kept let_go
unfolding release_internal dec below_one
let_go-Reach =
    Reach.next Reach.here (Step.drops 0 (record writer { refs = ℤ.pos 0 }) false refl refl refl)

Reach-IsCounted_example : IsCounted let_go
Reach-IsCounted_example = Reach-IsCounted kept-IsCounted let_go-Reach

-- A message of size 2, an ack, the end of the peer's stream, and a sent message.
abbrev two_bytes : Comsg
two_bytes = record msg { hdr = record hdr { pldsize = 2 } }

stream_read_run : stream_read (some two_bytes) true ≡ some (0 ∷ 0 ∷ [])
unfolding stream_read
stream_read_run = refl

credit_run : ((credit_for writer 5).heap 5).rwnd ≡ 9
unfolding credit_for put
credit_run = refl

spend_run : ((spend writer 5).heap 5).rwnd ≡ 7
unfolding spend put
spend_run = refl

gensid_wraps : gensid 65535 ≡ 0
unfolding gensid
gensid_wraps = refl
