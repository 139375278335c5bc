-- ===== src/Tests/Wire.antt =====
-- Messages of src/corpc/corpc-proto.c on the wire.
use cuttle.Prelude.{
  ℕ, ◌≡◌, ap, List, [], ◌∷◌, ◌++◌, true, arith, length, replicate, length-replicate,
}
use cuttle.Corpc.Proto.{Hdr, Comsg, max_payload_size, recv_msg}
use cuttle.Corpc.Proto.Message.{Message, encode, IsMessage, Says}
use cuttle.Corpc.Proto.RoundTrip.{AllThere, AllMessages, recv_msg-encode}
use cuttle.Corpc.Proto.Checks.{IsAccepted, recv_msg-IsAccepted, recv_msg-in_bounds}

abbrev pub whole : List ℕ → ℕ → ℕ
whole p n = n

pub whole-AllThere : AllThere whole
whole-AllThere p n h = omega arith

abbrev hdr : Hdr
hdr = record { crc = 0; code = 0; sid = 0; did = 0; pldsize = 0 }

abbrev pub blank : Comsg
blank = record { hdr = hdr; details = replicate max_payload_size 0 }

-- Service "a", method "bc".
abbrev pub request : Message
request = Message.request 7 8 (b'a' ∷ []) (b'b' ∷ b'c' ∷ [])

request-IsMessage : IsMessage request
request-IsMessage = record { sid = omega arith; did = omega arith; size = omega arith }

abbrev pub credit : Message
credit = Message.credit 7 9

credit-IsMessage : IsMessage credit
credit-IsMessage = record { sid = omega arith; did = omega arith; size = omega arith }

recv_msg-encode_example :
    (c : Comsg) × (recv_msg whole (encode request ++ (1 ∷ [])) blank ≡ (1 ∷ [], c, true))
    × Says request c
recv_msg-encode_example =
    recv_msg-encode whole whole-AllThere request (1 ∷ []) blank request-IsMessage

pub both-AllMessages : AllMessages whole whole-AllThere (request ∷ credit ∷ [])
both-AllMessages = (request-IsMessage, (credit-IsMessage, tt))

request_comes : (recv_msg whole (encode request ++ []) blank).2 ≡ true
request_comes =
    let (c, run, says) = recv_msg-encode whole whole-AllThere request [] blank request-IsMessage in
    ap (λ r. r.2) run

recv_msg-IsAccepted_example : IsAccepted (recv_msg whole (encode request ++ []) blank).1
recv_msg-IsAccepted_example = recv_msg-IsAccepted whole (encode request ++ []) blank request_comes

recv_msg-in_bounds_example :
    length (recv_msg whole (0 ∷ 4 ∷ 0 ∷ []) blank).1.details ≡ max_payload_size
recv_msg-in_bounds_example =
    recv_msg-in_bounds whole (0 ∷ 4 ∷ 0 ∷ []) blank (length-replicate {A = ℕ} max_payload_size 0)
