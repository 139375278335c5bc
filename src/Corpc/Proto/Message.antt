-- ===== src/Corpc/Proto/Message.antt =====
-- The messages of a channel in the abstract, and how src/corpc/corpc-proto.c writes them.
use cuttle.Prelude.{
  ℕ, ◌+◌, ◌^◌, ◌≤◌, ◌<◌, ◌≡◌, refl, sym, ap, ◌∙◌, List, [], ◌∷◌, ◌++◌, Bool, true, arith,
  append-nil, length, length-append, take,
}
use cuttle.Prelude.Words.{u16, mem16, swap16}
use cuttle.Hash.Crc32
use cuttle.Corpc.Proto.{
  Hdr, Comsg, max_payload_size, create_stream_req, data_msg, after_crc, mem_hdr, calc_crc, set_crc,
  htondr,
}
use cuttle.Corpc.Proto.Layout.{IsHdr, calc_crc-lt}
use cuttle.Corpc.Proto.Send.{
  wire, create_stream_request, create_stream_responce, close_stream, ack, data_hdr,
  send_create_stream_request, send_create_stream_responce, send_close_stream, send_data_ack,
  send_data,
}

-- The messages, with what their senders are given.
pub data Message : Type 0 where
  request : (sid rwnd : ℕ) (service method : List ℕ) → Message
  responce : (sid did rwnd status : ℕ) → Message
  closing : (sid did status : ℕ) → Message
  chunk : (sid did : ℕ) (bytes : List ℕ) → Message
  credit : (sid did : ℕ) → Message

abbrev pub concat : List (List ℕ) → List ℕ
concat [] = []
concat (x ∷ xs) = x ++ concat xs

abbrev takes_all : List ℕ → Bool
takes_all b = true

-- The bytes that go out where the socket takes every buffer whole.
unfoldable pub encode : Message → List ℕ
encode (Message.request sid rwnd service method) =
    concat (send_create_stream_request takes_all sid rwnd service method).0
encode (Message.responce sid did rwnd status) =
    concat (send_create_stream_responce takes_all sid did rwnd status).0
encode (Message.closing sid did status) = concat (send_close_stream takes_all sid did status).0
encode (Message.chunk sid did bytes) = concat (send_data takes_all sid did bytes).0
encode (Message.credit sid did) = concat (send_data_ack takes_all sid did).0

abbrev pub code_of : Message → ℕ
code_of (Message.request sid rwnd service method) = 1
code_of (Message.responce sid did rwnd status) = 2
code_of (Message.closing sid did status) = 3
code_of (Message.chunk sid did bytes) = 4
code_of (Message.credit sid did) = 5

abbrev pub sid_of : Message → ℕ
sid_of (Message.request sid rwnd service method) = sid
sid_of (Message.responce sid did rwnd status) = sid
sid_of (Message.closing sid did status) = sid
sid_of (Message.chunk sid did bytes) = sid
sid_of (Message.credit sid did) = sid

abbrev pub did_of : Message → ℕ
did_of (Message.request sid rwnd service method) = 0
did_of (Message.responce sid did rwnd status) = did
did_of (Message.closing sid did status) = did
did_of (Message.chunk sid did bytes) = did
did_of (Message.credit sid did) = did

-- The payload in host order.
abbrev pub payload_of : Message → List ℕ
payload_of (Message.request sid rwnd service method) =
    mem16 rwnd ++ (mem16 (length service) ++ (mem16 (length method) ++ (service ++ method)))
payload_of (Message.responce sid did rwnd status) = mem16 status ++ mem16 rwnd
payload_of (Message.closing sid did status) = mem16 status
payload_of (Message.chunk sid did bytes) = bytes
payload_of (Message.credit sid did) = []

-- What the 16-bit fields and the payload of a message can hold.
pub record IsMessage (m : Message) : Type 0 where
  pub sid : sid_of m < 2 ^ 16
  pub did : did_of m < 2 ^ 16
  pub size : length (payload_of m) ≤ max_payload_size

-- The message in memory says what the sender meant; what stands behind the payload is of no use.
pub record Says (m : Message) (c : Comsg) : Type 0 where
  pub code : c.hdr.code ≡ code_of m
  pub sid : c.hdr.sid ≡ sid_of m
  pub did : c.hdr.did ≡ did_of m
  pub pldsize : c.hdr.pldsize ≡ length (payload_of m)
  pub payload : take c.hdr.pldsize c.details ≡ payload_of m

-- The header that the sender checks and turns round.
abbrev pub sealed : Message → Hdr
sealed m =
    set_crc
      (record {
        crc = 0;
        code = code_of m;
        sid = sid_of m;
        did = did_of m;
        pldsize = length (payload_of m);
      })
      (payload_of m)

pub sealed-IsHdr : (m : Message) → IsMessage m → code_of m < 2 ^ 16 → IsHdr (sealed m)
unfolding set_crc
sealed-IsHdr m h k = record {
  crc = calc_crc-lt _ (payload_of m);
  code = k;
  sid = h.sid;
  did = h.did;
  pldsize = omega (arith, h.size);
}

-- The payload as it goes out.
abbrev pub network : Message → List ℕ
network (Message.request sid rwnd service method) =
    mem16 (swap16 rwnd)
    ++ (mem16 (swap16 (length service)) ++ (mem16 (swap16 (length method)) ++ (service ++ method)))
network (Message.responce sid did rwnd status) = mem16 (swap16 status) ++ mem16 (swap16 rwnd)
network (Message.closing sid did status) = mem16 (swap16 status)
network (Message.chunk sid did bytes) = bytes
network (Message.credit sid did) = []

pub length-network : (m : Message) → length (network m) ≡ length (payload_of m)
length-network (Message.request sid rwnd service method) = refl
length-network (Message.responce sid did rwnd status) = refl
length-network (Message.closing sid did status) = refl
length-network (Message.chunk sid did bytes) = refl
length-network (Message.credit sid did) = refl

-- A request whose size fields are `ls`, `lm` and `p`.
abbrev framed : ℕ → ℕ → List ℕ → List ℕ → ℕ → ℕ → ℕ → List ℕ
framed sid rwnd service method ls lm p =
    let hdr : Hdr = record { crc = 0; code = create_stream_req; sid = sid; did = 0; pldsize = p } in
    wire (set_crc hdr (mem16 rwnd ++ (mem16 ls ++ (mem16 lm ++ (service ++ method)))))
      (mem16 (swap16 rwnd) ++ (mem16 (swap16 ls) ++ (mem16 (swap16 lm) ++ (service ++ method))))

-- A data message whose size field is `p`.
abbrev chunk_hdr : ℕ → ℕ → ℕ → Hdr
chunk_hdr sid did p = record { crc = 0; code = data_msg; sid = sid; did = did; pldsize = p }

chunk_crc :
    (sid did p : ℕ) (bytes : List ℕ)
    → Crc32.finalize
        (Crc32.update (Crc32.update Crc32.begin (after_crc (chunk_hdr sid did p))) bytes)
      ≡ calc_crc (chunk_hdr sid did p) bytes
unfolding calc_crc
chunk_crc sid did p bytes =
    ap Crc32.finalize
      (sym (Crc32.update-append Crc32.begin (after_crc (chunk_hdr sid did p)) bytes))

data_hdr-sealed :
    (sid did : ℕ) (bytes : List ℕ)
    → u16 (length bytes) ≡ length bytes
    → data_hdr sid did bytes ≡ sealed (Message.chunk sid did bytes)
unfolding data_hdr set_crc
data_hdr-sealed sid did bytes e =
    ap (λ k. record (chunk_hdr sid did (u16 (length bytes))) { crc = k })
      (chunk_crc sid did (u16 (length bytes)) bytes)
    ∙ ap (λ p. set_crc (chunk_hdr sid did p) bytes) e

-- Every sender seals its header, and puts the payload behind it.
pub encode_lem : (m : Message) → IsMessage m → encode m ≡ mem_hdr (htondr (sealed m)) ++ network m
unfolding encode send_create_stream_request send_create_stream_responce send_close_stream send_data
    send_data_ack create_stream_request create_stream_responce close_stream ack
encode_lem (Message.request sid rwnd service method) h =
    let sizes = length-append service method in
    let s : u16 (length service) ≡ length service = omega (arith, sizes, h.size) in
    let m : u16 (length method) ≡ length method = omega (arith, sizes, h.size) in
    let p : u16 (6 + length service + length method)
        ≡ length (payload_of (Message.request sid rwnd service method)) =
      omega (arith, sizes, h.size) in
    append-nil _
    ∙ ap
        (λ k.
          framed sid rwnd service method k (u16 (length method))
            (u16 (6 + length service + length method)))
        s
    ∙ ap
        (λ k.
          framed sid rwnd service method (length service) k
            (u16 (6 + length service + length method)))
        m
    ∙ ap (framed sid rwnd service method (length service) (length method)) p
encode_lem (Message.responce sid did rwnd status) h = append-nil _
encode_lem (Message.closing sid did status) h = append-nil _
encode_lem (Message.chunk sid did bytes) h =
    ap (λ b. mem_hdr (htondr (data_hdr sid did bytes)) ++ b) (append-nil bytes)
    ∙ ap (λ k. mem_hdr (htondr k) ++ bytes) (data_hdr-sealed sid did bytes (omega (arith, h.size)))
encode_lem (Message.credit sid did) h = refl
