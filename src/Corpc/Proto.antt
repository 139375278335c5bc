-- ===== src/Corpc/Proto.antt =====
-- src/corpc/corpc-proto.c and corpc-proto.h: the messages of a channel on the wire, on a
-- little-endian machine. Strings are the codes of their characters, without the final 0.
pub mod Layout
pub mod Send
pub mod Message
pub mod RoundTrip
pub mod Checks
use cuttle.Prelude.{
  ℕ, zero, suc, ◌+◌, ◌-◌, ◌*◌, ◌%◌, ◌^◌, List, [], ◌∷◌, ◌++◌, Bool, true, false, ◌==◌, leb, ltb,
  if◌then◌else◌, length, take, drop, get_or, min,
}
use cuttle.Prelude.Words.{u16, mem16, mem32, load16, load32, swap16, swap32}
use cuttle.Hash.Crc32

-- `comsghdr`, its fields in host order.
pub record Hdr : Type 0 where
  pub crc : ℕ
  pub code : ℕ
  pub sid : ℕ
  pub did : ℕ
  pub pldsize : ℕ

-- `comsg`: the header, and the CORPC_MAX_PAYLOAD_SIZE bytes behind it in memory.
pub record Comsg : Type 0 where
  pub hdr : Hdr
  pub details : List ℕ

abbrev pub max_payload_size : ℕ
max_payload_size = 64 * 1024 - 12

abbrev pub create_stream_req : ℕ
create_stream_req = 1

abbrev pub create_stream_resp : ℕ
create_stream_resp = 2

abbrev pub close_stream_req : ℕ
close_stream_req = 3

abbrev pub data_msg : ℕ
data_msg = 4

abbrev pub data_ack : ℕ
data_ack = 5

-- The header in memory behind its `crc`, and whole.
abbrev pub after_crc : Hdr → List ℕ
after_crc h = mem16 h.code ++ (mem16 h.sid ++ (mem16 h.did ++ mem16 h.pldsize))

abbrev pub mem_hdr : Hdr → List ℕ
mem_hdr h = mem32 h.crc ++ after_crc h

abbrev pub byte : List ℕ → ℕ → ℕ
byte b i = get_or b i 0

-- The header that stands in memory.
unfoldable pub hdr_of : List ℕ → Hdr
hdr_of b = record {
  crc = load32 (byte b 0) (byte b 1) (byte b 2) (byte b 3);
  code = load16 (byte b 4) (byte b 5);
  sid = load16 (byte b 6) (byte b 7);
  did = load16 (byte b 8) (byte b 9);
  pldsize = load16 (byte b 10) (byte b 11);
}

-- `calc_crc`, for a header and the payload in memory behind it; `crc_begin`, `crc_update` and
-- `crc_final` are those of the hash.
unfoldable pub calc_crc : Hdr → List ℕ → ℕ
calc_crc h payload = Crc32.finalize (Crc32.update Crc32.begin (after_crc h ++ payload))

unfoldable pub set_crc : Hdr → List ℕ → Hdr
set_crc h payload = record h { crc = calc_crc h payload }

unfoldable pub ntohdr : Hdr → Hdr
ntohdr h = record {
  crc = swap32 h.crc;
  code = swap16 h.code;
  sid = swap16 h.sid;
  did = swap16 h.did;
  pldsize = swap16 h.pldsize;
}

unfoldable pub htondr : Hdr → Hdr
htondr h = record {
  crc = swap32 h.crc;
  code = swap16 h.code;
  sid = swap16 h.sid;
  did = swap16 h.did;
  pldsize = swap16 h.pldsize;
}

-- `x = ntohs(x)` for the word at offset `i` of the details.
unfoldable pub ntohs_at : ℕ → List ℕ → List ℕ
ntohs_at zero [] = []
ntohs_at zero (a ∷ []) = a ∷ []
ntohs_at zero (a ∷ b ∷ r) = b ∷ a ∷ r
ntohs_at (suc i) [] = []
ntohs_at (suc i) (x ∷ r) = x ∷ ntohs_at i r

-- What a reader of the socket sees: the bytes on their way, of which one call of
-- `co_ssl_socket_recv` for `n` bytes takes `give pending n`, and `n` at most.
module _ (give : List ℕ → ℕ → ℕ) where
  -- `co_proto_read`: the bytes that came, what is left, and whether all came. A call for no bytes is
  -- taken to give none, without an error.
  unfoldable pub proto_read : List ℕ → ℕ → List ℕ × List ℕ × Bool
  proto_read pending size =
      let n = min (give pending size) size in
      let got = take n pending in (got, drop n pending, length got == size)

  -- Reads `pldsize` bytes into the details, over what stands there.
  unfoldable pub read_details : List ℕ → Comsg → List ℕ × Comsg × Bool
  read_details pending msg =
      let (got, left, whole) = proto_read pending msg.hdr.pldsize in
      (left, record msg { details = got ++ drop (length got) msg.details }, whole)

  -- The end of `corpc_proto_recv_msg`.
  unfoldable pub check_crc : List ℕ → Comsg → List ℕ × Comsg × Bool
  check_crc left msg =
      (left, msg, calc_crc msg.hdr (take msg.hdr.pldsize msg.details) == msg.hdr.crc)

  -- A payload that is read, brought into host order and checked.
  unfoldable pub recv_details : List ℕ → Comsg → (List ℕ → List ℕ) → List ℕ × Comsg × Bool
  recv_details pending msg to_host =
      let (left, msg', whole) = read_details pending msg in
      if whole
      then check_crc left (record msg' { details = to_host msg'.details })
      else (left, msg', false)

  -- The `switch` of `corpc_proto_recv_msg`.
  unfoldable pub recv_body : List ℕ → Comsg → List ℕ × Comsg × Bool
  recv_body pending msg =
      let code = msg.hdr.code in
      let pldsize = msg.hdr.pldsize in
      let fail : List ℕ × Comsg × Bool = (pending, msg, false) in
      if code == create_stream_req
      then if ltb max_payload_size pldsize
        then fail
        else recv_details pending msg (λ d. ntohs_at 4 (ntohs_at 2 (ntohs_at 0 d)))
      else if code == create_stream_resp
      then if pldsize == 4 then recv_details pending msg (λ d. ntohs_at 2 (ntohs_at 0 d)) else fail
      else if code == close_stream_req
      then if pldsize == 2 then recv_details pending msg (ntohs_at 0) else fail
      else if code == data_msg
      then if ltb max_payload_size pldsize then fail else recv_details pending msg (λ d. d)
      else if code == data_ack
      then if pldsize == 0 then check_crc pending msg else fail
      else fail

  -- What is left on its way, the message in memory, and the result. A header that comes in part
  -- leaves the message of no use; it is not read then.
  unfoldable pub recv_msg : List ℕ → Comsg → List ℕ × Comsg × Bool
  recv_msg pending msg =
      let (got, left, whole) = proto_read pending 12 in
      if whole
      then recv_body left (record msg { hdr = ntohdr (hdr_of got) })
      else (left, msg, false)
