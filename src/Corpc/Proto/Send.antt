-- ===== src/Corpc/Proto/Send.antt =====
-- The sending half of src/corpc/corpc-proto.c. `sends` is the outcome of `co_ssl_socket_send` on a
-- buffer: whether all of it was taken. A result is the buffers handed over, in order, and the flag.
use cuttle.Prelude.{ℕ, ◌+◌, List, [], ◌∷◌, ◌++◌, Bool, false, if◌then◌else◌, length}
use cuttle.Prelude.Words.{u16, mem16, swap16}
use cuttle.Corpc.Proto.{
  Hdr, set_crc, htondr, mem_hdr, after_crc, create_stream_req, create_stream_resp, close_stream_req,
  data_msg, data_ack,
}
use cuttle.Hash.Crc32

-- A message whose details are words, then text: its bytes in network order.
abbrev pub wire : Hdr → List ℕ → List ℕ
wire h details = mem_hdr (htondr h) ++ details

-- The header fields are 16 bits wide, whatever the sizes are.
unfoldable pub create_stream_request : ℕ → ℕ → List ℕ → List ℕ → List ℕ
create_stream_request sid rwnd service method =
    let service_name_length = length service in
    let method_name_length = length method in
    let payload_size = 6 + service_name_length + method_name_length in
    let payload =
      mem16 rwnd
      ++ (mem16 (u16 service_name_length)
          ++ (mem16 (u16 method_name_length) ++ (service ++ method))) in
    let hdr : Hdr = record {
      crc = 0;
      code = create_stream_req;
      sid = sid;
      did = 0;
      pldsize = u16 payload_size;
    } in
    wire (set_crc hdr payload) (
      mem16 (swap16 rwnd)
      ++ (mem16 (swap16 (u16 service_name_length))
          ++ (mem16 (swap16 (u16 method_name_length)) ++ (service ++ method))))

unfoldable pub create_stream_responce : ℕ → ℕ → ℕ → ℕ → List ℕ
create_stream_responce sid did rwnd status =
    let hdr : Hdr = record {
      crc = 0;
      code = create_stream_resp;
      sid = sid;
      did = did;
      pldsize = 4;
    } in
    wire (set_crc hdr (mem16 status ++ mem16 rwnd)) (mem16 (swap16 status) ++ mem16 (swap16 rwnd))

unfoldable pub close_stream : ℕ → ℕ → ℕ → List ℕ
close_stream sid did status =
    let hdr : Hdr = record {
      crc = 0;
      code = close_stream_req;
      sid = sid;
      did = did;
      pldsize = 2;
    } in
    wire (set_crc hdr (mem16 status)) (mem16 (swap16 status))

unfoldable pub ack : ℕ → ℕ → List ℕ
ack sid did =
    let hdr : Hdr = record { crc = 0; code = data_ack; sid = sid; did = did; pldsize = 0 } in
    wire (set_crc hdr []) []

-- The header of a data message; its CRC is made in two parts.
unfoldable pub data_hdr : ℕ → ℕ → List ℕ → Hdr
data_hdr sid did bytes =
    let hdr : Hdr = record {
      crc = 0;
      code = data_msg;
      sid = sid;
      did = did;
      pldsize = u16 (length bytes);
    } in
    record hdr {
      crc = Crc32.finalize (Crc32.update (Crc32.update Crc32.begin (after_crc hdr)) bytes);
    }

module _ (sends : List ℕ → Bool) where
  unfoldable pub send_create_stream_request : ℕ → ℕ → List ℕ → List ℕ → List (List ℕ) × Bool
  unfolding create_stream_request
  send_create_stream_request sid rwnd service method =
      let msg = create_stream_request sid rwnd service method in (msg ∷ [], sends msg)

  unfoldable pub send_create_stream_responce : ℕ → ℕ → ℕ → ℕ → List (List ℕ) × Bool
  unfolding create_stream_responce
  send_create_stream_responce sid did rwnd status =
      let msg = create_stream_responce sid did rwnd status in (msg ∷ [], sends msg)

  unfoldable pub send_close_stream : ℕ → ℕ → ℕ → List (List ℕ) × Bool
  unfolding close_stream
  send_close_stream sid did status = let msg = close_stream sid did status in (msg ∷ [], sends msg)

  unfoldable pub send_data_ack : ℕ → ℕ → List (List ℕ) × Bool
  unfolding ack
  send_data_ack sid did = let msg = ack sid did in (msg ∷ [], sends msg)

  unfoldable pub send_data : ℕ → ℕ → List ℕ → List (List ℕ) × Bool
  unfolding data_hdr
  send_data sid did bytes =
      let msg = mem_hdr (htondr (data_hdr sid did bytes)) in
      if sends msg then (msg ∷ bytes ∷ [], sends bytes) else (msg ∷ [], false)
