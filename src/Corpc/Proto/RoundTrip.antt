-- ===== src/Corpc/Proto/RoundTrip.antt =====
-- What one end of a channel sends, the other end receives: the functions of Send and of Proto
-- together, on a socket whose calls deliver all the bytes they are asked for.
use cuttle.Prelude.{
  ℕ, ◌^◌, ◌≤◌, ◌<◌, ◌≡◌, refl, sym, ap, ◌∙◌, List, [], ◌∷◌, ◌++◌, true, false, arith, append_assoc,
  length, length-append, drop, min, ltb, map, ◌==◌, ==_iff,
}
use cuttle.Prelude.Words.{mem16, swap16}
use cuttle.Cc.Memory.{take-append_exact}
use cuttle.Corpc.Proto.{
  Hdr, Comsg, max_payload_size, mem_hdr, calc_crc, set_crc, htondr, ntohs_at, proto_read,
  read_details, check_crc, recv_details, recv_body, recv_msg,
}
use cuttle.Corpc.Proto.Layout.{IsHdr, ntohdr-hdr_of, ntohs_at-mem16}
use cuttle.Corpc.Proto.Message.{
  Message, encode, code_of, payload_of, IsMessage, Says, sealed, sealed-IsHdr, network,
  length-network, encode_lem, concat,
}

-- A call of `co_ssl_socket_recv` takes all the bytes it is asked for, where they are there.
abbrev pub AllThere : (List ℕ → ℕ → ℕ) → Type 0
AllThere give = (p : List ℕ) (n : ℕ) → n ≤ length p → n ≤ give p n

pub drop-append_exact : (xs ys : List ℕ) → drop (length xs) (xs ++ ys) ≡ ys
drop-append_exact [] ys = refl
drop-append_exact (x ∷ xs) ys = drop-append_exact xs ys

module _ (give : List ℕ → ℕ → ℕ) (all_there : AllThere give) where
  read_all :
      (bs rest : List ℕ) (n : ℕ) → length bs ≡ n → proto_read give (bs ++ rest) n ≡ (bs, rest, true)
  unfolding proto_read
  read_all bs rest n e =
      let there = all_there (bs ++ rest) n (omega (arith, length-append bs rest)) in
      let whole : min (give (bs ++ rest) n) n ≡ n = omega arith in
      let same : (n == n) ≡ true = (==_iff n n).1 refl in
      rw (whole, take-append_exact n bs rest e, e, same)
        (ap (λ k. (bs, drop k (bs ++ rest), true)) (sym e)
          ∙ ap (λ r. (bs, r, true)) (drop-append_exact bs rest))

  header_lem :
      (h : Hdr) (body : List ℕ) (msg : Comsg)
      → IsHdr h
      → recv_msg give (mem_hdr (htondr h) ++ body) msg
        ≡ recv_body give body (record msg { hdr = h })
  unfolding recv_msg
  header_lem h body msg r = rw (read_all (mem_hdr (htondr h)) body 12 refl, ntohdr-hdr_of h r)

  check_lem :
      (left host stale : List ℕ) (h : Hdr)
      → length host ≡ h.pldsize
      → calc_crc h host ≡ h.crc
      → check_crc give left (record { hdr = h; details = host ++ stale })
        ≡ (left, record { hdr = h; details = host ++ stale }, true)
  unfolding check_crc
  check_lem left host stale h e c =
      let same : (h.crc == h.crc) ≡ true = (==_iff h.crc h.crc).1 refl in
      rw (take-append_exact h.pldsize host stale e, c, same)

  details_lem :
      (w host rest : List ℕ) (h : Hdr) (msg : Comsg) (to_host : List ℕ → List ℕ)
      → length w ≡ h.pldsize
      → length host ≡ h.pldsize
      → calc_crc h host ≡ h.crc
      → ((stale : List ℕ) → to_host (w ++ stale) ≡ host ++ stale)
      → recv_details give (w ++ rest) (record msg { hdr = h }) to_host
        ≡ (rest, record { hdr = h; details = host ++ drop (length w) msg.details }, true)
  unfolding recv_details read_details
  details_lem w host rest h msg to_host e f c turned =
      rw (read_all w rest h.pldsize e, turned (drop (length w) msg.details))
        (check_lem rest host (drop (length w) msg.details) h f c)

  -- The message in memory after a receive, over what stood there.
  abbrev received : Message → Comsg → Comsg
  received m msg = record {
    hdr = sealed m;
    details = payload_of m ++ drop (length (network m)) msg.details;
  }

  sealed_crc : (m : Message) → calc_crc (sealed m) (payload_of m) ≡ (sealed m).crc
  unfolding set_crc calc_crc
  sealed_crc m = refl

  -- The payload of each kind of message comes into host order.
  abbrev host : Message → List ℕ → List ℕ
  host (Message.request sid rwnd service method) d = ntohs_at 4 (ntohs_at 2 (ntohs_at 0 d))
  host (Message.responce sid did rwnd status) d = ntohs_at 2 (ntohs_at 0 d)
  host (Message.closing sid did status) d = ntohs_at 0 d
  host (Message.chunk sid did bytes) d = d
  host (Message.credit sid did) d = d

  host_lem : (m : Message) (stale : List ℕ) → host m (network m ++ stale) ≡ payload_of m ++ stale
  host_lem (Message.request sid rwnd service method) stale =
      let text : List ℕ = (service ++ method) ++ stale in
      let ls : ℕ = length service in
      let lm : ℕ = length method in
      ap (λ d. ntohs_at 4 (ntohs_at 2 d))
        (ntohs_at-mem16 0 [] rwnd (mem16 (swap16 ls) ++ (mem16 (swap16 lm) ++ text)) refl)
      ∙ ap (ntohs_at 4) (ntohs_at-mem16 2 (mem16 rwnd) ls (mem16 (swap16 lm) ++ text) refl)
      ∙ ntohs_at-mem16 4 (mem16 rwnd ++ mem16 ls) lm text refl
  host_lem (Message.responce sid did rwnd status) stale =
      ap (ntohs_at 2) (ntohs_at-mem16 0 [] status (mem16 (swap16 rwnd) ++ stale) refl)
      ∙ ntohs_at-mem16 2 (mem16 status) rwnd stale refl
  host_lem (Message.closing sid did status) stale = ntohs_at-mem16 0 [] status stale refl
  host_lem (Message.chunk sid did bytes) stale = refl
  host_lem (Message.credit sid did) stale = refl

  sized : (m : Message) → length (payload_of m) ≡ (sealed m).pldsize
  unfolding set_crc
  sized m = refl

  payload_lem :
      (m : Message) (rest : List ℕ) (msg : Comsg)
      → recv_details give (network m ++ rest) (record msg { hdr = sealed m }) (host m)
        ≡ (rest, received m msg, true)
  payload_lem m rest msg =
      details_lem (network m) (payload_of m) rest (sealed m) msg (host m)
        (length-network m ∙ sized m) (sized m) (sealed_crc m) (host_lem m)

  body_lem :
      (m : Message) (rest : List ℕ) (msg : Comsg)
      → IsMessage m
      → recv_body give (network m ++ rest) (record msg { hdr = sealed m })
        ≡ (rest, received m msg, true)
  unfolding recv_body set_crc
  body_lem (Message.request sid rwnd service method) rest msg h =
      let fits : ltb max_payload_size
            (length (payload_of (Message.request sid rwnd service method)))
          ≡ false =
        ground (arith, h.size) in
      rw fits (payload_lem (Message.request sid rwnd service method) rest msg)
  body_lem (Message.responce sid did rwnd status) rest msg h =
      payload_lem (Message.responce sid did rwnd status) rest msg
  body_lem (Message.closing sid did status) rest msg h =
      payload_lem (Message.closing sid did status) rest msg
  body_lem (Message.chunk sid did bytes) rest msg h =
      let fits : ltb max_payload_size (length bytes) ≡ false = ground (arith, h.size) in
      rw fits (payload_lem (Message.chunk sid did bytes) rest msg)
  body_lem (Message.credit sid did) rest msg h =
      check_lem rest [] msg.details (sealed (Message.credit sid did)) refl
        (sealed_crc (Message.credit sid did))

  received-Says : (m : Message) (msg : Comsg) → Says m (received m msg)
  unfolding set_crc
  received-Says m msg = record {
    code = refl;
    sid = refl;
    did = refl;
    pldsize = refl;
    payload = take-append_exact (length (payload_of m)) (payload_of m) _ refl;
  }

  small_code : (m : Message) → code_of m < 2 ^ 16
  small_code (Message.request sid rwnd service method) = omega arith
  small_code (Message.responce sid did rwnd status) = omega arith
  small_code (Message.closing sid did status) = omega arith
  small_code (Message.chunk sid did bytes) = omega arith
  small_code (Message.credit sid did) = omega arith

  -- Where a call on the socket delivers all the bytes it is asked for, a message of any of the
  -- five kinds, with ids of 16 bits and a payload that fits, is received whole at the other end,
  -- whatever follows it and whatever message stood in memory: the call succeeds, the header and
  -- the payload in host order say what the sender was given, and what follows is left.
  pub recv_msg-encode :
      (m : Message) (rest : List ℕ) (msg : Comsg)
      → IsMessage m
      → (c : Comsg) × (recv_msg give (encode m ++ rest) msg ≡ (rest, c, true)) × Says m c
  recv_msg-encode m rest msg h = (
    received m msg,
    ap (λ b. recv_msg give (b ++ rest) msg) (encode_lem m h)
        ∙ ap (λ b. recv_msg give b msg)
            (append_assoc (mem_hdr (htondr (sealed m))) (network m) rest)
        ∙ header_lem (sealed m) (network m ++ rest) msg (sealed-IsHdr m h (small_code m))
        ∙ body_lem m rest msg h,
    received-Says m msg,
  )

  -- The messages that can be received one after the other, and what is left then.
  pub data Reads : List ℕ → List Message → List ℕ → Type 0 where
    done : (p : List ℕ) → Reads p [] p
    next :
        (p left rest : List ℕ) (m : Message) (ms : List Message) (msg c : Comsg)
        → recv_msg give p msg ≡ (left, c, true)
        → Says m c
        → Reads left ms rest
        → Reads p (m ∷ ms) rest

  abbrev pub AllMessages : List Message → Type 0
  AllMessages [] = Unit
  AllMessages (m ∷ ms) = IsMessage m × AllMessages ms

  -- Where a call on the socket delivers all the bytes it is asked for, messages sent one after the
  -- other are received one after the other, in this order and each whole.
  pub Reads-encode :
      (ms : List Message) (rest : List ℕ) (msg : Comsg)
      → AllMessages ms
      → Reads (concat (map encode ms) ++ rest) ms rest
  Reads-encode [] rest msg h = Reads.done rest
  Reads-encode (m ∷ ms) rest msg h =
      let left : List ℕ = concat (map encode ms) ++ rest in
      let (c, run, says) = recv_msg-encode m left msg h.0 in
      Reads.next ((encode m ++ concat (map encode ms)) ++ rest) left rest m ms msg c
        (ap (λ b. recv_msg give b msg) (append_assoc (encode m) (concat (map encode ms)) rest)
          ∙ run)
        says (Reads-encode ms rest msg h.1)
