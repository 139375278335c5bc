-- ===== src/Corpc/Proto/Checks.antt =====
-- What `corpc_proto_recv_msg` lets through, whatever bytes come and however many a call delivers.
use cuttle.Prelude.{
  ℕ, zero, suc, ◌≤◌, ◌≡◌, refl, ap, ◌∙◌, List, [], ◌∷◌, ◌++◌, true, false, arith, length,
  length-append, length-take, length-drop, take, drop, min, ltb, ◌==◌, ==_iff, Bool-cases, inl, inr,
}
use cuttle.Corpc.Proto.{
  Comsg, max_payload_size, calc_crc, ntohs_at, proto_read, read_details, check_crc, recv_details,
  recv_body, recv_msg,
}

-- The codes of messages, and the payload sizes that each can have.
pub data HasKind : ℕ → ℕ → Type 0 where
  request : (n : ℕ) → n ≤ max_payload_size → HasKind 1 n
  responce : HasKind 2 4
  closing : HasKind 3 2
  chunk : (n : ℕ) → n ≤ max_payload_size → HasKind 4 n
  credit : HasKind 5 0

pub record IsAccepted (c : Comsg) : Type 0 where
  pub kind : HasKind c.hdr.code c.hdr.pldsize
  pub crc : calc_crc c.hdr (take c.hdr.pldsize c.details) ≡ c.hdr.crc

kind_of : (c k n : ℕ) → (c == k) ≡ true → HasKind k n → HasKind c n
kind_of c k n e h = rw ((==_iff c k).0 e) h

sized : (k n m : ℕ) → (n == m) ≡ true → HasKind k m → HasKind k n
sized k n m e h = rw ((==_iff n m).0 e) h

fits : (n : ℕ) → ltb max_payload_size n ≡ false → n ≤ max_payload_size
fits n e = ground arith

HasKind-le : {k n : ℕ} → HasKind k n → n ≤ max_payload_size
HasKind-le (HasKind.request n h) = h
HasKind-le HasKind.responce = omega arith
HasKind-le HasKind.closing = omega arith
HasKind-le (HasKind.chunk n h) = h
HasKind-le HasKind.credit = omega arith

length-ntohs_at : (i : ℕ) (d : List ℕ) → length (ntohs_at i d) ≡ length d
unfolding ntohs_at
length-ntohs_at zero [] = refl
length-ntohs_at zero (a ∷ []) = refl
length-ntohs_at zero (a ∷ b ∷ d) = refl
length-ntohs_at (suc i) [] = refl
length-ntohs_at (suc i) (a ∷ d) = ap suc (length-ntohs_at i d)

two : (d : List ℕ) → length (ntohs_at 2 (ntohs_at 0 d)) ≡ length d
two d = length-ntohs_at 2 (ntohs_at 0 d) ∙ length-ntohs_at 0 d

three : (d : List ℕ) → length (ntohs_at 4 (ntohs_at 2 (ntohs_at 0 d))) ≡ length d
three d = length-ntohs_at 4 (ntohs_at 2 (ntohs_at 0 d)) ∙ two d

module _ (give : List ℕ → ℕ → ℕ) where
  check_ok :
      (left : List ℕ) (msg : Comsg)
      → (check_crc give left msg).2 ≡ true
      → HasKind msg.hdr.code msg.hdr.pldsize
      → IsAccepted (check_crc give left msg).1
  unfolding check_crc
  check_ok left msg e k = record { kind = k; crc = (==_iff _ _).0 e }

  details_ok :
      (pending : List ℕ) (msg : Comsg) (to_host : List ℕ → List ℕ)
      → (recv_details give pending msg to_host).2 ≡ true
      → HasKind msg.hdr.code msg.hdr.pldsize
      → IsAccepted (recv_details give pending msg to_host).1
  unfolding recv_details read_details
  details_ok pending msg to_host e k =
      elim (Bool-cases (proto_read give pending msg.hdr.pldsize).2) [
        | inl whole ↦ rw whole (check_ok _ _ (rw whole at e) k)
        | inr part ↦ let bad : false ≡ true = rw part at e in cc
      ]

  -- What the `switch` does with a header.
  pub data Outcome (pending : List ℕ) (msg : Comsg) : Type 0 where
    refuses : recv_body give pending msg ≡ (pending, msg, false) → Outcome pending msg
    bare :
        HasKind msg.hdr.code msg.hdr.pldsize
        → recv_body give pending msg ≡ check_crc give pending msg
        → Outcome pending msg
    fills :
        HasKind msg.hdr.code msg.hdr.pldsize
        → (to_host : List ℕ → List ℕ) → ((d : List ℕ) → length (to_host d) ≡ length d)
        → recv_body give pending msg ≡ recv_details give pending msg to_host
        → Outcome pending msg

  pub outcome : (pending : List ℕ) (msg : Comsg) → Outcome pending msg
  unfolding recv_body
  outcome pending msg =
      let code : ℕ = msg.hdr.code in
      let n : ℕ = msg.hdr.pldsize in
      elim (Bool-cases (code == 1)) [
        | inl k ↦ elim (Bool-cases (ltb max_payload_size n)) [
          | inl big ↦ Outcome.refuses (rw (k, big))
          | inr small ↦
              Outcome.fills (kind_of code 1 n k (HasKind.request n (fits n small)))
                (λ d. ntohs_at 4 (ntohs_at 2 (ntohs_at 0 d))) three (rw (k, small))
        ]
        | inr k1 ↦ elim (Bool-cases (code == 2)) [
          | inl k ↦ elim (Bool-cases (n == 4)) [
            | inl size ↦
                Outcome.fills (kind_of code 2 n k (sized 2 n 4 size HasKind.responce))
                  (λ d. ntohs_at 2 (ntohs_at 0 d)) two (rw (k1, k, size))
            | inr other ↦ Outcome.refuses (rw (k1, k, other))
          ]
          | inr k2 ↦ elim (Bool-cases (code == 3)) [
            | inl k ↦ elim (Bool-cases (n == 2)) [
              | inl size ↦
                  Outcome.fills (kind_of code 3 n k (sized 3 n 2 size HasKind.closing)) (ntohs_at 0)
                    (length-ntohs_at 0) (rw (k1, k2, k, size))
              | inr other ↦ Outcome.refuses (rw (k1, k2, k, other))
            ]
            | inr k3 ↦ elim (Bool-cases (code == 4)) [
              | inl k ↦ elim (Bool-cases (ltb max_payload_size n)) [
                | inl big ↦ Outcome.refuses (rw (k1, k2, k3, k, big))
                | inr small ↦
                    Outcome.fills (kind_of code 4 n k (HasKind.chunk n (fits n small))) (λ d. d)
                      (λ d. refl) (rw (k1, k2, k3, k, small))
              ]
              | inr k4 ↦ elim (Bool-cases (code == 5)) [
                | inl k ↦ elim (Bool-cases (n == 0)) [
                  | inl size ↦
                      Outcome.bare (kind_of code 5 n k (sized 5 n 0 size HasKind.credit))
                        (rw (k1, k2, k3, k4, k, size))
                  | inr other ↦ Outcome.refuses (rw (k1, k2, k3, k4, k, other))
                ]
                | inr k5 ↦ Outcome.refuses (rw (k1, k2, k3, k4, k5))
              ]
            ]
          ]
        ]
      ]

  body_ok :
      (pending : List ℕ) (msg : Comsg)
      → (recv_body give pending msg).2 ≡ true
      → IsAccepted (recv_body give pending msg).1
  body_ok pending msg e = elim (outcome pending msg) [
    | Outcome.refuses run ↦ let bad : false ≡ true = rw run at e in cc
    | Outcome.bare k run ↦ rw run (check_ok pending msg (rw run at e) k)
    | Outcome.fills k to_host same run ↦ rw run (details_ok pending msg to_host (rw run at e) k)
  ]

  details_in :
      (pending : List ℕ) (msg : Comsg) (to_host : List ℕ → List ℕ)
      → ((d : List ℕ) → length (to_host d) ≡ length d)
      → msg.hdr.pldsize ≤ length msg.details
      → length (recv_details give pending msg to_host).1.details ≡ length msg.details
  unfolding recv_details read_details proto_read check_crc
  details_in pending msg to_host same room =
      let got : List ℕ = (proto_read give pending msg.hdr.pldsize).0 in
      let short : length got ≤ msg.hdr.pldsize =
        omega (arith, length-take (min (give pending msg.hdr.pldsize) msg.hdr.pldsize) pending) in
      let kept : length (got ++ drop (length got) msg.details) ≡ length msg.details = omega (
        arith,
        length-append got (drop (length got) msg.details),
        length-drop (length got) msg.details,
      ) in
      elim (Bool-cases (length got == msg.hdr.pldsize)) [
        | inl whole ↦ rw whole (same _ ∙ kept)
        | inr part ↦ rw part kept
      ]

  body_in :
      (pending : List ℕ) (msg : Comsg)
      → max_payload_size ≤ length msg.details
      → length (recv_body give pending msg).1.details ≡ length msg.details
  unfolding check_crc
  body_in pending msg room = elim (outcome pending msg) [
    | Outcome.refuses run ↦ rw run
    | Outcome.bare k run ↦ rw run
    | Outcome.fills k to_host same run ↦
        rw run (details_in pending msg to_host same (omega (arith, HasKind-le k)))
  ]

  -- Whatever bytes come and however many a call delivers, a message that is received without an
  -- error is of one of the five kinds, has a payload size that this kind can have, and a header
  -- and payload that its CRC matches.
  pub recv_msg-IsAccepted :
      (pending : List ℕ) (msg : Comsg)
      → (recv_msg give pending msg).2 ≡ true
      → IsAccepted (recv_msg give pending msg).1
  unfolding recv_msg
  recv_msg-IsAccepted pending msg e = elim (Bool-cases (proto_read give pending 12).2) [
    | inl whole ↦ rw whole (body_ok _ _ (rw whole at e))
    | inr part ↦ let bad : false ≡ true = rw part at e in cc
  ]

  -- Whatever bytes come and however many a call delivers, no receive, failed or not, writes behind
  -- the bytes of details that a message has in memory.
  pub recv_msg-in_bounds :
      (pending : List ℕ) (msg : Comsg)
      → length msg.details ≡ max_payload_size
      → length (recv_msg give pending msg).1.details ≡ max_payload_size
  unfolding recv_msg
  recv_msg-in_bounds pending msg e = elim (Bool-cases (proto_read give pending 12).2) [
    | inl whole ↦ rw whole (body_in _ _ (omega arith) ∙ e)
    | inr part ↦ rw part e
  ]
