-- ===== src/Corpc/Channel/Thread/Bytes.antt =====
-- A receive that succeeds takes bytes from the socket.
use cuttle.Prelude.{
  ℕ, ◌≤◌, ◌<◌, ◌≡◌, List, true, false, arith, length, length-take, length-drop, take, drop, min,
  ◌==◌, ==_iff, Bool-cases, inl, inr,
}
use cuttle.Corpc.Proto.{
  Comsg, proto_read, read_details, check_crc, recv_details, recv_body, recv_msg,
}
use cuttle.Corpc.Proto.Checks.{Outcome, outcome}

module _ (give : List ℕ → ℕ → ℕ) where
  details_left :
      (pending : List ℕ) (msg : Comsg) (to_host : List ℕ → List ℕ)
      → length (recv_details give pending msg to_host).0 ≤ length pending
  unfolding recv_details read_details proto_read check_crc
  details_left pending msg to_host =
      let n : ℕ = min (give pending msg.hdr.pldsize) msg.hdr.pldsize in
      let less : length (drop n pending) ≤ length pending = omega (arith, length-drop n pending) in
      elim (Bool-cases (length (take n pending) == msg.hdr.pldsize)) [
        | inl whole ↦ rw whole less
        | inr part ↦ rw part less
      ]

  body_left :
      (pending : List ℕ) (msg : Comsg) → length (recv_body give pending msg).0 ≤ length pending
  unfolding check_crc
  body_left pending msg = elim (outcome give pending msg) [
    | Outcome.refuses run ↦ rw run (omega arith)
    | Outcome.bare k run ↦ rw run (omega arith)
    | Outcome.fills k to_host same run ↦ rw run (details_left pending msg to_host)
  ]

  pub recv_msg-shorter :
      (pending : List ℕ) (msg : Comsg)
      → (recv_msg give pending msg).2 ≡ true
      → length (recv_msg give pending msg).0 < length pending
  unfolding recv_msg proto_read
  recv_msg-shorter pending msg e =
      let n : ℕ = min (give pending 12) 12 in
      elim (Bool-cases (length (take n pending) == 12)) [
        | inl whole ↦
            let twelve : length (take n pending) ≡ 12 = (==_iff _ 12).0 whole in
            rw whole (
              omega
                (arith, body_left (drop n pending) _, length-drop n pending, length-take n pending))
        | inr part ↦ let bad : false ≡ true = rw part at e in cc
      ]
