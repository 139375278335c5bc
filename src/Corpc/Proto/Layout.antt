-- ===== src/Corpc/Proto/Layout.antt =====
-- The words of a message in memory: a header and its details come back from network order.
use cuttle.Prelude.{
  ℕ, zero, suc, ◌/◌, ◌%◌, ◌^◌, ◌<◌, ◌≡◌, ap, ◌∙◌, List, [], ◌∷◌, ◌++◌, arith, length,
}
use cuttle.Prelude.Words.{
  mem16, load16, swap16, swap32, swap16-swap16, swap32-swap32, swap16-lt, swap32-lt, load16-mem16,
  load32-mem32,
}
use cuttle.Hash.Crc32
use cuttle.Corpc.Proto.{Hdr, mem_hdr, hdr_of, ntohdr, htondr, ntohs_at, calc_crc}

-- Every field fits its word.
pub record IsHdr (h : Hdr) : Type 0 where
  pub crc : h.crc < 2 ^ 32
  pub code : h.code < 2 ^ 16
  pub sid : h.sid < 2 ^ 16
  pub did : h.did < 2 ^ 16
  pub pldsize : h.pldsize < 2 ^ 16

pub Hdr-eq :
    {c c' k k' s s' d d' p p' : ℕ}
    → c ≡ c'
    → k ≡ k'
    → s ≡ s'
    → d ≡ d'
    → p ≡ p'
    → ◌≡◌ {A = Hdr}
        (record { crc = c; code = k; sid = s; did = d; pldsize = p })
        (record { crc = c'; code = k'; sid = s'; did = d'; pldsize = p' })
Hdr-eq c k s d p = rw (c, k, s, d, p)

load16-swap16 : (x : ℕ) → load16 (swap16 x % 256) (swap16 x / 256 % 256) ≡ swap16 x
load16-swap16 x = load16-mem16 (swap16 x) (swap16-lt x)

-- A header in network order in memory reads as the header it was made from.
pub ntohdr-hdr_of : (h : Hdr) → IsHdr h → ntohdr (hdr_of (mem_hdr (htondr h))) ≡ h
unfolding ntohdr hdr_of htondr
ntohdr-hdr_of h r =
    Hdr-eq (ap swap32 (load32-mem32 (swap32 h.crc) (swap32-lt h.crc)) ∙ swap32-swap32 h.crc r.crc)
      (ap swap16 (load16-swap16 h.code) ∙ swap16-swap16 h.code r.code)
      (ap swap16 (load16-swap16 h.sid) ∙ swap16-swap16 h.sid r.sid)
      (ap swap16 (load16-swap16 h.did) ∙ swap16-swap16 h.did r.did)
      (ap swap16 (load16-swap16 h.pldsize) ∙ swap16-swap16 h.pldsize r.pldsize)

cons_eq : {a a' b b' : ℕ} (r : List ℕ) → a ≡ a' → b ≡ b' → a ∷ b ∷ r ≡ a' ∷ b' ∷ r
cons_eq r e f = rw (e, f)

-- The first word behind `i` bytes is brought into host order, and nothing else.
pub ntohs_at-mem16 :
    (i : ℕ) (before : List ℕ) (x : ℕ) (after : List ℕ)
    → length before ≡ i
    → ntohs_at i (before ++ (mem16 (swap16 x) ++ after)) ≡ before ++ (mem16 x ++ after)
unfolding ntohs_at swap16
ntohs_at-mem16 zero [] x after e = cons_eq after (omega arith) (omega arith)
ntohs_at-mem16 zero (b ∷ before) x after e = absurd (omega arith)
ntohs_at-mem16 (suc i) [] x after e = absurd (omega arith)
ntohs_at-mem16 (suc i) (b ∷ before) x after e =
    ap (◌∷◌ b) (ntohs_at-mem16 i before x after (omega arith))

-- The CRC of a message fits its word.
pub calc_crc-lt : (h : Hdr) (payload : List ℕ) → calc_crc h payload < 2 ^ 32
unfolding calc_crc Crc32.finalize
calc_crc-lt h payload = omega arith
