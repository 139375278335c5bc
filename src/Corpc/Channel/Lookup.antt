-- ===== src/Corpc/Channel/Lookup.antt =====
-- The look-up of a stream, against the list of the channel's streams.
use cuttle.Prelude.{
  ℕ, zero, suc, ◌+◌, ◌≤◌, ◌≡◌, refl, List, [], ◌∷◌, Option, none, some, Bool-cases, inl, inr, arith,
  ◌==◌, if◌then◌else◌, length, take, drop,
}
use cuttle.Cc.Memory.{get_elem?-lt, drop-get_elem?}
use cuttle.Cc.Array.Model.{contents, IsValid}
use cuttle.Corpc.Channel.{Channel, Stream, find_from, find_stream_by_sid}

-- The first stream of this number.
unfoldable pub lookup : (ℕ → Stream) → ℕ → List ℕ → Option ℕ
lookup heap sid [] = none
lookup heap sid (p ∷ ps) = if (heap p).sid == sid then some p else lookup heap sid ps

find_from_lem :
    (c : Channel) (sid left i : ℕ)
    → i + left ≤ length c.streams.items
    → find_from c sid left i ≡ some (lookup c.heap sid (take left (drop i c.streams.items)))
unfolding find_from lookup
find_from_lem c sid zero i h = refl
find_from_lem c sid (suc left) i h =
    let (p, e) = get_elem?-lt c.streams.items i (omega arith) in
    rw (e, drop-get_elem? i c.streams.items p e)
      (elim (Bool-cases ((c.heap p).sid == sid)) [
        | inl hit ↦ rw hit
        | inr miss ↦ rw (miss, find_from_lem c sid left (i + 1) (omega arith))
      ])

-- On a valid table, find_stream_by_sid finds the first of the streams with the number, or null
-- where there is none, and reads no cell outside the table.
pub find_stream_by_sid_lem :
    (c : Channel) (sid : ℕ)
    → IsValid c.streams
    → find_stream_by_sid c sid ≡ some (lookup c.heap sid (contents c.streams))
unfolding find_stream_by_sid
find_stream_by_sid_lem c sid h = find_from_lem c sid c.streams.size 0 (omega arith)
