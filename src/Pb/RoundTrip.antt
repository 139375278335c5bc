-- ===== src/Pb/RoundTrip.antt =====
-- A value that is encoded is read back.
use cuttle.Prelude.{ℕ, ◌+◌, ◌^◌, ◌≤◌, ◌<◌, ◌≡◌, List, ◌++◌, Option, some, Bool, true, false, length}
use cuttle.Prelude.Int.{ℤ}
use cuttle.Corpc.Channel.Request.{text}
use cuttle.Pb.{FieldType, Value, Nanopb, in_int32}

-- What a call that encodes puts behind the bytes of the stream, a call that decodes reads there.
abbrev pub Reads :
    {Out : Type 0} {In : Type 0} {A : Type 0}
    → (Out → List ℕ)
    → (List ℕ → In)
    → (In → Option A × In)
    → Out
    → A
    → Option Out
    → Type 0
Reads put from decode o v r =
    (o' : _)
    → r ≡ some o'
    → (w : List ℕ) × (put o' ≡ put o ++ w)
      × ((rest : List ℕ) → decode (from (w ++ rest)) ≡ (some v, from rest))

abbrev pub IsInt64 : ℤ → Type 0
IsInt64 (ℤ.pos n) = n < 2 ^ 63
IsInt64 (ℤ.negsuc n) = n < 2 ^ 63

-- What nanopb says of its calls: `put` is what has been written to a stream, and `from` the stream
-- that reads given bytes. A string goes out behind its length.
pub record IsCodec {Out In : Type 0} (nano : Nanopb Out In) (put : Out → List ℕ)
    (from : List ℕ → In) : Type 0 where
  pub varint :
      (o : Out) (v : ℕ)
      → v < 2 ^ 64
      → Reads put from nano.decode_varint o v (nano.encode_varint o v)
  pub svarint :
      (o : Out) (v : ℤ)
      → IsInt64 v
      → Reads put from nano.decode_svarint o v (nano.encode_svarint o v)
  pub fixed32 :
      (o : Out) (v : ℕ)
      → v < 2 ^ 32
      → Reads put from nano.decode_fixed32 o v (nano.encode_fixed32 o v)
  pub fixed64 :
      (o : Out) (v : ℕ)
      → v < 2 ^ 64
      → Reads put from nano.decode_fixed64 o v (nano.encode_fixed64 o v)
  pub string :
      (o : Out) (b : List ℕ) (o' : Out)
      → length b < 2 ^ 64
      → nano.encode_string o b ≡ some o'
      → (w : List ℕ) × (put o' ≡ put o ++ w)
        × ((rest : List ℕ)
            → (i : In) × (nano.decode_varint (from (w ++ rest)) ≡ (some (length b), i))
              × (nano.read i (length b) ≡ (some b, from rest)))

-- The values of each type that a program can hold. A string has no 0 inside.
abbrev pub IsValue : (M : Type 0) (malloc : ℕ → Bool) (t : FieldType) → Value M t → Type 0
IsValue M malloc FieldType.int32 v = in_int32 v ≡ true
IsValue M malloc FieldType.uint32 v = v < 2 ^ 32
IsValue M malloc FieldType.int64 v = IsInt64 v
IsValue M malloc FieldType.uint64 v = v < 2 ^ 64
IsValue M malloc FieldType.fixed32 v = v < 2 ^ 32
IsValue M malloc FieldType.sfixed32 v = v < 2 ^ 32
IsValue M malloc FieldType.fixed64 v = v < 2 ^ 64
IsValue M malloc FieldType.sfixed64 v = v < 2 ^ 64
IsValue M malloc FieldType.float v = v < 2 ^ 32
IsValue M malloc FieldType.double v = v < 2 ^ 64
IsValue M malloc FieldType.bool v = Unit
IsValue M malloc FieldType.string v =
    (text v ≡ v) × (length v + 1 < 2 ^ 64) × (malloc (length v + 1) ≡ true)
IsValue M malloc FieldType.bytes v = (length v ≤ 65536) × (malloc (length v) ≡ true)
IsValue M malloc FieldType.message v = false ≡ true
