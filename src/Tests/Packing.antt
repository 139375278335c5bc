-- ===== src/Tests/Packing.antt =====
-- A message of a number and an array of words, on streams that keep the number of their bytes.
use cuttle.Prelude.{
  ℕ, ◌+◌, ◌≡◌, refl, [], ◌∷◌, Option, none, some, Bool, true, false, leb, ◌==◌, ◌||◌, length, arith,
  inl, inr, if◌then◌else◌,
}
use cuttle.Prelude.Int.{ℤ}
use cuttle.Corpc.Channel.Request.{text}
use cuttle.Pb.{FieldType, Value, Nanopb, wire_type, encode_value}
use cuttle.Pb.Encode.{AllocType, Field, Message, Streams, encode, get_encoded_size, pack}
use cuttle.Pb.Encode.Costs.{Costs}
use cuttle.Pb.Encode.Sized.{IsSized, IsFixed}
use cuttle.Pb.Encode.Packs.{pack_lem}

record Tally : Type 0 where
  counts : Bool
  written : ℕ
  limit : ℕ

abbrev put : ℕ → Tally → Option Tally
put k o =
    if o.counts || leb (o.written + k) o.limit
    then some (record o { written = o.written + k })
    else none

abbrev tally : Nanopb Tally ℕ
tally = record {
  encode_varint = λ o n. put 1 o;
  encode_svarint = λ o z. put 1 o;
  encode_fixed32 = λ o n. put 4 o;
  encode_fixed64 = λ o n. put 8 o;
  encode_string = λ o b. put (1 + length b) o;
  decode_varint = λ i. (none, i);
  decode_svarint = λ i. (none, i);
  decode_fixed32 = λ i. (none, i);
  decode_fixed64 = λ i. (none, i);
  read = λ i n. (none, i);
  bytes_left = λ i. i;
}

abbrev tallies : Streams Tally
tallies = record {
  sizing = λ o. o.counts;
  written = λ o. o.written;
  encode_tag = λ o w n. put 1 o;
  null = λ o n. put n o;
  counter = record { counts = true; written = 0; limit = 0 };
  from_buffer = λ n. record { counts = false; written = 0; limit = n };
}

abbrev limit_of : Tally → ℕ
limit_of o = o.limit

abbrev memory : ℕ → Bool
memory n = true

abbrev one_byte : Tally → ℕ → Option Tally
one_byte o m = put 1 o

abbrev no_nested : ℕ → Option ℕ × ℕ
no_nested i = (none, i)

abbrev func : (t : FieldType) → Tally → Value ℕ t → Option Tally
func = encode_value tally memory one_byte no_nested

put-Costs : (k : ℕ) → Costs tallies limit_of (put k) k
put-Costs k o (inl counts) =
    (record o { written = o.written + k }, rw counts refl, refl, refl, refl)
put-Costs k o (inr fits) =
    let room : leb (o.written + k) o.limit ≡ true = ground arith in
    (record o { written = o.written + k }, rw room (either o.counts), refl, refl, refl)
  where
    either :
        (b : Bool)
        → (if b || true then some (record o { written = o.written + k }) else none)
          ≡ some (record o { written = o.written + k })
    either true = refl
    either false = refl

value_sized :
    (t : FieldType) (v : Value ℕ t)
    → (k : ℕ) × Costs tallies limit_of (λ o. func t o v) k × IsFixed (wire_type t) k
unfolding encode_value wire_type
value_sized FieldType.int32 v = (1, put-Costs 1, tt)
value_sized FieldType.uint32 v = (1, put-Costs 1, tt)
value_sized FieldType.int64 v = (1, put-Costs 1, tt)
value_sized FieldType.uint64 v = (1, put-Costs 1, tt)
value_sized FieldType.fixed32 v = (4, put-Costs 4, refl)
value_sized FieldType.sfixed32 v = (4, put-Costs 4, refl)
value_sized FieldType.fixed64 v = (8, put-Costs 8, refl)
value_sized FieldType.sfixed64 v = (8, put-Costs 8, refl)
value_sized FieldType.float v = (4, put-Costs 4, refl)
value_sized FieldType.double v = (8, put-Costs 8, refl)
value_sized FieldType.bool v = (1, put-Costs 1, tt)
value_sized FieldType.string v = (1 + length (text v), put-Costs (1 + length (text v)), tt)
value_sized FieldType.bytes v = (1 + length v, put-Costs (1 + length v), tt)
value_sized FieldType.message v = (1, put-Costs 1, tt)

tally-IsSized : IsSized tally tallies func limit_of
tally-IsSized = record {
  tag = λ w n. (1, put-Costs 1);
  varint = λ n. (1, put-Costs 1);
  value = value_sized;
  null = λ o n counts. put-Costs n o (inl counts);
  counts = (refl, refl);
  buffer = λ n. (refl, refl);
}

abbrev number : Field
number = record {
  tag = 1;
  pbtype = FieldType.uint32;
  alloctype = AllocType.scalar;
  item_offset = 0;
  has_offset = 65535;
}

abbrev words : Field
words = record {
  tag = 2;
  pbtype = FieldType.fixed32;
  alloctype = AllocType.array;
  item_offset = 8;
  has_offset = 65535;
}

abbrev zero_of : (t : FieldType) → Value ℕ t
zero_of FieldType.int32 = ℤ.pos 0
zero_of FieldType.uint32 = 0
zero_of FieldType.int64 = ℤ.pos 0
zero_of FieldType.uint64 = 0
zero_of FieldType.fixed32 = 0
zero_of FieldType.sfixed32 = 0
zero_of FieldType.fixed64 = 0
zero_of FieldType.sfixed64 = 0
zero_of FieldType.float = 0
zero_of FieldType.double = 0
zero_of FieldType.bool = false
zero_of FieldType.string = []
zero_of FieldType.bytes = []
zero_of FieldType.message = 0

abbrev zeros : Message ℕ
zeros = record {
  word = λ p. 0;
  flag = λ p. false;
  value = λ t p. zero_of t;
  items =
      λ t p. record { items = zero_of t ∷ zero_of t ∷ []; capacity = 2; size = 2; item_size = 4 };
}

pack_lem_example :
    (n : ℕ) × (o : Tally) × (get_encoded_size tally tallies func (number ∷ words ∷ []) zeros
      ≡ some n)
    × (encode tally tallies func (number ∷ words ∷ []) zeros (tallies.from_buffer n) ≡ some o)
    × (o.written ≡ n)
    × (o.limit ≡ n)
    × (pack tally tallies func memory (number ∷ words ∷ []) zeros
        ≡ (if n == 0 then none else some (o, n)))
pack_lem_example =
    pack_lem tally tallies func limit_of tally-IsSized memory (number ∷ words ∷ []) zeros
      (λ n. refl) (omega arith, (omega arith, tt))
