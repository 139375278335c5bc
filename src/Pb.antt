-- ===== src/Pb.antt =====
-- src/pb/cuttle-pb.c and include/cuttle/pb/pb.h: the types of fields, and their values on the wire.
-- The calls of nanopb are a parameter.
pub mod RoundTrip
pub mod Packed
pub mod Encode
use cuttle.Prelude.{
  ℕ, zero, suc, ◌+◌, ◌^◌, List, Option, none, some, Bool, true, false, not, ltb, ◌==◌,
  if◌then◌else◌,
}
use cuttle.Prelude.Int.{ℤ}
use cuttle.Cc.Memory.{add_size}
use cuttle.Corpc.Channel.Request.{text}

-- `cf_pb_field_type`
pub data FieldType : Type 0 where
  int32 : FieldType
  uint32 : FieldType
  int64 : FieldType
  uint64 : FieldType
  fixed32 : FieldType
  sfixed32 : FieldType
  fixed64 : FieldType
  sfixed64 : FieldType
  float : FieldType
  double : FieldType
  bool : FieldType
  string : FieldType
  bytes : FieldType
  message : FieldType

-- `pb_wire_type_t`, of nanopb.
pub data WireType : Type 0 where
  varint : WireType
  bits64 : WireType
  string : WireType
  bits32 : WireType

unfoldable pub wire_type : FieldType → WireType
wire_type FieldType.int32 = WireType.varint
wire_type FieldType.uint32 = WireType.varint
wire_type FieldType.int64 = WireType.varint
wire_type FieldType.uint64 = WireType.varint
wire_type FieldType.fixed32 = WireType.bits32
wire_type FieldType.sfixed32 = WireType.bits32
wire_type FieldType.fixed64 = WireType.bits64
wire_type FieldType.sfixed64 = WireType.bits64
wire_type FieldType.float = WireType.bits32
wire_type FieldType.double = WireType.bits64
wire_type FieldType.bool = WireType.varint
wire_type FieldType.string = WireType.string
wire_type FieldType.bytes = WireType.string
wire_type FieldType.message = WireType.string

unfoldable pub type_packable : FieldType → Bool
type_packable FieldType.int32 = true
type_packable FieldType.uint32 = true
type_packable FieldType.int64 = true
type_packable FieldType.uint64 = true
type_packable FieldType.fixed32 = true
type_packable FieldType.sfixed32 = true
type_packable FieldType.fixed64 = true
type_packable FieldType.sfixed64 = true
type_packable FieldType.float = false
type_packable FieldType.double = false
type_packable FieldType.bool = false
type_packable FieldType.string = false
type_packable FieldType.bytes = false
type_packable FieldType.message = false

-- The calls of nanopb on its streams `Out` and `In`; `none` is its `false`. A decoder that fails has
-- read as much as the stream says that it gives.
pub record Nanopb (Out In : Type 0) : Type 0 where
  pub encode_varint : Out → ℕ → Option Out
  pub encode_svarint : Out → ℤ → Option Out
  pub encode_fixed32 : Out → ℕ → Option Out
  pub encode_fixed64 : Out → ℕ → Option Out
  pub encode_string : Out → List ℕ → Option Out
  pub decode_varint : In → Option ℕ × In
  pub decode_svarint : In → Option ℤ × In
  pub decode_fixed32 : In → Option ℕ × In
  pub decode_fixed64 : In → Option ℕ × In
  pub read : In → ℕ → Option (List ℕ) × In
  pub bytes_left : In → ℕ

-- What stands in memory for a value of each type; `M` is for nested messages. Words of fixed size,
-- floating point numbers too, are their bits. A string is what stands before its final 0.
abbrev pub Value : Type 0 → FieldType → Type 0
Value M FieldType.int32 = ℤ
Value M FieldType.uint32 = ℕ
Value M FieldType.int64 = ℤ
Value M FieldType.uint64 = ℕ
Value M FieldType.fixed32 = ℕ
Value M FieldType.sfixed32 = ℕ
Value M FieldType.fixed64 = ℕ
Value M FieldType.sfixed64 = ℕ
Value M FieldType.float = ℕ
Value M FieldType.double = ℕ
Value M FieldType.bool = Bool
Value M FieldType.string = List ℕ
Value M FieldType.bytes = List ℕ
Value M FieldType.message = M

abbrev pub of_flag : Bool → ℕ
of_flag true = 1
of_flag false = 0

-- `val >= INT32_MIN && val <= INT32_MAX`
unfoldable pub in_int32 : ℤ → Bool
in_int32 (ℤ.pos n) = ltb n (2 ^ 31)
in_int32 (ℤ.negsuc n) = ltb n (2 ^ 31)

unfoldable pub checked_int32 : Option ℤ → Option ℤ
unfolding in_int32
checked_int32 none = none
checked_int32 (some z) = if in_int32 z then some z else none

-- `val <= UINT32_MAX`
unfoldable pub checked_uint32 : Option ℕ → Option ℕ
checked_uint32 none = none
checked_uint32 (some n) = if ltb n (2 ^ 32) then some n else none

unfoldable pub checked_bool : Option ℕ → Option Bool
checked_bool none = none
checked_bool (some n) = some (not (n == 0))

-- `malloc` says for which sizes there is memory, and `encode_submessage` and `decode_submessage` are
-- for the table of fields of a nested message.
module _ {Out : Type 0} {In : Type 0} {M : Type 0} (nano : Nanopb Out In) (malloc : ℕ → Bool)
    (encode_submessage : Out → M → Option Out) (decode_submessage : In → Option M × In) where
  abbrev pub encode_int32 : Out → ℤ → Option Out
  encode_int32 o v = nano.encode_svarint o v

  abbrev pub encode_uint32 : Out → ℕ → Option Out
  encode_uint32 o v = nano.encode_varint o v

  abbrev pub encode_int64 : Out → ℤ → Option Out
  encode_int64 o v = nano.encode_svarint o v

  abbrev pub encode_uint64 : Out → ℕ → Option Out
  encode_uint64 o v = nano.encode_varint o v

  abbrev pub encode_fixed32 : Out → ℕ → Option Out
  encode_fixed32 o v = nano.encode_fixed32 o v

  abbrev pub encode_fixed64 : Out → ℕ → Option Out
  encode_fixed64 o v = nano.encode_fixed64 o v

  abbrev pub encode_bool : Out → Bool → Option Out
  encode_bool o v = nano.encode_varint o (of_flag v)

  abbrev pub encode_float : Out → ℕ → Option Out
  encode_float o v = nano.encode_fixed32 o v

  abbrev pub encode_double : Out → ℕ → Option Out
  encode_double o v = nano.encode_fixed64 o v

  abbrev pub encode_string : Out → List ℕ → Option Out
  encode_string o v = nano.encode_string o (text v)

  abbrev pub encode_bytes : Out → List ℕ → Option Out
  encode_bytes o v = nano.encode_string o v

  -- `cf_pb_decode_string`, when the size has been read: the block has room for a final 0.
  unfoldable pub read_string : Option ℕ × In → Option (List ℕ) × In
  read_string (none, i) = (none, i)
  read_string (some size, i) =
      let alloc_size = add_size size 1 in
      if ltb alloc_size size
      then (none, i)
      else if malloc alloc_size
      then nano.read i size
      else (none, i)

  -- `cf_pb_decode_bytes`, when the size has been read.
  unfoldable pub read_bytes : Option ℕ × In → Option (List ℕ) × In
  read_bytes (none, i) = (none, i)
  read_bytes (some size, i) =
      if ltb 65536 size then (none, i) else if malloc size then nano.read i size else (none, i)

  abbrev pub decode_int32 : In → Option ℤ × In
  decode_int32 i = let r = nano.decode_svarint i in (checked_int32 r.0, r.1)

  abbrev pub decode_uint32 : In → Option ℕ × In
  decode_uint32 i = let r = nano.decode_varint i in (checked_uint32 r.0, r.1)

  abbrev pub decode_int64 : In → Option ℤ × In
  decode_int64 i = nano.decode_svarint i

  abbrev pub decode_uint64 : In → Option ℕ × In
  decode_uint64 i = nano.decode_varint i

  abbrev pub decode_fixed32 : In → Option ℕ × In
  decode_fixed32 i = nano.decode_fixed32 i

  abbrev pub decode_fixed64 : In → Option ℕ × In
  decode_fixed64 i = nano.decode_fixed64 i

  abbrev pub decode_bool : In → Option Bool × In
  decode_bool i = let r = nano.decode_varint i in (checked_bool r.0, r.1)

  abbrev pub decode_float : In → Option ℕ × In
  decode_float i = nano.decode_fixed32 i

  abbrev pub decode_double : In → Option ℕ × In
  decode_double i = nano.decode_fixed64 i

  abbrev pub decode_string : In → Option (List ℕ) × In
  decode_string i = read_string (nano.decode_varint i)

  abbrev pub decode_bytes : In → Option (List ℕ) × In
  decode_bytes i = read_bytes (nano.decode_varint i)

  -- The encoder that `cf_pb_encfunc` chooses, and the decoder that `cf_pb_decfunc` does.
  unfoldable pub encode_value : (t : FieldType) → Out → Value M t → Option Out
  encode_value FieldType.int32 o v = encode_int32 o v
  encode_value FieldType.uint32 o v = encode_uint32 o v
  encode_value FieldType.int64 o v = encode_int64 o v
  encode_value FieldType.uint64 o v = encode_uint64 o v
  encode_value FieldType.fixed32 o v = encode_fixed32 o v
  encode_value FieldType.sfixed32 o v = encode_fixed32 o v
  encode_value FieldType.fixed64 o v = encode_fixed64 o v
  encode_value FieldType.sfixed64 o v = encode_fixed64 o v
  encode_value FieldType.float o v = encode_float o v
  encode_value FieldType.double o v = encode_double o v
  encode_value FieldType.bool o v = encode_bool o v
  encode_value FieldType.string o v = encode_string o v
  encode_value FieldType.bytes o v = encode_bytes o v
  encode_value FieldType.message o v = encode_submessage o v

  unfoldable pub decode_value : (t : FieldType) → In → Option (Value M t) × In
  decode_value FieldType.int32 i = decode_int32 i
  decode_value FieldType.uint32 i = decode_uint32 i
  decode_value FieldType.int64 i = decode_int64 i
  decode_value FieldType.uint64 i = decode_uint64 i
  decode_value FieldType.fixed32 i = decode_fixed32 i
  decode_value FieldType.sfixed32 i = decode_fixed32 i
  decode_value FieldType.fixed64 i = decode_fixed64 i
  decode_value FieldType.sfixed64 i = decode_fixed64 i
  decode_value FieldType.float i = decode_float i
  decode_value FieldType.double i = decode_double i
  decode_value FieldType.bool i = decode_bool i
  decode_value FieldType.string i = decode_string i
  decode_value FieldType.bytes i = decode_bytes i
  decode_value FieldType.message i = decode_submessage i
