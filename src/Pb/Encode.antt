-- ===== src/Pb/Encode.antt =====
-- The encoding of fields and tables of fields in src/pb/cuttle-pb.c. Arrays have their items in
-- their blocks. What nanopb says of a stream is a parameter.
pub mod Costs
pub mod Sized
pub mod Packs
use cuttle.Prelude.{
  ℕ, zero, suc, ◌+◌, ◌*◌, ◌%◌, ◌^◌, List, [], ◌∷◌, Option, none, some, Bool, true, false, ltb, ◌==◌,
  ◌&&◌, length, if◌then◌else◌, ◌>>=◌,
}
use cuttle.Cc.Array.{Array}
use cuttle.Cc.Array.Model.{contents}
use cuttle.Pb.{FieldType, WireType, Value, Nanopb, wire_type, type_packable, encode_value}

-- `cf_pb_field_alloc_type`
pub data AllocType : Type 0 where
  scalar : AllocType
  array : AllocType
  oneof : AllocType

-- `cf_pb_field_t`; the table of a nested message is not part of it here.
pub record Field : Type 0 where
  pub tag : ℕ
  pub pbtype : FieldType
  pub alloctype : AllocType
  pub item_offset : ℕ
  pub has_offset : ℕ

-- The memory of a message, as it is read at an offset: words and flags, and values and arrays of a
-- type.
pub record Message (M : Type 0) : Type 0 where
  pub word : ℕ → ℕ
  pub flag : ℕ → Bool
  pub value : (t : FieldType) → ℕ → Value M t
  pub items : (t : FieldType) → ℕ → Array (Value M t)

-- `(uint16_t)(-1)`
abbrev pub no_offset : ℕ
no_offset = 65535

unfoldable pub field_has_data : {M : Type 0} → Field → Message M → Bool
field_has_data f msg = elim f.alloctype [
  | AllocType.oneof ↦ msg.word f.has_offset == f.tag
  | _ ↦ if f.has_offset == no_offset then true else msg.flag f.has_offset
]

-- The streams of nanopb: `sizing` says that a stream only counts, `null` is `pb_write` without data,
-- and `counter` is PB_OSTREAM_SIZING.
pub record Streams (Out : Type 0) : Type 0 where
  pub sizing : Out → Bool
  pub written : Out → ℕ
  pub encode_tag : Out → WireType → ℕ → Option Out
  pub null : Out → ℕ → Option Out
  pub counter : Out
  pub from_buffer : ℕ → Out

-- The size of a packed array of `count` items, `counted` being what a count of its bytes gives.
unfoldable pub size_for : WireType → ℕ → Option ℕ → Option ℕ
size_for WireType.bits32 count counted = some ((4 * count) % 2 ^ 64)
size_for WireType.bits64 count counted = some ((8 * count) % 2 ^ 64)
size_for WireType.varint count counted = counted
size_for WireType.string count counted = counted

-- `func` is what `cf_pb_encfunc` gives for each type.
module _ {Out : Type 0} {In : Type 0} {M : Type 0} (nano : Nanopb Out In) (streams : Streams Out)
    (func : (t : FieldType) → Out → Value M t → Option Out) where
  unfoldable pub encode_scalar : (t : FieldType) → ℕ → Value M t → Out → Option Out
  encode_scalar t tag v o = streams.encode_tag o (wire_type t) tag >>= (λ o'. func t o' v)

  -- The loop that gives each item a tag.
  unfoldable pub encode_tagged : (t : FieldType) → ℕ → List (Value M t) → Out → Option Out
  unfolding encode_scalar
  encode_tagged t tag [] o = some o
  encode_tagged t tag (v ∷ vs) o = encode_scalar t tag v o >>= (λ o'. encode_tagged t tag vs o')

  -- The loop that writes the items only, or counts them.
  unfoldable pub encode_items : (t : FieldType) → List (Value M t) → Out → Option Out
  encode_items t [] o = some o
  encode_items t (v ∷ vs) o = func t o v >>= (λ o'. encode_items t vs o')

  -- The total size of a packed array.
  unfoldable pub packed_size : (t : FieldType) → List (Value M t) → Option ℕ
  unfolding encode_items size_for
  packed_size t vs =
      size_for (wire_type t) (length vs)
        (encode_items t vs streams.counter >>= (λ o. some (streams.written o)))

  -- The data, where the stream does not only count.
  unfoldable pub packed_data : (t : FieldType) → List (Value M t) → ℕ → Out → Option Out
  unfolding encode_items
  packed_data t vs size o = if streams.sizing o then streams.null o size else encode_items t vs o

  unfoldable pub encode_packed : (t : FieldType) → ℕ → List (Value M t) → Out → Option Out
  unfolding packed_size packed_data
  encode_packed t tag vs o = streams.encode_tag o WireType.string tag >>= (λ o'.
      packed_size t vs
      >>= (λ size. nano.encode_varint o' size >>= (λ o''. packed_data t vs size o'')))

  unfoldable pub encode_array : (t : FieldType) → ℕ → Array (Value M t) → Out → Option Out
  unfolding encode_tagged encode_packed
  encode_array t tag a o =
      if ltb a.size 1
      then some o
      else if type_packable t
      then encode_packed t tag (contents a) o
      else encode_tagged t tag (contents a) o

  unfoldable pub encode_field : Field → Message M → Out → Option Out
  unfolding encode_scalar encode_array
  encode_field f msg o = elim f.alloctype [
    | AllocType.array ↦ encode_array f.pbtype f.tag (msg.items f.pbtype f.item_offset) o
    | _ ↦ encode_scalar f.pbtype f.tag (msg.value f.pbtype f.item_offset) o
  ]

  -- The table, without its last entry.
  unfoldable pub encode : List Field → Message M → Out → Option Out
  unfolding field_has_data encode_field
  encode [] msg o = some o
  encode (f ∷ fs) msg o =
      if field_has_data f msg
      then encode_field f msg o >>= (λ o'. encode fs msg o')
      else encode fs msg o

  unfoldable pub get_encoded_size : List Field → Message M → Option ℕ
  unfolding encode
  get_encoded_size fs msg = encode fs msg streams.counter >>= (λ o. some (streams.written o))

  -- The stream of a buffer that has been filled, and the size: `none` is the result 0. An empty
  -- buffer that `malloc` has given is freed too.
  unfoldable pub pack : (ℕ → Bool) → List Field → Message M → Option (Out × ℕ)
  unfolding get_encoded_size encode
  pack malloc fs msg = get_encoded_size fs msg >>= (λ size.
      if malloc size
      then encode fs msg (streams.from_buffer size)
        >>= (λ o. if streams.written o == 0 then none else some (o, streams.written o))
      else none)
