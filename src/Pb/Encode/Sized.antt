-- ===== src/Pb/Encode/Sized.antt =====
-- What the parts of a table of fields cost, the sizes of packed arrays included.
use cuttle.Prelude.{
  ℕ, ◌+◌, ◌*◌, ◌^◌, ◌<◌, ◌≡◌, refl, ap, List, [], ◌∷◌, Option, some, true, ltb, length, arith, inl,
  inr, Bool-cases, ◌>>=◌,
}
use cuttle.Cc.Array.{Array}
use cuttle.Cc.Array.Model.{contents}
use cuttle.Pb.{FieldType, WireType, Value, Nanopb, wire_type, type_packable}
use cuttle.Pb.Encode.{
  AllocType, Field, Message, Streams, field_has_data, size_for, encode_scalar, encode_tagged,
  encode_items, packed_size, packed_data, encode_packed, encode_array, encode_field, encode,
}
use cuttle.Pb.Encode.Costs.{Costs, nothing-Costs, same-Costs, then-Costs}

-- The sizes of words.
abbrev pub IsFixed : WireType → ℕ → Type 0
IsFixed WireType.bits32 k = k ≡ 4
IsFixed WireType.bits64 k = k ≡ 8
IsFixed WireType.varint k = Unit
IsFixed WireType.string k = Unit

-- What nanopb says of its streams, and what the encoders of single values do on them: a call puts
-- the same number of bytes on each stream, and fails on none that has room. `limit` is `max_size`.
pub record IsSized {Out : Type 0} {In : Type 0} {M : Type 0} (nano : Nanopb Out In)
    (streams : Streams Out) (func : (t : FieldType) → Out → Value M t → Option Out)
    (limit : Out → ℕ) : Type 0 where
  pub tag : (w : WireType) (n : ℕ) → (k : ℕ) × Costs streams limit (λ o. streams.encode_tag o w n) k
  pub varint : (n : ℕ) → (k : ℕ) × Costs streams limit (λ o. nano.encode_varint o n) k
  pub value :
      (t : FieldType) (v : Value M t)
      → (k : ℕ) × Costs streams limit (λ o. func t o v) k × IsFixed (wire_type t) k
  pub null :
      (o : Out) (n : ℕ)
      → streams.sizing o ≡ true
      → (o' : Out) × (streams.null o n ≡ some o')
        × (streams.written o' ≡ streams.written o + n)
        × (limit o' ≡ limit o)
        × (streams.sizing o' ≡ streams.sizing o)
  pub counts : (streams.sizing streams.counter ≡ true) × (streams.written streams.counter ≡ 0)
  pub buffer :
      (n : ℕ) → (streams.written (streams.from_buffer n) ≡ 0) × (limit (streams.from_buffer n) ≡ n)

module _ {Out : Type 0} {In : Type 0} {M : Type 0} (nano : Nanopb Out In) (streams : Streams Out)
    (func : (t : FieldType) → Out → Value M t → Option Out) (limit : Out → ℕ)
    (sized : IsSized nano streams func limit) where
  abbrev pub Costly : (Out → Option Out) → Type 0
  Costly f = (k : ℕ) × Costs streams limit f k

  then-Costly : (f g : Out → Option Out) → Costly f → Costly g → Costly (λ o. f o >>= (λ o'. g o'))
  then-Costly f g (a, first) (b, next) = (a + b, then-Costs streams limit f g a b first next)

  scalar-Costly :
      (t : FieldType) (tag : ℕ) (v : Value M t) → Costly (encode_scalar nano streams func t tag v)
  unfolding encode_scalar
  scalar-Costly t tag v =
      let (k, costs, fixed) = sized.value t v in
      then-Costly (λ o. streams.encode_tag o (wire_type t) tag) (λ o. func t o v)
        (sized.tag (wire_type t) tag) (k, costs)

  tagged-Costly :
      (t : FieldType) (tag : ℕ) (vs : List (Value M t))
      → Costly (encode_tagged nano streams func t tag vs)
  unfolding encode_tagged
  tagged-Costly t tag [] = (0, nothing-Costs streams limit)
  tagged-Costly t tag (v ∷ vs) =
      then-Costly (encode_scalar nano streams func t tag v)
        (encode_tagged nano streams func t tag vs) (scalar-Costly t tag v) (tagged-Costly t tag vs)

  total : (t : FieldType) → List (Value M t) → ℕ
  total t [] = 0
  total t (v ∷ vs) = (sized.value t v).0 + total t vs

  items-Costs :
      (t : FieldType) (vs : List (Value M t))
      → Costs streams limit (encode_items nano streams func t vs) (total t vs)
  unfolding encode_items total
  items-Costs t [] = nothing-Costs streams limit
  items-Costs t (v ∷ vs) =
      let (k, costs, fixed) = sized.value t v in
      then-Costs streams limit (λ o. func t o v) (encode_items nano streams func t vs) k
        (total t vs) costs (items-Costs t vs)

  counted :
      (t : FieldType) (vs : List (Value M t))
      → (encode_items nano streams func t vs streams.counter >>= (λ o. some (streams.written o)))
        ≡ some (total t vs)
  counted t vs =
      let (o, run, more, bound, mode) = items-Costs t vs streams.counter (inl sized.counts.0) in
      rw run (ap some (omega (arith, more, sized.counts.1)))

  -- Words of `size` bytes each.
  words_total :
      (t : FieldType) (size : ℕ) (vs : List (Value M t))
      → ((v : Value M t) → (sized.value t v).0 ≡ size)
      → total t vs ≡ size * length vs
  unfolding total
  words_total t size [] each = omega arith
  words_total t size (v ∷ vs) each = grind (arith, each v, words_total t size vs each)

  size_lem :
      (t : FieldType) (vs : List (Value M t)) (w : WireType)
      → ((v : Value M t) → IsFixed w (sized.value t v).0)
      → length vs < 2 ^ 61
      → size_for w (length vs) (some (total t vs)) ≡ some (total t vs)
  unfolding size_for
  size_lem t vs WireType.varint each short = refl
  size_lem t vs WireType.string each short = refl
  size_lem t vs WireType.bits32 each short =
      let words : total t vs ≡ 4 * length vs = words_total t 4 vs each in
      ap some (omega (arith, words))
  size_lem t vs WireType.bits64 each short =
      let words : total t vs ≡ 8 * length vs = words_total t 8 vs each in
      ap some (omega (arith, words))

  packed_size_lem :
      (t : FieldType) (vs : List (Value M t))
      → length vs < 2 ^ 61
      → packed_size nano streams func t vs ≡ some (total t vs)
  unfolding packed_size
  packed_size_lem t vs short =
      rw (counted t vs) (size_lem t vs (wire_type t) (λ v. (sized.value t v).2) short)

  data-Costs :
      (t : FieldType) (vs : List (Value M t))
      → Costs streams limit (packed_data nano streams func t vs (total t vs)) (total t vs)
  unfolding packed_data
  data-Costs t vs o room = elim (Bool-cases (streams.sizing o)) [
    | inl counts ↦
        let (o', run, more, bound, mode) = sized.null o (total t vs) counts in
        (o', rw counts run, more, bound, mode)
    | inr writes ↦
        let (o', run, more, bound, mode) = items-Costs t vs o room in
        (o', rw writes run, more, bound, mode)
  ]

  packed_same :
      (t : FieldType) (tag : ℕ) (vs : List (Value M t)) (n : ℕ)
      → packed_size nano streams func t vs ≡ some n
      → (o : Out)
      → encode_packed nano streams func t tag vs o ≡ (
          streams.encode_tag o WireType.string tag
          >>= (λ o'. nano.encode_varint o' n >>= (λ o''. packed_data nano streams func t vs n o'')))
  unfolding encode_packed
  packed_same t tag vs n size o = rw (size, encode_packed) refl

  packed-Costly :
      (t : FieldType) (tag : ℕ) (vs : List (Value M t))
      → length vs < 2 ^ 61
      → Costly (encode_packed nano streams func t tag vs)
  packed-Costly t tag vs short =
      let n : ℕ = total t vs in
      let body : Out → Option Out = packed_data nano streams func t vs n in
      let rest : Out → Option Out = λ o. nano.encode_varint o n >>= (λ o'. body o') in
      let (k, costs) =
        then-Costly (λ o. streams.encode_tag o WireType.string tag) rest
          (sized.tag WireType.string tag)
          (then-Costly (λ o. nano.encode_varint o n) body (sized.varint n) (n, data-Costs t vs)) in
      (
        k,
        same-Costs streams limit (encode_packed nano streams func t tag vs) _ k
            (packed_same t tag vs n (packed_size_lem t vs short)) costs,
      )

  -- No array is so long that the size of its items in bytes wraps.
  abbrev pub IsShort : List Field → Message M → Type 0
  IsShort [] msg = Unit
  IsShort (f ∷ fs) msg =
      (length (contents (msg.items f.pbtype f.item_offset)) < 2 ^ 61) × IsShort fs msg

  array-Costly :
      (t : FieldType) (tag : ℕ) (a : Array (Value M t))
      → length (contents a) < 2 ^ 61
      → Costly (encode_array nano streams func t tag a)
  unfolding encode_array
  array-Costly t tag a short = elim (Bool-cases (ltb a.size 1)) [
    | inl none_there ↦ (
      0,
      same-Costs streams limit _ some 0 (λ o. rw none_there refl) (nothing-Costs streams limit),
    )
    | inr some_there ↦ elim (Bool-cases (type_packable t)) [
      | inl packs ↦
          let (k, costs) = packed-Costly t tag (contents a) short in
          (
            k,
            same-Costs streams limit _ (encode_packed nano streams func t tag (contents a)) k
                (λ o. rw (some_there, packs) refl) costs,
          )
      | inr single ↦
          let (k, costs) = tagged-Costly t tag (contents a) in
          (
            k,
            same-Costs streams limit _ (encode_tagged nano streams func t tag (contents a)) k
                (λ o. rw (some_there, single) refl) costs,
          )
    ]
  ]

  field-Costly :
      (f : Field) (msg : Message M)
      → length (contents (msg.items f.pbtype f.item_offset)) < 2 ^ 61
      → Costly (encode_field nano streams func f msg)
  unfolding encode_field
  field-Costly f msg short =
      elim f.alloctype
        as (λ a. Costly (λ o. elim a [
          | AllocType.array ↦
              encode_array nano streams func f.pbtype f.tag (msg.items f.pbtype f.item_offset) o
          | _ ↦ encode_scalar nano streams func f.pbtype f.tag (msg.value f.pbtype f.item_offset) o
        ])) [
          | AllocType.array ↦ array-Costly f.pbtype f.tag (msg.items f.pbtype f.item_offset) short
          | _ ↦ scalar-Costly f.pbtype f.tag (msg.value f.pbtype f.item_offset)
        ]

  pub encode-Costly :
      (fs : List Field) (msg : Message M)
      → IsShort fs msg
      → Costly (encode nano streams func fs msg)
  unfolding encode
  encode-Costly [] msg short = (0, nothing-Costs streams limit)
  encode-Costly (f ∷ fs) msg short =
      let (n, rest) = encode-Costly fs msg short.1 in
      elim (Bool-cases (field_has_data f msg)) [
        | inl has ↦
            let (k, costs) =
              then-Costly (encode_field nano streams func f msg) (encode nano streams func fs msg)
                (field-Costly f msg short.0) (n, rest) in
            (k, same-Costs streams limit _ _ k (λ o. rw has refl) costs)
        | inr no_data ↦ (n, same-Costs streams limit _ _ n (λ o. rw no_data refl) rest)
      ]
