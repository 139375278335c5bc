-- ===== src/Pb/Encode/Packs.antt =====
-- The size that is counted for a message is what is written of it.
use cuttle.Prelude.{
  ℕ, ◌≡◌, refl, ap, ◌∙◌, List, Option, none, some, Bool, true, ◌==◌, arith, inl, inr, if◌then◌else◌,
}
use cuttle.Pb.{FieldType, Value, Nanopb}
use cuttle.Pb.Encode.{Field, Message, Streams, encode, get_encoded_size, pack}
use cuttle.Pb.Encode.Sized.{IsSized, IsShort, encode-Costly}

module _ {Out : Type 0} {In : Type 0} {M : Type 0} (nano : Nanopb Out In) (streams : Streams Out)
    (func : (t : FieldType) → Out → Value M t → Option Out) (limit : Out → ℕ)
    (sized : IsSized nano streams func limit) where
  size_part :
      (fs : List Field) (msg : Message M) (o : Out)
      → encode nano streams func fs msg streams.counter ≡ some o
      → get_encoded_size nano streams func fs msg ≡ some (streams.written o)
  unfolding get_encoded_size
  size_part fs msg o run = rw run refl

  pack_part :
      (malloc : ℕ → Bool) (fs : List Field) (msg : Message M) (n : ℕ) (o : Out)
      → get_encoded_size nano streams func fs msg ≡ some n
      → malloc n ≡ true
      → encode nano streams func fs msg (streams.from_buffer n) ≡ some o
      → streams.written o ≡ n
      → pack nano streams func malloc fs msg ≡ (if n == 0 then none else some (o, n))
  unfolding pack
  pack_part malloc fs msg n o counts memory run all = rw (counts, memory, run, all) refl

  -- Where a call of nanopb puts the same number of bytes on every stream and fails on none with
  -- room for them, the encoders of values do too, there is memory, and no size of an array wraps:
  -- the size that cf_pb_get_encoded_size counts is the number of bytes that cf_pb_encode then
  -- writes into a buffer of this size, which it fills to its end; cf_pb_pack gives this buffer, or
  -- nothing where the message has no bytes.
  pub pack_lem :
      (malloc : ℕ → Bool) (fs : List Field) (msg : Message M)
      → ((n : ℕ) → malloc n ≡ true)
      → IsShort nano streams func limit sized fs msg
      → (n : ℕ) × (o : Out) × (get_encoded_size nano streams func fs msg ≡ some n)
        × (encode nano streams func fs msg (streams.from_buffer n) ≡ some o)
        × (streams.written o ≡ n)
        × (limit o ≡ n)
        × (pack nano streams func malloc fs msg ≡ (if n == 0 then none else some (o, n)))
  pack_lem malloc fs msg memory short =
      let (k, costs) = encode-Costly nano streams func limit sized fs msg short in
      let (c, counts, counted, _, _) = costs streams.counter (inl sized.counts.0) in
      let (empty, room) = sized.buffer k in
      let (o, run, more, bound, _) = costs (streams.from_buffer k) (inr (omega arith)) in
      let all : streams.written o ≡ k = omega arith in
      let size : get_encoded_size nano streams func fs msg ≡ some k =
        size_part fs msg c counts ∙ ap some (omega (arith, counted, sized.counts.1)) in
      (k, o, size, run, all, bound ∙ room, pack_part malloc fs msg k o size (memory k) run all)
