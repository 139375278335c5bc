-- ===== src/Tests/Fields.antt =====
-- Fields on a wire whose cells are numbers of any size.
use cuttle.Prelude.{arith, replicate, length-replicate, length-append, ◌≤◌, ◌<◌, ◌*◌, ◌==◌}
use cuttle.Prelude.{
  ℕ, zero, suc, ◌^◌, ◌≡◌, refl, ap, List, [], ◌∷◌, ◌++◌, Option, none, some, Bool, true, length,
}
use cuttle.Prelude.Int.{ℤ}
use cuttle.Pb.{Nanopb, checked_int32, in_int32}
use cuttle.Cc.Memory.{store, take-append_le}
use cuttle.Cc.Array.{Array, realloc}
use cuttle.Cc.Array.Model.{contents, IsValid}
use cuttle.Pb.Packed.{put_item, grow, fill_more, fill, decode_packed}
use cuttle.Pb.Packed.Grown.{HasMemory}
use cuttle.Pb.Packed.Filled.{Decodes, decode_packed_lem}

abbrev write : List ℕ → ℕ → Option (List ℕ)
write o v = some (o ++ (v ∷ []))

abbrev write_signed : List ℕ → ℤ → Option (List ℕ)
write_signed o (ℤ.pos n) = some (o ++ (0 ∷ n ∷ []))
write_signed o (ℤ.negsuc n) = some (o ++ (1 ∷ n ∷ []))

abbrev write_text : List ℕ → List ℕ → Option (List ℕ)
write_text o b = some (o ++ (length b ∷ b))

abbrev next : List ℕ → Option ℕ × List ℕ
next [] = (none, [])
next (x ∷ xs) = (some x, xs)

abbrev next_signed : List ℕ → Option ℤ × List ℕ
next_signed [] = (none, [])
next_signed (s ∷ []) = (none, [])
next_signed (zero ∷ n ∷ xs) = (some (ℤ.pos n), xs)
next_signed (suc s ∷ n ∷ xs) = (some (ℤ.negsuc n), xs)

abbrev behind : ℕ → Option (List ℕ) × List ℕ → Option (List ℕ) × List ℕ
behind x (none, i) = (none, i)
behind x (some b, i) = (some (x ∷ b), i)

abbrev take_cells : List ℕ → ℕ → Option (List ℕ) × List ℕ
take_cells p zero = (some [], p)
take_cells [] (suc n) = (none, [])
take_cells (x ∷ p) (suc n) = behind x (take_cells p n)

abbrev pub cells : Nanopb (List ℕ) (List ℕ)
cells = record {
  encode_varint = write;
  encode_svarint = write_signed;
  encode_fixed32 = write;
  encode_fixed64 = write;
  encode_string = write_text;
  decode_varint = next;
  decode_svarint = next_signed;
  decode_fixed32 = next;
  decode_fixed64 = next;
  read = take_cells;
  bytes_left = length;
}

abbrev same : List ℕ → List ℕ
same b = b

given : {A : Type 0} (a b : A) → some a ≡ some b → a ≡ b
given a b e = ap (λ (o : Option _). elim o [ none ↦ a | some x ↦ x ]) e

takes : (b rest : List ℕ) → take_cells (b ++ rest) (length b) ≡ (some b, rest)
takes [] rest = refl
takes (x ∷ b) rest = ap (behind x) (takes b rest)

abbrev memory : ℕ → Bool
memory n = true

abbrev no_message : List ℕ → ℕ → Option (List ℕ)
no_message o m = none

abbrev no_nested : List ℕ → Option ℕ × List ℕ
no_nested i = (none, i)

too_large_run : checked_int32 (some (ℤ.pos (2 ^ 31))) ≡ none
unfolding checked_int32 in_int32
too_large_run = refl

-- Blocks of as many cells as asked for, or more.
abbrev again : List ℕ → ℕ → Option (List ℕ)
again b n = some (b ++ replicate n 0)

abbrev block : ℕ → Option (List ℕ)
block n = some (replicate n 0)

again-HasMemory : HasMemory next length again 1
again-HasMemory b n = (
  b ++ replicate n 0,
  refl,
  omega (arith, length-append b (replicate n 0), length-replicate {A = ℕ} n 0),
  λ k h fits. take-append_le k b (replicate n 0) fits,
)

next-shrinks : (i : List ℕ) (v : ℕ) (j : List ℕ) → next i ≡ (some v, j) → length j < length i
next-shrinks [] v j e = let no : ◌≡◌ {A = Option ℕ} none (some v) = ap (λ r. r.0) e in cc
next-shrinks (x ∷ xs) v j e = let same : xs ≡ j = ap (λ r. r.1) e in omega (arith, ap length same)

block-enough : (n : ℕ) (b : List ℕ) → block n ≡ some b → n ≤ length b * 1
block-enough n b e = omega (arith, ap length (given _ b e), length-replicate {A = ℕ} n 0)

abbrev empty : Array ℕ
empty = record { items = []; capacity = 0; size = 0; item_size = 1 }

decode_packed_lem_example :
    (vs : List ℕ) × (j : List ℕ) × (a' : Array ℕ) × Decodes next length again (7 ∷ 8 ∷ []) vs j
    × (decode_packed next length again block 1 3 (7 ∷ 8 ∷ []) empty ≡ some (a', length j == 0))
    × (contents a' ≡ vs)
    × IsValid a'
decode_packed_lem_example =
    decode_packed_lem next length again block 1 (7 ∷ 8 ∷ []) empty (replicate 5 0) next-shrinks
      again-HasMemory block-enough refl (omega arith) (omega arith)

-- Where `realloc` fails on a full array of one cell, the loop goes on, and the next item is written
-- behind the block.
no_memory_run :
    fill next length
      (λ b n. none)
      3
      (7 ∷ 8 ∷ [])
      (record { items = 0 ∷ []; capacity = 1; size = 0; item_size = 1 })
    ≡ none
unfolding fill fill_more put_item grow store realloc
no_memory_run = refl
