-- ===== src/Tests/Arrays.antt =====
-- Runs of include/cuttle/ccarray.h on small arrays.
use Prim.Native.Nat.{Ordering}
use cuttle.Prelude.{
  ℕ, ◌*◌, ◌/◌, ◌≤◌, ◌≡◌, refl, List, [], ◌∷◌, ◌++◌, Option, none, some, Bool, true, false, arith,
  ◌==◌, ltb, if◌then◌else◌, get_elem?, length, take,
}
use cuttle.Cc.Array.{
  Array, init, lower_bound, cleanup, create, realloc, resize, size_of, capacity_of, clear, pclear,
  sort, peek, set_size,
}
use cuttle.Cc.Array.Model.{contents, IsValid}
use cuttle.Cc.Array.LowerBound.{IsSorted, Without, AllBefore, lower_bound_lem}

-- Four numbers in a block for five.
abbrev numbers : Array ℕ
numbers = record { items = 3 ∷ 5 ∷ 5 ∷ 9 ∷ 0 ∷ []; capacity = 5; size = 4; item_size = 8 }

numbers-IsValid : IsValid numbers
numbers-IsValid = record { fits = omega arith; block = omega arith; word = omega arith }

abbrev cells : List ℕ
cells = 0 ∷ 0 ∷ []

abbrev malloc : ℕ → Option (List ℕ)
malloc n = if n == 16 then some cells else none

abbrev five : ℕ → Bool
five x = x == 5

malloc_enough : (n : ℕ) (b : List ℕ) → malloc n ≡ some b → n ≤ length b * 8
malloc_enough n b e = ground (arith, cells_lem n b e)
  where
    cells_lem : (n : ℕ) (b : List ℕ) → malloc n ≡ some b → (n ≡ 16) × (b ≡ cells)
    cells_lem n b e = ground arith

-- `realloc` to at most four cells.
abbrev again : List ℕ → ℕ → Option (List ℕ)
again b n = if ltb 32 n then none else some (take (n / 8) (b ++ (0 ∷ 0 ∷ 0 ∷ 0 ∷ [])))

abbrev no_array : Option (Array ℕ)
no_array = none

life_runs :
    (create malloc true 2 8
      ≡ some (record { items = cells; capacity = 2; size = 0; item_size = 8 }))
    × (create malloc false 2 8 ≡ none)
    × (create malloc true 3 8 ≡ none)
    × (init malloc no_array 2 8 ≡ none)
    × (size_of (some numbers) ≡ 4)
    × (capacity_of (some numbers) ≡ 5)
    × (size_of (some (cleanup numbers)) ≡ 4)
unfolding create init size_of capacity_of cleanup
life_runs = (refl, refl, refl, refl, refl, refl, refl)

size_runs :
    ((realloc again numbers 2).0 ≡ record numbers { items = 3 ∷ 5 ∷ []; capacity = 2; size = 2 })
    × ((realloc again numbers 9).1 ≡ 5)
    × ((resize again numbers 4).1 ≡ 4)
    × ((resize again numbers 9).1 ≡ 4)
    × ((set_size numbers 9).1 ≡ 9)
    × ((pclear numbers).0 ≡ 3 ∷ 5 ∷ 5 ∷ 9 ∷ [])
    × (contents (clear numbers) ≡ [])
unfolding realloc resize set_size pclear clear
size_runs = (refl, refl, refl, refl, refl, refl, refl)

item_runs : (peek numbers 3 ≡ some 9) × (contents (sort (λ b. b) numbers 1 3) ≡ contents numbers)
unfolding peek sort
item_runs = (refl, refl)

-- The comparison with `value`, as a client writes it.
abbrev cmp : ℕ → ℕ → Ordering
cmp x value =
    if ltb x value then Ordering.lt else (if ltb value x then Ordering.gt else Ordering.eq)

abbrev table : List ℕ
table = 3 ∷ 9 ∷ []

abbrev sorted : Array ℕ
sorted = record { items = table; capacity = 2; size = 2; item_size = 8 }

sorted-IsValid : IsValid sorted
sorted-IsValid = record { fits = omega arith; block = omega arith; word = omega arith }

at_0 : (i x : ℕ) → i ≡ 0 → get_elem? table i ≡ some x → x ≡ 3
at_0 i x e at = cc

at_1 : (i x : ℕ) → i ≡ 1 → get_elem? table i ≡ some x → x ≡ 9
at_1 i x e at = cc

table-IsSorted : IsSorted cmp 5 table 0 2
table-IsSorted = record {
  before = λ i j x y l lt h at at' e. let v = at_0 i x (omega arith) at in ground arith;
  after = λ i j x y l lt h at at' e. let v = at_1 j y (omega arith) at' in ground arith;
}

lower_bound_lem_example :
    (r : ℕ) × (lower_bound cmp 5 sorted 0 2 ≡ some r)
    × (0 ≤ r)
    × (r ≤ 2)
    × AllBefore cmp 5 table 0 r
    × Without cmp 5 table Ordering.lt r 2
lower_bound_lem_example =
    lower_bound_lem cmp 5 sorted 0 2 sorted-IsValid (omega arith) (omega arith) table-IsSorted
