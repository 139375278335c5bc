-- ===== src/Cc/Pool.antt =====
-- include/cuttle/ccheap.h, a pool of equal blocks whose free blocks stand in a queue. A block is
-- named by its number in the pool. `none` as an outer result is an access outside the queue's block.
pub mod Ownership
pub mod Safety
use cuttle.Prelude.{ℕ, zero, suc, List, Option, none, some, Bool, true, false, ◌>>=◌}
use cuttle.Cc.Fifo
use cuttle.Cc.Fifo.{Fifo}

pub record Pool : Type 0 where
  pub blocks : Bool
  pub fifo : Fifo ℕ

-- `memset` to 0.
abbrev pub zeroed : Fifo ℕ
zeroed = record { items = List.[]; capacity = 0; size = 0; item_size = 0; first = 0; last = 0 }

-- `for ( i = 0; i < max_blocks; ++i )` pushes block `max_blocks - i - 1`; `left` is `max_blocks - i`.
fill : ℕ → Fifo ℕ → Option (Fifo ℕ)
fill zero q = some q
fill (suc left) q = Fifo.push q left >>= (λ r. fill left r.0)

-- What `init` does with the result of `ccfifo_init`.
init_with : ℕ → Fifo ℕ × Bool → Option (Pool × Bool)
unfolding fill
init_with max_blocks (q, false) = some (record { blocks = false; fifo = Fifo.cleanup q }, false)
init_with max_blocks (q, true) =
    fill max_blocks q >>= (λ q'. some (record { blocks = true; fifo = q' }, true))

-- The first flag says whether `malloc` gives the blocks; the function is the `malloc` of the queue.
pub init : Bool → (ℕ → Option (List ℕ)) → ℕ → Option (Pool × Bool)
unfolding init_with
init false malloc max_blocks = some (record { blocks = false; fifo = Fifo.cleanup zeroed }, false)
init true malloc max_blocks = init_with max_blocks (Fifo.init malloc zeroed max_blocks 8)

pub cleanup : Pool → Pool
cleanup h = record { blocks = false; fifo = Fifo.cleanup h.fifo }

-- The null pointer, for which `errno` is set to ENOMEM, is an inner `none`.
unfoldable pub alloc : Pool → Option (Pool × Option ℕ)
alloc h = Fifo.ppop h.fifo >>= (λ r. some (record h { fifo = r.0 }, r.1))

unfoldable pub free : Pool → ℕ → Option Pool
free h block = Fifo.push h.fifo block >>= (λ r. some (record h { fifo = r.0 }))

abbrev pub is_empty : Pool → Bool
is_empty h = Fifo.is_empty h.fifo
