-- ===== src/Corpc/Channel/Heap.antt =====
-- A write to the memory of the streams, seen at its address and elsewhere.
use cuttle.Prelude.{ℕ, ◌≡◌, ◌≢◌, arith}
use cuttle.Corpc.Channel.{Stream, put}

pub put_here : (heap : ℕ → Stream) (p : ℕ) (st : Stream) → put heap p st p ≡ st
unfolding put
put_here heap p st = ground arith

pub put_there : (heap : ℕ → Stream) (p q : ℕ) (st : Stream) → q ≢ p → put heap p st q ≡ heap q
unfolding put
put_there heap p q st ne = ground arith
