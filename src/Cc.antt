-- ===== src/Cc.antt =====
-- The containers of include/cuttle: growable arrays, bounded queues, block pools, linked lists.
pub mod Memory
pub mod Array
pub mod Fifo
pub mod Links
pub mod Pool
pub mod LinkedList
