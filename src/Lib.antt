-- ===== src/Lib.antt =====
-- A model of cuttle, a C library of coroutines, remote procedure calls over TLS, and containers.
--
-- The parts and how they interact. A program opens a channel (src/corpc/corpc-channel.c) to another
-- one over a TLS socket; the channel's messages are packed, checked and read by
-- src/corpc/corpc-proto.c, whose checksum is src/hash/crc32.c. A channel keeps its streams in an
-- array (include/cuttle/ccarray.h), and a stream its unread messages in a bounded queue
-- (include/cuttle/ccfifo.h). All this runs in coroutines (src/cothread/co-thread.c). Their scheduler
-- (src/cothread/co-scheduler.c) keeps new coroutines in a bounded queue, and those that wait in a
-- list (include/cuttle/cclist.h) whose nodes come from a pool (ccheap.h), which stands on the bounded
-- queue too; a listener marks the waiters of a socket that has an event, and the scheduler walks
-- through its waiters and calls the coroutines that have something to do. Apart from this stand the
-- protocol buffers (src/pb/cuttle-pb.c), which write and read structures by tables of their fields,
-- on the streams of nanopb, and a condition for threads (include/cuttle/pthread_wait.h).
--
-- The files.
--   Prelude      the shared names, Boolean tests, lists, words of 16 and 32 bits and their bytes
--   Cc/Memory    blocks of memory: `memmove`, a load and a store, and where they fault
--   Cc/Array     include/cuttle/ccarray.h; Model, Remove, Find and LowerBound prove what it does
--   Cc/Fifo      include/cuttle/ccfifo.h; Repr relates a ring of cells to a queue
--   Cc/Pool      include/cuttle/ccheap.h; Ownership and Safety follow the blocks and their users
--   Cc/Links     doubly linked lists in memory, for Cc/LinkedList and Cothread/Queue
--   Cc/LinkedList  include/cuttle/cclist.h; Order and Faults
--   Hash         src/hash: djb2.c, sdbm.c, and crc32.c with its definition bit by bit (Crc32Bits)
--   HexBits      src/hexbits.c
--   Corpc/Proto  src/corpc/corpc-proto.c and corpc-proto.h; Send is its sending half, Message the
--                messages in the abstract, RoundTrip and Checks what a receiver gets
--   Corpc/Channel  src/corpc/corpc-channel.c: the state of a channel, the write lock and the look-up;
--                Streams makes streams, Receive and Request are the handlers of messages, Transfer
--                the senders and the reader, Opening the client's corpc_open_stream; Lock, Lookup,
--                Table, Answers, Accepting and Reading prove what they do, Naming says which service and
--                method a request names, Flow follows a stream between two ends, and Lifetime has the
--                reference counts and the closing; Thread is the coroutine of a channel, Serves its loop
--                on the wire against the handling of messages one by one, and Ends its end, with Start
--                and Loop for what comes before it, and Refs, Requests and Switch for the reference count
--                that the handlers leave alone (Proto's receive takes bytes: Bytes)
--   Cothread/Coroutine  src/cothread/co-thread.c: calls, exits and stacks; Exit and Runs follow a
--                scheduler and its coroutines, Stack has the bounds of a new stack
--   Cothread/Waiter, Walk  src/cothread/co-scheduler.c: the waiters and the walk through them; Scan
--                says in terms of lists what a walk finds, Round and Result prove it of the links,
--                Called and Yield draw the consequences
--   Cothread/Queue  the queue of waiters of a socket, and the listener; Refine and Notify
--   Cothread/Lock   locks, waits and signals; Exclusion, Signal and Wait
--   Cothread/Core   the state of a scheduler, its requests and its loop
--   Cothread/Io     the loops that send and receive in a coroutine, and the wait for a socket
--   Pb           src/pb/cuttle-pb.c and include/cuttle/pb/pb.h: the values of fields on the wire, with
--                the calls of nanopb as a record of functions; RoundTrip reads them back, and Packed
--                has the reading of packed arrays, with Grown and Filled. Encode has the encoding of
--                tables of fields: Costs and Sized count its bytes, Packs has cf_pb_pack
--   Wait         include/cuttle/pthread_wait.h; Deadline has the time of a wait with a limit
--   Tests        runs on concrete inputs
--
-- A function of the source keeps its name, without the prefix of its file: `ccfifo_push` is `push`
-- of Cc/Fifo. The state of a component is a record with the fields of the C struct. A function that
-- changes its argument returns the changed record with its result. Where memory is accessed,
-- `Option` stands for the access: `none` is an access outside the block. What the C library gives
-- (`malloc`, `realloc`, `qsort`) and the socket are arguments of what calls them. The variants for
-- pointers (`ccarray_ppush_back`, `ccfifo_ppush` and so on) are the same functions at pointers.
--
-- The machine is the one the source is used on: 64-bit sizes, little-endian words. Sizes computed
-- for `malloc` wrap at 2 ^ 64.
--
-- Fuel and bounds. The first loop of `ccarray_lowerbound` runs on fuel `end - beg`; each round
-- at least halves what is left, so this is enough. The loops along the links of waiters
-- (`walk_from`, `notify`, `wake_all`, `signal_from`) run on fuel, and as much as the list has nodes is
-- enough on a list that is linked both ways. The loop of a channel's coroutine runs on fuel, and one
-- round more than the peer sends bytes is enough (Corpc/Channel/Thread/Ends). A loop that waits for the
-- kernel or for others gets what it finds as a list, and `none` says that it has not ended with it.
-- Every other loop goes down a list or a counter. A receive takes as many bytes as the function `give`
-- of the socket says, and that number is arbitrary unless a theorem assumes `AllThere`;
-- a receive of no bytes, which a data message without any needs, is taken to give none without an error.
--
-- Concurrency. All coroutines of channels share one lock. What one does while it has the lock is one
-- function of the channel, and between two such steps others run: a sender and a reader get as an
-- argument the states in which they find the channel, and what others make of it. Flow has every
-- order of such steps on a stream, as a relation.
--
-- The threads of the scheduler share the locks of coroutines, whose functions hold one global mutex:
-- Lock/Exclusion has every order of these functions. A walk and the listener hold another mutex, and
-- are functions of the waiters. What others do while a coroutine is away from its scheduler is an
-- argument.
--
-- Not modelled: the set-up of threads and sockets, the switch of stacks itself, and the connecting,
-- accepting and polling of sockets (src/cothread); the connecting and accepting of channels
-- (src/corpc); nested messages of protocol buffers and the loop that reads
-- fields (src/pb); the database
-- client (src/pg), TLS and certificates (src/ssl), sockets and options; and the copies of other
-- projects in src/dns, src/nanopb, src/ucontext and src/android. Messages for the log and values of
-- `errno` are left out nearly everywhere.
pub mod Prelude
pub mod Cc
pub mod Cothread
pub mod Hash
pub mod HexBits
pub mod Corpc
pub mod Tests
pub mod Pb
pub mod Wait
