-- ===== src/Corpc/Channel/Flow/Effects.antt =====
-- What the functions under the lock do to the window and the queue of a stream.
use cuttle.Prelude.{
  some_eq, ℕ, ◌+◌, ◌-◌, ◌^◌, ◌<◌, ◌≡◌, refl, sym, ap, ◌∙◌, List, [], ◌∷◌, ◌++◌, Option, none, some,
  Bool, true, false, length, arith, ltb→lt,
}
use cuttle.Prelude.Words.{u16}
use cuttle.Cc.Fifo
use cuttle.Cc.Fifo.{Fifo}
use cuttle.Cc.Fifo.Repr.{Repr, push_room, ppop-Repr}
use cuttle.Corpc.Proto.{Comsg}
use cuttle.Corpc.Channel.Heap.{put_here}
use cuttle.Corpc.Channel.{Channel, Stream, signal, Round, put, acquire_round}
use cuttle.Corpc.Channel.Lock.{round_taken}
use cuttle.Corpc.Channel.Receive.{data_for, credit_for}
use cuttle.Corpc.Channel.Transfer.{spend, take_message}

-- The lock is free and there is window when it is taken.
pub taken_lem :
    (c c' : Channel) (p : ℕ) (expired : Bool)
    → acquire_round c (some p) expired ≡ (Round.taken, c')
    → (c.write_lock ≡ false) × (0 < (c.heap p).rwnd) × (c' ≡ record c { write_lock = true })
taken_lem c c' p expired e =
    let g = round_taken c c' (some p) expired e in (g.free, ltb→lt _ _ g.window, g.held)

-- With a place left the message goes into the queue.
pub data_for_lem :
    (c : Channel) (q : ℕ) (msg : Comsg) (xs : List Comsg)
    → Repr (c.heap q).rxq xs
    → length xs < (c.heap q).rxq.capacity
    → (r : Fifo Comsg) × (c' : Channel) × (data_for c q msg ≡ some (c', true, true))
      × ((c'.heap q).rxq ≡ r)
      × Repr r (xs ++ (msg ∷ []))
      × (r.capacity ≡ (c.heap q).rxq.capacity)
unfolding data_for
data_for_lem c q msg xs h room =
    let (r, run, h', cap) = push_room (c.heap q).rxq xs msg h room in
    let open_ : Fifo.is_full (c.heap q).rxq ≡ false = ground arith in
    (
      r,
      signal (record c { heap = put c.heap q (record (c.heap q) { rxq = r }) }),
      rw (open_, run),
      ap (λ (st : Stream). st.rxq) (put_here c.heap q (record (c.heap q) { rxq = r })),
      h',
      cap,
    )

unfoldable pub message_of : Option (Channel × Option Comsg × Bool) → Option Comsg
message_of none = none
message_of (some r) = r.1

unfoldable pub channel_of : Channel → Option (Channel × Option Comsg × Bool) → Channel
channel_of c none = c
channel_of c (some r) = r.0

-- The queue gives its oldest message.
pub take_message_lem :
    (c c' : Channel) (q : ℕ) (msg : Comsg) (b : Bool) (xs : List Comsg)
    → Repr (c.heap q).rxq xs
    → take_message c q ≡ some (c', some msg, b)
    → (ys : List Comsg) × (xs ≡ msg ∷ ys)
      × Repr (c'.heap q).rxq ys
      × ((c'.heap q).rxq.capacity ≡ (c.heap q).rxq.capacity)
unfolding take_message message_of channel_of
take_message_lem c c' q msg b [] h e =
    let (r, run, h', cap) = ppop-Repr (c.heap q).rxq [] h in
    let no : ◌≡◌ {A = Option Comsg} none (some msg) = ap message_of (rw run at e) in cc
take_message_lem c c' q msg b (x ∷ xs) h e =
    let (r, run, h', cap) = ppop-Repr (c.heap q).rxq (x ∷ xs) h in
    let now : record c { heap = put c.heap q (record (c.heap q) { rxq = r }) } ≡ c' =
      ap (channel_of c) (rw run at e) in
    let given : ◌≡◌ {A = Option Comsg} (some x) (some msg) = ap message_of (rw run at e) in
    let same : r ≡ (c'.heap q).rxq =
      ap (λ (st : Stream). st.rxq) (sym (put_here c.heap q (record (c.heap q) { rxq = r })))
      ∙ ap (λ (d : Channel). (d.heap q).rxq) now in
    (
      xs,
      ap (λ m. m ∷ xs) (some_eq given),
      rw same at h',
      ap (λ (f : Fifo Comsg). f.capacity) (sym same) ∙ cap,
    )

-- One step keeps the window.

pub credit_lem :
    (c : Channel) (p : ℕ)
    → (c.heap p).rwnd + 1 < 2 ^ 16
    → ((credit_for c p).heap p).rwnd ≡ (c.heap p).rwnd + 1
unfolding credit_for
credit_lem c p h =
    ap (λ (st : Stream). st.rwnd)
      (put_here c.heap p (record (c.heap p) { rwnd = u16 ((c.heap p).rwnd + 1) }))
    ∙ omega arith

pub spend_lem :
    (c : Channel) (p : ℕ)
    → 0 < (c.heap p).rwnd
    → (c.heap p).rwnd < 2 ^ 16
    → ((spend c p).heap p).rwnd + 1 ≡ (c.heap p).rwnd
unfolding spend
spend_lem c p h k =
    let now : ((spend c p).heap p).rwnd ≡ u16 ((c.heap p).rwnd + (2 ^ 16 - 1)) =
      ap (λ (st : Stream). st.rwnd)
        (put_here c.heap p (record (c.heap p) { rwnd = u16 ((c.heap p).rwnd + (2 ^ 16 - 1)) })) in
    omega (arith, now)

unfoldable pub reader_of : Channel → Option (Channel × Bool × Bool) → Channel
reader_of c none = c
reader_of c (some r) = r.0

pub spend_lock : (c : Channel) (p : ℕ) → (spend c p).write_lock ≡ c.write_lock
unfolding spend
spend_lock c p = refl

pub credit_lock : (c : Channel) (p : ℕ) → (credit_for c p).write_lock ≡ c.write_lock
unfolding credit_for
credit_lock c p = refl
