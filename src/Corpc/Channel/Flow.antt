-- ===== src/Corpc/Channel/Flow.antt =====
-- Flow control on a stream of two ends: the data of the writer's stream `p` and the acks of the
-- reader's stream `q`, with everything that can happen in between.
pub mod Effects
pub mod Window
pub mod Start
use cuttle.Prelude.{
  ℕ, zero, suc, ◌+◌, ◌*◌, ◌%◌, ◌^◌, ◌≤◌, ◌<◌, ◌≡◌, List, [], ◌∷◌, ◌++◌, Option, none, some, Bool,
  true, false, length,
}
use cuttle.Cc.Fifo.Repr.{Repr}
use cuttle.Corpc.Proto.{Comsg}
use cuttle.Corpc.Channel.{Channel, Round, acquire_round, release_write_lock}
use cuttle.Corpc.Channel.Receive.{data_for, credit_for}
use cuttle.Corpc.Channel.Transfer.{spend, take_message}

-- How far `send_data` on the writer's stream is: it does not run or waits, it holds the write lock,
-- the message is out, and the window is less by one.
pub data Phase : Type 0 where
  away : Phase
  holding : Phase
  sent : Phase
  spent : Phase

-- The two ends, the data messages on their way, the acks that the reader owes, and the acks on
-- their way.
pub record Link : Type 0 where
  pub writer : Channel
  pub reader : Channel
  pub wire : List Comsg
  pub owed : ℕ
  pub acks : ℕ
  pub phase : Phase

-- Whether a phase is one with the write lock.
abbrev pub locked : Phase → Bool
locked Phase.away = false
locked Phase.holding = true
locked Phase.sent = true
locked Phase.spent = true

-- The last two steps are what happens on other streams of the channels: they leave the window, or
-- the queue, and nobody releases a write lock that another holds.
pub data Step (p q : ℕ) (l : Link) : Link → Type 0 where
  locks :
      (expired : Bool) (c : Channel)
      → acquire_round l.writer (some p) expired ≡ (Round.taken, c)
      → Step p q l (record l { writer = c; phase = Phase.holding })
  fails :
      l.phase ≡ Phase.holding
      → Step p q l (record l { writer = release_write_lock l.writer true; phase = Phase.away })
  transmits :
      (msg : Comsg)
      → l.phase ≡ Phase.holding
      → Step p q l (record l { wire = l.wire ++ (msg ∷ []); phase = Phase.sent })
  spends :
      l.phase ≡ Phase.sent
      → Step p q l (record l { writer = spend l.writer p; phase = Phase.spent })
  releases :
      l.phase ≡ Phase.spent
      → Step p q l (record l { writer = release_write_lock l.writer true; phase = Phase.away })
  arrives :
      (msg : Comsg) (rest : List Comsg) (c : Channel) (fok kept : Bool)
      → l.wire ≡ msg ∷ rest
      → data_for l.reader q msg ≡ some (c, fok, kept)
      → Step p q l (record l { reader = c; wire = rest })
  reads :
      (c : Channel) (msg : Comsg) (is_connected : Bool)
      → take_message l.reader q ≡ some (c, some msg, is_connected)
      → Step p q l (record l { reader = c; owed = suc l.owed })
  acknowledges : (n : ℕ) → l.owed ≡ suc n → Step p q l (record l { owed = n; acks = suc l.acks })
  forgets : (n : ℕ) → l.owed ≡ suc n → Step p q l (record l { owed = n })
  credits :
      (n : ℕ) → l.acks ≡ suc n → Step p q l (record l { writer = credit_for l.writer p; acks = n })
  writer_moves :
      (c : Channel)
      → (c.heap p).rwnd ≡ (l.writer.heap p).rwnd
      → (locked l.phase ≡ true → c.write_lock ≡ true)
      → Step p q l (record l { writer = c })
  reader_moves :
      (c : Channel) → (c.heap q).rxq ≡ (l.reader.heap q).rxq → Step p q l (record l { reader = c })

pub data Reach (p q : ℕ) (l : Link) : Link → Type 0 where
  here : Reach p q l l
  next : {m n : Link} → Reach p q l m → Step p q m n → Reach p q l n

-- The message that is out and not yet counted, and the message that the holder may send.
abbrev pub uncounted : Phase → ℕ
uncounted Phase.sent = 1
uncounted _ = 0

abbrev pub entitled : Phase → ℕ
entitled Phase.holding = 1
entitled Phase.sent = 1
entitled _ = 0

-- The reader's queue has `window` places, of which each is of one use: the writer may fill it, a
-- message on its way or in the queue fills it, or an ack for it is owed or on its way.
pub record IsFlow (window p q : ℕ) (l : Link) : Type 0 where
  pub queued : List Comsg
  pub queue : Repr (l.reader.heap q).rxq queued
  pub places : (l.reader.heap q).rxq.capacity ≡ window
  pub word : window + 1 < 2 ^ 16
  pub sum :
      (l.writer.heap p).rwnd + length l.wire + length queued + l.owed + l.acks
      ≤ window + uncounted l.phase
  pub may : entitled l.phase ≤ (l.writer.heap p).rwnd
  pub lock : locked l.phase ≡ true → l.writer.write_lock ≡ true
