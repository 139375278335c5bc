-- ===== src/Corpc/Channel/Flow/Window.antt =====
-- The window is kept by every step, so the queue never overflows.
use cuttle.Prelude.{
  ℕ, ◌+◌, ◌^◌, ◌≤◌, ◌<◌, ◌≡◌, refl, sym, ap, ◌∙◌, List, [], ◌∷◌, ◌++◌, some, true, false, length,
  length-append, arith, Bool-cases, inl, inr,
}
use cuttle.Cc.Fifo.{Fifo}
use cuttle.Corpc.Proto.{Comsg}
use cuttle.Corpc.Channel.{Channel, release_write_lock, find_stream_by_sid}
use cuttle.Corpc.Channel.Receive.{on_data_message}
use cuttle.Corpc.Channel.Transfer.{spend}
use cuttle.Corpc.Channel.Flow.{Phase, Link, Step, Reach, IsFlow, locked, uncounted, entitled}
use cuttle.Corpc.Channel.Flow.Effects.{
  taken_lem, data_for_lem, take_message_lem, credit_lem, spend_lem, reader_of, spend_lock,
  credit_lock,
}

uncounted_le : (ph : Phase) → uncounted ph ≤ 1
uncounted_le Phase.away = omega arith
uncounted_le Phase.holding = omega arith
uncounted_le Phase.sent = omega arith
uncounted_le Phase.spent = omega arith

uncounted-entitled : (ph : Phase) → uncounted ph ≤ entitled ph
uncounted-entitled Phase.away = omega arith
uncounted-entitled Phase.holding = omega arith
uncounted-entitled Phase.sent = omega arith
uncounted-entitled Phase.spent = omega arith

free_phase : (ph : Phase) → locked ph ≡ false → uncounted ph ≡ 0
free_phase Phase.away e = refl
free_phase Phase.holding e = let no : true ≡ false = e in cc
free_phase Phase.sent e = let no : true ≡ false = e in cc
free_phase Phase.spent e = refl

module _ (w p q : ℕ) (l : Link) (h : IsFlow w p q l) where
  -- Whoever finds the write lock free finds no message out.
  all_counted : l.writer.write_lock ≡ false → uncounted l.phase ≡ 0
  all_counted e = elim (Bool-cases (locked l.phase)) [
    | inl held ↦ let no : true ≡ false = sym (h.lock held) ∙ e in cc
    | inr free ↦ free_phase l.phase free
  ]

  small : (l.writer.heap p).rwnd < 2 ^ 16
  small = ground (arith, h.sum, h.word, uncounted_le l.phase)

  -- While a message is on its way, the reader's queue has a place for it.
  has_room : (msg : Comsg) (rest : List Comsg) → l.wire ≡ msg ∷ rest → length h.queued < w
  has_room msg rest e = omega (arith, h.sum, h.may, uncounted-entitled l.phase, ap length e)

  -- The same flow, with another writer that is in another phase.
  rewritten :
      (c : Channel) (ph : Phase)
      → (c.heap p).rwnd + uncounted l.phase ≤ (l.writer.heap p).rwnd + uncounted ph
      → entitled ph ≤ (c.heap p).rwnd
      → (locked ph ≡ true → c.write_lock ≡ true)
      → IsFlow w p q (record l { writer = c; phase = ph })
  rewritten c ph fewer may lock = record {
    queued = h.queued;
    queue = h.queue;
    places = h.places;
    word = h.word;
    sum = omega (arith, h.sum);
    may = may;
    lock = lock;
  }

Step-IsFlow : (w p q : ℕ) {l m : Link} → IsFlow w p q l → Step p q l m → IsFlow w p q m
unfolding release_write_lock reader_of
Step-IsFlow w p q {l} h (Step.locks expired c e) =
    let (unlocked, open_, same) = taken_lem l.writer c p expired e in
    let kept : (c.heap p).rwnd ≡ (l.writer.heap p).rwnd =
      ap (λ (d : Channel). (d.heap p).rwnd) same in
    rewritten w p q l h c Phase.holding (omega (arith, all_counted w p q l h unlocked))
      (omega arith) (λ _. ap (λ (d : Channel). d.write_lock) same)
Step-IsFlow w p q {l} h (Step.fails ph) =
    rewritten w p q l h (release_write_lock l.writer true) Phase.away
      (omega (arith, ap uncounted ph)) (omega arith) (λ no. cc)
Step-IsFlow w p q {l} h (Step.transmits msg ph) = record {
  queued = h.queued;
  queue = h.queue;
  places = h.places;
  word = h.word;
  sum = omega (arith, h.sum, ap uncounted ph, length-append l.wire (msg ∷ []));
  may = omega (arith, h.may, ap entitled ph);
  lock = λ _. h.lock (ap locked ph);
}
Step-IsFlow w p q {l} h (Step.spends ph) =
    let counted = spend_lem l.writer p (omega (arith, h.may, ap entitled ph)) (small w p q l h) in
    rewritten w p q l h (spend l.writer p) Phase.spent (omega (arith, counted, ap uncounted ph))
      (omega arith) (λ _. spend_lock l.writer p ∙ h.lock (ap locked ph))
Step-IsFlow w p q {l} h (Step.releases ph) =
    rewritten w p q l h (release_write_lock l.writer true) Phase.away
      (omega (arith, ap uncounted ph)) (omega arith) (λ no. cc)
Step-IsFlow w p q {l} h (Step.arrives msg rest c fok kept e run) =
    let (r, c', run', same, queue, cap) =
      data_for_lem l.reader q msg h.queued h.queue
        (omega (arith, has_room w p q l h msg rest e, h.places)) in
    let now : c' ≡ c = ap (reader_of c) (sym run' ∙ run) in
    let rxq : r ≡ (c.heap q).rxq = sym same ∙ ap (λ (d : Channel). (d.heap q).rxq) now in
    record {
      queued = h.queued ++ (msg ∷ []);
      queue = rw rxq at queue;
      places = ap (λ (f : Fifo Comsg). f.capacity) (sym rxq) ∙ cap ∙ h.places;
      word = h.word;
      sum = omega (arith, h.sum, length-append h.queued (msg ∷ []), ap length e);
      may = h.may;
      lock = h.lock;
    }
Step-IsFlow w p q {l} h (Step.reads c msg b run) =
    let (ys, e, queue, cap) = take_message_lem l.reader c q msg b h.queued h.queue run in
    record {
      queued = ys;
      queue = queue;
      places = cap ∙ h.places;
      word = h.word;
      sum = omega (arith, h.sum, ap length e);
      may = h.may;
      lock = h.lock;
    }
Step-IsFlow w p q h (Step.acknowledges n e) = record {
  queued = h.queued;
  queue = h.queue;
  places = h.places;
  word = h.word;
  sum = omega (arith, h.sum);
  may = h.may;
  lock = h.lock;
}
Step-IsFlow w p q h (Step.forgets n e) = record {
  queued = h.queued;
  queue = h.queue;
  places = h.places;
  word = h.word;
  sum = omega (arith, h.sum);
  may = h.may;
  lock = h.lock;
}
Step-IsFlow w p q {l} h (Step.credits n e) =
    let more = credit_lem l.writer p (ground (arith, h.sum, h.word, h.may, uncounted_le l.phase)) in
    record {
      queued = h.queued;
      queue = h.queue;
      places = h.places;
      word = h.word;
      sum = omega (arith, h.sum, more);
      may = omega (arith, h.may, more);
      lock = λ held. credit_lock l.writer p ∙ h.lock held;
    }
Step-IsFlow w p q {l} h (Step.writer_moves c e lock) =
    rewritten w p q l h c l.phase (omega (arith, e)) (omega (arith, e, h.may)) lock
Step-IsFlow w p q h (Step.reader_moves c e) = record {
  queued = h.queued;
  queue = rw e h.queue;
  places = rw e h.places;
  word = h.word;
  sum = h.sum;
  may = h.may;
  lock = h.lock;
}

-- Every step of the two ends keeps the flow of a stream: window, messages on their way, messages
-- in the queue and acks, owed or on their way, are together at most the size of the queue, but for
-- one message that is out and not yet counted; a sender that holds the write lock has window; and
-- who sends has the lock.
pub Reach-IsFlow : (w p q : ℕ) {l m : Link} → IsFlow w p q l → Reach p q l m → IsFlow w p q m
Reach-IsFlow w p q h Reach.here = h
Reach-IsFlow w p q h (Reach.next r s) = Step-IsFlow w p q (Reach-IsFlow w p q h r) s

-- On a stream between two ends whose flow is as it should be, whatever the two ends and the other
-- coroutines then do - lock, send, count, release, deliver, read, acknowledge or not - a data
-- message that arrives is taken into the queue of the stream that the look-up finds: the queue is
-- never full then, and the handler neither fails nor faults.
pub on_data_message-takes :
    (w p q : ℕ) (l m : Link) (msg : Comsg) (rest : List Comsg)
    → IsFlow w p q l
    → Reach p q l m
    → m.wire ≡ msg ∷ rest
    → find_stream_by_sid m.reader msg.hdr.did ≡ some (some q)
    → (c : Channel) × (on_data_message m.reader msg ≡ some (c, true, true))
unfolding on_data_message
on_data_message-takes w p q l m msg rest h r e found =
    let h' = Reach-IsFlow w p q h r in
    let (f, c, run, _, _, _) =
      data_for_lem m.reader q msg h'.queued h'.queue
        (omega (arith, has_room w p q m h' msg rest e, h'.places)) in
    (c, rw found run)
