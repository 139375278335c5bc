-- ===== src/Corpc/Channel/Lock.antt =====
-- The write lock of a channel: who gets it, and what a sender does with it.
use cuttle.Prelude.{
  ℕ, ◌≡◌, refl, sym, ap, List, Option, some, Bool, true, false, not, ◌&&◌, ◌||◌, Bool-cases, inl,
  inr,
}
use cuttle.Corpc.Channel.{Channel, Round, acquire_round, channel_established, unready, has_window}

-- What holds where the lock is given: the channel is established, the stream is too and has window,
-- and nobody else has the lock.
pub record Grants (c : Channel) (stp : Option ℕ) (c' : Channel) : Type 0 where
  pub free : c.write_lock ≡ false
  pub connected : channel_established c ≡ true
  pub ready : unready c stp ≡ false
  pub window : has_window c stp ≡ true
  pub held : c' ≡ record c { write_lock = true }

free_parts : (a b : Bool) → (not a && b) ≡ true → (a ≡ false) × (b ≡ true)
free_parts true b e = let no : false ≡ true = e in cc
free_parts false b e = (refl, e)

ready_parts : (a b : Bool) → (not a || b) ≡ false → (a ≡ true) × (b ≡ false)
ready_parts true b e = (refl, e)
ready_parts false b e = let no : true ≡ false = e in cc

pub round_taken :
    (c c' : Channel) (stp : Option ℕ) (expired : Bool)
    → acquire_round c stp expired ≡ (Round.taken, c')
    → Grants c stp c'
unfolding acquire_round
round_taken c c' stp expired e = elim (Bool-cases (not (channel_established c) || unready c stp)) [
  | inl bad ↦
      let no : ◌≡◌ {A = Round × Channel} (Round.refused, c) (Round.taken, c') = rw bad at e in cc
  | inr ok ↦ elim (Bool-cases (not c.write_lock && has_window c stp)) [
    | inl free ↦
        let (unlocked, window) = free_parts c.write_lock (has_window c stp) free in
        let (connected, ready) = ready_parts (channel_established c) (unready c stp) ok in
        record {
          free = unlocked;
          connected = connected;
          ready = ready;
          window = window;
          held = sym (ap (λ (r : Round × Channel). r.1) (rw (ok, free) at e));
        }
    | inr busy ↦ elim (Bool-cases expired) [
      | inl late ↦
          let no : ◌≡◌ {A = Round × Channel} (Round.timed_out, c) (Round.taken, c') =
            rw (ok, busy, late) at e in
          cc
      | inr early ↦
          let no : ◌≡◌ {A = Round × Channel} (Round.waits, c) (Round.taken, c') =
            rw (ok, busy, early) at e in
          cc
    ]
  ]
]

-- What one round of the loop comes to, `later` being what the further rounds come to.
abbrev after_round : Round → Channel → Option (Bool × Channel) → Option (Bool × Channel)
after_round Round.taken c later = some (true, c)
after_round Round.waits c later = later
after_round Round.refused c later = some (false, c)
after_round Round.timed_out c later = some (false, c)
