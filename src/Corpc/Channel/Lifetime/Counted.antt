-- ===== src/Corpc/Channel/Lifetime/Counted.antt =====
-- The count is that of the holders, so a channel is destroyed when nobody has it any more.
use cuttle.Prelude.{
  ℕ, zero, suc, ◌≡◌, refl, sym, ap, ◌∙◌, Option, none, some, Bool, true, false, ◌&&◌, ltb,
  Option-cases, inl, inr, arith, ◌==◌, some_eq,
}
use cuttle.Prelude.Int.{ℤ, inc, dec, below_one}
use cuttle.Cc.Array.{erase_item}
use cuttle.Corpc.Channel.{Channel, ChannelState, set_channel_state}
use cuttle.Corpc.Channel.Lifetime.{
  addref_internal, release_internal, close_internal, leave, Life, Step, Reach,
}

-- Whoever has a channel is counted; a destroyed channel has no holder and no stream.
pub record IsCounted (l : Life) : Type 0 where
  pub counted : l.channel.refs ≡ ℤ.pos l.holders
  pub gone : l.destroyed ≡ true → (l.holders ≡ 0) × (l.channel.streams.size ≡ 0)

both : (a b : Bool) → (a && b) ≡ true → (a ≡ true) × (b ≡ true)
both true b e = (refl, e)
both false b e = let no : false ≡ true = e in cc

none_held : (n : ℕ) → below_one (ℤ.pos n) ≡ true → n ≡ 0
unfolding below_one
none_held zero e = refl
none_held (suc n) e = let no : false ≡ true = e in cc

no_stream : (n : ℕ) → ltb n 1 ≡ true → n ≡ 0
no_stream n e = ground arith

release_lem :
    (c c' : Channel) (n : ℕ) (gone : Bool)
    → c.refs ≡ ℤ.pos (suc n)
    → release_internal c ≡ (c', gone)
    → (c'.refs ≡ ℤ.pos n) × (gone ≡ true → (n ≡ 0) × (c'.streams.size ≡ 0))
unfolding release_internal dec
release_lem c c' n gone e run =
    let now : c'.refs ≡ ℤ.pos n = ap (λ (r : Channel × Bool). r.0.refs) (sym run) ∙ ap dec e in
    let same : c'.streams.size ≡ c.streams.size =
      ap (λ (r : Channel × Bool). r.0.streams.size) (sym run) in
    (
      now,
      λ g.
          let flag : (below_one (dec c.refs) && ltb c.streams.size 1) ≡ true =
            ap (λ (r : Channel × Bool). r.1) run ∙ g in
          let (low, few) = both (below_one (dec c.refs)) (ltb c.streams.size 1) flag in
          (none_held n (ap below_one (sym (ap dec e)) ∙ low), same ∙ no_stream c.streams.size few),
    )

leave_lem :
    (c c' : Channel) (p n : ℕ) (gone : Bool)
    → c.refs ≡ ℤ.pos n
    → leave c p ≡ some (c', gone)
    → (c'.refs ≡ ℤ.pos n) × (gone ≡ true → (n ≡ 0) × (c'.streams.size ≡ 0))
unfolding leave
leave_lem c c' p n gone e run = elim (Option-cases (erase_item (λ q. q == p) c.streams)) [
  | inl bad ↦
      let no : ◌≡◌ {A = Option (Channel × Bool)} none (some (c', gone)) = rw bad at run in cc
  | inr (r, good) ↦
      let made : (record c { streams = r.0 }, ltb r.0.size 1 && below_one c.refs) ≡ (c', gone) =
        some_eq (rw good at run) in
      let now : c'.refs ≡ ℤ.pos n = ap (λ (x : Channel × Bool). x.0.refs) (sym made) ∙ e in
      let same : c'.streams.size ≡ r.0.size =
        ap (λ (x : Channel × Bool). x.0.streams.size) (sym made) in
      (
        now,
        λ g.
            let flag : (ltb r.0.size 1 && below_one c.refs) ≡ true =
              ap (λ (x : Channel × Bool). x.1) made ∙ g in
            let (few, low) = both (ltb r.0.size 1) (below_one c.refs) flag in
            (none_held n (ap below_one (sym e) ∙ low), same ∙ no_stream r.0.size few),
      )
]

alive : (b : Bool) → b ≡ false → b ≡ true → ⊥
alive b e f = let no : false ≡ true = sym e ∙ f in cc

Step-IsCounted : {l m : Life} → IsCounted l → Step l m → IsCounted m
unfolding addref_internal inc close_internal
Step-IsCounted {l} h (Step.takes a) = record {
  counted = ap inc h.counted;
  gone = λ g. absurd (alive l.destroyed a g);
}
Step-IsCounted {l} h (Step.drops n c gone a e run) =
    let (now, gone') = release_lem l.channel c n gone (h.counted ∙ ap ℤ.pos e) run in
    record { counted = now; gone = gone' }
Step-IsCounted {l} h (Step.closes n c gone a e run) =
    let (now, gone') =
      release_lem (set_channel_state l.channel ChannelState.closed) c n gone
        (h.counted ∙ ap ℤ.pos e) run in
    record { counted = now; gone = gone' }
Step-IsCounted {l} h (Step.leaves p c gone a run) =
    let (now, gone') = leave_lem l.channel c p l.holders gone h.counted run in
    record { counted = now; gone = gone' }
Step-IsCounted {l} h (Step.moves c a e) = record {
  counted = e ∙ h.counted;
  gone = λ g. absurd (alive l.destroyed a g);
}

-- Where the count of a channel is that of its holders, it stays so whatever they do with it - take
-- it, release it, close it, close its streams, or anything that leaves the count - as long as it
-- is not destroyed; and when it is, by the last release, close or end of a stream, it has no
-- holder and no stream.
pub Reach-IsCounted : {l m : Life} → IsCounted l → Reach l m → IsCounted m
Reach-IsCounted h Reach.here = h
Reach-IsCounted h (Reach.next r s) = Step-IsCounted (Reach-IsCounted h r) s
