-- ===== src/Cothread/Walk/Round.antt =====
-- A round of the walk, by the verdict on its waiter.
use cuttle.Prelude.{
  ℕ, zero, suc, ◌+◌, ◌-◌, ◌<◌, ◌≡◌, ◌≢◌, refl, ap, ◌∙◌, sym, List, [], ◌∷◌, ◌++◌, Option, none,
  some, true, false, length, arith, map, take, ◌⊎◌, inl, inr, length-append, Option-cases,
  Bool-cases, subst, lt_or_eq_or_lt,
}
use cuttle.Prelude.Int.{ℤ}
use cuttle.Cc.Links.{NotIn}
use cuttle.Cothread.Waiter.{Waiter}
use cuttle.Cothread.Walk.{Walk, Verdict, Turn, verdict, due, turn, react, add_signaled, mark}
use cuttle.Cothread.Walk.Found.{
  elem-append, apart, same, fresh_seen, fresh_new, take_more, take_last,
}
use cuttle.Cothread.Walk.Scan.{
  Holds, elem, fresh, is_signaled, ready, shorten, wait_time, settle, settle_by, scan, put_self,
  put_ne,
}

-- What the rest of a walk makes of `s`, along the nodes `ps` that hold `ws`.
pub record IsWalk (ct ccmax : ℕ) (s : Walk) (ps : List ℕ) (ws : List Waiter) (r : Walk)
    : Type 0 where
  pub ends : (scan ct ccmax s ps ≡ Turn.goes_on r) ⊎ (scan ct ccmax s ps ≡ Turn.done r)
  pub found : r.cc ≡ s.cc ++ take (ccmax - length s.cc) (fresh s.cc (ready ct ws))
  pub marks : (c : ℕ) → r.marked c ≡ elem c r.cc
  pub others : (q : ℕ) → NotIn q ps → r.item q ≡ s.item q
  pub time : length r.cc < ccmax → r.tmo ≡ wait_time ct s.tmo ws
  pub settled : length r.cc < ccmax → Holds r.item ps (map (settle ct) ws)

-- What a round that goes on makes of `s`, for the node `p` that holds `w`.
pub record Goes (ct ccmax : ℕ) (s : Walk) (p : ℕ) (w : Waiter) (ws : List Waiter) (t : Walk)
    : Type 0 where
  pub turns : turn ct ccmax s p ≡ Turn.goes_on t
  pub list :
      t.cc ++ take (ccmax - length t.cc) (fresh t.cc (ready ct ws))
      ≡ s.cc ++ take (ccmax - length s.cc) (fresh s.cc (ready ct (w ∷ ws)))
  pub room : length t.cc < ccmax
  pub flags : (c : ℕ) → t.marked c ≡ elem c t.cc
  pub here : t.item p ≡ some (settle ct w)
  pub there : (q : ℕ) → q ≢ p → t.item q ≡ s.item q
  pub shorter : wait_time ct t.tmo ws ≡ wait_time ct s.tmo (w ∷ ws)

tmo-settle_by : (w : Waiter) (v : Verdict) → (settle_by w v).tmo ≡ w.tmo
unfolding settle_by
tmo-settle_by w Verdict.yields = refl
tmo-settle_by w Verdict.signaled = refl
tmo-settle_by w (Verdict.waits dt) = refl
tmo-settle_by w Verdict.sleeps = refl
tmo-settle_by w Verdict.bug = refl

due-ne : (ct : ℕ) (t : ℤ) → t ≢ ℤ.pos 0 → due ct t ≢ Verdict.bug
unfolding due
due-ne ct (ℤ.pos zero) h e = h refl
due-ne ct (ℤ.pos (suc t)) h e = ground arith
due-ne ct (ℤ.negsuc n) h e = cc

verdict-ne : (ct : ℕ) (w : Waiter) → w.tmo ≢ ℤ.pos 0 → verdict ct w ≢ Verdict.bug
unfolding verdict
verdict-ne ct w h e = let calm = due-ne ct w.tmo h in ground arith

-- A property of every waiter holds of `w`: with no coroutine, or with one.
pub by_co {ℓ} :
    (P : Waiter → Type ℓ) (w : Waiter)
    → ((v : Waiter) → P (record v { co = none }))
    → ((v : Waiter) (co : ℕ) → P (record v { co = some co }))
    → P w
by_co P w none_case some_case = elim (Option-cases w.co) [
  | inl e ↦ subst P (sym (ap (λ (o : Option ℕ). record w { co = o }) e)) (none_case w)
  | inr (co, e) ↦ subst P (sym (ap (λ (o : Option ℕ). record w { co = o }) e)) (some_case w co)
]

tmo-settle : (ct : ℕ) (w : Waiter) → (settle ct w).tmo ≡ w.tmo
unfolding settle
tmo-settle ct w =
    by_co (λ w. (settle ct w).tmo ≡ w.tmo) w (λ v. refl)
      (λ v co. tmo-settle_by (record v { co = some co }) _)

pub Holds-same :
    (f g : ℕ → Option Waiter) (p : ℕ) (ps : List ℕ) (ws : List Waiter)
    → NotIn p ps
    → ((q : ℕ) → q ≢ p → g q ≡ f q)
    → Holds f ps ws
    → Holds g ps ws
Holds-same f g p [] [] out e h = tt
Holds-same f g p [] (v ∷ ws) out e h = elim h [ ]
Holds-same f g p (q ∷ ps) [] out e h = elim h [ ]
Holds-same f g p (q ∷ ps) (v ∷ ws) out e h =
    (e q (λ k. out.0 (sym k)) ∙ h.0, h.1, Holds-same f g p ps ws out.1 e h.2)

pub extend :
    (ct ccmax : ℕ) (s t r : Walk) (p : ℕ) (w : Waiter) (ps : List ℕ) (ws : List Waiter)
    → Goes ct ccmax s p w ws t
    → NotIn p ps
    → w.tmo ≢ ℤ.pos 0
    → IsWalk ct ccmax t ps ws r
    → IsWalk ct ccmax s (p ∷ ps) (w ∷ ws) r
unfolding scan
extend ct ccmax s t r p w ps ws g out pos k = record {
  ends = rw g.turns k.ends;
  found = k.found ∙ g.list;
  marks = k.marks;
  others = λ q o. k.others q o.1 ∙ g.there q o.0;
  time = λ l. k.time l ∙ g.shorter;
  settled = λ l. (k.others p out ∙ g.here, (λ e. pos (sym (tmo-settle ct w) ∙ e)), k.settled l);
}

module _ (ct ccmax : ℕ) (s : Walk) (p : ℕ) (ws : List Waiter) where
  abbrev pub Round : List ℕ → Waiter → Type 0
  Round ps w =
      ((t : Walk) × Goes ct ccmax s p w ws t) ⊎ ((r : Walk) × IsWalk ct ccmax s (p ∷ ps) (w ∷ ws) r)

  module _ (m : (c : ℕ) → s.marked c ≡ elem c s.cc) (l : length s.cc < ccmax) where
    idle :
        (v : Waiter)
        → s.item p ≡ some (record v { co = none })
        → Goes ct ccmax s p (record v { co = none }) ws s
    unfolding ready wait_time settle turn
    idle v i = record {
      turns = rw (turn, i);
      list = refl;
      room = l;
      flags = m;
      here = i;
      there = λ q k. refl;
      shorter = refl;
    }

    -- The verdict is one that leaves the list.
    passes :
        (w : Waiter) (co : ℕ) (v : Verdict) (t : Walk)
        → s.item p ≡ some (record w { co = some co })
        → verdict ct (record w { co = some co }) ≡ v
        → is_signaled v ≡ false
        → react ccmax s p (record w { co = some co }) co v ≡ Turn.goes_on t
        → t.cc ≡ s.cc
        → t.marked ≡ s.marked
        → t.tmo ≡ shorten s.tmo v
        → t.item p ≡ some (settle_by (record w { co = some co }) v)
        → ((q : ℕ) → q ≢ p → t.item q ≡ s.item q)
        → Goes ct ccmax s p (record w { co = some co }) ws t
    unfolding ready wait_time settle turn
    passes w co v t i ev sv rv tc tm tt' ti to = record {
      turns = rw (turn, i, ev) rv;
      list = rw (tc, ev, sv);
      room = rw tc l;
      flags = λ c. rw (tm, tc) (m c);
      here = rw ev ti;
      there = to;
      shorter = rw (ev, tt');
    }

    one_more :
        (co : ℕ)
        → (x : ℕ) → s.marked co ≡ false
        → mark s.marked co true x ≡ elem x (s.cc ++ (co ∷ []))
    unfolding mark
    one_more co x e = rw (elem-append x co s.cc) (ground (arith, m x))

    again :
        (w : Waiter) (co : ℕ)
        → s.item p ≡ some (record w { co = some co })
        → verdict ct (record w { co = some co }) ≡ Verdict.signaled
        → s.marked co ≡ true
        → Goes ct ccmax s p
            (record w { co = some co })
            ws
            (add_signaled s p (record w { co = some co }) co)
    unfolding ready wait_time settle turn add_signaled
    again w co i ev em = record {
      turns = rw (turn, i, ev, react, em) (rw (apart _ _ l) refl);
      list =
          rw (em, ev)
            (ap (λ xs. s.cc ++ take (ccmax - length s.cc) xs)
              (sym (fresh_seen co s.cc (ready ct ws) (sym (m co) ∙ em))));
      room = rw em l;
      flags = λ c. rw em (m c);
      here = rw ev (put_self s.item p _);
      there = λ q k. put_ne s.item p q _ k;
      shorter = rw ev refl;
    }

    added :
        (w : Waiter) (co : ℕ)
        → s.item p ≡ some (record w { co = some co })
        → verdict ct (record w { co = some co }) ≡ Verdict.signaled
        → s.marked co ≡ false
        → length s.cc + 1 < ccmax
        → Goes ct ccmax s p
            (record w { co = some co })
            ws
            (add_signaled s p (record w { co = some co }) co)
    unfolding ready wait_time settle turn add_signaled
    added w co i ev em k =
        let less : length (s.cc ++ (co ∷ [])) < ccmax =
          omega (arith, length-append s.cc (co ∷ [])) in
        record {
          turns = rw (turn, i, ev, react, em) (rw (apart _ _ less) refl);
          list =
              rw (em, ev)
                (take_more ccmax co s.cc _ l
                  ∙ ap (λ xs. s.cc ++ take (ccmax - length s.cc) xs)
                      (sym (fresh_new co s.cc (ready ct ws) (sym (m co) ∙ em))));
          room = rw em less;
          flags = λ c. rw em (one_more co c em);
          here = rw ev (put_self s.item p _);
          there = λ q k. put_ne s.item p q _ k;
          shorter = rw ev refl;
        }

    full :
        (w : Waiter) (co : ℕ) (ps : List ℕ)
        → s.item p ≡ some (record w { co = some co })
        → verdict ct (record w { co = some co }) ≡ Verdict.signaled
        → s.marked co ≡ false
        → length s.cc + 1 ≡ ccmax
        → IsWalk ct ccmax s
            (p ∷ ps)
            (record w { co = some co } ∷ ws)
            (add_signaled s p (record w { co = some co }) co)
    unfolding ready turn add_signaled scan
    full w co ps i ev em k =
        let whole : length (s.cc ++ (co ∷ [])) ≡ ccmax =
          omega (arith, length-append s.cc (co ∷ [])) in
        let no_room : (length (s.cc ++ (co ∷ [])) < ccmax) → ⊥ = λ h. omega arith in
        record {
          ends = inr (rw (turn, i, ev, react, em) (rw (same _ _ whole) refl));
          found =
              rw (em, ev)
                (take_last ccmax co s.cc _ k
                  ∙ ap (λ xs. s.cc ++ take (ccmax - length s.cc) xs)
                      (sym (fresh_new co s.cc (ready ct ws) (sym (m co) ∙ em))));
          marks = λ c. rw em (one_more co c em);
          others = λ q o. put_ne s.item p q _ o.0;
          time = rw em (λ h. absurd (no_room h));
          settled = rw em (λ h. absurd (no_room h));
        }

    signals :
        (w : Waiter) (co : ℕ) (ps : List ℕ)
        → s.item p ≡ some (record w { co = some co })
        → verdict ct (record w { co = some co }) ≡ Verdict.signaled
        → Round ps (record w { co = some co })
    signals w co ps i ev = elim (Bool-cases (s.marked co)) [
      | inl em ↦ inl (_, again w co i ev em)
      | inr em ↦ elim (lt_or_eq_or_lt (length s.cc + 1) ccmax) [
        | inl k ↦ inl (_, added w co i ev em k)
        | inr (inl k) ↦ inr (_, full w co ps i ev em k)
        | inr (inr k) ↦ absurd (omega arith)
      ]
    ]

    verdict_cases :
        (w : Waiter) (co : ℕ) (ps : List ℕ) (v : Verdict)
        → s.item p ≡ some (record w { co = some co })
        → w.tmo ≢ ℤ.pos 0
        → verdict ct (record w { co = some co }) ≡ v
        → Round ps (record w { co = some co })
    unfolding is_signaled react shorten settle_by
    verdict_cases w co ps Verdict.yields i pos ev = inl (
      _,
      passes w co _ _ i ev refl refl refl refl refl (put_self s.item p _)
          (λ q k. put_ne s.item p q _ k),
    )
    verdict_cases w co ps Verdict.signaled i pos ev = signals w co ps i ev
    verdict_cases w co ps (Verdict.waits dt) i pos ev =
        inl (_, passes w co _ _ i ev refl refl refl refl refl i (λ q k. refl))
    verdict_cases w co ps Verdict.sleeps i pos ev =
        inl (_, passes w co _ _ i ev refl refl refl refl refl i (λ q k. refl))
    verdict_cases w co ps Verdict.bug i pos ev = absurd (verdict-ne ct _ pos ev)

    -- What the round does, whatever the waiter is.
    pub round_of : (w : Waiter) (ps : List ℕ) → s.item p ≡ some w → w.tmo ≢ ℤ.pos 0 → Round ps w
    round_of w ps =
        by_co (λ w. s.item p ≡ some w → w.tmo ≢ ℤ.pos 0 → Round ps w) w
          (λ v i pos. inl (s, idle v i)) (λ v co i pos. verdict_cases v co ps _ i pos refl)
