-- ===== src/Corpc/Channel/Thread/Serves.antt =====
-- The loop of a channel's coroutine on the wire, against the handling of messages one by one.
use cuttle.Prelude.{
  ℕ, zero, suc, take, drop, ◌≡◌, refl, ap, ◌∙◌, List, [], ◌∷◌, ◌++◌, Option, none, some, Bool, true,
  false, length, map, if◌then◌else◌, Bool-cases, inl, inr, min, Option-cases,
}
use cuttle.Corpc.Proto.{Comsg, recv_msg, proto_read}
use cuttle.Corpc.Proto.Message.{Message, encode, Says, concat}
use cuttle.Corpc.Proto.RoundTrip.{AllThere, AllMessages, recv_msg-encode}
use cuttle.Corpc.Channel.Request.{Service}
use cuttle.Corpc.Channel.Thread.{
  Turn, Handled, State, End, Next, handle, handled, idle, after_handler, after_recv, round, serve,
}

-- The handling of messages, without the wire: one after the other by their handlers, until there
-- are no more, a handler fails, or a handler has no result.
pub data Serves (services : Option (List Service)) (turns : ℕ → Turn)
    : ℕ → List Message → State → End → Type 0 where
  finishes : (n : ℕ) (s : State) → Serves services turns n [] s (End.ended (idle (turns n) s) true)
  fails :
      (n : ℕ) (m : Message) (ms : List Message) (s : State) (c : Comsg) (h : Handled)
      → Says m c
      → handle services (turns n) s c ≡ some h
      → h.fok ≡ false
      → Serves services turns n (m ∷ ms) s (End.ended (handled s h) false)
  stops :
      (n : ℕ) (m : Message) (ms : List Message) (s : State) (c : Comsg)
      → Says m c
      → handle services (turns n) s c ≡ none
      → Serves services turns n (m ∷ ms) s End.stopped
  next :
      (n : ℕ) (m : Message) (ms : List Message) (s : State) (c : Comsg) (h : Handled) (e : End)
      → Says m c
      → handle services (turns n) s c ≡ some h
      → h.fok ≡ true
      → Serves services turns (suc n) ms (handled s h) e
      → Serves services turns n (m ∷ ms) s e

take_nil : (n : ℕ) → ◌≡◌ {A = List ℕ} (take n []) []
take_nil zero = refl
take_nil (suc n) = refl

drop_nil : (n : ℕ) → ◌≡◌ {A = List ℕ} (drop n []) []
drop_nil zero = refl
drop_nil (suc n) = refl

module _ (give : List ℕ → ℕ → ℕ) (services : Option (List Service)) (turns : ℕ → Turn)
    (memory : (n : ℕ) → (b : Comsg) × ((turns n).fresh ≡ some b)) where
  -- The next message has memory, be it that of the last one or new.
  kept :
      (n : ℕ) (taken : Bool) (c : Comsg)
      → (b : Comsg) × ((if taken then (turns n).fresh else some c) ≡ some b)
  kept n true c = memory n
  kept n false c = (c, refl)

  round_lem :
      (n : ℕ) (pending : List ℕ) (msg : Comsg) (s : State) (r : List ℕ × Comsg × Bool)
      → recv_msg give pending msg ≡ r
      → round give services (turns n) pending (some msg) s ≡ after_recv services (turns n) s r
  unfolding round
  round_lem n pending msg s r run = ap (after_recv services (turns n) s) run

  serve_ends :
      (fuel n : ℕ) (pending : List ℕ) (msg : Option Comsg) (s : State) (e : End)
      → round give services (turns n) pending msg s ≡ Next.ends e
      → serve give services (suc fuel) turns n pending msg s ≡ e
  unfolding serve
  serve_ends fuel n pending msg s e run = rw (run, serve) refl

  serve_goes :
      (fuel n : ℕ) (pending left : List ℕ) (msg msg' : Option Comsg) (s s' : State)
      → round give services (turns n) pending msg s ≡ Next.goes left msg' s'
      → serve give services (suc fuel) turns n pending msg s
        ≡ serve give services fuel turns (suc n) left msg' s'
  unfolding serve
  serve_goes fuel n pending left msg msg' s s' run = rw (run, serve) refl

  no_bytes : (msg : Comsg) → recv_msg give [] msg ≡ ([], msg, false)
  unfolding recv_msg proto_read
  no_bytes msg = rw (take_nil (min (give [] 12) 12), drop_nil (min (give [] 12) 12)) refl

  serve_end :
      (n : ℕ) (msg : Comsg) (s : State)
      → serve give services 1 turns n [] (some msg) s ≡ End.ended (idle (turns n) s) true
  unfolding after_recv
  serve_end n msg s =
      serve_ends 0 n [] (some msg) s _ (round_lem n [] msg s ([], msg, false) (no_bytes msg))

  -- What the round of a message comes to, by what its handler does.
  module _ (n : ℕ) (pending left : List ℕ) (msg c : Comsg) (s : State)
      (run : recv_msg give pending msg ≡ (left, c, true)) where
    round_stops :
        handle services (turns n) s c ≡ none
        → round give services (turns n) pending (some msg) s ≡ Next.ends End.stopped
    unfolding after_recv after_handler
    round_stops r =
        round_lem n pending msg s (left, c, true) run ∙ ap (after_handler (turns n) s left c) r

    round_fails :
        (h : Handled)
        → handle services (turns n) s c ≡ some h
        → h.fok ≡ false
        → round give services (turns n) pending (some msg) s
          ≡ Next.ends (End.ended (handled s h) false)
    unfolding after_recv after_handler
    round_fails h r bad =
        round_lem n pending msg s (left, c, true) run
        ∙ ap (after_handler (turns n) s left c) r
        ∙ rw bad refl

    round_goes :
        (h : Handled) (b : Comsg)
        → handle services (turns n) s c ≡ some h
        → h.fok ≡ true
        → (if h.taken then (turns n).fresh else some c) ≡ some b
        → round give services (turns n) pending (some msg) s ≡ Next.goes left (some b) (handled s h)
    unfolding after_recv after_handler
    round_goes h b r ok at =
        round_lem n pending msg s (left, c, true) run
        ∙ ap (after_handler (turns n) s left c) r
        ∙ rw (ok, at) refl

  module _ (all_there : AllThere give) where
    -- Where a call on the socket delivers all the bytes it is asked for and there is memory for
    -- messages, the loop of a channel's coroutine handles the messages that the peer has sent, in
    -- their order, each once and with what its sender meant: it ends as the handling of these
    -- messages one by one ends, after one round for each of them and one for the end of the bytes.
    pub serve-encode :
        (ms : List Message) (n : ℕ) (msg : Comsg) (s : State)
        → AllMessages give all_there ms
        → Serves services turns n ms s
            (serve give services (suc (length ms)) turns n (concat (map encode ms)) (some msg) s)
    serve-encode [] n msg s valid = rw (serve_end n msg s) (Serves.finishes n s)
    serve-encode (m ∷ ms) n msg s valid =
        let left : List ℕ = concat (map encode ms) in
        let pending : List ℕ = encode m ++ left in
        let (c, run, says) = recv_msg-encode give all_there m left msg valid.0 in
        elim (Option-cases (handle services (turns n) s c)) [
          | inl none_here ↦
              rw
                (serve_ends (suc (length ms)) n pending (some msg) s End.stopped
                  (round_stops n pending left msg c s run none_here))
                (Serves.stops n m ms s c says none_here)
          | inr (h, r) ↦ elim (Bool-cases h.fok) [
            | inl ok ↦
                let (b, at) = kept n h.taken c in
                rw
                  (serve_goes (suc (length ms)) n pending left (some msg) (some b) s (handled s h)
                    (round_goes n pending left msg c s run h b r ok at))
                  (Serves.next n m ms s c h _ says r ok
                    (serve-encode ms (suc n) b (handled s h) valid.1))
            | inr bad ↦
                rw
                  (serve_ends (suc (length ms)) n pending (some msg) s
                    (End.ended (handled s h) false)
                    (round_fails n pending left msg c s run h r bad))
                  (Serves.fails n m ms s c h says r bad)
          ]
        ]
