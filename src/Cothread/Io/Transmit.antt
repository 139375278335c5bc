-- ===== src/Cothread/Io/Transmit.antt =====
-- What goes out is a beginning of what is to be sent, as long as the count says.
use cuttle.Prelude.{
  ℕ, zero, suc, ◌+◌, ◌-◌, ◌≤◌, ◌<◌, ◌≡◌, refl, ap, ◌∙◌, sym, subst, List, [], ◌∷◌, ◌++◌, none, some,
  true, false, ltb, if◌then◌else◌, length, take, drop, arith, Bool-cases, inl, inr, some_eq, ◌⊎◌,
}
use cuttle.Prelude.Bits.{test}
use cuttle.Cothread.Waiter.{epollout}
use cuttle.Cothread.Io.{Answer, Sent, grow, send_loop, co_send, write_loop, co_write, nothing_sent}

-- No call takes more than it is given.
abbrev pub Modest : List Answer → ℕ → Type 0
Modest [] left = Unit
Modest (Answer.took n ∷ answers) left = (n ≤ left) × Modest answers (left - n)
Modest (Answer.again revents ∷ answers) left = Modest answers left
Modest (Answer.failed size ∷ answers) left = Modest answers left

-- The bytes that went out are the first of the buffer.
pub record IsPrefix (buf : List ℕ) (s : Sent) : Type 0 where
  pub bytes : s.wire ≡ take s.count buf
  pub fits : s.count ≤ length buf

zero_add : (n : ℕ) → 0 + n ≡ n
zero_add n = omega arith

take-nil : (n : ℕ) → take {A = ℕ} n [] ≡ []
take-nil zero = refl
take-nil (suc n) = refl

suc_add : (m n : ℕ) → suc m + n ≡ suc (m + n)
suc_add m n = omega arith

take-add : (m n : ℕ) (xs : List ℕ) → take (m + n) xs ≡ take m xs ++ take n (drop m xs)
take-add zero n xs = ap (λ (k : ℕ). take k xs) (zero_add n)
take-add (suc m) n [] = take-nil (suc m + n) ∙ sym (take-nil n)
take-add (suc m) n (x ∷ xs) =
    ap (λ (k : ℕ). take k (x ∷ xs)) (suc_add m n) ∙ ap (◌∷◌ x) (take-add m n xs)

grow-IsPrefix :
    (buf : List ℕ) (s : Sent) (n : ℕ)
    → IsPrefix buf s
    → n ≤ length buf - s.count
    → IsPrefix buf (grow s buf n)
grow-IsPrefix buf s n h k = record {
  bytes = ap (λ xs. xs ++ take n (drop s.count buf)) h.bytes ∙ sym (take-add s.count n buf);
  fits = let f = h.fits in omega arith;
}

send_loop-IsPrefix :
    (answers : List Answer) (buf : List ℕ) (s r : Sent)
    → Modest answers (length buf - s.count)
    → IsPrefix buf s
    → send_loop answers buf s ≡ some r
    → IsPrefix buf r
unfolding send_loop
send_loop-IsPrefix [] buf s r m h e = elim (Bool-cases (ltb s.count (length buf))) [
  | inl k ↦ let no : none ≡ some r = rw k at e in cc
  | inr k ↦ subst (IsPrefix buf) (some_eq (rw k at e)) h
]
send_loop-IsPrefix (Answer.took n ∷ answers) buf s r m h e =
    elim (Bool-cases (ltb s.count (length buf))) [
      | inl k ↦
          let less : length buf - s.count - n ≡ length buf - (s.count + n) = omega arith in
          send_loop-IsPrefix answers buf (grow s buf n) r (subst (Modest answers) less m.1)
            (grow-IsPrefix buf s n h m.0) (rw k at e)
      | inr k ↦ subst (IsPrefix buf) (some_eq (rw k at e)) h
    ]
send_loop-IsPrefix (Answer.again revents ∷ answers) buf s r m h e =
    elim (Bool-cases (ltb s.count (length buf))) [
      | inl k ↦ elim (Bool-cases (test revents epollout)) [
        | inl j ↦ send_loop-IsPrefix answers buf s r m h (rw (k, j) at e)
        | inr j ↦ subst (IsPrefix buf) (some_eq (rw (k, j) at e)) h
      ]
      | inr k ↦ subst (IsPrefix buf) (some_eq (rw k at e)) h
    ]
send_loop-IsPrefix (Answer.failed size ∷ answers) buf s r m h e = subst (IsPrefix buf) (some_eq e) h

-- How many calls take bytes.
unfoldable pub takes : List Answer → ℕ
takes [] = 0
takes (Answer.took n ∷ answers) = 1 + takes answers
takes (Answer.again revents ∷ answers) = takes answers
takes (Answer.failed size ∷ answers) = takes answers

-- No call fails, none takes nothing or more than it is given, and every wait comes back with EPOLLOUT.
abbrev pub Works : List Answer → ℕ → Type 0
Works [] left = Unit
Works (Answer.took n ∷ answers) left =
    ((left ≡ 0) ⊎ ((0 < n) × (n ≤ left))) × Works answers (left - n)
Works (Answer.again revents ∷ answers) left = (test revents epollout ≡ true) × Works answers left
Works (Answer.failed size ∷ answers) left = ⊥

-- All of it is sent once.
abbrev pub IsWhole : List ℕ → Sent → Type 0
IsWhole buf s = (s.count ≡ length buf) × (s.wire ≡ buf)

whole : (buf : List ℕ) (s : Sent) → IsPrefix buf s → length buf ≤ s.count → IsWhole buf s
whole buf s h k =
    let same : s.count ≡ length buf = (let f = h.fits in omega arith) in
    (same, h.bytes ∙ ap (λ (n : ℕ). take n buf) same ∙ take-length buf)
  where
    take-length : (xs : List ℕ) → take (length xs) xs ≡ xs
    take-length [] = refl
    take-length (x ∷ xs) = ap (◌∷◌ x) (take-length xs)

send_loop-IsWhole :
    (answers : List Answer) (buf : List ℕ) (s : Sent)
    → Works answers (length buf - s.count)
    → IsPrefix buf s
    → length buf - s.count ≤ takes answers
    → (r : Sent) × (send_loop answers buf s ≡ some r) × IsWhole buf r
unfolding send_loop takes
send_loop-IsWhole [] buf s m h k =
    let stops : ltb s.count (length buf) ≡ false = (let f = h.fits in ground arith) in
    (s, rw stops refl, whole buf s h (omega arith))
send_loop-IsWhole (Answer.took n ∷ answers) buf s m h k = elim m.0 [
  | inl z ↦
      let stops : ltb s.count (length buf) ≡ false = (let f = h.fits in ground arith) in
      (s, rw stops refl, whole buf s h (omega arith))
  | inr (some_n, fits) ↦
      let runs : ltb s.count (length buf) ≡ true = ground arith in
      let less : length buf - s.count - n ≡ length buf - (s.count + n) = omega arith in
      rw runs (
        send_loop-IsWhole answers buf (grow s buf n) (subst (Works answers) less m.1)
          (grow-IsPrefix buf s n h fits) (omega arith))
]
send_loop-IsWhole (Answer.again revents ∷ answers) buf s m h k =
    elim (Bool-cases (ltb s.count (length buf))) [
      | inl j ↦ rw (j, m.0) (send_loop-IsWhole answers buf s m.1 h k)
      | inr j ↦ (s, rw j refl, whole buf s h (ground arith))
    ]
send_loop-IsWhole (Answer.failed size ∷ answers) buf s m h k = elim m [ ]

start-IsPrefix : (buf : List ℕ) → IsPrefix buf nothing_sent
start-IsPrefix buf = record { bytes = refl; fits = omega arith }

-- Whatever the kernel and the waits answer, the bytes that co_send has sent when it returns are
-- the first of the buffer, as many as it says, as long as no call takes more than it is given.
pub co_send-IsPrefix :
    (answers : List Answer) (buf : List ℕ) (r : Sent)
    → Modest answers (length buf - 0)
    → co_send answers buf ≡ some r
    → IsPrefix buf r
unfolding co_send
co_send-IsPrefix answers buf r m e =
    send_loop-IsPrefix answers buf nothing_sent r m (start-IsPrefix buf) e

-- Where no call fails, each takes something and no more than it is given, and the waits come back
-- with EPOLLOUT, co_send returns after as many calls that take bytes as there are bytes, or fewer,
-- and has sent them all, in order.
pub co_send-IsWhole :
    (answers : List Answer) (buf : List ℕ)
    → Works answers (length buf - 0)
    → length buf ≤ takes answers
    → (r : Sent) × (co_send answers buf ≡ some r) × IsWhole buf r
unfolding co_send
co_send-IsWhole answers buf m k =
    send_loop-IsWhole answers buf nothing_sent m (start-IsPrefix buf) (omega arith)

abbrev ready_answer : Answer → Answer
ready_answer (Answer.took n) = Answer.took n
ready_answer (Answer.again revents) = Answer.again epollout
ready_answer (Answer.failed size) = Answer.failed size

-- The answers with every wait come back with EPOLLOUT.
abbrev pub all_ready : List Answer → List Answer
all_ready [] = []
all_ready (a ∷ answers) = ready_answer a ∷ all_ready answers

-- `co_write` is `co_send` whose waits all come back with EPOLLOUT.
write_loop-send_loop :
    (answers : List Answer) (buf : List ℕ) (s : Sent)
    → write_loop answers buf s ≡ send_loop (all_ready answers) buf s
unfolding write_loop send_loop
write_loop-send_loop [] buf s = refl
write_loop-send_loop (Answer.took n ∷ answers) buf s =
    ap (λ o. if ltb s.count (length buf) then o else some s)
      (write_loop-send_loop answers buf (grow s buf n))
write_loop-send_loop (Answer.again revents ∷ answers) buf s =
    ap (λ o. if ltb s.count (length buf) then o else some s) (write_loop-send_loop answers buf s)
write_loop-send_loop (Answer.failed size ∷ answers) buf s = refl

pub co_write-co_send :
    (answers : List Answer) (buf : List ℕ) → co_write answers buf ≡ co_send (all_ready answers) buf
unfolding co_write co_send
co_write-co_send answers buf = write_loop-send_loop answers buf nothing_sent
