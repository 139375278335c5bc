-- ===== src/Cothread/Io.antt =====
-- src/cothread/co-scheduler.c: sending and receiving in a coroutine. What the kernel and the
-- scheduler answer in each round of a loop is an argument, as a list; a loop that runs out of answers
-- has not ended: `none`.
pub mod Transmit
pub mod Left
use cuttle.Prelude.{
  ℕ, zero, suc, ◌+◌, ◌-◌, ◌*◌, List, [], ◌∷◌, ◌++◌, Option, none, some, Bool, true, false, not, ltb,
  leb, ◌==◌, ◌>>=◌, if◌then◌else◌, length, take, drop, ◌&&◌,
}
use cuttle.Prelude.Int.{ℤ}
use cuttle.Prelude.Bits.{test}
use cuttle.Cc.LinkedList
use cuttle.Cothread.Waiter.{Waiter, epollerr, epollout, deadline}
use cuttle.Cothread.Core.{Core, add_waiter, remove_waiter, sleep_waiter}

-- A `send` or `write`: it takes bytes, it says EAGAIN, and then what the wait for the socket comes
-- back with, or it fails; `size` is what it returns then, -1 or 0.
pub data Answer : Type 0 where
  took : (n : ℕ) → Answer
  again : (revents : ℕ) → Answer
  failed : (size : ℤ) → Answer

-- What a loop has sent: how many bytes it says, and the bytes that went out.
pub record Sent : Type 0 where
  pub count : ℕ
  pub wire : List ℕ

abbrev pub grow : Sent → List ℕ → ℕ → Sent
grow s buf n = record { count = s.count + n; wire = s.wire ++ take n (drop s.count buf) }

-- The loop of `co_send`.
unfoldable pub send_loop : List Answer → List ℕ → Sent → Option Sent
send_loop [] buf s = if ltb s.count (length buf) then none else some s
send_loop (Answer.took n ∷ answers) buf s =
    let rest = send_loop answers buf (grow s buf n) in
    if ltb s.count (length buf) then rest else some s
send_loop (Answer.again revents ∷ answers) buf s =
    let rest = send_loop answers buf s in
    if ltb s.count (length buf) then (if test revents epollout then rest else some s) else some s
send_loop (Answer.failed size ∷ answers) buf s = some s

abbrev pub nothing_sent : Sent
nothing_sent = record { count = 0; wire = [] }

unfoldable pub co_send : List Answer → List ℕ → Option Sent
unfolding send_loop
co_send answers buf = send_loop answers buf nothing_sent

-- The loop of `co_write`, which tries again whatever its wait comes back with.
unfoldable pub write_loop : List Answer → List ℕ → Sent → Option Sent
write_loop [] buf s = if ltb s.count (length buf) then none else some s
write_loop (Answer.took n ∷ answers) buf s =
    let rest = write_loop answers buf (grow s buf n) in
    if ltb s.count (length buf) then rest else some s
write_loop (Answer.again revents ∷ answers) buf s =
    let rest = write_loop answers buf s in if ltb s.count (length buf) then rest else some s
write_loop (Answer.failed size ∷ answers) buf s = some s

unfoldable pub co_write : List Answer → List ℕ → Option Sent
unfolding write_loop
co_write answers buf = write_loop answers buf nothing_sent

-- The loop of `co_socket_send`, where a failure replaces the count: the result, and the bytes that
-- went out.
unfoldable pub socket_send_loop : List Answer → List ℕ → Sent → Option (ℤ × List ℕ)
socket_send_loop [] buf s = if ltb s.count (length buf) then none else some (ℤ.pos s.count, s.wire)
socket_send_loop (Answer.took n ∷ answers) buf s =
    let rest = socket_send_loop answers buf (grow s buf n) in
    if ltb s.count (length buf) then rest else some (ℤ.pos s.count, s.wire)
socket_send_loop (Answer.again revents ∷ answers) buf s =
    let rest = socket_send_loop answers buf s in
    if ltb s.count (length buf)
    then (if test revents epollout then rest else some (ℤ.pos s.count, s.wire))
    else some (ℤ.pos s.count, s.wire)
socket_send_loop (Answer.failed size ∷ answers) buf s =
    if ltb s.count (length buf) then some (size, s.wire) else some (ℤ.pos s.count, s.wire)

-- The deadline of the waiter of `co_socket_send`: at its start, and after bytes that went out.
unfoldable pub send_deadline : ℕ → ℤ → ℤ
unfolding deadline
send_deadline now sendtmo = deadline now sendtmo

unfoldable pub next_deadline : ℕ → ℤ → ℤ → ℤ
next_deadline now (ℤ.pos sendtmo) tmo = ℤ.pos (now + sendtmo * 1000)
next_deadline now (ℤ.negsuc n) tmo = tmo

-- A `recv`: bytes, none at the end of the stream; EAGAIN, and then whether the wait comes back with
-- EPOLLIN; or a failure.
pub data Got : Type 0 where
  bytes : List ℕ → Got
  again : (ready : Bool) → Got
  failed : Got

-- What `co_recv` and `co_recv_rqh` return: the bytes, or -1, where nothing has come or a wait has
-- failed.
unfoldable pub co_recv : List Got → Option (Option (List ℕ))
co_recv [] = none
co_recv (Got.bytes b ∷ answers) = some (some b)
co_recv (Got.again ready ∷ answers) =
    let rest = co_recv answers in if ready then rest else some none
co_recv (Got.failed ∷ answers) = some none

-- `co_io_wait`: the waiter `w` is in the list while the coroutine waits. `others` is what the
-- scheduler and the other coroutines do meanwhile.
unfoldable pub co_io_wait : Core → Waiter → Bool → (Core → Core) → Option (Core × ℕ)
unfolding add_waiter remove_waiter
co_io_wait core w epoll_add others = add_waiter core w >>= (λ r. elim r.1 [
  | none ↦ some (r.0, epollerr)
  | some node ↦ elim epoll_add [
    | false ↦ remove_waiter r.0 (some node) >>= (λ core. some (core, epollerr))
    | true ↦
        let later = others r.0 in
        later.waiters.item node
        >>= (λ found. remove_waiter later (some node) >>= (λ core. some (core, found.revents)))
  ]
])

-- `co_sleep` in a coroutine.
unfoldable pub co_sleep : Core → ℕ → ℕ → ℕ → (Core → Core) → Option Core
unfolding add_waiter remove_waiter sleep_waiter
co_sleep core now co msec others =
    add_waiter core (sleep_waiter now co msec)
    >>= (λ r. elim r.1 [ none ↦ some r.0 | some node ↦ remove_waiter (others r.0) (some node) ])
