-- ===== src/Cothread/Waiter.antt =====
-- src/cothread/co-scheduler.h and the flags of src/cothread/co-scheduler.c: what waits for an event,
-- a deadline or a wake-up. The links `prev` and `next` of a waiter stand in Cothread/Queue.
use cuttle.Prelude.{ℕ, ◌+◌, Option, bit_or}
use cuttle.Prelude.Int.{ℤ}

-- <sys/epoll.h>
abbrev pub epollin : ℕ
epollin = 0x1

abbrev pub epollout : ℕ
epollout = 0x4

abbrev pub epollerr : ℕ
epollerr = 0x8

abbrev pub epollhup : ℕ
epollhup = 0x10

abbrev pub epollrdhup : ℕ
epollrdhup = 0x2000

abbrev pub unmasked_events : ℕ
unmasked_events = bit_or (bit_or epollerr epollhup) epollrdhup

abbrev pub mtx_wakeup_waiting : ℕ
mtx_wakeup_waiting = 1

abbrev pub mtx_wakeup_event : ℕ
mtx_wakeup_event = 2

abbrev pub co_yield_flag : ℕ
co_yield_flag = 4

-- A coroutine is named by a number; there is none where a thread waits.
pub record Waiter : Type 0 where
  pub tmo : ℤ
  pub co : Option ℕ
  pub mask : ℕ
  pub events : ℕ
  pub revents : ℕ
  pub flags : ℕ

-- `tmo >= 0 ? co_current_time_ms() + tmo : -1`
unfoldable pub deadline : ℕ → ℤ → ℤ
deadline now (ℤ.pos tmo) = ℤ.pos (now + tmo)
deadline now (ℤ.negsuc n) = ℤ.negsuc 0
