-- ===== src/Cothread/Walk/Yield.antt =====
-- A coroutine that has yielded gets its turn.
use cuttle.Cc.LinkedList.{LinkedList}
use cuttle.Cothread.Waiter.{Waiter}
use cuttle.Cothread.Walk.{Walk}
