-- ===== src/Proxy/Locks/Alone.antt =====
-- The functions of reader-writer.c as one thread runs them while no other does. A P of a semaphore at 0
-- waits for ever, and so does the loop of `lock_writer`.
use cmu_15213_csapp3e_lab.Base.{◌+◌, ◌-◌, ◌&&◌, not, ◌==◌, if◌then◌else◌}
use cmu_15213_csapp3e_lab.Proxy.Outcome.{Outcome, done, stuck, ◌>>=◌}
use cmu_15213_csapp3e_lab.Proxy.Locks.{Locks}

abbrev p_mutex : Locks → Outcome Locks
p_mutex l = if l.mutex == 0 then stuck else done (record l { mutex = l.mutex - 1 })

abbrev p_w : Locks → Outcome Locks
p_w l = if l.w == 0 then stuck else done (record l { w = l.w - 1 })

unfoldable pub lock_reader : Locks → Outcome Locks
lock_reader l = do
  l1 ← p_mutex l
  l2 ← (let k = record l1 { readcnt = l1.readcnt + 1 } in if k.readcnt == 1 then p_w k else done k)
  p_mutex (record l2 { mutex = l2.mutex + 1 })

unfoldable pub unlock_reader : Locks → Locks
unlock_reader l =
    let k = record l { readcnt = l.readcnt - 1 } in
    let j = if k.readcnt == 0 then record k { w = k.w + 1 } else k in
    record j { is_prev_write = 0; mutex = j.mutex + 1 }

unfoldable pub lock_writer : Locks → Outcome Locks
lock_writer l = if not (l.is_prev_write == 0) && not (l.readcnt == 0) then stuck else p_w l

unfoldable pub unlock_writer : Locks → Locks
unlock_writer l = record l { is_prev_write = 1; w = l.w + 1 }
