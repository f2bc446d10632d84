-- ===== src/Proxy/Pool.antt =====
-- The pool of worker threads of sbuf.c: `create_worker_thread`, `init_thread` and the loop of
-- `adjust_thread`.
pub mod Fill
pub mod Size
mod Tests
use cmu_15213_csapp3e_lab.Base.{
  ℕ, zero, suc, ◌+◌, ◌-◌, ◌*◌, ◌/◌, ◌≡◌, Bool, true, false, Option, none, some, List, [], ◌∷◌, ltb,
  ◌==◌, if◌then◌else◌, ◌>>=◌, length, set, replicate,
}
use cmu_15213_csapp3e_lab.Proxy.Sbuf.{Sbuf, is_sbuf_full, is_sbuf_empty}

-- `NTHREADS` and `THREAD_LIMIT`
abbrev pub nthreads : ℕ
nthreads = 4

abbrev pub thread_limit : ℕ
thread_limit = 4096

-- For each entry of `thread_pool_ids`, whether it names a thread that runs and is not cancelled.
pub record Pool : Type 0 where
  pub running : List Bool
  pub current_nthreads : ℕ

-- `Pthread_create` or `Pthread_cancel` on `k` entries from `i` on; `none` is an access outside the array.
unfoldable pub each_entry : Bool → List Bool → ℕ → ℕ → Option (List Bool)
each_entry v ids i zero = some ids
each_entry v ids i (suc k) =
    if ltb i (length ids) then each_entry v (set ids i v) (i + 1) k else none

unfoldable pub create_worker_thread : List Bool → ℕ → ℕ → Option (List Bool)
create_worker_thread ids start_pos end_pos = each_entry true ids start_pos (end_pos - start_pos)

-- the loop of cancellations
unfoldable pub cancel_workers : List Bool → ℕ → ℕ → Option (List Bool)
cancel_workers ids new_nthread current = each_entry false ids new_nthread (current - new_nthread)

-- The array is static, so it starts out as zeros.
unfoldable pub init_thread : Option Pool
init_thread = do
  ids ← create_worker_thread (replicate thread_limit false) 0 nthreads
  some (record { running = ids; current_nthreads = nthreads })

-- One turn of the loop. `b` and `c` are the buffer as the test for full and the test for empty find it.
unfoldable pub adjust : Pool → Sbuf → Sbuf → Option Pool
adjust p b c =
    if is_sbuf_full b
    then if p.current_nthreads == thread_limit then some p else (do
      ids ← create_worker_thread p.running p.current_nthreads (2 * p.current_nthreads)
      some (record { running = ids; current_nthreads = 2 * p.current_nthreads }))
    else if is_sbuf_empty c
    then if p.current_nthreads == nthreads then some p else (do
      ids ← cancel_workers p.running (p.current_nthreads / 2) p.current_nthreads
      some (record { running = ids; current_nthreads = p.current_nthreads / 2 }))
    else some p

unfoldable pub adjust_thread : Pool → List (Sbuf × Sbuf) → Option Pool
adjust_thread p [] = some p
adjust_thread p ((b, c) ∷ rest) = do q ← adjust p b c; adjust_thread q rest
