-- ===== src/Proxy/Pool/Tests.antt =====
-- Three turns of the pool's thread.
use cmu_15213_csapp3e_lab.Base.{◌≡◌, some, List, [], ◌∷◌, ◌>>=◌}
use cmu_15213_csapp3e_lab.Proxy.Sbuf.{Sbuf}
use cmu_15213_csapp3e_lab.Proxy.Pool.{Pool, init_thread, adjust_thread}
use cmu_15213_csapp3e_lab.Proxy.Pool.Size.{PoolOk, adjust_thread-PoolOk}

abbrev full : Sbuf
full = record { buf = 7 ∷ []; n = 1; front = 0; rear = 1; mutex = 1; slots = 0; items = 1 }

abbrev empty : Sbuf
empty = record { buf = 7 ∷ []; n = 1; front = 1; rear = 1; mutex = 1; slots = 1; items = 0 }

abbrev turns : List (Sbuf × Sbuf)
turns = (full, full) ∷ (full, full) ∷ (empty, empty) ∷ []

adjust_thread-PoolOk_example :
    (p : Pool) × ((init_thread >>= λ q. adjust_thread q turns) ≡ some p) × PoolOk p
adjust_thread-PoolOk_example = adjust_thread-PoolOk turns
