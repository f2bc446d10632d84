-- ===== src/Proxy/Locks/Tests.antt =====
-- A run of a reader and a writer.
use cmu_15213_csapp3e_lab.Base.{◌≤◌, ◌≡◌, refl, [], ◌∷◌, arith}
use cmu_15213_csapp3e_lab.Proxy.Locks.{
  init_wr_locks, System, reading, asking, start_write, flag_clear, lock_p_mutex, count, first_p_w,
  lock_v_mutex, again_p_mutex, Reach, here, next,
}
use cmu_15213_csapp3e_lab.Proxy.Locks.Weights.{critical}
use cmu_15213_csapp3e_lab.Proxy.Locks.Exclusion.{exclusion, reading_lem}

-- Thread 0 reads, and thread 1 waits at P(w) to write.
abbrev one_reads : System
one_reads = record {
  locks = record { mutex = 0; w = 0; readcnt = 1; is_prev_write = 0 };
  pcs = reading ∷ asking ∷ [];
}

one_reads_reached : Reach 2 one_reads
unfolding init_wr_locks
one_reads_reached =
    let a = next (next here (start_write 1 refl)) (flag_clear 1 refl refl) in
    let b = next (next a (lock_p_mutex 0 refl refl)) (count 0 refl) in
    let c = next (next b (first_p_w 0 refl refl refl)) (lock_v_mutex 0 refl) in
    next c (again_p_mutex 0 refl refl)

exclusion_example : critical asking ≡ 0
exclusion_example =
    exclusion 0 1 reading asking one_reads_reached refl refl (λ e. ground arith) refl

reading_lem_example :
    (1 ≤ one_reads.locks.readcnt) × (one_reads.locks.mutex ≡ 0) × (one_reads.locks.w ≡ 0)
reading_lem_example = reading_lem 0 one_reads_reached refl
