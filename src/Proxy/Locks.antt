-- ===== src/Proxy/Locks.antt =====
-- The lock of reader-writer.c, and any number of threads that read and write under it.
mod Weights
pub mod Alone
pub mod Exclusion
mod Tests
use cmu_15213_csapp3e_lab.Base.{ℕ, zero, suc, ◌+◌, ◌≡◌, ◌≢◌, some, List, get_elem?, set, replicate}

-- The globals of reader-writer.h.
pub record Locks : Type 0 where
  pub mutex : ℕ
  pub w : ℕ
  pub readcnt : ℕ
  pub is_prev_write : ℕ

unfoldable pub init_wr_locks : Locks
init_wr_locks = record { mutex = 1; w = 1; readcnt = 0; is_prev_write = 0 }

-- Where a thread stands. In `lock_reader`: behind P(mutex), behind the increment, behind the P(w) that
-- the first reader does, and behind V(mutex); `reading` is behind the second P(mutex), so between
-- `lock_reader` and `unlock_reader`. In `unlock_reader`: before V(w) if no reader is left, before the
-- reset of `is_prev_write`, and before V(mutex). In `lock_writer`: in the loop, in the loop with
-- `is_prev_write` read as 1, and behind the loop; `writing` is between `lock_writer` and
-- `unlock_writer`, and `written` is before its V(w).
pub data Pc : Type 0 where
  idle : Pc
  counting : Pc
  counted : Pc
  entered : Pc
  between : Pc
  reading : Pc
  last : Pc
  leaving : Pc
  left : Pc
  spinning : Pc
  checking : Pc
  asking : Pc
  writing : Pc
  written : Pc

pub record System : Type 0 where
  pub locks : Locks
  pub pcs : List Pc

abbrev pub at : System → Locks → ℕ → Pc → System
at s l i pc = record { locks = l; pcs = set s.pcs i pc }

-- One atomic step of thread `i`. A P is possible only on a semaphore above 0.
pub data Step (s : System) : System → Type 0 where
  lock_p_mutex :
      (i : ℕ) {k : ℕ}
      → get_elem? s.pcs i ≡ some idle
      → s.locks.mutex ≡ suc k
      → Step s (at s (record s.locks { mutex = k }) i counting)
  count :
      (i : ℕ)
      → get_elem? s.pcs i ≡ some counting
      → Step s (at s (record s.locks { readcnt = s.locks.readcnt + 1 }) i counted)
  first_p_w :
      (i : ℕ) {k : ℕ}
      → get_elem? s.pcs i ≡ some counted
      → s.locks.readcnt ≡ 1
      → s.locks.w ≡ suc k
      → Step s (at s (record s.locks { w = k }) i entered)
  later_reader :
      (i : ℕ)
      → get_elem? s.pcs i ≡ some counted
      → s.locks.readcnt ≢ 1
      → Step s (at s s.locks i entered)
  lock_v_mutex :
      (i : ℕ)
      → get_elem? s.pcs i ≡ some entered
      → Step s (at s (record s.locks { mutex = s.locks.mutex + 1 }) i between)
  again_p_mutex :
      (i : ℕ) {k : ℕ}
      → get_elem? s.pcs i ≡ some between
      → s.locks.mutex ≡ suc k
      → Step s (at s (record s.locks { mutex = k }) i reading)
  discount_last :
      (i : ℕ)
      → get_elem? s.pcs i ≡ some reading
      → s.locks.readcnt ≡ 1
      → Step s (at s (record s.locks { readcnt = 0 }) i last)
  discount :
      (i : ℕ) {k : ℕ}
      → get_elem? s.pcs i ≡ some reading
      → s.locks.readcnt ≡ suc (suc k)
      → Step s (at s (record s.locks { readcnt = suc k }) i leaving)
  last_v_w :
      (i : ℕ)
      → get_elem? s.pcs i ≡ some last
      → Step s (at s (record s.locks { w = s.locks.w + 1 }) i leaving)
  reset_flag :
      (i : ℕ)
      → get_elem? s.pcs i ≡ some leaving
      → Step s (at s (record s.locks { is_prev_write = 0 }) i left)
  unlock_v_mutex :
      (i : ℕ)
      → get_elem? s.pcs i ≡ some left
      → Step s (at s (record s.locks { mutex = s.locks.mutex + 1 }) i idle)
  start_write : (i : ℕ) → get_elem? s.pcs i ≡ some idle → Step s (at s s.locks i spinning)
  flag_clear :
      (i : ℕ)
      → get_elem? s.pcs i ≡ some spinning
      → s.locks.is_prev_write ≡ 0
      → Step s (at s s.locks i asking)
  flag_set :
      (i : ℕ)
      → get_elem? s.pcs i ≡ some spinning
      → s.locks.is_prev_write ≢ 0
      → Step s (at s s.locks i checking)
  no_readers :
      (i : ℕ)
      → get_elem? s.pcs i ≡ some checking
      → s.locks.readcnt ≡ 0
      → Step s (at s s.locks i asking)
  some_readers :
      (i : ℕ)
      → get_elem? s.pcs i ≡ some checking
      → s.locks.readcnt ≢ 0
      → Step s (at s s.locks i spinning)
  writer_p_w :
      (i : ℕ) {k : ℕ}
      → get_elem? s.pcs i ≡ some asking
      → s.locks.w ≡ suc k
      → Step s (at s (record s.locks { w = k }) i writing)
  set_flag :
      (i : ℕ)
      → get_elem? s.pcs i ≡ some writing
      → Step s (at s (record s.locks { is_prev_write = 1 }) i written)
  writer_v_w :
      (i : ℕ)
      → get_elem? s.pcs i ≡ some written
      → Step s (at s (record s.locks { w = s.locks.w + 1 }) i idle)

-- any number of threads behind `init_wr_locks`
abbrev pub start : ℕ → System
start threads = record { locks = init_wr_locks; pcs = replicate threads idle }

pub data Reach (threads : ℕ) : System → Type 0 where
  here : Reach threads (start threads)
  next : {s t : System} → Reach threads s → Step s t → Reach threads t
