-- ===== src/Proxy/Locks/Weights.antt =====
-- What the threads hold, each by the place where it stands.
use cmu_15213_csapp3e_lab.Base.{ℕ}
use cmu_15213_csapp3e_lab.Proxy.Locks.{
  Pc, counting, counted, entered, between, reading, last, leaving, left, writing, written,
}

-- holds the mutex
abbrev pub holds_mutex : Pc → ℕ
holds_mutex counting = 1
holds_mutex counted = 1
holds_mutex entered = 1
holds_mutex reading = 1
holds_mutex last = 1
holds_mutex leaving = 1
holds_mutex left = 1
holds_mutex _ = 0

-- is in `readcnt`, and not yet in the group of readers that holds `w`
abbrev pub arriving : Pc → ℕ
arriving counted = 1
arriving _ = 0

-- is in `readcnt` and in the group of readers that holds `w`
abbrev pub inside : Pc → ℕ
inside entered = 1
inside between = 1
inside reading = 1
inside _ = 0

-- is to give `w` back for the readers
abbrev pub closing : Pc → ℕ
closing last = 1
closing _ = 0

-- holds `w` as a writer
abbrev pub owns : Pc → ℕ
owns writing = 1
owns written = 1
owns _ = 0

-- is between `lock_reader` and `unlock_reader`, or between `lock_writer` and `unlock_writer`
abbrev pub critical : Pc → ℕ
critical reading = 1
critical writing = 1
critical _ = 0
