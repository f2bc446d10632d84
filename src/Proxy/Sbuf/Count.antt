-- ===== src/Proxy/Sbuf/Count.antt =====
-- What the threads hold, each by the place where it stands.
use cmu_15213_csapp3e_lab.Base.{ℕ, ◌≤◌, List, arith}
use cmu_15213_csapp3e_lab.Proxy.Threads.{total, total_mono}
use cmu_15213_csapp3e_lab.Proxy.Sbuf.{
  Pc, has_slot, inserting, inserted, announcing, has_item, removing, removed, releasing,
}

-- holds the mutex
abbrev pub locks : Pc → ℕ
locks (inserting x) = 1
locks inserted = 1
locks removing = 1
locks (removed x) = 1
locks _ = 0

-- has taken a slot and not yet announced the item
abbrev pub slotted : Pc → ℕ
slotted (has_slot x) = 1
slotted (inserting x) = 1
slotted inserted = 1
slotted announcing = 1
slotted _ = 0

-- has taken an item and not yet released the slot
abbrev pub taking : Pc → ℕ
taking has_item = 1
taking removing = 1
taking (removed x) = 1
taking (releasing x) = 1
taking _ = 0

-- has written, and not yet announced
abbrev pub unannounced : Pc → ℕ
unannounced inserted = 1
unannounced announcing = 1
unannounced _ = 0

-- has taken an item, and not yet read it
abbrev pub unread : Pc → ℕ
unread has_item = 1
unread removing = 1
unread _ = 0

pub unannounced-slotted : (ps : List Pc) → total unannounced ps ≤ total slotted ps
unannounced-slotted ps = total_mono unannounced slotted ps (λ p. ground arith)

pub unread-taking : (ps : List Pc) → total unread ps ≤ total taking ps
unread-taking ps = total_mono unread taking ps (λ p. ground arith)
