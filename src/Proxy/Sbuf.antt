-- ===== src/Proxy/Sbuf.antt =====
-- The bounded buffer of sbuf.c, and any number of threads that insert and remove under its
-- semaphores. A thread stands between two of the atomic steps of `sbuf_insert` or `sbuf_remove`.
pub mod Count
pub mod Invariant
pub mod Window
pub mod Queue
pub mod Progress
mod Tests
use cmu_15213_csapp3e_lab.Base.{
  ℕ, zero, suc, ◌+◌, ◌-◌, ◌%◌, ◌<◌, ◌≡◌, Bool, true, false, Option, none, some, List, [], ◌∷◌, ltb,
  ◌==◌, ◌*◌, ◌^◌, if◌then◌else◌, get_elem?, get_or, set, replicate,
}

-- `sbuf_t`. The counters `front` and `rear` are the 32 bits of an `int`.
pub record Sbuf : Type 0 where
  pub buf : List ℕ
  pub n : ℕ
  pub front : ℕ
  pub rear : ℕ
  pub mutex : ℕ
  pub slots : ℕ
  pub items : ℕ

unfoldable pub sbuf_init : ℕ → Sbuf
sbuf_init n = record {
  buf = replicate n 0;
  n = n;
  front = 0;
  rear = 0;
  mutex = 1;
  slots = n;
  items = 0;
}

-- `++` on an `int`: past the greatest one it goes on at the least, as the machine does it.
abbrev pub next_int : ℕ → ℕ
next_int k = (k + 1) % 2 ^ 32

-- `k % n` for an `int` and a positive `n`, as an index: `none` where it is negative
abbrev pub buf_index : ℕ → ℕ → Option ℕ
buf_index k n =
    if ltb k (2 ^ 31) then some (k % n) else if (2 ^ 32 - k) % n == 0 then some 0 else none

-- A write or a read in front of the array is none of the array's entries.
abbrev pub set_at : List ℕ → Option ℕ → ℕ → List ℕ
set_at xs none x = xs
set_at xs (some i) x = set xs i x

abbrev pub get_at : List ℕ → Option ℕ → ℕ
get_at xs none = 0
get_at xs (some i) = get_or xs i 0

-- `sp->buf[(++sp->rear) % (sp->n)] = item`
abbrev pub write_item : Sbuf → ℕ → Sbuf
write_item b x = record b {
  rear = next_int b.rear;
  buf = set_at b.buf (buf_index (next_int b.rear) b.n) x;
}

-- `item = sp->buf[(++sp->front) % (sp->n)]`
abbrev pub read_item : Sbuf → ℕ × Sbuf
read_item b =
    (get_at b.buf (buf_index (next_int b.front) b.n), record b { front = next_int b.front })

-- Where a thread stands: in `sbuf_insert` behind P(slots), P(mutex), the write and V(mutex), and in
-- `sbuf_remove` behind P(items), P(mutex), the read and V(mutex).
pub data Pc : Type 0 where
  idle : Pc
  has_slot : ℕ → Pc
  inserting : ℕ → Pc
  inserted : Pc
  announcing : Pc
  has_item : Pc
  removing : Pc
  removed : ℕ → Pc
  releasing : ℕ → Pc

pub record System : Type 0 where
  pub sbuf : Sbuf
  pub pcs : List Pc

abbrev pub at : System → Sbuf → ℕ → Pc → System
at s b i pc = record { sbuf = b; pcs = set s.pcs i pc }

-- One atomic step of thread `i`. A P is possible only on a semaphore above 0.
pub data Step (s : System) : System → Type 0 where
  p_slots :
      (i x : ℕ) {k : ℕ}
      → get_elem? s.pcs i ≡ some idle
      → s.sbuf.slots ≡ suc k
      → Step s (at s (record s.sbuf { slots = k }) i (has_slot x))
  insert_p_mutex :
      (i x : ℕ) {k : ℕ}
      → get_elem? s.pcs i ≡ some (has_slot x)
      → s.sbuf.mutex ≡ suc k
      → Step s (at s (record s.sbuf { mutex = k }) i (inserting x))
  write :
      (i x : ℕ)
      → get_elem? s.pcs i ≡ some (inserting x)
      → Step s (at s (write_item s.sbuf x) i inserted)
  insert_v_mutex :
      (i : ℕ)
      → get_elem? s.pcs i ≡ some inserted
      → Step s (at s (record s.sbuf { mutex = s.sbuf.mutex + 1 }) i announcing)
  v_items :
      (i : ℕ)
      → get_elem? s.pcs i ≡ some announcing
      → Step s (at s (record s.sbuf { items = s.sbuf.items + 1 }) i idle)
  p_items :
      (i : ℕ) {k : ℕ}
      → get_elem? s.pcs i ≡ some idle
      → s.sbuf.items ≡ suc k
      → Step s (at s (record s.sbuf { items = k }) i has_item)
  remove_p_mutex :
      (i : ℕ) {k : ℕ}
      → get_elem? s.pcs i ≡ some has_item
      → s.sbuf.mutex ≡ suc k
      → Step s (at s (record s.sbuf { mutex = k }) i removing)
  read :
      (i : ℕ)
      → get_elem? s.pcs i ≡ some removing
      → Step s (at s (read_item s.sbuf).1 i (removed (read_item s.sbuf).0))
  remove_v_mutex :
      (i x : ℕ)
      → get_elem? s.pcs i ≡ some (removed x)
      → Step s (at s (record s.sbuf { mutex = s.sbuf.mutex + 1 }) i (releasing x))
  v_slots :
      (i x : ℕ)
      → get_elem? s.pcs i ≡ some (releasing x)
      → Step s (at s (record s.sbuf { slots = s.sbuf.slots + 1 }) i idle)

-- any number of threads at a fresh buffer of `n` slots
abbrev pub start : ℕ → ℕ → System
start n threads = record { sbuf = sbuf_init n; pcs = replicate threads idle }

pub data Reach (n threads : ℕ) : System → Type 0 where
  here : Reach n threads (start n threads)
  next : {s t : System} → Reach n threads s → Step s t → Reach n threads t

-- What `is_sbuf_empty` and `is_sbuf_full` read of the semaphores.
unfoldable pub is_sbuf_empty : Sbuf → Bool
is_sbuf_empty b = b.items == 0

unfoldable pub is_sbuf_full : Sbuf → Bool
is_sbuf_full b = b.slots == 0
