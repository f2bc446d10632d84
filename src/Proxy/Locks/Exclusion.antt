-- ===== src/Proxy/Locks/Exclusion.antt =====
-- What holds of the semaphores, the counter and the threads in every reachable state.
use Prim.Native.Nat.{min}
use cmu_15213_csapp3e_lab.Base.{ℕ, ◌+◌, ◌≤◌, ◌≡◌, ◌≢◌, refl, some, List, arith, get_elem?, set}
use cmu_15213_csapp3e_lab.Proxy.Threads.{
  total, total-set, total-ge, total_plus, total_two, total-replicate,
}
use cmu_15213_csapp3e_lab.Proxy.Locks.{
  init_wr_locks, System, Pc, idle, counting, counted, entered, between, reading, last, leaving,
  left, spinning, checking, asking, writing, written, Step, lock_p_mutex, count, first_p_w,
  later_reader, lock_v_mutex, again_p_mutex, discount_last, discount, last_v_w, reset_flag,
  unlock_v_mutex, start_write, flag_clear, flag_set, no_readers, some_readers, writer_p_w, set_flag,
  writer_v_w, start, Reach, here, next,
}
use cmu_15213_csapp3e_lab.Proxy.Locks.Weights.{
  holds_mutex, arriving, inside, closing, owns, critical,
}

-- `w` is held by one writer, or by the readers as a group, or by nobody.
pub record Inv (s : System) : Type 0 where
  pub mutex : s.locks.mutex + total holds_mutex s.pcs ≡ 1
  pub counter : s.locks.readcnt ≡ total arriving s.pcs + total inside s.pcs
  pub shared : s.locks.w + total owns s.pcs + min 1 (total inside s.pcs + total closing s.pcs) ≡ 1
  pub emptied : min 1 (total inside s.pcs) + total closing s.pcs ≤ 1

-- Who arrives or closes holds the mutex.
alone : (ps : List Pc) → total arriving ps + total closing ps ≤ total holds_mutex ps
alone ps = total_plus arriving closing holds_mutex ps (λ p. ground arith)

-- the five sums after one thread has moved
record Moved (ps : List Pc) (i : ℕ) (old new : Pc) : Type 0 where
  mutex_moved :
      total holds_mutex (set ps i new) + holds_mutex old ≡ total holds_mutex ps + holds_mutex new
  arriving_moved : total arriving (set ps i new) + arriving old ≡ total arriving ps + arriving new
  inside_moved : total inside (set ps i new) + inside old ≡ total inside ps + inside new
  closing_moved : total closing (set ps i new) + closing old ≡ total closing ps + closing new
  owns_moved : total owns (set ps i new) + owns old ≡ total owns ps + owns new
  alone_before : total arriving ps + total closing ps ≤ total holds_mutex ps
  alone_behind :
      total arriving (set ps i new) + total closing (set ps i new)
      ≤ total holds_mutex (set ps i new)

moved : (ps : List Pc) (i : ℕ) (old new : Pc) → get_elem? ps i ≡ some old → Moved ps i old new
moved ps i old new h = record {
  mutex_moved = total-set holds_mutex ps i old new h;
  arriving_moved = total-set arriving ps i old new h;
  inside_moved = total-set inside ps i old new h;
  closing_moved = total-set closing ps i old new h;
  owns_moved = total-set owns ps i old new h;
  alone_before = alone ps;
  alone_behind = alone (set ps i new);
}

-- Every step keeps the invariant.
Step-Inv : {s t : System} → Step s t → Inv s → Inv t
Step-Inv {s} (lock_p_mutex i h e) v = let m = moved s.pcs i idle counting h in omega (arith, m)
Step-Inv {s} (count i h) v = let m = moved s.pcs i counting counted h in omega (arith, m)
Step-Inv {s} (first_p_w i h e f) v =
    let m = moved s.pcs i counted entered h in
    let g = total-ge arriving s.pcs i counted h in omega (arith, m)
Step-Inv {s} (later_reader i h e) v =
    let m = moved s.pcs i counted entered h in
    let g = total-ge arriving s.pcs i counted h in omega (arith, m)
Step-Inv {s} (lock_v_mutex i h) v = let m = moved s.pcs i entered between h in omega (arith, m)
Step-Inv {s} (again_p_mutex i h e) v = let m = moved s.pcs i between reading h in omega (arith, m)
Step-Inv {s} (discount_last i h e) v =
    let m = moved s.pcs i reading last h in
    let g = total-ge inside s.pcs i reading h in omega (arith, m)
Step-Inv {s} (discount i h e) v =
    let m = moved s.pcs i reading leaving h in
    let g = total-ge inside s.pcs i reading h in
    let l = moved s.pcs i reading idle h in omega (arith, m, l)
Step-Inv {s} (last_v_w i h) v =
    let m = moved s.pcs i last leaving h in
    let g = total-ge closing s.pcs i last h in omega (arith, m)
Step-Inv {s} (reset_flag i h) v = let m = moved s.pcs i leaving left h in omega (arith, m)
Step-Inv {s} (unlock_v_mutex i h) v = let m = moved s.pcs i left idle h in omega (arith, m)
Step-Inv {s} (start_write i h) v = let m = moved s.pcs i idle spinning h in omega (arith, m)
Step-Inv {s} (flag_clear i h e) v = let m = moved s.pcs i spinning asking h in omega (arith, m)
Step-Inv {s} (flag_set i h e) v = let m = moved s.pcs i spinning checking h in omega (arith, m)
Step-Inv {s} (no_readers i h e) v = let m = moved s.pcs i checking asking h in omega (arith, m)
Step-Inv {s} (some_readers i h e) v = let m = moved s.pcs i checking spinning h in omega (arith, m)
Step-Inv {s} (writer_p_w i h e) v = let m = moved s.pcs i asking writing h in omega (arith, m)
Step-Inv {s} (set_flag i h) v = let m = moved s.pcs i writing written h in omega (arith, m)
Step-Inv {s} (writer_v_w i h) v = let m = moved s.pcs i written idle h in omega (arith, m)

start-Inv : (threads : ℕ) → Inv (start threads)
unfolding init_wr_locks
start-Inv n = record {
  mutex = omega (arith, total-replicate holds_mutex n idle refl);
  counter = omega (arith, total-replicate arriving n idle refl, total-replicate inside n idle refl);
  shared = omega (
    arith,
    total-replicate owns n idle refl,
    total-replicate inside n idle refl,
    total-replicate closing n idle refl,
  );
  emptied = omega (arith, total-replicate inside n idle refl, total-replicate closing n idle refl);
}

pub Reach-Inv : {threads : ℕ} {s : System} → Reach threads s → Inv s
Reach-Inv {threads} here = start-Inv threads
Reach-Inv (next r st) = Step-Inv st (Reach-Inv r)

-- At most one thread at all is between `lock_reader` and `unlock_reader` or between `lock_writer` and
-- `unlock_writer`, in every reachable state: a writer excludes everyone, and so does a reader.
pub exclusion :
    {threads : ℕ} {s : System} (i j : ℕ) (p q : Pc)
    → Reach threads s
    → get_elem? s.pcs i ≡ some p
    → get_elem? s.pcs j ≡ some q
    → i ≢ j
    → critical p ≡ 1
    → critical q ≡ 0
exclusion {s} i j p q r h k ne c =
    let v = Reach-Inv r in
    let a = total_two holds_mutex s.pcs i j p q ne h k in
    let b = total_two owns s.pcs i j p q ne h k in
    let d = total-ge inside s.pcs i p h in
    let e = total-ge inside s.pcs j q k in
    let f = total-ge owns s.pcs i p h in
    let g = total-ge owns s.pcs j q k in ground (arith, v.mutex, v.shared)

-- Between `lock_reader` and `unlock_reader` the counter is at least 1, so the decrement does not wrap
-- around, and both semaphores are 0.
pub reading_lem :
    {threads : ℕ} {s : System} (i : ℕ)
    → Reach threads s
    → get_elem? s.pcs i ≡ some reading
    → (1 ≤ s.locks.readcnt) × (s.locks.mutex ≡ 0) × (s.locks.w ≡ 0)
reading_lem {s} i r h =
    let v = Reach-Inv r in
    let a = total-ge inside s.pcs i reading h in
    let b = total-ge holds_mutex s.pcs i reading h in (omega arith, omega arith, omega arith)
