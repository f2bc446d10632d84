-- ===== src/Proxy/Sbuf/Invariant.antt =====
-- What holds of the semaphores and the threads in every reachable state.
use cmu_15213_csapp3e_lab.Base.{
  ℕ, ◌+◌, ◌≡◌, ◌≢◌, refl, Option, none, some, List, arith, get_elem?, set, length, length-set,
  length-replicate,
}
use cmu_15213_csapp3e_lab.Proxy.Sbuf.{
  sbuf_init, next_int, buf_index, set_at, read_item, System, Pc, idle, has_slot, inserting,
  inserted, announcing, has_item, removing, removed, releasing, Step, p_slots, insert_p_mutex,
  write, insert_v_mutex, v_items, p_items, remove_p_mutex, read, remove_v_mutex, v_slots, start,
  Reach, here, next,
}
use cmu_15213_csapp3e_lab.Proxy.Threads.{total, total-set, total-ge, total_two, total-replicate}
use cmu_15213_csapp3e_lab.Proxy.Sbuf.Count.{locks, slotted, taking, unannounced, unread}

pub record Inv (n : ℕ) (s : System) : Type 0 where
  pub size : s.sbuf.n ≡ n
  pub room : length s.sbuf.buf ≡ n
  pub mutex : s.sbuf.mutex + total locks s.pcs ≡ 1
  pub slots : s.sbuf.slots + total slotted s.pcs + s.sbuf.items + total taking s.pcs ≡ n

-- the five sums after one thread has moved
pub record Moved (ps : List Pc) (i : ℕ) (old new : Pc) : Type 0 where
  pub locks_moved : total locks (set ps i new) + locks old ≡ total locks ps + locks new
  pub slotted_moved : total slotted (set ps i new) + slotted old ≡ total slotted ps + slotted new
  pub taking_moved : total taking (set ps i new) + taking old ≡ total taking ps + taking new
  pub unannounced_moved :
      total unannounced (set ps i new) + unannounced old ≡ total unannounced ps + unannounced new
  pub unread_moved : total unread (set ps i new) + unread old ≡ total unread ps + unread new

pub moved : (ps : List Pc) (i : ℕ) (old new : Pc) → get_elem? ps i ≡ some old → Moved ps i old new
moved ps i old new h = record {
  locks_moved = total-set locks ps i old new h;
  slotted_moved = total-set slotted ps i old new h;
  taking_moved = total-set taking ps i old new h;
  unannounced_moved = total-set unannounced ps i old new h;
  unread_moved = total-set unread ps i old new h;
}

length-set_at : (xs : List ℕ) (k : Option ℕ) (x : ℕ) → length (set_at xs k x) ≡ length xs
length-set_at xs none x = refl
length-set_at xs (some i) x = length-set xs i x

-- Every step keeps the invariant.
pub Step-Inv : {n : ℕ} {s t : System} → Step s t → Inv n s → Inv n t
Step-Inv {s} (p_slots i x h e) v = let m = moved s.pcs i idle (has_slot x) h in omega (arith, m)
Step-Inv {s} (insert_p_mutex i x h e) v =
    let m = moved s.pcs i (has_slot x) (inserting x) h in omega (arith, m)
Step-Inv {s} (write i x h) v =
    let m = moved s.pcs i (inserting x) inserted h in
    omega (arith, m, length-set_at s.sbuf.buf (buf_index (next_int s.sbuf.rear) s.sbuf.n) x)
Step-Inv {s} (insert_v_mutex i h) v =
    let m = moved s.pcs i inserted announcing h in omega (arith, m)
Step-Inv {s} (v_items i h) v = let m = moved s.pcs i announcing idle h in omega (arith, m)
Step-Inv {s} (p_items i h e) v = let m = moved s.pcs i idle has_item h in omega (arith, m)
Step-Inv {s} (remove_p_mutex i h e) v =
    let m = moved s.pcs i has_item removing h in omega (arith, m)
Step-Inv {s} (read i h) v =
    let m = moved s.pcs i removing (removed (read_item s.sbuf).0) h in omega (arith, m)
Step-Inv {s} (remove_v_mutex i x h) v =
    let m = moved s.pcs i (removed x) (releasing x) h in omega (arith, m)
Step-Inv {s} (v_slots i x h) v = let m = moved s.pcs i (releasing x) idle h in omega (arith, m)

start-Inv : (n threads : ℕ) → Inv n (start n threads)
unfolding sbuf_init
start-Inv n threads = record {
  size = refl;
  room = length-replicate n 0;
  mutex = omega (arith, total-replicate locks threads idle refl);
  slots =
      omega (
        arith,
        total-replicate slotted threads idle refl,
        total-replicate taking threads idle refl,
      );
}

pub Reach-Inv : {n threads : ℕ} {s : System} → Reach n threads s → Inv n s
Reach-Inv {n} {threads} here = start-Inv n threads
Reach-Inv (next r st) = Step-Inv st (Reach-Inv r)

-- In every reachable state the mutex and the threads between its P and its V make one: no two
-- threads are there together, and while one is the mutex is 0.
pub mutual_exclusion :
    {n threads : ℕ} {s : System} (i j : ℕ) (p q : Pc)
    → Reach n threads s
    → get_elem? s.pcs i ≡ some p
    → get_elem? s.pcs j ≡ some q
    → locks p ≡ 1
    → i ≢ j
    → (locks q ≡ 0) × (s.sbuf.mutex ≡ 0)
mutual_exclusion {s} i j p q r h k l ne =
    let v = Reach-Inv r in
    (
      omega (arith, v.mutex, total_two locks s.pcs i j p q ne h k),
      omega (arith, v.mutex, total-ge locks s.pcs i p h),
    )
