-- ===== src/Proxy/Sbuf/Progress.antt =====
-- No deadlock: some thread can always make a step.
use cmu_15213_csapp3e_lab.Base.{
  ℕ, zero, suc, ◌+◌, ◌<◌, ◌≡◌, refl, ◌∙◌, ap, some, List, [], ◌∷◌, arith, get_elem?, length,
  length-set, length-replicate, Bool-cases, ltb, inl, inr,
}
use cmu_15213_csapp3e_lab.Proxy.Sbuf.{
  System, Pc, idle, has_slot, inserting, inserted, announcing, has_item, removing, removed,
  releasing, Step, p_slots, insert_p_mutex, write, insert_v_mutex, v_items, p_items, remove_p_mutex,
  read, remove_v_mutex, v_slots, Reach, here, next,
}
use cmu_15213_csapp3e_lab.Proxy.Threads.{total, some_thread}
use cmu_15213_csapp3e_lab.Proxy.Sbuf.Count.{locks, slotted, taking}
use cmu_15213_csapp3e_lab.Proxy.Sbuf.Invariant.{Reach-Inv}

threads-length : {s t : System} → Step s t → length t.pcs ≡ length s.pcs
threads-length {s} (p_slots i x h e) = length-set s.pcs i (has_slot x)
threads-length {s} (insert_p_mutex i x h e) = length-set s.pcs i (inserting x)
threads-length {s} (write i x h) = length-set s.pcs i inserted
threads-length {s} (insert_v_mutex i h) = length-set s.pcs i announcing
threads-length {s} (v_items i h) = length-set s.pcs i idle
threads-length {s} (p_items i h e) = length-set s.pcs i has_item
threads-length {s} (remove_p_mutex i h e) = length-set s.pcs i removing
threads-length {s} (read i h) = length-set s.pcs i (removed _)
threads-length {s} (remove_v_mutex i x h) = length-set s.pcs i (releasing x)
threads-length {s} (v_slots i x h) = length-set s.pcs i idle

Reach-length : {n threads : ℕ} {s : System} → Reach n threads s → length s.pcs ≡ threads
Reach-length {threads} here = length-replicate threads idle
Reach-length (next r st) = threads-length st ∙ Reach-length r

positive : {k : ℕ} → 0 < k → (j : ℕ) × (k ≡ suc j)
positive {k = zero} h = ground arith
positive {k = suc j} h = (j, refl)

-- A thread can move if it holds the mutex or the mutex is free, and, when it is idle, a slot or an
-- item is there.
thread_moves :
    (s : System) (i : ℕ) (p : Pc)
    → get_elem? s.pcs i ≡ some p
    → 0 < s.sbuf.mutex + locks p
    → (p ≡ idle → 0 < s.sbuf.slots + s.sbuf.items)
    → (t : System) × Step s t
thread_moves s i idle h m f = elim (Bool-cases (ltb 0 s.sbuf.slots)) [
  | inl t ↦ let (j, e) = positive (ground arith) in (_, p_slots i 0 h e)
  | inr z ↦ let l = f refl in let (j, e) = positive (ground arith) in (_, p_items i h e)
]
thread_moves s i (has_slot x) h m f =
    let (j, e) = positive (omega arith) in (_, insert_p_mutex i x h e)
thread_moves s i (inserting x) h m f = (_, write i x h)
thread_moves s i inserted h m f = (_, insert_v_mutex i h)
thread_moves s i announcing h m f = (_, v_items i h)
thread_moves s i has_item h m f = let (j, e) = positive (omega arith) in (_, remove_p_mutex i h e)
thread_moves s i removing h m f = (_, read i h)
thread_moves s i (removed x) h m f = (_, remove_v_mutex i x h)
thread_moves s i (releasing x) h m f = (_, v_slots i x h)

-- A thread of positive weight is not idle, so it needs only the mutex.
busy_thread :
    (w : Pc → ℕ) (s : System)
    → w idle ≡ 0
    → 0 < total w s.pcs
    → ((p : Pc) → 0 < w p → 0 < s.sbuf.mutex + locks p)
    → (t : System) × Step s t
busy_thread w s z h f =
    let (i, p, e, l) = some_thread w s.pcs h in
    thread_moves s i p e (f p l) (λ q. absurd (omega (arith, ap w q)))

first_thread : (ps : List Pc) → 0 < length ps → (p : Pc) × (get_elem? ps 0 ≡ some p)
first_thread [] h = ground arith
first_thread (p ∷ ps) h = (p, refl)

-- With at least one thread and one slot, no reachable state is a deadlock: some thread can make a step.
pub never_stuck :
    {n threads : ℕ} {s : System} (r : Reach n threads s)
    → 0 < n
    → 0 < threads
    → (t : System) × Step s t
never_stuck {n} {s} r hn ht =
    let v = Reach-Inv r in
    elim (Bool-cases (ltb 0 s.sbuf.mutex)) [
      | inr m ↦ busy_thread locks s refl (ground (arith, v.mutex)) (λ p l. omega arith)
      | inl m ↦ elim (Bool-cases (ltb 0 (s.sbuf.slots + s.sbuf.items))) [
        | inl f ↦
            let (p, e) = first_thread s.pcs (omega (arith, Reach-length r)) in
            thread_moves s 0 p e (ground arith) (λ q. ground arith)
        | inr f ↦ elim (Bool-cases (ltb 0 (total slotted s.pcs))) [
          | inl g ↦ busy_thread slotted s refl (ground arith) (λ p l. ground arith)
          | inr g ↦ busy_thread taking s refl (ground (arith, v.slots)) (λ p l. ground arith)
        ]
      ]
    ]
