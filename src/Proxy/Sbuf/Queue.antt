-- ===== src/Proxy/Sbuf/Queue.antt =====
-- The buffer against a queue: what the queue holds, what each step does to it, and what a whole run
-- has put in and taken out.
use mathlib.Core.List.{append_assoc, append-nil}
use cmu_15213_csapp3e_lab.Base.{
  ℕ, suc, true, ltb, ◌^◌, length-append, ◌+◌, ◌-◌, ◌%◌, ◌≤◌, ◌<◌, ◌≡◌, refl, sym, ◌∙◌, ap, List, [],
  ◌∷◌, ◌++◌, arith, set, length,
}
use cmu_15213_csapp3e_lab.Proxy.Sbuf.{
  Sbuf, sbuf_init, System, inserting, inserted, removing, Step, p_slots, insert_p_mutex, write,
  insert_v_mutex, v_items, p_items, remove_p_mutex, read, remove_v_mutex, v_slots, Reach, here,
  next, read_item, next_int, idle, has_slot, inserted, announcing, has_item, removed, releasing,
}
use cmu_15213_csapp3e_lab.Proxy.Threads.{total, total-set, total-ge, total-replicate}
use cmu_15213_csapp3e_lab.Proxy.Sbuf.Count.{
  unannounced-slotted, unread-taking, slotted, unannounced, unread,
}
use cmu_15213_csapp3e_lab.Proxy.Sbuf.Invariant.{Reach-Inv, moved}
use cmu_15213_csapp3e_lab.Proxy.Sbuf.Window.{window, window_write, length-window}

-- what stands between `front` and `rear`
abbrev pub contents : Sbuf → List ℕ
contents b = window b.buf b.n (b.front + 1) (b.rear - b.front)

-- what a step does to the queue
pub data Event : Type 0 where
  silent : Event
  put : ℕ → Event
  got : ℕ → Event

abbrev pub event : {s t : System} → Step s t → Event
event (write i x h) = put x
event {s} (read i h) = got (read_item s.sbuf).0
event _ = silent

abbrev pub Acts : ℕ → Event → List ℕ → List ℕ → Type 0
Acts n silent q r = r ≡ q
Acts n (put x) q r = (length q < n) × (r ≡ q ++ x ∷ [])
Acts n (got x) q r = q ≡ x ∷ r

-- the item that an event puts in, and the one that it takes out
abbrev pub added : Event → List ℕ
added (put x) = x ∷ []
added _ = []

abbrev pub taken : Event → List ℕ
taken (got x) = x ∷ []
taken _ = []

-- what a run has put in and taken out, in the order in which it did
abbrev pub puts : {n threads : ℕ} {s : System} → Reach n threads s → List ℕ
puts here = []
puts (next r st) = puts r ++ added (event st)

abbrev pub gots : {n threads : ℕ} {s : System} → Reach n threads s → List ℕ
gots here = []
gots (next r st) = gots r ++ taken (event st)

before :
    {n threads : ℕ} {s t : System} (r : Reach n threads s) (st : Step s t)
    → length (puts (next r st)) < 2 ^ 31
    → length (puts r) < 2 ^ 31
before r st h = omega (arith, length-append {0} (puts r) (added (event st)))

-- what the two counters say of a run
record Between {n threads : ℕ} {s : System} (r : Reach n threads s) : Type 0 where
  written : s.sbuf.rear ≡ length (puts r)
  between : s.sbuf.rear ≡ s.sbuf.front + s.sbuf.items + total unannounced s.pcs + total unread s.pcs

-- A step that neither writes nor reads leaves both counters alone.
quiet-Between :
    {n threads : ℕ} {s t : System} (r : Reach n threads s) (st : Step s t)
    → Between r
    → puts (next r st) ≡ puts r ++ []
    → t.sbuf.rear ≡ s.sbuf.rear
    → t.sbuf.front ≡ s.sbuf.front
    → t.sbuf.items + total unannounced t.pcs + total unread t.pcs
      ≡ s.sbuf.items + total unannounced s.pcs + total unread s.pcs
    → Between (next r st)
quiet-Between r st b e f g h = record {
  written = f ∙ b.written ∙ ap length (sym (append-nil (puts r)) ∙ sym e);
  between = omega (arith, b.between);
}

-- No counter has passed the greatest `int` while fewer than 2 ^ 31 items have been put in.
Reach-Between :
    {n threads : ℕ} {s : System} (r : Reach n threads s) → length (puts r) < 2 ^ 31 → Between r
unfolding sbuf_init
Reach-Between {threads} here h = record {
  written = refl;
  between = omega (
    arith,
    total-replicate unannounced threads idle refl,
    total-replicate unread threads idle refl,
  );
}
Reach-Between (next {s} r (p_slots i x h e)) l =
    let b = Reach-Between r (before r (p_slots i x h e) l) in
    let m = moved s.pcs i idle (has_slot x) h in
    quiet-Between r (p_slots i x h e) b refl refl refl (omega (arith, m))
Reach-Between (next {s} r (insert_p_mutex i x h e)) l =
    let b = Reach-Between r (before r (insert_p_mutex i x h e) l) in
    let m = moved s.pcs i (has_slot x) (inserting x) h in
    quiet-Between r (insert_p_mutex i x h e) b refl refl refl (omega (arith, m))
Reach-Between (next {s} r (insert_v_mutex i h)) l =
    let b = Reach-Between r (before r (insert_v_mutex i h) l) in
    let m = moved s.pcs i inserted announcing h in
    quiet-Between r (insert_v_mutex i h) b refl refl refl (omega (arith, m))
Reach-Between (next {s} r (v_items i h)) l =
    let b = Reach-Between r (before r (v_items i h) l) in
    let m = moved s.pcs i announcing idle h in
    quiet-Between r (v_items i h) b refl refl refl (omega (arith, m))
Reach-Between (next {s} r (p_items i h e)) l =
    let b = Reach-Between r (before r (p_items i h e) l) in
    let m = moved s.pcs i idle has_item h in
    quiet-Between r (p_items i h e) b refl refl refl (omega (arith, m))
Reach-Between (next {s} r (remove_p_mutex i h e)) l =
    let b = Reach-Between r (before r (remove_p_mutex i h e) l) in
    let m = moved s.pcs i has_item removing h in
    quiet-Between r (remove_p_mutex i h e) b refl refl refl (omega (arith, m))
Reach-Between (next {s} r (remove_v_mutex i x h)) l =
    let b = Reach-Between r (before r (remove_v_mutex i x h) l) in
    let m = moved s.pcs i (removed x) (releasing x) h in
    quiet-Between r (remove_v_mutex i x h) b refl refl refl (omega (arith, m))
Reach-Between (next {s} r (v_slots i x h)) l =
    let b = Reach-Between r (before r (v_slots i x h) l) in
    let m = moved s.pcs i (releasing x) idle h in
    quiet-Between r (v_slots i x h) b refl refl refl (omega (arith, m))
Reach-Between (next {s} r (write i x h)) l =
    let b = Reach-Between r (before r (write i x h) l) in
    let m = moved s.pcs i (inserting x) inserted h in
    let e = length-append {0} (puts r) (x ∷ []) in
    record { written = omega (arith, b.written); between = omega (arith, b, m) }
Reach-Between (next {s} r (read i h)) l =
    let b = Reach-Between r (before r (read i h) l) in
    let m = moved s.pcs i removing (removed (read_item s.sbuf).0) h in
    let e = append-nil (puts r) in
    let w = b.written in
    let o = before r (read i h) l in
    record { written = w ∙ ap length (sym e); between = omega (arith, b.between, m) }

-- From every state that is reached with fewer than 2 ^ 31 items put in, the step included, a write behind P(slots) and P(mutex) appends to a queue of fewer than `n`
-- items, a read behind P(items) and P(mutex) takes the first item of a queue that has one, and no
-- other step changes the queue.
pub Step-Acts :
    {n threads : ℕ} {s t : System} (r : Reach n threads s) (st : Step s t)
    → length (puts (next r st)) < 2 ^ 31
    → Acts n (event st) (contents s.sbuf) (contents t.sbuf)
unfolding window
Step-Acts r (p_slots i x h e) l = refl
Step-Acts r (insert_p_mutex i x h e) l = refl
Step-Acts {n} {s} r (write i x h) l =
    let v = Reach-Inv r in
    let b = Reach-Between r (before r (write i x h) l) in
    let e = length-append {0} (puts r) (x ∷ []) in
    let up : next_int s.sbuf.rear ≡ s.sbuf.rear + 1 = omega (arith, b.written) in
    let in_range : ltb (s.sbuf.rear + 1) (2 ^ 31) ≡ true = ground (arith, b.written) in
    let u = total-set unannounced s.pcs i (inserting x) inserted h in
    let m = total-set slotted s.pcs i (inserting x) inserted h in
    let w = unannounced-slotted (set s.pcs i inserted) in
    let z = unread-taking s.pcs in
    let short : s.sbuf.rear - s.sbuf.front < s.sbuf.n = omega (arith, b.between, v.slots, v.size) in
    let grown : s.sbuf.rear + 1 - s.sbuf.front ≡ suc (s.sbuf.rear - s.sbuf.front) =
      omega (arith, b.between) in
    let there : s.sbuf.front + 1 + (s.sbuf.rear - s.sbuf.front) ≡ s.sbuf.rear + 1 =
      omega (arith, b.between) in
    (
      omega (
        arith,
        v.size,
        length-window s.sbuf.buf s.sbuf.n (s.sbuf.front + 1) (s.sbuf.rear - s.sbuf.front),
      ),
      rw (up, in_range)
          (ap
              (λ k.
                window (set s.sbuf.buf ((s.sbuf.rear + 1) % s.sbuf.n) x) s.sbuf.n (s.sbuf.front + 1)
                  k)
              grown
            ∙ window_write s.sbuf.buf s.sbuf.n (s.sbuf.front + 1) (s.sbuf.rear - s.sbuf.front)
                (s.sbuf.rear + 1) x (v.room ∙ sym v.size) short there),
    )
Step-Acts r (insert_v_mutex i h) l = refl
Step-Acts r (v_items i h) l = refl
Step-Acts r (p_items i h e) l = refl
Step-Acts r (remove_p_mutex i h e) l = refl
Step-Acts {n} {s} r (read i h) l =
    let v = Reach-Inv r in
    let b = Reach-Between r (before r (read i h) l) in
    let o = before r (read i h) l in
    let g = total-ge unread s.pcs i removing h in
    let grown : s.sbuf.rear - s.sbuf.front ≡ suc (s.sbuf.rear - (s.sbuf.front + 1)) =
      omega (arith, b.between) in
    let up : next_int s.sbuf.front ≡ s.sbuf.front + 1 = omega (arith, b.written, b.between) in
    let in_range : ltb (s.sbuf.front + 1) (2 ^ 31) ≡ true = ground (arith, b.written, b.between) in
    rw (up, in_range) (ap (λ k. window s.sbuf.buf s.sbuf.n (s.sbuf.front + 1) k) grown)
Step-Acts r (remove_v_mutex i x h) l = refl
Step-Acts r (v_slots i x h) l = refl

Acts-queue :
    (n : ℕ) (e : Event) (ps gs q r : List ℕ)
    → Acts n e q r
    → ps ≡ gs ++ q
    → ps ++ added e ≡ (gs ++ taken e) ++ r
Acts-queue n silent ps gs q r a h = rw (append-nil ps, append-nil gs, a, h)
Acts-queue n (put x) ps gs q r a h = rw (append-nil gs, a.1, h, append_assoc)
Acts-queue n (got x) ps gs q r a h = rw (append-nil ps, h, a, append_assoc)

contents-le :
    {n threads : ℕ} {s : System} (r : Reach n threads s)
    → length (puts r) < 2 ^ 31
    → length (contents s.sbuf) ≤ n
contents-le {s} r l =
    let v = Reach-Inv r in
    let b = Reach-Between r l in
    let e = length-window s.sbuf.buf s.sbuf.n (s.sbuf.front + 1) (s.sbuf.rear - s.sbuf.front) in
    omega (arith, v.slots, b.between, unannounced-slotted s.pcs, unread-taking s.pcs)

-- The buffer is first in, first out: in every run that puts in fewer than 2 ^ 31 items, what has been put in
-- is what has been taken out, in the same order, and behind it the at most `n` items that are in the
-- buffer.
pub fifo :
    {n threads : ℕ} {s : System} (r : Reach n threads s)
    → length (puts r) < 2 ^ 31
    → (puts r ≡ gots r ++ contents s.sbuf) × (length (contents s.sbuf) ≤ n)
unfolding sbuf_init window
fifo here l = (refl, omega arith)
fifo {n} {s} (next r st) l = (
  Acts-queue n (event st) (puts r) (gots r) _ _ (Step-Acts r st l) (fifo r (before r st l)).0,
  contents-le (next r st) l,
)
