-- ===== src/Proxy/Sbuf/Tests.antt =====
-- Runs of two threads at a buffer of two slots.
use cmu_15213_csapp3e_lab.Base.{◌≤◌, ◌≡◌, refl, [], ◌∷◌, ◌++◌, arith, length, true, none, ◌-◌, ◌^◌}
use cmu_15213_csapp3e_lab.Proxy.Sbuf.{
  sbuf_init, buf_index, next_int, System, has_slot, inserting, inserted, Step, p_slots,
  insert_p_mutex, write, Reach, here, next, is_sbuf_full, is_sbuf_empty,
}
use cmu_15213_csapp3e_lab.Proxy.Sbuf.Count.{locks}
use cmu_15213_csapp3e_lab.Proxy.Sbuf.Invariant.{mutual_exclusion}
use cmu_15213_csapp3e_lab.Proxy.Sbuf.Queue.{contents, event, Acts, Step-Acts, puts, gots, fifo}
use cmu_15213_csapp3e_lab.Proxy.Sbuf.Progress.{never_stuck}

-- Thread 0 is about to write, and thread 1 has a slot.
abbrev writing : System
writing = record {
  sbuf = record { buf = 0 ∷ 0 ∷ []; n = 2; front = 0; rear = 0; mutex = 0; slots = 0; items = 0 };
  pcs = inserting 7 ∷ has_slot 8 ∷ [];
}

abbrev written : System
written = record {
  sbuf = record { buf = 0 ∷ 7 ∷ []; n = 2; front = 0; rear = 1; mutex = 0; slots = 0; items = 0 };
  pcs = inserted ∷ has_slot 8 ∷ [];
}

writing_reached : Reach 2 2 writing
unfolding sbuf_init
writing_reached =
    next (next (next here (p_slots 0 7 refl refl)) (p_slots 1 8 refl refl))
      (insert_p_mutex 0 7 refl refl)

write_now : Step writing written
write_now = write 0 7 refl

written_reached : Reach 2 2 written
written_reached = next writing_reached write_now

mutual_exclusion_example : (locks (has_slot 8) ≡ 0) × (writing.sbuf.mutex ≡ 0)
mutual_exclusion_example =
    mutual_exclusion 0 1 (inserting 7) (has_slot 8) writing_reached refl refl refl
      (λ e. ground arith)

Step-Acts_example : Acts 2 (event write_now) (contents writing.sbuf) (contents written.sbuf)
unfolding writing_reached write_now
Step-Acts_example = Step-Acts writing_reached write_now (omega arith)

fifo_example :
    (puts written_reached ≡ gots written_reached ++ contents written.sbuf)
    × (length (contents written.sbuf) ≤ 2)
unfolding written_reached writing_reached write_now
fifo_example = fifo written_reached (omega arith)

never_stuck_example : (t : System) × Step written t
never_stuck_example = never_stuck written_reached (omega arith) (omega arith)

full_now : is_sbuf_full written.sbuf ≡ true
unfolding is_sbuf_full
full_now = refl

empty_now : is_sbuf_empty written.sbuf ≡ true
unfolding is_sbuf_empty
empty_now = refl

-- the greatest `int` goes on at the least, whose place in an array of 3 is in front of it
overflow : buf_index (next_int (2 ^ 31 - 1)) 3 ≡ none
overflow = refl
