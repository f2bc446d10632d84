-- ===== src/Shell/Jobs/Tests.antt =====
-- The job list theorems at a list of one job.
use cmu_15213_csapp3e_lab.Base.{
  ℕ, ◌+◌, ◌≤◌, ◌≡◌, ◌≢◌, refl, inr, true, none, some, [], ◌∷◌, ◌==◌, arith, if◌then◌else◌,
  replicate,
}
use cmu_15213_csapp3e_lab.Base.Int.{pos}
use cmu_15213_csapp3e_lab.Shell.Jobs.{
  Job, Table, fg, bg, no_job, new_job, addjob, deletejob, place, fresh_table,
}
use cmu_15213_csapp3e_lab.Shell.Jobs.Slots.{entry, copies}
use cmu_15213_csapp3e_lab.Shell.Jobs.Lookup.{TableOk, addjob_free, deletejob_present}
use cmu_15213_csapp3e_lab.Shell.Jobs.Ids.{jid_copies, jid_reused}
use cmu_15213_csapp3e_lab.Shell.Jobs.Keeps.{fresh-slots, fresh-copies}

abbrev job : Job
job = record { pid = 100; jid = 1; state = fg; cmdline = b'a' ∷ [] }

-- one job, and the next job ID as given
abbrev one : ℕ → Table
one n = record { jobs = job ∷ replicate 15 no_job; nextjid = n }

one-TableOk : (n : ℕ) → 1 ≤ n → TableOk (one n)
one-TableOk n h = record {
  slots = (inr (omega arith, omega arith, refl), fresh-slots 15);
  once = λ p nz. ground (arith, fresh-copies 15 p nz);
  size = refl;
  next = h;
}

add_two : (addjob (addjob fresh_table (pos 7) fg []).1 (pos 8) bg []).1.nextjid ≡ 3
unfolding addjob place
add_two = refl

addjob_free_example :
    (t' : Table) × (addjob (one 2) (pos 101) bg (b'b' ∷ []) ≡ (true, t'))
    × TableOk t'
    × (copies t'.jobs 0 + 1 ≡ 15)
    × ((q : ℕ)
        → q ≢ 0
        → entry t'.jobs q ≡ (
            if 101 == q
            then some (new_job (one 2) (pos 101) bg (b'b' ∷ []))
            else entry (one 2).jobs q))
unfolding entry
addjob_free_example =
    addjob_free (one 2) 101 bg (b'b' ∷ []) (one-TableOk 2 (omega arith)) (omega arith) refl refl
      (omega arith)

deletejob_present_example :
    (t' : Table) × (deletejob (one 2) (pos 100) ≡ (true, t'))
    × TableOk t'
    × (copies t'.jobs 0 ≡ 16)
    × ((q : ℕ) → q ≢ 0 → entry t'.jobs q ≡ (if 100 == q then none else entry (one 2).jobs q))
unfolding entry
deletejob_present_example =
    deletejob_present (one 2) 100 job (one-TableOk 2 (omega arith)) (omega arith) refl

abbrev two : ℕ → ℕ → Table
two id n = record {
  jobs = job ∷ record { pid = 101; jid = id; state = bg; cmdline = [] } ∷ replicate 14 no_job;
  nextjid = n;
}

two-TableOk : (id n : ℕ) → 1 ≤ id → 1 ≤ n → TableOk (two id n)
two-TableOk id n i h = record {
  slots = (inr (omega arith, omega arith, refl), (inr (omega arith, i, refl), fresh-slots 14));
  once = λ p nz. ground (arith, fresh-copies 14 p nz);
  size = refl;
  next = h;
}

abbrev three : Table
three = record {
  jobs =
      job
      ∷ record { pid = 101; jid = 16; state = bg; cmdline = [] }
      ∷ record { pid = 102; jid = 1; state = bg; cmdline = [] }
      ∷ replicate 13 no_job;
  nextjid = 2;
}

jid_reused_example : 2 ≤ jid_copies three.jobs 1
unfolding addjob place
jid_reused_example =
    jid_reused (one 16) (two 16 1) three 101 102 bg bg [] [] (one-TableOk 16 (omega arith))
      (two-TableOk 16 1 (omega arith) (omega arith)) (omega arith) (omega arith) refl refl
