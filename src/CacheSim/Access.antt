-- ===== src/CacheSim/Access.antt =====
-- The two loops of `load_in_cache` on a set of sound lines: the hit loop, and the write on a miss.
use cmu_15213_csapp3e_lab.Base.{
  ℕ, suc, ◌+◌, ◌≤◌, ◌<◌, ◌^◌, ◌≡◌, refl, ap, ◌∙◌, inl, inr, true, false, none, some, List, [], ◌∷◌,
  arith, ◌==◌, Bool-cases, if◌then◌else◌, length, get_elem?, set, All, All-mono,
}
use cmu_15213_csapp3e_lab.CacheSim.{
  Line, Counts, holds, touch, Search, search_from, search_start, replace, load_in_cache, as_int,
  uint64_max, next_time,
}
use cmu_15213_csapp3e_lab.CacheSim.Lines.{
  one_if, LineOk, LineOk-suc, resident, copies, filled, All-get_elem?, full_of_stamped,
  not_full_of_empty,
}
use cmu_15213_csapp3e_lab.CacheSim.Scan.{
  Picked, kept, found, search-Picked, recent-le, oldest_least,
}

-- What the hit loop changes: one time stamp.
pub record Touched (n : ℕ) (ls ls' : List Line) : Type 0 where
  pub lines : All (LineOk (suc n)) ls'
  pub same : (t : ℕ) → copies ls' t ≡ copies ls t
  pub stays : (t : ℕ) → resident ls' t ≡ resident ls t
  pub full : filled ls' ≡ filled ls
  pub size : length ls' ≡ length ls

pub touch-none : (ls : List Line) (t : ℕ) → resident ls t ≡ false → touch ls t ≡ none
unfolding touch
touch-none [] t h = refl
touch-none (l ∷ ls) t h = ground (arith, touch-none ls t)

pub touch-some :
    (n : ℕ) (ls : List Line) (t : ℕ)
    → suc n < 2 ^ 64
    → All (LineOk n) ls
    → resident ls t ≡ true
    → (ls' : List Line) × (touch ls t ≡ some ls') × Touched n ls ls'
unfolding touch
touch-some n [] t small a h = cc
touch-some n (l ∷ ls) t small a h = elim (Bool-cases (holds l t)) [
  | inl e ↦ (
    record l { time = next_time l.time } ∷ ls,
    rw e,
    record {
      lines = (ground arith, LineOk-suc n ls a.1);
      same = λ u. refl;
      stays = λ u. refl;
      full = refl;
      size = refl;
    },
  )
  | inr e ↦
      let (ls', p, r) = touch-some n ls t small a.1 (ground arith) in
      (
        l ∷ ls',
        rw (e, p),
        record {
          lines = (ground arith, r.lines);
          same = λ u. ground (arith, r.same u);
          stays = λ u. ground (arith, r.stays u);
          full = ground (arith, r.full);
          size = ground (arith, r.size);
        },
      )
]

-- The line that a miss replaces: its index, and that no line is older.
pub record Victim (ls : List Line) : Type 0 where
  pub index : ℕ
  pub line : Line
  pub there : get_elem? ls index ≡ some line
  pub least : All (λ l. line.time ≤ l.time) ls

pick :
    (n : ℕ) (l : Line) (ls : List Line)
    → n < uint64_max
    → All (LineOk n) (l ∷ ls)
    → (v : Victim (l ∷ ls)) × ((search_from 0 (l ∷ ls) search_start).block ≡ v.index)
pick n l ls small a = go (search-Picked 0 (l ∷ ls) search_start)
  where
    go :
        Picked 0 (l ∷ ls) search_start (search_from 0 (l ∷ ls) search_start)
        → (v : Victim (l ∷ ls)) × ((search_from 0 (l ∷ ls) search_start).block ≡ v.index)
    go (kept b o) = absurd (ground (arith, oldest_least 0 (l ∷ ls) search_start))
    go (found k m b g t o) = (
      record {
        index = k;
        line = m;
        there = g;
        least = All-mono (l ∷ ls) (λ u h. rw t h) (oldest_least 0 (l ∷ ls) search_start);
      },
      omega arith,
    )

-- the line that a miss leaves at the victim's index
abbrev pub new_line : ℕ → ℕ → Line → Line
new_line tag recent l = record {
  tag = tag;
  time = next_time recent;
  valid = if l.valid == 0 then 1 else l.valid;
}

-- A miss on a set of sound lines: the counts, and the one line written.
pub record Missed (n : ℕ) (c c' : Counts) (ls ls' : List Line) (tag : ℕ) : Type 0 where
  pub victim : Victim ls
  pub recent : ℕ
  pub bound : recent ≤ n
  pub evicts : one_if (filled ls == length ls) ≡ (if victim.line.valid == 0 then 0 else 1)
  pub lines : ls' ≡ set ls victim.index (new_line tag recent victim.line)
  pub counts : c' ≡ record {
    hit = c.hit;
    miss = c.miss + 1;
    evictions = c.evictions + one_if (filled ls == length ls);
  }

-- The line that is replaced is filled exactly if every line is.
Victim-filled :
    (n : ℕ) (ls : List Line) (v : Victim ls)
    → All (LineOk n) ls
    → one_if (filled ls == length ls) ≡ (if v.line.valid == 0 then 0 else 1)
Victim-filled n ls v a = elim (Bool-cases (v.line.valid == 0)) [
  | inl e ↦ ground (arith, not_full_of_empty ls v.index v.line v.there)
  | inr e ↦ ground (arith, stamped e, full_of_stamped n ls a)
]
  where
    stamped : (v.line.valid == 0) ≡ false → All (λ l. 1 ≤ l.time) ls
    stamped e =
        All-mono ls (λ l h. ground (arith, All-get_elem? (LineOk n) ls v.index v.line a v.there))
          v.least

replace-Missed :
    (n : ℕ) (c : Counts) (ls : List Line) (tag : ℕ) (s : Search) (v : Victim ls)
    → All (LineOk n) ls
    → s.block ≡ v.index
    → s.recent ≤ n
    → (c' : Counts) × (ls' : List Line) × (replace (record c { miss = c.miss + 1 }) ls tag s
        ≡ some (c', ls'))
      × Missed n c c' ls ls' tag
unfolding replace
replace-Missed n c ls tag s v a b r = (
  record {
    hit = c.hit;
    miss = c.miss + 1;
    evictions = c.evictions + one_if (filled ls == length ls);
  },
  set ls s.block (new_line tag s.recent v.line),
  rw (there, replace) (ground (arith, Victim-filled n ls v a)),
  record {
    victim = v;
    recent = s.recent;
    bound = r;
    evicts = Victim-filled n ls v a;
    lines = ap (λ k. set ls k (new_line tag s.recent v.line)) b;
    counts = refl;
  },
)
  where
    there : get_elem? ls s.block ≡ some v.line
    there = ap (get_elem? ls) b ∙ v.there

pub miss-Missed :
    (n : ℕ) (c : Counts) (ls : List Line) (tag_bit : ℕ)
    → 0 < length ls
    → suc n < 2 ^ 64
    → All (LineOk n) ls
    → resident ls (as_int tag_bit) ≡ false
    → (c' : Counts) × (ls' : List Line) × (load_in_cache c ls tag_bit ≡ some (c', ls'))
      × Missed n c c' ls ls' (as_int tag_bit)
unfolding load_in_cache
miss-Missed n c [] tag_bit e small a h = absurd (omega arith)
miss-Missed n c (l ∷ ls) tag_bit e small a h =
    let (v, b) = pick n l ls (omega arith) a in
    rw (touch-none (l ∷ ls) (as_int tag_bit) h, load_in_cache)
      (replace-Missed n c (l ∷ ls) (as_int tag_bit) (search_from 0 (l ∷ ls) search_start) v a b (
        recent-le 0 n (l ∷ ls) search_start (omega arith)
          (All-mono (l ∷ ls) (λ u o. ground arith) a)))
