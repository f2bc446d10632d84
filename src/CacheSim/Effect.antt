-- ===== src/CacheSim/Effect.antt =====
-- One access: what `load_in_cache` counts, and which tags the set holds afterwards.
use mathlib.Core.Path.{subst}
use cmu_15213_csapp3e_lab.Base.{
  ℕ, zero, suc, ◌+◌, ◌<◌, ◌^◌, ◌≡◌, ◌≢◌, refl, ap, sym, ◌∙◌, inl, inr, true, false, not, ◌&&◌, some,
  List, arith, ◌==◌, Bool-cases, if◌then◌else◌, length, length-set, All,
}
use cmu_15213_csapp3e_lab.CacheSim.{Line, Counts, holds, load_in_cache, as_int, load_times}
use cmu_15213_csapp3e_lab.CacheSim.Lines.{
  one_if, LineOk, resident, copies, filled, SetOk, resident-copies, All-get_elem?, LineOk-set,
  copies-set, filled-set, copies-ge, LineOk-suc, resident-eq-copies,
}
use cmu_15213_csapp3e_lab.CacheSim.Access.{Missed, Victim, new_line, touch-some, miss-Missed}

-- On a hit the call returns, counts one hit and nothing else, and leaves the set sound, of the same
-- size and with the same tags.
pub load_in_cache_hit :
    (n : ℕ) (c : Counts) (ls : List Line) (tag_bit : ℕ)
    → suc n < 2 ^ 64
    → SetOk n ls
    → resident ls (as_int tag_bit) ≡ true
    → (ls' : List Line) × (load_in_cache c ls tag_bit ≡ some (record c { hit = c.hit + 1 }, ls'))
      × SetOk (suc n) ls'
      × ((t : ℕ) → resident ls' t ≡ resident ls t)
      × (filled ls' ≡ filled ls)
      × (length ls' ≡ length ls)
unfolding load_in_cache
load_in_cache_hit n c ls tag_bit small ok h =
    let (ls', e, r) = touch-some n ls (as_int tag_bit) small ok.lines h in
    (
      ls',
      rw (e, load_in_cache),
      record { lines = r.lines; once = λ t. ground (arith, r.same t, ok.once t) },
      r.stays,
      r.full,
      r.size,
    )

-- the counts after a miss
abbrev pub count_miss : Counts → List Line → Counts
count_miss c ls = record {
  hit = c.hit;
  miss = c.miss + 1;
  evictions = c.evictions + one_if (filled ls == length ls);
}

module _ (n : ℕ) (c c' : Counts) (ls ls' : List Line) (tag : ℕ) (ok : SetOk n ls)
    (absent : resident ls tag ≡ false) (m : Missed n c c' ls ls' tag) (small : suc n < 2 ^ 64) where
  old : Line
  old = m.victim.line

  old-LineOk : LineOk n old
  unfolding old
  old-LineOk = All-get_elem? (LineOk n) ls m.victim.index old ok.lines m.victim.there

  copies-Missed : (t : ℕ) → copies ls' t + one_if (holds old t) ≡ copies ls t + one_if (tag == t)
  unfolding old
  copies-Missed t = ground (
    arith,
    m.lines,
    old-LineOk,
    copies-set ls m.victim.index old (new_line tag m.recent old) t m.victim.there,
  )

  SetOk-Missed : SetOk (suc n) ls'
  unfolding old
  SetOk-Missed = record {
    lines = subst (All (LineOk (suc n))) (sym m.lines) (
        LineOk-set (suc n) ls m.victim.index (new_line tag m.recent old) (LineOk-suc n ls ok.lines)
          (ground (arith, old-LineOk, m.bound)));
    once =
        λ t. ground (arith, copies-Missed t, ok.once t, ok.once tag, resident-copies ls tag absent);
  }

  resident_new : resident ls' tag ≡ true
  unfolding old
  resident_new = ground (
    arith,
    resident-eq-copies ls' tag,
    copies-Missed tag,
    copies-ge ls m.victim.index old tag m.victim.there,
    resident-copies ls tag absent,
  )

  resident_other : (t : ℕ) → t ≢ tag → resident ls' t ≡ (resident ls t && not (holds old t))
  resident_other t ne =
      ground (arith, resident-eq-copies ls' t, resident-eq-copies ls t, copies-Missed t, ok.once t)

  filled-Missed : filled ls' + one_if (filled ls == length ls) ≡ filled ls + 1
  unfolding old
  filled-Missed = ground (
    arith,
    m.lines,
    m.evicts,
    old-LineOk,
    filled-set ls m.victim.index old (new_line tag m.recent old) m.victim.there,
  )

  length-Missed : length ls' ≡ length ls
  length-Missed =
      ap length m.lines ∙ length-set ls m.victim.index (new_line tag m.recent m.victim.line)

-- On a miss in a set that has lines the call returns. It counts one miss, and one eviction if and
-- only if every line was filled; the set stays sound and of the same size, and one more line is
-- filled if not all were. The tag is held afterwards, and of the others exactly that of the line
-- replaced is lost, which no line of the set is older than.
pub load_in_cache_miss :
    (n : ℕ) (c : Counts) (ls : List Line) (tag_bit : ℕ)
    → suc n < 2 ^ 64
    → 0 < length ls
    → SetOk n ls
    → resident ls (as_int tag_bit) ≡ false
    → (ls' : List Line) × (v : Victim ls) × (load_in_cache c ls tag_bit
        ≡ some (count_miss c ls, ls'))
      × SetOk (suc n) ls'
      × (resident ls' (as_int tag_bit) ≡ true)
      × ((t : ℕ) → t ≢ as_int tag_bit → resident ls' t ≡ (resident ls t && not (holds v.line t)))
      × (filled ls' + one_if (filled ls == length ls) ≡ filled ls + 1)
      × (length ls' ≡ length ls)
unfolding old
load_in_cache_miss n c ls tag_bit small lines ok h =
    let (c', ls', e, m) = miss-Missed n c ls tag_bit lines small ok.lines h in
    let tag : ℕ = as_int tag_bit in
    (
      ls',
      m.victim,
      e ∙ ap (λ d. some (d, ls')) m.counts,
      SetOk-Missed n c c' ls ls' tag ok h m small,
      resident_new n c c' ls ls' tag ok h m small,
      resident_other n c c' ls ls' tag ok h m small,
      filled-Missed n c c' ls ls' tag ok h m small,
      length-Missed n c c' ls ls' tag ok h m small,
    )

-- What both branches have in common.
pub record Loaded (n k : ℕ) (c c' : Counts) (ls ls' : List Line) : Type 0 where
  pub sound : SetOk (k + n) ls'
  pub demand : c'.hit + c'.miss ≡ c.hit + c.miss + k
  pub balance : filled ls' + c'.evictions + c.miss ≡ filled ls + c.evictions + c'.miss
  pub size : length ls' ≡ length ls

load_in_cache-Loaded :
    (n : ℕ) (c : Counts) (ls : List Line) (tag_bit : ℕ)
    → suc n < 2 ^ 64
    → 0 < length ls
    → SetOk n ls
    → (c' : Counts) × (ls' : List Line) × (load_in_cache c ls tag_bit ≡ some (c', ls'))
      × Loaded n 1 c c' ls ls'
load_in_cache-Loaded n c ls tag small lines ok = elim (Bool-cases (resident ls (as_int tag))) [
  | inl e ↦
      let (ls', p, sound, stays, full, size) = load_in_cache_hit n c ls tag small ok e in
      (
        record c { hit = c.hit + 1 },
        ls',
        p,
        record {
          sound = subst (λ k. SetOk k ls') {x = suc n} {y = 1 + n} (omega arith) sound;
          demand = omega arith;
          balance = omega arith;
          size = size;
        },
      )
  | inr e ↦
      let (ls', v, p, sound, new, other, full, size) =
        load_in_cache_miss n c ls tag small lines ok e in
      (
        count_miss c ls,
        ls',
        p,
        record {
          sound = subst (λ k. SetOk k ls') {x = suc n} {y = 1 + n} (omega arith) sound;
          demand = omega arith;
          balance = omega arith;
          size = size;
        },
      )
]

pub load_times-Loaded :
    (k n : ℕ) (c : Counts) (ls : List Line) (tag : ℕ)
    → k + n < 2 ^ 64
    → 0 < length ls
    → SetOk n ls
    → (c' : Counts) × (ls' : List Line) × (load_times k c ls tag ≡ some (c', ls'))
      × Loaded n k c c' ls ls'
unfolding load_times
load_times-Loaded zero n c ls tag small lines ok = (
  c,
  ls,
  refl,
  record {
    sound = subst (λ k. SetOk k ls) {x = n} {y = 0 + n} (omega arith) ok;
    demand = omega arith;
    balance = refl;
    size = refl;
  },
)
load_times-Loaded (suc k) n c ls tag small lines ok =
    let (c₁, ls₁, p, r) = load_in_cache-Loaded n c ls tag (omega arith) lines ok in
    let (c₂, ls₂, q, r') =
      load_times-Loaded k (1 + n) c₁ ls₁ tag (omega arith) (omega (arith, r.size)) r.sound in
    (
      c₂,
      ls₂,
      rw (p, load_times) q,
      record {
        sound = subst (λ m. SetOk m ls₂) {x = k + (1 + n)} {y = suc k + n} (omega arith) r'.sound;
        demand = omega (arith, r.demand, r'.demand);
        balance = omega (arith, r.balance, r'.balance);
        size = r'.size ∙ r.size;
      },
    )

-- A modify record makes two calls: the second always hits. The first hits if and only if the tag was
-- held, so the record counts two hits, or one hit and one miss.
pub load_twice_lem :
    (n : ℕ) (c : Counts) (ls : List Line) (tag : ℕ)
    → 2 + n < 2 ^ 64
    → 0 < length ls
    → SetOk n ls
    → (c' : Counts) × (ls' : List Line) × (load_times 2 c ls tag ≡ some (c', ls'))
      × (c'.hit ≡ c.hit + (if resident ls (as_int tag) then 2 else 1))
      × (c'.miss ≡ c.miss + (if resident ls (as_int tag) then 0 else 1))
unfolding load_times
load_twice_lem n c ls tag small lines ok = elim (Bool-cases (resident ls (as_int tag))) [
  | inl e ↦
      let (ls₁, p, sound, stays, full, size) = load_in_cache_hit n c ls tag (omega arith) ok e in
      let (ls₂, q, sound', stays', full', size') =
        load_in_cache_hit (suc n) (record c { hit = c.hit + 1 }) ls₁ tag (omega arith) sound
          (stays (as_int tag) ∙ e) in
      (
        record c { hit = c.hit + 1 + 1 },
        ls₂,
        rw (p, load_times) (rw (q, load_times)),
        ground arith,
        ground arith,
      )
  | inr e ↦
      let (ls₁, v, p, sound, new, other, full, size) =
        load_in_cache_miss n c ls tag (omega arith) lines ok e in
      let (ls₂, q, sound', stays', full', size') =
        load_in_cache_hit (suc n) (count_miss c ls) ls₁ tag (omega arith) sound new in
      (
        record (count_miss c ls) { hit = c.hit + 1 },
        ls₂,
        rw (p, load_times) (rw (q, load_times)),
        ground arith,
        ground arith,
      )
]

-- After an access that returned, the set is sound and holds the tag.
pub load_in_cache-resident :
    (n : ℕ) (c c' : Counts) (ls ls' : List Line) (tag : ℕ)
    → suc n < 2 ^ 64
    → 0 < length ls
    → SetOk n ls
    → load_in_cache c ls tag ≡ some (c', ls')
    → SetOk (suc n) ls' × (resident ls' (as_int tag) ≡ true)
load_in_cache-resident n c c' ls ls' tag small lines ok e =
    elim (Bool-cases (resident ls (as_int tag))) [
      | inl h ↦
          let (ls₁, p, sound, stays, full, size) = load_in_cache_hit n c ls tag small ok h in
          let q : ls₁ ≡ ls' = cc in
          (
            subst (SetOk (suc n)) q sound,
            subst (λ l. resident l (as_int tag) ≡ true) q (stays _ ∙ h),
          )
      | inr h ↦
          let (ls₁, v, p, sound, new, other, full, size) =
            load_in_cache_miss n c ls tag small lines ok h in
          let q : ls₁ ≡ ls' = cc in
          (subst (SetOk (suc n)) q sound, subst (λ l. resident l (as_int tag) ≡ true) q new)
    ]
