-- ===== src/Transpose/Cells.antt =====
-- What the writes of trans.c do to one entry.
use mathlib.Core.Path.{subst}
use cmu_15213_csapp3e_lab.Base.{
  ℕ, suc, ◌+◌, ◌-◌, ◌*◌, ◌<◌, ◌≤◌, ◌≡◌, refl, ap, ◌∙◌, Bool, true, false, ◌⊎◌, inl, inr, ◌&&◌, ltb,
  leb, ◌==◌, if◌then◌else◌, arith,
}
use cmu_15213_csapp3e_lab.Transpose.{
  Ints, Tmps, entry, write, read_row, read_column, write_row, write_column, swap,
}

before_row : (n i r : ℕ) → r < i → r * n + n ≤ i * n
before_row n i r h = subst (λ k. r * n + n ≤ k * n) (the_sum) (grind arith)
  where
    d : ℕ
    d = i - suc r

    the_sum : suc r + d ≡ i
    the_sum = omega arith

order : (r i : ℕ) → (r < i) ⊎ ((r ≡ i) ⊎ (i < r))
order r i = ground arith

-- Two entries have one place in memory only if they are the same.
pub place_inj : (n i j r c : ℕ) → j < n → c < n → r * n + c ≡ i * n + j → (r ≡ i) × (c ≡ j)
place_inj n i j r c h g e = elim (order r i) [
  | inl l ↦ let m = before_row n i r l in absurd (omega arith)
  | inr (inl q) ↦ (q, let w = ap (λ k. k * n) q in omega arith)
  | inr (inr l) ↦ let m = before_row n r i l in absurd (omega arith)
]

-- One entry behind one write.
pub entry-write :
    (n : ℕ) (b : Ints) (i j v r c : ℕ)
    → j < n
    → c < n
    → entry n (write n b i j v) r c ≡ (if r == i && c == j then v else entry n b r c)
unfolding entry write
entry-write n b i j v r c h g = let f = place_inj n i j r c h g in grind arith

-- The `k`-th of the eight variables.
abbrev pub nth : Tmps → ℕ → ℕ
nth t k =
    if k == 7
    then t.tmp7
    else if k == 6
    then t.tmp6
    else if k == 5
    then t.tmp5
    else if k == 4
    then t.tmp4
    else if k == 3
    then t.tmp3
    else if k == 2
    then t.tmp2
    else if k == 1
    then t.tmp1
    else t.tmp0

-- The tests of writes that are side by side, taken together.
pub span0 :
    (e : Bool) (j c v w : ℕ)
    → (if e && c == j + 0 then v else w) ≡ (if e && leb j c && ltb c (j + 1) then v else w)
span0 false j c v w = refl
span0 true j c v w = ground arith

pub span :
    (k : ℕ) (e : Bool) (j c v u w : ℕ)
    → (if e && c == j + k then v else (if e && leb j c && ltb c (j + k) then u else w))
      ≡ (if e && leb j c && ltb c (j + suc k) then (if c - j == k then v else u) else w)
span k false j c v u w = refl
span k true j c v u w = ground arith

spans :
    (e : Bool) (j c : ℕ) (t : Tmps) (w : ℕ)
    → (if e && c == j + 7
        then t.tmp7
        else if e && c == j + 6
        then t.tmp6
        else if e && c == j + 5
        then t.tmp5
        else if e && c == j + 4
        then t.tmp4
        else if e && c == j + 3
        then t.tmp3
        else if e && c == j + 2
        then t.tmp2
        else if e && c == j + 1
        then t.tmp1
        else if e && c == j + 0
        then t.tmp0
        else w)
      ≡ (if e && leb j c && ltb c (j + 8) then nth t (c - j) else w)
spans e j c t w =
    rw
      (
        span0 e j c t.tmp0 w,
        span 1 e j c t.tmp1 _ w,
        span 2 e j c t.tmp2 _ w,
        span 3 e j c t.tmp3 _ w,
        span 4 e j c t.tmp4 _ w,
        span 5 e j c t.tmp5 _ w,
        span 6 e j c t.tmp6 _ w,
        span 7 e j c t.tmp7 _ w,
      )
      refl

pub nth-read_row :
    (m : ℕ) (a : Ints) (i j k : ℕ) → k < 8 → nth (read_row m a i j) k ≡ entry m a i (j + k)
unfolding read_row
nth-read_row m a i j k h = grind arith

pub entry-write_row :
    (n : ℕ) (b : Ints) (i j : ℕ) (t : Tmps) (r c : ℕ)
    → j + 8 ≤ n
    → c < n
    → entry n (write_row n b i j t) r c
      ≡ (if r == i && leb j c && ltb c (j + 8) then nth t (c - j) else entry n b r c)
unfolding write_row
entry-write_row n b i j t r c h g =
    rw
      (
        entry-write n _ i (j + 7) t.tmp7 r c (omega arith) g,
        entry-write n _ i (j + 6) t.tmp6 r c (omega arith) g,
        entry-write n _ i (j + 5) t.tmp5 r c (omega arith) g,
        entry-write n _ i (j + 4) t.tmp4 r c (omega arith) g,
        entry-write n _ i (j + 3) t.tmp3 r c (omega arith) g,
        entry-write n _ i (j + 2) t.tmp2 r c (omega arith) g,
        entry-write n _ i (j + 1) t.tmp1 r c (omega arith) g,
        entry-write n _ i (j + 0) t.tmp0 r c (omega arith) g,
      )
      (spans (r == i) j c t (entry n b r c))

pub entry-write_flip :
    (n : ℕ) (b : Ints) (i j v r c : ℕ)
    → j < n
    → c < n
    → entry n (write n b i j v) r c ≡ (if c == j && r == i then v else entry n b r c)
entry-write_flip n b i j v r c h g = entry-write n b i j v r c h g ∙ ground arith

-- The values of a column that is written.
pub entry-write_column :
    (n : ℕ) (b : Ints) (i j : ℕ) (t : Tmps) (r c : ℕ)
    → j < n
    → c < n
    → entry n (write_column n b i j t) r c
      ≡ (if c == j && leb i r && ltb r (i + 8) then nth t (r - i) else entry n b r c)
unfolding write_column
entry-write_column n b i j t r c h g =
    rw
      (
        entry-write_flip n _ (i + 7) j t.tmp7 r c h g,
        entry-write_flip n _ (i + 6) j t.tmp6 r c h g,
        entry-write_flip n _ (i + 5) j t.tmp5 r c h g,
        entry-write_flip n _ (i + 4) j t.tmp4 r c h g,
        entry-write_flip n _ (i + 3) j t.tmp3 r c h g,
        entry-write_flip n _ (i + 2) j t.tmp2 r c h g,
        entry-write_flip n _ (i + 1) j t.tmp1 r c h g,
        entry-write_flip n _ (i + 0) j t.tmp0 r c h g,
      )
      (spans (c == j) i r t (entry n b r c))

pub nth-read_column :
    (m : ℕ) (a : Ints) (i j k : ℕ) → k < 8 → nth (read_column m a i j) k ≡ entry m a (i + k) j
unfolding read_column
nth-read_column m a i j k h = grind arith

-- Two entries change places.
pub entry-swap :
    (n : ℕ) (b : Ints) (i1 j1 i2 j2 r c : ℕ)
    → j1 < n
    → j2 < n
    → c < n
    → entry n (swap n i1 j1 i2 j2 b) r c ≡ (
        if r == i2 && c == j2
        then entry n b i1 j1
        else if r == i1 && c == j1
        then entry n b i2 j2
        else entry n b r c)
unfolding swap
entry-swap n b i1 j1 i2 j2 r c h g l =
    rw (entry-write n _ i2 j2 _ r c g l, entry-write n _ i1 j1 _ r c h l) refl
