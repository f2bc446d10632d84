-- ===== src/Transpose/Large/Fours.antt =====
-- Writes of four ints side by side.
use mathlib.Core.Path.{subst}
use cmu_15213_csapp3e_lab.Base.{
  ℕ, ◌+◌, ◌-◌, ◌<◌, ◌≤◌, ◌≡◌, refl, Bool, true, false, ◌&&◌, ltb, leb, ◌==◌, if◌then◌else◌, arith,
}
use cmu_15213_csapp3e_lab.Transpose.Loops.{for_loop, for_loop_rule}
use cmu_15213_csapp3e_lab.Transpose.Cells.{entry-write, entry-write_flip, span0, span}
use cmu_15213_csapp3e_lab.Transpose.{Ints, entry, write}

abbrev pub four : ℕ → ℕ → ℕ → ℕ → ℕ → ℕ
four t0 t1 t2 t3 k = if k == 3 then t3 else if k == 2 then t2 else if k == 1 then t1 else t0

spans4 :
    (e : Bool) (j c t0 t1 t2 t3 w : ℕ)
    → (if e && c == j + 3
        then t3
        else if e && c == j + 2
        then t2
        else if e && c == j + 1
        then t1
        else if e && c == j + 0
        then t0
        else w)
      ≡ (if e && leb j c && ltb c (j + 4) then four t0 t1 t2 t3 (c - j) else w)
spans4 e j c t0 t1 t2 t3 w =
    rw (span0 e j c t0 w, span 1 e j c t1 _ w, span 2 e j c t2 _ w, span 3 e j c t3 _ w) refl

-- Four writes to a row: the columns `j0` to `j3` are those from `j` on.
pub entry-row4 :
    (n : ℕ) (b : Ints) (i j j0 j1 j2 j3 t0 t1 t2 t3 r c : ℕ)
    → (j0 ≡ j + 0) × (j1 ≡ j + 1) × (j2 ≡ j + 2) × (j3 ≡ j + 3)
    → j + 4 ≤ n
    → c < n
    → entry n (write n (write n (write n (write n b i j0 t0) i j1 t1) i j2 t2) i j3 t3) r c
      ≡ (if r == i && leb j c && ltb c (j + 4) then four t0 t1 t2 t3 (c - j) else entry n b r c)
entry-row4 n b i j j0 j1 j2 j3 t0 t1 t2 t3 r c (e0, e1, e2, e3) h g =
    rw
      (
        entry-write n _ i j3 t3 r c (omega arith) g,
        entry-write n _ i j2 t2 r c (omega arith) g,
        entry-write n _ i j1 t1 r c (omega arith) g,
        entry-write n _ i j0 t0 r c (omega arith) g,
        e0,
        e1,
        e2,
        e3,
      )
      (spans4 (r == i) j c t0 t1 t2 t3 (entry n b r c))

pub entry-column4 :
    (n : ℕ) (b : Ints) (i j i0 i1 i2 i3 t0 t1 t2 t3 r c : ℕ)
    → (i0 ≡ i + 0) × (i1 ≡ i + 1) × (i2 ≡ i + 2) × (i3 ≡ i + 3)
    → j < n
    → c < n
    → entry n (write n (write n (write n (write n b i0 j t0) i1 j t1) i2 j t2) i3 j t3) r c
      ≡ (if c == j && leb i r && ltb r (i + 4) then four t0 t1 t2 t3 (r - i) else entry n b r c)
entry-column4 n b i j i0 i1 i2 i3 t0 t1 t2 t3 r c (e0, e1, e2, e3) h g =
    rw
      (
        entry-write_flip n _ i3 j t3 r c h g,
        entry-write_flip n _ i2 j t2 r c h g,
        entry-write_flip n _ i1 j t1 r c h g,
        entry-write_flip n _ i0 j t0 r c h g,
        e0,
        e1,
        e2,
        e3,
      )
      (spans4 (c == j) i r t0 t1 t2 t3 (entry n b r c))

-- Four entries side by side, by the place of one of them.
pub four_at :
    (f : ℕ → ℕ) (i i0 i1 i2 i3 x y : ℕ)
    → (i0 ≡ i + 0) × (i1 ≡ i + 1) × (i2 ≡ i + 2) × (i3 ≡ i + 3)
    → x < 4
    → y ≡ i + x
    → four (f i0) (f i1) (f i2) (f i3) x ≡ f y
four_at f i i0 i1 i2 i3 x y e h g = grind arith

-- Two writes, one after the other, to a state that is known in three parts.
pub merge :
    (c1 c2 p1 p2 q1 q2 : Bool) (v1 v2 w1 w2 w3 : ℕ)
    → (c1 ≡ true → (q1 ≡ false) × (q2 ≡ true) × (v1 ≡ w2))
    → (c1 ≡ false → c2 ≡ true → (q1 ≡ true) × (v2 ≡ w1))
    → (c1 ≡ false → c2 ≡ false → (q1 ≡ p1) × (q2 ≡ p2))
    → (if c1 then v1 else if c2 then v2 else if p1 then w1 else if p2 then w2 else w3)
      ≡ (if q1 then w1 else if q2 then w2 else w3)
merge true c2 p1 p2 q1 q2 v1 v2 w1 w2 w3 f g h = let (x, y, z) = f refl in rw (x, y) z
merge false true p1 p2 q1 q2 v1 v2 w1 w2 w3 f g h = let (x, y) = g refl refl in rw (x) y
merge false false p1 p2 q1 q2 v1 v2 w1 w2 w3 f g h = let (x, y) = h refl refl in rw (x, y) refl

-- A loop of four turns, by its step.
pub loop4 :
    (s e : ℕ) (state : ℕ → Ints → Ints → Type 0) (body : ℕ → Ints → Ints) (b : Ints)
    → e ≡ s + 4
    → state s b b
    → ((t : ℕ) (c : Ints) → s ≤ t → t < s + 4 → state t b c → state (t + 1) b (body t c))
    → state e b (for_loop s e 1 body b)
loop4 s e state body b q z f =
    let (k, x, (l, (h, y))) =
      for_loop_rule e 1 body (omega arith) (λ k c. (s ≤ k) × ((k ≤ s + 4) × state k b c))
        (λ k c v (l, (h, y)). (omega arith, (omega arith, f k c l (omega arith) y))) s b
        (omega arith, (omega arith, z)) in
    let w : k ≡ e = omega arith in subst (λ t. state t b (for_loop s e 1 body b)) w y
