-- ===== src/CacheSim/Lines.antt =====
-- The lines of one set: when they are sound, which tags they hold, and what a write to one changes.
use mathlib.Core.Path.{subst}
use cmu_15213_csapp3e_lab.Base.{
  ℕ, zero, suc, ◌+◌, ◌≤◌, ◌<◌, ◌≡◌, refl, ◌⊎◌, Bool, false, ◌||◌, some, List, [], ◌∷◌, arith, ltb,
  ◌==◌, if◌then◌else◌, length, get_elem?, set, All, All-mono,
}
use cmu_15213_csapp3e_lab.CacheSim.{Line, holds}

abbrev pub one_if : Bool → ℕ
one_if b = if b then 1 else 0

-- A line is empty and untouched, or filled at a time from 1 to `n`.
abbrev pub LineOk : ℕ → Line → Type 0
LineOk n l = ((l.valid ≡ 0) × (l.time ≡ 0)) ⊎ ((l.valid ≡ 1) × (1 ≤ l.time) × (l.time ≤ n))

-- the set holds the tag in a valid line
abbrev pub resident : List Line → ℕ → Bool
resident [] t = false
resident (l ∷ ls) t = holds l t || resident ls t

-- how many valid lines hold the tag
abbrev pub copies : List Line → ℕ → ℕ
copies [] t = 0
copies (l ∷ ls) t = (if holds l t then 1 else 0) + copies ls t

-- how many lines are filled
abbrev pub filled : List Line → ℕ
filled [] = 0
filled (l ∷ ls) = (if l.valid == 0 then 0 else 1) + filled ls

-- The set after fewer than `n + 1` accesses: the lines are sound and no tag is held twice.
pub record SetOk (n : ℕ) (ls : List Line) : Type 0 where
  pub lines : All (LineOk n) ls
  pub once : (t : ℕ) → copies ls t ≤ 1

pub resident-copies : (ls : List Line) (t : ℕ) → resident ls t ≡ false → copies ls t ≡ 0
resident-copies [] t h = refl
resident-copies (l ∷ ls) t h = ground (arith, resident-copies ls t)

pub filled-le : (ls : List Line) → filled ls ≤ length ls
filled-le [] = omega arith
filled-le (l ∷ ls) = ground (arith, filled-le ls)

-- A write to one line changes the counts by that line alone.
pub copies-set :
    (ls : List Line) (k : ℕ) (l l' : Line) (t : ℕ)
    → get_elem? ls k ≡ some l
    → copies (set ls k l') t + one_if (holds l t) ≡ copies ls t + one_if (holds l' t)
copies-set [] k l l' t h = cc
copies-set (m ∷ ls) zero l l' t h = ground arith
copies-set (m ∷ ls) (suc k) l l' t h = omega (arith, copies-set ls k l l' t h)

pub filled-set :
    (ls : List Line) (k : ℕ) (l l' : Line)
    → get_elem? ls k ≡ some l
    → filled (set ls k l') + (if l.valid == 0 then 0 else 1)
      ≡ filled ls + (if l'.valid == 0 then 0 else 1)
filled-set [] k l l' h = cc
filled-set (m ∷ ls) zero l l' h = ground arith
filled-set (m ∷ ls) (suc k) l l' h = omega (arith, filled-set ls k l l' h)

pub LineOk-set :
    (n : ℕ) (ls : List Line) (k : ℕ) (l : Line)
    → All (LineOk n) ls
    → LineOk n l
    → All (LineOk n) (set ls k l)
LineOk-set n [] k l a h = tt
LineOk-set n (m ∷ ls) zero l a h = (h, a.1)
LineOk-set n (m ∷ ls) (suc k) l a h = (a.0, LineOk-set n ls k l a.1 h)

pub All-get_elem? {κ} :
    (P : Line → Type κ) (ls : List Line) (k : ℕ) (l : Line)
    → All P ls
    → get_elem? ls k ≡ some l
    → P l
All-get_elem? P [] k l a h = cc
All-get_elem? P (m ∷ ls) zero l a h = subst P {x = m} {y = l} (cc) a.0
All-get_elem? P (m ∷ ls) (suc k) l a h = All-get_elem? P ls k l a.1 h

pub resident-eq-copies : (ls : List Line) (t : ℕ) → resident ls t ≡ ltb 0 (copies ls t)
resident-eq-copies [] t = refl
resident-eq-copies (l ∷ ls) t = ground (arith, resident-eq-copies ls t)

-- When every line is stamped, every line is filled.
pub full_of_stamped :
    (n : ℕ) (ls : List Line) → All (LineOk n) ls → All (λ l. 1 ≤ l.time) ls → filled ls ≡ length ls
full_of_stamped n [] a b = refl
full_of_stamped n (l ∷ ls) a b = ground (arith, full_of_stamped n ls a.1 b.1)

pub not_full_of_empty :
    (ls : List Line) (k : ℕ) (l : Line)
    → get_elem? ls k ≡ some l
    → l.valid ≡ 0
    → filled ls < length ls
not_full_of_empty [] k l h e = cc
not_full_of_empty (m ∷ ls) zero l h e = ground (arith, filled-le ls)
not_full_of_empty (m ∷ ls) (suc k) l h e = ground (arith, not_full_of_empty ls k l h e)

pub copies-ge :
    (ls : List Line) (k : ℕ) (l : Line) (t : ℕ)
    → get_elem? ls k ≡ some l
    → one_if (holds l t) ≤ copies ls t
copies-ge [] k l t h = cc
copies-ge (m ∷ ls) zero l t h = ground arith
copies-ge (m ∷ ls) (suc k) l t h = omega (arith, copies-ge ls k l t h)

pub LineOk-suc : (n : ℕ) (ls : List Line) → All (LineOk n) ls → All (LineOk (suc n)) ls
LineOk-suc n ls a = All-mono ls (λ l h. ground arith) a
