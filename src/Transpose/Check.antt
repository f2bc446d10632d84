-- ===== src/Transpose/Check.antt =====
-- `is_transpose`.
use cmu_15213_csapp3e_lab.Base.{ℕ, ◌<◌, ◌≡◌, refl, sym, ◌∙◌, Bool, true, ◌==◌, arith}
use cmu_15213_csapp3e_lab.Transpose.Loops.{all_from, all_from-every, all_from-true}
use cmu_15213_csapp3e_lab.Transpose.Turns.{Turned}
use cmu_15213_csapp3e_lab.Transpose.{Ints, entry, is_transpose}

-- `is_transpose` answers 1 just when each entry of `A` is at its place in `B`.
pub is_transpose_lem :
    (m n : ℕ) (a b : Ints)
    → (is_transpose m n a b ≡ true → (i j : ℕ) → i < n → j < m → entry m a i j ≡ entry n b j i)
      × (((i j : ℕ) → i < n → j < m → entry m a i j ≡ entry n b j i) → is_transpose m n a b ≡ true)
unfolding is_transpose
is_transpose_lem m n a b = (
  (λ h i j l u.
      let f =
        all_from-every n 0 (λ i. all_from m 0 (λ j. entry m a i j == entry n b j i)) h i
          (omega arith) (omega arith) in
      let g =
        all_from-every m 0 (λ j. entry m a i j == entry n b j i) f j (omega arith) (omega arith) in
      ground arith),
  (λ f.
      all_from-true n 0 (λ i. all_from m 0 (λ j. entry m a i j == entry n b j i))
        (λ i l u.
          all_from-true m 0 (λ j. entry m a i j == entry n b j i)
            (λ j v w. let g = f i j (omega arith) (omega arith) in ground arith))),
)

-- A transpose, whatever else was written, passes the test.
pub Turned-is_transpose :
    (m n : ℕ) (a b c : Ints) (part : ℕ → ℕ → Bool)
    → Turned m n a part b c
    → ((r k : ℕ) → r < m → part r k ≡ true)
    → is_transpose m n a c ≡ true
Turned-is_transpose m n a b c part f h =
    (is_transpose_lem m n a c).1 (λ i j l u. let t = h j i u in sym (f j i l ∙ rw (t) refl))
