-- ===== src/Malloc/Words/Laws.antt =====
-- A word that is read behind a write is the one written, or one that was there before.
use cmu_15213_csapp3e_lab.Base.{ℕ, ◌+◌, ◌^◌, ◌≤◌, ◌<◌, ◌≡◌, ◌⊎◌, inl, inr, arith}
use cmu_15213_csapp3e_lab.Malloc.Words.{Bytes, get, put}

pub put_far_byte : (b : Bytes) (p v q : ℕ) → (q < p) ⊎ (p + 4 ≤ q) → put b p v q ≡ b q
unfolding put
put_far_byte b p v q h = ground arith

pub get-put_self : (b : Bytes) (p v : ℕ) → v < 2 ^ 32 → get (put b p v) p ≡ v
unfolding get put
get-put_self b p v h = ground arith

pub get-put_far : (b : Bytes) (p v q : ℕ) → (q + 4 ≤ p) ⊎ (p + 4 ≤ q) → get (put b p v) q ≡ get b q
unfolding get
get-put_far b p v q (inl h) = omega (
  arith,
  put_far_byte b p v q (inl (omega arith)),
  put_far_byte b p v (q + 1) (inl (omega arith)),
  put_far_byte b p v (q + 2) (inl (omega arith)),
  put_far_byte b p v (q + 3) (inl (omega arith)),
)
get-put_far b p v q (inr h) = omega (
  arith,
  put_far_byte b p v q (inr (omega arith)),
  put_far_byte b p v (q + 1) (inr (omega arith)),
  put_far_byte b p v (q + 2) (inr (omega arith)),
  put_far_byte b p v (q + 3) (inr (omega arith)),
)
