-- ===== src/Malloc/Blocks/Frame.antt =====
-- Blocks whose bytes are kept are still there.
use cmu_15213_csapp3e_lab.Base.{ℕ, ◌+◌, ◌-◌, ◌≤◌, ◌≡◌, ◌∙◌, ◌⊎◌, inl, inr, List, [], ◌∷◌, arith}
use cmu_15213_csapp3e_lab.Malloc.Words.{Bytes, get, put}
use cmu_15213_csapp3e_lab.Malloc.Words.Laws.{put_far_byte}
use cmu_15213_csapp3e_lab.Malloc.Blocks.{Block, Tagged, span, Ahead, Behind, Kept}

pub put-Kept : (b : Bytes) (p v lo hi : ℕ) → (hi ≤ p) ⊎ (p + 4 ≤ lo) → Kept b (put b p v) lo hi
put-Kept b p v lo hi (inl h) q l g = put_far_byte b p v q (inl (omega arith))
put-Kept b p v lo hi (inr h) q l g = put_far_byte b p v q (inr (omega arith))

pub Kept-trans : (b c d : Bytes) (lo hi : ℕ) → Kept b c lo hi → Kept c d lo hi → Kept b d lo hi
Kept-trans b c d lo hi h k q l g = k q l g ∙ h q l g

pub Kept-within :
    (b c : Bytes) (lo hi lo2 hi2 : ℕ) → Kept b c lo hi → lo ≤ lo2 → hi2 ≤ hi → Kept b c lo2 hi2
Kept-within b c lo hi lo2 hi2 h l g q m n = h q (omega arith) (omega arith)

pub get-Kept :
    (b c : Bytes) (lo hi p : ℕ) → Kept b c lo hi → lo ≤ p → p + 4 ≤ hi → get c p ≡ get b p
unfolding get
get-Kept b c lo hi p h l g = omega (
  arith,
  h p (omega arith) (omega arith),
  h (p + 1) (omega arith) (omega arith),
  h (p + 2) (omega arith) (omega arith),
  h (p + 3) (omega arith) (omega arith),
)

Tagged-Kept :
    (b c : Bytes) (lo hi bp : ℕ) (k : Block)
    → Kept b c lo hi
    → 4 ≤ bp
    → lo + 4 ≤ bp
    → bp + k.size ≤ hi + 4
    → Tagged b bp k
    → Tagged c bp k
Tagged-Kept b c lo hi bp k h z l g t = record {
  aligned = t.aligned;
  least = t.least;
  header = get-Kept b c lo hi (bp - 4) h (omega arith) (omega (arith, t.least)) ∙ t.header;
  footer =
      get-Kept b c lo hi (bp + k.size - 8) h (omega (arith, t.least)) (omega (arith, t.least))
      ∙ t.footer;
}

pub Ahead-Kept :
    (b c : Bytes) (lo hi bp : ℕ) (ks : List Block)
    → Kept b c lo hi
    → 4 ≤ bp
    → lo + 4 ≤ bp
    → bp + span ks ≤ hi + 4
    → Ahead b bp ks
    → Ahead c bp ks
Ahead-Kept b c lo hi bp [] h z l g a = tt
Ahead-Kept b c lo hi bp (k ∷ ks) h z l g (t, a) = (
  Tagged-Kept b c lo hi bp k h z l (omega arith) t,
  Ahead-Kept b c lo hi (bp + k.size) ks h (omega arith) (omega arith) (omega arith) a,
)

pub Behind-Kept :
    (b c : Bytes) (lo hi start : ℕ) (ks : List Block)
    → Kept b c lo hi
    → 4 ≤ start
    → lo + 4 ≤ start
    → start + span ks ≤ hi + 4
    → Behind b start ks
    → Behind c start ks
Behind-Kept b c lo hi start [] h z l g a = tt
Behind-Kept b c lo hi start (k ∷ ks) h z l g (t, a) = (
  Tagged-Kept b c lo hi (start + span ks) k h (omega arith) (omega arith) (omega arith) t,
  Behind-Kept b c lo hi start ks h z l (omega arith) a,
)
