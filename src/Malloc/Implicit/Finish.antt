-- ===== src/Malloc/Implicit/Finish.antt =====
-- Blocks are made one by writing the tags of one.
use cmu_15213_csapp3e_lab.Base.{ℕ, ◌+◌, ◌-◌, ◌≤◌, ◌≡◌, refl, inl, inr, List, ◌++◌}
use cmu_15213_csapp3e_lab.Malloc.Words.{Bytes, put}
use cmu_15213_csapp3e_lab.Malloc.Blocks.{Block, Tagged, span, Ahead, Kept}
use cmu_15213_csapp3e_lab.Malloc.Blocks.Frame.{put-Kept, Kept-trans}
use cmu_15213_csapp3e_lab.Malloc.Blocks.Zip.{Zip, free, replaced}
use cmu_15213_csapp3e_lab.Malloc.Blocks.Rover.{Starts, settled-Starts}
use cmu_15213_csapp3e_lab.Malloc.Implicit.{Heap, settle_rover}
use cmu_15213_csapp3e_lab.Malloc.Implicit.Coalesce.{Joined, settle_lem}

-- the blocks `xs` made one by writing its tags
pub finish :
    (h : Heap) (c : Bytes) (lo hi n : ℕ) (r xs s : List Block)
    → Zip h.bytes lo r (xs ++ s) hi
    → Ahead h.bytes (lo + span r + n) s
    → lo + span r + n + span s ≡ hi
    → n ≡ span xs
    → Tagged c (lo + span r) (free n)
    → Kept h.bytes c 0 (lo + span r - 4)
    → ((top : ℕ) → Kept h.bytes c (lo + span r + n - 4) top)
    → Starts lo r (xs ++ s) h.rover
    → Joined h (settle_rover (record h { bytes = c }) (lo + span r)) lo r n s hi
finish h c lo hi n r xs s z a e q t below above st =
    rw (settle_lem (record h { bytes = c }) (lo + span r) (free n) t) (record {
      place = refl;
      zip = replaced h.bytes c lo hi r (xs ++ s) s (free n) z a e t below (above hi);
      below = below;
      above = above;
      mem = refl;
      heap_listp = refl;
      rover = settled-Starts lo h.rover r xs s (free n) q st;
    })

-- A write inside a block keeps what is below and above it.
inner_below : (b : Bytes) (p v lo : ℕ) → lo ≤ p → Kept b (put b p v) 0 lo
inner_below b p v lo h = put-Kept b p v 0 lo (inl h)

inner_above : (b : Bytes) (p v hi top : ℕ) → p + 4 ≤ hi → Kept b (put b p v) hi top
inner_above b p v hi top h = put-Kept b p v hi top (inr h)

pub two_below : (b : Bytes) (p q v w lo : ℕ) → lo ≤ p → lo ≤ q → Kept b (put (put b p v) q w) 0 lo
two_below b p q v w lo h g =
    Kept-trans b (put b p v) (put (put b p v) q w) 0 lo (inner_below b p v lo h)
      (inner_below (put b p v) q w lo g)

pub two_above :
    (b : Bytes) (p q v w hi top : ℕ) → p + 4 ≤ hi → q + 4 ≤ hi → Kept b (put (put b p v) q w) hi top
two_above b p q v w hi top h g =
    Kept-trans b (put b p v) (put (put b p v) q w) hi top (inner_above b p v hi top h)
      (inner_above (put b p v) q w hi top g)
