-- ===== src/Transpose/Large/Whole.antt =====
-- The whole of `trans_64_64`, and `transpose_submit`.
use mathlib.Core.Path.{subst}
use cmu_15213_csapp3e_lab.Base.{
  ℕ, ◌+◌, ◌%◌, ◌≤◌, ◌≡◌, refl, sym, ◌∙◌, ◌⊎◌, inl, inr, Bool, true, false, Bool-cases, not, ◌&&◌,
  ◌||◌, none, some, ltb, leb, ◌==◌, if◌then◌else◌, arith,
}
use cmu_15213_csapp3e_lab.Transpose.Loops.{for_loop}
use cmu_15213_csapp3e_lab.Transpose.Turns.{Turned, in_box, loop-Turned, Turned-same, Turned-none}
use cmu_15213_csapp3e_lab.Transpose.Blocks.{overrun, trans_61_67_lem}
use cmu_15213_csapp3e_lab.Transpose.Square.{trans_32_32_opt_lem}
use cmu_15213_csapp3e_lab.Transpose.Check.{Turned-is_transpose}
use cmu_15213_csapp3e_lab.Transpose.{Ints, is_transpose, trans_32_32_opt, trans_61_67}
use cmu_15213_csapp3e_lab.Transpose.Large.Off.{off_block-Turned}
use cmu_15213_csapp3e_lab.Transpose.Large.Diagonal.{diagonal-inside, diagonal-outside}
use cmu_15213_csapp3e_lab.Transpose.Large.{diagonal, off_block, trans_64_64, transpose_submit}

module _ (n : ℕ) (a : Ints) (eights : n % 8 ≡ 0) (two : 16 ≤ n) where
  one_block :
      (i j : ℕ) (b : Ints)
      → i + 8 ≤ n
      → j + 8 ≤ n
      → Turned n n a
          (λ r c. not (i == j) && in_box i 8 j 8 r c)
          b
          (if i == j then b else off_block n n a i j b)
  one_block i j b l h = elim (Bool-cases (i == j)) [
    | inl e ↦ rw (e) (Turned-none n n a b)
    | inr e ↦ rw (e) (off_block-Turned n n a i j b l h)
  ]

  -- the blocks of eight rows of `B` but for the one on the diagonal
  abbrev beside : ℕ → ℕ → ℕ → ℕ → Bool
  beside i k r c = leb i r && ltb r (i + 8) && ltb c k && not (leb i c && ltb c (i + 8))

  off_blocks :
      (i : ℕ) (b : Ints)
      → i + 8 ≤ n
      → i % 8 ≡ 0
      → Turned n n a
          (beside i n)
          b
          (for_loop 0 n 8 (λ j d. if i == j then d else off_block n n a i j d) b)
  off_blocks i b l o =
      let body : ℕ → Ints → Ints = λ j d. if i == j then d else off_block n n a i j d in
      let (k, x, (u, t)) =
        loop-Turned n n a (beside i) (λ k r c. not (i == k) && in_box i 8 k 8 r c) (λ k. k % 8 ≡ 0)
          n 8 body (omega arith) (λ k d y z. one_block i k d l (omega arith)) (λ k y z. omega arith)
          (λ k r c y z u. ground arith) 0 (omega arith) (λ r c u. ground arith) b in
      Turned-same n n a (beside i k) (beside i n) b (for_loop 0 n 8 body b) t
        (λ r c u. ground arith)

  -- Eight rows of `B`.
  strip :
      (i j : ℕ) (b : Ints)
      → i + 8 ≤ n
      → i % 8 ≡ 0
      → j + 8 ≤ n
      → (i + 8 ≤ j) ⊎ (j + 8 ≤ i)
      → Turned n n a
          (λ r c. leb i r && ltb r (i + 8))
          b
          (for_loop 0 n 8
            (λ j d. if i == j then d else off_block n n a i j d)
            (diagonal n n a i j b))
  strip i j b l o h p r k u = elim (Bool-cases (beside i n r k)) [
    | inl e ↦
        let g : (leb i r && ltb r (i + 8)) ≡ true = ground arith in
        off_blocks i (diagonal n n a i j b) l o r k u ∙ rw (e, g) refl
    | inr e ↦ elim (Bool-cases (leb i r && ltb r (i + 8))) [
      | inl g ↦
          off_blocks i (diagonal n n a i j b) l o r k u
          ∙ rw (e, g) (diagonal-inside n n a i j b l h p r k (ground arith))
      | inr g ↦
          off_blocks i (diagonal n n a i j b) l o r k u
          ∙ rw (e, g) (diagonal-outside n n a i j b l h p r k u (ground arith) (ground arith))
    ]
  ]

  -- `trans_64_64` makes `B` the transpose of `A`, for square matrices of at least two blocks to a side, and
  -- writes nothing behind the end of `B`.
  pub trans_64_64_lem : (b : Ints) → Turned n n a (λ r c. ltb r n) b (trans_64_64 n n a b)
  unfolding trans_64_64
  trans_64_64_lem b =
      let rows : ℕ → Ints → Ints = λ i b.
        for_loop 0 n 8 (λ j d. if i == j then d else off_block n n a i j d)
          (diagonal n n a i (if i == 0 then 8 else 0) b) in
      let (k, x, (u, t)) =
        loop-Turned n n a (λ k r c. ltb r k) (λ k r c. leb k r && ltb r (k + 8))
          (λ k. (k % 8 ≡ 0) × (k ≤ n)) n 8 rows (omega arith)
          (λ k d y z.
            strip k (if k == 0 then 8 else 0) d (omega arith) z.0 (ground arith) (ground arith))
          (λ k y z. omega arith) (λ k r c y z u. ground arith) 0 (omega arith)
          (λ r c u. ground arith) b in
      Turned-same n n a (λ r c. ltb r k) (λ r c. ltb r n) b (for_loop 0 n 8 rows b) t
        (λ r c u. ground arith)

-- the sizes that `transpose_submit` knows
abbrev pub is_size : ℕ → ℕ → Bool
is_size m n = (m == 32 && n == 32) || (m == 64 && n == 64) || (m == 61 && n == 67)

-- For one of its three sizes `transpose_submit` makes an array that passes `is_transpose`, and for all other sizes
-- it exits.
pub transpose_submit_lem :
    (m n : ℕ) (a b : Ints)
    → ((is_size m n ≡ true)
        × ((c : Ints) × (transpose_submit m n a b ≡ some c) × (is_transpose m n a c ≡ true)))
      ⊎ ((is_size m n ≡ false) × (transpose_submit m n a b ≡ none))
unfolding transpose_submit
transpose_submit_lem m n a b = elim (Bool-cases (m == 32 && n == 32)) [
  | inl e ↦
      let p : m ≡ 32 = ground arith in
      let q : n ≡ 32 = ground arith in
      inl (
        ground arith,
        (
          trans_32_32_opt m n a b,
          rw (e, transpose_submit) refl,
          Turned-is_transpose m n a b (trans_32_32_opt m n a b) (λ r c. ltb r m)
              (trans_32_32_opt_lem m n a b (omega arith) (omega arith)) (λ r k l. ground arith),
        ),
      )
  | inr e ↦ elim (Bool-cases (m == 64 && n == 64)) [
    | inl f ↦
        let p : m ≡ 64 = ground arith in
        let q : n ≡ 64 = ground arith in
        inl (
          ground arith,
          (
            trans_64_64 m n a b,
            rw (e, f, transpose_submit) refl,
            subst (λ z. is_transpose m z a (trans_64_64 m z a b) ≡ true) (p ∙ sym q)
                (Turned-is_transpose m m a b (trans_64_64 m m a b) (λ r c. ltb r m)
                  (trans_64_64_lem m a (omega arith) (omega arith) b) (λ r k l. ground arith)),
          ),
        )
    | inr f ↦ elim (Bool-cases (m == 61 && n == 67)) [
      | inl g ↦
          let p : 61 ≡ m = ground arith in
          let q : 67 ≡ n = ground arith in
          inl (
            ground arith,
            (
              trans_61_67 m n a b,
              rw (e, f, g, transpose_submit) refl,
              subst (λ z. is_transpose z n a (trans_61_67 z n a b) ≡ true) p
                  (subst (λ z. is_transpose 61 z a (trans_61_67 61 z a b) ≡ true) q
                    (Turned-is_transpose 61 67 a b (trans_61_67 61 67 a b) overrun
                      (trans_61_67_lem a b) (λ r k l. ground arith))),
            ),
          )
      | inr g ↦ inr (ground arith, rw (e, f, g, transpose_submit) refl)
    ]
  ]
]
