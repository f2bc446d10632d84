-- ===== src/DataLab/Bits/Count.antt =====
-- `howManyBits`: the search finds the length of the number.
use mathlib.Core.Path.{subst}
use native.Mathlib.Nat.{one-le-pow, le-div_iff_mul-le, div-lt_iff_lt-mul}
use cmu_15213_csapp3e_lab.Base.{
  ℕ, zero, suc, ◌+◌, ◌/◌, ◌^◌, ◌≤◌, ◌<◌, ◌≡◌, refl, ◌∙◌, sym, ap, inl, inr, true, Bool-cases, ltb,
  ◌==◌, if◌then◌else◌, arith,
}
use cmu_15213_csapp3e_lab.DataLab.Words.{complement, plus, shift_right}
use cmu_15213_csapp3e_lab.DataLab.Digits.{
  power_sum, zero-bit_and, ones-bit_and, bit_or-zero, zero-bit_or,
}
use cmu_15213_csapp3e_lab.DataLab.Sign.{sign_clear, sign_set}
use cmu_15213_csapp3e_lab.DataLab.Bits.{inverted, jump, how_many_bits}

-- the number without its sign: `x`, or `-x - 1`
abbrev pub magnitude : ℕ → ℕ
magnitude x = if ltb x (2 ^ 31) then x else complement x

pub inverted-magnitude : (x : ℕ) → x < 2 ^ 32 → inverted x ≡ magnitude x
unfolding inverted
inverted-magnitude x l = elim (Bool-cases (ltb x (2 ^ 31))) [
  | inl e ↦
      rw
        (
          sign_clear x (ground arith),
          e,
          zero-bit_and (complement x),
          ones-bit_and 32 x l,
          zero-bit_or x,
        )
        refl
  | inr e ↦
      let c : complement x < 2 ^ 32 = omega arith in
      rw
        (
          sign_set x (ground arith) l,
          e,
          zero-bit_and x,
          ones-bit_and 32 (complement x) c,
          bit_or-zero 32 (complement x) c,
        )
        refl
]

-- `x` has `l` binary digits.
abbrev pub Length : ℕ → ℕ → Type 0
Length x zero = x ≡ 0
Length x (suc p) = (2 ^ p ≤ x) × (x < 2 ^ suc p)

power_pos : (k : ℕ) → 0 < 2 ^ k
power_pos k = omega (arith, one-le-pow k 2)

longer : (j x p : ℕ) → Length (x / 2 ^ j) (suc p) → Length x (suc (j + p))
longer j x p h =
    let lo = (le-div_iff_mul-le {k = 2 ^ j} {x = 2 ^ p} {y = x} (power_pos j)).0 h.0 in
    let hi = (div-lt_iff_lt-mul {k = 2 ^ j} {x = x} {y = 2 ^ suc p} (power_pos j)).0 h.1 in
    let e = power_sum j p in
    let f = power_sum j (suc p) in
    let g : suc (j + p) ≡ j + suc p = omega arith in
    (omega (arith, lo, e), omega (arith, hi, f, ap (λ (y : ℕ). 2 ^ y) g))

-- One turn of the search, with `s` places to look at.
record Halved (x j y s : ℕ) : Type 0 where
  pub below : y < 2 ^ s
  pub longer : (l : ℕ) → Length y l → Length x (j + l)
  pub jump : j ≤ s

shift_small : (x k : ℕ) → x < 2 ^ 31 → shift_right x k ≡ x / 2 ^ k
shift_small x k l = let e : ltb x (2 ^ 31) ≡ true = ground arith in rw (e) refl

jump_lem :
    (i s x : ℕ) → s ≡ 2 ^ i → s ≤ 16 → x < 2 ^ 31 → jump x i ≡ (if x / 2 ^ s == 0 then 0 else s)
unfolding jump
jump_lem i s x e b l =
    rw (sym e, shift_small x s l)
      (elim (Bool-cases (x / 2 ^ s == 0)) [
        | inl z ↦ rw (z) (omega arith)
        | inr z ↦ rw (z) (omega arith)
      ])

Length-same : (x y l m : ℕ) → x ≡ y → l ≡ m → Length x l → Length y m
Length-same x y l m e f h = subst (λ a. Length y a) f (subst (λ a. Length a l) e h)

lengthened :
    (s x : ℕ)
    → shift_right x s ≡ x / 2 ^ s
    → 0 < x / 2 ^ s
    → (l : ℕ) → Length (shift_right x s) l
    → Length x (s + l)
lengthened s x e p zero h = absurd (omega (arith, e))
lengthened s x e p (suc k) h =
    let t : suc (s + k) ≡ s + suc k = omega arith in
    subst (λ a. Length x a) t (longer s x k (subst (λ a. Length a (suc k)) e h))

halve :
    (s x : ℕ)
    → x < 2 ^ 31
    → x < 2 ^ (s + s)
    → Halved x (if x / 2 ^ s == 0 then 0 else s) (shift_right x (if x / 2 ^ s == 0 then 0 else s)) s
halve s x l b = elim (Bool-cases (x / 2 ^ s == 0)) [
  | inl z ↦
      let e : shift_right x 0 ≡ x = shift_small x 0 l ∙ omega arith in
      let w = (div-lt_iff_lt-mul {k = 2 ^ s} {x = x} {y = 1} (power_pos s)).0 (ground arith) in
      rw (z) (record {
        below = omega (arith, e, w);
        longer = λ k h. Length-same (shift_right x 0) x k (0 + k) e (omega arith) h;
        jump = omega arith;
      })
  | inr z ↦
      let e = shift_small x s l in
      let w =
        (div-lt_iff_lt-mul {k = 2 ^ s} {x = x} {y = 2 ^ s} (power_pos s)).1
          (omega (arith, power_sum s s)) in
      rw (z) (record {
        below = omega (arith, e, w);
        longer = lengthened s x e (ground arith);
        jump = omega arith;
      })
]

turn :
    (i s x : ℕ)
    → s ≡ 2 ^ i
    → s ≤ 16
    → x < 2 ^ 31
    → x < 2 ^ (s + s)
    → Halved x (jump x i) (shift_right x (jump x i)) s
turn i s x e b l m =
    subst (λ j. Halved x j (shift_right x j) s) (sym (jump_lem i s x e b l)) (halve s x l m)

last_bit : (x : ℕ) → x < 2 → Length x x
last_bit zero l = refl
last_bit (suc zero) l = (omega arith, omega arith)
last_bit (suc (suc x)) l = absurd (omega arith)

-- the five turns, and the bit that is left
all_turns :
    (x1 x2 x3 x4 x5 bit0 bit16 bit8 bit4 bit2 bit1 : ℕ)
    → Halved x1 bit16 x2 16
    → Halved x2 bit8 x3 8
    → Halved x3 bit4 x4 4
    → Halved x4 bit2 x5 2
    → Halved x5 bit1 bit0 1
    → Length x1 (bit16 + (bit8 + (bit4 + (bit2 + (bit1 + bit0)))))
all_turns x1 x2 x3 x4 x5 bit0 bit16 bit8 bit4 bit2 bit1 a b c d e =
    a.longer _ (b.longer _ (c.longer _ (d.longer _ (e.longer _ (last_bit bit0 e.below)))))

total :
    (bit0 bit16 bit8 bit4 bit2 bit1 : ℕ)
    → bit0 < 2
    → bit16 ≤ 16
    → bit8 ≤ 8
    → bit4 ≤ 4
    → bit2 ≤ 2
    → bit1 ≤ 1
    → plus (plus (plus (plus (plus (plus bit16 bit8) bit4) bit2) bit1) bit0) 1
      ≡ suc (bit16 + (bit8 + (bit4 + (bit2 + (bit1 + bit0)))))
total bit0 bit16 bit8 bit4 bit2 bit1 a b c d e f = omega arith

pub counted :
    (x0 x1 : ℕ)
    → inverted x0 ≡ x1
    → x1 < 2 ^ 31
    → (l : ℕ) × (how_many_bits x0 ≡ suc l) × Length x1 l
unfolding how_many_bits
counted x0 x1 q b =
    let bit16 = jump x1 4 in
    let x2 = shift_right x1 bit16 in
    let a = turn 4 16 x1 refl (omega arith) b (omega arith) in
    let bit8 = jump x2 3 in
    let x3 = shift_right x2 bit8 in
    let c = turn 3 8 x2 refl (omega arith) (omega (arith, a.below)) (omega (arith, a.below)) in
    let bit4 = jump x3 2 in
    let x4 = shift_right x3 bit4 in
    let d = turn 2 4 x3 refl (omega arith) (omega (arith, c.below)) (omega (arith, c.below)) in
    let bit2 = jump x4 1 in
    let x5 = shift_right x4 bit2 in
    let e = turn 1 2 x4 refl (omega arith) (omega (arith, d.below)) (omega (arith, d.below)) in
    let bit1 = jump x5 0 in
    let bit0 = shift_right x5 bit1 in
    let f = turn 0 1 x5 refl (omega arith) (omega (arith, e.below)) (omega (arith, e.below)) in
    (
      bit16 + (bit8 + (bit4 + (bit2 + (bit1 + bit0)))),
      rw (q) (total bit0 bit16 bit8 bit4 bit2 bit1 f.below a.jump c.jump d.jump e.jump f.jump),
      all_turns x1 x2 x3 x4 x5 bit0 bit16 bit8 bit4 bit2 bit1 a c d e f,
    )
