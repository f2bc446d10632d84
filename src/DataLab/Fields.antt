-- ===== src/DataLab/Fields.antt =====
-- Masks and fields: `&` and `|` of numbers whose digits are apart.
use Prim.Native.Nat.{bit_and, bit_or}
use native.Mathlib.Nat.{pow-suc}
use cmu_15213_csapp3e_lab.Base.{
  ℕ, zero, suc, ◌+◌, ◌-◌, ◌*◌, ◌/◌, ◌%◌, ◌^◌, ◌<◌, ◌≡◌, refl, ◌∙◌, sym, ap, arith,
}
use cmu_15213_csapp3e_lab.DataLab.Digits.{
  bit_and-halves, bit_or-halves, zero-bit_or, bit_and-zero, bit_and-one, and_same,
}

or_same : (a b c d : ℕ) → a ≡ c → b ≡ d → bit_or a b ≡ bit_or c d
or_same a b c d p q = ap (λ x. bit_or x b) p ∙ ap (λ x. bit_or c x) q

pub times_power : (q k : ℕ) → q * 2 ^ suc k ≡ q * 2 ^ k * 2
times_power q k = grind (arith, pow-suc 2 k)

-- `&` of a number and a field `m`, `k` digits up
field :
    (n k q r m : ℕ)
    → q < 2 ^ n
    → r < 2 ^ k
    → bit_and (q * 2 ^ k + r) (m * 2 ^ k) ≡ bit_and q m * 2 ^ k
field n zero q r m l b =
    omega (arith, and_same (q * 2 ^ 0 + r) (m * 2 ^ 0) q m (omega arith) (omega arith))
field n (suc k) q r m l b =
    let a = times_power q k in
    let c = times_power m k in
    let d = times_power (bit_and q m) k in
    let p = pow-suc 2 k in
    let x = q * 2 ^ suc k + r in
    let y = m * 2 ^ suc k in
    let e =
      and_same (x / 2) (y / 2) (q * 2 ^ k + r / 2) (m * 2 ^ k) (omega (arith, a))
        (omega (arith, c)) in
    let ih = field n k q (r / 2) m l (omega (arith, p)) in
    omega (arith, bit_and-halves x y, e, ih, a, c, d)

-- `&` with `k` ones
low : (n k q r : ℕ) → q < 2 ^ n → r < 2 ^ k → bit_and (q * 2 ^ k + r) (2 ^ k - 1) ≡ r
low n zero q r l b =
    omega (arith, and_same (q * 2 ^ 0 + r) (2 ^ 0 - 1) q 0 (omega arith) refl, bit_and-zero n q l)
low n (suc k) q r l b =
    let a = times_power q k in
    let p = pow-suc 2 k in
    let x = q * 2 ^ suc k + r in
    let y = 2 ^ suc k - 1 in
    let e =
      and_same (x / 2) (y / 2) (q * 2 ^ k + r / 2) (2 ^ k - 1) (omega (arith, a))
        (omega (arith, p)) in
    let ih = low n k q (r / 2) l (omega (arith, p)) in
    omega (arith, bit_and-halves x y, e, ih, a, p)

-- `|` with one digit above
pub bit_or-above : (k r : ℕ) → r < 2 ^ k → bit_or r (2 ^ k) ≡ r + 2 ^ k
bit_or-above zero zero b = zero-bit_or 1
bit_or-above zero (suc r) b = absurd (omega arith)
bit_or-above (suc k) r b =
    let p = pow-suc 2 k in
    let e = or_same (r / 2) (2 ^ suc k / 2) (r / 2) (2 ^ k) refl (omega (arith, p)) in
    omega (arith, bit_or-halves r (2 ^ suc k), e, bit_or-above k (r / 2) (omega (arith, p)), p)

pub bit_or-below : (k r : ℕ) → r < 2 ^ k → bit_or (2 ^ k) r ≡ 2 ^ k + r
bit_or-below zero zero b = refl
bit_or-below zero (suc r) b = absurd (omega arith)
bit_or-below (suc k) r b =
    let p = pow-suc 2 k in
    let e = or_same (2 ^ suc k / 2) (r / 2) (2 ^ k) (r / 2) (omega (arith, p)) refl in
    omega (arith, bit_or-halves (2 ^ suc k) r, e, bit_or-below k (r / 2) (omega (arith, p)), p)

-- the fields of a `float`
pub fraction_lem : (x : ℕ) → x < 2 ^ 32 → bit_and x 0x7FFFFF ≡ x % 2 ^ 23
fraction_lem x l =
    let e : x ≡ x / 2 ^ 23 * 2 ^ 23 + x % 2 ^ 23 = omega arith in
    ap (λ y. bit_and y 0x7FFFFF) e ∙ low 32 23 (x / 2 ^ 23) (x % 2 ^ 23) (omega arith) (omega arith)

pub low_lem :
    (k x : ℕ)
    → x < 2 ^ 32
    → x / 2 ^ k * 2 ^ k + x % 2 ^ k ≡ x
    → x % 2 ^ k < 2 ^ k
    → x / 2 ^ k < 2 ^ 32
    → bit_and x (2 ^ k - 1) ≡ x % 2 ^ k
low_lem k x l e b q = ap (λ y. bit_and y (2 ^ k - 1)) (sym e) ∙ low 32 k (x / 2 ^ k) (x % 2 ^ k) q b

pub byte_lem : (x : ℕ) → x < 2 ^ 32 → bit_and x 0xFF ≡ x % 2 ^ 8
byte_lem x l =
    let e : x ≡ x / 2 ^ 8 * 2 ^ 8 + x % 2 ^ 8 = omega arith in
    ap (λ y. bit_and y 0xFF) e ∙ low 32 8 (x / 2 ^ 8) (x % 2 ^ 8) (omega arith) (omega arith)

pub exponent_lem : (x : ℕ) → x < 2 ^ 32 → bit_and x 0x7f800000 ≡ x / 2 ^ 23 % 2 ^ 8 * 2 ^ 23
exponent_lem x l =
    let e : x ≡ x / 2 ^ 23 * 2 ^ 23 + x % 2 ^ 23 = omega arith in
    ap (λ y. bit_and y 0x7f800000) e
    ∙ field 32 23 (x / 2 ^ 23) (x % 2 ^ 23) 0xFF (omega arith) (omega arith)
    ∙ ap (λ y. y * 2 ^ 23) (byte_lem (x / 2 ^ 23) (omega arith))

pub sign_lem : (x : ℕ) → x < 2 ^ 32 → bit_and x 0x80000000 ≡ x / 2 ^ 31 * 2 ^ 31
sign_lem x l =
    let e : x ≡ x / 2 ^ 31 * 2 ^ 31 + x % 2 ^ 31 = omega arith in
    ap (λ y. bit_and y 0x80000000) e
    ∙ field 32 31 (x / 2 ^ 31) (x % 2 ^ 31) 1 (omega arith) (omega arith)
    ∙ ap (λ y. y * 2 ^ 31) (bit_and-one 32 (x / 2 ^ 31) (omega arith) ∙ omega arith)
