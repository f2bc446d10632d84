-- ===== src/DataLab/Digits.antt =====
-- The bitwise operations on numbers of a given width, by their lowest digits.
use Prim.Native.Nat.{
  min, max, digits, differ, bit_and, bit_or, bit_xor, bit_and-bitwise, bit_or-bitwise,
  bit_xor-bitwise,
}
use native.Mathlib.Nat.{pow-suc, div-div-eq-div-mul}
use cmu_15213_csapp3e_lab.Base.{
  ℕ, zero, suc, ◌+◌, ◌-◌, ◌*◌, ◌/◌, ◌%◌, ◌^◌, ◌≤◌, ◌<◌, ◌≡◌, refl, ◌∙◌, sym, ap, arith,
}

pub power_sum : (j p : ℕ) → 2 ^ (j + p) ≡ 2 ^ p * 2 ^ j
power_sum zero p = let e : 0 + p ≡ p = omega arith in omega (arith, ap (λ (x : ℕ). 2 ^ x) e)
power_sum (suc j) p =
    let e : suc j + p ≡ suc (j + p) = omega arith in
    ap (λ (x : ℕ). 2 ^ x) e ∙ grind (arith, pow-suc 2 (j + p), power_sum j p, pow-suc 2 j)

module _ (z : ℕ → ℕ) (f : ℕ → ℕ → ℕ) where
  digits-fuel : (n m a b : ℕ) → a ≤ n → a ≤ m → digits z f n a b ≡ digits z f m a b
  digits-fuel zero zero a b p q = refl
  digits-fuel zero (suc m) zero b p q = refl
  digits-fuel (suc n) zero zero b p q = refl
  digits-fuel (suc n) (suc m) zero b p q = refl
  digits-fuel zero m (suc a) b p q = absurd (omega arith)
  digits-fuel n zero (suc a) b p q = absurd (omega arith)
  digits-fuel (suc n) (suc m) (suc a) b p q =
      ap (λ x. x * 2 + f (suc a % 2) (b % 2))
        (digits-fuel n m (suc a / 2) (b / 2) (omega arith) (omega arith))

  digits-halves :
      (a b : ℕ)
      → digits z f (suc a) (suc a) b
        ≡ digits z f (suc a / 2) (suc a / 2) (b / 2) * 2 + f (suc a % 2) (b % 2)
  digits-halves a b =
      ap (λ x. x * 2 + f (suc a % 2) (b % 2))
        (digits-fuel a (suc a / 2) (suc a / 2) (b / 2) (omega arith) (omega arith))

differ_digits : (a b : ℕ) → a < 2 → b < 2 → differ a b ≡ (a + b) % 2
differ_digits zero b p q = omega arith
differ_digits (suc zero) zero p q = refl
differ_digits (suc zero) (suc zero) p q = refl
differ_digits (suc zero) (suc (suc b)) p q = absurd (omega arith)
differ_digits (suc (suc a)) b p q = absurd (omega arith)

pub bit_and-halves : (a b : ℕ) → bit_and a b ≡ bit_and (a / 2) (b / 2) * 2 + min (a % 2) (b % 2)
bit_and-halves zero b = omega (arith, bit_and-bitwise 0 b, bit_and-bitwise 0 (b / 2))
bit_and-halves (suc a) b = omega (
  arith,
  bit_and-bitwise (suc a) b,
  bit_and-bitwise (suc a / 2) (b / 2),
  digits-halves (λ y. 0) min a b,
)

pub bit_or-halves : (a b : ℕ) → bit_or a b ≡ bit_or (a / 2) (b / 2) * 2 + max (a % 2) (b % 2)
bit_or-halves zero b = omega (arith, bit_or-bitwise 0 b, bit_or-bitwise 0 (b / 2))
bit_or-halves (suc a) b = omega (
  arith,
  bit_or-bitwise (suc a) b,
  bit_or-bitwise (suc a / 2) (b / 2),
  digits-halves (λ y. y) max a b,
)

pub bit_xor-halves : (a b : ℕ) → bit_xor a b ≡ bit_xor (a / 2) (b / 2) * 2 + (a % 2 + b % 2) % 2
bit_xor-halves zero b = omega (arith, bit_xor-bitwise 0 b, bit_xor-bitwise 0 (b / 2))
bit_xor-halves (suc a) b = omega (
  arith,
  bit_xor-bitwise (suc a) b,
  bit_xor-bitwise (suc a / 2) (b / 2),
  digits-halves (λ y. y) differ a b,
  differ_digits (suc a % 2) (b % 2) (omega arith) (omega arith),
)

pub zero-bit_and : (b : ℕ) → bit_and 0 b ≡ 0
zero-bit_and b = bit_and-bitwise 0 b

pub zero-bit_or : (b : ℕ) → bit_or 0 b ≡ b
zero-bit_or b = bit_or-bitwise 0 b

pub bit_or-zero : (k a : ℕ) → a < 2 ^ k → bit_or a 0 ≡ a
bit_or-zero zero zero l = zero-bit_or 0
bit_or-zero zero (suc a) l = absurd (omega arith)
bit_or-zero (suc k) a l =
    omega
      (arith, bit_or-halves a 0, pow-suc 2 k, bit_or-zero k (a / 2) (omega (arith, pow-suc 2 k)))

-- All digits are 1.
pub ones-bit_and : (k b : ℕ) → b < 2 ^ k → bit_and (2 ^ k - 1) b ≡ b
ones-bit_and zero b l = omega (arith, zero-bit_and b)
ones-bit_and (suc k) b l =
    let e : (2 ^ suc k - 1) / 2 ≡ 2 ^ k - 1 = omega (arith, pow-suc 2 k) in
    let ih = ones-bit_and k (b / 2) (omega (arith, pow-suc 2 k)) in
    omega (arith, bit_and-halves (2 ^ suc k - 1) b, pow-suc 2 k, ap (λ x. bit_and x (b / 2)) e, ih)

pub and_same : (a b c d : ℕ) → a ≡ c → b ≡ d → bit_and a b ≡ bit_and c d
and_same a b c d p q = ap (λ x. bit_and x b) p ∙ ap (λ x. bit_and c x) q

pub bit_and-zero : (k a : ℕ) → a < 2 ^ k → bit_and a 0 ≡ 0
bit_and-zero zero zero l = zero-bit_and 0
bit_and-zero zero (suc a) l = absurd (omega arith)
bit_and-zero (suc k) a l =
    omega
      (arith, bit_and-halves a 0, pow-suc 2 k, bit_and-zero k (a / 2) (omega (arith, pow-suc 2 k)))

pub bit_and-one : (k a : ℕ) → a < 2 ^ k → bit_and a 1 ≡ a % 2
bit_and-one k a l = omega (arith, bit_and-halves a 1, bit_and-zero k (a / 2) (omega arith))

pub bit_and-le : (k a b : ℕ) → a < 2 ^ k → bit_and a b ≤ a
bit_and-le zero zero b l = omega (arith, zero-bit_and b)
bit_and-le zero (suc a) b l = absurd (omega arith)
bit_and-le (suc k) a b l = omega (
  arith,
  bit_and-halves a b,
  pow-suc 2 k,
  bit_and-le k (a / 2) (b / 2) (omega (arith, pow-suc 2 k)),
)

halved : (k x : ℕ) → x / 2 ^ suc k ≡ x / 2 ^ k / 2
halved k x =
    let e : 2 ^ suc k ≡ 2 ^ k * 2 = omega (arith, pow-suc 2 k) in
    ap (λ y. x / y) e ∙ sym (div-div-eq-div-mul x (2 ^ k) 2)

pub bit_and-high : (k a b : ℕ) → bit_and a b / 2 ^ k ≡ bit_and (a / 2 ^ k) (b / 2 ^ k)
bit_and-high zero a b = omega (arith, and_same (a / 1) (b / 1) a b (omega arith) (omega arith))
bit_and-high (suc k) a b = omega (
  arith,
  halved k (bit_and a b),
  bit_and-high k a b,
  bit_and-halves (a / 2 ^ k) (b / 2 ^ k),
  and_same (a / 2 ^ suc k) (b / 2 ^ suc k) (a / 2 ^ k / 2) (b / 2 ^ k / 2) (halved k a)
      (halved k b),
)

pub bit_xor-lt : (k a b : ℕ) → a < 2 ^ k → b < 2 ^ k → bit_xor a b < 2 ^ k
bit_xor-lt zero zero zero l m = omega (arith, bit_xor-bitwise 0 0)
bit_xor-lt zero (suc a) b l m = absurd (omega arith)
bit_xor-lt zero a (suc b) l m = absurd (omega arith)
bit_xor-lt (suc k) a b l m =
    let p = pow-suc 2 k in
    omega (
      arith,
      bit_xor-halves a b,
      p,
      bit_xor-lt k (a / 2) (b / 2) (omega (arith, p)) (omega (arith, p)),
    )

pub bit_xor-zero : (k a : ℕ) → a < 2 ^ k → bit_xor a 0 ≡ a
bit_xor-zero zero zero l = bit_xor-bitwise 0 0
bit_xor-zero zero (suc a) l = absurd (omega arith)
bit_xor-zero (suc k) a l =
    omega
      (arith, bit_xor-halves a 0, pow-suc 2 k, bit_xor-zero k (a / 2) (omega (arith, pow-suc 2 k)))

pub bit_xor_self : (k a : ℕ) → a < 2 ^ k → bit_xor a a ≡ 0
bit_xor_self zero zero l = bit_xor-bitwise 0 0
bit_xor_self zero (suc a) l = absurd (omega arith)
bit_xor_self (suc k) a l =
    omega
      (arith, bit_xor-halves a a, pow-suc 2 k, bit_xor_self k (a / 2) (omega (arith, pow-suc 2 k)))

pub bit_xor-equal : (k a b : ℕ) → a < 2 ^ k → b < 2 ^ k → bit_xor a b ≡ 0 → a ≡ b
bit_xor-equal zero a b l m e = omega arith
bit_xor-equal (suc k) a b l m e =
    let h = bit_xor-halves a b in
    let ih =
      bit_xor-equal k (a / 2) (b / 2) (omega (arith, pow-suc 2 k)) (omega (arith, pow-suc 2 k))
        (omega (arith, h)) in
    omega (arith, ih, h)

-- exclusive or by complements and `&`
pub bit_xor-complements :
    (k x y : ℕ)
    → x < 2 ^ k
    → y < 2 ^ k
    → bit_and (2 ^ k - 1 - bit_and x y) (2 ^ k - 1 - bit_and (2 ^ k - 1 - x) (2 ^ k - 1 - y))
      ≡ bit_xor x y
bit_xor-complements zero zero zero l m = refl
bit_xor-complements zero (suc x) y l m = absurd (omega arith)
bit_xor-complements zero x (suc y) l m = absurd (omega arith)
bit_xor-complements (suc k) x y l m =
    let p = pow-suc 2 k in
    let w = 2 ^ suc k - 1 in
    let v = 2 ^ k - 1 in
    let a = bit_and x y in
    let n = bit_and (w - x) (w - y) in
    let ha = bit_and-halves x y in
    let hn = bit_and-halves (w - x) (w - y) in
    let la = bit_and-le (suc k) x y l in
    let ln = bit_and-le (suc k) (w - x) (w - y) (omega arith) in
    let en =
      and_same ((w - x) / 2) ((w - y) / 2) (v - x / 2) (v - y / 2) (omega (arith, p))
        (omega (arith, p)) in
    let e =
      and_same ((w - a) / 2) ((w - n) / 2) (v - bit_and (x / 2) (y / 2))
        (v - bit_and (v - x / 2) (v - y / 2)) (omega (arith, p, ha, la))
        (omega (arith, p, hn, en, ln)) in
    let ih = bit_xor-complements k (x / 2) (y / 2) (omega (arith, p)) (omega (arith, p)) in
    omega (arith, bit_and-halves (w - a) (w - n), bit_xor-halves x y, ih, e, ha, hn, p, la, ln)
