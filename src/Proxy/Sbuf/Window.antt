-- ===== src/Proxy/Sbuf/Window.antt =====
-- The items of a ring that stand at a run of counters, each taken modulo the size.
use cmu_15213_csapp3e_lab.Base.{
  ℕ, zero, suc, ◌+◌, ◌-◌, ◌%◌, ◌≤◌, ◌<◌, ◌≡◌, ◌≢◌, refl, sym, ◌∙◌, ap, inl, inr, List, [], ◌∷◌,
  ◌++◌, arith, length, set, get_or, ltb, Bool-cases,
}
use native.Mathlib.Nat.{mod-lt, mod-eq_of_lt, mod-add-mod, mod-eq-sub-mod}

-- `k` items from the counter `h` on
unfoldable pub window : List ℕ → ℕ → ℕ → ℕ → List ℕ
window buf n h zero = []
window buf n h (suc k) = get_or buf (h % n) 0 ∷ window buf n (h + 1) k

pub length-window : (buf : List ℕ) (n h k : ℕ) → length (window buf n h k) ≡ k
unfolding window
length-window buf n h zero = refl
length-window buf n h (suc k) = ap suc (length-window buf n (h + 1) k)

get_or-set_self : (buf : List ℕ) (i x : ℕ) → i < length buf → get_or (set buf i x) i 0 ≡ x
get_or-set_self [] i x h = ground arith
get_or-set_self (y ∷ ys) zero x h = refl
get_or-set_self (y ∷ ys) (suc i) x h = get_or-set_self ys i x (omega arith)

get_or-set_ne : (buf : List ℕ) (i j x : ℕ) → i ≢ j → get_or (set buf i x) j 0 ≡ get_or buf j 0
get_or-set_ne [] i j x ne = refl
get_or-set_ne (y ∷ ys) zero zero x ne = absurd (ne refl)
get_or-set_ne (y ∷ ys) zero (suc j) x ne = refl
get_or-set_ne (y ∷ ys) (suc i) zero x ne = refl
get_or-set_ne (y ∷ ys) (suc i) (suc j) x ne = get_or-set_ne ys i j x (λ e. ne (ap suc e))

-- Counters less than a round apart stand at different places.
mod_apart : (h d n : ℕ) → 0 < d → d < n → (h + d) % n ≢ h % n
mod_apart h d n p l e =
    let pos : 0 < n = omega arith in
    let b = mod-lt h pos in
    let m = mod-add-mod h n d in
    elim (Bool-cases (ltb (h % n + d) n)) [
      | inl t ↦ let y : h % n + d < n = ground arith in let q = mod-eq_of_lt y in omega arith
      | inr f ↦
          let y : n ≤ h % n + d = ground arith in
          let q = mod-eq-sub-mod y in
          let z : h % n + d - n < n = omega arith in let r = mod-eq_of_lt z in omega arith
    ]

-- A write just behind a window that is shorter than the ring appends to the window.
pub window_write :
    (buf : List ℕ) (n h k j x : ℕ)
    → length buf ≡ n
    → k < n
    → h + k ≡ j
    → window (set buf (j % n) x) n h (suc k) ≡ window buf n h k ++ x ∷ []
unfolding window
window_write buf n h zero j x e l s =
    let i : h ≡ j = omega arith in
    let pos : 0 < n = omega arith in
    let b = mod-lt j pos in let g = get_or-set_self buf (j % n) x (omega arith) in rw (i, g)
window_write buf n h (suc k) j x e l s =
    let i : j ≡ h + suc k = sym s in
    let ne : j % n ≢ h % n =
      λ q. mod_apart h (suc k) n (omega arith) l (sym (ap (λ m. m % n) i) ∙ q) in
    let g = get_or-set_ne buf (j % n) (h % n) x ne in
    rw (g, window_write buf n (h + 1) k j x e (omega arith) (omega arith))
