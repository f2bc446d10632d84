-- ===== src/Proxy/Outcome.antt =====
-- What a call of the proxy's C code comes to when no other thread runs: it returns, it waits for ever, or
-- it does what C leaves undefined.
pub data Outcome {ℓ} (A : Type ℓ) : Type ℓ where
  done : A → Outcome A
  stuck : Outcome A
  fault : Outcome A

infixl 5 ◌>>=◌
abbrev pub ◌>>=◌ {ℓ κ} : {A : Type ℓ} {B : Type κ} → Outcome A → (A → Outcome B) → Outcome B
done a >>= f = f a
stuck >>= f = stuck
fault >>= f = fault
