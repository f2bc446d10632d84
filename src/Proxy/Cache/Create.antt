-- ===== src/Proxy/Cache/Create.antt =====
-- The empty cache.
use cmu_15213_csapp3e_lab.Base.{ℕ, zero, suc, ◌≡◌, ◌≢◌, refl, ◌⊎◌, inl, [], replicate, All, arith}
use cmu_15213_csapp3e_lab.Proxy.Cache.{Cache, lru_cache_create, init_cache_node, at}
use cmu_15213_csapp3e_lab.Proxy.Cache.Chain.{at_self}
use cmu_15213_csapp3e_lab.Proxy.Cache.Distinct.{In}
use cmu_15213_csapp3e_lab.Proxy.Cache.Shape.{AtRest}
use cmu_15213_csapp3e_lab.Proxy.Cache.Get.{Represents}

all_null : (n : ℕ) → All (λ (q : ℕ). (q ≡ 0) ⊎ In q []) (replicate n 0)
all_null zero = tt
all_null (suc n) = (inl refl, all_null n)

pub lru_cache_create_lem :
    (c : Cache) (head tail : ℕ)
    → head ≢ tail
    → AtRest c.locks
    → Represents (lru_cache_create c head tail) []
unfolding lru_cache_create init_cache_node
lru_cache_create_lem c head tail n r = (
  [],
  refl,
  record {
    linked = record {
      chain = (
        at_self (at (at c.next head 0) tail 0) head tail,
        at_self (at (at c.prev head 0) tail 0) tail head,
      );
      behind = (tt, tt);
      before = (tt, tt);
      ends = n;
    };
    distinct = tt;
    holds = tt;
    mapped = record { size = refl; known = all_null 10; listed = tt; count = refl };
    current = refl;
    total = refl;
    bound = omega arith;
    rest = r;
  },
)
