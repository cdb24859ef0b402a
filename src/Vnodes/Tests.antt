-- ===== src/Vnodes/Tests.antt =====
-- Two free vnodes, one in use with two references, and one that is given up.
use toutatis.Common.{
  ℕ, ◌<◌, ◌≡◌, ◌⊎◌, refl, arith, Option, some, List, [], ◌∷◌, ◌==◌, length, if◌then◌else◌,
}
use toutatis.Vnodes.{Vnodes, vnode_kill}
use toutatis.Vnodes.Pool.{IsPool, vnode_kill-IsPool}

abbrev four : Vnodes
four = record {
  nodes = λ q. record {
    ref_count = if q == 700 then 2 else 1;
    vfs = 9;
    freelist = if q == 500 then 600 else 0;
    payload = 0;
    ops = 8;
  };
  freelist_size = 2;
  freelist_head = 500;
  freed = [];
}

abbrev pool : List ℕ
pool = 500 ∷ 600 ∷ []

four-IsPool : IsPool four pool
four-IsPool = record {
  chain = (refl, omega arith, (omega arith, tt), (refl, omega arith, tt, refl));
  counted = refl;
  bounded = omega arith;
}

vnode_kill-IsPool_example :
    (w : Vnodes) × Path (Option Vnodes) (vnode_kill four 800) (some w)
    × (((length pool < 100) × IsPool w (800 ∷ pool) × (w.freed ≡ []))
        ⊎ ((length pool ≡ 100) × IsPool w pool × (w.freed ≡ 800 ∷ [])))
vnode_kill-IsPool_example =
    vnode_kill-IsPool four 800 pool four-IsPool (omega arith) refl (omega arith, (omega arith, tt))
