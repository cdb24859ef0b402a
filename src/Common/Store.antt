-- ===== src/Common/Store.antt =====
-- Memory as a function from an index to what stands there.
use Prim.Native.Nat.{ℕ}
use mathlib.Core.Path.{◌≡◌}
use mathlib.Core.Logic.{◌≢◌, ◌⊎◌, inl, inr}
use native.Mathlib.Decide.{ℕ_discrete}
use native.Mathlib.Omega.{arith}
use toutatis.Common.Tests.{◌==◌, if◌then◌else◌}

module _ {ℓ} {A : Type ℓ} where
  -- The store `m` with `v` written at `i`.
  unfoldable pub update : (ℕ → A) → ℕ → A → ℕ → A
  update m i v j = if j == i then v else m j

  pub update_self : (m : ℕ → A) (i : ℕ) (v : A) → update m i v i ≡ v
  unfolding update
  update_self m i v = ground arith

  pub update_ne : (m : ℕ → A) (i j : ℕ) (v : A) → j ≢ i → update m i v j ≡ m j
  unfolding update
  update_ne m i j v h = ground arith

  -- What stands at `j` after a write at `i`.
  pub update-cases :
      (m : ℕ → A) (i j : ℕ) (v : A)
      → ((j ≡ i) × (update m i v j ≡ v)) ⊎ ((j ≢ i) × (update m i v j ≡ m j))
  update-cases m i j v = elim (ℕ_discrete j i) [
    | yes e ↦ inl (e, rw e (update_self m i v))
    | no n ↦ inr (n, update_ne m i j v n)
  ]
