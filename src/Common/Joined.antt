-- ===== src/Common/Joined.antt =====
-- `bit_or` of two numbers with no digit in common.
use Prim.Native.Nat.{bit_or, bit_or-bitwise, digits, max}
use toutatis.Common.{ℕ, zero, suc, ◌+◌, ◌*◌, ◌/◌, ◌≤◌, ◌<◌, ◌≡◌, refl, ◌∙◌, arith}

-- The number has `k` digits below which all are zero, and the number has at most `k` digits.
unfoldable High : ℕ → ℕ → Type 0
High zero a = Unit
High (suc k) a = (b : ℕ) × (a ≡ b * 2) × High k b

unfoldable Low : ℕ → ℕ → Type 0
Low zero l = l ≡ 0
Low (suc k) l = Low k (l / 2)

digits-zero : (n a : ℕ) → a ≤ n → digits (λ b. b) max n a 0 ≡ a
digits-zero zero a h = omega arith
digits-zero (suc n) zero h = refl
digits-zero (suc n) (suc a) h = omega (arith, digits-zero n (suc a / 2) (omega arith))

digits-add : (k n a l : ℕ) → a ≤ n → High k a → Low k l → digits (λ b. b) max n a l ≡ a + l
unfolding High Low
digits-add zero n a l h high low = rw low (digits-zero n a h ∙ omega arith)
digits-add (suc k) zero a l h high low = omega arith
digits-add (suc k) (suc n) zero l h high low = omega arith
digits-add (suc k) (suc n) (suc a) l h (b, e, high) low =
    let half : suc a / 2 ≡ b = omega arith in
    let rest : digits (λ b. b) max n (suc a / 2) (l / 2) ≡ suc a / 2 + l / 2 =
      digits-add k n (suc a / 2) (l / 2) (omega arith) (rw half high) low in
    omega arith

-- A byte below a high byte.
pub bit_or-high : (h l : ℕ) → l < 256 → bit_or (h * 256) l ≡ h * 256 + l
unfolding High Low
bit_or-high h l below =
    (λ i. bit_or-bitwise (h * 256) l i)
    ∙ digits-add 8 (h * 256) (h * 256) l (omega arith)
        (
          h * 128,
          omega arith,
          (
            h * 64,
            omega arith,
            (
              h * 32,
              omega arith,
              (
                h * 16,
                omega arith,
                (
                  h * 8,
                  omega arith,
                  (h * 4, omega arith, (h * 2, omega arith, (h * 1, omega arith, tt))),
                ),
              ),
            ),
          ),
        )
        (omega arith)
