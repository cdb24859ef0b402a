-- ===== src/Utils/Digits.antt =====
-- The digits of a number, and the texts that spell it.
use toutatis.Common.{
  ℕ, zero, suc, ◌+◌, ◌-◌, ◌*◌, ◌/◌, ◌%◌, ◌≤◌, ◌<◌, ◌≡◌, ◌≢◌, ◌⊎◌, inl, inr, refl, ◌∙◌, ap, arith,
}
use native.Mathlib.Decide.{dec_lt}
use native.Mathlib.Nat.{zero-div, div-mul-le_self, mul-le-mul_left, div-add-mod'}
use toutatis.CString.{Memory}
use toutatis.Utils.{digit_char}

-- The number without its last `j` digits.
unfoldable pub shifted : ℕ → ℕ → ℕ → ℕ
shifted v b zero = v
shifted v b (suc j) = shifted (v / b) b j

pub shifted-suc : (v b j : ℕ) → shifted v b (suc j) ≡ shifted v b j / b
unfolding shifted
shifted-suc v b zero = refl
shifted-suc v b (suc j) = shifted-suc (v / b) b j

pub half-le : (v b : ℕ) → 2 ≤ b → v / b * 2 ≤ v
half-le v b h = omega (arith, div-mul-le_self v b, mul-le-mul_left (v / b) h)

pub shifted-le : (v b j : ℕ) → 2 ≤ b → shifted v b j ≤ v
unfolding shifted
shifted-le v b zero h = omega arith
shifted-le v b (suc j) h = omega (arith, shifted-le (v / b) b j h, half-le v b h)

-- The number is put together from its shorter part and its last digit.
pub shifted-join : (v b j : ℕ) → shifted v b (suc j) * b + shifted v b j % b ≡ shifted v b j
shifted-join v b j =
    ap (λ q. q * b + shifted v b j % b) (shifted-suc v b j) ∙ div-add-mod' (shifted v b j) b

-- At `s` the number `v` is spelled in base `b` by `k` digits with a zero behind them, the first digit
-- first, no digit is missing, and no zero stands in front of another digit.
pub record Spells (m : Memory) (s v b k : ℕ) : Type 0 where
  pub digit : (i j : ℕ) → i + suc j ≡ k → m (s + i) ≡ digit_char (shifted v b j % b)
  pub stop : m (s + k) ≡ 0
  pub whole : shifted v b k ≡ 0
  pub some_digit : 0 < k
  pub leading : (j : ℕ) → suc j ≡ k → (shifted v b j ≢ 0) ⊎ (k ≡ 1)

shifted-zero : (v b j d : ℕ) → shifted v b j ≡ 0 → shifted v b (d + j) ≡ 0
shifted-zero v b j zero h = let e : 0 + j ≡ j = omega arith in rw e h
shifted-zero v b j (suc d) h =
    let e : suc d + j ≡ suc (d + j) = omega arith in
    rw (e, shifted-suc v b (d + j), shifted-zero v b j d h) (zero-div b)

-- A text has no more digits than the number needs.
pub Spells-short :
    (m : Memory) (s v b k c : ℕ) → Spells m s v b k → 0 < c → shifted v b c ≡ 0 → k ≤ c
Spells-short m s v b k c spells pos h = elim (dec_lt c k) [
  | no le ↦ omega arith
  | yes long ↦ elim (spells.leading (k - 1) (omega arith)) [
    | inr one ↦ absurd (omega arith)
    | inl ne ↦
        let e : k - 1 - c + c ≡ k - 1 = omega arith in
        absurd (ne (rw e at (shifted-zero v b c (k - 1 - c) h)))
  ]
]
