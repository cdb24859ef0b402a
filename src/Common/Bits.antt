-- ===== src/Common/Bits.antt =====
-- Single bits of a machine word: `x & (1 << j)`, `x |= 1 << j` and `x &= ~(1 << j)`.
-- A word is a natural number, and each operation walks down its binary digits.
use Prim.Native.Nat.{ℕ, zero, suc, ◌+◌, ◌*◌, ◌/◌, ◌%◌, ◌^◌, ◌≤◌, ◌<◌, ◌-◌}
use mathlib.Core.Path.{◌≡◌, refl, ap}
use mathlib.Core.Logic.{◌≢◌}
use native.Mathlib.Omega.{arith}
use native.Mathlib.Nat.{pow-suc}

-- Digit `j` of `x`, as 0 or 1.
unfoldable pub bit : ℕ → ℕ → ℕ
bit x zero = x % 2
bit x (suc j) = bit (x / 2) j

-- `x | (1 << j)`
unfoldable pub set_bit : ℕ → ℕ → ℕ
set_bit x zero = x / 2 * 2 + 1
set_bit x (suc j) = set_bit (x / 2) j * 2 + x % 2

-- `x & ~(1 << j)`
unfoldable pub clear_bit : ℕ → ℕ → ℕ
clear_bit x zero = x / 2 * 2
clear_bit x (suc j) = clear_bit (x / 2) j * 2 + x % 2

-- `x & (1 << j)`
unfoldable pub mask_bit : ℕ → ℕ → ℕ
mask_bit x j = bit x j * 2 ^ j

pub bit-lt : (x j : ℕ) → bit x j < 2
unfolding bit
bit-lt x zero = omega arith
bit-lt x (suc j) = bit-lt (x / 2) j

pub bit-set_self : (x j : ℕ) → bit (set_bit x j) j ≡ 1
unfolding bit set_bit
bit-set_self x zero = omega arith
bit-set_self x (suc j) =
    let e : (set_bit (x / 2) j * 2 + x % 2) / 2 ≡ set_bit (x / 2) j = omega arith in
    rw e (bit-set_self (x / 2) j)

pub bit-set_ne : (x j k : ℕ) → j ≢ k → bit (set_bit x j) k ≡ bit x k
unfolding bit set_bit
bit-set_ne x zero zero h = absurd (h refl)
bit-set_ne x zero (suc k) h = let e : (x / 2 * 2 + 1) / 2 ≡ x / 2 = omega arith in rw e
bit-set_ne x (suc j) zero h = omega arith
bit-set_ne x (suc j) (suc k) h =
    let e : (set_bit (x / 2) j * 2 + x % 2) / 2 ≡ set_bit (x / 2) j = omega arith in
    rw e (bit-set_ne (x / 2) j k (λ p. h (ap suc p)))

pub bit-clear_self : (x j : ℕ) → bit (clear_bit x j) j ≡ 0
unfolding bit clear_bit
bit-clear_self x zero = omega arith
bit-clear_self x (suc j) =
    let e : (clear_bit (x / 2) j * 2 + x % 2) / 2 ≡ clear_bit (x / 2) j = omega arith in
    rw e (bit-clear_self (x / 2) j)

pub bit-clear_ne : (x j k : ℕ) → j ≢ k → bit (clear_bit x j) k ≡ bit x k
unfolding bit clear_bit
bit-clear_ne x zero zero h = absurd (h refl)
bit-clear_ne x zero (suc k) h = let e : (x / 2 * 2) / 2 ≡ x / 2 = omega arith in rw e
bit-clear_ne x (suc j) zero h = omega arith
bit-clear_ne x (suc j) (suc k) h =
    let e : (clear_bit (x / 2) j * 2 + x % 2) / 2 ≡ clear_bit (x / 2) j = omega arith in
    rw e (bit-clear_ne (x / 2) j k (λ p. h (ap suc p)))

pub set_bit-lt : (w x j : ℕ) → x < 2 ^ w → j < w → set_bit x j < 2 ^ w
unfolding set_bit
set_bit-lt zero x j h p = absurd (omega arith)
set_bit-lt (suc w) x zero h p = omega (arith, pow-suc 2 w)
set_bit-lt (suc w) x (suc j) h p =
    omega (arith, pow-suc 2 w, set_bit-lt w (x / 2) j (omega (arith, pow-suc 2 w)) (omega arith))

pub clear_bit-le : (x j : ℕ) → clear_bit x j ≤ x
unfolding clear_bit
clear_bit-le x zero = omega arith
clear_bit-le x (suc j) = omega (arith, clear_bit-le (x / 2) j)

two_pow_pos : (j : ℕ) → 0 < 2 ^ j
two_pow_pos zero = omega arith
two_pow_pos (suc j) = omega (arith, pow-suc 2 j, two_pow_pos j)

-- `x & (1 << j)` is zero exactly where the digit is, and 1 only for digit 0.
pub mask_bit-zero : (x j : ℕ) → bit x j ≡ 0 → mask_bit x j ≡ 0
unfolding mask_bit
mask_bit-zero x j h = rw h (omega arith)

pub mask_bit-pos : (x j : ℕ) → bit x j ≡ 1 → 0 < mask_bit x j
unfolding mask_bit
mask_bit-pos x j h = rw h (omega (arith, two_pow_pos j))

pub mask_bit-ne_one : (x j : ℕ) → 0 < j → mask_bit x j ≢ 1
unfolding mask_bit
mask_bit-ne_one x zero h = absurd (omega arith)
mask_bit-ne_one x (suc j) h =
    λ e. omega (arith, pow-suc 2 j, e, ap (λ (t : ℕ). bit x (suc j) * t) (pow-suc 2 j))

-- Every digit of the full word is 1.
pub bit-full : (w j : ℕ) → j < w → bit (2 ^ w - 1) j ≡ 1
unfolding bit
bit-full zero j h = absurd (omega arith)
bit-full (suc w) zero h = omega (arith, pow-suc 2 w, two_pow_pos w)
bit-full (suc w) (suc j) h =
    let e : (2 ^ suc w - 1) / 2 ≡ 2 ^ w - 1 = omega (arith, pow-suc 2 w, two_pow_pos w) in
    rw e (bit-full w j (omega arith))
