-- ===== src/Utils/Parse.antt =====
-- `strtol` and `atoi` of kernel/utils.c on the text of a number.
use toutatis.Common.{
  ℕ, zero, suc, ◌+◌, ◌-◌, ◌*◌, ◌/◌, ◌%◌, ◌^◌, ◌≤◌, ◌<◌, ◌≡◌, ◌≢◌, ◌⊎◌, inl, inr, refl, sym, ◌∙◌, ap,
  arith, true, false, ◌&&◌, ◌||◌, some, ◌==◌, ltb,
}
use native.Mathlib.Decide.{ℕ_discrete}
use native.Mathlib.Nat.{mod-lt}
use toutatis.CString.{Memory}
use toutatis.Utils.{
  digit_char, is_alpha, is_alnum, char_value, skip_spaces, read_digits, strtol, itoa, atoi,
  atoi_spaces, atoi_digits, atoi_char,
}
use toutatis.Utils.Digits.{shifted, shifted-suc, shifted-le, shifted-join, Spells}
use toutatis.Utils.Itoa.{itoa-Spells}

-- A digit's character is alphanumeric, its value is the digit, and it is no space and no sign.
digit_char-value :
    (d : ℕ) → d < 36 → (is_alnum (digit_char d) ≡ true) × (char_value (digit_char d) ≡ d)
digit_char-value d h = (ground arith, ground arith)

digit_char-bounds : (d : ℕ) → d < 36 → (47 < digit_char d) × (digit_char d < 123)
digit_char-bounds d h = (ground arith, ground arith)

digit-lt : (v b j : ℕ) → 2 ≤ b → b ≤ 36 → (shifted v b j % b < b) × (shifted v b j % b < 36)
digit-lt v b j low high =
    let h : shifted v b j % b < b = mod-lt (shifted v b j) (omega arith) in (h, omega arith)

read_digits-step :
    (fuel : ℕ) (m : Memory) (b buf value d : ℕ)
    → is_alnum (m buf) ≡ true
    → char_value (m buf) ≡ d
    → d < b
    → read_digits (suc fuel) m b buf value
      ≡ read_digits fuel m b (buf + 1) ((value * b + d) % 2 ^ 32)
unfolding read_digits
read_digits-step fuel m b buf value d alnum val h =
    let in_base : (is_alpha (m buf) && ltb b d) ≡ false = ground arith in
    rw (read_digits, alnum, val, in_base) refl

-- The digits are read back from the place `i` on, when the value of those before it is known.
read_digits-Spells :
    (fuel : ℕ) (m : Memory) (s v b k i left : ℕ)
    → 2 ≤ b
    → b ≤ 36
    → v < 2 ^ 32
    → Spells m s v b k
    → i + left ≡ k
    → left < fuel
    → read_digits fuel m b (s + i) (shifted v b left) ≡ some (v, s + k)
unfolding read_digits shifted
read_digits-Spells zero m s v b k i left low high small spells e h = absurd (omega arith)
read_digits-Spells (suc fuel) m s v b k i zero low high small spells e h =
    let e' : i ≡ k = omega arith in rw (e', spells.stop) refl
read_digits-Spells (suc fuel) m s v b k i (suc left) low high small spells e h =
    let (below, short) = digit-lt v b left low high in
    let (alnum, val) = digit_char-value (shifted v b left % b) short in
    let c = spells.digit i left e in
    let join : (shifted v b (suc left) * b + shifted v b left % b) % 2 ^ 32 ≡ shifted v b left =
      omega (arith, shifted-join v b left, shifted-le v b left low) in
    read_digits-step fuel m b (s + i) (shifted v b (suc left)) (shifted v b left % b)
      (ap is_alnum c ∙ alnum) (ap char_value c ∙ val) below
    ∙ ap (λ n. read_digits fuel m b (s + i + 1) n) join
    ∙ (let place : s + i + 1 ≡ s + (i + 1) = omega arith in
        rw place (
          read_digits-Spells fuel m s v b k (i + 1) left low high small spells (omega arith)
            (omega arith)))

-- The text begins with a digit.
first_char :
    (m : Memory) (s v b k : ℕ) → 2 ≤ b → b ≤ 36 → Spells m s v b k → (47 < m s) × (m s < 123)
first_char m s v b k low high spells =
    let full = spells.some_digit in
    let c : m s ≡ digit_char (shifted v b (k - 1) % b) =
      (let z : s + 0 ≡ s = omega arith in rw z at (spells.digit 0 (k - 1) (omega arith))) in
    let (below, short) = digit-lt v b (k - 1) low high in
    let (p, q) = digit_char-bounds (shifted v b (k - 1) % b) short in (omega arith, omega arith)

skip_spaces_none : (fuel : ℕ) (m : Memory) (s : ℕ) → 32 < m s → skip_spaces (suc fuel) m s ≡ some s
unfolding skip_spaces
skip_spaces_none fuel m s h =
    let stop : (m s == b' ' || m s == 9) ≡ false = ground arith in rw stop refl

read_digits-whole :
    (fuel : ℕ) (m : Memory) (s v b k : ℕ)
    → 2 ≤ b
    → b ≤ 36
    → v < 2 ^ 32
    → Spells m s v b k
    → k < fuel
    → read_digits fuel m b s 0 ≡ some (v, s + k)
read_digits-whole fuel m s v b k low high small spells h =
    let z : s + 0 ≡ s = omega arith in
    rw (z, spells.whole) at
      (read_digits-Spells fuel m s v b k 0 k low high small spells (omega arith) h)

-- `strtol` reads a number's text in the base from 2 to 36 in which it is written, and stops behind it.
pub strtol-Spells :
    (fuel : ℕ) (m : Memory) (s v b k : ℕ)
    → 2 ≤ b
    → b ≤ 36
    → v < 2 ^ 32
    → Spells m s v b k
    → k < fuel
    → strtol fuel m s b ≡ some (v, some (s + k))
unfolding strtol
strtol-Spells zero m s v b k low high small spells h = absurd (omega arith)
strtol-Spells (suc fuel) m s v b k low high small spells h =
    let good : (ltb b 2 || ltb 36 b) ≡ false = ground arith in
    let (p, q) = first_char m s v b k low high spells in
    let no_sign : (m s == b'-' || m s == b'+') ≡ false = ground arith in
    let no_minus : (m s == b'-') ≡ false = ground arith in
    let read : read_digits (suc fuel) m b s 0 ≡ some (v, s + k) =
      read_digits-whole (suc fuel) m s v b k low high small spells h in
    rw (good, skip_spaces_none fuel m s (omega arith), no_sign, read, no_minus) refl

-- What `itoa` writes in a base from 2 to 36, `strtol` reads back in that base.
pub strtol-itoa :
    (m : Memory) (v str b : ℕ)
    → 2 ≤ b
    → b ≤ 36
    → v < 2 ^ 32
    → (k : ℕ) × (m' : Memory) × (itoa 33 m v str b ≡ some m')
      × (k < 34)
      × (strtol 34 m' str b ≡ some (v, some (str + k)))
strtol-itoa m v str b low high small =
    let (k, m', eq, fits, spells, others) = itoa-Spells 32 m v str b low high small in
    (k, m', eq, omega arith, strtol-Spells 34 m' str v b k low high small spells (omega arith))

atoi_char-digit : (d : ℕ) → d < 10 → atoi_char (digit_char d) ≡ d
atoi_char-digit d h = ground arith

atoi_digits-Spells :
    (fuel : ℕ) (m : Memory) (s v k i left : ℕ)
    → v < 2 ^ 32
    → Spells m s v 10 k
    → i + left ≡ k
    → left < fuel
    → atoi_digits fuel m 10 (s + i) (shifted v 10 left) ≡ some v
unfolding atoi_digits shifted
atoi_digits-Spells zero m s v k i left small spells e h = absurd (omega arith)
atoi_digits-Spells (suc fuel) m s v k i zero small spells e h =
    let e' : i ≡ k = omega arith in rw (e', spells.stop) refl
atoi_digits-Spells (suc fuel) m s v k i (suc left) small spells e h =
    let (below, short) = digit-lt v 10 left (omega arith) (omega arith) in
    let c = spells.digit i left e in
    let (p, q) = digit_char-bounds (shifted v 10 left % 10) short in
    let go : (m (s + i) == 0 || m (s + i) == b' ') ≡ false = ground arith in
    let join : (shifted v 10 (suc left) * 10 + shifted v 10 left % 10) % 2 ^ 32
        ≡ shifted v 10 left =
      omega (arith, shifted-join v 10 left, shifted-le v 10 left (omega arith)) in
    let value = ap atoi_char c ∙ atoi_char-digit (shifted v 10 left % 10) below in
    let place : s + i + 1 ≡ s + (i + 1) = omega arith in
    rw (go, value, join, place)
      (atoi_digits-Spells fuel m s v k (i + 1) left small spells (omega arith) (omega arith))

starts_nonzero : (c w : ℕ) → w ≢ 0 → w / 10 ≡ 0 → c ≡ digit_char (w % 10) → c ≢ b'0'
starts_nonzero c w ne short e = λ e'. ground arith

atoi_digits-whole :
    (fuel : ℕ) (m : Memory) (s v k : ℕ)
    → v < 2 ^ 32
    → Spells m s v 10 k
    → k < fuel
    → atoi_digits fuel m 10 s 0 ≡ some v
atoi_digits-whole fuel m s v k small spells h =
    let z : s + 0 ≡ s = omega arith in
    rw (z, spells.whole) at (atoi_digits-Spells fuel m s v k 0 k small spells (omega arith) h)

-- Only the text of zero begins with a zero.
first_zero : (m : Memory) (s v k : ℕ) → Spells m s v 10 k → (m s ≢ b'0') ⊎ ((v ≡ 0) × (k ≡ 1))
unfolding shifted
first_zero m s v k spells =
    let full = spells.some_digit in
    let c : m s ≡ digit_char (shifted v 10 (k - 1) % 10) =
      (let z : s + 0 ≡ s = omega arith in rw z at (spells.digit 0 (k - 1) (omega arith))) in
    let last : shifted v 10 (suc (k - 1)) ≡ 0 =
      (let e : suc (k - 1) ≡ k = omega arith in rw e spells.whole) in
    let below = shifted-suc v 10 (k - 1) in
    elim (spells.leading (k - 1) (omega arith)) [
      | inl ne ↦ inl (starts_nonzero (m s) (shifted v 10 (k - 1)) ne (omega arith) c)
      | inr one ↦ elim (ℕ_discrete v 0) [
        | yes e ↦ inr (e, one)
        | no ne ↦
            let z : k - 1 ≡ 0 = omega arith in
            let c' : m s ≡ digit_char (v % 10) = rw z at c in
            let short : v / 10 ≡ 0 = rw z at last in
            inl (starts_nonzero (m s) v ne (omega arith) c')
      ]
    ]

atoi_spaces_none : (fuel : ℕ) (m : Memory) (s : ℕ) → 32 < m s → atoi_spaces (suc fuel) m s ≡ some s
unfolding atoi_spaces
atoi_spaces_none fuel m s h = let stop : (m s == b' ') ≡ false = ground arith in rw stop refl

atoi_digits_none :
    (fuel : ℕ) (m : Memory) (base s : ℕ) → m s ≡ 0 → atoi_digits (suc fuel) m base s 0 ≡ some 0
unfolding atoi_digits
atoi_digits_none fuel m base s h = rw h refl

-- `atoi` reads a decimal text.
pub atoi-Spells :
    (fuel : ℕ) (m : Memory) (s v k : ℕ)
    → v < 2 ^ 32
    → Spells m s v 10 k
    → k < fuel
    → atoi fuel m s ≡ some v
unfolding atoi shifted
atoi-Spells zero m s v k small spells h = absurd (omega arith)
atoi-Spells (suc fuel) m s v k small spells h =
    let (p, q) = first_char m s v 10 k (omega arith) (omega arith) spells in
    let start = atoi_spaces_none fuel m s (omega arith) in
    elim (first_zero m s v k spells) [
      | inl ne ↦
          let decimal : (m s == b'0') ≡ false = ground arith in
          rw (atoi, start, decimal) (atoi_digits-whole (suc fuel) m s v k small spells h)
      | inr (e, one) ↦
          let end : m (s + 1) ≡ 0 = rw one at spells.stop in
          let zero_char : m s ≡ b'0' =
            (let z : s + 0 ≡ s = omega arith in rw (e, z) at (spells.digit 0 0 (omega arith))) in
          rw (atoi, start, zero_char, end, atoi_digits_none fuel m 8 (s + 1) end) (ap some (sym e))
    ]

-- What `itoa` writes in base 10, `atoi` reads back.
pub atoi-itoa :
    (m : Memory) (v str : ℕ)
    → v < 2 ^ 32
    → (m' : Memory) × (itoa 33 m v str 10 ≡ some m') × (atoi 34 m' str ≡ some v)
atoi-itoa m v str small =
    let (k, m', eq, fits, spells, others) =
      itoa-Spells 32 m v str 10 (omega arith) (omega arith) small in
    (m', eq, atoi-Spells 34 m' str v k small spells (omega arith))
