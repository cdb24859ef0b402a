-- ===== src/Utils/Itoa.antt =====
-- `itoa` of kernel/utils.c: the text that it leaves.
use toutatis.Common.{
  ℕ, zero, suc, ◌+◌, ◌-◌, ◌*◌, ◌/◌, ◌%◌, ◌^◌, ◌≤◌, ◌<◌, ◌≡◌, ◌≢◌, ◌⊎◌, inl, inr, refl, sym, ◌∙◌,
  arith, true, false, ◌&&◌, ◌||◌, Bool-cases, some, ◌==◌, ltb, leb, if◌then◌else◌,
}
use mathlib.Core.Path.{subst}
use native.Mathlib.Decide.{ℕ_discrete}
use native.Mathlib.Nat.{pow-suc}
use toutatis.Common.Store.{update, update_self, update_ne}
use toutatis.CString.{Memory}
use toutatis.Utils.{digit_char, put_digits, invert, itoa}
use toutatis.Utils.Digits.{shifted, half-le, Spells}

-- `n` digits of `v` stand at `ptr`, the last one first; the rest of the memory is the old one.
pub record Backwards (m m' : Memory) (v b ptr n : ℕ) : Type 0 where
  pub digit : (j : ℕ) → j < n → m' (ptr + j) ≡ digit_char (shifted v b j % b)
  pub others : (x : ℕ) → (x < ptr) ⊎ (ptr + n ≤ x) → m' x ≡ m x
  pub whole : shifted v b n ≡ 0
  pub some_digit : 0 < n
  pub leading : (j : ℕ) → suc j ≡ n → (shifted v b j ≢ 0) ⊎ (n ≡ 1)

one_digit :
    (m : Memory) (v b ptr : ℕ)
    → v / b ≡ 0
    → Backwards m (update m ptr (digit_char (v % b))) v b ptr 1
unfolding shifted
one_digit m v b ptr last = record {
  digit = λ j h.
      let e : j ≡ 0 = omega arith in
      let z : ptr + 0 ≡ ptr = omega arith in rw (e, z) (update_self m ptr (digit_char (v % b)));
  others = λ x away.
      update_ne m ptr x (digit_char (v % b))
        (λ e. elim away [ inl p ↦ absurd (omega arith) | inr p ↦ absurd (omega arith) ]);
  whole = last;
  some_digit = omega arith;
  leading = λ j e. inr refl;
}

more_digits :
    (m m' : Memory) (v b ptr n : ℕ)
    → v / b ≢ 0
    → Backwards (update m ptr (digit_char (v % b))) m' (v / b) b (ptr + 1) n
    → Backwards m m' v b ptr (suc n)
unfolding shifted
more_digits m m' v b ptr n ne rest =
    let full = rest.some_digit in
    record {
      digit = λ j h. elim (ℕ_discrete j 0) [
        | yes e ↦
            let z : ptr + 0 ≡ ptr = omega arith in
            rw (e, z) (rest.others ptr (inl (omega arith)) ∙ update_self m ptr (digit_char (v % b)))
        | no ne ↦
            let e : j ≡ suc (j - 1) = omega arith in
            let place : ptr + suc (j - 1) ≡ ptr + 1 + (j - 1) = omega arith in
            subst (λ i. m' (ptr + i) ≡ digit_char (shifted v b i % b)) (sym e)
              (rw place (rest.digit (j - 1) (omega arith)))
      ];
      others = λ x away.
          rest.others x (elim away [ inl p ↦ inl (omega arith) | inr p ↦ inr (omega arith) ])
          ∙ update_ne m ptr x (digit_char (v % b))
              (λ e. elim away [ inl p ↦ absurd (omega arith) | inr p ↦ absurd (omega arith) ]);
      whole = rest.whole;
      some_digit = omega arith;
      leading = λ j e. inl (
          subst (λ i. shifted v b i ≢ 0) (let e' : suc (j - 1) ≡ j = omega arith in e')
            (elim (rest.leading (j - 1) (omega arith)) [
              | inl p ↦ p
              | inr one ↦ (let z : j - 1 ≡ 0 = omega arith in rw z ne)
            ]));
    }

pub put_digits-Backwards :
    (k : ℕ) (m : Memory) (v b ptr : ℕ)
    → 2 ≤ b
    → v < 2 ^ k
    → (n : ℕ) × (m' : Memory) × (put_digits (suc k) m v b ptr ≡ some (m', ptr + n))
      × (n ≤ suc k)
      × Backwards m m' v b ptr n
unfolding put_digits
put_digits-Backwards zero m v b ptr hb h =
    let z : v / b ≡ 0 = omega (arith, half-le v b hb) in
    let stop : (v / b == 0) ≡ true = ground arith in
    (1, update m ptr (digit_char (v % b)), rw stop refl, omega arith, one_digit m v b ptr z)
put_digits-Backwards (suc k) m v b ptr hb h = elim (ℕ_discrete (v / b) 0) [
  | yes z ↦
      let stop : (v / b == 0) ≡ true = ground arith in
      (1, update m ptr (digit_char (v % b)), rw stop refl, omega arith, one_digit m v b ptr z)
  | no ne ↦
      let go : (v / b == 0) ≡ false = ground arith in
      let small : v / b < 2 ^ k = omega (arith, half-le v b hb, pow-suc 2 k) in
      let (n, m', eq, fits, rest) =
        put_digits-Backwards k (update m ptr (digit_char (v % b))) (v / b) b (ptr + 1) hb small in
      let end : ptr + 1 + n ≡ ptr + suc n = omega arith in
      (suc n, m', rw go (eq ∙ rw end refl), omega arith, more_digits m m' v b ptr n ne rest)
]

-- The bytes from `lo` to `hi` in the other order.
abbrev mirrored : Memory → ℕ → ℕ → ℕ → ℕ
mirrored m lo hi x = if leb lo x && leb x hi then m (lo + hi - x) else m x

mirrored_still : (m : Memory) (lo hi x : ℕ) → hi ≤ lo → m x ≡ mirrored m lo hi x
mirrored_still m lo hi x h = ground arith

mirrored_step :
    (m : Memory) (lo hi x : ℕ)
    → lo < hi
    → mirrored (update (update m lo (m hi)) hi (m lo)) (lo + 1) (hi - 1) x ≡ mirrored m lo hi x
unfolding update
mirrored_step m lo hi x h = ground arith

pub invert-mirrored :
    (k : ℕ) (m : Memory) (lo hi : ℕ)
    → hi ≤ lo + 2 * k
    → (m' : Memory) × (invert (suc k) m lo hi ≡ some m') × ((x : ℕ) → m' x ≡ mirrored m lo hi x)
unfolding invert
invert-mirrored zero m lo hi h =
    let stop : ltb lo hi ≡ false = ground arith in
    (m, rw stop refl, λ x. mirrored_still m lo hi x (omega arith))
invert-mirrored (suc k) m lo hi h = elim (Bool-cases (ltb lo hi)) [
  | inr stop ↦ (m, rw stop refl, λ x. mirrored_still m lo hi x (ground arith))
  | inl go ↦
      let (m', eq, same) =
        invert-mirrored k (update (update m lo (m hi)) hi (m lo)) (lo + 1) (hi - 1)
          (ground arith) in
      (m', rw go eq, λ x. same x ∙ mirrored_step m lo hi x (ground arith))
]

mirrored-inside :
    (m : Memory) (lo hi x y : ℕ) → lo ≤ x → x ≤ hi → y + x ≡ lo + hi → mirrored m lo hi x ≡ m y
mirrored-inside m lo hi x y h h' e =
    let inside : (leb lo x && leb x hi) ≡ true = ground arith in
    let place : lo + hi - x ≡ y = omega arith in rw (inside, place) refl

mirrored-outside : (m : Memory) (lo hi x : ℕ) → (x < lo) ⊎ (hi < x) → mirrored m lo hi x ≡ m x
mirrored-outside m lo hi x (inl h) = ground arith
mirrored-outside m lo hi x (inr h) = ground arith

-- The digits in the other order, with a zero behind them, are the text.
turned-Spells :
    (m m1 m' : Memory) (v b str n : ℕ)
    → Backwards m m1 v b str n
    → ((x : ℕ) → m' x ≡ mirrored (update m1 (str + n) 0) str (str + n - 1) x)
    → Spells m' str v b n
turned-Spells m m1 m' v b str n back same =
    let full = back.some_digit in
    record {
      digit = λ i j e.
          same (str + i)
          ∙ mirrored-inside (update m1 (str + n) 0) str (str + n - 1) (str + i) (str + j)
              (omega arith) (omega arith) (omega arith)
          ∙ update_ne m1 (str + n) (str + j) 0 (λ e'. absurd (omega arith))
          ∙ back.digit j (omega arith);
      stop =
          same (str + n)
          ∙ mirrored-outside (update m1 (str + n) 0) str (str + n - 1) (str + n) (inr (omega arith))
          ∙ update_self m1 (str + n) 0;
      whole = back.whole;
      some_digit = full;
      leading = back.leading;
    }

turned-others :
    (m m1 m' : Memory) (v b str n x : ℕ)
    → Backwards m m1 v b str n
    → m' x ≡ mirrored (update m1 (str + n) 0) str (str + n - 1) x
    → (x < str) ⊎ (str + n < x)
    → m' x ≡ m x
turned-others m m1 m' v b str n x back same away =
    let full = back.some_digit in
    same
    ∙ mirrored-outside (update m1 (str + n) 0) str (str + n - 1) x
        (elim away [ inl p ↦ inl p | inr p ↦ inr (omega arith) ])
    ∙ update_ne m1 (str + n) x 0
        (λ e. elim away [ inl p ↦ absurd (omega arith) | inr p ↦ absurd (omega arith) ])
    ∙ back.others x (elim away [ inl p ↦ inl p | inr p ↦ inr (omega arith) ])

-- `itoa` for a base from 2 to 36 ends and leaves the number's text at `str`, and changes nothing outside
-- the text and its final zero. Fuel for each binary digit is enough.
pub itoa-Spells :
    (k : ℕ) (m : Memory) (v str b : ℕ)
    → 2 ≤ b
    → b ≤ 36
    → v < 2 ^ k
    → (n : ℕ) × (m' : Memory) × (itoa (suc k) m v str b ≡ some m')
      × (n ≤ suc k)
      × Spells m' str v b n
      × ((x : ℕ) → (x < str) ⊎ (str + n < x) → m' x ≡ m x)
unfolding itoa
itoa-Spells k m v str b low high h =
    let good : (ltb b 2 || ltb 36 b) ≡ false = ground arith in
    let (n, m1, eq, fits, back) = put_digits-Backwards k m v b str low h in
    let some_digit = back.some_digit in
    let (m', eq', same) =
      invert-mirrored k (update m1 (str + n) 0) str (str + n - 1) (omega arith) in
    (
      n,
      m',
      rw (good, eq) eq',
      fits,
      turned-Spells m m1 m' v b str n back same,
      λ x away. turned-others m m1 m' v b str n x back (same x) away,
    )
