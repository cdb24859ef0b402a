-- ===== src/Format/Reading.antt =====
-- What `vsprintf` of kernel/vsprintf.c reads behind a `%`: flags, and numbers by way of `tmp` and `atoi`.
use toutatis.Common.{
  ℕ, zero, suc, ◌+◌, ◌*◌, ◌%◌, ◌^◌, ◌≤◌, ◌<◌, ◌≡◌, ◌≢◌, ◌⊎◌, inl, inr, refl, ◌∙◌, ap, arith, Bool,
  true, false, ◌||◌, List, [], ◌∷◌, ◌++◌, length, some, ◌==◌,
}
use native.Mathlib.Nat.{mul-le-mul_left}
use toutatis.Common.Store.{update, update_self, update_ne}
use toutatis.CString.{Memory}
use toutatis.CString.Bytes.{At, At-same}
use toutatis.Utils.{is_digit, char_value, atoi_char, atoi_spaces, atoi_digits, atoi}
use toutatis.Format.{Flags}
use toutatis.Format.Value.{value_of}
use toutatis.Format.Vsprintf.{is_flag, set_flag, read_flags, copy_digits, read_number}

abbrev pub All : (ℕ → Bool) → List ℕ → Type 0
All p [] = Unit
All p (c ∷ cs) = (p c ≡ true) × All p cs

-- All flags, from the first one on.
abbrev pub set_flags : List ℕ → Flags → Flags
set_flags [] flags = flags
set_flags (c ∷ cs) flags = set_flags cs (set_flag c flags)

pub read_flags_lem :
    (fuel : ℕ) (m : Memory) (fmt i : ℕ) (cs : List ℕ) (flags : Flags)
    → All is_flag cs
    → At m (fmt + (i + 1)) cs
    → is_flag (m (fmt + (i + 1) + length cs)) ≡ false
    → length cs < fuel
    → read_flags fuel m fmt i flags ≡ some (i + length cs, set_flags cs flags)
unfolding read_flags
read_flags_lem zero m fmt i cs flags all at stop h = absurd (omega arith)
read_flags_lem (suc fuel) m fmt i [] flags all at stop h =
    let z : fmt + (i + 1) + 0 ≡ fmt + (i + 1) = omega arith in
    let w : i + 0 ≡ i = omega arith in rw (rw z at stop, w) refl
read_flags_lem (suc fuel) m fmt i (c ∷ cs) flags (p, all) (e, at) stop h =
    let a : fmt + (i + 1) + 1 ≡ fmt + (i + 1 + 1) = omega arith in
    let b : fmt + (i + 1) + suc (length cs) ≡ fmt + (i + 1 + 1) + length cs = omega arith in
    let w : i + 1 + length cs ≡ i + suc (length cs) = omega arith in
    rw (e, p)
      (rw w at (
        read_flags_lem fuel m fmt (i + 1) cs (set_flag c flags) all (rw a at at) (rw b at stop)
          (omega arith)))

-- The digits go to `tmp`, which lies apart from them, and nothing else is changed.
copy_digits_lem :
    (fuel : ℕ) (m : Memory) (fmt tmp i k : ℕ) (cs : List ℕ)
    → All is_digit cs
    → At m (fmt + (i + 1)) cs
    → is_digit (m (fmt + (i + 1) + length cs)) ≡ false
    → length cs < fuel
    → (tmp + k + length cs < fmt + (i + 1)) ⊎ (fmt + (i + 1) + length cs < tmp)
    → (end : Memory) × (copy_digits fuel m fmt tmp i k ≡ some (end, i + length cs))
      × At end (tmp + k) (cs ++ 0 ∷ [])
      × ((x : ℕ) → (x < tmp + k) ⊎ (tmp + k + length cs < x) → end x ≡ m x)
unfolding copy_digits
copy_digits_lem zero m fmt tmp i k cs all at stop h apart = absurd (omega arith)
copy_digits_lem (suc fuel) m fmt tmp i k [] all at stop h apart =
    let z : fmt + (i + 1) + 0 ≡ fmt + (i + 1) = omega arith in
    let w : i + 0 ≡ i = omega arith in
    (
      update m (tmp + k) 0,
      rw (rw z at stop, w) refl,
      (update_self m (tmp + k) 0, tt),
      λ x out.
          update_ne m (tmp + k) x 0
            (λ q. elim out [ inl p ↦ absurd (omega arith) | inr p ↦ absurd (omega arith) ]),
    )
copy_digits_lem (suc fuel) m fmt tmp i k (c ∷ cs) (p, all) (e, at) stop h apart =
    let m1 = update m (tmp + k) c in
    let a : fmt + (i + 1) + 1 ≡ fmt + (i + 1 + 1) = omega arith in
    let b : fmt + (i + 1) + suc (length cs) ≡ fmt + (i + 1 + 1) + length cs = omega arith in
    let w : i + 1 + length cs ≡ i + suc (length cs) = omega arith in
    let t : tmp + (k + 1) ≡ tmp + k + 1 = omega arith in
    let kept : (x : ℕ) → x ≢ tmp + k → m1 x ≡ m x = λ x ne. update_ne m (tmp + k) x c ne in
    let at1 =
      At-same m m1 (fmt + (i + 1 + 1)) cs
        (λ j l.
          kept (fmt + (i + 1 + 1) + j)
            (λ q. elim apart [ inl p ↦ absurd (omega arith) | inr p ↦ absurd (omega arith) ]))
        (rw a at at) in
    let same : m1 (fmt + (i + 1 + 1) + length cs) ≡ m (fmt + (i + 1 + 1) + length cs) =
      kept (fmt + (i + 1 + 1) + length cs)
        (λ q. elim apart [ inl p ↦ absurd (omega arith) | inr p ↦ absurd (omega arith) ]) in
    let (end, run, written, others) =
      copy_digits_lem fuel m1 fmt tmp (i + 1) (k + 1) cs all at1 (ap is_digit same ∙ rw b at stop)
        (omega arith) (elim apart [ inl p ↦ inl (omega arith) | inr p ↦ inr (omega arith) ]) in
    (
      end,
      rw (e, p) (rw w at run),
      (others (tmp + k) (inl (omega arith)) ∙ update_self m (tmp + k) c, rw t at written),
      λ x out.
          others x (elim out [ inl p ↦ inl (omega arith) | inr p ↦ inr (omega arith) ])
          ∙ kept x (λ q. elim out [ inl p ↦ absurd (omega arith) | inr p ↦ absurd (omega arith) ]),
    )

value_of-le : (base value : ℕ) (cs : List ℕ) → 1 ≤ base → value ≤ value_of base value cs
unfolding value_of
value_of-le base value [] h = omega arith
value_of-le base value (c ∷ cs) h =
    omega (arith, value_of-le base (value * base + char_value c) cs h, mul-le-mul_left value h)

atoi_char-digit : (c : ℕ) → is_digit c ≡ true → atoi_char c ≡ char_value c
atoi_char-digit c h = ground arith

atoi_digits_lem :
    (fuel : ℕ) (m : Memory) (s n : ℕ) (cs : List ℕ)
    → All is_digit cs
    → At m s (cs ++ 0 ∷ [])
    → value_of 10 n cs < 2 ^ 32
    → length cs < fuel
    → atoi_digits fuel m 10 s n ≡ some (value_of 10 n cs)
unfolding atoi_digits value_of
atoi_digits_lem zero m s n cs all at small h = absurd (omega arith)
atoi_digits_lem (suc fuel) m s n [] all (e, at) small h = rw e refl
atoi_digits_lem (suc fuel) m s n (c ∷ cs) (p, all) (e, at) small h =
    let goes : (c == 0 || c == b' ') ≡ false = ground arith in
    let le : n * 10 + char_value c ≤ value_of 10 (n * 10 + char_value c) cs =
      value_of-le 10 (n * 10 + char_value c) cs (omega arith) in
    let w : (n * 10 + char_value c) % 2 ^ 32 ≡ n * 10 + char_value c = omega arith in
    rw (e, goes, atoi_char-digit c p, w)
      (atoi_digits_lem fuel m (s + 1) (n * 10 + char_value c) cs all at small (omega arith))

-- Decimal digits, with no zero in front.
abbrev pub Decimal : List ℕ → Type 0
Decimal [] = Unit
Decimal (c ∷ cs) = (c ≢ b'0') × All is_digit (c ∷ cs)

-- `atoi` gives the value of the digits.
pub atoi_lem :
    (fuel : ℕ) (m : Memory) (s c : ℕ) (cs : List ℕ)
    → Decimal (c ∷ cs)
    → At m s (c ∷ cs ++ 0 ∷ [])
    → value_of 10 0 (c ∷ cs) < 2 ^ 32
    → suc (length cs) < fuel
    → atoi fuel m s ≡ some (value_of 10 0 (c ∷ cs))
unfolding atoi atoi_spaces
atoi_lem zero m s c cs dec at small h = absurd (omega arith)
atoi_lem (suc fuel) m s c cs (ne, (p, all)) (e, at) small h =
    let no_space : (c == b' ') ≡ false = ground arith in
    let no_zero : (c == b'0') ≡ false = ground arith in
    let spaces : atoi_spaces (suc fuel) m s ≡ some s = rw (e, no_space) refl in
    rw (spaces, atoi, e, no_zero)
      (atoi_digits_lem (suc fuel) m s 0 (c ∷ cs) (p, all) (e, at) small (omega arith))

-- A number behind `fmt[i]`, by way of `tmp`.
pub read_number_lem :
    (fuel : ℕ) (m : Memory) (fmt tmp i c : ℕ) (cs : List ℕ)
    → Decimal (c ∷ cs)
    → At m (fmt + (i + 1)) (c ∷ cs)
    → is_digit (m (fmt + (i + 1) + suc (length cs))) ≡ false
    → suc (length cs) < fuel
    → (tmp + suc (length cs) < fmt + (i + 1)) ⊎ (fmt + (i + 1) + suc (length cs) < tmp)
    → value_of 10 0 (c ∷ cs) < 2 ^ 32
    → (end : Memory) × (read_number fuel m fmt tmp i
        ≡ some (value_of 10 0 (c ∷ cs), end, i + suc (length cs)))
      × ((x : ℕ) → (x < tmp) ⊎ (tmp + suc (length cs) < x) → end x ≡ m x)
unfolding read_number
read_number_lem fuel m fmt tmp i c cs (ne, all) at stop h apart small =
    let z : tmp + 0 ≡ tmp = omega arith in
    let (end, run, written, others) =
      copy_digits_lem fuel m fmt tmp i 0 (c ∷ cs) all at stop h
        (elim apart [ inl p ↦ inl (omega arith) | inr p ↦ inr (omega arith) ]) in
    (
      end,
      rw (run, read_number, atoi_lem fuel end tmp c cs (ne, all) (rw z at written) small h) refl,
      λ x out. others x (elim out [ inl p ↦ inl (omega arith) | inr p ↦ inr (omega arith) ]),
    )
