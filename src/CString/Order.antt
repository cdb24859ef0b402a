-- ===== src/CString/Order.antt =====
-- `strcmp`, `strncmp`, `memcmp`, `memchr`: what their results say of the bytes.
use toutatis.Common.{
  ℕ, zero, suc, ◌+◌, ◌≤◌, ◌<◌, ◌≡◌, ◌≢◌, ◌⊎◌, inl, inr, refl, ◌∙◌, arith, true, false, Option, none,
  some, ◌==◌, min,
}
use native.Mathlib.Decide.{ℕ_discrete}
use toutatis.CString.{
  Memory, compare_chars, goes_on, strcmp, strcmp_loop, strncmp, strncmp_loop, memcmp, memcmp_loop,
  memchr,
}

-- The memories at `s1` and `s2` are equal and without a zero for `j` bytes.
abbrev pub Agree : Memory → ℕ → ℕ → ℕ → Type 0
Agree m s1 s2 j = (i : ℕ) → i < j → (m (s1 + i) ≢ 0) × (m (s1 + i) ≡ m (s2 + i))

-- They agree before `j`, and at `j` the first one ends or they differ.
pub record PartAt (m : Memory) (s1 s2 j : ℕ) : Type 0 where
  pub before : Agree m s1 s2 j
  pub here : (m (s1 + j) ≡ 0) ⊎ (m (s1 + j) ≢ m (s2 + j))

goes_on-true : (a b : ℕ) → a ≢ 0 → a ≡ b → goes_on a b ≡ true
goes_on-true a b h e = ground arith

goes_on-false : (a b : ℕ) → (a ≡ 0) ⊎ (a ≢ b) → goes_on a b ≡ false
goes_on-false a b (inl e) = ground arith
goes_on-false a b (inr n) = ground arith

strcmp_loop-first :
    (fuel : ℕ) (m : Memory) (s1 s2 j i left : ℕ)
    → PartAt m s1 s2 j
    → i + left ≡ j
    → left < fuel
    → strcmp_loop fuel m s1 s2 i ≡ some (compare_chars (m (s1 + j)) (m (s2 + j)))
unfolding strcmp_loop
strcmp_loop-first zero m s1 s2 j i left part e h = absurd (omega arith)
strcmp_loop-first (suc fuel) m s1 s2 j i zero part e h =
    let e' : i ≡ j = omega arith in rw (e', goes_on-false (m (s1 + j)) (m (s2 + j)) part.here) refl
strcmp_loop-first (suc fuel) m s1 s2 j i (suc left) part e h =
    let (full, same) = part.before i (omega arith) in
    rw (goes_on-true (m (s1 + i)) (m (s2 + i)) full same)
      (strcmp_loop-first fuel m s1 s2 j (i + 1) left part (omega arith) (omega arith))

-- `strcmp` ends on two strings, and compares the first two bytes that differ or at which the first
-- string ends, as signed characters.
pub strcmp-first :
    (fuel : ℕ) (m : Memory) (s1 s2 j : ℕ)
    → PartAt m s1 s2 j
    → j < fuel
    → strcmp fuel m s1 s2 ≡ some (compare_chars (m (s1 + j)) (m (s2 + j)))
unfolding strcmp
strcmp-first fuel m s1 s2 j part h = strcmp_loop-first fuel m s1 s2 j 0 j part (omega arith) h

strncmp_loop-first :
    (m : Memory) (s1 s2 j n i left : ℕ)
    → PartAt m s1 s2 j
    → i + left ≡ j
    → strncmp_loop m s1 s2 n i
      ≡ compare_chars (m (s1 + (i + min left n))) (m (s2 + (i + min left n)))
unfolding strncmp_loop
strncmp_loop-first m s1 s2 j zero i left part e =
    let e' : i + min left 0 ≡ i = omega arith in rw e' refl
strncmp_loop-first m s1 s2 j (suc n) i zero part e =
    let e' : i + min zero (suc n) ≡ j = omega arith in
    let e'' : i ≡ j = omega arith in
    rw (e', e'', goes_on-false (m (s1 + j)) (m (s2 + j)) part.here) refl
strncmp_loop-first m s1 s2 j (suc n) i (suc left) part e =
    let (full, same) = part.before i (omega arith) in
    let shift : i + min (suc left) (suc n) ≡ i + 1 + min left n = omega arith in
    rw (goes_on-true (m (s1 + i)) (m (s2 + i)) full same, shift)
      (strncmp_loop-first m s1 s2 j n (i + 1) left part (omega arith))

-- `strncmp` decides at the first bytes that part, but at the bytes of index `n` if those come first:
-- it looks at `n + 1` bytes.
pub strncmp-first :
    (m : Memory) (s1 s2 j n : ℕ)
    → PartAt m s1 s2 j
    → strncmp m s1 s2 n ≡ compare_chars (m (s1 + min j n)) (m (s2 + min j n))
unfolding strncmp
strncmp-first m s1 s2 j n part =
    let e : 0 + min j n ≡ min j n = omega arith in
    strncmp_loop-first m s1 s2 j n 0 j part (omega arith) ∙ rw e refl

-- What the result of `memcmp` says of the `n` bytes at `p1` and `p2` from the index `i` on: all are
-- equal, or the two bytes are the first that differ.
pub Compared : Memory → ℕ → ℕ → ℕ → ℕ → Option (ℕ × ℕ) → Type 0
Compared m p1 p2 i n none = (j : ℕ) → i ≤ j → j < i + n → m (p1 + j) ≡ m (p2 + j)
Compared m p1 p2 i n (some bytes) =
    (j : ℕ) × (i ≤ j)
    × (j < i + n)
    × (bytes ≡ (m (p1 + j), m (p2 + j)))
    × (m (p1 + j) ≢ m (p2 + j))
    × ((k : ℕ) → i ≤ k → k < j → m (p1 + k) ≡ m (p2 + k))

Compared-step :
    (m : Memory) (p1 p2 i n : ℕ) (r : Option (ℕ × ℕ))
    → m (p1 + i) ≡ m (p2 + i)
    → Compared m p1 p2 (i + 1) n r
    → Compared m p1 p2 i (suc n) r
unfolding Compared
Compared-step m p1 p2 i n none here rest = λ j from below. elim (ℕ_discrete j i) [
  | yes e ↦ rw e here
  | no ne ↦ rest j (omega arith) (omega arith)
]
Compared-step m p1 p2 i n (some bytes) here (j, from, below, eq, differ, before) = (
  j,
  omega arith,
  omega arith,
  eq,
  differ,
  λ k kfrom kbelow. elim (ℕ_discrete k i) [
    | yes e ↦ rw e here
    | no ne ↦ before k (omega arith) kbelow
  ],
)

memcmp_loop-Compared : (m : Memory) (p1 p2 i n : ℕ) → Compared m p1 p2 i n (memcmp_loop m p1 p2 i n)
unfolding memcmp_loop Compared
memcmp_loop-Compared m p1 p2 i zero = λ j from below. absurd (omega arith)
memcmp_loop-Compared m p1 p2 i (suc n) = elim (ℕ_discrete (m (p1 + i)) (m (p2 + i))) [
  | yes e ↦
      let same : (m (p1 + i) == m (p2 + i)) ≡ true = ground arith in
      rw same (
        Compared-step m p1 p2 i n (memcmp_loop m p1 p2 (i + 1) n) e
          (memcmp_loop-Compared m p1 p2 (i + 1) n))
  | no ne ↦
      let other : (m (p1 + i) == m (p2 + i)) ≡ false = ground arith in
      rw other (i, omega arith, omega arith, refl, ne, λ k from below. absurd (omega arith))
]

-- `memcmp` finds the first two of `n` bytes that differ, and returns 0 only if there are none.
pub memcmp-Compared : (m : Memory) (p1 p2 n : ℕ) → Compared m p1 p2 0 n (memcmp m p1 p2 n)
unfolding memcmp
memcmp-Compared m p1 p2 n = memcmp_loop-Compared m p1 p2 0 n

-- What the result of `memchr` says: the first of the `n` bytes at `ptr` that is the value, or none is.
pub FirstByte : Memory → ℕ → ℕ → ℕ → Option ℕ → Type 0
FirstByte m ptr value n none = (x : ℕ) → ptr ≤ x → x < ptr + n → m x ≢ value
FirstByte m ptr value n (some p) =
    (ptr ≤ p) × (p < ptr + n) × (m p ≡ value) × ((x : ℕ) → ptr ≤ x → x < p → m x ≢ value)

FirstByte-step :
    (m : Memory) (ptr value n : ℕ) (r : Option ℕ)
    → m ptr ≢ value
    → FirstByte m (ptr + 1) value n r
    → FirstByte m ptr value (suc n) r
unfolding FirstByte
FirstByte-step m ptr value n none here rest = λ x from below. elim (ℕ_discrete x ptr) [
  | yes e ↦ rw e here
  | no ne ↦ rest x (omega arith) (omega arith)
]
FirstByte-step m ptr value n (some p) here (from, below, eq, before) = (
  omega arith,
  omega arith,
  eq,
  λ x xfrom xbelow. elim (ℕ_discrete x ptr) [
    | yes e ↦ rw e here
    | no ne ↦ before x (omega arith) xbelow
  ],
)

-- `memchr` returns the first of the `n` bytes that is the value, and NULL only if there is none.
pub memchr-FirstByte :
    (m : Memory) (ptr value n : ℕ) → FirstByte m ptr value n (memchr m ptr value n)
unfolding memchr FirstByte
memchr-FirstByte m ptr value zero = λ x from below. absurd (omega arith)
memchr-FirstByte m ptr value (suc n) = elim (ℕ_discrete (m ptr) value) [
  | yes e ↦
      let same : (m ptr == value) ≡ true = ground arith in
      rw same (omega arith, omega arith, e, λ x from below. absurd (omega arith))
  | no ne ↦
      let other : (m ptr == value) ≡ false = ground arith in
      rw other (
        FirstByte-step m ptr value n (memchr m (ptr + 1) value n) ne
          (memchr-FirstByte m (ptr + 1) value n))
]
