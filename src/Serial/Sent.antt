-- ===== src/Serial/Sent.antt =====
-- `write` of kernel/serial.c: what is sent and what is counted.
use toutatis.Common.{
  ℕ, zero, suc, ◌+◌, ◌/◌, ◌%◌, ◌≤◌, ◌<◌, ◌≡◌, ◌≢◌, inl, inr, refl, sym, ◌∙◌, ap, ap₂, arith, true,
  false, not, ◌&&◌, List, [], ◌∷◌, ◌++◌, ◌==◌, ltb, get_or, length, length-append, Bool-cases,
}
use mathlib.Core.Path.{subst}
use toutatis.CString.{Memory}
use toutatis.Serial.{colour_text, term_fg, term_bg, digits, fg_codes, bg_codes, write_loop, write}

-- The `n` bytes from `at` on.
abbrev pub bytes_at : Memory → ℕ → ℕ → List ℕ
bytes_at m at zero = []
bytes_at m at (suc n) = m at ∷ bytes_at m (at + 1) n

digits-length : (n : ℕ) → length (digits n) ≤ 3
digits-length n = elim (Bool-cases (ltb n 100)) [
  | inl e ↦ rw e (omega arith)
  | inr e ↦ rw e (omega arith)
]

-- The text of a colour and its final zero fit into the 32 bytes of the buffer.
colour_text-length : (c : ℕ) → length (colour_text c) < 32
unfolding colour_text term_fg term_bg
colour_text-length c =
    let f = get_or fg_codes (c % 16) 0 in
    let b = get_or bg_codes (c / 16) 0 in
    let one : length (digits f ++ 59 ∷ []) ≡ length (digits f) + 1 =
      length-append (digits f) (59 ∷ []) in
    let two : length (digits b ++ 109 ∷ []) ≡ length (digits b) + 1 =
      length-append (digits b) (109 ∷ []) in
    let all = length-append (digits f ++ 59 ∷ []) (digits b ++ 109 ∷ []) in
    let p = digits-length f in let q = digits-length b in omega arith

write_loop-end :
    (rounds : ℕ) (m : Memory) (at len i : ℕ)
    → i ≤ len + 1
    → i ≤ (write_loop rounds m at len i).1 × ((write_loop rounds m at len i).1 ≤ len + 1)
unfolding write_loop
write_loop-end zero m at len i h = (omega arith, h)
write_loop-end (suc rounds) m at len i h = elim (Bool-cases (not (m at == 0) && ltb i len)) [
  | inr stop ↦ rw stop (omega arith, h)
  | inl go ↦
      let inside : i < len = ground arith in
      elim (Bool-cases (m at == 27)) [
        | inl esc ↦
            let (p, q) = write_loop-end rounds m (at + 2) len (i + 2) (omega arith) in
            rw (go, esc) (omega arith, q)
        | inr usual ↦
            let (p, q) = write_loop-end rounds m (at + 1) len (i + 1) (omega arith) in
            rw (go, usual) (omega arith, q)
      ]
]

write_loop-plain :
    (rounds : ℕ) (m : Memory) (at len i : ℕ)
    → ((k : ℕ) → k < rounds → (m (at + k) ≢ 0) × (m (at + k) ≢ 27))
    → i + rounds ≡ len
    → write_loop rounds m at len i ≡ (bytes_at m at rounds, len)
unfolding write_loop
write_loop-plain zero m at len i plain h = ap (λ e. ([], e)) (omega arith)
write_loop-plain (suc rounds) m at len i plain h =
    let start : at + 0 ≡ at = omega arith in
    let (n, e) = plain 0 (omega arith) in
    let go : not (m at == 0) && ltb i len ≡ true =
      (let n' : m at ≢ 0 = λ z. n (ap m start ∙ z) in ground arith) in
    let usual : m at == 27 ≡ false =
      (let e' : m at ≢ 27 = λ z. e (ap m start ∙ z) in ground arith) in
    let rest =
      write_loop-plain rounds m (at + 1) len (i + 1)
        (λ k lt.
          (let same : at + 1 + k ≡ at + suc k = omega arith in
            subst (λ a. (m a ≢ 0) × (m a ≢ 27)) (sym same) (plain (suc k) (omega arith))))
        (omega arith) in
    rw (go, usual) (ap (λ r. (m at ∷ r.0, r.1)) rest)

-- Whatever stands in memory, the text of a colour fits into the buffer of 32 bytes with its final zero,
-- and the count is at most one more than the length. A text of `len` bytes without a zero and without an
-- escape is sent as it is, and counted in full.
pub write-sent :
    (m : Memory) (at len : ℕ)
    → ((c : ℕ) → length (colour_text c) < 32)
      × ((write m at len).1 ≤ len + 1)
      × (((k : ℕ) → k < len → (m (at + k) ≢ 0) × (m (at + k) ≢ 27))
          → write m at len ≡ (bytes_at m at len, len))
unfolding write
write-sent m at len = (
  colour_text-length,
  (write_loop-end len m at len 0 (omega arith)).1,
  λ plain. write_loop-plain len m at len 0 plain (omega arith),
)

write_loop-string :
    (n rounds : ℕ) (m : Memory) (at len i : ℕ)
    → ((k : ℕ) → k < n → (m (at + k) ≢ 0) × (m (at + k) ≢ 27))
    → m (at + n) ≡ 0
    → n < rounds
    → i + n < len
    → write_loop rounds m at len i ≡ (bytes_at m at n, i + n)
unfolding write_loop
write_loop-string n zero m at len i plain stop h inside = absurd (omega arith)
write_loop-string zero (suc rounds) m at len i plain stop h inside =
    let start : at + 0 ≡ at = omega arith in
    let z : i + 0 ≡ i = omega arith in
    let over : not (m at == 0) && ltb i len ≡ false =
      (let e : m at ≡ 0 = rw start at stop in ground arith) in
    rw (over, z) refl
write_loop-string (suc n) (suc rounds) m at len i plain stop h inside =
    let start : at + 0 ≡ at = omega arith in
    let (ne, e) = plain 0 (omega arith) in
    let go : not (m at == 0) && ltb i len ≡ true =
      (let ne' : m at ≢ 0 = λ z. ne (ap m start ∙ z) in ground arith) in
    let usual : m at == 27 ≡ false =
      (let e' : m at ≢ 27 = λ z. e (ap m start ∙ z) in ground arith) in
    let place : at + suc n ≡ at + 1 + n = omega arith in
    let count : i + 1 + n ≡ i + suc n = omega arith in
    let rest =
      write_loop-string n rounds m (at + 1) len (i + 1)
        (λ k lt.
          (let same : at + 1 + k ≡ at + suc k = omega arith in
            subst (λ a. (m a ≢ 0) × (m a ≢ 27)) (sym same) (plain (suc k) (omega arith))))
        (rw place at stop) (omega arith) (omega arith) in
    rw (go, usual) (ap (λ r. (m at ∷ r.0, r.1)) (rw count at rest))

-- The bytes before a zero and without an escape are sent as they are.
pub write-string :
    (n : ℕ) (m : Memory) (at len : ℕ)
    → ((k : ℕ) → k < n → (m (at + k) ≢ 0) × (m (at + k) ≢ 27))
    → m (at + n) ≡ 0
    → n < len
    → write m at len ≡ (bytes_at m at n, n)
unfolding write
write-string n m at len plain stop inside =
    write_loop-string n len m at len 0 plain stop inside (omega arith)
    ∙ ap (λ k. (bytes_at m at n, k)) (omega arith)

pub bytes_at-same :
    (n : ℕ) (m m' : Memory) (a b : ℕ)
    → ((j : ℕ) → j < n → m' (b + j) ≡ m (a + j))
    → bytes_at m' b n ≡ bytes_at m a n
bytes_at-same zero m m' a b same = refl
bytes_at-same (suc n) m m' a b same =
    let p : a + 0 ≡ a = omega arith in
    let q : b + 0 ≡ b = omega arith in
    let first : m' b ≡ m a = sym (ap m' q) ∙ same 0 (omega arith) ∙ ap m p in
    let rest = bytes_at-same n m m' (a + 1) (b + 1) (λ j h.
      (let e : a + suc j ≡ a + 1 + j = omega arith in
        let f : b + suc j ≡ b + 1 + j = omega arith in
        sym (ap m' f) ∙ same (suc j) (omega arith) ∙ ap m e)) in
    ap₂ (λ x xs. x ∷ xs) first rest
