-- ===== src/CString/Strings.antt =====
-- `strcpy`, `strncpy`, `strcat`: what they write.
use toutatis.Common.{
  ℕ, zero, suc, ◌+◌, ◌≤◌, ◌<◌, ◌≡◌, ◌⊎◌, inl, inr, ◌∙◌, arith, true, false, some, ◌==◌, min,
}
use native.Mathlib.Numerals.{unary_clauses}
use toutatis.Common.Store.{update, update_ne}
use toutatis.CString.{Memory, strcpy, strcpy_loop, strncpy, strncpy_loop, strcat}
use toutatis.CString.Copy.{copied}
use toutatis.CString.Measure.{IsString, strlen_lem}

-- The memory with `c` bytes from `s` at `d` and a zero behind them.
abbrev pub with_string : Memory → ℕ → ℕ → ℕ → Memory
with_string m d s c = update (copied m d s c) (d + c) 0

-- The buffers of `k + 1` bytes at `d` and at `s` have no byte in common.
abbrev pub Apart : ℕ → ℕ → ℕ → Type 0
Apart d s k = (d + k < s) ⊎ (s + k < d)

write-IsString :
    (m : Memory) (s k y v : ℕ)
    → IsString m s k
    → (y < s) ⊎ (s + k < y)
    → IsString (update m y v) s k
write-IsString m s k y v str away = record {
  content = λ i l.
      rw
        (update_ne m y (s + i) v
          (elim away [ inl p ↦ λ e. absurd (omega arith) | inr p ↦ λ e. absurd (omega arith) ]))
        (str.content i l);
  stop =
      update_ne m y (s + k) v
        (elim away [ inl p ↦ λ e. absurd (omega arith) | inr p ↦ λ e. absurd (omega arith) ])
      ∙ str.stop;
}

inside-Apart : (d s k i : ℕ) → Apart d s k → i ≤ k → (d + i < s) ⊎ (s + k < d + i)
inside-Apart d s k i (inl p) l = inl (omega arith)
inside-Apart d s k i (inr p) l = inr (omega arith)

-- One byte copied, then the rest.
with_string-step :
    (m : Memory) (d s k i c x : ℕ)
    → Apart d s k
    → i + suc c ≤ k
    → with_string (update m (d + i) (m (s + i))) (d + (i + 1)) (s + (i + 1)) c x
      ≡ with_string m (d + i) (s + i) (suc c) x
unfolding update
with_string-step m d s k i c x (inl p) l = ground arith
with_string-step m d s k i c x (inr p) l = ground arith

with_string-last : (m : Memory) (d s x : ℕ) → update m d 0 x ≡ with_string m d s 0 x
unfolding update
with_string-last m d s x = ground arith

strcpy_loop-copied :
    (fuel : ℕ) (m : Memory) (d s k i left : ℕ)
    → IsString m s k
    → i + left ≡ k
    → left < fuel
    → Apart d s k
    → (m' : Memory) × (strcpy_loop fuel m d s i ≡ some m')
      × ((x : ℕ) → m' x ≡ with_string m (d + i) (s + i) left x)
unfolding strcpy_loop
strcpy_loop-copied zero m d s k i left str e h apart = absurd (omega arith)
strcpy_loop-copied (suc fuel) m d s k i zero str e h apart =
    let e' : i ≡ k = omega arith in
    let z : (m (s + i) == 0) ≡ true = rw e' (let z = str.stop in ground arith) in
    (update m (d + i) 0, rw z, with_string-last m (d + i) (s + i))
strcpy_loop-copied (suc fuel) m d s k i (suc left) str e h apart =
    let str' =
      write-IsString m s k (d + i) (m (s + i)) str (inside-Apart d s k i apart (omega arith)) in
    let z : (m (s + i) == 0) ≡ false = (let c = str.content i (omega arith) in ground arith) in
    let (m', eq, same) =
      strcpy_loop-copied fuel (update m (d + i) (m (s + i))) d s k (i + 1) left str' (omega arith)
        (omega arith) apart in
    (m', rw z eq, λ x. same x ∙ with_string-step m d s k i left x apart (omega arith))

-- `strcpy` ends on every string, and the destination then holds the same string.
pub strcpy-copied :
    (fuel : ℕ) (m : Memory) (d s k : ℕ)
    → IsString m s k
    → k < fuel
    → Apart d s k
    → (m' : Memory) × (strcpy fuel m d s ≡ some m') × ((x : ℕ) → m' x ≡ with_string m d s k x)
unfolding strcpy
strcpy-copied fuel m d s k str h apart =
    simp unary_clauses at (strcpy_loop-copied fuel m d s k 0 k str (omega arith) h apart)

strncpy_loop-copied :
    (m : Memory) (d s k n i left x : ℕ)
    → IsString m s k
    → i + left ≡ k
    → Apart d s k
    → strncpy_loop m d s n i x ≡ with_string m (d + i) (s + i) (min left n) x
unfolding strncpy_loop
strncpy_loop-copied m d s k zero i left x str e apart =
    let e : min left 0 ≡ 0 = omega arith in rw e (with_string-last m (d + i) (s + i) x)
strncpy_loop-copied m d s k (suc n) i zero x str e apart =
    let e' : i ≡ k = omega arith in
    let z : (m (s + i) == 0) ≡ true = rw e' (let z = str.stop in ground arith) in
    let e : min 0 (suc n) ≡ 0 = omega arith in rw (z, e) (with_string-last m (d + i) (s + i) x)
strncpy_loop-copied m d s k (suc n) i (suc left) x str e apart =
    let str' =
      write-IsString m s k (d + i) (m (s + i)) str (inside-Apart d s k i apart (omega arith)) in
    let z : (m (s + i) == 0) ≡ false = (let c = str.content i (omega arith) in ground arith) in
    let shorter : min (suc left) (suc n) ≡ suc (min left n) = omega arith in
    rw (z, shorter)
      (strncpy_loop-copied (update m (d + i) (m (s + i))) d s k n (i + 1) left x str' (omega arith)
          apart
        ∙ with_string-step m d s k i (min left n) x apart (omega arith))

-- `strncpy` writes at most `n` bytes of the string and always a zero behind them.
pub strncpy-copied :
    (m : Memory) (d s k n x : ℕ)
    → IsString m s k
    → Apart d s k
    → strncpy m d s n x ≡ with_string m d s (min k n) x
unfolding strncpy
strncpy-copied m d s k n x str apart =
    simp unary_clauses at (strncpy_loop-copied m d s k n 0 k x str (omega arith) apart)

with_string-before : (m : Memory) (d s c x : ℕ) → x < d → with_string m d s c x ≡ m x
unfolding update
with_string-before m d s c x h = ground arith

-- `strcat` ends on two strings, and the string at `dst` is afterwards the one of before: the bytes of
-- `src` stand behind its final zero.
pub strcat-behind :
    (fuel : ℕ) (m : Memory) (d s k l : ℕ)
    → IsString m d k
    → IsString m s l
    → k < fuel
    → l < fuel
    → Apart (d + (k + 1)) s l
    → (m' : Memory) × (strcat fuel m d s ≡ some m')
      × IsString m' d k
      × ((x : ℕ) → m' x ≡ with_string m (d + (k + 1)) s l x)
unfolding strcat
strcat-behind fuel m d s k l dst src hk hl apart =
    let (m', eq, same) = strcpy-copied fuel m (d + (k + 1)) s l src hl apart in
    (
      m',
      rw (strcat, strlen_lem fuel m d k dst hk) eq,
      record {
        content = λ i b.
            rw (same (d + i) ∙ with_string-before m (d + (k + 1)) s l (d + i) (omega arith))
              (dst.content i b);
        stop =
            same (d + k) ∙ with_string-before m (d + (k + 1)) s l (d + k) (omega arith) ∙ dst.stop;
      },
      same,
    )
