-- ===== src/CString/Copy.antt =====
-- `memcpy`, `memmove`, `memset`: what stands in memory afterwards.
use toutatis.Common.{
  ℕ, zero, suc, ◌+◌, ◌-◌, ◌*◌, ◌/◌, ◌%◌, ◌≤◌, ◌≡◌, ◌⊎◌, inl, inr, ◌∙◌, arith, true, ◌&&◌,
  Bool-cases, ◌==◌, ltb, leb, ltb→lt, fun_ext, if◌then◌else◌,
}
use toutatis.Common.Store.{update}
use toutatis.CString.{
  Memory, copy_bytes, copy_word, copy_words, is_aligned, memcpy, memset, memsetw, copy_bytes_back,
  copy_words_back, memmove,
}

-- The memory with the `n` bytes at `s` of the old memory at `d`.
abbrev pub copied : Memory → ℕ → ℕ → ℕ → Memory
copied m d s n x = if leb d x && ltb x (d + n) then m (s + (x - d)) else m x

copy_bytes-copied :
    (m : Memory) (d s n x : ℕ) → (d ≤ s) ⊎ (s + n ≤ d) → copy_bytes m d s n x ≡ copied m d s n x
unfolding copy_bytes update
copy_bytes-copied m d s zero x h = ground arith
copy_bytes-copied m d s (suc n) x (inl h) =
    ground (arith, copy_bytes-copied (update m d (m s)) (d + 1) (s + 1) n x (inl (omega arith)))
copy_bytes-copied m d s (suc n) x (inr h) =
    ground (arith, copy_bytes-copied (update m d (m s)) (d + 1) (s + 1) n x (inr (omega arith)))

copy_bytes_back-copied :
    (m : Memory) (d s n x : ℕ) → s ≤ d → copy_bytes_back m d s n x ≡ copied m d s n x
unfolding copy_bytes_back update
copy_bytes_back-copied m d s zero x h = ground arith
copy_bytes_back-copied m d s (suc n) x h =
    ground (arith, copy_bytes_back-copied (update m (d + n) (m (s + n))) d s n x h)

-- One word: its four bytes, if the source is not overwritten before it is read.
word-copied : (m : Memory) (d s x : ℕ) → copy_word m d s x ≡ copied m d s 4 x
unfolding update
word-copied m d s x = ground arith

-- Two copies one behind the other, front first and back first.
copied_front :
    (m : Memory) (d s k n x : ℕ)
    → (d ≤ s) ⊎ (s + k + n ≤ d)
    → copied (copied m d s k) (d + k) (s + k) n x ≡ copied m d s (k + n) x
copied_front m d s k n x (inl h) = ground arith
copied_front m d s k n x (inr h) = ground arith

copied_back :
    (m : Memory) (d s k n x : ℕ)
    → s ≤ d
    → copied (copied m (d + n) (s + n) k) d s n x ≡ copied m d s (n + k) x
copied_back m d s k n x h = ground arith

copy_words-copied :
    (m : Memory) (d s n x : ℕ)
    → (d ≤ s) ⊎ (s + 4 * n ≤ d)
    → copy_words m d s n x ≡ copied m d s (4 * n) x
unfolding copy_words
copy_words-copied m d s zero x h = ground arith
copy_words-copied m d s (suc n) x h =
    let h' : (d + 4 ≤ s + 4) ⊎ (s + 4 + 4 * n ≤ d + 4) = elim h [
      | inl p ↦ inl (omega arith)
      | inr p ↦ inr (omega arith)
    ] in
    let h'' : (d ≤ s) ⊎ (s + 4 + 4 * n ≤ d) = elim h [
      | inl p ↦ inl p
      | inr p ↦ inr (omega arith)
    ] in
    let w : copy_word m d s ≡ copied m d s 4 = fun_ext (word-copied m d s) in
    let e : 4 * suc n ≡ 4 + 4 * n = omega arith in
    rw (w, e)
      (copy_words-copied (copied m d s 4) (d + 4) (s + 4) n x h'
        ∙ copied_front m d s 4 (4 * n) x h'')

copy_words_back-copied :
    (m : Memory) (d s n x : ℕ) → s ≤ d → copy_words_back m d s n x ≡ copied m d s (4 * n) x
unfolding copy_words_back
copy_words_back-copied m d s zero x h = ground arith
copy_words_back-copied m d s (suc n) x h =
    let w : copy_word m (d + 4 * n) (s + 4 * n) ≡ copied m (d + 4 * n) (s + 4 * n) 4 =
      fun_ext (word-copied m (d + 4 * n) (s + 4 * n)) in
    let e : 4 * suc n ≡ 4 * n + 4 = omega arith in
    rw (w, e)
      (copy_words_back-copied (copied m (d + 4 * n) (s + 4 * n) 4) d s n x h
        ∙ copied_back m d s 4 (4 * n) x h)

aligned_count : (d s n : ℕ) → is_aligned d s n ≡ true → 4 * (n / 4) ≡ n
aligned_count d s n h = ground arith

-- `memcpy` copies `n` bytes and touches nothing else, by bytes or by words, if the buffers do not
-- overlap or the destination does not lie above the source.
pub memcpy-copied :
    (m : Memory) (dst src n x : ℕ)
    → (dst ≤ src) ⊎ (src + n ≤ dst)
    → memcpy m dst src n x ≡ copied m dst src n x
unfolding memcpy
memcpy-copied m dst src n x h = elim (Bool-cases (is_aligned dst src n)) [
  | inl al ↦
      let e = aligned_count dst src n al in
      let h' : (dst ≤ src) ⊎ (src + 4 * (n / 4) ≤ dst) = rw e h in
      rw al (copy_words-copied m dst src (n / 4) x h' ∙ rw e)
  | inr un ↦ rw un (copy_bytes-copied m dst src n x h)
]

-- `memmove` copies `n` bytes and touches nothing else, however the buffers overlap.
pub memmove-copied : (m : Memory) (dst src n x : ℕ) → memmove m dst src n x ≡ copied m dst src n x
unfolding memmove
memmove-copied m dst src n x = elim (Bool-cases (ltb dst src)) [
  | inl below ↦ rw below (memcpy-copied m dst src n x (inl (omega (arith, ltb→lt dst src below))))
  | inr above ↦
      let le : src ≤ dst = ground arith in
      elim (Bool-cases (is_aligned dst src n)) [
        | inl al ↦
            let e = aligned_count dst src n al in
            rw (above, al) (copy_words_back-copied m dst src (n / 4) x le ∙ rw e)
        | inr un ↦ rw (above, un) (copy_bytes_back-copied m dst src n x le)
      ]
]

-- `memset` writes the low byte of the value to `n` bytes and touches nothing else.
pub memset-filled :
    (m : Memory) (ptr value n x : ℕ)
    → memset m ptr value n x ≡ (if leb ptr x && ltb x (ptr + n) then value % 256 else m x)
unfolding memset update
memset-filled m ptr value zero x = ground arith
memset-filled m ptr value (suc n) x =
    ground (arith, memset-filled (update m ptr (value % 256)) (ptr + 1) value n x)

-- `memsetw` writes the two bytes of the value to `n` words, the low byte first, and touches nothing else.
pub memsetw-filled :
    (m : Memory) (ptr v n x : ℕ)
    → memsetw m ptr v n x ≡ (
        if leb ptr x && ltb x (ptr + 2 * n)
        then (if (x - ptr) % 2 == 0 then v % 256 else v / 256 % 256)
        else m x)
unfolding memsetw update
memsetw-filled m ptr v zero x = ground arith
memsetw-filled m ptr v (suc n) x = ground (
  arith,
  memsetw-filled (update (update m ptr (v % 256)) (ptr + 1) (v / 256 % 256)) (ptr + 2) v n x,
)
