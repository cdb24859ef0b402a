-- ===== src/Frames/Count.antt =====
-- kernel/paging.c, `used_frames` and `memory_used`: what they count.
use native.Mathlib.Decide.{ℕ_discrete}
use toutatis.Common.{
  ℕ, zero, suc, ◌+◌, ◌*◌, ◌/◌, ◌%◌, ◌^◌, ◌≤◌, ◌<◌, ◌≡◌, refl, ◌≢◌, inl, inr, arith, ap, ◌==◌,
  Bool-cases, ◌∙◌,
}
use toutatis.Common.Bits.{bit, mask_bit, bit-lt, mask_bit-zero, mask_bit-pos}
use toutatis.Frames.{
  Frames, frame_size, set_frame, clear_frame, count_word, count_words, memory_used,
}
use toutatis.Frames.Marks.{mark, set_frame_lem, clear_frame_lem, nframes-set, mark_at}

-- The marked frames below `n`.
unfoldable pub marked : Frames → ℕ → ℕ
marked s zero = 0
marked s (suc n) = marked s n + mark s n

-- `used_frames` counts the marks of the `nframes` frames of the machine.
abbrev pub IsCounted : Frames → Type 0
IsCounted s = s.used ≡ marked s s.nframes

marked-le : (s : Frames) (n : ℕ) → marked s n ≤ n
unfolding marked
marked-le s zero = omega arith
marked-le s (suc n) = omega (arith, marked-le s n, bit-lt (s.words (n / 32)) (n % 32))

-- Two bitmaps that agree on the marks below `n`.
marked-same :
    (s t : Frames) (n : ℕ) → ((g : ℕ) → g < n → mark t g ≡ mark s g) → marked t n ≡ marked s n
unfolding marked
marked-same s t zero h = refl
marked-same s t (suc n) h =
    omega (arith, marked-same s t n (λ g p. h g (omega arith)), h n (omega arith))

-- Two bitmaps that differ at `f` alone.
marked-differ :
    (s t : Frames) (f n : ℕ)
    → f < n
    → ((g : ℕ) → f ≢ g → mark t g ≡ mark s g)
    → marked t n + mark s f ≡ marked s n + mark t f
unfolding marked
marked-differ s t f zero p h = absurd (omega arith)
marked-differ s t f (suc n) p h = elim (ℕ_discrete f n) [
  | yes e ↦ rw e (omega (arith, marked-same s t n (λ g q. h g (omega arith))))
  | no ne ↦ omega (arith, marked-differ s t f n (omega arith) h, h n ne)
]

-- Marking keeps the count, if the number of frames fits 32 bits.
pub set_frame-IsCounted :
    (s : Frames) (f : ℕ)
    → f < s.nframes
    → s.nframes < 2 ^ 32
    → IsCounted s
    → IsCounted (set_frame s f)
set_frame-IsCounted s f p fits h =
    let (self, others, counts, same) = set_frame_lem s f in
    let n : (set_frame s f).nframes ≡ s.nframes = nframes-set s f in
    elim (ℕ_discrete (mark s f) 0) [
      | yes free ↦ omega (
        arith,
        counts free,
        ap (marked (set_frame s f)) n,
        marked-differ s (set_frame s f) f s.nframes p others,
        marked-le (set_frame s f) s.nframes,
      )
      | no taken ↦ rw (same (omega (arith, bit-lt (s.words (f / 32)) (f % 32)))) h
    ]

-- Releasing a frame keeps the count too, whether the frame was marked or not.
pub clear_frame-IsCounted :
    (s : Frames) (f : ℕ)
    → f < s.nframes
    → s.nframes < 2 ^ 32
    → IsCounted s
    → IsCounted (clear_frame s f)
clear_frame-IsCounted s f p fits h =
    let (others, n, first, free, later) = clear_frame_lem s f in
    elim (ℕ_discrete (mark s f) 0) [
      | yes z ↦ rw (free z) h
      | no taken ↦ elim (ℕ_discrete (f % 32) 0) [
        | yes at_first ↦
            let one : mark s f ≡ 1 = omega (arith, bit-lt (s.words (f / 32)) (f % 32)) in
            let (cleared, count) = first at_first one in
            omega (
              arith,
              ap (marked (clear_frame s f)) n,
              marked-differ s (clear_frame s f) f s.nframes p others,
              marked-le s s.nframes,
            )
        | no not_first ↦ rw (later (omega arith)) h
      ]
    ]

zero_marks : (s : Frames) → marked s (0 * 32) ≡ 0
unfolding marked
zero_marks s = refl

-- The set bits of `w` among the `left` bits from `j` on.
ones : ℕ → ℕ → ℕ → ℕ
ones w j zero = 0
ones w j (suc left) = bit w j + ones w (j + 1) left

count_word-ones :
    (w j left count : ℕ)
    → count < 2 ^ 32
    → count_word w j left count ≡ (count + ones w j left) % 2 ^ 32
unfolding count_word ones
count_word-ones w j zero count h = omega arith
count_word-ones w j (suc left) count h = elim (Bool-cases (mask_bit w j == 0)) [
  | inl z ↦
      let b : bit w j ≡ 0 = ground (arith, bit-lt w j, mask_bit-pos w j) in
      rw (z, b) (omega (arith, count_word-ones w (j + 1) left count h))
  | inr nz ↦
      let b : bit w j ≡ 1 = ground (arith, bit-lt w j, mask_bit-zero w j) in
      rw (nz, b)
        (omega (arith, count_word-ones w (j + 1) left ((count + 1) % 2 ^ 32) (omega arith)))
]

marked-ones :
    (s : Frames) (i j left : ℕ)
    → j + left ≤ 32
    → marked s (i * 32 + j + left) ≡ marked s (i * 32 + j) + ones (s.words i) j left
unfolding ones marked
marked-ones s i j zero h = let e : i * 32 + j + 0 ≡ i * 32 + j = omega arith in rw e (omega arith)
marked-ones s i j (suc left) h =
    let e : i * 32 + j + suc left ≡ i * 32 + (j + 1) + left = omega arith in
    let step : marked s (i * 32 + (j + 1)) ≡ marked s (i * 32 + j) + bit (s.words i) j =
      let e' : i * 32 + (j + 1) ≡ suc (i * 32 + j) = omega arith in
      rw (e', marked) (rw (mark_at s i j (omega arith))) in
    rw e (omega (arith, marked-ones s i (j + 1) left (omega arith), step))

count_words-marked :
    (s : Frames) (i left count : ℕ)
    → count < 2 ^ 32
    → count ≡ marked s (i * 32) % 2 ^ 32
    → count_words s i left count ≡ marked s ((i + left) * 32) % 2 ^ 32
unfolding count_words
count_words-marked s i zero count h e = let z : (i + 0) * 32 ≡ i * 32 = omega arith in rw z e
count_words-marked s i (suc left) count h e =
    let z : (i + suc left) * 32 ≡ (i + 1 + left) * 32 = omega arith in
    let word : marked s ((i + 1) * 32) ≡ marked s (i * 32) + ones (s.words i) 0 32 =
      let a : (i + 1) * 32 ≡ i * 32 + 0 + 32 = omega arith in
      let b : i * 32 + 0 ≡ i * 32 = omega arith in
      rw a (marked-ones s i 0 32 (omega arith) ∙ rw b) in
    let c : count_word (s.words i) 0 32 count ≡ (count + ones (s.words i) 0 32) % 2 ^ 32 =
      count_word-ones (s.words i) 0 32 count h in
    rw z (
      count_words-marked s (i + 1) left (count_word (s.words i) 0 32 count) (omega arith)
        (omega arith))

-- `memory_used` counts the set bits of `nframes` words of the memory at the bitmap, not of the
-- `nframes / 32` words that it has: it reports the marks below `32 * nframes`, times the size of a
-- frame, modulo the width of the result.
pub memory_used-marked :
    (s : Frames) → memory_used s ≡ marked s (s.nframes * 32) * frame_size % 2 ^ 32
unfolding memory_used
memory_used-marked s =
    let c : count_words s 0 s.nframes 0 ≡ marked s ((0 + s.nframes) * 32) % 2 ^ 32 =
      count_words-marked s 0 s.nframes 0 (omega arith) (omega (arith, zero_marks s)) in
    let z : (0 + s.nframes) * 32 ≡ s.nframes * 32 = omega arith in rw (c, z) (omega arith)
