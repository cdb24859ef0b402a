-- ===== src/Frames/Search.antt =====
-- kernel/paging.c, `first_free_frames`: the search for a run of free frames.
use native.Mathlib.Decide.{ℕ_discrete, dec_lt}
use toutatis.Common.{
  ℕ, zero, suc, ◌+◌, ◌-◌, ◌*◌, ◌/◌, ◌%◌, ◌^◌, ◌≤◌, ◌<◌, ◌≡◌, ◌≢◌, ◌↔◌, inl, inr, arith, ◌==◌, true,
  false, Bool-cases, Option, none, some, Option-cases,
}
use toutatis.Common.Bits.{bit, mask_bit, bit-lt, bit-full, mask_bit-zero, mask_bit-pos}
use toutatis.Frames.{
  Frames, full_word, test_frame, run_length, search_word, search_at, search_words,
  first_free_frames, first_free_frame,
}
use toutatis.Frames.Marks.{mark, mark_at, test_frame-mark, test_frame-zero}

-- The `num` frames from `f` on are free.
abbrev pub IsFreeRun : Frames → ℕ → ℕ → Type 0
IsFreeRun s num f = (k : ℕ) → k < num → mark s (f + k) ≡ 0

-- What a search of the frames from `lo` to below `hi` has found: the first run, or that none starts
-- there.
pub data Finding (s : Frames) (num lo hi : ℕ) : Option ℕ → Type 0 where
  hit :
      (f : ℕ)
      → lo ≤ f
      → f < hi
      → IsFreeRun s num f
      → ((g : ℕ) → lo ≤ g → g < f → ¬ IsFreeRun s num g)
      → Finding s num lo hi (some f)
  miss : ((g : ℕ) → lo ≤ g → g < hi → ¬ IsFreeRun s num g) → Finding s num lo hi none

module _ (s : Frames) where
  -- The count stops at `num`, or at a marked frame.
  run_length-stops :
      (start count left : ℕ)
      → start + count + left ≤ 2 ^ 32
      → (count ≤ run_length s start count left)
        × (run_length s start count left ≤ count + left)
        × (run_length s start count left < count + left
            → mark s (start + run_length s start count left) ≢ 0)
  unfolding run_length
  run_length-stops start count zero h = (omega arith, omega arith, λ p. absurd (omega arith))
  run_length-stops start count (suc left) h =
      let e : (start + count) % 2 ^ 32 ≡ start + count = omega arith in
      let (lo, hi, stop) = run_length-stops start (count + 1) left (omega arith) in
      elim (Bool-cases (test_frame s ((start + count) % 2 ^ 32) == 0)) [
        | inl free ↦ rw free (omega arith, omega arith, λ p. stop (omega arith))
        | inr taken ↦
            rw taken
              (omega arith, omega arith, λ _ m. ground (arith, test_frame-zero s (start + count)))
      ]

  run_length-free :
      (start count left : ℕ)
      → start + count + left ≤ 2 ^ 32
      → (k : ℕ) → count ≤ k
      → k < run_length s start count left
      → mark s (start + k) ≡ 0
  unfolding run_length
  run_length-free start count zero h k p q = absurd (omega arith)
  run_length-free start count (suc left) h k p q =
      let e : (start + count) % 2 ^ 32 ≡ start + count = omega arith in
      elim (Bool-cases (test_frame s ((start + count) % 2 ^ 32) == 0)) [
        | inl free ↦ elim (ℕ_discrete k count) [
          | yes now ↦ rw now (ground (arith, test_frame-mark s (start + count)))
          | no later ↦
              run_length-free start (count + 1) left (omega arith) k (omega arith) (rw free at q)
        ]
        | inr taken ↦ let q' : k < count = rw taken at q in absurd (omega arith)
      ]

  -- The count is `num` exactly when the run of `num` frames is free, given that the first is.
  run_length-eq :
      (f num : ℕ)
      → 0 < num
      → f + num ≤ 2 ^ 32
      → mark s f ≡ 0
      → (run_length s f 1 (num - 1) ≡ num) ↔ IsFreeRun s num f
  run_length-eq f num pos fits free =
      let (lo, hi, stop) = run_length-stops f 1 (num - 1) (omega arith) in
      (
        (λ e k p. elim (ℕ_discrete k 0) [
          | yes z ↦ let e0 : f + k ≡ f = omega arith in rw e0 free
          | no n ↦ run_length-free f 1 (num - 1) (omega arith) k (omega arith) (omega arith)
        ]),
        (λ run. elim (ℕ_discrete (run_length s f 1 (num - 1)) num) [
          | yes e ↦ e
          | no n ↦ absurd (stop (omega arith) (run _ (omega arith)))
        ]),
      )

  Finding-skip :
      {num lo hi : ℕ} {o : Option ℕ}
      → ¬ IsFreeRun s num lo
      → Finding s num (lo + 1) hi o
      → Finding s num lo hi o
  Finding-skip {lo} bad (hit f p q run first) =
      hit f (omega arith) q run
        (λ g a b. elim (ℕ_discrete g lo) [ yes e ↦ rw e bad | no n ↦ first g (omega arith) b ])
  Finding-skip {lo} bad (miss none_free) =
      miss
        (λ g a b. elim (ℕ_discrete g lo) [ yes e ↦ rw e bad | no n ↦ none_free g (omega arith) b ])

  not-IsFreeRun : (num f : ℕ) → 0 < num → mark s f ≢ 0 → ¬ IsFreeRun s num f
  not-IsFreeRun num f pos taken run =
      let e : f + 0 ≡ f = omega arith in taken (rw (← e) (run 0 pos))

  -- A masked bit tells whether the frame is free.
  masked_free : (i j : ℕ) → j < 32 → (mask_bit (s.words i) j == 0) ≡ true → mark s (i * 32 + j) ≡ 0
  masked_free i j h e =
      rw (mark_at s i j h) (ground (arith, bit-lt (s.words i) j, mask_bit-pos (s.words i) j))

  masked_taken :
      (i j : ℕ) → j < 32 → (mask_bit (s.words i) j == 0) ≡ false → mark s (i * 32 + j) ≢ 0
  masked_taken i j h e = rw (mark_at s i j h) (λ z. ground (arith, mask_bit-zero (s.words i) j z))

  search_word-Finding :
      (num i j left lo hi : ℕ)
      → 0 < num
      → j + left ≤ 32
      → i * 32 + 32 + num ≤ 2 ^ 32
      → lo ≡ i * 32 + j
      → hi ≡ lo + left
      → Finding s num lo hi (search_word s num i j left)
  unfolding search_word
  search_word-Finding num i j zero lo hi pos h fits e e' = miss (λ g a b. absurd (omega arith))
  search_word-Finding num i j (suc left) lo hi pos h fits e e' =
      let rest : Finding s num (lo + 1) hi (search_word s num i (j + 1) left) =
        search_word-Finding num i (j + 1) left (lo + 1) hi pos (omega arith) fits (omega arith)
          (omega arith) in
      let run = run_length-eq lo num pos (omega arith) in
      elim (Bool-cases (mask_bit (s.words i) j == 0)) [
        | inl free ↦
            let m : mark s lo ≡ 0 = rw e (masked_free i j (omega arith) free) in
            elim (Bool-cases (run_length s (i * 32 + j) 1 (num - 1) == num)) [
              | inl long ↦
                  rw (free, long)
                    (rw (← e) (
                      hit lo (omega arith) (omega arith) ((run m).0 (rw e (ground arith)))
                        (λ g a b. absurd (omega arith))))
              | inr short ↦
                  rw (free, short)
                    (Finding-skip
                      (λ r.
                        let eq = (run m).1 r in
                        let eq' : run_length s (i * 32 + j) 1 (num - 1) ≡ num = rw (← e) eq in
                        ground arith)
                      rest)
            ]
        | inr taken ↦ rw taken (
            Finding-skip (not-IsFreeRun num lo pos (rw e (masked_taken i j (omega arith) taken)))
              rest)
      ]

  search_at-Finding :
      (num i : ℕ)
      → 0 < num
      → i * 32 + 32 + num ≤ 2 ^ 32
      → Finding s num (i * 32) (i * 32 + 32) (search_at s num i)
  unfolding search_at
  search_at-Finding num i pos fits = elim (Bool-cases (s.words i == full_word)) [
    | inl full ↦ rw full (
        miss (λ g a b. not-IsFreeRun num g pos (λ z.
          let w : s.words (g / 32) ≡ 2 ^ 32 - 1 =
            let q : g / 32 ≡ i = omega arith in rw q (ground arith) in
          let one : bit (2 ^ 32 - 1) (g % 32) ≡ 1 = bit-full 32 (g % 32) (omega arith) in
          let zero_bit : bit (2 ^ 32 - 1) (g % 32) ≡ 0 = rw w at z in omega arith)))
    | inr open_word ↦ rw open_word (
        search_word-Finding num i 0 32 (i * 32) (i * 32 + 32) pos (omega arith) fits (omega arith)
          (omega arith))
  ]

  -- Two searches one after the other.
  Finding-hit_up :
      {num lo hi hi' : ℕ} {f : ℕ}
      → hi ≤ hi'
      → Finding s num lo hi (some f)
      → Finding s num lo hi' (some f)
  Finding-hit_up h (hit f p q run first) = hit f p (omega arith) run first

  Finding-append :
      {num lo mid hi : ℕ} {o : Option ℕ}
      → lo ≤ mid
      → Finding s num lo mid none
      → Finding s num mid hi o
      → Finding s num lo hi o
  Finding-append {num} {lo} {mid} h (miss low) (hit f p q run first) =
      hit f (omega arith) q run
        (λ g a b. elim (dec_lt g mid) [ yes l ↦ low g a l | no n ↦ first g (omega arith) b ])
  Finding-append {num} {lo} {mid} h (miss low) (miss high) =
      miss (λ g a b. elim (dec_lt g mid) [ yes l ↦ low g a l | no n ↦ high g (omega arith) b ])

  search_words-Finding :
      (num i left lo hi : ℕ)
      → 0 < num
      → (i + left) * 32 + num ≤ 2 ^ 32
      → lo ≡ i * 32
      → hi ≡ (i + left) * 32
      → Finding s num lo hi (search_words s num i left)
  unfolding search_words
  search_words-Finding num i zero lo hi pos fits e e' = miss (λ g a b. absurd (omega arith))
  search_words-Finding num i (suc left) lo hi pos fits e e' =
      let here : Finding s num lo (i * 32 + 32) (search_at s num i) =
        rw e (search_at-Finding num i pos (omega arith)) in
      elim (Option-cases (search_at s num i)) [
        | inl none_here ↦
            rw (none_here, search_words)
              (Finding-append (omega arith) (rw none_here at here) (
                search_words-Finding num (i + 1) left (i * 32 + 32) hi pos (omega arith)
                  (omega arith) (omega arith)))
        | inr (f, found) ↦
            rw (found, search_words) (Finding-hit_up (omega arith) (rw found at here))
      ]

-- For a positive `num`, the search returns the first run of `num` free frames among the
-- `32 * nframes` bits that the loop visits, and -1 exactly when there is none. The hypothesis
-- says that no frame number wraps.
pub first_free_frames-Finding :
    (s : Frames) (num : ℕ)
    → 0 < num
    → s.nframes * 32 + num ≤ 2 ^ 32
    → Finding s num 0 (s.nframes * 32) (first_free_frames s num)
unfolding first_free_frames
first_free_frames-Finding s num pos fits =
    let t : (num == 0) ≡ false = ground arith in
    rw t (
      search_words-Finding s num 0 s.nframes 0 (s.nframes * 32) pos (omega arith) (omega arith)
        (omega arith))

pub first_free_frame-Finding :
    (s : Frames) → s.nframes * 32 + 1 ≤ 2 ^ 32 → Finding s 1 0 (s.nframes * 32) (first_free_frame s)
unfolding first_free_frame
first_free_frame-Finding s fits = first_free_frames-Finding s 1 (omega arith) fits
