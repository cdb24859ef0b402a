-- ===== src/Frames/Marks.antt =====
-- Marking and releasing one frame: kernel/paging.c, `test_frame`, `set_frame`, `clear_frame`.
use native.Mathlib.Decide.{ℕ_discrete}
use toutatis.Common.{
  ℕ, ◌+◌, ◌-◌, ◌*◌, ◌/◌, ◌%◌, ◌^◌, ◌<◌, ◌≡◌, refl, ◌≢◌, inl, inr, arith, ◌==◌, true, Bool-cases,
}
use toutatis.Common.Bits.{
  bit, set_bit, clear_bit, mask_bit, bit-lt, bit-set_self, bit-set_ne, bit-clear_self, bit-clear_ne,
  mask_bit-zero, mask_bit-pos, mask_bit-ne_one,
}
use toutatis.Common.Store.{update, update_self, update_ne}
use toutatis.Frames.{Frames, test_frame, set_frame, clear_frame}

-- Whether frame `f` is marked, as 0 or 1.
abbrev pub mark : Frames → ℕ → ℕ
mark s f = bit (s.words (f / 32)) (f % 32)

pub test_frame-zero : (s : Frames) (f : ℕ) → mark s f ≡ 0 → test_frame s f ≡ 0
unfolding test_frame
test_frame-zero s f h = mask_bit-zero (s.words (f / 32)) (f % 32) h

pub test_frame-pos : (s : Frames) (f : ℕ) → mark s f ≡ 1 → 0 < test_frame s f
unfolding test_frame
test_frame-pos s f h = mask_bit-pos (s.words (f / 32)) (f % 32) h

pub test_frame-mark : (s : Frames) (f : ℕ) → test_frame s f ≡ 0 → mark s f ≡ 0
test_frame-mark s f h = ground (arith, bit-lt (s.words (f / 32)) (f % 32), test_frame-pos s f)

-- Two frames of one word differ in their bits.
off_ne : (f g : ℕ) → f ≢ g → f / 32 ≡ g / 32 → f % 32 ≢ g % 32
off_ne f g h e = omega arith

-- The words after a write at the word of `f`, seen at frame `g`.
mark_update_ne :
    (w : ℕ → ℕ) (f g v : ℕ)
    → (f / 32 ≡ g / 32 → bit v (g % 32) ≡ bit (w (f / 32)) (g % 32))
    → bit (update w (f / 32) v (g / 32)) (g % 32) ≡ bit (w (g / 32)) (g % 32)
mark_update_ne w f g v h = elim (ℕ_discrete (g / 32) (f / 32)) [
  | yes e ↦ rw (e, update_self w (f / 32) v) (h (omega arith))
  | no n ↦ rw (update_ne w (f / 32) (g / 32) v n)
]

pub mark-set_self : (s : Frames) (f : ℕ) → mark (set_frame s f) f ≡ 1
unfolding set_frame
mark-set_self s f = elim (Bool-cases (test_frame s f == 0)) [
  | inl e ↦
      rw (e, update_self s.words (f / 32) (set_bit (s.words (f / 32)) (f % 32)))
        (bit-set_self (s.words (f / 32)) (f % 32))
  | inr e ↦ rw e (ground (arith, bit-lt (s.words (f / 32)) (f % 32), test_frame-zero s f))
]

pub mark-set_ne : (s : Frames) (f g : ℕ) → f ≢ g → mark (set_frame s f) g ≡ mark s g
unfolding set_frame
mark-set_ne s f g h = elim (Bool-cases (test_frame s f == 0)) [
  | inl e ↦ rw e (
      mark_update_ne s.words f g (set_bit (s.words (f / 32)) (f % 32))
        (λ p. bit-set_ne (s.words (f / 32)) (f % 32) (g % 32) (off_ne f g h p)))
  | inr e ↦ rw e
]

-- Marking sets exactly the mark of its frame, and counts it once: a marked frame is left alone.
pub set_frame_lem :
    (s : Frames) (f : ℕ)
    → (mark (set_frame s f) f ≡ 1)
      × ((g : ℕ) → f ≢ g → mark (set_frame s f) g ≡ mark s g)
      × (mark s f ≡ 0 → (set_frame s f).used ≡ (s.used + 1) % 2 ^ 32)
      × (mark s f ≡ 1 → set_frame s f ≡ s)
set_frame_lem s f = (
  mark-set_self s f,
  mark-set_ne s f,
  unfold set_frame in (λ h. ground (arith, test_frame-zero s f)),
  unfold set_frame in (λ h. ground (arith, test_frame-pos s f)),
)

-- `clear_frame` does nothing at a frame that is not the first of its word.
pub clear_frame_noop : (s : Frames) (f : ℕ) → 0 < f % 32 → clear_frame s f ≡ s
unfolding clear_frame test_frame
clear_frame_noop s f h = ground (arith, mask_bit-ne_one (s.words (f / 32)) (f % 32) h)

pub mark-clear_ne : (s : Frames) (f g : ℕ) → f ≢ g → mark (clear_frame s f) g ≡ mark s g
unfolding clear_frame
mark-clear_ne s f g h = elim (Bool-cases (test_frame s f == 1)) [
  | inl e ↦ rw e (
      mark_update_ne s.words f g (clear_bit (s.words (f / 32)) (f % 32))
        (λ p. bit-clear_ne (s.words (f / 32)) (f % 32) (g % 32) (off_ne f g h p)))
  | inr e ↦ rw e
]

test_frame_first : (s : Frames) (f : ℕ) → f % 32 ≡ 0 → test_frame s f ≡ mark s f
unfolding test_frame mask_bit
test_frame_first s f h = rw h (omega arith)

pub clear_frame_first :
    (s : Frames) (f : ℕ)
    → f % 32 ≡ 0
    → mark s f ≡ 1
    → (mark (clear_frame s f) f ≡ 0) × ((clear_frame s f).used ≡ (s.used + 2 ^ 32 - 1) % 2 ^ 32)
unfolding clear_frame
clear_frame_first s f h m =
    let e : (test_frame s f == 1) ≡ true = ground (arith, test_frame_first s f) in
    rw e (
      rw (update_self s.words (f / 32) (clear_bit (s.words (f / 32)) (f % 32)))
          (bit-clear_self (s.words (f / 32)) (f % 32)),
      refl,
    )

clear_frame_free : (s : Frames) (f : ℕ) → mark s f ≡ 0 → clear_frame s f ≡ s
unfolding clear_frame
clear_frame_free s f h = ground (arith, test_frame-zero s f)

pub nframes-set : (s : Frames) (f : ℕ) → (set_frame s f).nframes ≡ s.nframes
unfolding set_frame
nframes-set s f = ground arith

pub nframes-clear : (s : Frames) (f : ℕ) → (clear_frame s f).nframes ≡ s.nframes
unfolding clear_frame
nframes-clear s f = ground arith

-- Releasing frame `f`: no other mark changes, and the number of frames stays. At the first frame of a
-- word a mark is cleared and uncounted. At a free frame, and at every frame that is not the first of
-- its word, nothing happens.
pub clear_frame_lem :
    (s : Frames) (f : ℕ)
    → ((g : ℕ) → f ≢ g → mark (clear_frame s f) g ≡ mark s g)
      × ((clear_frame s f).nframes ≡ s.nframes)
      × (f % 32 ≡ 0
          → mark s f ≡ 1
          → (mark (clear_frame s f) f ≡ 0)
            × ((clear_frame s f).used ≡ (s.used + 2 ^ 32 - 1) % 2 ^ 32))
      × (mark s f ≡ 0 → clear_frame s f ≡ s)
      × (0 < f % 32 → clear_frame s f ≡ s)
clear_frame_lem s f = (
  mark-clear_ne s f,
  nframes-clear s f,
  clear_frame_first s f,
  clear_frame_free s f,
  clear_frame_noop s f,
)

pub mark_at : (s : Frames) (i j : ℕ) → j < 32 → mark s (i * 32 + j) ≡ bit (s.words i) j
mark_at s i j h =
    let a : (i * 32 + j) / 32 ≡ i = omega arith in
    let b : (i * 32 + j) % 32 ≡ j = omega arith in rw (a, b)
