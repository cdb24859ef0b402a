-- ===== src/Pic/Masks.antt =====
-- kernel/pic.c and kernel/pit.c: which interrupt lines are masked, what is acknowledged, and the
-- timer's divisor.
use toutatis.Common.{
  ℕ, ◌+◌, ◌-◌, ◌*◌, ◌/◌, ◌%◌, ◌^◌, ◌<◌, ◌≡◌, ◌≢◌, refl, arith, true, false, ◌&&◌, Bool-cases, inl,
  inr, [], ◌∷◌, ◌++◌, ◌==◌, ltb, leb, if◌then◌else◌,
}
use native.Mathlib.Decide.{ℕ_discrete}
use native.Mathlib.Nat.{div-lt_iff_lt-mul}
use toutatis.Common.Bits.{bit, bit-set_self, bit-set_ne, bit-clear_self, bit-clear_ne}
use toutatis.Pic.{Pic, pic_disable_irq, pic_enable_irq, Pit, pit_init, pic_acknowledge}

-- The mask bit of a line, 1 if it is disabled.
abbrev pub masked : Pic → ℕ → ℕ
masked s irq = if ltb irq 8 then bit s.mask_master irq else bit s.mask_slave (irq - 8)

-- `pic_enable_irq` clears and `pic_disable_irq` sets the mask of its line, and neither changes another
-- line.
pub pic_irq-masked :
    (s : Pic) (irq other : ℕ)
    → other ≢ irq
    → (masked (pic_enable_irq s irq) irq ≡ 0)
      × (masked (pic_disable_irq s irq) irq ≡ 1)
      × (masked (pic_enable_irq s irq) other ≡ masked s other)
      × (masked (pic_disable_irq s irq) other ≡ masked s other)
unfolding pic_enable_irq pic_disable_irq
pic_irq-masked s irq other ne = elim (Bool-cases (ltb irq 8)) [
  | inl m ↦ elim (Bool-cases (ltb other 8)) [
    | inl o ↦
        let ne' : irq ≢ other = λ e. absurd (omega arith) in
        rw (m, o)
          (
            bit-clear_self s.mask_master irq,
            bit-set_self s.mask_master irq,
            bit-clear_ne s.mask_master irq other ne',
            bit-set_ne s.mask_master irq other ne',
          )
    | inr o ↦
        rw (m, o) (bit-clear_self s.mask_master irq, bit-set_self s.mask_master irq, refl, refl)
  ]
  | inr m ↦ elim (Bool-cases (ltb other 8)) [
    | inl o ↦
        rw (m, o)
          (bit-clear_self s.mask_slave (irq - 8), bit-set_self s.mask_slave (irq - 8), refl, refl)
    | inr o ↦
        let ne' : irq - 8 ≢ other - 8 = λ e. ground arith in
        rw (m, o)
          (
            bit-clear_self s.mask_slave (irq - 8),
            bit-set_self s.mask_slave (irq - 8),
            bit-clear_ne s.mask_slave (irq - 8) (other - 8) ne',
            bit-set_ne s.mask_slave (irq - 8) (other - 8) ne',
          )
  ]
]

-- The timer is given the divisor of every frequency from 19 on, and a frequency of 0 changes nothing.
pub pit_init-divisor :
    (p : Pit) (s : Pic) (freq : ℕ)
    → (18 < freq
        → ((pit_init p s freq).0.divisor_low + (pit_init p s freq).0.divisor_high * 256
            ≡ 1193182 / freq)
          × (masked (pit_init p s freq).1 0 ≡ 0))
      × (freq ≡ 0 → pit_init p s freq ≡ (p, s))
unfolding pit_init
pit_init-divisor p s freq = (
  λ h.
      let set : (freq == 0) ≡ false = ground arith in
      let small : 1193182 / freq < 65536 =
        (div-lt_iff_lt-mul {k = freq} {x = 1193182} {y = 65536} (omega arith)).1 (omega arith) in
      rw set (omega (arith, small), bit-clear_self s.mask_master 0),
  λ h. let unset : (freq == 0) ≡ true = ground arith in rw unset refl,
)

isr-low : (master slave : ℕ) → master < 256 → bit (slave * 256 + master) 7 ≡ bit master 7
unfolding bit
isr-low master slave h = omega arith

isr-high :
    (master slave : ℕ) → master < 256 → slave < 256 → bit (slave * 256 + master) 15 ≡ bit slave 7
unfolding bit
isr-high master slave hm hs = omega arith

-- An interrupt that line 7 or 15 did not raise is counted and answered with 1; only for line 15 is the
-- end of interrupt sent, to the first controller. Any other is answered with 0, and the end of interrupt
-- goes to the controllers that it came through.
pub pic_acknowledge-writes :
    (s : Pic) (master slave irq : ℕ)
    → master < 256
    → slave < 256
    → (irq ≡ 7
        → bit master 7 ≡ 0
        → pic_acknowledge s master slave irq
          ≡ (record s { bad_irqs = (s.bad_irqs + 1) % 2 ^ 32 }, 1))
      × (irq ≡ 15
          → bit slave 7 ≡ 0
          → pic_acknowledge s master slave irq ≡ (
            record s { bad_irqs = (s.bad_irqs + 1) % 2 ^ 32; writes = s.writes ++ ((32, 32) ∷ []) },
            1,
          ))
      × ((irq ≡ 7 → bit master 7 ≡ 1)
          → (irq ≡ 15 → bit slave 7 ≡ 1)
          → pic_acknowledge s master slave irq ≡ (
            record s {
              writes =
                  (if leb 8 irq then s.writes ++ ((160, 32) ∷ []) else s.writes) ++ ((32, 32) ∷ []);
            },
            0,
          ))
unfolding pic_acknowledge
pic_acknowledge-writes s master slave irq hm hs =
    let first = isr-low master slave hm in
    let second = isr-high master slave hm hs in
    (
      λ e low.
          let raised : (bit (slave * 256 + master) 7 == 0) ≡ true = ground arith in
          rw (e, raised) refl,
      λ e low.
          let raised : (bit (slave * 256 + master) 15 == 0) ≡ true = ground arith in
          rw (e, raised) refl,
      λ one two.
          let seven : (irq == 7 && bit (slave * 256 + master) 7 == 0) ≡ false =
            elim (ℕ_discrete irq 7) [
              | yes e ↦ let b = one e in ground arith
              | no ne ↦ ground arith
            ] in
          let fifteen : (irq == 15 && bit (slave * 256 + master) 15 == 0) ≡ false =
            elim (ℕ_discrete irq 15) [
              | yes e ↦ let b = two e in ground arith
              | no ne ↦ ground arith
            ] in
          elim (Bool-cases (leb 8 irq)) [
            | inl high ↦ rw (seven, fifteen, high) refl
            | inr low ↦ rw (seven, fifteen, low) refl
          ],
    )
