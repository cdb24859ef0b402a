-- ===== src/Format/Padding.antt =====
-- The loops over `width` and `precision` in `number` of kernel/vsprintf.c.
use toutatis.Common.{
  ℕ, zero, suc, ◌+◌, ◌^◌, ◌≤◌, ◌<◌, ◌≡◌, ◌⊎◌, inl, inr, refl, ap, arith, Bool, true, false, not,
  ◌&&◌, ◌||◌, [], ◌∷◌, replicate, if◌then◌else◌,
}
use toutatis.Format.{sub_int, lt_int, pad_loop, zeros_loop, paddings}

pad_loop-replicate : (n c : ℕ) → n < 2 ^ 31 → pad_loop n c n ≡ (replicate n c, 4294967295)
unfolding pad_loop
pad_loop-replicate zero c h = refl
pad_loop-replicate (suc n) c h =
    let more : lt_int 0 (suc n) ≡ true = ground arith in
    let less : sub_int (suc n) 1 ≡ n = omega arith in
    rw (more, less) (ap (λ r. (c ∷ r.0, r.1)) (pad_loop-replicate n c (omega arith)))

pad_loop-none :
    (fuel c width : ℕ)
    → 2 ^ 31 ≤ width
    → width < 2 ^ 32
    → pad_loop fuel c width ≡ ([], sub_int width 1)
unfolding pad_loop
pad_loop-none zero c width low high = refl
pad_loop-none (suc fuel) c width low high =
    let stop : lt_int 0 width ≡ false = ground arith in rw stop refl

-- A width with a positive gap, and one that is used up.
abbrev pub Gap : ℕ → ℕ → Type 0
Gap width gap =
    ((width ≡ gap) × (gap < 2 ^ 31)) ⊎ ((gap ≡ 0) × (2 ^ 31 + 8 ≤ width) × (width < 2 ^ 32))

pad_loop-Gap :
    (c width gap : ℕ)
    → Gap width gap
    → (end : ℕ) × (pad_loop width c width ≡ (replicate gap c, end))
      × (2 ^ 31 + 7 ≤ end)
      × (end < 2 ^ 32)
pad_loop-Gap c width gap (inl (e, h)) =
    (4294967295, rw e (pad_loop-replicate gap c h), omega arith, omega arith)
pad_loop-Gap c width gap (inr (z, low, high)) = (
  sub_int width 1,
  rw z (pad_loop-none width c width (omega arith) high),
  omega arith,
  omega arith,
)

-- One of the three loops pads, and the others find the width used up.
pub paddings-Gap :
    (left zeros : Bool) (width gap : ℕ)
    → Gap width gap
    → paddings left (zeros && not left) width ≡ (
      if left || zeros then [] else replicate gap b' ',
      if left then [] else (if zeros then replicate gap b'0' else []),
      if left then replicate gap b' ' else [],
    )
unfolding paddings
paddings-Gap true true width gap g =
    let (end, e, low, high) = pad_loop-Gap b' ' width gap g in rw e refl
paddings-Gap true false width gap g =
    let (end, e, low, high) = pad_loop-Gap b' ' width gap g in rw e refl
paddings-Gap false true width gap g =
    let (end, e, low, high) = pad_loop-Gap b'0' width gap g in
    let last : pad_loop end b' ' end ≡ ([], sub_int end 1) =
      pad_loop-none end b' ' end (omega arith) high in
    rw (e, last) refl
paddings-Gap false false width gap g =
    let (end, e, low, high) = pad_loop-Gap b' ' width gap g in
    let second : pad_loop end b' ' end ≡ ([], sub_int end 1) =
      pad_loop-none end b' ' end (omega arith) high in
    let last : pad_loop (sub_int end 1) b' ' (sub_int end 1) ≡ ([], sub_int (sub_int end 1) 1) =
      pad_loop-none (sub_int end 1) b' ' (sub_int end 1) (omega arith) (omega arith) in
    rw (e, second, last) refl

-- Zeros up to the precision.
pub zeros_loop-replicate :
    (fuel n i : ℕ) → n ≤ fuel → i + n < 2 ^ 31 → zeros_loop fuel i (i + n) ≡ replicate n b'0'
unfolding zeros_loop
zeros_loop-replicate zero zero i le h = refl
zeros_loop-replicate zero (suc n) i le h = absurd (omega arith)
zeros_loop-replicate (suc fuel) zero i le h =
    let stop : lt_int i (i + 0) ≡ false = ground arith in rw stop refl
zeros_loop-replicate (suc fuel) (suc n) i le h =
    let more : lt_int i (i + suc n) ≡ true = ground arith in
    let less : sub_int (i + suc n) 1 ≡ i + n = omega arith in
    rw (more, less) (ap (◌∷◌ b'0') (zeros_loop-replicate fuel n i (omega arith) (omega arith)))
