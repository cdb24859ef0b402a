-- ===== src/Boot/Reserved.antt =====
-- The frames that kernel/main.c reserves for the regions of the memory map.
use toutatis.Common.{
  ℕ, zero, suc, ◌+◌, ◌-◌, ◌*◌, ◌/◌, ◌%◌, ◌^◌, ◌≤◌, ◌<◌, ◌≡◌, refl, sym, ◌∙◌, ap, arith, true, false,
  Bool, ◌&&◌, none, ltb, leb, if◌then◌else◌,
}
use native.Mathlib.Decide.{ℕ_discrete}
use toutatis.CString.{Memory}
use toutatis.Frames.{Frames, set_frame, paging_mark_reserved}
use toutatis.Frames.Marks.{mark, mark-set_self, mark-set_ne}
use toutatis.Boot.{entry_at, reserve_from, reserve_region, print_entries, print_mmap}

-- The frames from that of an address on are marked, as many as there are rounds, and no other one; the
-- last round starts below 2^32.
reserve_from-mark :
    (left : ℕ) (s : Frames) (addr i f : ℕ)
    → addr + i + left * 4096 < 2 ^ 32 + 4096
    → mark (reserve_from s addr i left) f
      ≡ (if leb ((addr + i) / 4096) f && ltb f ((addr + i) / 4096 + left) then 1 else mark s f)
unfolding reserve_from paging_mark_reserved
reserve_from-mark zero s addr i f small = ground arith
reserve_from-mark (suc left) s addr i f small =
    let frame : (addr + i) % 2 ^ 32 / 4096 * 4096 / 4096 ≡ (addr + i) / 4096 = omega arith in
    let next : (addr + (i + 4096)) / 4096 ≡ (addr + i) / 4096 + 1 = omega arith in
    let rest =
      reserve_from-mark left (set_frame s ((addr + i) / 4096)) addr (i + 4096) f (omega arith) in
    let step : reserve_from s addr i (suc left)
        ≡ reserve_from (set_frame s ((addr + i) / 4096)) addr (i + 4096) left =
      ap (λ q. reserve_from (set_frame s q) addr (i + 4096) left) frame in
    ap (λ t. mark t f) step ∙ rest ∙ elim (ℕ_discrete f ((addr + i) / 4096)) [
      | yes e ↦
          let self : mark (set_frame s ((addr + i) / 4096)) f ≡ 1 =
            rw e (mark-set_self s ((addr + i) / 4096)) in
          rw (next, self) (ground arith)
      | no ne ↦
          let other : mark (set_frame s ((addr + i) / 4096)) f ≡ mark s f =
            mark-set_ne s ((addr + i) / 4096) f (λ q. ne (sym q)) in
          rw (next, other) (ground arith)
    ]

-- Reserving a region that ends at 2^32 or below marks as many frames as the length needs, from the frame of
-- the start on, and no other one.
pub reserve_region-mark :
    (s : Frames) (addr length f : ℕ)
    → addr + length ≤ 2 ^ 32
    → mark (reserve_region s addr length) f ≡ (
        if leb (addr / 4096) f && ltb f (addr / 4096 + (length + 4095) / 4096) then 1 else mark s f)
unfolding reserve_region
reserve_region-mark s addr length f small =
    let z : addr + 0 ≡ addr = omega arith in
    rw z at (reserve_from-mark ((length + 4095) / 4096) s addr 0 f (omega arith))

if-neither : (b : Bool) (n : ℕ) → (if b && false then 1 else n) ≡ n
if-neither true n = refl
if-neither false n = refl

-- The last frame of a region that does not start at the border of a frame keeps its mark, if the end
-- lies in a frame of its own.
pub reserve_region-misses :
    (s : Frames) (addr length : ℕ)
    → addr + length ≤ 2 ^ 32
    → (length + 4095) / 4096 * 4096 < addr % 4096 + length
    → mark (reserve_region s addr length) ((addr + length - 1) / 4096)
      ≡ mark s ((addr + length - 1) / 4096)
reserve_region-misses s addr length small uneven =
    let stop : ltb ((addr + length - 1) / 4096) (addr / 4096 + (length + 4095) / 4096) ≡ false =
      ground arith in
    reserve_region-mark s addr length ((addr + length - 1) / 4096) small
    ∙ rw stop (
        if-neither (leb (addr / 4096) ((addr + length - 1) / 4096))
          (mark s ((addr + length - 1) / 4096)))

hangs :
    (fuel : ℕ) (m : Memory) (a end i : ℕ)
    → a < end
    → 4 < (entry_at m a).kind
    → print_entries fuel m a end i ≡ none
unfolding print_entries
hangs zero m a end i inside unknown = refl
hangs (suc fuel) m a end i inside unknown =
    let here : ltb a end ≡ true = ground arith in
    let over : ltb 4 (entry_at m a).kind ≡ true = ground arith in
    rw (here, over) (hangs fuel m a end i inside unknown)

-- print_mmap does not end on a map with an entry of an unknown kind at its front.
pub print_mmap-hangs :
    (m : Memory) (start length fuel : ℕ)
    → start < (start + length) % 2 ^ 32
    → 4 < (entry_at m start).kind
    → print_mmap fuel m start length ≡ none
unfolding print_mmap
print_mmap-hangs m start length fuel inside unknown =
    hangs fuel m start ((start + length) % 2 ^ 32) 0 inside unknown
