-- ===== src/Vga/Cells.antt =====
-- The bytes of the video memory after a store to a cell, a scroll or a clear.
use toutatis.Common.{
  ℕ, zero, suc, ◌+◌, ◌-◌, ◌*◌, ◌/◌, ◌%◌, ◌≤◌, ◌<◌, ◌≡◌, ◌≢◌, ◌⊎◌, inl, inr, refl, ◌∙◌, ap₂, arith,
  ◌&&◌, ◌==◌, ltb, leb, if◌then◌else◌,
}
use toutatis.Common.Store.{update}
use toutatis.CString.{Memory, memcpy}
use toutatis.CString.Copy.{copied, memcpy-copied, memsetw-filled}
use toutatis.Vga.{video_mem, Screen, write_cell, blank, vga_scroll, clear_cells}

-- The two bytes of a cell.
abbrev pub cell : Memory → ℕ → ℕ × ℕ
cell m i = (m (video_mem + 2 * i), m (video_mem + 2 * i + 1))

abbrev pub value_bytes : ℕ → ℕ × ℕ
value_bytes v = (v % 256, v / 256 % 256)

-- A byte that is not in the video memory.
abbrev pub Outside : ℕ → Type 0
Outside x = (x < video_mem) ⊎ (video_mem + 4000 ≤ x)

pub cell-write_self : (m : Memory) (i v : ℕ) → cell (write_cell m i v) i ≡ value_bytes v
unfolding update
cell-write_self m i v = ap₂ (λ a b. (a, b)) (ground arith) (ground arith)

pub cell-write_ne : (m : Memory) (i j v : ℕ) → j ≢ i → cell (write_cell m i v) j ≡ cell m j
unfolding update
cell-write_ne m i j v h = ap₂ (λ a b. (a, b)) (ground arith) (ground arith)

pub write_cell-Outside : (m : Memory) (i v x : ℕ) → i < 2000 → Outside x → write_cell m i v x ≡ m x
unfolding update
write_cell-Outside m i v x h (inl o) = ground arith
write_cell-Outside m i v x h (inr o) = ground arith

-- The memory behind a scroll by one line.
abbrev pub scrolled : Memory → ℕ → Memory
scrolled m v x =
    if leb (video_mem + 3840) x && ltb x (video_mem + 3840 + 2 * 80)
    then (if (x - (video_mem + 3840)) % 2 == 0 then v % 256 else v / 256 % 256)
    else copied m video_mem (video_mem + 160) 3840 x

pub vga_scroll-memory :
    (s : Screen) (x : ℕ) → s.ypos ≡ 25 → (vga_scroll s).memory x ≡ scrolled s.memory (blank s) x
unfolding vga_scroll
vga_scroll-memory s x h = rw h (
    memsetw-filled (memcpy s.memory video_mem (video_mem + 160) 3840) (video_mem + 3840) (blank s)
      80 x
    ∙ rw (memcpy-copied s.memory video_mem (video_mem + 160) 3840 x (inl (omega arith))) refl)

pub vga_scroll-ypos : (s : Screen) → s.ypos ≡ 25 → (vga_scroll s).ypos ≡ 24
unfolding vga_scroll
vga_scroll-ypos s h = rw h refl

pub scrolled-Outside : (m : Memory) (v x : ℕ) → Outside x → scrolled m v x ≡ m x
scrolled-Outside m v x (inl o) = ground arith
scrolled-Outside m v x (inr o) = ground arith

pub cell-scrolled : (m : Memory) (v i : ℕ) → i < 1920 → cell (scrolled m v) i ≡ cell m (i + 80)
cell-scrolled m v i h = ap₂ (λ a b. (a, b)) (ground arith) (ground arith)

pub cell-scrolled_last :
    (m : Memory) (v i : ℕ) → 1920 ≤ i → i < 2000 → cell (scrolled m v) i ≡ value_bytes v
cell-scrolled_last m v i h h' = ap₂ (λ a b. (a, b)) (ground arith) (ground arith)

pub clear_cells-filled :
    (m : Memory) (v from n x : ℕ)
    → clear_cells m v from n x ≡ (
        if leb (video_mem + 2 * from) x && ltb x (video_mem + 2 * (from + n))
        then (if (x - (video_mem + 2 * from)) % 2 == 0 then v % 256 else v / 256 % 256)
        else m x)
unfolding clear_cells update
clear_cells-filled m v from zero x = ground arith
clear_cells-filled m v from (suc n) x =
    ground (arith, clear_cells-filled (write_cell m from v) v (from + 1) n x)
