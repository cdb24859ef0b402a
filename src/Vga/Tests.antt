-- ===== src/Vga/Tests.antt =====
-- Runs of the screen driver and witnesses of its properties.
use toutatis.Common.{inl, ℕ, ◌+◌, ◌≤◌, ◌<◌, ◌≡◌, refl, arith, ◌==◌, if◌then◌else◌}
use toutatis.Vga.{Screen, vga_print_char, vga_write}
use toutatis.Vga.Cells.{cell, Outside}
use toutatis.Vga.Print.{IsValid, print, terminal, vga_print_char-print}
use toutatis.Vga.Number.{BufferOutside}
use toutatis.Vga.Write.{vga_write-inside}

-- The text `a`, escape, 7 and `b` stands at address 1000; the position is the last cell of the screen.
abbrev full : Screen
full = record {
  memory = λ x.
      if x == 1000
      then 97
      else (if x == 1001 then 27 else (if x == 1002 then 7 else (if x == 1003 then 98 else 0)));
  xpos = 79;
  ypos = 24;
  attribute = 3840;
  cursor_high = 0;
  cursor_low = 0;
}

full-IsValid : IsValid full
full-IsValid = record { xpos_below = omega arith; ypos_below = omega arith }

vga_print_char_run : (vga_print_char full 97).ypos ≡ 24
unfolding vga_print_char
vga_print_char_run = refl

-- An escape in the last byte takes the byte behind the text: the result is `len + 1`.
vga_write_run : (vga_write full 1001 1).1 ≡ 2
unfolding vga_write
vga_write_run = refl

vga_print_char-print_example :
    ((i : ℕ)
      → i < 2000
      → cell (vga_print_char full 97).memory i ≡ (print (terminal full) 3840 97).cells i)
    × ((vga_print_char full 97).xpos ≡ (print (terminal full) 3840 97).column)
    × ((vga_print_char full 97).ypos ≡ (print (terminal full) 3840 97).row)
    × ((vga_print_char full 97).attribute ≡ 3840)
    × IsValid (vga_print_char full 97)
vga_print_char-print_example = vga_print_char-print full 97 full-IsValid

vga_write-inside_example :
    IsValid (vga_write full 1000 4).0
    × ((vga_write full 1000 4).1 ≤ 4 + 1)
    × ((x : ℕ) → Outside x → (vga_write full 1000 4).0.memory x ≡ full.memory x)
vga_write-inside_example = vga_write-inside full 1000 4 full-IsValid

buffer-Outside : BufferOutside 500 11
buffer-Outside = λ i h. inl (omega arith)
