-- ===== src/Vga.antt =====
-- The text screen, kernel/vga.c: 25 rows of 80 cells of two bytes in video memory, the character below
-- the attribute, and the position where the next character goes. An address space is a
-- `CString.Memory`, as for kernel/string.c.
mod Cells
pub mod Print
pub mod Write
pub mod Number
mod Tests
use Prim.Native.Nat.{bit_or}
use toutatis.Common.{
  ℕ, zero, suc, ◌+◌, ◌-◌, ◌*◌, ◌/◌, ◌%◌, ◌^◌, Bool, true, false, not, ◌&&◌, Option, none, some,
  ◌==◌, ltb, leb, if◌then◌else◌,
}
use toutatis.Common.Store.{update}
use toutatis.CString.{Memory, memcpy, memsetw}

abbrev pub cols : ℕ
cols = 80

abbrev pub rows : ℕ
rows = 25

abbrev pub video_mem : ℕ
video_mem = 3221979136

-- `cursor_high` and `cursor_low` are the bytes in registers 14 and 15 of the display controller.
pub record Screen : Type 0 where
  pub memory : Memory
  pub xpos : ℕ
  pub ypos : ℕ
  pub attribute : ℕ
  pub cursor_high : ℕ
  pub cursor_low : ℕ

-- A store of 16 bits at the cell with this number.
abbrev pub write_cell : Memory → ℕ → ℕ → Memory
write_cell m i v =
    update (update m (video_mem + 2 * i) (v % 256)) (video_mem + 2 * i + 1) (v / 256 % 256)

abbrev pub blank : Screen → ℕ
blank s = bit_or 32 s.attribute

-- The column and the row.
pub get_cursor_pos : Screen → ℕ × ℕ
get_cursor_pos s =
    let pos = bit_or (s.cursor_high * 256 % 2 ^ 16) s.cursor_low in (pos % cols, pos / cols)

pub set_cursor_pos : Screen → ℕ → ℕ → Screen
set_cursor_pos s x y =
    let pos = (y * cols + x) % 2 ^ 16 in
    record s { cursor_high = pos / 256 % 256; cursor_low = pos % 256 }

-- `i` is the number of cells that are left; the loop goes upwards from cell 0.
pub clear_cells : Memory → ℕ → ℕ → ℕ → Memory
clear_cells m v from zero = m
clear_cells m v from (suc i) = clear_cells (write_cell m from v) v (from + 1) i

pub vga_clear : Screen → Screen
unfolding clear_cells set_cursor_pos
vga_clear s =
    set_cursor_pos
      (record s { memory = clear_cells s.memory (blank s) 0 (cols * rows); xpos = 0; ypos = 0 }) 0 0

-- The position that it reads first is overwritten by `vga_clear`.
pub vga_init : Screen → Screen
unfolding get_cursor_pos vga_clear
vga_init s = let (x, y) = get_cursor_pos s in vga_clear (record s { xpos = x; ypos = y })

-- `rows - temp` is not negative while `ypos` is below 50, and `vga_print_char` calls it with 25 at most.
pub vga_scroll : Screen → Screen
vga_scroll s =
    if leb rows s.ypos
    then (let temp = s.ypos - rows + 1 in
        let moved =
          memcpy s.memory video_mem (video_mem + 2 * (temp * cols)) ((rows - temp) * cols * 2) in
        record s {
          memory = memsetw moved (video_mem + 2 * ((rows - temp) * cols)) (blank s) cols;
          ypos = rows - 1;
        })
    else s

-- The characters from space on, as signed bytes.
abbrev pub is_printable : ℕ → Bool
is_printable c = leb 32 c && ltb c 128

-- What `vga_print_char` does before it looks for the end of the line.
pub put_char : Screen → ℕ → Screen
put_char s c =
    if c == 8
    then (if ltb 0 s.xpos
        then record s { xpos = s.xpos - 1 }
        else (if ltb 0 s.ypos then record s { xpos = cols - 1; ypos = s.ypos - 1 } else s))
    else (if c == 9
        then record s { xpos = (s.xpos + 8) / 8 * 8 % 2 ^ 16 }
        else (if c == 13
            then record s { xpos = 0 }
            else (if c == 10
                then record s { xpos = 0; ypos = (s.ypos + 1) % 2 ^ 16 }
                else (if is_printable c
                    then record s {
                      memory = write_cell s.memory (s.ypos * cols + s.xpos) (bit_or c s.attribute);
                      xpos = (s.xpos + 1) % 2 ^ 16;
                    }
                    else s))))

abbrev pub wrap_line : Screen → Screen
wrap_line s = if leb cols s.xpos then record s { xpos = 0; ypos = (s.ypos + 1) % 2 ^ 16 } else s

pub vga_print_char : Screen → ℕ → Screen
unfolding put_char vga_scroll set_cursor_pos
vga_print_char s c =
    let s1 = vga_scroll (wrap_line (put_char s c)) in set_cursor_pos s1 s1.xpos s1.ypos

abbrev pub vga_set_attribute : Screen → ℕ → Screen
vga_set_attribute s attr = record s { attribute = attr }

-- `*data << 8 | (attribute & 0xf000)`
abbrev pub escape_attribute : Screen → ℕ → ℕ
escape_attribute s byte = bit_or (byte * 256) (s.attribute / 4096 % 16 * 4096) % 2 ^ 16

-- From the index `i` on, with `len - i` bytes left. An escape takes the byte behind it, also behind the
-- last byte. The second component is the returned length.
pub write_from : Screen → ℕ → ℕ → ℕ → Screen × ℕ
unfolding vga_print_char
write_from s text i zero = (s, i)
write_from s text i (suc zero) =
    if s.memory (text + i) == 0
    then (s, i)
    else (if s.memory (text + i) == 27
        then (vga_set_attribute s (escape_attribute s (s.memory (text + i + 1))), i + 2)
        else (vga_print_char s (s.memory (text + i)), i + 1))
write_from s text i (suc (suc left)) =
    let escaped =
      write_from (vga_set_attribute s (escape_attribute s (s.memory (text + i + 1)))) text (i + 2)
        left in
    let printed = write_from (vga_print_char s (s.memory (text + i))) text (i + 1) (suc left) in
    if s.memory (text + i) == 0
    then (s, i)
    else (if s.memory (text + i) == 27 then escaped else printed)

pub vga_write : Screen → ℕ → ℕ → Screen × ℕ
unfolding write_from
vga_write s text len = write_from s text 0 len

-- On fuel, one unit for each character or escape; `none` means that it ran out.
pub vga_print_str : ℕ → Screen → ℕ → Option Screen
unfolding vga_print_char
vga_print_str zero s str = none
vga_print_str (suc fuel) s str =
    let escaped =
      vga_print_str fuel (vga_set_attribute s (escape_attribute s (s.memory (str + 1))))
        (str + 2) in
    let printed = vga_print_str fuel (vga_print_char s (s.memory str)) (str + 1) in
    if s.memory str == 0 then some s else (if s.memory str == 27 then escaped else printed)

pub set_pos : Screen → ℕ → ℕ → Screen
set_pos s x y = record s { xpos = x % cols; ypos = y % rows }
