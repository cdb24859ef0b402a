-- ===== src/Vga/Write.antt =====
-- `vga_write` of kernel/vga.c: a whole text, and the cursor of the display.
use Prim.Native.Nat.{bit_or}
use toutatis.Common.{
  ℕ, zero, suc, ◌+◌, ◌*◌, ◌/◌, ◌%◌, ◌^◌, ◌≤◌, ◌≡◌, inl, inr, refl, ◌∙◌, ap₂, arith, Bool-cases,
  ◌==◌,
}
use toutatis.Common.Joined.{bit_or-high}
use toutatis.Vga.{
  Screen, vga_print_char, set_cursor_pos, get_cursor_pos, vga_set_attribute, escape_attribute,
  write_from, vga_write, put_char, wrap_line, vga_scroll,
}
use toutatis.Vga.Cells.{Outside}
use toutatis.Vga.Print.{IsValid, vga_print_char-print, vga_print_char-Outside}

-- What holds of the screen and the length behind the loop.
abbrev Written : Screen → ℕ → Screen × ℕ → Type 0
Written s bound (s', i) =
    IsValid s' × (i ≤ bound) × ((x : ℕ) → Outside x → s'.memory x ≡ s.memory x)

attribute-IsValid : (s : Screen) (a : ℕ) → IsValid s → IsValid (vga_set_attribute s a)
attribute-IsValid s a ok = record { xpos_below = ok.xpos_below; ypos_below = ok.ypos_below }

write_from-Written :
    (s : Screen) (text i left : ℕ) → IsValid s → Written s (i + left + 1) (write_from s text i left)
unfolding write_from
write_from-Written s text i zero ok = (ok, omega arith, λ x o. refl)
write_from-Written s text i (suc zero) ok = elim (Bool-cases (s.memory (text + i) == 0)) [
  | inl e ↦ rw e (ok, omega arith, λ x o. refl)
  | inr n ↦ elim (Bool-cases (s.memory (text + i) == 27)) [
    | inl esc ↦
        rw (n, esc)
          (
            attribute-IsValid s (escape_attribute s (s.memory (text + i + 1))) ok,
            omega arith,
            λ x o. refl,
          )
    | inr plain ↦
        let (cells, column, row, same, valid) = vga_print_char-print s (s.memory (text + i)) ok in
        rw (n, plain)
          (valid, omega arith, λ x o. vga_print_char-Outside s (s.memory (text + i)) x ok o)
  ]
]
write_from-Written s text i (suc (suc left)) ok = elim (Bool-cases (s.memory (text + i) == 0)) [
  | inl e ↦ rw e (ok, omega arith, λ x o. refl)
  | inr n ↦ elim (Bool-cases (s.memory (text + i) == 27)) [
    | inl esc ↦
        let s1 = vga_set_attribute s (escape_attribute s (s.memory (text + i + 1))) in
        let (valid, below, outside) =
          write_from-Written s1 text (i + 2) left
            (attribute-IsValid s (escape_attribute s (s.memory (text + i + 1))) ok) in
        rw (n, esc) (valid, omega arith, outside)
    | inr plain ↦
        let s1 = vga_print_char s (s.memory (text + i)) in
        let (cells, column, row, same, ok1) = vga_print_char-print s (s.memory (text + i)) ok in
        let (valid, below, outside) = write_from-Written s1 text (i + 1) (suc left) ok1 in
        rw (n, plain)
          (
            valid,
            omega arith,
            λ x o. outside x o ∙ vga_print_char-Outside s (s.memory (text + i)) x ok o,
          )
  ]
]

-- Whatever the text, `vga_write` leaves the position on the screen, changes no byte outside the video
-- memory and returns at most `len + 1`.
pub vga_write-inside :
    (s : Screen) (text len : ℕ)
    → IsValid s
    → IsValid (vga_write s text len).0
      × ((vga_write s text len).1 ≤ len + 1)
      × ((x : ℕ) → Outside x → (vga_write s text len).0.memory x ≡ s.memory x)
unfolding vga_write
vga_write-inside s text len ok =
    let (valid, below, outside) = write_from-Written s text 0 len ok in
    (valid, omega arith, outside)

cursor_back :
    (s : Screen) → IsValid s → get_cursor_pos (set_cursor_pos s s.xpos s.ypos) ≡ (s.xpos, s.ypos)
unfolding get_cursor_pos set_cursor_pos
cursor_back s ok =
    let x = ok.xpos_below in
    let y = ok.ypos_below in
    let pos = s.ypos * 80 + s.xpos in
    let small : pos % 2 ^ 16 ≡ pos = omega arith in
    let high : pos / 256 % 256 * 256 % 2 ^ 16 ≡ pos / 256 * 256 = omega arith in
    let back : bit_or (pos / 256 * 256) (pos % 256) ≡ pos =
      bit_or-high (pos / 256) (pos % 256) (omega arith) ∙ omega arith in
    rw (small, high, back) (ap₂ (λ a b. (a, b)) (omega arith) (omega arith))

-- The display's cursor is where the next character goes: behind every `vga_print_char` the driver reads
-- the position back from it.
pub get_cursor_pos-vga_print_char :
    (s : Screen) (c : ℕ)
    → IsValid s
    → get_cursor_pos (vga_print_char s c) ≡ ((vga_print_char s c).xpos, (vga_print_char s c).ypos)
unfolding vga_print_char get_cursor_pos
get_cursor_pos-vga_print_char s c ok =
    let (cells, column, row, same, valid) = vga_print_char-print s c ok in
    cursor_back (vga_scroll (wrap_line (put_char s c)))
      (record { xpos_below = valid.xpos_below; ypos_below = valid.ypos_below })
