-- ===== src/Vga/Print.antt =====
-- `vga_print_char` of kernel/vga.c against a terminal of 25 rows of 80 cells.
use Prim.Native.Nat.{bit_or}
use toutatis.Common.{
  ℕ, ◌+◌, ◌-◌, ◌*◌, ◌/◌, ◌<◌, ◌≡◌, inl, inr, refl, sym, ◌∙◌, ap, arith, false, Bool-cases, ◌==◌,
  ltb, leb, if◌then◌else◌, fun_ext,
}
use toutatis.Common.Store.{update, update_self, update_ne}
use native.Mathlib.Decide.{ℕ_discrete}
use toutatis.Vga.{
  rows, Screen, write_cell, blank, vga_scroll, is_printable, put_char, wrap_line, vga_print_char,
  set_cursor_pos,
}
use toutatis.Vga.Cells.{
  cell, value_bytes, Outside, cell-write_self, cell-write_ne, write_cell-Outside, scrolled,
  vga_scroll-memory, vga_scroll-ypos, scrolled-Outside, cell-scrolled, cell-scrolled_last,
}

-- The position lies on the screen.
pub record IsValid (s : Screen) : Type 0 where
  pub xpos_below : s.xpos < 80
  pub ypos_below : s.ypos < 25

-- The column and the row behind the character, on a screen with no last line.
pub advance : ℕ → ℕ → ℕ → ℕ × ℕ
advance x y c =
    if c == 8
    then (if x == 0 then (if y == 0 then (0, 0) else (79, y - 1)) else (x - 1, y))
    else (if c == 9
        then (if leb 72 x then (0, y + 1) else ((x / 8 + 1) * 8, y))
        else (if c == 13
            then (0, y)
            else (if c == 10
                then (0, y + 1)
                else (if is_printable c
                    then (if x == 79 then (0, y + 1) else (x + 1, y))
                    else (x, y)))))

abbrev position : Screen → ℕ × ℕ
position s = (s.xpos, s.ypos)

wrapped_position :
    (s : Screen) (c : ℕ) → IsValid s → position (wrap_line (put_char s c)) ≡ advance s.xpos s.ypos c
unfolding put_char advance
wrapped_position s c ok = let x = ok.xpos_below in let y = ok.ypos_below in ground arith

wrapped_attribute : (s : Screen) (c : ℕ) → (wrap_line (put_char s c)).attribute ≡ s.attribute
unfolding put_char
wrapped_attribute s c = ground arith

-- What `put_char` does to the cells: a printable character is stored at the position.
printed_memory :
    (s : Screen) (c : ℕ)
    → (wrap_line (put_char s c)).memory ≡ (
        if is_printable c
        then write_cell s.memory (s.ypos * 80 + s.xpos) (bit_or c s.attribute)
        else s.memory)
unfolding put_char
printed_memory s c = ground arith

advance-bounds : (x y c : ℕ) → x < 80 → y < 25 → ((advance x y c).0 < 80) × ((advance x y c).1 < 26)
unfolding advance
advance-bounds x y c hx hy = (ground arith, ground arith)

-- A terminal: what stands in its 2000 cells, row by row, and the position.
pub record Terminal : Type 0 where
  pub cells : ℕ → ℕ × ℕ
  pub column : ℕ
  pub row : ℕ

-- The cells with the character at the position, if it is printable.
abbrev stored : Terminal → ℕ → ℕ → ℕ → ℕ × ℕ
stored t attribute c =
    if is_printable c
    then update t.cells (t.row * 80 + t.column) (value_bytes (bit_or c attribute))
    else t.cells

-- A terminal moves its rows up by one when the position leaves the last row, which is then blank.
pub print : Terminal → ℕ → ℕ → Terminal
unfolding advance
print t attribute c =
    let next = advance t.column t.row c in
    if next.1 == 25
    then record {
      cells = λ i.
          if ltb i 1920 then stored t attribute c (i + 80) else value_bytes (bit_or 32 attribute);
      column = next.0;
      row = 24;
    }
    else record { cells = stored t attribute c; column = next.0; row = next.1 }

abbrev pub terminal : Screen → Terminal
terminal s = record { cells = cell s.memory; column = s.xpos; row = s.ypos }

cell-stored :
    (s : Screen) (c i : ℕ)
    → cell (wrap_line (put_char s c)).memory i ≡ stored (terminal s) s.attribute c i
unfolding update
cell-stored s c i = ap (λ m. cell m i) (printed_memory s c) ∙ elim (Bool-cases (is_printable c)) [
  | inr n ↦ rw n refl
  | inl p ↦ rw p (elim (ℕ_discrete i (s.ypos * 80 + s.xpos)) [
    | yes e ↦ rw e (
        cell-write_self s.memory (s.ypos * 80 + s.xpos) (bit_or c s.attribute)
        ∙ sym (
            update_self (cell s.memory) (s.ypos * 80 + s.xpos)
              (value_bytes (bit_or c s.attribute))))
    | no ne ↦
        cell-write_ne s.memory (s.ypos * 80 + s.xpos) i (bit_or c s.attribute) ne
        ∙ sym (
            update_ne (cell s.memory) (s.ypos * 80 + s.xpos) i (value_bytes (bit_or c s.attribute))
              ne)
  ])
]

vga_scroll-below : (s : Screen) → s.ypos < 25 → vga_scroll s ≡ s
unfolding vga_scroll
vga_scroll-below s h = let b : leb rows s.ypos ≡ false = ground arith in rw b refl

vga_scroll-kept :
    (s : Screen) → ((vga_scroll s).xpos ≡ s.xpos) × ((vga_scroll s).attribute ≡ s.attribute)
unfolding vga_scroll
vga_scroll-kept s = (ground arith, ground arith)

-- The cells behind a scroll of the printed screen.
cell-scroll :
    (s : Screen) (c i : ℕ)
    → (wrap_line (put_char s c)).ypos ≡ 25
    → i < 2000
    → cell (vga_scroll (wrap_line (put_char s c))).memory i ≡ (
        if ltb i 1920
        then stored (terminal s) s.attribute c (i + 80)
        else value_bytes (bit_or 32 s.attribute))
cell-scroll s c i bottom b =
    let p = wrap_line (put_char s c) in
    let moved : (vga_scroll p).memory ≡ scrolled p.memory (blank p) =
      fun_ext (λ x. vga_scroll-memory p x bottom) in
    ap (λ m. cell m i) moved ∙ elim (Bool-cases (ltb i 1920)) [
      | inl l ↦ rw l (cell-scrolled p.memory (blank p) i (ground arith) ∙ cell-stored s c (i + 80))
      | inr g ↦ rw g (
          cell-scrolled_last p.memory (blank p) i (ground arith) b
          ∙ ap (λ a. value_bytes (bit_or 32 a)) (wrapped_attribute s c))
    ]

-- `vga_print_char` does to the cells and to the position what the terminal does, and keeps the
-- attribute and a position on the screen.
pub vga_print_char-print :
    (s : Screen) (c : ℕ)
    → IsValid s
    → ((i : ℕ)
        → i < 2000
        → cell (vga_print_char s c).memory i ≡ (print (terminal s) s.attribute c).cells i)
      × ((vga_print_char s c).xpos ≡ (print (terminal s) s.attribute c).column)
      × ((vga_print_char s c).ypos ≡ (print (terminal s) s.attribute c).row)
      × ((vga_print_char s c).attribute ≡ s.attribute)
      × IsValid (vga_print_char s c)
unfolding vga_print_char set_cursor_pos print
vga_print_char-print s c ok =
    let p = wrap_line (put_char s c) in
    let place = wrapped_position s c ok in
    let column : p.xpos ≡ (advance s.xpos s.ypos c).0 = ap (λ q. q.0) place in
    let row : p.ypos ≡ (advance s.xpos s.ypos c).1 = ap (λ q. q.1) place in
    let (kept, attribute) = vga_scroll-kept p in
    let (narrow, low) = advance-bounds s.xpos s.ypos c ok.xpos_below ok.ypos_below in
    let same = attribute ∙ wrapped_attribute s c in
    elim (Bool-cases ((advance s.xpos s.ypos c).1 == 25)) [
      | inl out ↦
          let bottom : p.ypos ≡ 25 = ground arith in
          let up = vga_scroll-ypos p bottom in
          rw out (
            λ i b. cell-scroll s c i bottom b,
            kept ∙ column,
            up,
            same,
            record { xpos_below = omega arith; ypos_below = omega arith },
          )
      | inr on ↦
          let above : p.ypos < 25 = ground arith in
          let still = vga_scroll-below p above in
          rw (on, still)
            (
              λ i b. cell-stored s c i,
              column,
              row,
              wrapped_attribute s c,
              record { xpos_below = omega arith; ypos_below = omega arith },
            )
    ]

printed-Outside :
    (s : Screen) (c x : ℕ)
    → IsValid s
    → Outside x
    → (wrap_line (put_char s c)).memory x ≡ s.memory x
printed-Outside s c x ok o =
    ap (λ m. m x) (printed_memory s c) ∙ elim (Bool-cases (is_printable c)) [
      | inr n ↦ rw n refl
      | inl p ↦
          let px = ok.xpos_below in
          let py = ok.ypos_below in
          rw p (
            write_cell-Outside s.memory (s.ypos * 80 + s.xpos) (bit_or c s.attribute) x
              (omega arith) o)
    ]

-- `vga_print_char` writes to no byte outside the video memory.
pub vga_print_char-Outside :
    (s : Screen) (c x : ℕ) → IsValid s → Outside x → (vga_print_char s c).memory x ≡ s.memory x
unfolding vga_print_char set_cursor_pos
vga_print_char-Outside s c x ok o =
    let p = wrap_line (put_char s c) in
    let row : p.ypos ≡ (advance s.xpos s.ypos c).1 = ap (λ q. q.1) (wrapped_position s c ok) in
    let (narrow, low) = advance-bounds s.xpos s.ypos c ok.xpos_below ok.ypos_below in
    let before = printed-Outside s c x ok o in
    elim (ℕ_discrete p.ypos 25) [
      | yes bottom ↦ vga_scroll-memory p x bottom ∙ scrolled-Outside p.memory (blank p) x o ∙ before
      | no above ↦ let still = vga_scroll-below p (omega arith) in rw still before
    ]
