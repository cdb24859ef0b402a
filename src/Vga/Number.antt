-- ===== src/Vga/Number.antt =====
-- `vga_print_dec` and `vga_print_hex` of kernel/vga.c over `itoa`. The local array of 12 bytes stands at
-- the address `buffer`.
use toutatis.Common.{
  ℕ, zero, suc, ◌+◌, ◌%◌, ◌≤◌, ◌<◌, ◌^◌, ◌≡◌, ◌≢◌, ◌⊎◌, refl, ◌∙◌, arith, false, Option, none, some,
  ◌==◌, if◌then◌else◌,
}
use toutatis.CString.{Memory}
use toutatis.Utils.{digit_char, itoa}
use toutatis.Utils.Digits.{shifted, Spells, Spells-short}
use toutatis.Utils.Itoa.{itoa-Spells}
use toutatis.Vga.{Screen, vga_print_char}
use toutatis.Vga.Cells.{Outside}
use toutatis.Vga.Print.{IsValid, vga_print_char-print, vga_print_char-Outside}

-- `while (buffer[i]) vga_print_char(buffer[i++]);` on fuel.
pub print_buffer : ℕ → Screen → ℕ → ℕ → Option Screen
print_buffer zero s buffer i = none
print_buffer (suc fuel) s buffer i =
    let rest = print_buffer fuel (vga_print_char s (s.memory (buffer + i))) buffer (i + 1) in
    if s.memory (buffer + i) == 0 then some s else rest

-- The printing of a value in a base; 33 digits are more than 32 bits have in any base.
pub print_value : Screen → ℕ → ℕ → ℕ → Option Screen
print_value s buffer value base = elim (itoa 33 s.memory value buffer base) [
  | none ↦ none
  | some m ↦ print_buffer 34 (record s { memory = m }) buffer 0
]

pub vga_print_dec : Screen → ℕ → ℕ → Option Screen
unfolding print_value
vga_print_dec s buffer value = print_value s buffer value 10

pub vga_print_hex : Screen → ℕ → ℕ → Option Screen
unfolding print_value
vga_print_hex s buffer value = print_value s buffer value 16

-- The buffer of `k + 1` bytes does not meet the video memory.
abbrev pub BufferOutside : ℕ → ℕ → Type 0
BufferOutside buffer k = (i : ℕ) → i ≤ k → Outside (buffer + i)

-- The last `k` digits of `v` in base `b` printed one by one, the first of them first.
pub print_digits : Screen → ℕ → ℕ → ℕ → Screen
print_digits s v b zero = s
print_digits s v b (suc j) = print_digits (vga_print_char s (digit_char (shifted v b j % b))) v b j

-- Printing a character leaves a text outside the video memory alone.
Spells-vga_print_char :
    (s : Screen) (c buffer v b k : ℕ)
    → IsValid s
    → BufferOutside buffer k
    → Spells s.memory buffer v b k
    → Spells (vga_print_char s c).memory buffer v b k
Spells-vga_print_char s c buffer v b k ok away spells = record {
  digit = λ i j e.
      vga_print_char-Outside s c (buffer + i) ok (away i (omega arith)) ∙ spells.digit i j e;
  stop = vga_print_char-Outside s c (buffer + k) ok (away k (omega arith)) ∙ spells.stop;
  whole = spells.whole;
  some_digit = spells.some_digit;
  leading = spells.leading;
}

digit_char-nonzero : (d : ℕ) → digit_char d ≢ 0
digit_char-nonzero d e = absurd (ground arith)

print_buffer-digits :
    (fuel : ℕ) (s : Screen) (buffer v b k i left : ℕ)
    → IsValid s
    → BufferOutside buffer k
    → Spells s.memory buffer v b k
    → i + left ≡ k
    → left < fuel
    → (print_buffer fuel s buffer i ≡ some (print_digits s v b left))
      × IsValid (print_digits s v b left)
unfolding print_buffer print_digits
print_buffer-digits zero s buffer v b k i left ok away spells e h = absurd (omega arith)
print_buffer-digits (suc fuel) s buffer v b k i zero ok away spells e h =
    let e' : i ≡ k = omega arith in (rw (e', spells.stop) refl, ok)
print_buffer-digits (suc fuel) s buffer v b k i (suc left) ok away spells e h =
    let c = digit_char (shifted v b left % b) in
    let here : s.memory (buffer + i) ≡ c = spells.digit i left e in
    let ne = digit_char-nonzero (shifted v b left % b) in
    let more : (c == 0) ≡ false = ground arith in
    let (cells, column, row, same, ok') = vga_print_char-print s c ok in
    let (run, valid) =
      print_buffer-digits fuel (vga_print_char s c) buffer v b k (i + 1) left ok' away
        (Spells-vga_print_char s c buffer v b k ok away spells) (omega arith) (omega arith) in
    (rw (here, more) run, valid)

-- The screen after a number: the array has the text of the value, nothing else in memory is changed
-- before the digits of the text go to the screen one by one, and the position stays on the screen.
pub record Printed (s : Screen) (buffer value base : ℕ) (out : Screen) : Type 0 where
  pub digits : ℕ
  pub memory : Memory
  pub spells : Spells memory buffer value base digits
  pub others : (x : ℕ) → (x < buffer) ⊎ (buffer + digits < x) → memory x ≡ s.memory x
  pub screen : out ≡ print_digits (record s { memory = memory }) value base digits
  pub valid : IsValid out

print_value-Printed :
    (s : Screen) (buffer value base : ℕ)
    → IsValid s
    → value < 2 ^ 32
    → BufferOutside buffer 11
    → shifted value base 11 ≡ 0
    → 2 ≤ base
    → base ≤ 36
    → (out : Screen) × (print_value s buffer value base ≡ some out)
      × Printed s buffer value base out
unfolding print_value
print_value-Printed s buffer value base ok small away short low high =
    let (k, m, eq, fits, spells, others) =
      itoa-Spells 32 s.memory value buffer base low high small in
    let in_array = Spells-short m buffer value base k 11 spells (omega arith) short in
    let (run, valid) =
      print_buffer-digits 34 (record s { memory = m }) buffer value base k 0 k
        (record { xpos_below = ok.xpos_below; ypos_below = ok.ypos_below })
        (λ i h. away i (omega arith)) spells (omega arith) (omega arith) in
    (
      print_digits (record s { memory = m }) value base k,
      rw (print_value, eq) run,
      record {
        digits = k;
        memory = m;
        spells = spells;
        others = others;
        screen = refl;
        valid = valid;
      },
    )

-- `vga_print_dec` and `vga_print_hex` end for every value of 32 bits, and print its digits in base 10
-- and 16, if the array of 12 bytes does not meet the video memory.
pub print_value-digits :
    (s : Screen) (buffer value : ℕ)
    → IsValid s
    → value < 2 ^ 32
    → BufferOutside buffer 11
    → ((out : Screen) × (vga_print_dec s buffer value ≡ some out) × Printed s buffer value 10 out)
      × ((out : Screen) × (vga_print_hex s buffer value ≡ some out) × Printed s buffer value 16 out)
unfolding vga_print_dec vga_print_hex shifted
print_value-digits s buffer value ok small away = (
  print_value-Printed s buffer value 10 ok small away (omega arith) (omega arith) (omega arith),
  print_value-Printed s buffer value 16 ok small away (omega arith) (omega arith) (omega arith),
)
