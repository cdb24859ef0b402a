-- ===== src/Serial.antt =====
-- kernel/serial.c: the bytes that go out at the serial port. A colour after an escape becomes a sequence
-- for a terminal, the text that sprintf makes of a format with one `%s`. The line is always ready in the end.
pub mod Sent
pub mod Setup
mod Tests
use toutatis.Common.{
  ℕ, zero, suc, ◌+◌, ◌-◌, ◌/◌, ◌%◌, Bool, true, false, not, ◌&&◌, List, [], ◌∷◌, ◌++◌, ◌==◌, ltb,
  get_or, if◌then◌else◌,
}
use toutatis.CString.{Memory}

-- The two digits before the second `;` of the formats.
abbrev pub fg_codes : List ℕ
fg_codes = 30 ∷ 34 ∷ 32 ∷ 36 ∷ 31 ∷ 35 ∷ 33 ∷ 37 ∷ 90 ∷ 94 ∷ 92 ∷ 96 ∷ 91 ∷ 95 ∷ 33 ∷ 37 ∷ []

abbrev pub bg_codes : List ℕ
bg_codes = 40 ∷ 44 ∷ 42 ∷ 46 ∷ 41 ∷ 45 ∷ 43 ∷ 47 ∷ 100 ∷ 104 ∷ 102 ∷ 106 ∷ 101 ∷ 105 ∷ 103 ∷ 47 ∷ []

-- A number of two or three digits as text.
abbrev pub digits : ℕ → List ℕ
digits n =
    if ltb n 100
    then (n / 10 + 48) ∷ (n % 10 + 48) ∷ []
    else (n / 100 + 48) ∷ (n / 10 % 10 + 48) ∷ (n % 10 + 48) ∷ []

-- `"\033[0;"`, the foreground, `";"`
unfoldable pub term_fg : ℕ → List ℕ
term_fg i = 27 ∷ 91 ∷ 48 ∷ 59 ∷ (digits (get_or fg_codes i 0) ++ 59 ∷ [])

unfoldable pub term_bg : ℕ → List ℕ
term_bg i = digits (get_or bg_codes i 0)

-- What stands in `buf` for a colour: the sequence ends with `m`.
unfoldable pub colour_text : ℕ → List ℕ
colour_text c = term_fg (c % 16) ++ (term_bg (c / 16) ++ 109 ∷ [])

-- The loop, for the bytes left: the bytes that are sent, and the count.
unfoldable pub write_loop : ℕ → Memory → ℕ → ℕ → ℕ → List ℕ × ℕ
write_loop zero m at len i = ([], i)
write_loop (suc rounds) m at len i =
    let (sent, end) = write_loop rounds m (at + 1) len (i + 1) in
    let (more, after) = write_loop rounds m (at + 2) len (i + 2) in
    if not (m at == 0) && ltb i len
    then (if m at == 27 then (colour_text (m (at + 1)) ++ more, after) else (m at ∷ sent, end))
    else ([], i)

unfoldable pub write : Memory → ℕ → ℕ → List ℕ × ℕ
write m at len = write_loop len m at len 0

-- The reset of the terminal.
abbrev pub text_reset : List ℕ
text_reset = 27 ∷ 91 ∷ 48 ∷ 109 ∷ []

unfoldable pub serial_terminate : List ℕ → List ℕ
serial_terminate line = line ++ text_reset
