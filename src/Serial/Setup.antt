-- ===== src/Serial/Setup.antt =====
-- `serial_init` of kernel/serial.c as the bytes that it writes to the ports. The base of the ports is a
-- word of 16 bits in the memory of the BIOS, and the line is ready in the end.
use toutatis.Common.{ℕ, ◌+◌, ◌*◌, ◌/◌, ◌%◌, List, [], ◌∷◌, ◌++◌, map}
use toutatis.CString.{Memory}

abbrev pub serial_data : ℕ → ℕ
serial_data base = base

abbrev pub serial_dll : ℕ → ℕ
serial_dll base = base

abbrev pub serial_dlh : ℕ → ℕ
serial_dlh base = base + 1

abbrev pub serial_int_enable : ℕ → ℕ
serial_int_enable base = base + 1

abbrev pub serial_fifo_ctrl : ℕ → ℕ
serial_fifo_ctrl base = base + 2

abbrev pub serial_line_ctrl : ℕ → ℕ
serial_line_ctrl base = base + 3

abbrev pub serial_modem_ctrl : ℕ → ℕ
serial_modem_ctrl base = base + 4

unfoldable pub write_char : ℕ → ℕ → ℕ × ℕ
write_char base c = (serial_data base, c)

-- The greeting in the colours of a terminal.
abbrev pub init_message : List ℕ
init_message =
    10 ∷ 27 ∷ b'[' ∷ b'4' ∷ b';' ∷ b'3' ∷ b'5' ∷ b';' ∷ b'4' ∷ b'0' ∷ b'm' ∷ b'S' ∷ b'e' ∷ b'r'
    ∷ b'i' ∷ b'a' ∷ b'l' ∷ b' ' ∷ b'o' ∷ b'u' ∷ b't' ∷ b'p' ∷ b'u' ∷ b't' ∷ b' ' ∷ b'f' ∷ b'r'
    ∷ b'o' ∷ b'm' ∷ b' ' ∷ b'k' ∷ b'e' ∷ b'r' ∷ b'n' ∷ b'e' ∷ b'l' ∷ 27 ∷ b'[' ∷ b'0' ∷ b';' ∷ b'3'
    ∷ b'7' ∷ b';' ∷ b'4' ∷ b'0' ∷ b'm' ∷ 10 ∷ []

-- 115200 / 3 bits a second.
abbrev pub divisor : ℕ
divisor = 3

-- The base, and what is written, the first byte first.
unfoldable pub serial_init : Memory → ℕ → ℕ × List (ℕ × ℕ)
serial_init m voffset =
    let base = m (1024 + voffset) + 256 * m (1025 + voffset) in
    (
      base,
      ((serial_int_enable base, 0)
            ∷ (serial_line_ctrl base, 128)
            ∷ (serial_dll base, divisor % 256)
            ∷ (serial_dlh base, divisor / 256 % 256)
            ∷ (serial_line_ctrl base, 3)
            ∷ (serial_fifo_ctrl base, 199)
            ∷ (serial_modem_ctrl base, 11)
            ∷ [])
          ++ map (write_char base) init_message,
    )
