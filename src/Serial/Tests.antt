-- ===== src/Serial/Tests.antt =====
-- The text "Hi", and one that ends with an escape.
use toutatis.Common.{suc, ◌≡◌, refl, get_elem?, some, ◌==◌, if◌then◌else◌}
use toutatis.CString.{Memory}
use toutatis.Serial.{write_loop, write}
use toutatis.Serial.Setup.{serial_init}

abbrev text : Memory
text = λ a. if a == 100 then 72 else (if a == 101 then 105 else (if a == 102 then 27 else 4))

-- The escape is the last of 3 bytes: the byte behind it is read too.
text_run : (write text 100 3).1 ≡ suc 3
unfolding write write_loop
text_run = refl

-- The base of the ports is 0x3f8, and the third byte is that of the divisor.
abbrev bios : Memory
bios x = if x == 1024 then 248 else (if x == 1025 then 3 else 0)

serial_init_run : get_elem? (serial_init bios 0).1 2 ≡ some (1016, 3)
unfolding serial_init
serial_init_run = refl
