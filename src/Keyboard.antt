-- ===== src/Keyboard.antt =====
-- The keyboard driver, kernel/keyboard.c: the keymap, the interrupt handler and the ring buffer that
-- it fills. The scan code is what `inb(KBD_DATA)` returns, a byte.
mod Ring
pub mod Queue
mod Tests
use toutatis.Common.{
  ℕ, zero, suc, ◌+◌, ◌/◌, ◌%◌, Bool, true, false, not, ◌&&◌, ◌||◌, Option, none, some, List, [],
  ◌∷◌, ◌==◌, if◌then◌else◌, get_or,
}
use toutatis.Common.Store.{update}

pub record Keyboard : Type 0 where
  pub last_char : ℕ
  pub shift_pressed : ℕ
  pub kbd_buffer : ℕ → ℕ
  pub read_idx : ℕ
  pub write_idx : ℕ

abbrev pub kbd_buf_size : ℕ
kbd_buf_size = 32

abbrev plain_row : List ℕ
plain_row =
    0 ∷ 27 ∷ 49 ∷ 50 ∷ 51 ∷ 52 ∷ 53 ∷ 54 ∷ 55 ∷ 56 ∷ 57 ∷ 48 ∷ 45 ∷ 61 ∷ 8 ∷ 9 ∷ 113 ∷ 119 ∷ 101
    ∷ 114 ∷ 116 ∷ 121 ∷ 117 ∷ 105 ∷ 111 ∷ 112 ∷ 91 ∷ 93 ∷ 10 ∷ 0 ∷ 97 ∷ 115 ∷ 100 ∷ 102 ∷ 103 ∷ 104
    ∷ 106 ∷ 107 ∷ 108 ∷ 59 ∷ 39 ∷ 96 ∷ 0 ∷ 92 ∷ 122 ∷ 120 ∷ 99 ∷ 118 ∷ 98 ∷ 110 ∷ 109 ∷ 44 ∷ 46 ∷ 47
    ∷ 0 ∷ 0 ∷ 0 ∷ 32 ∷ []

abbrev shift_row : List ℕ
shift_row =
    0 ∷ 27 ∷ 33 ∷ 64 ∷ 35 ∷ 36 ∷ 37 ∷ 94 ∷ 38 ∷ 42 ∷ 40 ∷ 41 ∷ 95 ∷ 43 ∷ 8 ∷ 9 ∷ 81 ∷ 87 ∷ 69 ∷ 82
    ∷ 84 ∷ 89 ∷ 85 ∷ 73 ∷ 79 ∷ 80 ∷ 123 ∷ 125 ∷ 10 ∷ 0 ∷ 65 ∷ 83 ∷ 68 ∷ 70 ∷ 71 ∷ 72 ∷ 74 ∷ 75 ∷ 76
    ∷ 58 ∷ 34 ∷ 126 ∷ 0 ∷ 92 ∷ 90 ∷ 88 ∷ 67 ∷ 86 ∷ 66 ∷ 78 ∷ 77 ∷ 60 ∷ 62 ∷ 63 ∷ 0 ∷ 0 ∷ 0 ∷ 32 ∷ []

-- A row has 128 entries; those that are not listed are 0.
pub keymap_us : ℕ → ℕ → ℕ
keymap_us zero scancode = get_or plain_row scancode 0
keymap_us (suc n) scancode = get_or shift_row scancode 0

-- LSHIFT and RSHIFT.
abbrev pub is_shift : ℕ → Bool
is_shift scancode = scancode == 42 || scancode == 54

-- The ring is full when one place is left: else it would look empty.
abbrev pub store_char : Keyboard → Keyboard
store_char k =
    if not ((k.write_idx + 1) % kbd_buf_size == k.read_idx)
    then record k {
      kbd_buffer = update k.kbd_buffer k.write_idx k.last_char;
      write_idx = (k.write_idx + 1) % kbd_buf_size;
    }
    else k

-- The state behind the interrupt, and the character sent to `vga_print_char`.
pub keyboard_handler : Keyboard → ℕ → Keyboard × Option ℕ
unfolding keymap_us
keyboard_handler k scancode =
    if scancode / 128 % 2 == 1
    then (if is_shift (scancode % 128) then (record k { shift_pressed = 0 }, none) else (k, none))
    else (if is_shift scancode
        then (record k { shift_pressed = 1 }, none)
        else (let c = keymap_us k.shift_pressed scancode in
            (store_char (record k { last_char = c }), some c)))

-- While the buffer is empty the loop waits for the interrupts that arrive, here with their scan codes
-- in order. `none` means that it still waits behind the last of them. The rest of the interrupts is
-- returned with the character and the state.
pub keyboard_getchar : List ℕ → Keyboard → Option (ℕ × Keyboard × List ℕ)
unfolding keyboard_handler
keyboard_getchar [] k =
    if k.read_idx == k.write_idx
    then none
    else some (k.kbd_buffer k.read_idx, record k { read_idx = (k.read_idx + 1) % kbd_buf_size }, [])
keyboard_getchar (scancode ∷ later) k =
    let waited = keyboard_getchar later (keyboard_handler k scancode).0 in
    if k.read_idx == k.write_idx
    then waited
    else some (
      k.kbd_buffer k.read_idx,
      record k { read_idx = (k.read_idx + 1) % kbd_buf_size },
      scancode ∷ later,
    )

-- The character is forgotten once it is read.
pub keyboard_lastchar : Keyboard → ℕ × Keyboard
keyboard_lastchar k = (k.last_char, record k { last_char = 0 })
