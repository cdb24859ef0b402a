-- ===== src/Boot/Log.antt =====
-- The log of kernel/logging.c: a text goes to the serial port, and from a level on to the screen. The
-- addresses `buf` and `tmp` are those of the local arrays here and in `vsprintf`. The length is taken
-- once, since the serial port changes no memory.
use toutatis.Common.{
  ℕ, ◌≡◌, ◌≢◌, ◌⊎◌, Bool, true, false, List, ◌++◌, Option, none, some, ltb, if◌then◌else◌,
}
use toutatis.CString.{strlen}
use toutatis.Serial.{write}
use toutatis.Serial.Sent.{bytes_at}
use toutatis.Format.Vsprintf.{vsprintf}
use toutatis.Vga.{Screen, vga_write}
use toutatis.Vga.Print.{IsValid}

-- `log_level_t`
pub data LogLevel : Type 0 where
  debug info notice warning error critical : LogLevel

-- `level >= INFO`
abbrev pub is_shown : LogLevel → Bool
is_shown debug = false
is_shown other = true

-- What has gone out at the serial port, and the screen with the memory.
pub record Devices : Type 0 where
  pub line : List ℕ
  pub screen : Screen

-- `char buf[1024]`
abbrev pub buf_size : ℕ
buf_size = 1024

-- `n` bytes are written to the array. Where they are more than it has, the code writes over the stack
-- behind it; what it does then is not modelled, and the result is `none`, as without fuel.
unfoldable pub kprintf : ℕ → Devices → LogLevel → ℕ → (ℕ → ℕ) → ℕ → ℕ → Option (Devices × ℕ)
kprintf fuel d level fmt args buf tmp = elim (vsprintf fuel d.screen.memory buf fmt args tmp) [
  | none ↦ none
  | some (m, n) ↦
      let s = record d.screen { memory = m } in
      if ltb buf_size n then none else elim (strlen fuel m buf) [
        | none ↦ none
        | some len ↦ some (
          record {
            line = d.line ++ (write m buf len).0;
            screen = if is_shown level then (vga_write s buf len).0 else s;
          },
          n,
        )
      ]
]

-- What comes out of the devices for the text of `n` bytes at `fmt`; a text for debugging leaves the
-- position on the screen alone.
pub record Logged (d out : Devices) (level : LogLevel) (fmt n : ℕ) : Type 0 where
  pub sent : out.line ≡ d.line ++ bytes_at d.screen.memory fmt n
  pub valid : IsValid out.screen
  pub position :
      (level ≢ debug) ⊎ ((out.screen.xpos ≡ d.screen.xpos) × (out.screen.ypos ≡ d.screen.ypos))
