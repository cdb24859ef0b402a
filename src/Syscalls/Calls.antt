-- ===== src/Syscalls/Calls.antt =====
-- What system calls of kernel/syscall.h do to the kernel and the registers.
use toutatis.Common.{ℕ, ◌<◌, ◌^◌, ◌≡◌, refl, ap, arith, false, some, leb}
use toutatis.Threads.{Raised}
use toutatis.Vga.{Screen}
use toutatis.Vga.Print.{IsValid}
use toutatis.Vga.Number.{BufferOutside, Printed, print_value-digits}
use toutatis.Syscalls.{
  Registers, Kernel, Ended, returns, num_syscalls, with_screen, syscalls, syscall_handler, trap1,
  syscall_vga_print_dec, syscall_vga_print_hex,
}

-- The call returns with this screen and the threads as they were; of the registers only `eax` is
-- changed.
abbrev pub served : Registers → Kernel → ℕ → Screen → Registers × Ended
served regs k ret screen = (record regs { eax = ret }, returns (record k { screen = screen }))

handled :
    (fuel : ℕ) (irq : Raised) (buffer ret : ℕ) (regs : Registers) (k : Kernel) (s : Screen)
    → regs.eax < num_syscalls
    → syscalls fuel irq buffer regs.eax regs.ebx k ≡ some (returns (record k { screen = s }))
    → syscall_handler fuel irq buffer ret regs k ≡ some (served regs k ret s)
unfolding syscall_handler
handled fuel irq buffer ret regs k s low run =
    let within : leb num_syscalls regs.eax ≡ false = ground arith in
    rw (within, run, syscall_handler) refl

-- On a screen with the position on it, and for a local array outside the video memory, the system calls
-- that print a value of 32 bits return: the call for decimal numbers prints the digits in base 10, the
-- one for hexadecimal numbers those in base 16. The position stays on the screen, the threads stay, and
-- of the registers of the call only `eax` is changed.
pub syscall-Served :
    (fuel : ℕ) (irq : Raised) (buffer ret value : ℕ) (regs : Registers) (k : Kernel)
    → IsValid k.screen
    → value < 2 ^ 32
    → BufferOutside buffer 11
    → ((s : Screen) × Printed k.screen buffer value 10 s
        × (syscall_vga_print_dec fuel irq buffer ret regs k value
            ≡ some (served (trap1 2 value regs) k ret s)))
      × ((s : Screen) × Printed k.screen buffer value 16 s
          × (syscall_vga_print_hex fuel irq buffer ret regs k value
              ≡ some (served (trap1 3 value regs) k ret s)))
unfolding syscall_vga_print_dec syscall_vga_print_hex syscalls
syscall-Served fuel irq buffer ret value regs k ok small away =
    let ((s, dec, s_printed), (t, hex, t_printed)) =
      print_value-digits k.screen buffer value ok small away in
    (
      (
        s,
        s_printed,
        handled fuel irq buffer ret (trap1 2 value regs) k s (omega arith) (ap (with_screen k) dec),
      ),
      (
        t,
        t_printed,
        handled fuel irq buffer ret (trap1 3 value regs) k t (omega arith) (ap (with_screen k) hex),
      ),
    )
