-- ===== src/Syscalls.antt =====
-- System calls: kernel/syscall.c and the callers of kernel/syscall.h. The kernel is its threads and its
-- screen. The functions of the table return nothing, so what the call leaves in `eax` is an argument,
-- and so is the address of the local array of the functions that print a number, and what the interrupt
-- of `thread_exit` finds.
pub mod Calls
pub mod Exit
mod Tests
use toutatis.Common.{ℕ, Option, none, some, ◌==◌, leb, if◌then◌else◌}
use toutatis.Threads.{Tasks, Raised, thread_exit}
use toutatis.Vga.{Screen, vga_print_str}
use toutatis.Vga.Number.{vga_print_dec, vga_print_hex}

-- `registers_t`
pub record Registers : Type 0 where
  pub gs : ℕ
  pub fs : ℕ
  pub es : ℕ
  pub ds : ℕ
  pub ebp : ℕ
  pub edi : ℕ
  pub esi : ℕ
  pub edx : ℕ
  pub ecx : ℕ
  pub ebx : ℕ
  pub eax : ℕ
  pub int_no : ℕ
  pub err_code : ℕ
  pub eip : ℕ
  pub cs : ℕ
  pub eflags : ℕ
  pub esp : ℕ
  pub ss : ℕ

pub record Kernel : Type 0 where
  pub tasks : Tasks
  pub screen : Screen

abbrev pub num_syscalls : ℕ
num_syscalls = 4

-- How a call of the table ends: it returns, or the processor goes on with another thread, at this stack
-- pointer.
pub data Ended : Type 0 where
  returns : Kernel → Ended
  leaves : ℕ → Kernel → Ended

abbrev pub with_screen : Kernel → Option Screen → Option Ended
with_screen k none = none
with_screen k (some s) = some (returns (record k { screen = s }))

-- The interrupt at `regs` returns to the call if the stack pointer is still its own.
abbrev pub with_tasks : ℕ → Kernel → Option (ℕ × Tasks) → Option Ended
with_tasks regs k none = none
with_tasks regs k (some (esp, t)) =
    some (
      if esp == regs then returns (record k { tasks = t }) else leaves esp (record k { tasks = t }))

-- The functions of the table `syscalls`, with their first argument.
unfoldable pub syscalls : ℕ → Raised → ℕ → ℕ → ℕ → Kernel → Option Ended
syscalls fuel irq buffer n p k =
    if n == 0
    then with_tasks irq.regs k (thread_exit fuel irq k.tasks)
    else (if n == 1
        then with_screen k (vga_print_str fuel k.screen p)
        else (if n == 2
            then with_screen k (vga_print_dec k.screen buffer p)
            else with_screen k (vga_print_hex k.screen buffer p)))

-- `regs->eax = ret` is reached by a call that returns.
abbrev pub answer : ℕ → Registers → Ended → Registers × Ended
answer ret regs (returns k) = (record regs { eax = ret }, returns k)
answer ret regs (leaves esp k) = (regs, leaves esp k)

-- The argument pushed last, `ebx`, is the first one.
unfoldable pub syscall_handler :
    ℕ → Raised → ℕ → ℕ → Registers → Kernel → Option (Registers × Ended)
syscall_handler fuel irq buffer ret regs k =
    if leb num_syscalls regs.eax
    then some (regs, returns k)
    else elim (syscalls fuel irq buffer regs.eax regs.ebx k) [
      | none ↦ none
      | some ended ↦ some (answer ret regs ended)
    ]

-- `int $0x80` with the number in `eax` and the argument in `ebx`: the registers that the handler gets.
abbrev pub trap0 : ℕ → Registers → Registers
trap0 num regs = record regs { eax = num; int_no = 128 }

abbrev pub trap1 : ℕ → ℕ → Registers → Registers
trap1 num p regs = record regs { eax = num; ebx = p; int_no = 128 }

unfoldable pub syscall_thread_exit :
    ℕ → Raised → ℕ → ℕ → Registers → Kernel → Option (Registers × Ended)
syscall_thread_exit fuel irq buffer ret regs k =
    syscall_handler fuel irq buffer ret (trap0 0 regs) k

unfoldable pub syscall_vga_print_str :
    ℕ → Raised → ℕ → ℕ → Registers → Kernel → ℕ → Option (Registers × Ended)
syscall_vga_print_str fuel irq buffer ret regs k p =
    syscall_handler fuel irq buffer ret (trap1 1 p regs) k

unfoldable pub syscall_vga_print_dec :
    ℕ → Raised → ℕ → ℕ → Registers → Kernel → ℕ → Option (Registers × Ended)
syscall_vga_print_dec fuel irq buffer ret regs k p =
    syscall_handler fuel irq buffer ret (trap1 2 p regs) k

unfoldable pub syscall_vga_print_hex :
    ℕ → Raised → ℕ → ℕ → Registers → Kernel → ℕ → Option (Registers × Ended)
syscall_vga_print_hex fuel irq buffer ret regs k p =
    syscall_handler fuel irq buffer ret (trap1 3 p regs) k
