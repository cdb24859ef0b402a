-- ===== src/Descriptors.antt =====
-- The descriptor tables: segments (kernel/gdt.c, kernel/gdt.h) and interrupt gates (kernel/idt.c,
-- kernel/idt.h). Words are unsigned, of the widths of the fields.
pub mod Gates
mod Tests
use toutatis.Common.{
  ℕ, zero, suc, ◌+◌, ◌-◌, ◌*◌, ◌/◌, ◌%◌, ◌^◌, Bool, true, false, List, [], ◌∷◌, ◌==◌, if◌then◌else◌,
}
use toutatis.Common.Store.{update}

pub record GdtEntry : Type 0 where
  pub limit_low : ℕ
  pub base_low : ℕ
  pub base_middle : ℕ
  pub access : ℕ
  pub flags : ℕ
  pub base_high : ℕ

abbrev pub GdtTable : Type 0
GdtTable = ℕ → GdtEntry

-- `flags & 0xf0 | (limit >> 16) & 0x0f`: the two halves of the byte have no digit in common.
abbrev pub gdt_entry : ℕ → ℕ → ℕ → ℕ → GdtEntry
gdt_entry base limit access flags = record {
  limit_low = limit % 2 ^ 16;
  base_low = base % 2 ^ 16;
  base_middle = base / 2 ^ 16 % 256;
  access = access;
  flags = flags / 16 % 16 * 16 + limit / 2 ^ 16 % 16;
  base_high = base / 2 ^ 24 % 256;
}

pub gdt_set_gate : GdtTable → ℕ → ℕ → ℕ → ℕ → ℕ → GdtTable
gdt_set_gate t index base limit access flags = update t index (gdt_entry base limit access flags)

-- The fields of the task state that the code sets; memset clears all others.
pub record TssEntry : Type 0 where
  pub esp0 : ℕ
  pub ss0 : ℕ
  pub cs : ℕ
  pub ss : ℕ
  pub ds : ℕ
  pub es : ℕ
  pub fs : ℕ
  pub gs : ℕ

-- 27 words of 32 bits.
abbrev pub tss_size : ℕ
tss_size = 108

-- `base` is the address of `tss_entry`.
pub write_tss : GdtTable → ℕ → ℕ → ℕ → ℕ → GdtTable × TssEntry
unfolding gdt_set_gate
write_tss t base index ss0 esp0 = (
  gdt_set_gate t index base ((base + tss_size) % 2 ^ 32) 233 0,
  record { esp0 = esp0; ss0 = ss0; cs = 11; ss = 19; ds = 19; es = 19; fs = 19; gs = 19 },
)

-- The access bytes of kernel code, user code, kernel data and user data, and the flags of 4 KB pages and
-- 32 bits.
abbrev access_kcode : ℕ
access_kcode = 128 + 0 + 16 + 2 + 8

abbrev access_ucode : ℕ
access_ucode = 128 + 96 + 16 + 2 + 8

abbrev access_kdata : ℕ
access_kdata = 128 + 0 + 16 + 2

abbrev access_udata : ℕ
access_udata = 128 + 96 + 16 + 2

abbrev gdt_flags : ℕ
gdt_flags = 128 + 64

-- Indices: 0 null, 1 kernel code, 2 kernel data, 3 user code, 4 user data, 5 task state.
pub gdt_init : GdtTable → ℕ → GdtTable × TssEntry
unfolding write_tss
gdt_init t tss =
    let whole = 2 ^ 32 - 1 in
    let t0 = gdt_set_gate t 0 0 0 0 0 in
    let t1 = gdt_set_gate t0 1 0 whole access_kcode gdt_flags in
    let t2 = gdt_set_gate t1 3 0 whole access_ucode gdt_flags in
    let t3 = gdt_set_gate t2 2 0 whole access_kdata gdt_flags in
    let t4 = gdt_set_gate t3 4 0 whole access_udata gdt_flags in write_tss t4 tss 5 16 0

pub record IdtEntry : Type 0 where
  pub offset_low : ℕ
  pub selector : ℕ
  pub reserved : ℕ
  pub gate_flags : ℕ
  pub offset_high : ℕ

abbrev pub IdtTable : Type 0
IdtTable = ℕ → IdtEntry

-- `callback` is an address of 32 bits.
abbrev pub idt_entry : ℕ → ℕ → ℕ → IdtEntry
idt_entry callback selector flags = record {
  offset_low = callback % 2 ^ 16;
  selector = selector;
  reserved = 0;
  gate_flags = flags;
  offset_high = callback / 2 ^ 16 % 2 ^ 16;
}

pub idt_set_gate : IdtTable → ℕ → ℕ → ℕ → ℕ → IdtTable
idt_set_gate t index callback selector flags = update t index (idt_entry callback selector flags)

abbrev pub kcode_sel : ℕ
kcode_sel = 8

abbrev pub idt_flags_ring_zero : ℕ
idt_flags_ring_zero = 128 + 0 + 14

abbrev pub idt_flags_ring_three : ℕ
idt_flags_ring_three = 128 + 96 + 14

-- The calls of `idt_set_gate` for these vectors, first to last; `isr v` is the address of the assembly
-- routine of the vector `v`.
pub set_gates : (ℕ → ℕ) → List ℕ → IdtTable → IdtTable
unfolding idt_set_gate
set_gates isr [] t = t
set_gates isr (v ∷ vs) t = set_gates isr vs (idt_set_gate t v (isr v) kcode_sel idt_flags_ring_zero)

abbrev pub exception_vectors : List ℕ
exception_vectors =
    0 ∷ 1 ∷ 2 ∷ 3 ∷ 4 ∷ 5 ∷ 6 ∷ 7 ∷ 8 ∷ 9 ∷ 10 ∷ 11 ∷ 12 ∷ 13 ∷ 14 ∷ 16 ∷ 17 ∷ 18 ∷ 19 ∷ 20 ∷ 21
    ∷ 22 ∷ 23 ∷ 24 ∷ 25 ∷ 26 ∷ 27 ∷ 28 ∷ 29 ∷ 30 ∷ 31 ∷ []

abbrev pub syscall_vector : ℕ
syscall_vector = 128

-- What `memset` leaves of an entry.
abbrev pub empty_gate : IdtEntry
empty_gate = record { offset_low = 0; selector = 0; reserved = 0; gate_flags = 0; offset_high = 0 }

pub idt_init : (ℕ → ℕ) → IdtTable
unfolding idt_set_gate
idt_init isr =
    idt_set_gate (set_gates isr exception_vectors (λ v. empty_gate)) syscall_vector
      (isr syscall_vector) kcode_sel idt_flags_ring_three

-- `irq_gates` of kernel/pic.c: the sixteen interrupt lines at the vectors from 32 on.
pub irq_gates : (ℕ → ℕ) → IdtTable → ℕ → ℕ → IdtTable
unfolding idt_set_gate
irq_gates irq t line zero = t
irq_gates irq t line (suc left) =
    irq_gates irq (idt_set_gate t (line + 32) (irq line) kcode_sel idt_flags_ring_zero) (line + 1)
      left
