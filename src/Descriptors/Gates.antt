-- ===== src/Descriptors/Gates.antt =====
-- What the processor reads back from the entries that kernel/gdt.c, kernel/idt.c and kernel/pic.c set.
use toutatis.Common.{
  ℕ, zero, suc, ◌+◌, ◌-◌, ◌*◌, ◌/◌, ◌%◌, ◌^◌, ◌<◌, ◌≡◌, ◌≢◌, refl, ◌∙◌, ap, arith, Bool, true,
  false, ◌&&◌, ◌||◌, List, [], ◌∷◌, ◌==◌, ltb, leb, if◌then◌else◌,
}
use native.Mathlib.Decide.{ℕ_discrete}
use toutatis.Common.Store.{update, update_self, update_ne}
use toutatis.Descriptors.{
  GdtEntry, GdtTable, gdt_entry, idt_entry, gdt_set_gate, write_tss, tss_size, IdtEntry, IdtTable,
  idt_set_gate, irq_gates, kcode_sel, idt_flags_ring_zero,
}

-- The base and the limit of a segment, and the offset of a gate, as the processor joins the fields.
abbrev pub base_of : GdtEntry → ℕ
base_of e = e.base_low + e.base_middle * 2 ^ 16 + e.base_high * 2 ^ 24

abbrev pub limit_of : GdtEntry → ℕ
limit_of e = e.limit_low + e.flags % 16 * 2 ^ 16

abbrev pub offset_of : IdtEntry → ℕ
offset_of e = e.offset_low + e.offset_high * 2 ^ 16

-- An entry gives back the base, the low 20 bits of the limit, the access byte and the high half of the
-- flags; the other entries stay.
pub gdt_set_gate-read :
    (t : GdtTable) (index base limit access flags : ℕ)
    → base < 2 ^ 32
    → flags < 256
    → (base_of (gdt_set_gate t index base limit access flags index) ≡ base)
      × (limit_of (gdt_set_gate t index base limit access flags index) ≡ limit % 2 ^ 20)
      × ((gdt_set_gate t index base limit access flags index).access ≡ access)
      × ((gdt_set_gate t index base limit access flags index).flags / 16 ≡ flags / 16)
      × ((i : ℕ) → i ≢ index → gdt_set_gate t index base limit access flags i ≡ t i)
unfolding gdt_set_gate
gdt_set_gate-read t index base limit access flags hb hf =
    let here = update_self t index (gdt_entry base limit access flags) in
    (
      ap base_of here ∙ omega arith,
      ap limit_of here ∙ omega arith,
      ap (λ e. e.access) here,
      ap (λ e. e.flags / 16) here ∙ omega arith,
      λ i ne. update_ne t index i (gdt_entry base limit access flags) ne,
    )

-- The limit of the task state segment is its base plus 108, where the processor counts a limit from the
-- base on.
pub write_tss-limit :
    (t : GdtTable) (base index ss0 esp0 : ℕ)
    → (base_of ((write_tss t base index ss0 esp0).0 index) ≡ base % 2 ^ 32)
      × (limit_of ((write_tss t base index ss0 esp0).0 index) ≡ (base + 108) % 2 ^ 20)
unfolding write_tss
write_tss-limit t base index ss0 esp0 =
    let here = update_self t index (gdt_entry base ((base + tss_size) % 2 ^ 32) 233 0) in
    (ap base_of here ∙ omega arith, ap limit_of here ∙ omega arith)

-- A gate holds its routine's address, and the other gates stay.
pub idt_set_gate-read :
    (t : IdtTable) (index callback selector flags : ℕ)
    → callback < 2 ^ 32
    → (offset_of (idt_set_gate t index callback selector flags index) ≡ callback)
      × ((i : ℕ) → i ≢ index → idt_set_gate t index callback selector flags i ≡ t i)
unfolding idt_set_gate
idt_set_gate-read t index callback selector flags h = (
  ap offset_of (update_self t index (idt_entry callback selector flags)) ∙ omega arith,
  λ i ne. update_ne t index i (idt_entry callback selector flags) ne,
)

abbrev member : ℕ → List ℕ → Bool
member v [] = false
member v (w ∷ ws) = v == w || member v ws

-- `irq_gates` leaves gates to the kernel at the vectors 32 to 47, and changes no other gate.
pub irq_gates-lines :
    (irq : ℕ → ℕ) (t : IdtTable) (line left v : ℕ)
    → irq_gates irq t line left v ≡ (
        if leb (line + 32) v && ltb v (line + 32 + left)
        then idt_entry (irq (v - 32)) kcode_sel idt_flags_ring_zero
        else t v)
unfolding irq_gates update
irq_gates-lines irq t line zero v =
    let b : (leb (line + 32) v && ltb v (line + 32 + 0)) ≡ false = ground arith in rw b refl
irq_gates-lines irq t line (suc left) v =
    irq_gates-lines irq (update t (line + 32) (idt_entry (irq line) kcode_sel idt_flags_ring_zero))
      (line + 1) left v
    ∙ elim (ℕ_discrete v (line + 32)) [
      | yes e ↦
          let later : (leb (line + 1 + 32) v && ltb v (line + 1 + 32 + left)) ≡ false =
            ground arith in
          let whole : (leb (line + 32) v && ltb v (line + 32 + suc left)) ≡ true = ground arith in
          let here : (v == line + 32) ≡ true = ground arith in
          let number : v - 32 ≡ line = omega arith in rw (later, whole, here, number) refl
      | no ne ↦
          let same : (leb (line + 1 + 32) v && ltb v (line + 1 + 32 + left))
              ≡ (leb (line + 32) v && ltb v (line + 32 + suc left)) =
            ground arith in
          let other : (v == line + 32) ≡ false = ground arith in rw (same, other) refl
    ]
