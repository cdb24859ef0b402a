-- ===== src/Descriptors/Tests.antt =====
-- Witnesses of the properties of the descriptor tables.
use toutatis.Common.{◌^◌, ◌≡◌, ◌-◌, refl}
use toutatis.Common.Store.{update}
use toutatis.Descriptors.{GdtTable, gdt_entry, gdt_init}
use toutatis.Descriptors.Gates.{limit_of}

abbrev clear_table : GdtTable
clear_table i = gdt_entry 0 0 0 0

-- Kernel code covers the whole address space in pages of 4 KB.
gdt_init_run : limit_of ((gdt_init clear_table 4096).0 1) ≡ 2 ^ 20 - 1
unfolding gdt_init update
gdt_init_run = refl
