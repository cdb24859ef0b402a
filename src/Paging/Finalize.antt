-- ===== src/Paging/Finalize.antt =====
-- The start of paging, `paging_finalize` of kernel/paging.c up to the kernel heap. `fresh` and `phys`
-- give the addresses that `kmalloc_ap` returns for the table of a virtual address, `placement` is
-- placement_address behind the tables, and `voffset` the address of the symbol kernel_voffset.
use toutatis.Common.{
  ℕ, zero, suc, ◌+◌, ◌-◌, ◌/◌, true, false, Option, none, some, ltb, if◌then◌else◌,
}
use toutatis.Common.Store.{update}
use toutatis.Frames.{Frames, frame_size, set_frame}
use toutatis.Paging.{Pte, map_page, alloc_page}
use toutatis.Paging.Clone.{zero_pde}
use toutatis.Paging.Directory.{Space, get_page}

abbrev pub kheap_start : ℕ
kheap_start = 0xd000_0000

abbrev pub kheap_initial_size : ℕ
kheap_initial_size = 0x10_0000

-- `memset(kernel_directory, 0, sizeof(page_dir_t))`, and the physical address.
abbrev pub empty_directory : ℕ → (ℕ → ℕ → Pte) → Space
empty_directory phys memory = record {
  entries = λ d. zero_pde;
  entries_phys_addr = phys;
  tables = λ d. 0;
  memory = memory;
}

-- `for (; virt < 0xfffff000; virt += FRAME_SIZE)`
unfoldable pub make_tables : (ℕ → ℕ) → (ℕ → ℕ) → ℕ → ℕ → Space → Space
make_tables fresh phys zero virt sp = sp
make_tables fresh phys (suc rounds) virt sp =
    let more =
      make_tables fresh phys rounds (virt + frame_size)
        (get_page sp virt true (fresh virt) (phys virt)).1 in
    if ltb virt 0xffff_f000 then more else sp

-- The entry that `get_page` found is changed by `map_page` or `alloc_page`.
abbrev pub put_entry : Space → ℕ → ℕ → Pte → Space
put_entry sp table i page = record sp {
  memory = update sp.memory table (update (sp.memory table) i page);
}

unfoldable pub map_found : Frames → Option (ℕ × ℕ) → Space → ℕ → Frames × Space
map_found s none sp at = (s, sp)
map_found s (some (table, i)) sp at =
    let (s1, page) = map_page s (sp.memory table i) false false at in
    (s1, put_entry sp table i page)

unfoldable pub alloc_found : Frames → Option (ℕ × ℕ) → Space → Frames × Space
alloc_found s none sp = (s, sp)
alloc_found s (some (table, i)) sp =
    let (s1, page) = alloc_page s (sp.memory table i) false true in (s1, put_entry sp table i page)

-- `while (virt < placement_address)`: `at` is the physical address.
unfoldable pub map_kernel : (ℕ → ℕ) → (ℕ → ℕ) → ℕ → ℕ → ℕ → ℕ → Frames → Space → Frames × Space
map_kernel fresh phys placement zero virt at s sp = (s, sp)
map_kernel fresh phys placement (suc rounds) virt at s sp =
    let (page, sp1) = get_page sp virt true (fresh virt) (phys virt) in
    let (s1, sp2) = map_found s page sp1 at in
    let more =
      map_kernel fresh phys placement rounds (virt + frame_size) (at + frame_size) s1 sp2 in
    if ltb virt placement then more else (s, sp)

-- The pages of the heap that `virt` begins.
unfoldable pub alloc_heap : (ℕ → ℕ) → (ℕ → ℕ) → ℕ → ℕ → Frames → Space → Frames × Space
alloc_heap fresh phys zero virt s sp = (s, sp)
alloc_heap fresh phys (suc rounds) virt s sp =
    let (page, sp1) = get_page sp virt true (fresh virt) (phys virt) in
    let (s1, sp2) = alloc_found s page sp1 in
    alloc_heap fresh phys rounds (virt + frame_size) s1 sp2

-- `directory` is the physical address of the directory, `memory` what stands in the tables before.
unfoldable pub paging_finalize :
    (ℕ → ℕ) → (ℕ → ℕ) → ℕ → ℕ → ℕ → (ℕ → ℕ → Pte) → Frames → Frames × Space
paging_finalize fresh phys voffset placement directory memory s =
    let tables =
      make_tables fresh phys ((0xffff_f000 - voffset) / frame_size + 1) voffset
        (empty_directory directory memory) in
    let (s1, sp1) =
      map_kernel fresh phys placement ((placement - voffset) / frame_size + 1) voffset 0
        (set_frame s 0) tables in
    alloc_heap fresh phys (kheap_initial_size / frame_size) kheap_start s1 sp1
