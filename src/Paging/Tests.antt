-- ===== src/Paging/Tests.antt =====
-- A machine with two mapped pages, a space with one page table, and the theorems there.
use toutatis.Common.{
  Option, inr, ◌+◌, ◌*◌, ℕ, ◌<◌, ◌≡◌, ◌≢◌, refl, arith, true, false, some, ◌==◌, if◌then◌else◌,
}
use toutatis.Common.Bits.{bit}
use toutatis.Frames.{Frames}
use toutatis.Paging.{zero_pte}
use toutatis.Paging.Clone.{clone_page_directory, clone_page_directory-shared}
use toutatis.Paging.Owned.{
  Machine, IsOwned, alloc_at, free_at, here, next, alloc, free, Reach-IsOwned,
}
use toutatis.Paging.Finalize.{paging_finalize}
use toutatis.Paging.Mapped.{entry_of, LeadsTo}
use toutatis.Paging.Started.{IsFresh, paging_finalize-LeadsTo}
use toutatis.Paging.Directory.{
  Pde, Space, IsTree, IsUnused, page_directory_index, page_table_index, get_page, get_page_make_lem,
}

-- Frames 0, 1 and 2 are marked: frame 0 is reserved, and the two pages hold the others.
abbrev booted : Machine
booted = record {
  bitmap = record { words = λ i. if i == 0 then 7 else 0; nframes = 64; used = 3 };
  pages = λ i.
      if i == 0
      then record zero_pte { present = 1; frame = 1 }
      else (if i == 1 then record zero_pte { present = 1; frame = 2 } else zero_pte);
}

booted-IsOwned : IsOwned booted
unfolding bit
booted-IsOwned = record {
  reserved = refl;
  held = λ i ne. ground arith;
  alone = λ i j ne e. ground arith;
}

-- Page 0 is freed and asked for again, and page 7 is new.
Reach-IsOwned_example : IsOwned (alloc_at (alloc_at (free_at booted 0) 7 true true) 0 false true)
Reach-IsOwned_example = Reach-IsOwned {m = booted} (omega arith) booted-IsOwned (
    next (next (next here (free booted 0)) (alloc (free_at booted 0) 7 true true))
      (alloc (alloc_at (free_at booted 0) 7 true true) 0 false true))

abbrev no_entry : Pde
no_entry = record {
  present = 0;
  read_write = 0;
  user_supervisor = 0;
  write_through = 0;
  cache_disabled = 0;
  accessed = 0;
  reserved = 0;
  page_size = 0;
  global_page = 0;
  available = 0;
  page_table_base = 0;
}

-- The table at 0x5000 serves the directory index 768.
abbrev kernel_space : Space
kernel_space = record {
  entries = λ i. no_entry;
  entries_phys_addr = 0x1000;
  tables = λ i. if i == 768 then 0x5000 else 0;
  memory = λ t i. zero_pte;
}

kernel_space-IsTree : IsTree kernel_space
kernel_space-IsTree = record { apart = λ d e ne p. ground arith }

table-IsUnused : IsUnused kernel_space 0x6000
table-IsUnused = λ d. ground arith

get_page_make_example :
    let (page, sp') = get_page kernel_space 0xd000_1000 true 0x6000 0x6000 in
    IsTree sp'
    × (get_page sp' 0xd000_1000 false 0 0 ≡ (page, sp'))
    × ((d : ℕ)
        → kernel_space.tables d ≢ 0
        → (sp'.tables d ≡ kernel_space.tables d)
          × (sp'.memory (kernel_space.tables d) ≡ kernel_space.memory (kernel_space.tables d)))
    × (kernel_space.tables (page_directory_index 0xd000_1000) ≡ 0
        → (page ≡ some (0x6000, page_table_index 0xd000_1000))
          × ((i : ℕ) → sp'.memory 0x6000 i ≡ zero_pte)
          × ((sp'.entries (page_directory_index 0xd000_1000)).present ≡ 1))
get_page_make_example =
    get_page_make_lem kernel_space 0xd000_1000 0x6000 0x6000 (omega arith) table-IsUnused
      kernel_space-IsTree

-- The kernel's own directory.
clone_page_directory-shared_example :
    (clone : Space) × Path
      (Option (Frames × Space))
      (clone_page_directory
        (λ i. 100000 + i)
        (λ i. 200000 + i)
        kernel_space.tables
        kernel_space
        12288
        booted.bitmap)
      (some (booted.bitmap, clone))
    × ((k : ℕ)
        → k < 1024
        → (clone.tables k ≡ kernel_space.tables k)
          × (kernel_space.tables k ≢ 0 → clone.entries k ≡ kernel_space.entries k))
    × ((virt : ℕ) → (get_page clone virt false 0 0).0 ≡ (get_page kernel_space virt false 0 0).0)
    × (clone.memory ≡ kernel_space.memory)
    × (clone.entries_phys_addr ≡ 12288)
clone_page_directory-shared_example =
    clone_page_directory-shared (λ i. 100000 + i) (λ i. 200000 + i) kernel_space.tables kernel_space
      12288 booted.bitmap (λ k h. inr refl)

-- A directory with a table of its own, whose page 3 is mapped.
abbrev user_space : Space
user_space = record kernel_space {
  tables = λ i. if i == 768 then 0x5000 else (if i == 2 then 0x6000 else 0);
  memory = λ t i. if i == 3 then record zero_pte { present = 1; frame = 9 } else zero_pte;
}

-- The tables stand one behind the other.
abbrev table_at : ℕ → ℕ
table_at v = 4096 * (1 + page_directory_index v)

table_at-IsFresh : IsFresh table_at
table_at-IsFresh = record { nonzero = λ v e. absurd (omega arith); apart = λ v w e. omega arith }

paging_finalize-LeadsTo_example :
    LeadsTo
      (entry_of
        (paging_finalize table_at table_at 0xc000_0000 0xc020_0000 4096
          (λ t i. zero_pte)
          booted.bitmap).1
        0xc000_5678)
      5
paging_finalize-LeadsTo_example =
    paging_finalize-LeadsTo table_at table_at 0xc000_0000 0xc020_0000 4096 (λ t i. zero_pte)
      booted.bitmap 0xc000_5678 table_at-IsFresh (omega arith) (omega arith) (omega arith)
      (omega arith)
