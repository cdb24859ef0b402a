-- ===== src/Boot.antt =====
-- What kernel/main.c does with the memory map of the boot loader, and the log of kernel/logging.c. The
-- map lies in the memory of kernel/string.c. Loops over it run on fuel, `none` means that it ran out.
pub mod Reserved
pub mod Log
mod Tests
use toutatis.Common.{
  ℕ, zero, suc, ◌+◌, ◌*◌, ◌/◌, ◌%◌, ◌^◌, Bool, true, false, Option, none, some, ◌==◌, ltb,
  if◌then◌else◌,
}
use toutatis.CString.{Memory}
use toutatis.Frames.{Frames, frame_size, paging_mark_reserved}
use toutatis.Initrd.{read_word}

-- `mmap_entry_t`
pub record MmapEntry : Type 0 where
  pub size : ℕ
  pub addr : ℕ
  pub length : ℕ
  pub kind : ℕ

abbrev pub read_double : Memory → ℕ → ℕ
read_double m a = read_word m a + 2 ^ 32 * read_word m (a + 4)

unfoldable pub entry_at : Memory → ℕ → MmapEntry
entry_at m a = record {
  size = read_word m a;
  addr = read_double m (a + 4);
  length = read_double m (a + 12);
  kind = read_word m (a + 20);
}

-- `for (i = 0; i < mmap->length; i += FRAME_SIZE)` from `i` on, with `left` rounds to go. The mask leaves
-- the lower 32 bits of the address.
unfoldable pub reserve_from : Frames → ℕ → ℕ → ℕ → Frames
reserve_from s addr i zero = s
reserve_from s addr i (suc left) =
    reserve_from (paging_mark_reserved s ((addr + i) % 2 ^ 32 / frame_size * frame_size)) addr
      (i + frame_size) left

unfoldable pub reserve_region : Frames → ℕ → ℕ → Frames
reserve_region s addr length = reserve_from s addr 0 ((length + 4095) / frame_size)

-- The loop over the entries from `a` up to `end`; regions of kind 2 are reserved.
unfoldable pub reserve_all : ℕ → Memory → ℕ → ℕ → Frames → Option Frames
reserve_all zero m a end s = none
reserve_all (suc fuel) m a end s =
    let e = entry_at m a in
    let next = if e.kind == 2 then reserve_region s e.addr e.length else s in
    let rest = reserve_all fuel m ((a + e.size + 4) % 2 ^ 32) end next in
    if ltb a end then rest else some s

-- The loop of print_mmap: the number of lines that it prints. `continue` does not go to the next entry.
unfoldable pub print_entries : ℕ → Memory → ℕ → ℕ → ℕ → Option ℕ
print_entries zero m a end i = none
print_entries (suc fuel) m a end i =
    let e = entry_at m a in
    let again = print_entries fuel m a end i in
    let rest = print_entries fuel m ((a + e.size + 4) % 2 ^ 32) end (i + 1) in
    if ltb a end then (if ltb 4 e.kind then again else rest) else some i

-- The end of the map is not cut to 32 bits where it stays below them.
unfoldable pub print_mmap : ℕ → Memory → ℕ → ℕ → Option ℕ
print_mmap fuel m start length = print_entries fuel m start ((start + length) % 2 ^ 32) 0
