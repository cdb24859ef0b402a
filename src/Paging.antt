-- ===== src/Paging.antt =====
-- Page table entries of kernel/paging.h and the functions of kernel/paging.c that fill them:
-- `alloc_page`, `map_page`, `free_page`. The log messages are left out.
pub mod Pages
pub mod Owned
pub mod Clone
pub mod Directory
pub mod Finalize
pub mod Mapped
pub mod Started
mod Tests
use toutatis.Common.{
  ℕ, ◌+◌, ◌/◌, ◌%◌, ◌^◌, Bool, true, false, Option, none, some, ◌==◌, ltb, if◌then◌else◌,
}
use toutatis.Frames.{Frames, frame_size, first_free_frame, set_frame, clear_frame}

-- `pte_t`: flags of one bit, three bits for the system, and twenty for the frame.
pub record Pte : Type 0 where
  pub present : ℕ
  pub read_write : ℕ
  pub user_supervisor : ℕ
  pub write_through : ℕ
  pub cache_disabled : ℕ
  pub accessed : ℕ
  pub dirty : ℕ
  pub pt_attr_index : ℕ
  pub global_page : ℕ
  pub available : ℕ
  pub frame : ℕ

-- A page table entry after `memset(…, 0, …)`.
abbrev pub zero_pte : Pte
zero_pte = record {
  present = 0;
  read_write = 0;
  user_supervisor = 0;
  write_through = 0;
  cache_disabled = 0;
  accessed = 0;
  dirty = 0;
  pt_attr_index = 0;
  global_page = 0;
  available = 0;
  frame = 0;
}

-- The three flags that mapping a page sets.
abbrev pub with_flags : Pte → Bool → Bool → Pte
with_flags page is_kernel is_writeable = record page {
  present = 1;
  read_write = if is_writeable then 1 else 0;
  user_supervisor = if is_kernel then 0 else 1;
}

-- What `alloc_page` does with the result of the search for a frame.
pub take_frame : Frames → Pte → Bool → Bool → Option ℕ → Frames × Pte
take_frame s page is_kernel is_writeable none = (s, page)
take_frame s page is_kernel is_writeable (some f) =
    (set_frame s f, with_flags (record page { frame = f % 2 ^ 20 }) is_kernel is_writeable)

pub alloc_page : Frames → Pte → Bool → Bool → Frames × Pte
unfolding take_frame
alloc_page s page is_kernel is_writeable =
    if page.frame == 0
    then take_frame s page is_kernel is_writeable (first_free_frame s)
    else (s, with_flags page is_kernel is_writeable)

unfoldable pub map_page : Frames → Pte → Bool → Bool → ℕ → Frames × Pte
map_page s page is_kernel is_writeable phys =
    let f = phys / frame_size in
    let page' = record (with_flags page is_kernel is_writeable) { frame = f % 2 ^ 20 } in
    (if ltb f s.nframes then set_frame s f else s, page')

unfoldable pub free_page : Frames → Pte → Frames × Pte
free_page s page = (
  if page.frame == 0 then s else clear_frame s page.frame,
  record page { present = 0; frame = 0 },
)
