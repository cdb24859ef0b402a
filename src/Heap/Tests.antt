-- ===== src/Heap/Tests.antt =====
-- Runs of the allocator of kernel/mem_alloc.c at small inputs.
use toutatis.Common.{
  ℕ, suc, ◌+◌, ◌-◌, ◌*◌, ◌/◌, ◌%◌, ◌≤◌, ◌<◌, ◌≡◌, ◌≢◌, ◌⊎◌, ◌↔◌, refl, arith, true, false, ◌==◌,
  ltb, Option, none, some, [], ◌∷◌, if◌then◌else◌,
}
use toutatis.Common.Store.{update}
use toutatis.RbTree.{zero_sign}
use toutatis.RbTree.Insert.{insert_rbnode}
use toutatis.Frames.{Frames}
use toutatis.Paging.{zero_pte}
use toutatis.Paging.Directory.{Space}
use toutatis.Heap.{
  Allocator, Outcome, done, magic, check_magic, is_free, mark_free, set_size, set_magic, get_size,
  get_footer, get_next_block, get_left_footer, get_header, set_header, compare,
}
use toutatis.RbTree.Rotate.{leaf, node, Rep}
use toutatis.Heap.Freed.{free-first}
use toutatis.Heap.Fit.{IsOffset, compare-zero_sign}
use toutatis.Heap.Resize.{SameBlocks, contract}
use toutatis.Heap.Released.{Released, contract_lem}
use toutatis.Heap.Alloc.{
  close_footer, close_block, put_block, pad_block, align_block, fragment, hand_out, carve,
  has_free_left,
}
use toutatis.Heap.Carve.{is_done}
use toutatis.Heap.Blocks.{Sealed}
use toutatis.Heap.Free.{
  uncount, free, release, merge_right, merge_left, return_block, trim, has_free_right,
}
use toutatis.Heap.Create.{create_mem_allocator, create_mem_allocator_lem, mem_used, mem_free}
use toutatis.Heap.Placement.{place_all, Apart, place_all-Apart}

abbrev no_space : Space
no_space = record {
  entries = λ i. record {
    present = 0;
    read_write = 0;
    user_supervisor = 0;
    write_through = 0;
    cache_disabled = 0;
    accessed = 0;
    reserved = 0;
    page_size = 0;
    global_page = 0;
    available = 0;
    page_table_base = 0;
  };
  entries_phys_addr = 0;
  tables = λ i. 0;
  memory = λ t i. zero_pte;
}

abbrev no_frames : Frames
no_frames = record { words = λ i. 0; nframes = 64; used = 0 }

-- A heap of two pages with one block of 200 bytes at 8300, in use, and an empty tree.
abbrev small_heap : Allocator
small_heap = record {
  mem_tree = record {
    nodes = λ q. record { payload = if q == 8304 then 200 else 0; link0 = 0; link1 = 0; link2 = 0 };
    root = 0;
    num_nodes = 0;
    num_dup = 0;
  };
  words = λ q.
      if q == 8300 then magic else (if q == 8492 then magic else (if q == 8496 then 8300 else 0));
  start_address = 8300;
  end_address = 12288;
  min_size = 3000;
  max_size = 65536;
  supervisor = true;
  readonly = false;
  mem_used = 200;
  frames = no_frames;
  page_dir = no_space;
}

compare-zero_sign_example :
    (offset : ℕ) × IsOffset 32 8308 offset
    × (compare 32 8304 200 100 ≡ zero_sign
        ↔ ((100 ≤ 200) × ((offset + 100 ≤ 200) ⊎ (200 < offset))))
compare-zero_sign_example =
    compare-zero_sign 32 8304 200 100 (omega arith) (omega arith) (omega arith)

place_all-Apart_example :
    Apart ((100, 0) ∷ (50, 4096) ∷ []) (place_all ((100, 0) ∷ (50, 4096) ∷ []) 5000) 5000
place_all-Apart_example = place_all-Apart ((100, 0) ∷ (50, 4096) ∷ []) 5000 (omega arith)

-- A third and a fourth page are to go.
abbrev three_pages : Allocator
three_pages = record small_heap {
  end_address = 20480;
  page_dir = record no_space { tables = λ d. 5000 };
}

contract_example :
    ((contract 8500 three_pages).1.end_address ≡ (
      if ltb ((8500 + 4095) / 4096 * 4096) (8300 + 3000)
      then (8300 + 3000) / 4096 * 4096
      else (8500 + 4095) / 4096 * 4096))
    × ((contract 8500 three_pages).0 ≡ (contract 8500 three_pages).1.end_address)
    × Released (contract 8500 three_pages).1.page_dir 16384
    × SameBlocks three_pages (contract 8500 three_pages).1
contract_example =
    contract_lem 8500 three_pages 16384 refl (omega arith) (omega arith) (omega arith) (omega arith)
      (λ x low high e. absurd (omega arith)) refl (omega arith) (omega arith)

-- 40 bytes at a multiple of 32 out of the block of 200: 44 bytes are in front and 100 behind.
cut_run : Outcome (ℕ × Allocator)
cut_run = carve 100 5 small_heap 8300 32 56

cut_run-done : is_done cut_run ≡ true
unfolding cut_run carve align_block pad_block close_block close_footer put_block insert_rbnode
    fragment hand_out set_size set_magic get_size get_footer get_next_block set_header mark_free
    update compare
cut_run-done = refl

small_heap-Sealed : Sealed small_heap 8300 200
unfolding get_size get_header check_magic
small_heap-Sealed = record {
  footed = record { sized = refl; owned = refl; marked = refl };
  head_marked = refl;
}

freed : Outcome Allocator
freed = free 100 5 8308 small_heap

freed-done : is_done freed ≡ true
unfolding freed free release merge_right merge_left return_block trim has_free_right has_free_left
    uncount put_block insert_rbnode mark_free is_free check_magic get_header get_size get_footer
    get_next_block update compare
freed-done = refl

abbrev free_one : Allocator
free_one = uncount (mark_free small_heap 8300) 8300

no_right : has_free_right free_one (get_next_block free_one 8300) ≡ false
unfolding has_free_right get_next_block get_size uncount mark_free check_magic update get_footer
    is_free
no_right = refl

no_left : has_free_left free_one (get_left_footer 8300) ≡ false
unfolding has_free_left get_header uncount mark_free check_magic update is_free
no_left = refl

is_used : is_free small_heap 8300 ≡ false
unfolding is_free
is_used = refl

create_mem_allocator_example :
    let nodes = small_heap.mem_tree.nodes in
    let result =
      create_mem_allocator 100 5 nodes
        (λ q. 0)
        no_frames
        no_space
        4096
        8192
        4096
        65536
        true
        false in
    (((4096 % 4096 ≢ 0) ⊎ (8192 % 4096 ≢ 0)) → Path (Outcome (Option Allocator)) result (done none))
    × (4096 % 4096 ≡ 0
        → 8192 % 4096 ≡ 0
        → 4200 ≤ 8192
        → 8192 < suc 4294967295
        → (a : Allocator) × Path (Outcome (Option Allocator)) result (done (some a))
          × (a.start_address % 28 ≡ 0)
          × (4144 ≤ a.start_address)
          × (a.start_address < 4172)
          × Sealed a a.start_address (8192 - a.start_address)
          × (is_free a a.start_address ≡ true)
          × (a.mem_tree.root ≡ a.start_address + 4)
          × (mem_used a ≡ 0)
          × (mem_free a ≡ 8192 - a.start_address))
create_mem_allocator_example =
    create_mem_allocator_lem 100 5 small_heap.mem_tree.nodes (λ q. 0) no_frames no_space 4096 8192
      4096 65536 true false

free-first_example :
    (b : Allocator) × (free 100 5 8308 small_heap ≡ done b)
    × Sealed b 8300 200
    × (is_free b 8300 ≡ true)
    × (b.mem_used ≡ 0)
    × (b.mem_tree.root ≡ 8304)
    × (b.mem_tree.num_nodes ≡ 1)
    × Rep b.mem_tree.nodes 8304 (node false 8304 leaf leaf)
    × (free 100 5 8308 b ≡ done b)
free-first_example =
    free-first 100 5 small_heap 8308 200 (omega arith) small_heap-Sealed is_used (omega arith)
      (omega arith) (omega arith) no_right no_left (omega arith) refl
