-- ===== src/Heap/Create.antt =====
-- `create_mem_allocator`, `mem_used` and `mem_free` of kernel/mem_alloc.c.
use toutatis.Common.{
  ◌≡◌, ◌≢◌, ◌⊎◌, ◌≤◌, ◌<◌, ◌^◌, refl, ◌∙◌, ap, arith, ℕ, ◌+◌, ◌-◌, ◌%◌, Bool, true, false, not,
  ◌||◌, Option, none, some, ◌==◌, if◌then◌else◌,
}
use toutatis.RbTree.{Nodes, paint_black}
use toutatis.RbTree.Insert.{fresh, insert_rbnode}
use toutatis.RbTree.Payload.{fresh-payload, paint_black-payload}
use toutatis.Frames.{Frames, frame_size}
use toutatis.Paging.Directory.{Space}
use toutatis.Heap.{
  Allocator, Outcome, done, ◌>>=◌, add_word, sub_word, min_block_size, mark_free, set_header,
  set_magic, set_size, is_free,
}
use toutatis.Heap.Alloc.{close_footer, close_block, put_block}
use toutatis.Heap.Blocks.{Sealed, Sealed-SameMarks, mark_free-Sealed, close_block-Sealed}

-- `sizeof(allocator_t)`, the tree's 20 bytes included.
abbrev pub allocator_size : ℕ
allocator_size = 48

-- The first block begins behind the record of the allocator, at a multiple of the least size of a block.
unfoldable pub first_block : ℕ → ℕ
first_block start =
    let s = add_word start allocator_size in
    let g = min_block_size in if s % g == 0 then s else add_word (sub_word s (s % g)) g

-- `none` is NULL. The nodes and the words are what stands in memory.
unfoldable pub create_mem_allocator :
    ℕ
    → ℕ
    → Nodes
    → (ℕ → ℕ)
    → Frames
    → Space
    → ℕ
    → ℕ
    → ℕ
    → ℕ
    → Bool
    → Bool
    → Outcome (Option Allocator)
create_mem_allocator head fuel nodes words frames dir start end min_size max_size supervisor
      readonly =
    let hole = first_block start in
    let a : Allocator = record {
      mem_tree = record { nodes = nodes; root = 0; num_nodes = 0; num_dup = 0 };
      words = words;
      start_address = hole;
      end_address = end;
      min_size = min_size;
      max_size = max_size;
      supervisor = supervisor;
      readonly = readonly;
      mem_used = 0;
      frames = frames;
      page_dir = dir;
    } in
    let a1 = mark_free (close_block a hole (sub_word end hole)) hole in
    if not (start % frame_size == 0) || not (end % frame_size == 0)
    then done none
    else (put_block head fuel a1 hole >>= λ put. done (some put.1))

unfoldable pub mem_used : Allocator → ℕ
mem_used a = a.mem_used

unfoldable pub mem_free : Allocator → ℕ
mem_free a = sub_word (sub_word a.end_address a.start_address) a.mem_used

-- An insertion into an empty tree: any fuel is enough.
put_first :
    (head fuel : ℕ) (a : Allocator) (block : ℕ)
    → a.mem_tree.root ≡ 0
    → add_word block 4 ≢ 0
    → (b : Allocator) × Path
        (Outcome (Bool × Allocator))
        (put_block head fuel a block)
        (done (true, b))
      × (b.words ≡ a.words)
      × ((q : ℕ) → (b.mem_tree.nodes q).payload ≡ (a.mem_tree.nodes q).payload)
      × (b.mem_tree.root ≡ add_word block 4)
      × (b.start_address ≡ a.start_address)
      × (b.end_address ≡ a.end_address)
      × (b.mem_used ≡ a.mem_used)
unfolding put_block insert_rbnode
put_first head fuel a block empty given =
    let node = add_word block 4 in
    let not_null : node == 0 ≡ false = ground arith in
    let s = fresh a.mem_tree.nodes node in
    (
      record a {
        mem_tree = record { nodes = paint_black s node; root = node; num_nodes = 1; num_dup = 0 };
      },
      rw (not_null, empty) refl,
      refl,
      λ q. paint_black-payload s node q ∙ fresh-payload a.mem_tree.nodes node q,
      refl,
      refl,
      refl,
      refl,
    )

first_block_bounds :
    (start : ℕ)
    → start + 104 < 2 ^ 32
    → (first_block start % 28 ≡ 0)
      × (start + 48 ≤ first_block start)
      × (first_block start < start + 76)
unfolding first_block
first_block_bounds start h =
    let e : add_word start 48 ≡ start + 48 = omega arith in
    rw e (ground arith, ground arith, ground arith)

closed_frame :
    (a : Allocator) (block size : ℕ)
    → let b = mark_free (close_block a block size) block in
      (b.mem_tree.root ≡ a.mem_tree.root)
      × (b.start_address ≡ a.start_address)
      × (b.end_address ≡ a.end_address)
      × (b.mem_used ≡ a.mem_used)
unfolding mark_free close_block close_footer set_header set_magic set_size
closed_frame a block size = (refl, refl, refl, refl)

module _ (head fuel : ℕ) (nodes : Nodes) (words : ℕ → ℕ) (frames : Frames) (dir : Space)
    (start end : ℕ) (min_size max_size : ℕ) (supervisor readonly : Bool) where
  -- The record before the heap has a block.
  abbrev blank : Allocator
  blank = record {
    mem_tree = record { nodes = nodes; root = 0; num_nodes = 0; num_dup = 0 };
    words = words;
    start_address = first_block start;
    end_address = end;
    min_size = min_size;
    max_size = max_size;
    supervisor = supervisor;
    readonly = readonly;
    mem_used = 0;
    frames = frames;
    page_dir = dir;
  }

  run_create :
      (b : Allocator)
      → not (start % 4096 == 0) || not (end % 4096 == 0) ≡ false
      → sub_word end (first_block start) ≡ end - first_block start
      → Path
          (Outcome (Bool × Allocator))
          (put_block head fuel
            (mark_free
              (close_block blank (first_block start) (end - first_block start))
              (first_block start))
            (first_block start))
          (done (true, b))
      → Path
          (Outcome (Option Allocator))
          (create_mem_allocator head fuel nodes words frames dir start end min_size max_size
            supervisor readonly)
          (done (some b))
  unfolding create_mem_allocator
  run_create b good rest run = rw (good, rest) (ap (λ o. o >>= (λ put. done (some put.1))) run)

  -- Whatever stands in memory: with a start or an end off the page borders there is no allocator. With
  -- both on page borders, and room for the record and one block in the address space, the call ends with
  -- an allocator whose heap is one free block with all its marks, from the first multiple of 28 behind
  -- the record to the end, the root of the tree; nothing is in use, and the whole block is free memory.
  pub create_mem_allocator_lem :
      let result =
        create_mem_allocator head fuel nodes words frames dir start end min_size max_size supervisor
          readonly in
      (((start % 4096 ≢ 0) ⊎ (end % 4096 ≢ 0))
        → Path (Outcome (Option Allocator)) result (done none))
      × (start % 4096 ≡ 0
          → end % 4096 ≡ 0
          → start + 104 ≤ end
          → end < 2 ^ 32
          → (a : Allocator) × Path (Outcome (Option Allocator)) result (done (some a))
            × (a.start_address % 28 ≡ 0)
            × (start + 48 ≤ a.start_address)
            × (a.start_address < start + 76)
            × Sealed a a.start_address (end - a.start_address)
            × (is_free a a.start_address ≡ true)
            × (a.mem_tree.root ≡ a.start_address + 4)
            × (mem_used a ≡ 0)
            × (mem_free a ≡ end - a.start_address))
  unfolding create_mem_allocator mem_used mem_free is_free
  create_mem_allocator_lem = (
    λ off.
        (let bad : not (start % 4096 == 0) || not (end % 4096 == 0) ≡ true = ground arith in
          rw bad refl),
    λ hs he room word.
        let hole = first_block start in
        let good : not (start % 4096 == 0) || not (end % 4096 == 0) ≡ false = rw (hs, he) refl in
        let (at28, low, high) = first_block_bounds start (omega arith) in
        let rest : sub_word end hole ≡ end - hole = omega arith in
        let at_root : add_word hole 4 ≡ hole + 4 = omega arith in
        let c = close_block blank hole (end - hole) in
        let (sealed, free) =
          mark_free-Sealed c hole (end - hole) (omega arith) (omega arith)
            (close_block-Sealed blank hole (end - hole) (omega arith) (omega arith)) in
        let (k1, k2, k3, k4) = closed_frame blank hole (end - hole) in
        let (b, run, same, sizes, at, from, to, used) =
          put_first head fuel (mark_free c hole) hole k1 (omega arith) in
        let s : b.start_address ≡ hole = from ∙ k2 in
        let e : b.end_address ≡ end = to ∙ k3 in
        let u : b.mem_used ≡ 0 = used ∙ k4 in
        (
          b,
          run_create b good rest run,
          ap (λ x. x % 28) s ∙ at28,
          rw s low,
          rw s high,
          rw s (
              Sealed-SameMarks (mark_free c hole) b hole (end - hole) (omega arith) (omega arith)
                (record {
                  size_word = sizes (hole + 4);
                  foot_word = ap (λ w. w (hole + (end - hole) - 8)) same;
                  back_word = ap (λ w. w (hole + (end - hole) - 4)) same;
                })
                (ap (λ w. w hole) same) sealed),
          rw s (ap (λ w. w hole % 2 == 1) same ∙ free),
          rw s (at ∙ at_root),
          u,
          rw (s, e, u) (omega arith),
        ),
  )
