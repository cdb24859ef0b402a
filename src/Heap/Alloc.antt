-- ===== src/Heap/Alloc.antt =====
-- `alloc` of kernel/mem_alloc.c. `head` is the address of the dummy root that the tree's functions keep
-- on the stack, and `fuel` bounds their loops.
use toutatis.Common.{ℕ, zero, suc, ◌-◌, ◌%◌, Bool, true, false, ◌&&◌, ◌==◌, ltb, leb, if◌then◌else◌}
use toutatis.RbTree.Insert.{insert_rbnode}
use toutatis.RbTree.Remove.{remove_rbnode}
use toutatis.Heap.{
  Allocator, Outcome, done, stopped, out_of_fuel, ◌>>=◌, fueled, add_word, sub_word, min_block_size,
  rbnode_to_block, block_to_rbnode, block_to_user, set_magic, check_magic, is_free, mark_free,
  mark_used, get_size, set_size, get_footer, get_left_footer, get_next_block, get_header,
  set_header, get_block_size, compare, select_dup,
}
use toutatis.Heap.Resize.{expand}

-- A footer that leads back to its block.
unfoldable pub close_footer : Allocator → ℕ → Allocator
close_footer a block =
    let footer = get_footer a block in set_magic (set_header a footer block) footer

-- The header and the footer of a block.
unfoldable pub close_block : Allocator → ℕ → ℕ → Allocator
close_block a block size = close_footer (set_magic (set_size a block size) block) block

-- The test for a free neighbour that ends at `footer`.
unfoldable pub has_free_left : Allocator → ℕ → Bool
has_free_left a footer =
    leb a.start_address (get_header a footer)
    && check_magic a footer
    && check_magic a (get_header a footer)
    && is_free a (get_header a footer)

-- `while (offset < MIN_BLOCK_SIZE) offset += alignment;`, at most 28 rounds.
unfoldable pub pad_block : ℕ → ℕ → ℕ → ℕ
pad_block alignment zero offset = offset
pad_block alignment (suc rounds) offset =
    let more = pad_block alignment rounds (add_word offset alignment) in
    if ltb offset min_block_size then more else offset

-- The block is used, and counted.
unfoldable pub hand_out : Allocator → ℕ → Allocator
hand_out a block =
    let a1 = mark_used a block in record a1 { mem_used = add_word a1.mem_used (get_size a1 block) }

module _ (head fuel : ℕ) where
  -- `insert_rbnode(&mem_tree, node, 0)`: no alignment.
  unfoldable pub put_block : Allocator → ℕ → Outcome (Bool × Allocator)
  put_block a block =
      fueled (insert_rbnode (compare 0) fuel head a.mem_tree (block_to_rbnode block)) >>= λ r.
      done (r.0, record a { mem_tree = r.1 })

  -- `remove_rbnode` with the arguments `{ alignment, address }`: the address of a node, 0 for none.
  unfoldable pub pull_block : Allocator → ℕ → ℕ → ℕ → Outcome (Allocator × ℕ)
  pull_block a alignment address size =
      fueled (remove_rbnode (compare alignment) (select_dup address) fuel head a.mem_tree size)
      >>= λ r. done (record a { mem_tree = r.0 }, r.1)

  -- The hole at the old end joins the free block on its left, or goes into the tree alone. False means
  -- that the block on the left is not in the tree.
  unfoldable pub place_hole : Allocator → ℕ → Outcome (Bool × Allocator)
  place_hole a hole =
      let left = get_header a (get_left_footer hole) in
      if has_free_left a (get_left_footer hole)
      then (pull_block a 0 (block_to_rbnode left) (get_size a left) >>= λ r.
          let block = rbnode_to_block r.1 in
          let a1 = set_size r.0 block (add_word (get_size r.0 block) (get_size r.0 hole)) in
          let a2 = set_header a1 (get_footer r.0 hole) block in
          if r.1 == 0
          then done (false, r.0)
          else (put_block (mark_free a2 block) block >>= λ put. done (true, put.1)))
      else (put_block (mark_free a hole) hole >>= λ put. done (true, put.1))

  unfoldable pub extend_heap : (ℕ → ℕ) → (ℕ → ℕ) → Allocator → ℕ → Outcome (Bool × Allocator)
  extend_heap fresh phys a requested_size =
      let hole = a.end_address in
      let a1 = expand fresh phys (add_word hole requested_size) a in
      place_hole (close_block a1 hole (sub_word a1.end_address hole)) hole

  -- The piece in front of the aligned block goes back into the tree. The magic word of the new block is
  -- not written here.
  unfoldable pub align_block : Allocator → ℕ → ℕ → Outcome (ℕ × Allocator)
  align_block a block alignment =
      let misfit = block_to_user block % alignment in
      let offset = pad_block alignment min_block_size (alignment - misfit) in
      let new_block = add_word block offset in
      let a1 = close_footer (set_size a new_block (sub_word (get_size a block) offset)) new_block in
      if misfit == 0
      then done (block, a)
      else (if ltb offset min_block_size
          then stopped
          else (put_block (mark_free (close_block a1 block offset) block) block >>= λ put.
              done (new_block, put.1)))

  -- What is left behind the block becomes a free block.
  unfoldable pub fragment : Allocator → ℕ → ℕ → Outcome Allocator
  fragment a block requested_size =
      let frag_size = sub_word (get_size a block) requested_size in
      let a1 = close_block a block requested_size in
      let next_block = get_next_block a1 block in
      if ltb 0 frag_size && leb min_block_size frag_size
      then (put_block (mark_free (close_block a1 next_block frag_size) next_block) next_block
          >>= λ put. done put.1)
      else done a

  -- The work on the node that was found: the user's pointer.
  unfoldable pub carve : Allocator → ℕ → ℕ → ℕ → Outcome (ℕ × Allocator)
  carve a first alignment requested_size = align_block a first alignment >>= λ r.
      fragment r.1 r.0 requested_size >>= λ a1. done (block_to_user r.0, hand_out a1 r.0)

  -- Each call of itself takes one of the rounds; the result 0 is NULL.
  unfoldable pub alloc : (ℕ → ℕ) → (ℕ → ℕ) → ℕ → ℕ → ℕ → Allocator → Outcome (ℕ × Allocator)
  alloc fresh phys zero size alignment a = out_of_fuel
  alloc fresh phys (suc rounds) size alignment a =
      let requested_size = get_block_size size in
      let al = if alignment == 0 then 1 else alignment in
      pull_block a al 0 requested_size >>= λ r. elim (r.1 == 0) [
        | false ↦ carve r.0 (rbnode_to_block r.1) al requested_size
        | true ↦ extend_heap fresh phys r.0 requested_size >>= λ e. elim e.0 [
          | true ↦ alloc fresh phys rounds size al e.1
          | false ↦ done (0, e.1)
        ]
      ]
