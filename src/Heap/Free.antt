-- ===== src/Heap/Free.antt =====
-- `free` of kernel/mem_alloc.c.
use toutatis.Common.{ℕ, Bool, true, false, not, ◌&&◌, ◌==◌, ltb, leb, if◌then◌else◌}
use toutatis.Heap.{
  Allocator, Outcome, done, stopped, ◌>>=◌, add_word, sub_word, footer_size, block_to_rbnode,
  user_to_block, check_magic, is_free, mark_free, get_size, set_size, get_footer, get_left_footer,
  get_next_block, get_header, set_header,
}
use toutatis.Heap.Resize.{contract}
use toutatis.Heap.Alloc.{close_footer, put_block, pull_block, has_free_left}

-- The test for a free neighbour on the right.
unfoldable pub has_free_right : Allocator → ℕ → Bool
has_free_right a neighbour =
    leb (add_word neighbour (get_size a neighbour)) a.end_address
    && check_magic a neighbour
    && check_magic a (get_footer a neighbour)
    && is_free a neighbour

-- `block` takes in the block behind it.
unfoldable pub join_blocks : Allocator → ℕ → ℕ → Allocator
join_blocks a block neighbour =
    let a1 =
      mark_free (set_size a block (add_word (get_size a block) (get_size a neighbour))) block in
    set_header a1 (get_footer a1 block) block

-- `space_removed` bytes at the end of the block are gone: false means that nothing is left of it.
unfoldable pub cut_block : Allocator → ℕ → ℕ → Bool × Allocator
cut_block a block left =
    if ltb 0 left
    then (true, close_footer (mark_free (set_size a block left) block) block)
    else (false, a)

-- A block that is no longer in use.
unfoldable pub uncount : Allocator → ℕ → Allocator
uncount a block = record a { mem_used = sub_word a.mem_used (get_size a block) }

-- The heap is contracted if the block is the last.
unfoldable pub trim : Allocator → ℕ → Bool × Allocator
trim a block =
    let r = contract block a in
    let space_removed = sub_word a.end_address r.0 in
    if add_word (get_footer a block) footer_size == a.end_address
      && ltb a.min_size (sub_word a.end_address a.start_address)
    then cut_block r.1 block (sub_word (get_size a block) space_removed)
    else (true, a)

module _ (head fuel : ℕ) where
  -- False: the neighbour is not in the tree.
  unfoldable pub merge_right : Allocator → ℕ → Outcome (Bool × Allocator)
  merge_right a block =
      let neighbour = get_next_block a block in
      if has_free_right a neighbour
      then (pull_block head fuel a 0 (block_to_rbnode neighbour) (get_size a neighbour) >>= λ r.
          done (if r.1 == 0 then (false, r.0) else (true, join_blocks r.0 block neighbour)))
      else done (true, a)

  -- The block that is left stands with the result.
  unfoldable pub merge_left : Allocator → ℕ → Outcome (Bool × ℕ × Allocator)
  merge_left a block =
      let footer = get_left_footer block in
      let neighbour = get_header a footer in
      if has_free_left a footer
      then (pull_block head fuel a 0 (block_to_rbnode neighbour) (get_size a neighbour) >>= λ r.
          if r.1 == 0
          then done (false, block, r.0)
          else done (true, neighbour, join_blocks r.0 neighbour block))
      else done (true, block, a)

  -- What is left of the block goes into the tree.
  unfoldable pub return_block : Allocator → ℕ → Outcome Allocator
  return_block a block =
      let r = trim a block in
      if r.0 then (put_block head fuel r.1 block >>= λ put. done put.1) else done r.1

  -- The block is free and its neighbours are looked at.
  unfoldable pub release : Allocator → ℕ → Outcome Allocator
  release a block = merge_right a block >>= λ right.
      if not right.0
      then done right.1
      else (merge_left right.1 block >>= λ left.
          if not left.0 then done left.2 else return_block left.2 left.1)

  -- The assertions on the magic words stop the kernel.
  unfoldable pub free : ℕ → Allocator → Outcome Allocator
  free p a =
      let block = user_to_block p in
      let a1 = mark_free a block in
      if p == 0
      then done a
      else (if not (check_magic a block)
          then stopped
          else (if is_free a block
              then done a
              else (if not (check_magic a1 (get_footer a1 block))
                  then stopped
                  else release (uncount a1 block) block)))
