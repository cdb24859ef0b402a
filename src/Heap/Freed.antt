-- ===== src/Heap/Freed.antt =====
-- `free` of kernel/mem_alloc.c: what it refuses, and a block between blocks in use.
use toutatis.Common.{
  ℕ, ◌+◌, ◌-◌, ◌^◌, ◌≤◌, ◌<◌, ◌≡◌, ◌≢◌, inl, inr, refl, sym, ◌∙◌, ap, arith, Bool, true, false,
  ◌==◌, Bool-cases,
}
use toutatis.RbTree.First.{insert_rbnode-first}
use toutatis.RbTree.Rotate.{leaf, node, Rep}
use toutatis.Heap.{
  block_to_rbnode, compare, Allocator, done, stopped, ◌>>=◌, add_word, sub_word, user_to_block,
  check_magic, is_free, mark_free, get_size, get_footer, get_left_footer, get_next_block,
}
use toutatis.Heap.Alloc.{put_block, has_free_left}
use toutatis.Heap.Free.{
  uncount, has_free_right, trim, merge_right, merge_left, return_block, release, free,
}
use toutatis.Heap.Blocks.{Sealed, Sealed-SameMarks, mark_free-Sealed, get_footer-end}
use toutatis.Heap.Carve.{SameWords, put_only-SameWords, Sealed-SameWords, SameWords-free}

module _ (head fuel : ℕ) where
  -- What `free` refuses. NULL, and a block that is free already, change nothing. A header without its
  -- magic word, and a footer without it, stop the kernel.
  pub free-refusals :
      (p : ℕ) (a : Allocator)
      → let block = user_to_block p in
        (p ≡ 0 → free head fuel p a ≡ done a)
        × (p ≢ 0 → check_magic a block ≡ false → free head fuel p a ≡ stopped)
        × (check_magic a block ≡ true → is_free a block ≡ true → free head fuel p a ≡ done a)
        × (p ≢ 0
            → check_magic a block ≡ true
            → is_free a block ≡ false
            → check_magic (mark_free a block) (get_footer (mark_free a block) block) ≡ false
            → free head fuel p a ≡ stopped)
  unfolding free
  free-refusals p a = (
    λ z. (let e : p == 0 ≡ true = ground arith in rw e refl),
    λ n m. (let e : p == 0 ≡ false = ground arith in rw (e, m) refl),
    λ m f. elim (Bool-cases (p == 0)) [ inl e ↦ rw e refl | inr e ↦ rw (e, m, f) refl ],
    λ n m f g. (let e : p == 0 ≡ false = ground arith in rw (e, m, f, g) refl),
  )

  trim-inside :
      (m : Allocator) (block size : ℕ)
      → 12 ≤ size
      → block + size < 2 ^ 32
      → get_size m block ≡ size
      → block + size ≢ m.end_address
      → Path (Bool × Allocator) (trim m block) (true, m)
  unfolding trim
  trim-inside m block size room word e last =
      let foot = get_footer-end m block size room word e in
      let mid : add_word (block + size - 8) 8 == m.end_address ≡ false =
        (let k : add_word (block + size - 8) 8 ≡ block + size = omega arith in
          rw k (ground arith)) in
      rw (foot, mid) refl

  release-alone :
      (m : Allocator) (block : ℕ)
      → has_free_right m (get_next_block m block) ≡ false
      → has_free_left m (get_left_footer block) ≡ false
      → Path (Bool × Allocator) (trim m block) (true, m)
      → release head fuel m block ≡ (put_block head fuel m block >>= λ put. done put.1)
  unfolding release merge_right merge_left return_block
  release-alone m block right left mid = rw (right, left, mid) refl

  uncount-Sealed :
      (m : Allocator) (block size : ℕ)
      → 8 ≤ size
      → block + size < 2 ^ 32
      → Sealed m block size
      → Sealed (uncount m block) block size
  unfolding uncount
  uncount-Sealed m block size room word s =
      Sealed-SameMarks m (uncount m block) block size room word
        (record { size_word = refl; foot_word = refl; back_word = refl }) refl s

  -- A block with all its marks, in use, in the address space and off the dummy root, with no free block on
  -- either side and not at the end of the heap. After `free`, if it ends, it is a free block with all
  -- its marks, its size is no longer in use, and to free it once more changes nothing.
  pub free-again :
      (a b : Allocator) (p size : ℕ)
      → let block = user_to_block p in
        let m = uncount (mark_free a block) block in
        p ≢ 0
        → Sealed a block size
        → is_free a block ≡ false
        → 12 ≤ size
        → block + size < 2 ^ 32
        → block + 4 ≢ head
        → has_free_right m (get_next_block m block) ≡ false
        → has_free_left m (get_left_footer block) ≡ false
        → block + size ≢ a.end_address
        → free head fuel p a ≡ done b
        → Sealed b block size
          × (is_free b block ≡ true)
          × (b.mem_used ≡ sub_word a.mem_used size)
          × (free head fuel p b ≡ done b)
  unfolding free uncount mark_free get_size is_free
  free-again a b p size n s u room word off right left last run =
      let block = user_to_block p in
      let m = uncount (mark_free a block) block in
      let (s1, f1) = mark_free-Sealed a block size room word s in
      let given : p == 0 ≡ false = ground arith in
      let foot = get_footer-end (mark_free a block) block size room word s1.footed.sized in
      let alone =
        release-alone m block right left (trim-inside m block size room word s.footed.sized last) in
      let same : SameWords head m b =
        put_only-SameWords head fuel m block b
          (sym alone ∙ rw (given, s.head_marked, u, foot, s1.footed.marked) at run) in
      let s2 : Sealed b block size =
        Sealed-SameWords head fuel m b block size (omega arith) word off same
          (uncount-Sealed (mark_free a block) block size (omega arith) word s1) in
      let f2 : is_free b block ≡ true = SameWords-free head fuel m b block same ∙ f1 in
      (
        s2,
        f2,
        same.used ∙ ap (sub_word a.mem_used) s.footed.sized,
        rw (given, s2.head_marked, f2) refl,
      )

  put_block-first :
      (m : Allocator) (block : ℕ)
      → m.mem_tree.root ≡ 0
      → block_to_rbnode block ≢ 0
      → (b : Allocator) × (put_block head fuel m block ≡ done (true, b))
        × (b.mem_tree.root ≡ block_to_rbnode block)
        × (b.mem_tree.num_nodes ≡ 1)
        × Rep b.mem_tree.nodes
            (block_to_rbnode block)
            (node false (block_to_rbnode block) leaf leaf)
  unfolding put_block
  put_block-first m block none ne =
      let (t, run, top, count, rep) =
        insert_rbnode-first (compare 0) fuel head m.mem_tree (block_to_rbnode block) none ne in
      (record m { mem_tree = t }, rw run refl, top, count, rep)

  uncount-mark_free :
      (a : Allocator) (block : ℕ)
      → let m = uncount (mark_free a block) block in
        (m.mem_tree.root ≡ a.mem_tree.root)
        × (get_size m block ≡ get_size a block)
        × (m.end_address ≡ a.end_address)
  unfolding uncount mark_free get_size
  uncount-mark_free a block = (refl, refl, refl)

  free-release :
      (a b : Allocator) (p : ℕ)
      → let block = user_to_block p in
        let a1 = mark_free a block in
        p ≢ 0
        → check_magic a block ≡ true
        → is_free a block ≡ false
        → check_magic a1 (get_footer a1 block) ≡ true
        → release head fuel (uncount a1 block) block ≡ done b
        → free head fuel p a ≡ done b
  unfolding free
  free-release a b p n head_ok used foot_ok ended =
      let given : p == 0 ≡ false = ground arith in rw (given, head_ok, used, foot_ok) ended

  -- In a heap whose tree of free blocks is empty, `free` ends for a block with all its marks, in use, in
  -- the address space and off the dummy root, with no free block on either side and not at the end of the
  -- heap. The block keeps its marks and is free, its size is no longer in use, it is the black root of the
  -- tree, without children, and to free it once more changes nothing.
  pub free-first :
      (a : Allocator) (p size : ℕ)
      → let block = user_to_block p in
        let m = uncount (mark_free a block) block in
        p ≢ 0
        → Sealed a block size
        → is_free a block ≡ false
        → 12 ≤ size
        → block + size < 2 ^ 32
        → block + 4 ≢ head
        → has_free_right m (get_next_block m block) ≡ false
        → has_free_left m (get_left_footer block) ≡ false
        → block + size ≢ a.end_address
        → a.mem_tree.root ≡ 0
        → (b : Allocator) × (free head fuel p a ≡ done b)
          × Sealed b block size
          × (is_free b block ≡ true)
          × (b.mem_used ≡ sub_word a.mem_used size)
          × (b.mem_tree.root ≡ block + 4)
          × (b.mem_tree.num_nodes ≡ 1)
          × Rep b.mem_tree.nodes (block + 4) (node false (block + 4) leaf leaf)
          × (free head fuel p b ≡ done b)
  free-first a p size n s u room word off right left last none =
      let block = user_to_block p in
      let m = uncount (mark_free a block) block in
      let (s1, f1) = mark_free-Sealed a block size room word s in
      let (tree, sized, end) = uncount-mark_free a block in
      let foot = get_footer-end (mark_free a block) block size room word s1.footed.sized in
      let last_kept : block + size ≢ m.end_address = λ e. last (e ∙ end) in
      let inside = trim-inside m block size room word (sized ∙ s.footed.sized) last_kept in
      let alone = release-alone m block right left inside in
      let at : block_to_rbnode block ≡ block + 4 = omega arith in
      let (b, put, top, count, rep) =
        put_block-first m block (tree ∙ none) (λ e. absurd (omega arith)) in
      let ended : release head fuel m block ≡ done b = alone ∙ ap (λ o. o >>= λ r. done r.1) put in
      let run =
        free-release a b p n s.head_marked u
          (ap (check_magic (mark_free a block)) foot ∙ s1.footed.marked) ended in
      let (sealed, is_now_free, used, again) =
        free-again a b p size n s u room word off right left last run in
      (b, run, sealed, is_now_free, used, top ∙ at, count, rw at at rep, again)
