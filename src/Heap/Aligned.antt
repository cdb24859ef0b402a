-- ===== src/Heap/Aligned.antt =====
-- The cut that aligns a block in `alloc` of kernel/mem_alloc.c.
use toutatis.Common.{
  ℕ, ◌+◌, ◌-◌, ◌*◌, ◌/◌, ◌%◌, ◌^◌, ◌≤◌, ◌<◌, ◌≡◌, ◌≢◌, ◌⊎◌, inl, inr, refl, sym, ◌∙◌, ap, arith,
  true, false, ◌==◌, ltb,
}
use native.Mathlib.Decide.{ℕ_discrete}
use mathlib.Core.Path.{subst}
use toutatis.Common.Store.{update_self}
use toutatis.Heap.{
  Allocator, Outcome, done, add_word, sub_word, block_to_user, set_magic, is_free, mark_free,
  mark_used, get_size, set_size, set_header, align_offset,
}
use toutatis.Heap.Fit.{align_offset_lem}
use toutatis.Heap.Alloc.{
  close_footer, close_block, put_block, align_block, fragment, carve, hand_out,
}
use toutatis.Heap.Blocks.{
  Footed, Sealed, Footed-SameMarks, close_block-Sealed, close_block-words, close_block-payload,
  mark_free-words, mark_free-Sealed, close_footer-Footed, close_footer-words, set_size-size,
}
use toutatis.Heap.Carve.{
  SameWords, done-injective, >>=-done, put_block-SameWords, Sealed-SameWords, SameWords-free,
  fragment_lem,
}

module _ (a : Allocator) (block size offset : ℕ) (word : block + size < 2 ^ 32)
    (least : 28 ≤ offset) (room : offset + 12 ≤ size) where
  abbrev new_block : ℕ
  new_block = block + offset

  -- The footer of the new block, then the block in front.
  abbrev behind : Allocator
  behind = close_footer (set_size a new_block (size - offset)) new_block

  abbrev pub apart : Allocator
  apart = mark_free (close_block behind block offset) block

  behind-Footed : Footed behind new_block (size - offset)
  behind-Footed =
      close_footer-Footed (set_size a new_block (size - offset)) new_block (size - offset)
        (omega arith) (omega arith)
        (set_size-size a new_block (size - offset) (omega arith) (omega arith))

  -- Words behind the front block.
  apart-words : (q : ℕ) → block + offset ≤ q → apart.words q ≡ behind.words q
  unfolding mark_free
  apart-words q n =
      mark_free-words (close_block behind block offset) block offset q (omega arith)
      ∙ close_block-words behind block offset (omega arith) (omega arith) q (omega arith)
          (omega arith) (omega arith)

  apart-used : apart.mem_used ≡ a.mem_used
  unfolding mark_free close_block close_footer set_header set_magic set_size
  apart-used = refl

  pub apart-Sealed :
      Sealed apart block offset
      × (is_free apart block ≡ true)
      × Footed apart new_block (size - offset)
      × (apart.words new_block ≡ a.words new_block)
  unfolding mark_free set_size
  apart-Sealed =
      let (front, free) =
        mark_free-Sealed (close_block behind block offset) block offset (omega arith) (omega arith)
          (close_block-Sealed behind block offset (omega arith) (omega arith)) in
      (
        front,
        free,
        Footed-SameMarks behind apart new_block (size - offset) (omega arith) (omega arith)
            (record {
              size_word =
                  close_block-payload behind block offset (omega arith) (omega arith)
                    (new_block + 4) (omega arith);
              foot_word = apart-words (new_block + (size - offset) - 8) (omega arith);
              back_word = apart-words (new_block + (size - offset) - 4) (omega arith);
            })
            behind-Footed,
        apart-words new_block (omega arith)
            ∙ close_footer-words (set_size a new_block (size - offset)) new_block (size - offset)
                (omega arith) (omega arith) new_block
                (set_size-size a new_block (size - offset) (omega arith) (omega arith))
                (omega arith) (omega arith),
      )

module _ (head fuel : ℕ) where
  Footed-SameWords :
      (a b : Allocator) (block size : ℕ)
      → 8 ≤ size
      → block + size < 2 ^ 32
      → block + 4 ≢ head
      → SameWords head a b
      → Footed a block size
      → Footed b block size
  Footed-SameWords a b block size room word off s =
      Footed-SameMarks a b block size room word (record {
        size_word = s.sizes (block + 4) off;
        foot_word = ap (λ w. w (block + size - 8)) s.words;
        back_word = ap (λ w. w (block + size - 4)) s.words;
      })

  -- A block in the address space, off the dummy root, that is bigger than the offset to the next place
  -- for an aligned block. An aligned block stays as it is. From any other one the piece in front is cut
  -- off, a free block with all its marks; the new block ends where the old one did, with its size and its
  -- footer, begins so that the user's pointer is aligned, and keeps the word that stood in the place of
  -- its magic word.
  pub align_block_lem :
      (a b : Allocator) (block size alignment new : ℕ)
      → get_size a block ≡ size
      → block + size < 2 ^ 32
      → 0 < alignment
      → alignment + 28 < 2 ^ 32
      → let offset = align_offset alignment (block_to_user block) in
        offset + 12 ≤ size
        → block + 4 ≢ head
        → block + offset + 4 ≢ head
        → Path (Outcome (ℕ × Allocator)) (align_block head fuel a block alignment) (done (new, b))
        → (block_to_user new % alignment ≡ 0)
          × (((new ≡ block) × (b ≡ a))
              ⊎ ((new ≡ block + offset)
                  × (28 ≤ offset)
                  × Sealed b block offset
                  × (is_free b block ≡ true)
                  × Footed b (block + offset) (size - offset)
                  × (b.words (block + offset) ≡ a.words (block + offset))
                  × (b.mem_used ≡ a.mem_used)))
  unfolding align_block
  align_block_lem a b block size alignment new e word h small room off1 off2 run =
      let user = block_to_user block in
      elim (ℕ_discrete (user % alignment) 0) [
        | yes z ↦
            let aligned : user % alignment == 0 ≡ true = rw z refl in
            let same = done-injective (block, a) (new, b) (rw aligned at run) in
            let k : new ≡ block = sym (ap (λ x. x.0) same) in
            (ap (λ x. block_to_user x % alignment) k ∙ z, inl (k, sym (ap (λ x. x.1) same)))
        | no n ↦
            let misfit : user % alignment == 0 ≡ false = ground arith in
            let (same, least, below, hits) = (align_offset_lem alignment user h small).1 n in
            let offset = align_offset alignment user in
            let enough : ltb offset 28 ≡ false = ground arith in
            let at_new : add_word block offset ≡ block + offset = omega arith in
            let at_rest : sub_word size offset ≡ size - offset = omega arith in
            let c = apart a block size offset word least room in
            let ((r, d), put, got) =
              >>=-done (put_block head fuel c block) (λ put. done (block + offset, put.1)) (new, b)
                (rw (misfit, sym same, enough, e, at_new, at_rest) at run) in
            let pair = done-injective (block + offset, d) (new, b) got in
            let at : new ≡ block + offset = sym (ap (λ x. x.0) pair) in
            let same =
              put_block-SameWords head fuel c block r b (put ∙ ap (λ x. done (r, x.1)) pair) in
            let (front, free, back, old) = apart-Sealed a block size offset word least room in
            let moved : block_to_user (block + offset) ≡ user + offset = omega arith in
            (
              ap (λ x. block_to_user x % alignment) at ∙ ap (λ x. x % alignment) moved ∙ hits,
              inr (
                at,
                least,
                Sealed-SameWords head fuel c b block offset (omega arith) (omega arith) off1 same
                    front,
                SameWords-free head fuel c b block same ∙ free,
                Footed-SameWords c b (block + offset) (size - offset) (omega arith) (omega arith)
                    off2 same back,
                ap (λ w. w (block + offset)) same.words ∙ old,
                same.used ∙ apart-used a block size offset word least room,
              ),
            )
      ]

  -- The size and the place of the block after the cut.
  aligned_size :
      (a b : Allocator) (block size alignment new : ℕ)
      → get_size a block ≡ size
      → block + size < 2 ^ 32
      → 0 < alignment
      → alignment + 28 < 2 ^ 32
      → let offset = align_offset alignment (block_to_user block) in
        offset + 12 ≤ size
        → block + 4 ≢ head
        → block + offset + 4 ≢ head
        → Path (Outcome (ℕ × Allocator)) (align_block head fuel a block alignment) (done (new, b))
        → (block_to_user new % alignment ≡ 0)
          × (new ≡ block + offset)
          × (get_size b new ≡ size - offset)
          × (b.mem_used ≡ a.mem_used)
  aligned_size a b block size alignment new e word h small room off1 off2 run =
      let (hits, cases) =
        align_block_lem a b block size alignment new e word h small room off1 off2 run in
      let offset = align_offset alignment (block_to_user block) in
      elim cases [
        | inl (same, whole) ↦
            let z : block_to_user block % alignment ≡ 0 =
              sym (ap (λ x. block_to_user x % alignment) same) ∙ hits in
            let o : offset ≡ 0 = (align_offset_lem alignment (block_to_user block) h small).0 z in
            (
              hits,
              omega arith,
              ap (λ x. get_size x new) whole ∙ ap (get_size a) same ∙ e ∙ omega arith,
              ap (λ x. x.mem_used) whole,
            )
        | inr (at, least, front, free, back, old, used) ↦
            (hits, at, ap (get_size b) at ∙ back.sized, used)
      ]

  hand_out_lem :
      (a : Allocator) (block : ℕ)
      → (is_free (hand_out a block) block ≡ false)
        × (get_size (hand_out a block) block ≡ get_size a block)
        × ((hand_out a block).mem_used ≡ add_word a.mem_used (get_size a block))
  unfolding hand_out is_free mark_used get_size
  hand_out_lem a block =
      let w = a.words block / 2 * 2 in (rw (update_self a.words block w) (ground arith), refl, refl)

  fragment-size :
      (a b : Allocator) (block size requested : ℕ)
      → get_size a block ≡ size
      → block + size < 2 ^ 32
      → 28 ≤ requested
      → requested ≤ size
      → block + 4 ≢ head
      → block + requested + 4 ≢ head
      → fragment head fuel a block requested ≡ done b
      → (requested ≤ get_size b block)
        × (get_size b block < requested + 28)
        × (get_size b block ≤ size)
        × (b.mem_used ≡ a.mem_used)
  fragment-size a b block size requested e word least fits off1 off2 run =
      elim (fragment_lem head fuel a b block size requested e word least fits off1 off2 run) [
        | inl (small, same) ↦
            let z : get_size b block ≡ size = ap (λ x. get_size x block) same ∙ e in
            (omega arith, omega arith, omega arith, ap (λ x. x.mem_used) same)
        | inr (more, front, back, free, used) ↦
            let z = front.footed.sized in (omega arith, omega arith, omega arith, used)
      ]

  -- A block that has room for the offset to an aligned place and for the size requested, in the address
  -- space and off the dummy root. If `carve` ends, its result is a user's pointer at a multiple of the
  -- alignment, of a block within the one that was found, marked used, that has the size requested or
  -- fewer than 28 bytes more, and the count of the memory in use grows by that size.
  pub carve_lem :
      (a c : Allocator) (block size alignment requested p : ℕ)
      → get_size a block ≡ size
      → block + size < 2 ^ 32
      → 0 < alignment
      → alignment + 28 < 2 ^ 32
      → 28 ≤ requested
      → let offset = align_offset alignment (block_to_user block) in
        offset + requested ≤ size
        → block + 4 ≢ head
        → block + offset + 4 ≢ head
        → block + offset + requested + 4 ≢ head
        → Path (Outcome (ℕ × Allocator)) (carve head fuel a block alignment requested) (done (p, c))
        → let new = block + offset in
          (p ≡ block_to_user new)
          × (p % alignment ≡ 0)
          × (requested ≤ get_size c new)
          × (get_size c new < requested + 28)
          × (new + get_size c new ≤ block + size)
          × (is_free c new ≡ false)
          × (c.mem_used ≡ add_word a.mem_used (get_size c new))
  unfolding carve
  carve_lem a c block size alignment requested p e word h small least fits off1 off2 off3 run =
      let offset = align_offset alignment (block_to_user block) in
      let ((new, b), cut, rest) = >>=-done (align_block head fuel a block alignment) _ (p, c) run in
      let (hits, at, sized, used) =
        aligned_size a b block size alignment new e word h small (omega arith) off1 off2 cut in
      let (d, frag, got) = >>=-done (fragment head fuel b new requested) _ (p, c) rest in
      let (q1, q2, q3, used') =
        fragment-size b d new (size - offset) requested sized (omega arith) least (omega arith)
          (λ k. off2 (ap (λ x. x + 4) (sym at) ∙ k))
          (λ k. off3 (ap (λ x. x + requested + 4) (sym at) ∙ k)) frag in
      let (used_up, same, counted) = hand_out_lem d new in
      let pair = done-injective (block_to_user new, hand_out d new) (p, c) got in
      let from : p ≡ block_to_user new = sym (ap (λ x. x.0) pair) in
      let end : hand_out d new ≡ c = ap (λ x. x.1) pair in
      let sz : get_size c new ≡ get_size d new = sym (ap (λ x. get_size x new) end) ∙ same in
      let goal : (p ≡ block_to_user new)
          × (p % alignment ≡ 0)
          × (requested ≤ get_size c new)
          × (get_size c new < requested + 28)
          × (new + get_size c new ≤ block + size)
          × (is_free c new ≡ false)
          × (c.mem_used ≡ add_word a.mem_used (get_size c new)) =
        (
          from,
          ap (λ x. x % alignment) from ∙ hits,
          omega arith,
          omega arith,
          omega arith,
          sym (ap (λ x. is_free x new) end) ∙ used_up,
          sym (ap (λ x. x.mem_used) end)
              ∙ counted
              ∙ ap (λ x. add_word x (get_size d new)) (used' ∙ used)
              ∙ ap (add_word a.mem_used) (sym sz),
        ) in
      subst
        (λ n.
          (p ≡ block_to_user n)
          × (p % alignment ≡ 0)
          × (requested ≤ get_size c n)
          × (get_size c n < requested + 28)
          × (n + get_size c n ≤ block + size)
          × (is_free c n ≡ false)
          × (c.mem_used ≡ add_word a.mem_used (get_size c n)))
        at goal
