-- ===== src/Heap/Blocks.antt =====
-- Blocks of the heap in kernel/mem_alloc.c: what the words that mark one out say, and what leaves them
-- alone.
use toutatis.Common.{
  ℕ, ◌+◌, ◌-◌, ◌*◌, ◌/◌, ◌%◌, ◌^◌, ◌≤◌, ◌<◌, ◌≡◌, ◌≢◌, refl, sym, ◌∙◌, ap, arith, true, ◌==◌,
}
use toutatis.Common.Store.{update, update_self, update_ne}
use toutatis.Heap.{
  Allocator, magic, add_word, block_to_rbnode, set_magic, check_magic, is_free, mark_free, get_size,
  set_size, get_footer, get_header, set_header,
}
use toutatis.Heap.Alloc.{close_footer, close_block}

-- The size of a block, and a footer at its end that leads back to it.
pub record Footed (a : Allocator) (block size : ℕ) : Type 0 where
  pub sized : get_size a block ≡ size
  pub owned : get_header a (block + size - 8) ≡ block
  pub marked : check_magic a (block + size - 8) ≡ true

pub record Sealed (a : Allocator) (block size : ℕ) : Type 0 where
  pub footed : Footed a block size
  pub head_marked : check_magic a block ≡ true

-- The two states agree on the words and on the size of a block.
pub record SameMarks (a b : Allocator) (block size : ℕ) : Type 0 where
  pub size_word : (b.mem_tree.nodes (block + 4)).payload ≡ (a.mem_tree.nodes (block + 4)).payload
  pub foot_word : b.words (block + size - 8) ≡ a.words (block + size - 8)
  pub back_word : b.words (block + size - 4) ≡ a.words (block + size - 4)

module _ (a b : Allocator) (block size : ℕ) (room : 8 ≤ size) (word : block + size < 2 ^ 32) where
  pub Footed-SameMarks : SameMarks a b block size → Footed a block size → Footed b block size
  unfolding get_size get_header check_magic
  Footed-SameMarks s f =
      let at_size : add_word block 4 ≡ block + 4 = omega arith in
      let at_back : add_word (block + size - 8) 4 ≡ block + size - 4 = omega arith in
      record {
        sized =
            ap (λ q. (b.mem_tree.nodes q).payload) at_size
            ∙ s.size_word
            ∙ sym (ap (λ q. (a.mem_tree.nodes q).payload) at_size)
            ∙ f.sized;
        owned = ap b.words at_back ∙ s.back_word ∙ sym (ap a.words at_back) ∙ f.owned;
        marked = ap (λ w. w / 2 * 2 == magic) s.foot_word ∙ f.marked;
      }

  pub Sealed-SameMarks :
      SameMarks a b block size
      → b.words block ≡ a.words block
      → Sealed a block size
      → Sealed b block size
  unfolding check_magic
  Sealed-SameMarks s e f = record {
    footed = Footed-SameMarks s f.footed;
    head_marked = ap (λ w. w / 2 * 2 == magic) e ∙ f.head_marked;
  }

module _ (a : Allocator) (block size : ℕ) (room : 12 ≤ size) (word : block + size < 2 ^ 32) where
  pub set_size-size : get_size (set_size a block size) block ≡ size
  unfolding get_size set_size
  set_size-size = ap (λ n. n.payload) (update_self a.mem_tree.nodes (block_to_rbnode block) _)

  pub get_footer-end : get_size a block ≡ size → get_footer a block ≡ block + size - 8
  unfolding get_footer
  get_footer-end e = rw e (omega arith)

  back_end : add_word (block + size - 8) 4 ≡ block + size - 4
  back_end = omega arith

  pub close_footer-Footed : get_size a block ≡ size → Footed (close_footer a block) block size
  unfolding close_footer get_size get_header set_header set_magic check_magic
  close_footer-Footed e =
      let foot = get_footer-end e in
      let f = block + size - 8 in
      let w = update a.words (add_word f 4) block in
      record {
        sized = e;
        owned = rw foot (
            update_ne w f (add_word f 4) (magic + w f % 2) (omega arith)
            ∙ update_self a.words (add_word f 4) block);
        marked = rw foot (rw (update_self w f (magic + w f % 2)) (ground arith));
      }

  -- What the new footer leaves alone.
  pub close_footer-words :
      (q : ℕ)
      → get_size a block ≡ size
      → q ≢ block + size - 8
      → q ≢ block + size - 4
      → (close_footer a block).words q ≡ a.words q
  unfolding close_footer set_header set_magic
  close_footer-words q e n m =
      let foot = get_footer-end e in
      let f = block + size - 8 in
      let w = update a.words (add_word f 4) block in
      rw foot (
        update_ne w f q (magic + w f % 2) n
        ∙ update_ne a.words (add_word f 4) q block (λ k. m (k ∙ back_end)))

  close_footer-nodes : (close_footer a block).mem_tree ≡ a.mem_tree
  unfolding close_footer set_header set_magic
  close_footer-nodes = refl

module _ (a : Allocator) (block size : ℕ) (room : 12 ≤ size) (word : block + size < 2 ^ 32) where
  -- The state in which `close_block` writes the footer.
  abbrev headed : Allocator
  headed = set_magic (set_size a block size) block

  headed-size : get_size headed block ≡ size
  unfolding get_size set_magic
  headed-size = set_size-size a block size room word

  headed-words : (q : ℕ) → q ≢ block → headed.words q ≡ a.words q
  unfolding set_size set_magic
  headed-words q n = update_ne a.words block q (magic + a.words block % 2) n

  -- A block that is closed has its marks.
  pub close_block-Sealed : Sealed (close_block a block size) block size
  unfolding close_block check_magic set_magic set_size
  close_block-Sealed = record {
    footed = close_footer-Footed headed block size room word headed-size;
    head_marked =
        rw
          (close_footer-words headed block size room word block headed-size (omega arith)
            (omega arith))
          (rw (update_self a.words block (magic + a.words block % 2)) (ground arith));
  }

  -- What closing a block leaves alone.
  pub close_block-words :
      (q : ℕ)
      → q ≢ block
      → q ≢ block + size - 8
      → q ≢ block + size - 4
      → (close_block a block size).words q ≡ a.words q
  unfolding close_block
  close_block-words q l m n =
      close_footer-words headed block size room word q headed-size m n ∙ headed-words q l

  pub close_block-payload :
      (q : ℕ)
      → q ≢ block + 4
      → ((close_block a block size).mem_tree.nodes q).payload ≡ (a.mem_tree.nodes q).payload
  unfolding close_block close_footer set_header set_magic set_size
  close_block-payload q n =
      let at_size : add_word block 4 ≡ block + 4 = omega arith in
      ap (λ x. x.payload) (update_ne a.mem_tree.nodes (add_word block 4) q _ (λ k. n (k ∙ at_size)))

module _ (a : Allocator) (block size : ℕ) where
  pub mark_free-words : (q : ℕ) → q ≢ block → (mark_free a block).words q ≡ a.words q
  unfolding mark_free
  mark_free-words q n = update_ne a.words block q _ n

  -- A block that is marked free, or used, keeps its marks.
  pub mark_free-Sealed :
      12 ≤ size
      → block + size < 2 ^ 32
      → Sealed a block size
      → Sealed (mark_free a block) block size × (is_free (mark_free a block) block ≡ true)
  unfolding mark_free check_magic is_free
  mark_free-Sealed room word s =
      let w = a.words block / 2 * 2 + 1 in
      (
        record {
          footed =
              Footed-SameMarks a (mark_free a block) block size (omega arith) word
                (record {
                  size_word = refl;
                  foot_word = update_ne a.words block (block + size - 8) w (omega arith);
                  back_word = update_ne a.words block (block + size - 4) w (omega arith);
                })
                s.footed;
          head_marked = rw (update_self a.words block w) (
              ap (λ x. x == magic) (let e : w / 2 * 2 ≡ a.words block / 2 * 2 = omega arith in e)
              ∙ s.head_marked);
        },
        rw (update_self a.words block w) (ground arith),
      )
