-- ===== src/Heap/Carve.antt =====
-- What `alloc` of kernel/mem_alloc.c makes of the block that it found.
use toutatis.Common.{
  ℕ, ◌+◌, ◌-◌, ◌%◌, ◌^◌, ◌≤◌, ◌<◌, ◌≡◌, ◌≢◌, ◌⊎◌, inl, inr, refl, sym, ◌∙◌, ap, arith, Bool, true,
  false, ◌&&◌, ◌==◌, ltb, leb, Bool-cases, Option-cases,
}
use toutatis.RbTree.Insert.{insert_rbnode}
use toutatis.RbTree.Payload.{insert_rbnode-payload}
use toutatis.Heap.{
  Allocator, Outcome, done, stopped, out_of_fuel, ◌>>=◌, sub_word, block_to_rbnode, set_magic,
  is_free, mark_free, get_size, set_size, get_next_block, set_header, compare,
}
use toutatis.Heap.Alloc.{close_footer, close_block, put_block, fragment}
use toutatis.Heap.Blocks.{
  Sealed, Sealed-SameMarks, close_block-Sealed, close_block-words, close_block-payload,
  mark_free-words, mark_free-Sealed,
}

-- What an insertion into the tree leaves alone: all but the tree, and there all sizes but at `head`.
pub record SameWords (head : ℕ) (a b : Allocator) : Type 0 where
  pub words : b.words ≡ a.words
  pub used : b.mem_used ≡ a.mem_used
  pub sizes : (q : ℕ) → q ≢ head → (b.mem_tree.nodes q).payload ≡ (a.mem_tree.nodes q).payload

pub done-injective {ℓ} : {A : Type ℓ} (a b : A) → Path (Outcome A) (done a) (done b) → a ≡ b
done-injective a b h = ap (λ o. elim o [ done x ↦ x | stopped ↦ a | out_of_fuel ↦ a ]) h

abbrev pub is_done {ℓ} : {A : Type ℓ} → Outcome A → Bool
is_done (done a) = true
is_done stopped = false
is_done out_of_fuel = false

pub >>=-done {ℓ κ} :
    {A : Type ℓ} {B : Type κ} (o : Outcome A) (f : A → Outcome B) (b : B)
    → Path (Outcome B) (o >>= f) (done b)
    → (a : A) × Path (Outcome A) o (done a) × Path (Outcome B) (f a) (done b)
>>=-done (done a) f b h = (a, refl, h)
>>=-done stopped f b h = (let e : false ≡ true = ap is_done h in ground arith)
>>=-done out_of_fuel f b h = (let e : false ≡ true = ap is_done h in ground arith)

module _ (head fuel : ℕ) where
  pub put_block-SameWords :
      (a : Allocator) (block : ℕ) (r : Bool) (b : Allocator)
      → Path (Outcome (Bool × Allocator)) (put_block head fuel a block) (done (r, b))
      → SameWords head a b
  unfolding put_block
  put_block-SameWords a block r b h =
      elim (Option-cases (insert_rbnode (compare 0) fuel head a.mem_tree (block_to_rbnode block))) [
        | inl out ↦ (let no : false ≡ true = ap is_done (rw out at h) in ground arith)
        | inr ((q, t), e) ↦
            let same = done-injective (q, record a { mem_tree = t }) (r, b) (rw e at h) in
            let k = ap (λ x. x.1) same in
            record {
              words = sym (ap (λ x. x.words) k);
              used = sym (ap (λ x. x.mem_used) k);
              sizes = λ p n.
                  sym (ap (λ x. (x.mem_tree.nodes p).payload) k)
                  ∙ insert_rbnode-payload (compare 0) fuel head a.mem_tree (block_to_rbnode block) q
                      t e p n;
            }
      ]

  pub put_only-SameWords :
      (a : Allocator) (block : ℕ) (b : Allocator)
      → Path (Outcome Allocator) (put_block head fuel a block >>= λ put. done put.1) (done b)
      → SameWords head a b
  put_only-SameWords a block b h =
      let ((r, c), put, same) = >>=-done (put_block head fuel a block) (λ put. done put.1) b h in
      put_block-SameWords a block r b (put ∙ ap (λ x. done (r, x)) (done-injective c b same))

  -- The split of a block that is marked free in between: two blocks, end to end.
  module _ (a : Allocator) (block size requested : ℕ) (word : block + size < 2 ^ 32)
      (least : 28 ≤ requested) (more : requested + 28 ≤ size) where
    abbrev next : ℕ
    next = block + requested

    abbrev front : Allocator
    front = close_block a block requested

    abbrev back : Allocator
    back = close_block front next (size - requested)

    abbrev split : Allocator
    split = mark_free back next

    split-Sealed :
        Sealed split block requested
        × Sealed split next (size - requested)
        × (is_free split next ≡ true)
    unfolding mark_free
    split-Sealed =
        let rest = size - requested in
        let (tail, free) =
          mark_free-Sealed back next rest (omega arith) (omega arith)
            (close_block-Sealed front next rest (omega arith) (omega arith)) in
        let keeps : (q : ℕ) → q < next → split.words q ≡ front.words q = λ q n.
          mark_free-words back next rest q (omega arith)
          ∙ close_block-words front next rest (omega arith) (omega arith) q (omega arith)
              (omega arith) (omega arith) in
        (
          Sealed-SameMarks front split block requested (omega arith) (omega arith)
              (record {
                size_word =
                    close_block-payload front next rest (omega arith) (omega arith) (block + 4)
                      (omega arith);
                foot_word = keeps (block + requested - 8) (omega arith);
                back_word = keeps (block + requested - 4) (omega arith);
              })
              (keeps block (omega arith))
              (close_block-Sealed a block requested (omega arith) (omega arith)),
          tail,
          free,
        )

    split-used : split.mem_used ≡ a.mem_used
    unfolding mark_free close_block close_footer set_header set_magic set_size
    split-used = refl

    front_next : get_next_block front block ≡ next
    unfolding get_next_block
    front_next =
        rw (close_block-Sealed a block requested (omega arith) (omega arith)).footed.sized
          (omega arith)

  pub Sealed-SameWords :
      (a b : Allocator) (block size : ℕ)
      → 8 ≤ size
      → block + size < 2 ^ 32
      → block + 4 ≢ head
      → SameWords head a b
      → Sealed a block size
      → Sealed b block size
  Sealed-SameWords a b block size room word off s =
      Sealed-SameMarks a b block size room word
        (record {
          size_word = s.sizes (block + 4) off;
          foot_word = ap (λ w. w (block + size - 8)) s.words;
          back_word = ap (λ w. w (block + size - 4)) s.words;
        })
        (ap (λ w. w block) s.words)

  pub SameWords-free :
      (a b : Allocator) (block : ℕ) → SameWords head a b → is_free b block ≡ is_free a block
  unfolding is_free
  SameWords-free a b block s = ap (λ w. w block % 2 == 1) s.words

  -- A block of at least the size requested that lies in the address space, off the dummy root: `fragment`
  -- leaves it as it is if fewer than 28 bytes are left over, and makes two blocks of it otherwise, end to
  -- end and with all their marks, the second of them free.
  pub fragment_lem :
      (a b : Allocator) (block size requested : ℕ)
      → get_size a block ≡ size
      → block + size < 2 ^ 32
      → 28 ≤ requested
      → requested ≤ size
      → block + 4 ≢ head
      → block + requested + 4 ≢ head
      → fragment head fuel a block requested ≡ done b
      → ((size < requested + 28) × (b ≡ a))
        ⊎ ((requested + 28 ≤ size)
            × Sealed b block requested
            × Sealed b (block + requested) (size - requested)
            × (is_free b (block + requested) ≡ true)
            × (b.mem_used ≡ a.mem_used))
  unfolding fragment
  fragment_lem a b block size requested e word least fits off1 off2 h =
      let rest : sub_word size requested ≡ size - requested = omega arith in
      elim (Bool-cases (ltb 0 (size - requested) && leb 28 (size - requested))) [
        | inr whole ↦ inl (ground arith, sym (done-injective a b (rw (e, rest, whole) at h)))
        | inl cut ↦
            let more : requested + 28 ≤ size = ground arith in
            let next_is = front_next a block size requested word least more in
            let c = split a block size requested word least more in
            let same =
              put_only-SameWords c (block + requested) b (rw (e, rest, cut, next_is) at h) in
            let (s1, s2, free) = split-Sealed a block size requested word least more in
            inr (
              more,
              Sealed-SameWords c b block requested (omega arith) (omega arith) off1 same s1,
              Sealed-SameWords c b (block + requested) (size - requested) (omega arith)
                  (omega arith) off2 same s2,
              SameWords-free c b (block + requested) same ∙ free,
              same.used ∙ split-used a block size requested word least more,
            )
      ]
