-- ===== src/Heap/Fit.antt =====
-- Which blocks of the heap fit a request: `get_block_size`, the offset to an aligned address, and
-- `compare` of kernel/mem_alloc.c.
use toutatis.Common.{
  ℕ, zero, suc, ◌+◌, ◌-◌, ◌*◌, ◌/◌, ◌%◌, ◌^◌, ◌≤◌, ◌<◌, ◌≡◌, ◌≢◌, ◌⊎◌, ◌↔◌, inl, inr, refl, sym,
  ◌∙◌, ap, arith, false, Bool-cases, ◌==◌, ltb, if◌then◌else◌,
}
use native.Mathlib.Nat.{mod-lt, add-mod_right, add-mod-mod, mod-add-mod, mod-eq_of_lt, mod_self}
use native.Mathlib.Decide.{ℕ_discrete}
use toutatis.RbTree.{negative, zero_sign}
use toutatis.Heap.{
  add_word, sub_word, rbnode_to_user, rounded_size, get_block_size, pad_offset, align_offset,
  compare,
}
use toutatis.Heap.Alloc.{pad_block}

-- For a request that leaves room for the bookkeeping in a word of 32 bits: the block has room for the
-- request, a header's words and a footer, is a multiple of 4, at least the least block, and otherwise
-- less than 4 bytes more than needed.
pub get_block_size_lem :
    (size : ℕ)
    → size + 19 < 2 ^ 32
    → let s = get_block_size size in
      (size + 16 ≤ s) × (s % 4 ≡ 0) × (28 ≤ s) × ((s ≡ 28) ⊎ (s < size + 20))
unfolding get_block_size
get_block_size_lem size h =
    let e : rounded_size (add_word (add_word size 8) 8) ≡ (size + 19) / 4 * 4 = omega arith in
    rw e (ground arith, ground arith, ground arith, ground arith)

pad_block-bounds :
    (alignment : ℕ) (rounds : ℕ) (offset : ℕ)
    → 0 < alignment
    → alignment + 28 < 2 ^ 32
    → offset < alignment + 28
    → 28 ≤ offset + rounds
    → let r = pad_block alignment rounds offset in
      (28 ≤ r) × (r < alignment + 28) × (r % alignment ≡ offset % alignment)
unfolding pad_block
pad_block-bounds alignment zero offset h small below enough = (omega arith, below, refl)
pad_block-bounds alignment (suc rounds) offset h small below enough =
    elim (Bool-cases (ltb offset 28)) [
      | inr big ↦ rw big (ground arith, below, refl)
      | inl more ↦
          let o : offset < 28 = ground arith in
          let e : add_word offset alignment ≡ offset + alignment = omega arith in
          let (p, q, r) =
            pad_block-bounds alignment rounds (offset + alignment) h small (omega arith)
              (omega arith) in
          rw (more, e) (p, q, r ∙ add-mod_right offset alignment)
    ]

-- At an offset that is not 0 the search for a block and its later cut agree on the offset.
pad_offset-pad_block :
    (alignment : ℕ) (rounds : ℕ) (offset : ℕ)
    → 0 < alignment
    → alignment + 28 < 2 ^ 32
    → 0 < offset
    → pad_offset alignment rounds offset ≡ pad_block alignment rounds offset
unfolding pad_offset pad_block
pad_offset-pad_block alignment zero offset h small o = refl
pad_offset-pad_block alignment (suc rounds) offset h small o =
    let some_offset : offset == 0 ≡ false = ground arith in
    elim (Bool-cases (ltb offset 28)) [
      | inr big ↦ rw (some_offset, big) refl
      | inl more ↦
          let e : offset < 28 = ground arith in
          rw (some_offset, more)
            (pad_offset-pad_block alignment rounds (add_word offset alignment) h small
              (omega arith))
    ]

complement-aligned :
    (alignment user : ℕ) → user % alignment ≡ 0 → (alignment - user % alignment) % alignment ≡ 0
complement-aligned alignment user z =
    let e : alignment - user % alignment ≡ alignment = omega arith in rw e (mod_self alignment)

complement_sum :
    (alignment : ℕ) (user : ℕ)
    → 0 < alignment
    → (user + (alignment - user % alignment)) % alignment ≡ 0
complement_sum alignment user h =
    let below : user % alignment < alignment = mod-lt user h in
    let e : user % alignment + (alignment - user % alignment) ≡ alignment = omega arith in
    sym (mod-add-mod user alignment (alignment - user % alignment))
    ∙ ap (λ x. x % alignment) e
    ∙ mod_self alignment

-- For any alignment that leaves room in a word: the search takes the offset 0 at an aligned address.
-- Elsewhere it takes the offset by which the block is later cut: at least the least size of a block,
-- less than that and the alignment together, and it leads to an aligned address.
pub align_offset_lem :
    (alignment : ℕ) (user : ℕ)
    → 0 < alignment
    → alignment + 28 < 2 ^ 32
    → (user % alignment ≡ 0 → align_offset alignment user ≡ 0)
      × (user % alignment ≢ 0
          → let r = align_offset alignment user in
            (r ≡ pad_block alignment 28 (alignment - user % alignment))
            × (28 ≤ r)
            × (r < alignment + 28)
            × ((user + r) % alignment ≡ 0))
unfolding align_offset
align_offset_lem alignment user h small = (
  λ z. rw (complement-aligned alignment user z) refl,
  λ n.
      let below : user % alignment < alignment = mod-lt user h in
      let d = alignment - user % alignment in
      let e : d % alignment ≡ d = mod-eq_of_lt {n = d} {m = alignment} (omega arith) in
      let (p, q, r) = pad_block-bounds alignment 28 d h small (omega arith) (omega arith) in
      let same = pad_offset-pad_block alignment 28 d h small (omega arith) in
      rw (e, same)
        (
          refl,
          p,
          q,
          sym (add-mod-mod user (pad_block alignment 28 d) alignment)
              ∙ ap (λ x. (user + x) % alignment) r
              ∙ add-mod-mod user d alignment
              ∙ complement_sum alignment user h,
        ),
)

align_offset-lt :
    (alignment : ℕ) (user : ℕ)
    → 0 < alignment
    → alignment + 28 < 2 ^ 32
    → align_offset alignment user < 2 ^ 32
align_offset-lt alignment user h small = elim (ℕ_discrete (user % alignment) 0) [
  | yes z ↦ rw ((align_offset_lem alignment user h small).0 z) (omega arith)
  | no n ↦ (let (e, p, q, r) = (align_offset_lem alignment user h small).1 n in omega arith)
]

best_fit :
    (offset size sought : ℕ)
    → offset < 2 ^ 32
    → size < 2 ^ 32
    → (if ltb size sought
          then negative
          else (if ltb (sub_word size offset) sought then negative else zero_sign))
        ≡ zero_sign
      ↔ ((sought ≤ size) × ((offset + sought ≤ size) ⊎ (size < offset)))
best_fit offset size sought ho hs = (λ h. (ground arith, ground arith), λ h. ground arith)

-- The offset from the user's pointer to the next place where a block can begin: none at an aligned
-- address. Elsewhere there is room for a block of 28 bytes in front, and less than the alignment more.
abbrev pub IsOffset : ℕ → ℕ → ℕ → Type 0
IsOffset alignment user offset =
    ((user % alignment ≡ 0) × (offset ≡ 0))
    ⊎ ((user % alignment ≢ 0)
        × (28 ≤ offset)
        × (offset < alignment + 28)
        × ((user + offset) % alignment ≡ 0))

align_offset-IsOffset :
    (alignment : ℕ) (user : ℕ)
    → 0 < alignment
    → alignment + 28 < 2 ^ 32
    → IsOffset alignment user (align_offset alignment user)
align_offset-IsOffset alignment user h small = elim (ℕ_discrete (user % alignment) 0) [
  | yes z ↦ inl (z, (align_offset_lem alignment user h small).0 z)
  | no n ↦ (let (e, p, q, r) = (align_offset_lem alignment user h small).1 n in inr (n, p, q, r))
]

-- For an alignment that is not 0 and leaves 28 bytes of room in a word of 32 bits: `compare` takes a
-- node that is as big as the size sought and the offset together, and also every node as big as the
-- size sought that is smaller than the offset, since the difference of the two wraps around. The offset
-- leads from the user's pointer, 4 bytes behind the node, to an aligned address: it is 0 if the pointer
-- is aligned, and elsewhere the least one that leaves 28 bytes for a block in front.
pub compare-zero_sign :
    (alignment : ℕ) (node : ℕ) (size sought : ℕ)
    → 0 < alignment
    → alignment + 28 < 2 ^ 32
    → size < 2 ^ 32
    → (offset : ℕ) × IsOffset alignment ((node + 4) % 2 ^ 32) offset
      × (compare alignment node size sought ≡ zero_sign
          ↔ ((sought ≤ size) × ((offset + sought ≤ size) ⊎ (size < offset))))
unfolding compare
compare-zero_sign alignment node size sought h small word =
    let offset = align_offset alignment (rbnode_to_user node) in
    let below = align_offset-lt alignment (rbnode_to_user node) h small in
    let aligned : alignment == 0 ≡ false = ground arith in
    (
      offset,
      align_offset-IsOffset alignment (rbnode_to_user node) h small,
      rw aligned (best_fit offset size sought below word),
    )
