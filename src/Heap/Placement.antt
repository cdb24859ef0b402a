-- ===== src/Heap/Placement.antt =====
-- kernel/kheap.c: `kmalloc_int` and its names, and `kfree`. Before the heap exists an address is handed out
-- behind the kernel's end, and nothing is ever given back. The interrupts that it masks are left out.
use toutatis.Common.{
  ℕ, zero, suc, ◌+◌, ◌-◌, ◌*◌, ◌/◌, ◌%◌, ◌^◌, ◌≤◌, ◌<◌, ◌≡◌, ◌⊎◌, inl, inr, refl, ◌∙◌, arith, Bool,
  true, false, not, ◌&&◌, ◌==◌, Option, none, some, if◌then◌else◌, List, [], ◌∷◌,
}
use native.Mathlib.Nat.{mod-lt, mod-le, mul-mod_left, div-add-mod', add-mod_right}
use native.Mathlib.Decide.{ℕ_discrete}
use toutatis.Frames.{frame_size}
use toutatis.Paging.Directory.{get_page}
use toutatis.Heap.{Allocator, Outcome, done, stopped, ◌>>=◌, add_word, sub_word}
use toutatis.Heap.Alloc.{alloc}
use toutatis.Heap.Free.{free}

-- The variables of the file.
pub record Kheap : Type 0 where
  pub placement_address : ℕ
  pub kheap : Option Allocator

-- The next multiple of the alignment.
unfoldable pub align_placement : ℕ → ℕ → ℕ
align_placement alignment p =
    if not (alignment == 0) && not (p % alignment == 0)
    then add_word (sub_word p (p % alignment)) alignment
    else p

-- The branch with no heap: the address, and the placement address behind it.
unfoldable pub place_area : ℕ → ℕ → ℕ → ℕ × ℕ
place_area size alignment p = let addr = align_placement alignment p in (addr, add_word addr size)

-- The physical address of a mapped page; with no page table the kernel reads at NULL, and stops here.
unfoldable pub frame_of : Allocator → ℕ → Option (ℕ × ℕ) → Outcome ℕ
frame_of a addr none = stopped
frame_of a addr (some (table, i)) =
    done (add_word ((a.page_dir.memory table i).frame * frame_size) (addr % frame_size))

-- `voffset` is the address of `kernel_voffset`. With `wants_phys` the physical address is the second
-- result, and 0 without it. The other arguments are those of `alloc`.
module _ (fresh phys : ℕ → ℕ) (head fuel rounds voffset : ℕ) where
  unfoldable pub kmalloc_int : ℕ → ℕ → Bool → Kheap → Outcome (ℕ × ℕ × Kheap)
  kmalloc_int size alignment wants_phys k = elim k.kheap [
    | none ↦
        let (addr, next) = place_area size alignment k.placement_address in
        done (
          addr,
          if wants_phys then sub_word addr voffset else 0,
          record k { placement_address = next },
        )
    | some a ↦ alloc head fuel fresh phys rounds size alignment a >>= λ r.
        let page = get_page r.1.page_dir r.0 false 0 0 in
        if wants_phys
        then (frame_of r.1 r.0 page.0 >>= λ at. done (r.0, at, record k { kheap = some r.1 }))
        else done (r.0, 0, record k { kheap = some r.1 })
  ]

  unfoldable pub kmalloc : ℕ → Kheap → Outcome (ℕ × ℕ × Kheap)
  kmalloc size k = kmalloc_int size 0 false k

  unfoldable pub kmalloc_a : ℕ → Kheap → Outcome (ℕ × ℕ × Kheap)
  kmalloc_a size k = kmalloc_int size frame_size false k

  unfoldable pub kmalloc_p : ℕ → Kheap → Outcome (ℕ × ℕ × Kheap)
  kmalloc_p size k = kmalloc_int size 0 true k

  unfoldable pub kmalloc_ap : ℕ → Kheap → Outcome (ℕ × ℕ × Kheap)
  kmalloc_ap size k = kmalloc_int size frame_size true k

-- With no heap no block has a magic word, and the assertion in `free` stops the kernel.
unfoldable pub kfree : ℕ → ℕ → ℕ → Kheap → Outcome Kheap
kfree head fuel p k = elim k.kheap [
  | none ↦ if p == 0 then done k else stopped
  | some a ↦ free head fuel p a >>= λ b. done (record k { kheap = some b })
]

-- A list of requests before the heap exists: the areas that they are given.
abbrev pub place_all : List (ℕ × ℕ) → ℕ → List (ℕ × ℕ)
place_all [] p = []
place_all ((size, alignment) ∷ rest) p =
    let (addr, next) = place_area size alignment p in (addr, size) ∷ place_all rest next

-- Each area begins at a multiple of its alignment, where the one before it ends or later.
abbrev pub Apart : List (ℕ × ℕ) → List (ℕ × ℕ) → ℕ → Type 0
Apart [] [] p = p ≡ p
Apart [] (x ∷ xs) p = zero ≡ suc zero
Apart (r ∷ rs) [] p = zero ≡ suc zero
Apart ((size, alignment) ∷ rest) ((addr, given) ∷ areas) p =
    (p ≤ addr)
    × (given ≡ size)
    × ((alignment ≡ 0) ⊎ (addr % alignment ≡ 0))
    × Apart rest areas (addr + size)

-- What the requests take at most.
abbrev pub demand : List (ℕ × ℕ) → ℕ
demand [] = 0
demand ((size, alignment) ∷ rest) = size + alignment + demand rest

align_placement_lem :
    (alignment : ℕ) (p : ℕ)
    → p + alignment < 2 ^ 32
    → let addr = align_placement alignment p in
      (p ≤ addr) × (addr ≤ p + alignment) × ((alignment ≡ 0) ⊎ (addr % alignment ≡ 0))
unfolding align_placement
align_placement_lem alignment p h = elim (ℕ_discrete alignment 0) [
  | yes z ↦ (let e : alignment == 0 ≡ true = ground arith in rw e (omega arith, omega arith, inl z))
  | no n ↦
      let e : alignment == 0 ≡ false = ground arith in
      elim (ℕ_discrete (p % alignment) 0) [
        | yes z ↦
            let f : p % alignment == 0 ≡ true = ground arith in
            rw (e, f) (omega arith, omega arith, inr z)
        | no m ↦
            let f : p % alignment == 0 ≡ false = ground arith in
            let below : p % alignment < alignment = mod-lt p (omega arith) in
            let low : p % alignment ≤ p = mod-le p alignment in
            let at : add_word (sub_word p (p % alignment)) alignment
                ≡ p - p % alignment + alignment =
              omega arith in
            let whole : (p - p % alignment) % alignment ≡ 0 =
              (let q : p - p % alignment ≡ p / alignment * alignment =
                  (let d = div-add-mod' p alignment in omega arith) in
                rw q (mul-mod_left (p / alignment) alignment)) in
            rw (e, f, at)
              (omega arith, omega arith, inr (add-mod_right (p - p % alignment) alignment ∙ whole))
      ]
]

-- Any requests before the heap exists, if what they take at most fits into the address space: every one is
-- given an area of its size at a multiple of its alignment, and each area begins behind the one before.
pub place_all-Apart :
    (requests : List (ℕ × ℕ)) (p : ℕ)
    → p + demand requests < 2 ^ 32
    → Apart requests (place_all requests p) p
unfolding place_area
place_all-Apart [] p h = refl
place_all-Apart ((size, alignment) ∷ rest) p h =
    let (low, high, hits) = align_placement_lem alignment p (omega arith) in
    let addr = align_placement alignment p in
    let next : add_word addr size ≡ addr + size = omega arith in
    rw next (low, refl, hits, place_all-Apart rest (addr + size) (omega arith))
