-- ===== src/Paging/Started.antt =====
-- `paging_finalize` of kernel/paging.c from the tables to the pages of the heap.
use toutatis.Common.{
  ℕ, zero, suc, ◌+◌, ◌-◌, ◌*◌, ◌/◌, ◌%◌, ◌^◌, ◌≤◌, ◌<◌, ◌≡◌, ◌≢◌, ◌⊎◌, inl, inr, refl, sym, ◌∙◌, ap,
  arith, true, false, ltb,
}
use native.Mathlib.Decide.{ℕ_discrete, dec_lt}
use toutatis.Common.Store.{update_self, update-cases}
use toutatis.Frames.{Frames, set_frame}
use toutatis.Paging.{Pte, alloc_page}
use toutatis.Paging.Directory.{
  Space, page_directory_index, page_table_index, get_page, IsTree, get_page-present, get_page-make,
  add_table,
}
use toutatis.Paging.Finalize.{
  kheap_start, empty_directory, make_tables, put_entry, map_kernel, alloc_found, alloc_heap,
  paging_finalize,
}
use toutatis.Paging.Mapped.{
  entry_of, HasTables, LeadsTo, entry_of-put_ne, map_kernel-Result, map_kernel-tables,
}

-- The addresses that the allocator returns are not NULL, and differ for different directory entries.
pub record IsFresh (fresh : ℕ → ℕ) : Type 0 where
  pub nonzero : (v : ℕ) → fresh v ≢ 0
  pub apart : (v w : ℕ) → fresh v ≡ fresh w → page_directory_index v ≡ page_directory_index w

-- Every table is one that the allocator returned for an address of its directory entry.
abbrev Filled : (ℕ → ℕ) → Space → Type 0
Filled fresh sp =
    (d : ℕ) → (sp.tables d ≡ 0) ⊎ ((v : ℕ) × (sp.tables d ≡ fresh v) × (page_directory_index v ≡ d))

Filled-IsTree : (fresh : ℕ → ℕ) (sp : Space) → IsFresh fresh → Filled fresh sp → IsTree sp
Filled-IsTree fresh sp new filled = record {
  apart = λ d e ne same. elim (filled d) [
    | inl z ↦ absurd (ne z)
    | inr (v, tv, dv) ↦ elim (filled e) [
      | inl z ↦ absurd (ne (same ∙ z))
      | inr (w, tw, dw) ↦ sym dv ∙ new.apart v w (sym tv ∙ same ∙ tw) ∙ dw
    ]
  ];
}

-- What a call of `get_page` that makes tables does to the tables.
record Grown (fresh : ℕ → ℕ) (sp out : Space) (virt : ℕ) : Type 0 where
  filled : Filled fresh out
  here : out.tables (page_directory_index virt) ≢ 0
  kept : (d : ℕ) → sp.tables d ≢ 0 → out.tables d ≢ 0

add_table-Grown :
    (fresh : ℕ → ℕ) (sp : Space) (virt phys : ℕ)
    → IsFresh fresh
    → Filled fresh sp
    → Grown fresh sp (add_table sp (page_directory_index virt) (fresh virt) phys) virt
unfolding add_table
add_table-Grown fresh sp virt phys new filled =
    let d = page_directory_index virt in
    record {
      filled = λ e. elim (update-cases sp.tables d e (fresh virt)) [
        | inl (same, u) ↦ inr (virt, u, sym same)
        | inr (other, u) ↦ elim (filled e) [
          | inl z ↦ inl (u ∙ z)
          | inr (v, t, dv) ↦ inr (v, u ∙ t, dv)
        ]
      ];
      here = λ z. new.nonzero virt (sym (update_self sp.tables d (fresh virt)) ∙ z);
      kept = λ e ne z. elim (update-cases sp.tables d e (fresh virt)) [
        | inl (same, u) ↦ new.nonzero virt (sym u ∙ z)
        | inr (other, u) ↦ ne (sym u ∙ z)
      ];
    }

get_page-Grown :
    (fresh : ℕ → ℕ) (sp : Space) (virt phys : ℕ)
    → IsFresh fresh
    → Filled fresh sp
    → Grown fresh sp (get_page sp virt true (fresh virt) phys).1 virt
get_page-Grown fresh sp virt phys new filled =
    elim (ℕ_discrete (sp.tables (page_directory_index virt)) 0) [
      | no has ↦
          rw (get_page-present sp virt true (fresh virt) phys has)
            (record { filled = filled; here = has; kept = λ d ne. ne })
      | yes z ↦
          rw (get_page-make sp virt (fresh virt) phys z)
            (add_table-Grown fresh sp virt phys new filled)
    ]

-- The loop that makes the tables.
make_tables-Filled :
    (rounds : ℕ) (fresh phys : ℕ → ℕ) (virt : ℕ) (sp : Space)
    → IsFresh fresh
    → Filled fresh sp
    → virt % 4096 ≡ 0
    → let out = make_tables fresh phys rounds virt sp in
      Filled fresh out
      × ((d : ℕ) → sp.tables d ≢ 0 → out.tables d ≢ 0)
      × ((v : ℕ)
          → virt ≤ v
          → v < virt + 4096 * rounds
          → v < 0xffff_f000
          → out.tables (page_directory_index v) ≢ 0)
unfolding make_tables
make_tables-Filled zero fresh phys virt sp new filled even =
    (filled, λ d ne. ne, λ v from below inside. absurd (omega arith))
make_tables-Filled (suc rounds) fresh phys virt sp new filled even =
    elim (dec_lt virt 0xffff_f000) [
      | no over ↦
          let stop : ltb virt 0xffff_f000 ≡ false = ground arith in
          rw stop (filled, λ d ne. ne, λ v from below inside. absurd (omega arith))
      | yes here ↦
          let go : ltb virt 0xffff_f000 ≡ true = ground arith in
          let grown = get_page-Grown fresh sp virt (phys virt) new filled in
          let (out_filled, out_kept, all) =
            make_tables-Filled rounds fresh phys (virt + 4096)
              (get_page sp virt true (fresh virt) (phys virt)).1 new grown.filled (omega arith) in
          rw go (
            out_filled,
            λ d ne. out_kept d (grown.kept d ne),
            λ v from below inside. elim (dec_lt v (virt + 4096)) [
              | yes first ↦
                  let d : page_directory_index v ≡ page_directory_index virt = omega arith in
                  rw d (out_kept (page_directory_index virt) grown.here)
              | no later ↦ all v (omega arith) (omega arith) inside
            ],
          )
    ]

abbrev allocated : Frames → Space → ℕ → Frames × Space
allocated s sp virt =
    let page = alloc_page s (entry_of sp virt) false true in
    (page.0, put_entry sp (sp.tables (page_directory_index virt)) (page_table_index virt) page.1)

alloc_heap-step :
    (fresh phys : ℕ → ℕ) (rounds virt : ℕ) (s : Frames) (sp : Space)
    → sp.tables (page_directory_index virt) ≢ 0
    → alloc_heap fresh phys (suc rounds) virt s sp
      ≡ alloc_heap fresh phys rounds (virt + 4096) (allocated s sp virt).0 (allocated s sp virt).1
unfolding alloc_heap alloc_found
alloc_heap-step fresh phys rounds virt s sp has =
    rw (get_page-present sp virt true (fresh virt) (phys virt) has) refl

-- The pages of the heap leave the pages before them alone.
alloc_heap-before :
    (rounds : ℕ) (fresh phys : ℕ → ℕ) (virt v : ℕ) (s : Frames) (sp : Space)
    → IsTree sp
    → HasTables sp virt (virt + 4096 * rounds)
    → virt % 4096 ≡ 0
    → virt + 4096 * rounds < 2 ^ 32
    → v < virt
    → entry_of (alloc_heap fresh phys rounds virt s sp).1 v ≡ entry_of sp v
alloc_heap-before zero fresh phys virt v s sp tree tables even small below =
    unfold alloc_heap in refl
alloc_heap-before (suc rounds) fresh phys virt v s sp tree tables even small below =
    let has = tables virt (omega arith) (omega arith) in
    let (s1, sp1) = allocated s sp virt in
    let page = (alloc_page s (entry_of sp virt) false true).1 in
    let tree1 : IsTree sp1 = record { apart = tree.apart } in
    rw (alloc_heap-step fresh phys rounds virt s sp has) (
      alloc_heap-before rounds fresh phys (virt + 4096) v s1 sp1 tree1
        (λ w from inside. tables w (omega arith) (omega arith)) (omega arith) (omega arith)
        (omega arith)
      ∙ entry_of-put_ne sp virt v page tree has (omega arith) (omega arith)
          (λ e. absurd (omega arith)))

-- The last two loops, on tables that are all there.
pages-LeadsTo :
    (fresh phys : ℕ → ℕ) (voffset placement v : ℕ) (s : Frames) (sp : Space)
    → IsTree sp
    → HasTables sp voffset 0xffff_f000
    → voffset % 4096 ≡ 0
    → voffset ≤ v
    → v < placement
    → placement ≤ kheap_start
    → let (s1, sp1) =
        map_kernel fresh phys placement ((placement - voffset) / 4096 + 1) voffset 0 s sp in
      LeadsTo (entry_of (alloc_heap fresh phys 256 kheap_start s1 sp1).1 v) ((v - voffset) / 4096)
pages-LeadsTo fresh phys voffset placement v s sp tree tables even from inside low =
    let rounds = (placement - voffset) / 4096 + 1 in
    let (s1, sp1) = map_kernel fresh phys placement rounds voffset 0 s sp in
    let some_tables : HasTables sp voffset placement = λ w a b. tables w a (omega arith) in
    let same = map_kernel-tables rounds fresh phys placement voffset 0 s sp some_tables in
    let result =
      map_kernel-Result rounds fresh phys placement voffset 0 v s sp tree some_tables even
        (omega arith) (omega arith) (omega arith) (omega arith) inside in
    let tree1 : IsTree sp1 = record {
      apart = λ d e ne eq.
          tree.apart d e (λ z. ne (ap (λ t. t d) same ∙ z))
            (sym (ap (λ t. t d) same) ∙ eq ∙ ap (λ t. t e) same);
    } in
    let kept =
      alloc_heap-before 256 fresh phys kheap_start v s1 sp1 tree1
        (λ w a b z.
          tables w (omega arith) (omega arith)
            (sym (ap (λ t. t (page_directory_index w)) same) ∙ z))
        (omega arith) (omega arith) (omega arith) in
    let (present, frame) = result.leads from in
    (
      ap (λ (p : Pte). p.present) kept ∙ present,
      ap (λ (p : Pte). p.frame) kept ∙ frame ∙ ap (λ k. k / 4096) (omega arith),
    )

-- Behind paging_finalize every page from kernel_voffset up to placement_address, which lies below the
-- heap, is present and leads to the frame at the same distance from the start of memory.
pub paging_finalize-LeadsTo :
    (fresh phys : ℕ → ℕ) (voffset placement directory : ℕ) (memory : ℕ → ℕ → Pte) (s : Frames)
    (v : ℕ)
    → IsFresh fresh
    → voffset % 4096 ≡ 0
    → voffset ≤ v
    → v < placement
    → placement ≤ kheap_start
    → LeadsTo
        (entry_of (paging_finalize fresh phys voffset placement directory memory s).1 v)
        ((v - voffset) / 4096)
unfolding paging_finalize
paging_finalize-LeadsTo fresh phys voffset placement directory memory s v new even from inside low =
    let rounds = (0xffff_f000 - voffset) / 4096 + 1 in
    let (filled, kept, all) =
      make_tables-Filled rounds fresh phys voffset (empty_directory directory memory) new
        (λ d. inl refl) even in
    let sp = make_tables fresh phys rounds voffset (empty_directory directory memory) in
    pages-LeadsTo fresh phys voffset placement v (set_frame s 0) sp
      (Filled-IsTree fresh sp new filled) (λ w a b. all w a (omega arith) b) even from inside low
