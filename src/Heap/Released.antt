-- ===== src/Heap/Released.antt =====
-- What `contract` of kernel/mem_alloc.c leaves: where the heap ends, and the pages that it gave back.
use toutatis.Common.{
  ℕ, zero, suc, ◌+◌, ◌-◌, ◌*◌, ◌/◌, ◌%◌, ◌^◌, ◌≤◌, ◌<◌, ◌≡◌, ◌≢◌, refl, sym, ◌∙◌, ap, arith, true,
  false, Bool-cases, inl, inr, ltb, leb, if◌then◌else◌,
}
use native.Mathlib.Decide.{ℕ_discrete}
use toutatis.Common.Store.{update, update_self, update-cases}
use toutatis.Paging.{Pte, free_page}
use toutatis.Paging.Directory.{
  Space, get_page, get_page-present, page_directory_index, page_table_index,
}
use toutatis.Heap.{Allocator, add_word, sub_word}
use toutatis.Heap.Resize.{
  pointed, unmap_at, shrink, round_up, lowest_end, contract, SameBlocks, shrink-end,
  lowest_end_bounds,
}

-- The page of the address is not present and has no frame.
pub record Released (sp : Space) (x : ℕ) : Type 0 where
  pub absent : (sp.memory (sp.tables (page_directory_index x)) (page_table_index x)).present ≡ 0
  pub no_frame : (sp.memory (sp.tables (page_directory_index x)) (page_table_index x)).frame ≡ 0

-- The page tables of the addresses from `low` up to `high` are there.
abbrev pub HasTables : Space → ℕ → ℕ → Type 0
HasTables sp low high = (x : ℕ) → low ≤ x → x < high → sp.tables (page_directory_index x) ≢ 0

abbrev IsClear : Pte → Type 0
IsClear page = (page.present ≡ 0) × (page.frame ≡ 0)

set_entry-IsClear :
    (memory : ℕ → ℕ → Pte) (table i t j : ℕ) (page : Pte)
    → IsClear page
    → IsClear (memory t j)
    → IsClear (update memory table (update (memory table) i page) t j)
set_entry-IsClear memory table i t j page (p, f) (p', f') =
    elim (update-cases memory table t (update (memory table) i page)) [
      | inr (other, e) ↦ (ap (λ row. (row j).present) e ∙ p', ap (λ row. (row j).frame) e ∙ f')
      | inl (here, e) ↦ elim (update-cases (memory table) i j page) [
        | inl (same, w) ↦ (
          ap (λ row. (row j).present) e ∙ ap (λ q. q.present) w ∙ p,
          ap (λ row. (row j).frame) e ∙ ap (λ q. q.frame) w ∙ f,
        )
        | inr (other, w) ↦ (
          ap (λ row. (row j).present) e
              ∙ ap (λ q. q.present) w
              ∙ ap (λ n. (memory n j).present) (sym here)
              ∙ p',
          ap (λ row. (row j).frame) e
              ∙ ap (λ q. q.frame) w
              ∙ ap (λ n. (memory n j).frame) (sym here)
              ∙ f',
        )
      ]
    ]

unmap_at-keeps :
    (a : Allocator) (entry : ℕ × ℕ) (x : ℕ)
    → Released a.page_dir x
    → Released (unmap_at a entry).page_dir x
unfolding unmap_at free_page
unmap_at-keeps a (table, i) x gone =
    let sp = a.page_dir in
    let (p, f) =
      set_entry-IsClear sp.memory table i (sp.tables (page_directory_index x)) (page_table_index x)
        (free_page a.frames (sp.memory table i)).1 (refl, refl) (gone.absent, gone.no_frame) in
    record { absent = p; no_frame = f }

unmap_at-Released :
    (a : Allocator) (x : ℕ)
    → a.page_dir.tables (page_directory_index x) ≢ 0
    → Released (unmap_at a (pointed (get_page a.page_dir x false 0 0).0)).page_dir x
unfolding unmap_at free_page
unmap_at-Released a x has =
    let sp = a.page_dir in
    let t = sp.tables (page_directory_index x) in
    let i = page_table_index x in
    let freed = (free_page a.frames (sp.memory t i)).1 in
    let row = update_self sp.memory t (update (sp.memory t) i freed) in
    let entry = ap (λ r. r i) row ∙ update_self (sp.memory t) i freed in
    rw (get_page-present sp x false 0 0 has)
      (record { absent = ap (λ q. q.present) entry; no_frame = ap (λ q. q.frame) entry })

unmap_at-Released_at :
    (a : Allocator) (last x : ℕ)
    → last ≡ x
    → a.page_dir.tables (page_directory_index last) ≢ 0
    → Released (unmap_at a (pointed (get_page a.page_dir last false 0 0).0)).page_dir x
unmap_at-Released_at a last x e has = rw (← e) (unmap_at-Released a last has)

unmap_at-tables :
    (a : Allocator) (entry : ℕ × ℕ) → (unmap_at a entry).page_dir.tables ≡ a.page_dir.tables
unfolding unmap_at
unmap_at-tables a (table, i) = refl

unmap_at_end :
    (a : Allocator) (entry : ℕ × ℕ) → (unmap_at a entry).end_address ≡ sub_word a.end_address 4096
unfolding unmap_at
unmap_at_end a (table, i) = refl

shrink-keeps :
    (rounds new_end : ℕ) (a : Allocator) (x : ℕ)
    → Released a.page_dir x
    → Released (shrink rounds new_end a).page_dir x
unfolding shrink
shrink-keeps zero new_end a x gone = gone
shrink-keeps (suc rounds) new_end a x gone = elim (Bool-cases (ltb new_end a.end_address)) [
  | inr stop ↦ rw stop gone
  | inl go ↦
      let found = pointed (get_page a.page_dir (sub_word a.end_address 4096) false 0 0).0 in
      rw go (shrink-keeps rounds new_end (unmap_at a found) x (unmap_at-keeps a found x gone))
]

shrink-Released :
    (rounds new_end : ℕ) (a : Allocator) (x : ℕ)
    → a.end_address % 4096 ≡ 0
    → a.end_address < 2 ^ 32
    → a.end_address ≤ new_end + rounds * 4096
    → HasTables a.page_dir (new_end / 4096 * 4096) a.end_address
    → x % 4096 ≡ 0
    → new_end / 4096 * 4096 ≤ x
    → x < a.end_address
    → Released (shrink rounds new_end a).page_dir x
unfolding shrink
shrink-Released zero new_end a x ha small enough has hx low high = absurd (omega arith)
shrink-Released (suc rounds) new_end a x ha small enough has hx low high =
    let go : ltb new_end a.end_address ≡ true = ground arith in
    let last = sub_word a.end_address 4096 in
    let found = pointed (get_page a.page_dir last false 0 0).0 in
    let b = unmap_at a found in
    let end : b.end_address ≡ last = unmap_at_end a found in
    rw go (elim (ℕ_discrete last x) [
      | yes e ↦
          let here = unmap_at-Released_at a last x e (has last (omega arith) (omega arith)) in
          shrink-keeps rounds new_end b x here
      | no other ↦
          shrink-Released rounds new_end b x (omega arith) (omega arith) (omega arith)
            (λ y from below q.
              has y from (omega arith)
                (ap (λ ts. ts (page_directory_index y)) (sym (unmap_at-tables a found)) ∙ q))
            hx low (omega arith)
    ])

-- Where the code wants to end, without its own words for it.
lowest_end_lem :
    (new_end : ℕ) (a : Allocator)
    → a.end_address % 4096 ≡ 0
    → a.end_address < 2 ^ 32
    → new_end < a.end_address
    → a.start_address ≤ new_end
    → a.start_address + a.min_size ≤ a.end_address
    → lowest_end new_end a / 4096 * 4096 ≡ (
        if ltb ((new_end + 4095) / 4096 * 4096) (a.start_address + a.min_size)
        then (a.start_address + a.min_size) / 4096 * 4096
        else (new_end + 4095) / 4096 * 4096)
lowest_end_lem new_end a ha small less from least =
    let up : round_up new_end ≡ (new_end + 4095) / 4096 * 4096 = ground arith in
    let d : sub_word ((new_end + 4095) / 4096 * 4096) a.start_address
        ≡ (new_end + 4095) / 4096 * 4096 - a.start_address =
      omega arith in
    let s : add_word a.start_address a.min_size ≡ a.start_address + a.min_size = omega arith in
    rw (up, d, s) (ground arith)

-- For a heap of whole pages below 2^32 that is not smaller than its least size, and a new end inside it:
-- if the pages of the heap have page tables, contract ends the heap at the first page border from
-- the new end on, or, where the least size reaches beyond that, at the last page border up to the least
-- size. It returns that end, every page behind it is not present and has no frame, and the blocks stay
-- as they are.
pub contract_lem :
    (new_end : ℕ) (a : Allocator) (x : ℕ)
    → a.end_address % 4096 ≡ 0
    → a.end_address < 2 ^ 32
    → new_end < a.end_address
    → a.start_address ≤ new_end
    → a.start_address + a.min_size ≤ a.end_address
    → HasTables a.page_dir (a.start_address / 4096 * 4096) a.end_address
    → x % 4096 ≡ 0
    → x < a.end_address
    → (if ltb ((new_end + 4095) / 4096 * 4096) (a.start_address + a.min_size)
        then (a.start_address + a.min_size) / 4096 * 4096
        else (new_end + 4095) / 4096 * 4096)
      ≤ x
    → ((contract new_end a).1.end_address ≡ (
        if ltb ((new_end + 4095) / 4096 * 4096) (a.start_address + a.min_size)
        then (a.start_address + a.min_size) / 4096 * 4096
        else (new_end + 4095) / 4096 * 4096))
      × ((contract new_end a).0 ≡ (contract new_end a).1.end_address)
      × Released (contract new_end a).1.page_dir x
      × SameBlocks a (contract new_end a).1
unfolding contract
contract_lem new_end a x ha small less from least has hx below behind =
    let more : leb a.end_address new_end ≡ false = ground arith in
    let (low, high, keeps) = lowest_end_bounds new_end a ha small less from least in
    let pinned = lowest_end_lem new_end a ha small less from least in
    let (end, same) =
      shrink-end (a.end_address / 4096) (lowest_end new_end a) a ha small (omega arith)
        (omega arith) in
    let gone =
      shrink-Released (a.end_address / 4096) (lowest_end new_end a) a x ha small (omega arith)
        (λ y l h. has y (omega arith) h) hx (rw pinned behind) below in
    rw more (end ∙ pinned, refl, gone, same)
