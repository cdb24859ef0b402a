-- ===== src/Paging/Clone.antt =====
-- `clone_page_directory` and `clone_page_table` of kernel/paging.c. `fresh` and `phys` are the addresses
-- that `kmalloc_ap` returns for the table at an index, and `none` means that the kernel has stopped.
use toutatis.Common.{
  ℕ, zero, suc, ◌+◌, ◌*◌, ◌/◌, ◌%◌, ◌^◌, ◌≤◌, ◌<◌, ◌≡◌, ◌≢◌, ◌⊎◌, inl, inr, refl, sym, ◌∙◌, ap,
  arith, true, false, Bool-cases, Option-cases, Option, none, some, ◌==◌, if◌then◌else◌,
}
use mathlib.Core.Path.{subst}
use native.Mathlib.Nat.{mod-lt}
use native.Mathlib.Decide.{ℕ_discrete}
use toutatis.Common.Store.{update, update_self, update_ne}
use toutatis.Frames.{Frames, frame_size}
use toutatis.Paging.{Pte, zero_pte, alloc_page}
use toutatis.Paging.Directory.{Pde, Space, page_directory_index, get_page}

-- `copy_frame` is not written yet: it stops the kernel.
unfoldable pub copy_frame : ℕ → ℕ → Frames × (ℕ → Pte) → Option (Frames × (ℕ → Pte))
copy_frame src dst s = none

-- The loop over the pages of a table, for the rounds left.
unfoldable pub clone_pages : (ℕ → Pte) → ℕ → ℕ → Frames × (ℕ → Pte) → Option (Frames × (ℕ → Pte))
clone_pages table i zero s = some s
clone_pages table i (suc rounds) (frames, clone) =
    let taken = alloc_page frames (clone i) false false in
    let page = record (table i) { frame = taken.1.frame } in
    if (table i).frame == 0
    then clone_pages table (suc i) rounds (frames, clone)
    else elim (copy_frame ((table i).frame * frame_size) (page.frame * frame_size)
        (taken.0, update clone i page)) [
          | none ↦ none
          | some s ↦ clone_pages table (suc i) rounds s
        ]

unfoldable pub clone_page_table : Frames → (ℕ → Pte) → Option (Frames × (ℕ → Pte))
clone_page_table frames table = clone_pages table 0 1024 (frames, λ i. zero_pte)

-- The table of the kernel is shared.
abbrev pub link_table : Space → ℕ → Space → Space
link_table dir i clone = record clone {
  tables = update clone.tables i (dir.tables i);
  entries = update clone.entries i (dir.entries i);
}

-- Any other table is replaced by its copy.
abbrev pub put_table : Space → ℕ → ℕ → ℕ → (ℕ → Pte) → Space → Space
put_table dir i at phys table clone = record clone {
  tables = update clone.tables i at;
  memory = update clone.memory at table;
  entries =
      update clone.entries i (record (dir.entries i) { page_table_base = phys / 2 ^ 12 % 2 ^ 20 });
}

-- An entry of a directory after `memset(…, 0, …)`.
abbrev pub zero_pde : Pde
zero_pde = record {
  present = 0;
  read_write = 0;
  user_supervisor = 0;
  write_through = 0;
  cache_disabled = 0;
  accessed = 0;
  reserved = 0;
  page_size = 0;
  global_page = 0;
  available = 0;
  page_table_base = 0;
}

-- `kernel` are the tables of the kernel's directory.
module _ (fresh phys kernel : ℕ → ℕ) (dir : Space) where
  -- The loop over the tables, for the rounds left.
  unfoldable pub clone_tables : ℕ → ℕ → Frames × Space → Option (Frames × Space)
  clone_tables i zero s = some s
  clone_tables i (suc rounds) (frames, clone) =
      if dir.tables i == 0
      then clone_tables (suc i) rounds (frames, clone)
      else (if kernel i == dir.tables i
          then clone_tables (suc i) rounds (frames, link_table dir i clone)
          else elim (clone_page_table frames (dir.memory (dir.tables i))) [
            | none ↦ none
            | some (frames1, table) ↦
                clone_tables (suc i) rounds
                  (frames1, put_table dir i (fresh i) (phys i) table clone)
          ])

  -- `own_phys` is the physical address of the new directory.
  unfoldable pub clone_page_directory : ℕ → Frames → Option (Frames × Space)
  clone_page_directory own_phys frames =
      let clone : Space = record {
        entries = λ i. zero_pde;
        entries_phys_addr = own_phys;
        tables = λ i. 0;
        memory = dir.memory;
      } in
      clone_tables 0 1024 (frames, clone)

-- A table with a frame at one of the pages left: the kernel stops.
clone_pages-mapped :
    (table : ℕ → Pte) (i rounds : ℕ) (s : Frames × (ℕ → Pte)) (j : ℕ)
    → i ≤ j
    → j < i + rounds
    → (table j).frame ≢ 0
    → Path (Option (Frames × (ℕ → Pte))) (clone_pages table i rounds s) none
unfolding clone_pages copy_frame
clone_pages-mapped table i zero s j low high mapped = absurd (omega arith)
clone_pages-mapped table i (suc rounds) (frames, clone) j low high mapped =
    elim (ℕ_discrete (table i).frame 0) [
      | no n ↦ (let e : (table i).frame == 0 ≡ false = ground arith in rw e refl)
      | yes z ↦
          let e : (table i).frame == 0 ≡ true = ground arith in
          elim (ℕ_discrete i j) [
            | yes at ↦ absurd (mapped (ap (λ k. (table k).frame) (sym at) ∙ z))
            | no n ↦ rw e (
                clone_pages-mapped table (suc i) rounds (frames, clone) j (omega arith)
                  (omega arith) mapped)
          ]
    ]

-- What `get_page` finds depends on one table address only.
get_page-same :
    (a b : Space) (virt : ℕ)
    → a.tables (page_directory_index virt) ≡ b.tables (page_directory_index virt)
    → (get_page a virt false 0 0).0 ≡ (get_page b virt false 0 0).0
unfolding get_page
get_page-same a b virt e = elim (Bool-cases (b.tables (page_directory_index virt) == 0)) [
  | inl z ↦ rw e (rw z refl)
  | inr n ↦ rw e (rw n refl)
]

-- A table that is missing, or the kernel's own.
abbrev pub IsShared : (ℕ → ℕ) → Space → ℕ → Type 0
IsShared kernel dir i = (dir.tables i ≡ 0) ⊎ (kernel i ≡ dir.tables i)

module _ (fresh phys kernel : ℕ → ℕ) (dir : Space) where
  -- The copy agrees with the directory at an index.
  abbrev pub Agrees : Space → ℕ → Type 0
  Agrees clone i =
      (clone.tables i ≡ dir.tables i) × (dir.tables i ≢ 0 → clone.entries i ≡ dir.entries i)

  extend :
      (clone : Space) (i : ℕ)
      → ((k : ℕ) → k < i → Agrees clone k)
      → Agrees clone i
      → (k : ℕ) → k < suc i
      → Agrees clone k
  extend clone i before here k h = elim (ℕ_discrete k i) [
    | yes e ↦ subst (Agrees clone) (sym e) here
    | no n ↦ before k (omega arith)
  ]

  link-Agrees :
      (clone : Space) (i k : ℕ) → k ≢ i → Agrees clone k → Agrees (link_table dir i clone) k
  link-Agrees clone i k n (a, b) = (
    update_ne clone.tables i k (dir.tables i) n ∙ a,
    λ h. update_ne clone.entries i k (dir.entries i) n ∙ b h,
  )

  clone_tables-shared :
      (rounds : ℕ) (i : ℕ) (frames : Frames) (clone : Space)
      → ((k : ℕ) → i ≤ k → k < i + rounds → IsShared kernel dir k)
      → ((k : ℕ) → i ≤ k → clone.tables k ≡ 0)
      → ((k : ℕ) → k < i → Agrees clone k)
      → (end : Space) × Path
          (Option (Frames × Space))
          (clone_tables fresh phys kernel dir i rounds (frames, clone))
          (some (frames, end))
        × ((k : ℕ) → k < i + rounds → Agrees end k)
        × (end.memory ≡ clone.memory)
        × (end.entries_phys_addr ≡ clone.entries_phys_addr)
  unfolding clone_tables
  clone_tables-shared zero i frames clone shared empty done =
      (clone, refl, λ k h. done k (omega arith), refl, refl)
  clone_tables-shared (suc rounds) i frames clone shared empty done =
      elim (ℕ_discrete (dir.tables i) 0) [
        | yes z ↦
            let e : dir.tables i == 0 ≡ true = ground arith in
            let more = extend clone i done (empty i (omega arith) ∙ sym z, λ h. absurd (h z)) in
            let (end, run, agrees, m, p) =
              clone_tables-shared rounds (suc i) frames clone
                (λ k l h. shared k (omega arith) (omega arith)) (λ k l. empty k (omega arith))
                more in
            (end, rw e run, λ k h. agrees k (omega arith), m, p)
        | no n ↦
            let e : dir.tables i == 0 ≡ false = ground arith in
            let own : kernel i ≡ dir.tables i = elim (shared i (omega arith) (omega arith)) [
              | inl z ↦ absurd (n z)
              | inr same ↦ same
            ] in
            let f : kernel i == dir.tables i ≡ true = rw own (ground arith) in
            let c = link_table dir i clone in
            let more =
              extend c i (λ k h. link-Agrees clone i k (omega arith) (done k h))
                (
                  update_self clone.tables i (dir.tables i),
                  λ h. update_self clone.entries i (dir.entries i),
                ) in
            let (end, run, agrees, m, p) =
              clone_tables-shared rounds (suc i) frames c
                (λ k l h. shared k (omega arith) (omega arith))
                (λ k l.
                  update_ne clone.tables i k (dir.tables i) (omega arith) ∙ empty k (omega arith))
                more in
            (end, rw (e, f) run, λ k h. agrees k (omega arith), m, p)
      ]

  -- A directory with no table but those of the kernel: the clone has the same tables and, where there is
  -- one, the same entries, shares the page table entries themselves, and takes no frame.
  pub clone_page_directory-shared :
      (own_phys : ℕ) (frames : Frames)
      → ((k : ℕ) → k < 1024 → IsShared kernel dir k)
      → (clone : Space) × Path
          (Option (Frames × Space))
          (clone_page_directory fresh phys kernel dir own_phys frames)
          (some (frames, clone))
        × ((k : ℕ) → k < 1024 → Agrees clone k)
        × ((virt : ℕ) → (get_page clone virt false 0 0).0 ≡ (get_page dir virt false 0 0).0)
        × (clone.memory ≡ dir.memory)
        × (clone.entries_phys_addr ≡ own_phys)
  unfolding clone_page_directory
  clone_page_directory-shared own_phys frames shared =
      let start : Space = record {
        entries = λ i. zero_pde;
        entries_phys_addr = own_phys;
        tables = λ i. 0;
        memory = dir.memory;
      } in
      let (end, run, agrees, m, p) =
        clone_tables-shared 1024 0 frames start (λ k l h. shared k h) (λ k l. refl)
          (λ k h. absurd (omega arith)) in
      (
        end,
        run,
        agrees,
        λ virt.
            get_page-same end dir virt
              (agrees (page_directory_index virt)
                (let lt = mod-lt (virt / 2 ^ 22) {m = 1024} (omega arith) in lt)).0,
        m,
        p,
      )

  clone_tables-stops :
      (rounds : ℕ) (i d j : ℕ) (frames : Frames) (clone : Space)
      → i ≤ d
      → d < i + rounds
      → j < 1024
      → dir.tables d ≢ 0
      → kernel d ≢ dir.tables d
      → (dir.memory (dir.tables d) j).frame ≢ 0
      → Path
          (Option (Frames × Space))
          (clone_tables fresh phys kernel dir i rounds (frames, clone))
          none
  unfolding clone_tables clone_page_table
  clone_tables-stops zero i d j frames clone low high hj n own mapped = absurd (omega arith)
  clone_tables-stops (suc rounds) i d j frames clone low high hj n own mapped =
      elim (ℕ_discrete i d) [
        | yes at ↦
            let e : dir.tables i == 0 ≡ false = rw at (ground arith) in
            let f : kernel i == dir.tables i ≡ false = rw at (ground arith) in
            let stop =
              clone_pages-mapped (dir.memory (dir.tables i)) 0 1024 (frames, λ k. zero_pte) j
                (omega arith) (omega arith) (rw at mapped) in
            rw (e, f, stop) refl
        | no ne ↦
            let more : (fr : Frames)
                → (c : Space)
                → Path (Option (Frames × Space))
                    (clone_tables fresh phys kernel dir (suc i) rounds (fr, c)) none =
              λ fr c.
                clone_tables-stops rounds (suc i) d j fr c (omega arith) (omega arith) hj n own
                  mapped in
            elim (Bool-cases (dir.tables i == 0)) [
              | inl e ↦ rw e (more frames clone)
              | inr e ↦ elim (Bool-cases (kernel i == dir.tables i)) [
                | inl f ↦ rw (e, f) (more frames (link_table dir i clone))
                | inr f ↦
                    elim (Option-cases
                      (clone_pages (dir.memory (dir.tables i)) 0 1024 (frames, λ k. zero_pte))) [
                        | inl stop ↦ rw (e, f, stop) refl
                        | inr ((fr, table), go) ↦
                            rw (e, f, go) (more fr (put_table dir i (fresh i) (phys i) table clone))
                      ]
              ]
            ]
      ]

  -- A directory with a table of its own that maps a frame at a page: the kernel stops.
  pub clone_page_directory-stops :
      (own_phys : ℕ) (frames : Frames) (d j : ℕ)
      → d < 1024
      → j < 1024
      → dir.tables d ≢ 0
      → kernel d ≢ dir.tables d
      → (dir.memory (dir.tables d) j).frame ≢ 0
      → Path
          (Option (Frames × Space))
          (clone_page_directory fresh phys kernel dir own_phys frames)
          none
  unfolding clone_page_directory
  clone_page_directory-stops own_phys frames d j hd hj n own mapped =
      clone_tables-stops 1024 0 d j frames _ (omega arith) hd hj n own mapped
