-- ===== src/Paging/Directory.antt =====
-- `get_page` of kernel/paging.c: the way from a virtual address to its page table entry, through a
-- page directory that is filled on demand. A table is named by its address, and 0 is NULL.
-- The address and the physical address that `kmalloc_ap` returns are arguments.
use native.Mathlib.Decide.{ℕ_discrete}
use toutatis.Common.{
  ℕ, ◌/◌, ◌%◌, ◌^◌, ◌<◌, ◌≡◌, ◌≢◌, ◌↔◌, refl, sym, ◌∙◌, ap, inl, inr, arith, Bool, true, false, not,
  Option, none, some, ◌==◌, if◌then◌else◌,
}
use toutatis.Common.Store.{update, update_self, update_ne, update-cases}
use toutatis.Paging.{Pte, zero_pte}

-- `pde_t`
pub record Pde : Type 0 where
  pub present : ℕ
  pub read_write : ℕ
  pub user_supervisor : ℕ
  pub write_through : ℕ
  pub cache_disabled : ℕ
  pub accessed : ℕ
  pub reserved : ℕ
  pub page_size : ℕ
  pub global_page : ℕ
  pub available : ℕ
  pub page_table_base : ℕ

-- `page_dir_t`, and the memory that its table pointers lead to.
pub record Space : Type 0 where
  pub entries : ℕ → Pde
  pub entries_phys_addr : ℕ
  pub tables : ℕ → ℕ
  pub memory : ℕ → ℕ → Pte

abbrev pub page_directory_index : ℕ → ℕ
page_directory_index virt = virt / 2 ^ 22 % 1024

abbrev pub page_table_index : ℕ → ℕ
page_table_index virt = virt / 2 ^ 12 % 1024

-- The space with a new, zeroed table at `fresh` under the directory index `d`.
unfoldable pub add_table : Space → ℕ → ℕ → ℕ → Space
add_table sp d fresh phys = record sp {
  tables = update sp.tables d fresh;
  memory = update sp.memory fresh (λ _. zero_pte);
  entries = update sp.entries d (record (sp.entries d) {
    present = 1;
    read_write = 1;
    user_supervisor = 1;
    page_table_base = phys / 2 ^ 12 % 2 ^ 20;
  });
}

-- The entry as the table that holds it and its index there; `none` is NULL.
unfoldable pub get_page : Space → ℕ → Bool → ℕ → ℕ → Option (ℕ × ℕ) × Space
unfolding add_table
get_page sp virt make fresh phys =
    let d = page_directory_index virt in
    if not (sp.tables d == 0)
    then (some (sp.tables d, page_table_index virt), sp)
    else if make
    then (some (fresh, page_table_index virt), add_table sp d fresh phys)
    else (none, sp)

-- Two directory entries never share a table.
pub record IsTree (sp : Space) : Type 0 where
  pub apart : (d e : ℕ) → sp.tables d ≢ 0 → sp.tables d ≡ sp.tables e → d ≡ e

-- No directory entry holds the table `t`.
abbrev pub IsUnused : Space → ℕ → Type 0
IsUnused sp t = (d : ℕ) → sp.tables d ≢ t

add_table-IsTree :
    (sp : Space) (d fresh phys : ℕ)
    → IsUnused sp fresh
    → IsTree sp
    → IsTree (add_table sp d fresh phys)
unfolding add_table
add_table-IsTree sp d fresh phys unused tree = record {
  apart = λ a b ne e. elim (update-cases sp.tables d a fresh) [
    | inl (ea, ua) ↦ elim (update-cases sp.tables d b fresh) [
      | inl (eb, ub) ↦ ea ∙ sym eb
      | inr (nb, ub) ↦ absurd (unused b (sym (rw (ua, ub) at e)))
    ]
    | inr (na, ua) ↦ elim (update-cases sp.tables d b fresh) [
      | inl (eb, ub) ↦ absurd (unused a (rw (ua, ub) at e))
      | inr (nb, ub) ↦ tree.apart a b (rw ua at ne) (rw (ua, ub) at e)
    ]
  ];
}

pub get_page-present :
    (sp : Space) (virt : ℕ) (make : Bool) (fresh phys : ℕ)
    → sp.tables (page_directory_index virt) ≢ 0
    → get_page sp virt make fresh phys
      ≡ (some (sp.tables (page_directory_index virt), page_table_index virt), sp)
unfolding get_page
get_page-present sp virt make fresh phys h = ground arith

pub get_page-make :
    (sp : Space) (virt fresh phys : ℕ)
    → sp.tables (page_directory_index virt) ≡ 0
    → get_page sp virt true fresh phys
      ≡ (some (fresh, page_table_index virt), add_table sp (page_directory_index virt) fresh phys)
unfolding get_page
get_page-make sp virt fresh phys h = ground arith

-- Making a page: with a fresh table address, not 0 and not in use, `get_page` returns an entry. The
-- directory stays a tree, every table that was there stays in place and keeps its entries, a missing
-- table is new, zeroed and present in the directory, and looking the address up again, without making
-- anything, gives the same entry.
pub get_page_make_lem :
    (sp : Space) (virt fresh phys : ℕ)
    → fresh ≢ 0
    → IsUnused sp fresh
    → IsTree sp
    → let (page, sp') = get_page sp virt true fresh phys in
      IsTree sp'
      × (get_page sp' virt false 0 0 ≡ (page, sp'))
      × ((d : ℕ)
          → sp.tables d ≢ 0
          → (sp'.tables d ≡ sp.tables d) × (sp'.memory (sp.tables d) ≡ sp.memory (sp.tables d)))
      × (sp.tables (page_directory_index virt) ≡ 0
          → (page ≡ some (fresh, page_table_index virt))
            × ((i : ℕ) → sp'.memory fresh i ≡ zero_pte)
            × ((sp'.entries (page_directory_index virt)).present ≡ 1))
get_page_make_lem sp virt fresh phys ne unused tree =
    elim (ℕ_discrete (sp.tables (page_directory_index virt)) 0) [
      | no has ↦ rw (get_page-present sp virt true fresh phys has) (
        tree,
        get_page-present sp virt false 0 0 has,
        (λ d nd. (refl, refl)),
        (λ z. absurd (has z)),
      )
      | yes z ↦ rw (get_page-make sp virt fresh phys z) (
        add_table-IsTree sp (page_directory_index virt) fresh phys unused tree,
        again z,
        kept z,
        (λ _. (refl, zeroed, present)),
      )
    ]
  where
    table :
        (add_table sp (page_directory_index virt) fresh phys).tables (page_directory_index virt)
        ≡ fresh
    table = unfold add_table in update_self sp.tables (page_directory_index virt) fresh

    again :
        sp.tables (page_directory_index virt) ≡ 0
        → get_page (add_table sp (page_directory_index virt) fresh phys) virt false 0 0 ≡ (
          some (fresh, page_table_index virt),
          add_table sp (page_directory_index virt) fresh phys,
        )
    again z =
        get_page-present (add_table sp (page_directory_index virt) fresh phys) virt false 0 0
          (rw table ne)
        ∙ rw table

    kept :
        sp.tables (page_directory_index virt) ≡ 0
        → (d : ℕ) → sp.tables d ≢ 0
        → ((add_table sp (page_directory_index virt) fresh phys).tables d ≡ sp.tables d)
          × ((add_table sp (page_directory_index virt) fresh phys).memory (sp.tables d)
              ≡ sp.memory (sp.tables d))
    kept z d nd =
        unfold add_table in
        (
          update_ne sp.tables (page_directory_index virt) d fresh (λ e. nd (ap sp.tables e ∙ z)),
          update_ne sp.memory fresh (sp.tables d) (λ _. zero_pte) (unused d),
        )

    zeroed :
        (i : ℕ) → (add_table sp (page_directory_index virt) fresh phys).memory fresh i ≡ zero_pte
    zeroed i = unfold add_table in ap (λ f. f i) (update_self sp.memory fresh (λ _. zero_pte))

    present :
        ((add_table sp (page_directory_index virt) fresh phys).entries
          (page_directory_index virt)).present
        ≡ 1
    present =
        unfold add_table in
        rw (
          update_self sp.entries (page_directory_index virt)
            (record (sp.entries (page_directory_index virt)) {
              present = 1;
              read_write = 1;
              user_supervisor = 1;
              page_table_base = phys / 2 ^ 12 % 2 ^ 20;
            }))

-- In a tree, two addresses of 32 bits that have an entry have the same one exactly if they lie in
-- the same page.
pub get_page-eq_iff :
    (sp : Space) (v w : ℕ)
    → v < 2 ^ 32
    → w < 2 ^ 32
    → IsTree sp
    → sp.tables (page_directory_index v) ≢ 0
    → sp.tables (page_directory_index w) ≢ 0
    → ((get_page sp v false 0 0).0 ≡ (get_page sp w false 0 0).0) ↔ (v / 4096 ≡ w / 4096)
get_page-eq_iff sp v w hv hw tree nv nw =
    rw (get_page-present sp v false 0 0 nv, get_page-present sp w false 0 0 nw)
      (
        (λ e.
            let t : sp.tables (page_directory_index v) ≡ sp.tables (page_directory_index w) = cc in
            let i : page_table_index v ≡ page_table_index w = cc in
            let d = tree.apart (page_directory_index v) (page_directory_index w) nv t in
            omega arith),
        (λ e.
            let d : page_directory_index v ≡ page_directory_index w = omega arith in
            let i : page_table_index v ≡ page_table_index w = omega arith in rw (d, i)),
      )
