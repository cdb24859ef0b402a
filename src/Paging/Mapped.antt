-- ===== src/Paging/Mapped.antt =====
-- The pages that `paging_finalize` of kernel/paging.c maps to low memory.
use toutatis.Common.{
  ℕ, zero, suc, ◌+◌, ◌-◌, ◌*◌, ◌/◌, ◌%◌, ◌^◌, ◌≤◌, ◌<◌, ◌≡◌, ◌≢◌, refl, sym, ◌∙◌, ap, ap₂, arith,
  true, false, ltb,
}
use native.Mathlib.Decide.{ℕ_discrete, dec_lt}
use toutatis.Common.Store.{update, update_self, update_ne}
use toutatis.Frames.{Frames}
use toutatis.Paging.{Pte, map_page}
use toutatis.Paging.Directory.{
  Space, page_directory_index, page_table_index, IsTree, get_page-present,
}
use toutatis.Paging.Finalize.{put_entry, map_found, map_kernel}

-- The entry of a virtual address whose table is there.
abbrev pub entry_of : Space → ℕ → Pte
entry_of sp virt = sp.memory (sp.tables (page_directory_index virt)) (page_table_index virt)

-- Every address from `low` up to `high` has a table.
abbrev pub HasTables : Space → ℕ → ℕ → Type 0
HasTables sp low high = (v : ℕ) → low ≤ v → v < high → sp.tables (page_directory_index v) ≢ 0

-- The page is present and leads to the frame.
abbrev pub LeadsTo : Pte → ℕ → Type 0
LeadsTo page f = (page.present ≡ 1) × (page.frame ≡ f)

entry_of-put_self :
    (sp : Space) (v : ℕ) (page : Pte)
    → entry_of (put_entry sp (sp.tables (page_directory_index v)) (page_table_index v) page) v
      ≡ page
entry_of-put_self sp v page =
    let t = sp.tables (page_directory_index v) in
    ap (λ (m : ℕ → Pte). m (page_table_index v))
      (update_self sp.memory t (update (sp.memory t) (page_table_index v) page))
    ∙ update_self (sp.memory t) (page_table_index v) page

pub entry_of-put_ne :
    (sp : Space) (v w : ℕ) (page : Pte)
    → IsTree sp
    → sp.tables (page_directory_index v) ≢ 0
    → v < 2 ^ 32
    → w < 2 ^ 32
    → v / 4096 ≢ w / 4096
    → entry_of (put_entry sp (sp.tables (page_directory_index v)) (page_table_index v) page) w
      ≡ entry_of sp w
entry_of-put_ne sp v w page tree has lv lw ne =
    let t = sp.tables (page_directory_index v) in
    let u = sp.tables (page_directory_index w) in
    let i = page_table_index v in
    let j = page_table_index w in
    elim (ℕ_discrete u t) [
      | no other ↦
          ap (λ (m : ℕ → Pte). m j) (update_ne sp.memory t u (update (sp.memory t) i page) other)
      | yes same ↦
          let d : page_directory_index v ≡ page_directory_index w =
            tree.apart (page_directory_index v) (page_directory_index w) has (sym same) in
          let apart : j ≢ i = λ e. ne (omega arith) in
          ap (λ (x : ℕ). update sp.memory t (update (sp.memory t) i page) x j) same
          ∙ ap (λ (m : ℕ → Pte). m j) (update_self sp.memory t (update (sp.memory t) i page))
          ∙ update_ne (sp.memory t) i j page apart
          ∙ ap (λ (x : ℕ). sp.memory x j) (sym same)
    ]

-- One page of the loop.
abbrev mapped : Frames → Space → ℕ → ℕ → Frames × Space
mapped s sp virt at =
    let page = map_page s (entry_of sp virt) false false at in
    (page.0, put_entry sp (sp.tables (page_directory_index virt)) (page_table_index virt) page.1)

map_kernel-step :
    (fresh phys : ℕ → ℕ) (placement rounds virt at : ℕ) (s : Frames) (sp : Space)
    → sp.tables (page_directory_index virt) ≢ 0
    → virt < placement
    → map_kernel fresh phys placement (suc rounds) virt at s sp
      ≡ map_kernel fresh phys placement rounds
          (virt + 4096)
          (at + 4096)
          (mapped s sp virt at).0
          (mapped s sp virt at).1
unfolding map_kernel map_found
map_kernel-step fresh phys placement rounds virt at s sp has inside =
    let here : ltb virt placement ≡ true = ground arith in
    rw (get_page-present sp virt true (fresh virt) (phys virt) has, here) refl

map_kernel-stop :
    (fresh phys : ℕ → ℕ) (placement rounds virt at : ℕ) (s : Frames) (sp : Space)
    → placement ≤ virt
    → map_kernel fresh phys placement rounds virt at s sp ≡ (s, sp)
unfolding map_kernel
map_kernel-stop fresh phys placement zero virt at s sp over = refl
map_kernel-stop fresh phys placement (suc rounds) virt at s sp over =
    let here : ltb virt placement ≡ false = ground arith in rw here refl

-- What the loop leaves for the page of `v`: it leads to low memory from `virt` on, and is left alone
-- before.
pub record Result (sp out : Space) (virt at v : ℕ) : Type 0 where
  pub leads : virt ≤ v → LeadsTo (entry_of out v) ((at + (v - virt)) / 4096)
  pub before : v < virt → entry_of out v ≡ entry_of sp v

Result-step :
    (s : Frames) (sp out : Space) (virt at v : ℕ)
    → IsTree sp
    → sp.tables (page_directory_index virt) ≢ 0
    → virt % 4096 ≡ 0
    → at % 4096 ≡ 0
    → at < 2 ^ 32
    → virt < 2 ^ 32
    → v < 2 ^ 32
    → Result (mapped s sp virt at).1 out (virt + 4096) (at + 4096) v
    → Result sp out virt at v
unfolding map_page
Result-step s sp out virt at v tree has even at_even low lv lw rest =
    let page = (map_page s (entry_of sp virt) false false at).1 in
    record {
      leads = λ from. elim (ℕ_discrete (v / 4096) (virt / 4096)) [
        | yes same ↦
            let d : page_directory_index v ≡ page_directory_index virt = omega arith in
            let i : page_table_index v ≡ page_table_index virt = omega arith in
            let e : entry_of out v ≡ page =
              rest.before (omega arith)
              ∙ ap₂ (λ a b. (mapped s sp virt at).1.memory (sp.tables a) b) d i
              ∙ entry_of-put_self sp virt page in
            let f : at / 4096 % 2 ^ 20 ≡ (at + (v - virt)) / 4096 = omega arith in
            (ap (λ (p : Pte). p.present) e, ap (λ (p : Pte). p.frame) e ∙ f)
        | no other ↦
            let place : at + 4096 + (v - (virt + 4096)) ≡ at + (v - virt) = omega arith in
            rw place at (rest.leads (omega arith))
      ];
      before = λ below.
          rest.before (omega arith)
          ∙ entry_of-put_ne sp virt v page tree has lv lw (λ e. absurd (omega arith));
    }

pub map_kernel-Result :
    (rounds : ℕ) (fresh phys : ℕ → ℕ) (placement virt at v : ℕ) (s : Frames) (sp : Space)
    → IsTree sp
    → HasTables sp virt placement
    → virt % 4096 ≡ 0
    → at % 4096 ≡ 0
    → placement ≤ virt + 4096 * rounds
    → at + 4096 * rounds < 2 ^ 32
    → placement < 2 ^ 32
    → v < placement
    → Result sp (map_kernel fresh phys placement rounds virt at s sp).1 virt at v
map_kernel-Result zero fresh phys placement virt at v s sp tree tables even at_even enough low small
      inside =
    rw (map_kernel-stop fresh phys placement 0 virt at s sp (omega arith))
      (record { leads = λ from. absurd (omega arith); before = λ below. refl })
map_kernel-Result (suc rounds) fresh phys placement virt at v s sp tree tables even at_even enough
      low small inside =
    elim (dec_lt virt placement) [
      | no over ↦
          rw (map_kernel-stop fresh phys placement (suc rounds) virt at s sp (omega arith))
            (record { leads = λ from. absurd (omega arith); before = λ below. refl })
      | yes here ↦
          let has = tables virt (omega arith) here in
          let (s1, sp1) = mapped s sp virt at in
          let tree1 : IsTree sp1 = record { apart = tree.apart } in
          let rest =
            map_kernel-Result rounds fresh phys placement (virt + 4096) (at + 4096) v s1 sp1 tree1
              (λ w from below. tables w (omega arith) below) (omega arith) (omega arith)
              (omega arith) (omega arith) small inside in
          Result-step s sp (map_kernel fresh phys placement (suc rounds) virt at s sp).1 virt at v
            tree has even at_even (omega arith) (omega arith) (omega arith)
            (rw (map_kernel-step fresh phys placement rounds virt at s sp has here) rest)
    ]

-- The loop changes no table.
pub map_kernel-tables :
    (rounds : ℕ) (fresh phys : ℕ → ℕ) (placement virt at : ℕ) (s : Frames) (sp : Space)
    → HasTables sp virt placement
    → (map_kernel fresh phys placement rounds virt at s sp).1.tables ≡ sp.tables
map_kernel-tables zero fresh phys placement virt at s sp tables = unfold map_kernel in refl
map_kernel-tables (suc rounds) fresh phys placement virt at s sp tables =
    elim (dec_lt virt placement) [
      | no over ↦
          rw (map_kernel-stop fresh phys placement (suc rounds) virt at s sp (omega arith)) refl
      | yes here ↦
          let (s1, sp1) = mapped s sp virt at in
          rw
            (map_kernel-step fresh phys placement rounds virt at s sp
              (tables virt (omega arith) here))
            (map_kernel-tables rounds fresh phys placement (virt + 4096) (at + 4096) s1 sp1
              (λ w from below. tables w (omega arith) below))
    ]
