-- ===== src/Heap/Resize.antt =====
-- `expand` and `contract` of kernel/mem_alloc.c: the pages at the end of the heap. `fresh` and `phys`
-- are the addresses that `kmalloc_ap` returns if a page table is missing for an address.
use toutatis.Common.{
  ℕ, zero, suc, ◌+◌, ◌-◌, ◌*◌, ◌/◌, ◌%◌, ◌^◌, ◌≤◌, ◌<◌, ◌≡◌, refl, ◌∙◌, arith, true, false, not,
  Bool-cases, inl, inr, Option, none, some, ◌==◌, ltb, leb, if◌then◌else◌,
}
use toutatis.Common.Store.{update}
use toutatis.Frames.{frame_size}
use toutatis.Paging.{alloc_page, free_page}
use toutatis.Paging.Directory.{Space, get_page}
use toutatis.Heap.{Allocator, add_word, sub_word}

-- The entry at a pointer. NULL is followed like any other pointer: it names the entry at address 0.
abbrev pub pointed : Option (ℕ × ℕ) → ℕ × ℕ
pointed none = (0, 0)
pointed (some entry) = entry

-- A page of the heap at the end is mapped, in the entry that `get_page` gives for it; the end moves up.
pub map_at : Allocator → ℕ × ℕ → Space → Allocator
map_at a (table, i) sp =
    let taken = alloc_page a.frames (sp.memory table i) a.supervisor (not a.readonly) in
    record a {
      frames = taken.0;
      page_dir = record sp { memory = update sp.memory table (update (sp.memory table) i taken.1) };
      end_address = add_word a.end_address frame_size;
    }

-- `while (end_address < new_end_address)`
pub grow : (ℕ → ℕ) → (ℕ → ℕ) → ℕ → ℕ → Allocator → Allocator
unfolding map_at
grow fresh phys zero new_end a = a
grow fresh phys (suc rounds) new_end a =
    let found = get_page a.page_dir a.end_address true (fresh a.end_address) (phys a.end_address) in
    let more = grow fresh phys rounds new_end (map_at a (pointed found.0) found.1) in
    if ltb a.end_address new_end then more else a

-- The next border of a page.
abbrev pub round_up : ℕ → ℕ
round_up x = if x % frame_size == 0 then x else add_word (x - x % frame_size) frame_size

-- There are at most as many rounds as pages below the new end.
pub expand : (ℕ → ℕ) → (ℕ → ℕ) → ℕ → Allocator → Allocator
unfolding grow
expand fresh phys new_end a =
    if leb new_end a.end_address
    then a
    else (if ltb (add_word a.start_address a.max_size) (round_up new_end)
        then a
        else grow fresh phys (round_up new_end / frame_size) (round_up new_end) a)

-- The last page is freed, in the entry that `get_page` gives for it; the end moves down.
unfoldable pub unmap_at : Allocator → ℕ × ℕ → Allocator
unmap_at a (table, i) =
    let freed = free_page a.frames (a.page_dir.memory table i) in
    record a {
      frames = freed.0;
      page_dir = record (a.page_dir) {
        memory = update a.page_dir.memory table (update (a.page_dir.memory table) i freed.1);
      };
      end_address = sub_word a.end_address frame_size;
    }

-- `while (end_address > new_end_address)`
unfoldable pub shrink : ℕ → ℕ → Allocator → Allocator
unfolding unmap_at
shrink zero new_end a = a
shrink (suc rounds) new_end a =
    let found = get_page a.page_dir (sub_word a.end_address frame_size) false 0 0 in
    let more = shrink rounds new_end (unmap_at a (pointed found.0)) in
    if ltb new_end a.end_address then more else a

-- Where the heap is to end: not before its least size.
abbrev pub lowest_end : ℕ → Allocator → ℕ
lowest_end new_end a =
    if ltb (sub_word (round_up new_end) a.start_address) a.min_size
    then add_word a.start_address a.min_size
    else round_up new_end

-- The new end, 0 if the heap does not become smaller.
unfoldable pub contract : ℕ → Allocator → ℕ × Allocator
unfolding shrink
contract new_end a =
    if leb a.end_address new_end
    then (0, a)
    else (let a1 = shrink (a.end_address / frame_size) (lowest_end new_end a) a in
        (a1.end_address, a1))

-- What no change of the size touches.
pub record SameBlocks (a b : Allocator) : Type 0 where
  pub tree : b.mem_tree ≡ a.mem_tree
  pub words : b.words ≡ a.words
  pub start : b.start_address ≡ a.start_address
  pub used : b.mem_used ≡ a.mem_used

map_at-SameBlocks :
    (a : Allocator) (entry : ℕ × ℕ) (sp : Space)
    → ((map_at a entry sp).end_address ≡ add_word a.end_address frame_size)
      × SameBlocks a (map_at a entry sp)
unfolding map_at
map_at-SameBlocks a (table, i) sp =
    (refl, record { tree = refl; words = refl; start = refl; used = refl })

unmap_at-SameBlocks :
    (a : Allocator) (entry : ℕ × ℕ)
    → ((unmap_at a entry).end_address ≡ sub_word a.end_address frame_size)
      × SameBlocks a (unmap_at a entry)
unfolding unmap_at
unmap_at-SameBlocks a (table, i) =
    (refl, record { tree = refl; words = refl; start = refl; used = refl })

SameBlocks-trans : (a b c : Allocator) → SameBlocks a b → SameBlocks b c → SameBlocks a c
SameBlocks-trans a b c p q = record {
  tree = q.tree ∙ p.tree;
  words = q.words ∙ p.words;
  start = q.start ∙ p.start;
  used = q.used ∙ p.used;
}

grow-end :
    (fresh phys : ℕ → ℕ) (rounds : ℕ) (new_end : ℕ) (a : Allocator)
    → a.end_address % 4096 ≡ 0
    → new_end % 4096 ≡ 0
    → new_end < 2 ^ 32
    → a.end_address ≤ new_end
    → new_end ≤ a.end_address + rounds * 4096
    → ((grow fresh phys rounds new_end a).end_address ≡ new_end)
      × SameBlocks a (grow fresh phys rounds new_end a)
unfolding grow
grow-end fresh phys zero new_end a ha hn small le enough =
    (omega arith, record { tree = refl; words = refl; start = refl; used = refl })
grow-end fresh phys (suc rounds) new_end a ha hn small le enough =
    elim (Bool-cases (ltb a.end_address new_end)) [
      | inr stop ↦
          rw stop (ground arith, record { tree = refl; words = refl; start = refl; used = refl })
      | inl go ↦
          let below : a.end_address < new_end = ground arith in
          let found =
            get_page a.page_dir a.end_address true (fresh a.end_address) (phys a.end_address) in
          let b = map_at a (pointed found.0) found.1 in
          let (end, same) = map_at-SameBlocks a (pointed found.0) found.1 in
          let (end', same') =
            grow-end fresh phys rounds new_end b (omega arith) hn small (omega arith)
              (omega arith) in
          rw go (end', SameBlocks-trans a b (grow fresh phys rounds new_end b) same same')
    ]

pub shrink-end :
    (rounds : ℕ) (new_end : ℕ) (a : Allocator)
    → a.end_address % 4096 ≡ 0
    → a.end_address < 2 ^ 32
    → new_end ≤ a.end_address + 4095
    → a.end_address ≤ new_end + rounds * 4096
    → ((shrink rounds new_end a).end_address ≡ new_end / 4096 * 4096)
      × SameBlocks a (shrink rounds new_end a)
unfolding shrink
shrink-end zero new_end a ha small le enough =
    (omega arith, record { tree = refl; words = refl; start = refl; used = refl })
shrink-end (suc rounds) new_end a ha small le enough =
    elim (Bool-cases (ltb new_end a.end_address)) [
      | inr stop ↦
          let above : a.end_address ≤ new_end = ground arith in
          rw stop (omega arith, record { tree = refl; words = refl; start = refl; used = refl })
      | inl go ↦
          let below : new_end < a.end_address = ground arith in
          let found =
            pointed (get_page a.page_dir (sub_word a.end_address frame_size) false 0 0).0 in
          let b = unmap_at a found in
          let (end, same) = unmap_at-SameBlocks a found in
          let (end', same') =
            shrink-end rounds new_end b (omega arith) (omega arith) (omega arith) (omega arith) in
          rw go (end', SameBlocks-trans a b (shrink rounds new_end b) same same')
    ]

round_up_bounds :
    (x : ℕ)
    → x + 4096 < 2 ^ 32
    → (x ≤ round_up x) × (round_up x % 4096 ≡ 0) × (round_up x < x + 4096)
round_up_bounds x h = (ground arith, ground arith, ground arith)

round_up-le : (x e : ℕ) → e % 4096 ≡ 0 → e < 2 ^ 32 → x < e → (x ≤ round_up x) × (round_up x ≤ e)
round_up-le x e he small h = (ground arith, ground arith)

-- The greater of a border and the least end.
pick_end :
    (q s least e : ℕ)
    → s ≤ q
    → q ≤ e
    → s + least ≤ e
    → e < 2 ^ 32
    → let picked = if ltb (sub_word q s) least then add_word s least else q in
      (picked ≤ e) × (q ≤ picked) × (s + least ≤ picked)
pick_end q s least e hq he hl small =
    let d : sub_word q s ≡ q - s = omega arith in
    let t : add_word s least ≡ s + least = omega arith in rw (d, t) (ground arith)

pub lowest_end_bounds :
    (new_end : ℕ) (a : Allocator)
    → a.end_address % 4096 ≡ 0
    → a.end_address < 2 ^ 32
    → new_end < a.end_address
    → a.start_address ≤ new_end
    → a.start_address + a.min_size ≤ a.end_address
    → (new_end ≤ lowest_end new_end a)
      × (lowest_end new_end a ≤ a.end_address)
      × (a.start_address + a.min_size ≤ lowest_end new_end a)
lowest_end_bounds new_end a ha small less from least =
    let (up, below) = round_up-le new_end a.end_address ha small less in
    let (p, q, r) =
      pick_end (round_up new_end) a.start_address a.min_size a.end_address (omega arith) below least
        small in
    (omega arith, p, r)

-- `expand` moves the end up to the next page border, unless the heap is big enough or would become too
-- big: then it changes nothing. The blocks stay as they are.
pub expand_lem :
    (fresh phys : ℕ → ℕ) (new_end : ℕ) (a : Allocator)
    → a.end_address % 4096 ≡ 0
    → new_end + 4096 < 2 ^ 32
    → a.start_address + a.max_size < 2 ^ 32
    → ((a.end_address < new_end
          → round_up new_end ≤ a.start_address + a.max_size
          → ((expand fresh phys new_end a).end_address ≡ round_up new_end)
            × SameBlocks a (expand fresh phys new_end a))
        × (new_end ≤ a.end_address → expand fresh phys new_end a ≡ a)
        × (a.start_address + a.max_size < round_up new_end → expand fresh phys new_end a ≡ a))
unfolding expand
expand_lem fresh phys new_end a ha small fits = (
  λ more allowed.
      let not_yet : leb new_end a.end_address ≡ false = ground arith in
      let room : ltb (add_word a.start_address a.max_size) (round_up new_end) ≡ false =
        (let e : add_word a.start_address a.max_size ≡ a.start_address + a.max_size = omega arith in
          rw e (ground arith)) in
      let (up, aligned, close) = round_up_bounds new_end small in
      rw (not_yet, room)
        (grow-end fresh phys (round_up new_end / 4096) (round_up new_end) a ha aligned (omega arith)
          (omega arith) (omega arith)),
  λ enough. (let t : leb new_end a.end_address ≡ true = ground arith in rw t refl),
  λ over. elim (Bool-cases (leb new_end a.end_address)) [
    | inl t ↦ rw t refl
    | inr f ↦
        let t : ltb (add_word a.start_address a.max_size) (round_up new_end) ≡ true =
          (let e : add_word a.start_address a.max_size ≡ a.start_address + a.max_size =
              omega arith in
            rw e (ground arith)) in
        rw (f, t) refl
  ],
)
