-- ===== src/Paging/Owned.antt =====
-- The pages of the machine and the bitmap together, for `alloc_page` and `free_page` of kernel/paging.c.
use native.Mathlib.Decide.{ℕ_discrete}
use toutatis.Common.{
  ℕ, ◌*◌, ◌%◌, ◌^◌, ◌≤◌, ◌<◌, ◌≡◌, ◌≢◌, refl, sym, ◌∙◌, inl, inr, arith, Bool, false, Option-cases,
  Bool-cases, ◌==◌,
}
use toutatis.Common.Store.{update, update_self, update-cases}
use toutatis.Frames.{Frames, first_free_frame, set_frame, clear_frame}
use toutatis.Frames.Marks.{
  mark, mark-set_self, mark-set_ne, mark-clear_ne, nframes-set, nframes-clear, clear_frame_lem,
}
use toutatis.Paging.{Pte, with_flags, take_frame, alloc_page, free_page}
use toutatis.Paging.Pages.{alloc_page_lem}

-- The bitmap and every page table entry, by some numbering of the entries.
pub record Machine : Type 0 where
  pub bitmap : Frames
  pub pages : ℕ → Pte

-- Every frame of a page is marked, and belongs to that page alone. The first frame is reserved, so 0
-- stands for none.
pub record IsOwned (m : Machine) : Type 0 where
  pub reserved : mark m.bitmap 0 ≡ 1
  pub held : (i : ℕ) → (m.pages i).frame ≢ 0 → mark m.bitmap (m.pages i).frame ≡ 1
  pub alone : (i j : ℕ) → (m.pages i).frame ≢ 0 → (m.pages i).frame ≡ (m.pages j).frame → i ≡ j

pub alloc_at : Machine → ℕ → Bool → Bool → Machine
alloc_at m i k w =
    let (s, page) = alloc_page m.bitmap (m.pages i) k w in
    record { bitmap = s; pages = update m.pages i page }

pub free_at : Machine → ℕ → Machine
free_at m i =
    let (s, page) = free_page m.bitmap (m.pages i) in
    record { bitmap = s; pages = update m.pages i page }

-- The kernel asks for pages and gives them back in any order.
pub data Step : Machine → Machine → Type 0 where
  alloc : (m : Machine) (i : ℕ) (k w : Bool) → Step m (alloc_at m i k w)
  free : (m : Machine) (i : ℕ) → Step m (free_at m i)

pub data Reach (m : Machine) : Machine → Type 0 where
  here : Reach m m
  next : {t u : Machine} → Reach m t → Step t u → Reach m u

-- The search never passes the twenty bits of the frame number.
abbrev pub IsSmall : Machine → Type 0
IsSmall m = m.bitmap.nframes * 32 ≤ 2 ^ 20

-- One entry takes `page`, the frame of which is not held by any other entry, and the bitmap `s`
-- keeps every mark that another entry relies on.
replace-IsOwned :
    (m : Machine) (s : Frames) (i : ℕ) (page : Pte)
    → IsOwned m
    → mark s 0 ≡ 1
    → (page.frame ≢ 0 → mark s page.frame ≡ 1)
    → ((j : ℕ) → j ≢ i → (m.pages j).frame ≢ 0 → mark s (m.pages j).frame ≡ 1)
    → ((j : ℕ) → j ≢ i → page.frame ≢ 0 → (m.pages j).frame ≢ page.frame)
    → IsOwned (record { bitmap = s; pages = update m.pages i page })
replace-IsOwned m s i page own zero_marked page_held others_held apart = record {
  reserved = zero_marked;
  held = λ j ne. elim (update-cases m.pages i j page) [
    | inl (e, u) ↦ rw u (page_held (rw u at ne))
    | inr (n, u) ↦ rw u (others_held j n (rw u at ne))
  ];
  alone = λ j l ne e. elim (update-cases m.pages i j page) [
    | inl (ej, uj) ↦ elim (update-cases m.pages i l page) [
      | inl (el, ul) ↦ ej ∙ sym el
      | inr (nl, ul) ↦ absurd (apart l nl (rw uj at ne) (sym (rw (uj, ul) at e)))
    ]
    | inr (nj, uj) ↦ elim (update-cases m.pages i l page) [
      | inl (el, ul) ↦
          let e' : (m.pages j).frame ≡ page.frame = rw (uj, ul) at e in
          absurd (apart j nj (rw e' at (rw uj at ne)) e')
      | inr (nl, ul) ↦ own.alone j l (rw uj at ne) (rw (uj, ul) at e)
    ]
  ];
}

alloc_at-IsOwned :
    (m : Machine) (i : ℕ) (k w : Bool) → IsSmall m → IsOwned m → IsOwned (alloc_at m i k w)
unfolding alloc_at
alloc_at-IsOwned m i k w small own =
    let (keep, take) = alloc_page_lem m.bitmap (m.pages i) k w (omega arith) in
    elim (ℕ_discrete (m.pages i).frame 0) [
      | no has ↦ rw (keep has) (
          replace-IsOwned m m.bitmap i (with_flags (m.pages i) k w) own own.reserved (own.held i)
            (λ j n ne. own.held j ne) (λ j n ne e. n (sym (own.alone i j ne (sym e)))))
      | yes z ↦ elim (take z) [
        | inr (full, e) ↦ rw e (
            replace-IsOwned m m.bitmap i (m.pages i) own own.reserved (own.held i)
              (λ j n ne. own.held j ne) (λ j n ne e. n (sym (own.alone i j ne (sym e)))))
        | inl (f, (bound, is_free, first), e) ↦
            let fit : f % 2 ^ 20 ≡ f = omega arith in
            let ne_f : (g : ℕ) → mark m.bitmap g ≡ 1 → f ≢ g =
              λ g one eq. let one' : mark m.bitmap f ≡ 1 = rw eq one in omega arith in
            let keeps : (g : ℕ) → mark m.bitmap g ≡ 1 → mark (set_frame m.bitmap f) g ≡ 1 =
              λ g one. mark-set_ne m.bitmap f g (ne_f g one) ∙ one in
            rw e (
              replace-IsOwned m (set_frame m.bitmap f) i
                (with_flags (record (m.pages i) { frame = f % 2 ^ 20 }) k w) own
                (keeps 0 own.reserved) (λ ne. rw fit (mark-set_self m.bitmap f))
                (λ j n ne. keeps (m.pages j).frame (own.held j ne))
                (λ j n ne eq.
                  let eq' : f ≡ (m.pages j).frame = sym (eq ∙ fit) in
                  ne_f (m.pages j).frame (own.held j (λ z. ne (sym eq ∙ z))) eq'))
      ]
    ]

clear_keeps :
    (m : Machine) (i : ℕ)
    → IsOwned m
    → (m.pages i).frame ≢ 0
    → (g : ℕ) → (m.pages i).frame ≢ g
    → mark m.bitmap g ≡ 1
    → mark (clear_frame m.bitmap (m.pages i).frame) g ≡ 1
clear_keeps m i own has g ne one = mark-clear_ne m.bitmap (m.pages i).frame g ne ∙ one

free_at-IsOwned : (m : Machine) (i : ℕ) → IsOwned m → IsOwned (free_at m i)
unfolding free_at free_page
free_at-IsOwned m i own = elim (Bool-cases ((m.pages i).frame == 0)) [
  | inl z ↦ rw z (
      replace-IsOwned m m.bitmap i (record (m.pages i) { present = 0; frame = 0 }) own own.reserved
        (λ ne. absurd (ne refl)) (λ j n ne. own.held j ne) (λ j n ne. absurd (ne refl)))
  | inr has ↦
      let ne0 : (m.pages i).frame ≢ 0 = ground arith in
      rw has (
        replace-IsOwned m (clear_frame m.bitmap (m.pages i).frame) i
          (record (m.pages i) { present = 0; frame = 0 }) own
          (clear_keeps m i own ne0 0 ne0 own.reserved) (λ ne. absurd (ne refl))
          (λ j n ne.
            clear_keeps m i own ne0 (m.pages j).frame (λ e. n (sym (own.alone i j ne0 e)))
              (own.held j ne))
          (λ j n ne. absurd (ne refl)))
]

nframes-alloc :
    (m : Machine) (i : ℕ) (k w : Bool) → (alloc_at m i k w).bitmap.nframes ≡ m.bitmap.nframes
unfolding alloc_at alloc_page take_frame
nframes-alloc m i k w = elim (Option-cases (first_free_frame m.bitmap)) [
  | inl e ↦ rw e (ground arith)
  | inr (f, e) ↦ rw e (ground (arith, nframes-set m.bitmap f))
]

nframes-free : (m : Machine) (i : ℕ) → (free_at m i).bitmap.nframes ≡ m.bitmap.nframes
unfolding free_at free_page
nframes-free m i = ground (arith, nframes-clear m.bitmap (m.pages i).frame)

Step-IsOwned : {t u : Machine} → Step t u → IsSmall t → IsOwned t → IsSmall u × IsOwned u
Step-IsOwned (alloc m i k w) small own =
    (omega (arith, nframes-alloc m i k w), alloc_at-IsOwned m i k w small own)
Step-IsOwned (free m i) small own = (omega (arith, nframes-free m i), free_at-IsOwned m i own)

Reach-IsSmall : {m t : Machine} → Reach m t → IsSmall m → IsOwned m → IsSmall t × IsOwned t
Reach-IsSmall here small own = (small, own)
Reach-IsSmall (next r st) small own =
    let (small', own') = Reach-IsSmall r small own in Step-IsOwned st small' own'

-- With at most 128 MB of memory (the bits that the search visits, 32 for each frame, are no more than
-- 2 ^ 20), and if at the start frame 0 is reserved and every frame that a page holds is marked in the
-- bitmap and held by no other page, that stays so however `alloc_page` and `free_page` are called, in
-- any order and on any pages.
pub Reach-IsOwned : {m t : Machine} → IsSmall m → IsOwned m → Reach m t → IsOwned t
Reach-IsOwned small own r = (Reach-IsSmall r small own).1

-- A freed page is absent and has no frame, and its frame goes back to the bitmap exactly if it is the
-- first of a word of the bitmap: any other frame stays marked, though no page holds it.
pub free_at_lem :
    (m : Machine) (i : ℕ)
    → IsOwned m
    → (m.pages i).frame ≢ 0
    → (((free_at m i).pages i).present ≡ 0)
      × (((free_at m i).pages i).frame ≡ 0)
      × ((m.pages i).frame % 32 ≡ 0 → mark (free_at m i).bitmap (m.pages i).frame ≡ 0)
      × (0 < (m.pages i).frame % 32 → (free_at m i).bitmap ≡ m.bitmap)
unfolding free_at free_page
free_at_lem m i own ne =
    let has : ((m.pages i).frame == 0) ≡ false = ground arith in
    let (others, n, first, unmarked, later) = clear_frame_lem m.bitmap (m.pages i).frame in
    let u = update_self m.pages i (record (m.pages i) { present = 0; frame = 0 }) in
    rw has (rw u refl, rw u refl, (λ z. (first z (own.held i ne)).0), later)
