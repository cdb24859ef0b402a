-- ===== src/Paging/Pages.antt =====
-- What one call of `alloc_page` or `free_page` does to the page and to the bitmap.
use toutatis.Common.{
  ℕ, ◌+◌, ◌*◌, ◌%◌, ◌^◌, ◌≤◌, ◌<◌, ◌≡◌, ◌≢◌, ◌⊎◌, inl, inr, arith, Bool, Option, none, some,
  Option-cases,
}
use toutatis.Frames.{Frames, first_free_frame, set_frame}
use toutatis.Frames.Marks.{mark}
use toutatis.Frames.Search.{Finding, hit, miss, IsFreeRun, first_free_frame-Finding}
use toutatis.Paging.{Pte, with_flags, alloc_page}

-- A frame for one page: a free one below the bound of the search, or none at all.
abbrev pub OneFree : Frames → Option ℕ → Type 0
OneFree s none = (g : ℕ) → g < s.nframes * 32 → mark s g ≢ 0
OneFree s (some f) = (f < s.nframes * 32) × (mark s f ≡ 0) × ((g : ℕ) → g < f → mark s g ≢ 0)

one_run : (s : Frames) (g : ℕ) → mark s g ≡ 0 → IsFreeRun s 1 g
one_run s g z k p = let e : g + k ≡ g = omega arith in rw e z

run_one : (s : Frames) (g : ℕ) → IsFreeRun s 1 g → mark s g ≡ 0
run_one s g run = let e : g + 0 ≡ g = omega arith in rw e at (run 0 (omega arith))

Finding-OneFree : (s : Frames) {o : Option ℕ} → Finding s 1 0 (s.nframes * 32) o → OneFree s o
Finding-OneFree s (hit f p q run first) =
    (q, run_one s f run, λ g a z. first g (omega arith) a (one_run s g z))
Finding-OneFree s (miss no_run) = λ g a z. no_run g (omega arith) a (one_run s g z)

pub first_free_frame-OneFree :
    (s : Frames) → s.nframes * 32 + 1 ≤ 2 ^ 32 → OneFree s (first_free_frame s)
first_free_frame-OneFree s fits = Finding-OneFree s (first_free_frame-Finding s fits)

-- A page that has a frame keeps it and takes the flags. A page that has none takes the first free
-- frame, which is marked, or, where every frame of the search is marked, nothing changes at all.
pub alloc_page_lem :
    (s : Frames) (page : Pte) (k w : Bool)
    → s.nframes * 32 + 1 ≤ 2 ^ 32
    → (page.frame ≢ 0 → alloc_page s page k w ≡ (s, with_flags page k w))
      × (page.frame ≡ 0
          → ((f : ℕ) × OneFree s (some f)
              × (alloc_page s page k w
                  ≡ (set_frame s f, with_flags (record page { frame = f % 2 ^ 20 }) k w)))
            ⊎ (OneFree s none × (alloc_page s page k w ≡ (s, page))))
unfolding alloc_page
alloc_page_lem s page k w fits = (
  (λ ne. ground arith),
  (λ e. elim (Option-cases (first_free_frame s)) [
    | inl full ↦ inr (rw full at (first_free_frame-OneFree s fits), rw (e, full))
    | inr (f, found) ↦ inl (f, rw found at (first_free_frame-OneFree s fits), rw (e, found))
  ]),
)
