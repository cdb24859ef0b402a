-- ===== src/Frames/Tests.antt =====
-- Runs of the bitmap functions on a small machine, and the theorems at its state.
use toutatis.Common.{◌≡◌, refl, arith, none, some, ◌==◌, if◌then◌else◌}
use toutatis.Common.Bits.{bit, mask_bit}
use toutatis.Frames.{Frames, test_frame, clear_frame, first_free_frames, memory_used}
use toutatis.Frames.Search.{Finding, first_free_frames-Finding}
use toutatis.Frames.Count.{marked, IsCounted}

-- 64 frames, of which 0, 1, 2 and 33 are marked.
abbrev small : Frames
small = record {
  words = λ i. if i == 0 then 7 else (if i == 1 then 2 else 0);
  nframes = 64;
  used = 4;
}

small_runs :
    (first_free_frames small 1 ≡ some 3)
    × (first_free_frames small 31 ≡ some 34)
    × (first_free_frames small 0 ≡ none)
    × (memory_used small ≡ 0x4000)
    × (test_frame small 33 ≡ 2)
    × ((clear_frame small 33).used ≡ 4)
    × ((clear_frame small 0).used ≡ 3)
unfolding first_free_frames memory_used clear_frame test_frame mask_bit bit
small_runs = (refl, refl, refl, refl, refl, refl, refl)

small-IsCounted : IsCounted small
unfolding marked bit
small-IsCounted = refl

first_free_frames-Finding_example : Finding small 31 0 2048 (first_free_frames small 31)
first_free_frames-Finding_example = first_free_frames-Finding small 31 (omega arith) (omega arith)
