-- ===== src/Frames.antt =====
-- The bitmap of physical frames of kernel/paging.c.
-- `frames` points to memory: word `i` is what `frames[i]` reads, also past the end of the
-- allocation of `nframes / 8` bytes.
pub mod Marks
pub mod Search
pub mod Count
mod Tests
use toutatis.Common.{
  ℕ, zero, suc, ◌+◌, ◌-◌, ◌*◌, ◌/◌, ◌%◌, ◌^◌, Bool, true, false, Option, none, some, ◌==◌, ltb,
  if◌then◌else◌,
}
use toutatis.Common.Bits.{set_bit, clear_bit, mask_bit}
use toutatis.Common.Store.{update}

abbrev pub frame_size : ℕ
frame_size = 0x1000

abbrev pub full_word : ℕ
full_word = 0xffff_ffff

pub record Frames : Type 0 where
  pub words : ℕ → ℕ
  pub nframes : ℕ
  pub used : ℕ

abbrev pub bit_to_idx : ℕ → ℕ
bit_to_idx b = b / 32

abbrev pub bit_to_off : ℕ → ℕ
bit_to_off b = b % 32

-- The masked word; as the C `int` it is zero exactly when this is.
pub test_frame : Frames → ℕ → ℕ
test_frame s frame = mask_bit (s.words (bit_to_idx frame)) (bit_to_off frame)

pub set_frame : Frames → ℕ → Frames
unfolding test_frame
set_frame s frame =
    if test_frame s frame == 0
    then record s {
      words =
          update s.words (bit_to_idx frame)
            (set_bit (s.words (bit_to_idx frame)) (bit_to_off frame));
      used = (s.used + 1) % 2 ^ 32;
    }
    else s

-- The source compares the masked word with 1.
pub clear_frame : Frames → ℕ → Frames
unfolding test_frame
clear_frame s frame =
    if test_frame s frame == 1
    then record s {
      words =
          update s.words (bit_to_idx frame)
            (clear_bit (s.words (bit_to_idx frame)) (bit_to_off frame));
      used = (s.used + 2 ^ 32 - 1) % 2 ^ 32;
    }
    else s

-- `for (count = 1; count < num; ++count)`, with `left` rounds to go: the count at the exit.
pub run_length : Frames → ℕ → ℕ → ℕ → ℕ
unfolding test_frame
run_length s start count zero = count
run_length s start count (suc left) =
    let rest = run_length s start (count + 1) left in
    if test_frame s ((start + count) % 2 ^ 32) == 0 then rest else count

-- The loop over `j`, with `left` rounds to go.
pub search_word : Frames → ℕ → ℕ → ℕ → ℕ → Option ℕ
unfolding run_length
search_word s num i j zero = none
search_word s num i j (suc left) =
    let rest = search_word s num i (j + 1) left in
    if mask_bit (s.words i) j == 0
    then (if run_length s (i * 32 + j) 1 (num - 1) == num then some (i * 32 + j) else rest)
    else rest

-- What a word contributes: nothing when it is full.
pub search_at : Frames → ℕ → ℕ → Option ℕ
unfolding search_word
search_at s num i = if s.words i == full_word then none else search_word s num i 0 32

-- The loop over `i`, with `left` rounds to go.
pub search_words : Frames → ℕ → ℕ → ℕ → Option ℕ
unfolding search_at
search_words s num i zero = none
search_words s num i (suc left) = elim (search_at s num i) [
  | some f ↦ some f
  | none ↦ search_words s num (i + 1) left
]

-- `none` is the result -1.
pub first_free_frames : Frames → ℕ → Option ℕ
unfolding search_words
first_free_frames s num = if num == 0 then none else search_words s num 0 s.nframes

pub first_free_frame : Frames → Option ℕ
unfolding first_free_frames
first_free_frame s = first_free_frames s 1

-- The bits of a word that are set, from bit `j` on, with `left` rounds to go.
pub count_word : ℕ → ℕ → ℕ → ℕ → ℕ
count_word w j zero count = count
count_word w j (suc left) count =
    count_word w (j + 1) left (if mask_bit w j == 0 then count else (count + 1) % 2 ^ 32)

pub count_words : Frames → ℕ → ℕ → ℕ → ℕ
unfolding count_word
count_words s i zero count = count
count_words s i (suc left) count = count_words s (i + 1) left (count_word (s.words i) 0 32 count)

pub memory_used : Frames → ℕ
unfolding count_words
memory_used s = count_words s 0 s.nframes 0 * frame_size % 2 ^ 32

pub memory_total : Frames → ℕ
memory_total s = s.nframes * frame_size % 2 ^ 32

unfoldable pub paging_mark_reserved : Frames → ℕ → Frames
unfolding set_frame
paging_mark_reserved s address = set_frame s (address / frame_size)

-- `memset(frames, 0, nframes / 8)` clears the low bytes of the word at the end of the range.
abbrev pub cleared : ℕ → (ℕ → ℕ) → ℕ → ℕ
cleared bytes before i =
    if ltb i (bytes / 4)
    then 0
    else (if i == bytes / 4 then before i / 256 ^ (bytes % 4) * 256 ^ (bytes % 4) else before i)

-- `before` is the memory at the address that `kmalloc_a` returned.
pub paging_init : ℕ → (ℕ → ℕ) → Frames
paging_init mem_size before =
    let n = mem_size / frame_size in
    record { words = cleared (n / 8) before; nframes = n; used = 0 }
