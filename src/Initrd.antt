-- ===== src/Initrd.antt =====
-- The ram disk: the image that src/make_initrd.c writes, and kernel/initrd.c with kernel/initrd.h, which
-- reads it in memory. A file of the host is its content under its name, and a failed assertion is a
-- result. The local text that initrd_parse prints a name into is not read by anything and left out.
pub mod Words
pub mod Image
pub mod Offsets
mod Tests
use Prim.Native.Nat.{bit_and}
use toutatis.Common.{
  ℕ, zero, suc, ◌+◌, ◌*◌, ◌/◌, ◌%◌, ◌^◌, Bool, true, false, List, [], ◌∷◌, ◌++◌, length, drop,
  Option, none, some, ◌==◌, if◌then◌else◌,
}
use toutatis.Common.Store.{update}
use toutatis.CString.{Memory, equal, Sign, strcmp}

-- `struct initrd_header` of the builder and `initrd_file_header_t` of the kernel, with the three bytes
-- in front of `offset` that the compiler leaves free.
pub record Header : Type 0 where
  pub magic : ℕ
  pub name : List ℕ
  pub pad : List ℕ
  pub offset : ℕ
  pub size : ℕ

abbrev pub header_size : ℕ
header_size = 140

abbrev pub max_files : ℕ
max_files = 64

-- A number of 32 bits, the low byte first.
abbrev pub word_bytes : ℕ → List ℕ
word_bytes w = w % 256 ∷ w / 256 % 256 ∷ w / 65536 % 256 ∷ w / 16777216 % 256 ∷ []

abbrev pub header_bytes : Header → List ℕ
header_bytes h = h.magic ∷ (h.name ++ (h.pad ++ (word_bytes h.offset ++ word_bytes h.size)))

-- `strcpy` into the array of the name, for a name that fits.
abbrev pub copy_name : List ℕ → List ℕ → List ℕ
copy_name name old = name ++ 0 ∷ drop (length name + 1) old

-- The loop over the names from `i` on. `old` is what stands in the array before, and `fopen` the files of
-- the host; `none` is the return for a file that is not found.
unfoldable pub make_headers :
    (List ℕ → Option (List ℕ)) → (ℕ → Header) → ℕ → ℕ → List (List ℕ) → Option (List Header)
make_headers fopen old i off [] = some []
make_headers fopen old i off (name ∷ names) = elim (fopen name) [
  | none ↦ none
  | some content ↦ elim (make_headers fopen old (i + 1) ((off + length content) % 2 ^ 32) names) [
    | none ↦ none
    | some headers ↦ some (
        record (old i) {
          name = copy_name name (old i).name;
          offset = off;
          size = length content % 2 ^ 32;
          magic = 191;
        }
        ∷ headers)
  ]
]

abbrev pub all_headers : List Header → List ℕ
all_headers [] = []
all_headers (h ∷ hs) = header_bytes h ++ all_headers hs

-- The second loop over the names, which reads the files.
unfoldable pub contents : (List ℕ → Option (List ℕ)) → List (List ℕ) → List ℕ
contents fopen [] = []
contents fopen (name ∷ names) =
    elim (fopen name) as (λ _. List ℕ) [ none ↦ [] | some content ↦ content ]
    ++ contents fopen names

-- `main`: the bytes of the image, none if a file is not found.
unfoldable pub make_initrd :
    (List ℕ → Option (List ℕ)) → (ℕ → Header) → List (List ℕ) → Option (List ℕ)
make_initrd fopen old names = elim (make_headers fopen old 0 (header_size * max_files + 4) names) [
  | none ↦ none
  | some headers ↦ some (
      (b'I' ∷ b'N' ∷ b'I' ∷ b'T' ∷ b'R' ∷ b'D' ∷ 0 ∷ [])
      ++ (word_bytes (length names) ++ (all_headers headers ++ contents fopen names)))
]

abbrev pub read_word : Memory → ℕ → ℕ
read_word m a = m a + 256 * m (a + 1) + 65536 * m (a + 2) + 16777216 * m (a + 3)

unfoldable pub write_word : Memory → ℕ → ℕ → Memory
write_word m a w =
    update
      (update (update (update m a (w % 256)) (a + 1) (w / 256 % 256)) (a + 2) (w / 65536 % 256))
      (a + 3) (w / 16777216 % 256)

-- `&file_headers[i]` and the address of its `offset`.
abbrev pub header_at : ℕ → ℕ → ℕ
header_at location i = location + 11 + header_size * i

abbrev pub offset_at : ℕ → ℕ → ℕ
offset_at location i = header_at location i + 132

-- The loop from `i` on, with `left` headers to go.
unfoldable pub parse_from : Memory → ℕ → ℕ → ℕ → Memory
parse_from m location i zero = m
parse_from m location i (suc left) =
    let a = offset_at location i in
    parse_from (write_word m a ((read_word m a + location) % 2 ^ 32)) location (i + 1) left

unfoldable pub initrd_parse : Memory → ℕ → Memory
initrd_parse m location = parse_from m location 0 (read_word m (location + 7))

-- `struct multiboot_info`, as far as it is read.
pub record Multiboot : Type 0 where
  pub flags : ℕ
  pub mods_count : ℕ
  pub mods_addr : ℕ

-- How initrd_init ends: in an assertion, or with `initrd_location`, `placement_address` and the memory.
pub data Started : Type 0 where
  stopped : Started
  started : ℕ → ℕ → Memory → Started

abbrev pub is_equal : Sign → Bool
is_equal equal = true
is_equal other = false

-- `voffset` is the address of the symbol kernel_voffset, and `literal` that of the text INITRD; `none`
-- means that the fuel of the comparison ran out.
unfoldable pub initrd_init : ℕ → Memory → ℕ → ℕ → Multiboot → Option Started
initrd_init fuel m voffset literal mbi =
    let location = (read_word m mbi.mods_addr + voffset) % 2 ^ 32 in
    let end = (read_word m (mbi.mods_addr + 4) + voffset) % 2 ^ 32 in
    if bit_and mbi.flags 8 == 0
    then some stopped
    else (if mbi.mods_count == 0 then some stopped else elim (strcmp fuel m location literal) [
      | none ↦ none
      | some sign ↦
          some (if is_equal sign then started location end (initrd_parse m location) else stopped)
    ])
