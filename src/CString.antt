-- ===== src/CString.antt =====
-- Bytes of memory and the functions of kernel/string.c. Memory is a function from addresses to bytes, and
-- a buffer does not cross the top of the address space, so that sums of addresses do not wrap.
pub mod Bytes
pub mod Copy
pub mod Measure
pub mod Strings
pub mod Order
mod Tests
use toutatis.Common.{
  ℕ, zero, suc, ◌+◌, ◌-◌, ◌*◌, ◌/◌, ◌%◌, ◌^◌, Bool, true, false, not, ◌&&◌, ◌||◌, Option, none,
  some, ◌==◌, ltb, if◌then◌else◌,
}
use toutatis.Common.Store.{update}

abbrev pub Memory : Type 0
Memory = ℕ → ℕ

-- `rep movsb`: bytes from the front.
pub copy_bytes : Memory → ℕ → ℕ → ℕ → Memory
copy_bytes m d s zero = m
copy_bytes m d s (suc n) = copy_bytes (update m d (m s)) (d + 1) (s + 1) n

-- A word of four bytes is read whole and then written.
abbrev pub copy_word : Memory → ℕ → ℕ → Memory
copy_word m d s =
    update (update (update (update m d (m s)) (d + 1) (m (s + 1))) (d + 2) (m (s + 2))) (d + 3)
      (m (s + 3))

-- `rep movsl`: words from the front.
pub copy_words : Memory → ℕ → ℕ → ℕ → Memory
copy_words m d s zero = m
copy_words m d s (suc n) = copy_words (copy_word m d s) (d + 4) (s + 4) n

-- `(dst | src | n) & 3` is zero exactly when all three are multiples of four.
abbrev pub is_aligned : ℕ → ℕ → ℕ → Bool
is_aligned dst src n = dst % 4 == 0 && src % 4 == 0 && n % 4 == 0

pub memcpy : Memory → ℕ → ℕ → ℕ → Memory
unfolding copy_bytes copy_words
memcpy m dst src n =
    if is_aligned dst src n then copy_words m dst src (n / 4) else copy_bytes m dst src n

pub memset : Memory → ℕ → ℕ → ℕ → Memory
memset m ptr value zero = m
memset m ptr value (suc n) = memset (update m ptr (value % 256)) (ptr + 1) value n

-- `n` counts words of two bytes, the low byte first.
pub memsetw : Memory → ℕ → ℕ → ℕ → Memory
memsetw m ptr value zero = m
memsetw m ptr value (suc n) =
    memsetw (update (update m ptr (value % 256)) (ptr + 1) (value / 256 % 256)) (ptr + 2) value n

-- The loops of `memmove`: from the back, by bytes and by words.
pub copy_bytes_back : Memory → ℕ → ℕ → ℕ → Memory
copy_bytes_back m d s zero = m
copy_bytes_back m d s (suc i) = copy_bytes_back (update m (d + i) (m (s + i))) d s i

pub copy_words_back : Memory → ℕ → ℕ → ℕ → Memory
copy_words_back m d s zero = m
copy_words_back m d s (suc i) = copy_words_back (copy_word m (d + 4 * i) (s + 4 * i)) d s i

pub memmove : Memory → ℕ → ℕ → ℕ → Memory
unfolding memcpy copy_bytes_back copy_words_back
memmove m dst src n =
    if ltb dst src
    then memcpy m dst src n
    else (if is_aligned dst src n
        then copy_words_back m dst src (n / 4)
        else copy_bytes_back m dst src n)

-- The loops over a string run on fuel, `none` means that it ran out. `while (str[ret++]);` from `ret` on:
-- the value of `ret` behind the loop.
pub scan : ℕ → Memory → ℕ → ℕ → Option ℕ
scan zero m str ret = none
scan (suc fuel) m str ret =
    let rest = scan fuel m str (ret + 1) in if m (str + ret) == 0 then some (ret + 1) else rest

pub strlen : ℕ → Memory → ℕ → Option ℕ
unfolding scan
strlen fuel m str = scan fuel m str 0

-- `for (i = 0; src[i]; ++i) dst[i] = src[i];` and the final zero.
pub strcpy_loop : ℕ → Memory → ℕ → ℕ → ℕ → Option Memory
strcpy_loop zero m dst src i = none
strcpy_loop (suc fuel) m dst src i =
    let rest = strcpy_loop fuel (update m (dst + i) (m (src + i))) dst src (i + 1) in
    if m (src + i) == 0 then some (update m (dst + i) 0) else rest

pub strcpy : ℕ → Memory → ℕ → ℕ → Option Memory
unfolding strcpy_loop
strcpy fuel m dst src = strcpy_loop fuel m dst src 0

pub strncpy_loop : Memory → ℕ → ℕ → ℕ → ℕ → Memory
strncpy_loop m dst src zero i = update m (dst + i) 0
strncpy_loop m dst src (suc n) i =
    let rest = strncpy_loop (update m (dst + i) (m (src + i))) dst src n (i + 1) in
    if m (src + i) == 0 then update m (dst + i) 0 else rest

pub strncpy : Memory → ℕ → ℕ → ℕ → Memory
unfolding strncpy_loop
strncpy m dst src n = strncpy_loop m dst src n 0

pub strcat : ℕ → Memory → ℕ → ℕ → Option Memory
unfolding strlen strcpy
strcat fuel m dst src = elim (strlen fuel m dst) [
  | none ↦ none
  | some offset ↦ strcpy fuel m (dst + offset) src
]

-- `while (str[ret++] && n--);`, where `n` is also tested when it is zero.
pub strnlen_loop : Memory → ℕ → ℕ → ℕ → ℕ
strnlen_loop m str zero ret = ret + 1
strnlen_loop m str (suc n) ret =
    let rest = strnlen_loop m str n (ret + 1) in if m (str + ret) == 0 then ret + 1 else rest

pub strnlen : Memory → ℕ → ℕ → ℕ
unfolding strnlen_loop
strnlen m str n = strnlen_loop m str n 0

-- The results of a comparison of strings, -1, 0 and 1.
pub data Sign : Type 0 where
  less equal greater : Sign

-- A byte as the signed `char` that it is, shifted by 128 so that the order is kept.
abbrev pub char_rank : ℕ → ℕ
char_rank c = (c + 128) % 256

abbrev pub compare_chars : ℕ → ℕ → Sign
compare_chars a b =
    if ltb (char_rank b) (char_rank a) then greater else (if a == b then equal else less)

-- `s1[i] != 0 && s1[i] == s2[i]`
abbrev pub goes_on : ℕ → ℕ → Bool
goes_on a b = not (a == 0) && a == b

pub strcmp_loop : ℕ → Memory → ℕ → ℕ → ℕ → Option Sign
strcmp_loop zero m s1 s2 i = none
strcmp_loop (suc fuel) m s1 s2 i =
    let rest = strcmp_loop fuel m s1 s2 (i + 1) in
    if goes_on (m (s1 + i)) (m (s2 + i))
    then rest
    else some (compare_chars (m (s1 + i)) (m (s2 + i)))

pub strcmp : ℕ → Memory → ℕ → ℕ → Option Sign
unfolding strcmp_loop
strcmp fuel m s1 s2 = strcmp_loop fuel m s1 s2 0

pub strncmp_loop : Memory → ℕ → ℕ → ℕ → ℕ → Sign
strncmp_loop m s1 s2 zero i = compare_chars (m (s1 + i)) (m (s2 + i))
strncmp_loop m s1 s2 (suc n) i =
    let rest = strncmp_loop m s1 s2 n (i + 1) in
    if goes_on (m (s1 + i)) (m (s2 + i)) then rest else compare_chars (m (s1 + i)) (m (s2 + i))

pub strncmp : Memory → ℕ → ℕ → ℕ → Sign
unfolding strncmp_loop
strncmp m s1 s2 n = strncmp_loop m s1 s2 n 0

-- The two bytes of the first difference, none if there is none.
pub memcmp_loop : Memory → ℕ → ℕ → ℕ → ℕ → Option (ℕ × ℕ)
memcmp_loop m p1 p2 i zero = none
memcmp_loop m p1 p2 i (suc left) =
    let rest = memcmp_loop m p1 p2 (i + 1) left in
    if m (p1 + i) == m (p2 + i) then rest else some (m (p1 + i), m (p2 + i))

-- The result is the difference of the two bytes, none for 0.
pub memcmp : Memory → ℕ → ℕ → ℕ → Option (ℕ × ℕ)
unfolding memcmp_loop
memcmp m p1 p2 n = memcmp_loop m p1 p2 0 n

-- `none` is NULL.
pub memchr : Memory → ℕ → ℕ → ℕ → Option ℕ
memchr m ptr value zero = none
memchr m ptr value (suc n) =
    let rest = memchr m (ptr + 1) value n in if m ptr == value then some ptr else rest
