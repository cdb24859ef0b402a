-- ===== src/CString/Tests.antt =====
-- Runs of the functions of kernel/string.c and witnesses of their properties.
use toutatis.Common.{◌≡◌, inr, refl, arith, ◌||◌, some, ◌==◌, if◌then◌else◌}
use toutatis.Common.Store.{update}
use toutatis.CString.{Memory, memmove, strlen, less, strcmp, strncmp, memcmp}
use toutatis.CString.Copy.{copied, memmove-copied}
use toutatis.CString.Measure.{IsString}
use toutatis.CString.Order.{PartAt}

-- "ab" at 100, "cd" at 200 and "ax" at 300.
abbrev words : Memory
words x =
    if x == 100 || x == 300
    then 97
    else (if x == 101
        then 98
        else (if x == 200 then 99 else (if x == 201 then 100 else (if x == 301 then 120 else 0))))

strlen_run : strlen 10 words 100 ≡ some 3
unfolding strlen
strlen_run = refl

strcmp_run : strcmp 10 words 100 300 ≡ some less
unfolding strcmp
strcmp_run = refl

strncmp_run : strncmp words 100 300 1 ≡ less
unfolding strncmp
strncmp_run = refl

memmove_run : memmove words 101 100 3 102 ≡ 98
unfolding memmove update
memmove_run = refl

memcmp_run : memcmp words 100 300 3 ≡ some (98, 120)
unfolding memcmp
memcmp_run = refl

ab-IsString : IsString words 100 2
ab-IsString = record { content = λ i h. ground arith; stop = refl }

cd-IsString : IsString words 200 2
cd-IsString = record { content = λ i h. ground arith; stop = refl }

ab_ax-PartAt : PartAt words 100 300 1
ab_ax-PartAt = record { before = λ i h. (ground arith, ground arith); here = inr (ground arith) }

memmove-copied_example : memmove words 101 100 3 102 ≡ copied words 101 100 3 102
memmove-copied_example = memmove-copied words 101 100 3 102
