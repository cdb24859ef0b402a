-- ===== src/Utils/Tests.antt =====
-- Runs of the conversions of kernel/utils.c and witnesses of their properties.
use toutatis.Common.{ℕ, ◌+◌, ◌-◌, ◌<◌, ◌^◌, ◌≡◌, refl, arith, some, ◌==◌, if◌then◌else◌}
use toutatis.CString.{Memory}
use toutatis.Utils.{itoa, strtol, atoi, atoi_spaces, atoi_digits}
use toutatis.Utils.Parse.{strtol-itoa}

-- The text " -1g" stands at 10, and the text "0x1f" at 20.
abbrev texts : Memory
texts x =
    if x == 10
    then b' '
    else (if x == 11
        then b'-'
        else (if x == 12
            then b'1'
            else (if x == 13
                then b'g'
                else (if x == 20
                    then b'0'
                    else (if x == 21
                        then b'x'
                        else (if x == 22 then b'1' else (if x == 23 then b'f' else 0)))))))

-- The letter `g` has the value 16 and is taken for a digit of base 16: 32 with a minus sign.
strtol_run : strtol 10 texts 10 16 ≡ some (2 ^ 32 - 32, some 14)
unfolding strtol
strtol_run = refl

-- With base 16 the prefix `0x` ends the number behind its zero.
strtol_prefix_run : strtol 10 texts 20 16 ≡ some (0, some 21)
unfolding strtol
strtol_prefix_run = refl

atoi_run : atoi 10 texts 20 ≡ some 31
unfolding atoi atoi_spaces atoi_digits
atoi_run = refl

strtol-itoa_example :
    (k : ℕ) × (m' : Memory) × (itoa 33 texts 700 30 36 ≡ some m')
    × (k < 34)
    × (strtol 34 m' 30 36 ≡ some (700, some (30 + k)))
strtol-itoa_example = strtol-itoa texts 700 30 36 (omega arith) (omega arith) (omega arith)
