-- ===== src/Utils.antt =====
-- Numbers and their texts: `itoa`, `strtol` and `atoi` of kernel/utils.c with the macros of
-- kernel/utils.h. Memory is that of kernel/string.c; an `int` or a `long` is the word of its 32 bits.
pub mod Digits
pub mod Itoa
pub mod Parse
mod Tests
use toutatis.Common.{
  ℕ, zero, suc, ◌+◌, ◌-◌, ◌*◌, ◌/◌, ◌%◌, ◌^◌, Bool, true, false, ◌&&◌, ◌||◌, Option, none, some,
  ◌==◌, ltb, leb, if◌then◌else◌,
}
use toutatis.Common.Store.{update}
use toutatis.CString.{Memory}

abbrev pub is_upper : ℕ → Bool
is_upper c = leb b'A' c && leb c b'Z'

abbrev pub to_lower : ℕ → ℕ
to_lower c = if is_upper c then c - b'A' + b'a' else c

abbrev pub is_alpha : ℕ → Bool
is_alpha c = leb b'a' c && leb c b'z' || leb b'A' c && leb c b'Z'

abbrev pub is_digit : ℕ → Bool
is_digit c = leb b'0' c && leb c b'9'

abbrev pub is_alnum : ℕ → Bool
is_alnum c = is_alpha c || is_digit c

-- The table of the digits in `itoa`.
abbrev pub digit_char : ℕ → ℕ
digit_char d = if ltb d 10 then b'0' + d else b'a' + (d - 10)

-- The loops run on fuel, `none` means that it ran out. The digits go out last one first; the result is
-- the memory and `ptr` behind them.
pub put_digits : ℕ → Memory → ℕ → ℕ → ℕ → Option (Memory × ℕ)
put_digits zero m value base ptr = none
put_digits (suc fuel) m value base ptr =
    let m1 = update m ptr (digit_char (value % base)) in
    let rest = put_digits fuel m1 (value / base) base (ptr + 1) in
    if value / base == 0 then some (m1, ptr + 1) else rest

-- `while (low < ptr)`: the bytes from both ends change places.
pub invert : ℕ → Memory → ℕ → ℕ → Option Memory
invert zero m low ptr = none
invert (suc fuel) m low ptr =
    let rest = invert fuel (update (update m low (m ptr)) ptr (m low)) (low + 1) (ptr - 1) in
    if ltb low ptr then rest else some m

pub itoa : ℕ → Memory → ℕ → ℕ → ℕ → Option Memory
unfolding put_digits invert
itoa fuel m value str base =
    if ltb base 2 || ltb 36 base
    then some (update m str 0)
    else elim (put_digits fuel m value base str) [
      | none ↦ none
      | some (m1, ptr) ↦ invert fuel (update m1 ptr 0) str (ptr - 1)
    ]

pub skip_spaces : ℕ → Memory → ℕ → Option ℕ
skip_spaces zero m buf = none
skip_spaces (suc fuel) m buf =
    let rest = skip_spaces fuel m (buf + 1) in
    if m buf == b' ' || m buf == 9 then rest else some buf

-- The value of a letter or a decimal digit.
abbrev pub char_value : ℕ → ℕ
char_value c = if is_alpha c then to_lower c - b'a' + 10 else c - b'0'

-- The value and the end of the digits. A letter ends them only if it is greater than the base.
pub read_digits : ℕ → Memory → ℕ → ℕ → ℕ → Option (ℕ × ℕ)
read_digits zero m base buf value = none
read_digits (suc fuel) m base buf value =
    let k = char_value (m buf) in
    let rest = read_digits fuel m base (buf + 1) ((value * base + k) % 2 ^ 32) in
    if is_alnum (m buf)
    then (if is_alpha (m buf) && ltb base k then some (value, buf) else rest)
    else some (value, buf)

-- `-` or `+` in front.
abbrev pub has_minus : Memory → ℕ → Bool
has_minus m buf = m buf == b'-'

abbrev pub skip_sign : Memory → ℕ → ℕ
skip_sign m buf = if m buf == b'-' || m buf == b'+' then buf + 1 else buf

-- The value, and what is written to `*endptr`: nothing for a base that is refused, also for base 0,
-- so that the code for base 0 is never reached.
pub strtol : ℕ → Memory → ℕ → ℕ → Option (ℕ × Option ℕ)
unfolding skip_spaces read_digits
strtol fuel m str base =
    if ltb base 2 || ltb 36 base then some (0, none) else elim (skip_spaces fuel m str) [
      | none ↦ none
      | some buf ↦ elim (read_digits fuel m base (skip_sign m buf) 0) [
        | none ↦ none
        | some (value, end) ↦
            some (if has_minus m buf then (2 ^ 32 - value) % 2 ^ 32 else value, some end)
      ]
    ]

-- A `char` as an `int`.
abbrev pub char_int : ℕ → ℕ
char_int c = if ltb c 128 then c else c + 2 ^ 32 - 256

abbrev pub atoi_char : ℕ → ℕ
atoi_char c = if is_alpha c then to_lower c - b'a' + 10 else (char_int c + 2 ^ 32 - b'0') % 2 ^ 32

unfoldable pub atoi_spaces : ℕ → Memory → ℕ → Option ℕ
atoi_spaces zero m str = none
atoi_spaces (suc fuel) m str =
    let rest = atoi_spaces fuel m (str + 1) in if m str == b' ' then rest else some str

unfoldable pub atoi_digits : ℕ → Memory → ℕ → ℕ → ℕ → Option ℕ
atoi_digits zero m base str n = none
atoi_digits (suc fuel) m base str n =
    let rest = atoi_digits fuel m base (str + 1) ((n * base + atoi_char (m str)) % 2 ^ 32) in
    if m str == 0 || m str == b' ' then some n else rest

-- A leading `0` means base 8, and `0x` base 16.
unfoldable pub atoi : ℕ → Memory → ℕ → Option ℕ
atoi fuel m str = elim (atoi_spaces fuel m str) [
  | none ↦ none
  | some s ↦
      if m s == b'0'
      then (if m (s + 1) == b'x'
          then atoi_digits fuel m 16 (s + 2) 0
          else atoi_digits fuel m 8 (s + 1) 0)
      else atoi_digits fuel m 10 s 0
]
