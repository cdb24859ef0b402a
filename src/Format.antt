-- ===== src/Format.antt =====
-- `number` of kernel/vsprintf.c: a number as text, with flags, width and precision. An `int` is the word
-- of its 32 bits. What goes out through `str` is a list of bytes.
pub mod Padding
pub mod Layout
pub mod Value
pub mod Vsprintf
pub mod Plain
pub mod Reading
pub mod Conversion
pub mod Directive
pub mod Letter
pub mod Asked
mod Tests
use toutatis.Common.{
  ℕ, zero, suc, ◌+◌, ◌-◌, ◌/◌, ◌%◌, ◌^◌, Bool, true, false, not, ◌&&◌, ◌||◌, List, [], ◌∷◌, ◌++◌,
  length, reverse, ◌==◌, ltb, leb, if◌then◌else◌,
}
use toutatis.Common.Store.{update}
use toutatis.CString.{Memory}

-- The bits of `flags`.
pub record Flags : Type 0 where
  pub left : Bool
  pub plus : Bool
  pub signed : Bool
  pub space : Bool
  pub prefix : Bool
  pub zeros : Bool
  pub large : Bool

abbrev pub sub_int : ℕ → ℕ → ℕ
sub_int a b = (a + 2 ^ 32 - b) % 2 ^ 32

-- `a < b` of two values of type `int`.
abbrev pub lt_int : ℕ → ℕ → Bool
lt_int a b = ltb ((a + 2 ^ 31) % 2 ^ 32) ((b + 2 ^ 31) % 2 ^ 32)

-- `digits_lower` and `digits_upper`
abbrev pub digit_of : Bool → ℕ → ℕ
digit_of large d = if ltb d 10 then b'0' + d else (if large then b'A' else b'a') + (d - 10)

-- The digits, the last one first; fuel for each binary digit.
unfoldable pub digits_of : ℕ → Bool → ℕ → ℕ → List ℕ
digits_of zero large base num = []
digits_of (suc fuel) large base num =
    let rest = digits_of fuel large base (num / base) in
    if num == 0 then [] else digit_of large (num % base) ∷ rest

-- What stands in `buffer` before it is turned round.
unfoldable pub number_buffer : Bool → ℕ → ℕ → List ℕ
number_buffer large base num = if num == 0 then b'0' ∷ [] else digits_of 32 large base num

-- `while (width-- > 0)`: the bytes, and `width` behind the loop. A positive width is enough fuel.
unfoldable pub pad_loop : ℕ → ℕ → ℕ → List ℕ × ℕ
pad_loop zero c width = ([], sub_int width 1)
pad_loop (suc fuel) c width =
    let (out, end) = pad_loop fuel c (sub_int width 1) in
    if lt_int 0 width then (c ∷ out, end) else ([], sub_int width 1)

-- `while (i < precision--)`
unfoldable pub zeros_loop : ℕ → ℕ → ℕ → List ℕ
zeros_loop zero i precision = []
zeros_loop (suc fuel) i precision =
    let out = zeros_loop fuel i (sub_int precision 1) in
    if lt_int i precision then b'0' ∷ out else []

-- The sign, 0 for none, and the number without it.
unfoldable pub sign_of : Flags → ℕ → ℕ × ℕ
sign_of flags num =
    if flags.signed
    then (if leb (2 ^ 31) num
        then (b'-', sub_int 0 num)
        else (if flags.plus then (b'+', num) else (if flags.space then (b' ', num) else (0, num))))
    else (0, num)

unfoldable pub prefix_of : Flags → ℕ → List ℕ
prefix_of flags base =
    if flags.prefix && base == 8
    then b'0' ∷ []
    else (if flags.prefix && base == 16
        then b'0' ∷ (if flags.large then b'X' else b'x') ∷ []
        else [])

-- What is left of `width` for padding and digits.
unfoldable pub field_width : Flags → ℕ → ℕ → ℕ → ℕ
field_width flags sign base width =
    let w = if sign == 0 then width else sub_int width 1 in
    if flags.prefix && base == 16
    then sub_int w 2
    else (if flags.prefix && base == 8 then sub_int w 1 else w)

-- What the three loops over `width` write: spaces in front, `pad` behind the prefix, spaces at the end.
unfoldable pub paddings : Bool → Bool → ℕ → List ℕ × List ℕ × List ℕ
paddings left zeros width =
    let (spaces, w1) = if zeros || left then ([], width) else pad_loop width b' ' width in
    let (pad, w2) = if left then ([], w1) else pad_loop w1 (if zeros then b'0' else b' ') w1 in
    (spaces, pad, (pad_loop w2 b' ' w2).0)

-- All that goes out, in this order.
unfoldable pub number_text : ℕ → ℕ → ℕ → ℕ → Flags → List ℕ
number_text num base width precision flags =
    let zeros = flags.zeros && not flags.left in
    let (sign, rest) = sign_of flags num in
    let buffer = number_buffer flags.large base rest in
    let i = length buffer in
    let digits = if lt_int precision i then i else precision in
    let w0 = sub_int (field_width flags sign base width) digits in
    let (front, pad, behind) = paddings flags.left zeros w0 in
    front
    ++ ((if sign == 0 then [] else sign ∷ [])
        ++ (prefix_of flags base
            ++ (pad ++ (zeros_loop digits i digits ++ (reverse buffer ++ behind)))))

-- Bytes from `str` on.
unfoldable pub store_bytes : Memory → ℕ → List ℕ → Memory
store_bytes m str [] = m
store_bytes m str (c ∷ cs) = store_bytes (update m str c) (str + 1) cs

-- The memory, and the result `total - 1`.
unfoldable pub number : Memory → ℕ → ℕ → ℕ → ℕ → ℕ → Flags → Memory × ℕ
number m str num base width precision flags =
    let out = number_text num base width precision flags in
    if ltb base 2 || ltb 36 base then (m, 0) else (store_bytes m str out, sub_int (length out) 1)
