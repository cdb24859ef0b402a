-- ===== src/Format/Layout.antt =====
-- What the text of `number` of kernel/vsprintf.c looks like: a field with sign, prefix, digits and padding.
use toutatis.Common.{
  ℕ, zero, suc, ◌+◌, ◌-◌, ◌/◌, ◌%◌, ◌^◌, ◌≤◌, ◌<◌, ◌≡◌, inl, inr, sym, arith, Bool, true, false,
  not, ◌&&◌, ◌||◌, List, [], ◌∷◌, ◌++◌, append_assoc, append-nil, reverse_aux, length-append,
  length-replicate, length, replicate, reverse, Option, none, some, ◌==◌, if◌then◌else◌,
}
use native.Mathlib.Decide.{dec_lt}
use toutatis.Format.Padding.{Gap, paddings-Gap, zeros_loop-replicate}
use toutatis.Format.{
  Flags, sub_int, lt_int, digits_of, number_buffer, zeros_loop, sign_of, prefix_of, field_width,
  paddings, number_text,
}

-- A width or a precision as an `int`; none is -1.
abbrev pub int_of : Option ℕ → ℕ
int_of none = 4294967295
int_of (some n) = n

abbrev pub at_least : Option ℕ → ℕ
at_least none = 0
at_least (some n) = n

-- The sign and the prefix in front of the digits.
abbrev pub head_of : Flags → ℕ → ℕ → List ℕ
head_of flags base sign = (if sign == 0 then [] else sign ∷ []) ++ prefix_of flags base

-- The digits, with zeros up to the precision.
abbrev pub digits_text : Flags → ℕ → ℕ → ℕ → List ℕ
digits_text flags base rest precision =
    let buffer = number_buffer flags.large base rest in
    replicate (precision - length buffer) b'0' ++ reverse buffer

-- The field: `gap` bytes of padding behind all, between the head and the digits, or in front.
abbrev pub field : Bool → Bool → ℕ → List ℕ → List ℕ → List ℕ
field left zeros gap head digits =
    if left
    then head ++ (digits ++ replicate gap b' ')
    else (if zeros
        then head ++ (replicate gap b'0' ++ digits)
        else replicate gap b' ' ++ (head ++ digits))

abbrev pub layout : ℕ → ℕ → ℕ → ℕ → Flags → List ℕ
layout num base width precision flags =
    let (sign, rest) = sign_of flags num in
    let head = head_of flags base sign in
    let digits = digits_text flags base rest precision in
    field flags.left flags.zeros (width - (length head + length digits)) head digits

length-digits_of :
    (fuel base num : ℕ) (large : Bool) → length (digits_of fuel large base num) ≤ fuel
unfolding digits_of
length-digits_of zero base num large = omega arith
length-digits_of (suc fuel) base num large =
    ground (arith, length-digits_of fuel base (num / base) large)

length-number_buffer : (base num : ℕ) (large : Bool) → length (number_buffer large base num) ≤ 32
unfolding number_buffer
length-number_buffer base num large = ground (arith, length-digits_of 32 base num large)

length-head_of-field_width :
    (flags : Flags) (base sign width : ℕ)
    → width < 2 ^ 32
    → (length (head_of flags base sign) ≤ 3)
      × (field_width flags sign base width
          ≡ (width + 2 ^ 32 - length (head_of flags base sign)) % 2 ^ 32)
unfolding prefix_of field_width
length-head_of-field_width flags base sign width h = (ground arith, ground arith)

digits-max :
    (i : ℕ) (precision : Option ℕ)
    → i ≤ 32
    → at_least precision < 2 ^ 30
    → (if lt_int (int_of precision) i then i else int_of precision) ≡ i + (at_least precision - i)
digits-max i none le h = ground arith
digits-max i (some p) le h = ground arith

width-Gap :
    (head digits : ℕ) (width : Option ℕ)
    → head ≤ 3
    → digits < 2 ^ 30 + 33
    → at_least width < 2 ^ 30
    → Gap
        (sub_int ((int_of width + 2 ^ 32 - head) % 2 ^ 32) digits)
        (at_least width - (head + digits))
width-Gap head digits none le d h = inr (omega arith, omega arith, omega arith)
width-Gap head digits (some w) le d h = elim (dec_lt w (head + digits)) [
  | yes less ↦ inr (omega arith, omega arith, omega arith)
  | no more ↦ inl (omega arith, omega arith)
]

-- Put together in the order of the loops, the parts are the field.
parts-field :
    (left zeros : Bool) (gap : ℕ) (sign prefix digits : List ℕ)
    → (if left || zeros then [] else replicate gap b' ')
        ++ (sign
            ++ (prefix
                ++ ((if left then [] else (if zeros then replicate gap b'0' else []))
                    ++ (digits ++ (if left then replicate gap b' ' else [])))))
      ≡ field left zeros gap (sign ++ prefix) digits
parts-field true zeros gap sign prefix digits = simp append_assoc
parts-field false true gap sign prefix digits = simp (append_assoc, append-nil)
parts-field false false gap sign prefix digits = simp (append_assoc, append-nil)

-- What goes out, for a precision that is `n` more than the length of the digits.
assembled :
    (left zeros : Bool) (width gap n : ℕ) (sign prefix buffer : List ℕ)
    → Gap width gap
    → length buffer + n < 2 ^ 31
    → (paddings left (zeros && not left) width).0
        ++ (sign
            ++ (prefix
                ++ ((paddings left (zeros && not left) width).1
                    ++ (zeros_loop (length buffer + n) (length buffer) (length buffer + n)
                        ++ (reverse buffer ++ (paddings left (zeros && not left) width).2)))))
      ≡ field left zeros gap (sign ++ prefix) (replicate n b'0' ++ reverse buffer)
assembled left zeros width gap n sign prefix buffer g h =
    let loop = zeros_loop-replicate (length buffer + n) n (length buffer) (omega arith) h in
    rw
      (
        paddings-Gap left zeros width gap g,
        loop,
        sym (
            append_assoc (replicate n b'0') (reverse buffer)
              (if left then replicate gap b' ' else [])),
      )
      (parts-field left zeros gap sign prefix (replicate n b'0' ++ reverse buffer))

int_of-word : (width : Option ℕ) → at_least width < 2 ^ 30 → int_of width < 2 ^ 32
int_of-word none h = omega arith
int_of-word (some w) h = omega arith

length-reverse_aux : (xs ys : List ℕ) → length (reverse_aux xs ys) ≡ length xs + length ys
length-reverse_aux [] ys = omega arith
length-reverse_aux (x ∷ xs) ys = omega (arith, length-reverse_aux xs (x ∷ ys))

length-zeros_reverse :
    (n : ℕ) (buffer : List ℕ) → length (replicate n b'0' ++ reverse buffer) ≡ length buffer + n
length-zeros_reverse n buffer = omega (
  arith,
  length-append {0} (replicate n b'0') (reverse buffer),
  length-replicate {0} {A = ℕ} n b'0',
  length-reverse_aux buffer [],
)

-- `number` writes the field of the width and the precision that were given.
pub number_text-layout :
    (num base : ℕ) (width precision : Option ℕ) (flags : Flags)
    → at_least width < 2 ^ 30
    → at_least precision < 2 ^ 30
    → number_text num base (int_of width) (int_of precision) flags
      ≡ layout num base (at_least width) (at_least precision) flags
unfolding number_text
number_text-layout num base width precision flags hw hp =
    let (sign, rest) = sign_of flags num in
    let buffer = number_buffer flags.large base rest in
    let n = at_least precision - length buffer in
    let short : length buffer ≤ 32 = length-number_buffer base rest flags.large in
    let wide : int_of width < 2 ^ 32 = int_of-word width hw in
    let (few, e) = length-head_of-field_width flags base sign (int_of width) wide in
    let gap =
      width-Gap (length (head_of flags base sign)) (length buffer + n) width few (omega arith) hw in
    rw (digits-max (length buffer) precision short hp, e, length-zeros_reverse n buffer)
      (assembled flags.left flags.zeros
        (sub_int ((int_of width + 2 ^ 32 - length (head_of flags base sign)) % 2 ^ 32)
          (length buffer + n))
        (at_least width - (length (head_of flags base sign) + (length buffer + n))) n
        (if sign == 0 then [] else sign ∷ []) (prefix_of flags base) buffer gap (omega arith))

length-field :
    (left zeros : Bool) (gap : ℕ) (head digits : List ℕ)
    → length (field left zeros gap head digits) ≡ gap + (length head + length digits)
length-field true zeros gap head digits = simp (length-append, length-replicate) (omega arith)
length-field false true gap head digits = simp (length-append, length-replicate) (omega arith)
length-field false false gap head digits = simp (length-append, length-replicate) (omega arith)

-- The text is as long as the width, or as the head and the digits where they need more.
pub length-layout :
    (num base width precision : ℕ) (flags : Flags)
    → let (sign, rest) = sign_of flags num in
      let needed =
        length (head_of flags base sign) + length (digits_text flags base rest precision) in
      length (layout num base width precision flags) ≡ width - needed + needed
length-layout num base width precision flags =
    let (sign, rest) = sign_of flags num in
    let head = head_of flags base sign in
    let digits = digits_text flags base rest precision in
    length-field flags.left flags.zeros (width - (length head + length digits)) head digits
