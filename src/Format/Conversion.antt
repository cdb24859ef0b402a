-- ===== src/Format/Conversion.antt =====
-- The parts of a number's conversion in `vsprintf` of kernel/vsprintf.c: flags, width, precision, letter.
use toutatis.Common.{
  ℕ, suc, ◌+◌, ◌%◌, ◌^◌, ◌≤◌, ◌<◌, ◌≡◌, ◌⊎◌, inl, inr, refl, arith, Bool, true, false, ◌||◌, List,
  [], ◌∷◌, ◌++◌, length, Option, none, some, ◌==◌, leb, ltb, if◌then◌else◌,
}
use toutatis.CString.{Memory}
use toutatis.Utils.{is_digit}
use toutatis.Format.{Flags, sub_int, number, store_bytes}
use toutatis.Format.Layout.{int_of, at_least, layout, number_text-layout}
use toutatis.Format.Value.{value_of}
use toutatis.Format.Plain.{Apart}
use toutatis.CString.Bytes.{At, At-split}
use toutatis.Format.Reading.{All, Decimal, read_number_lem}
use toutatis.Format.Vsprintf.{
  State, Field, is_flag, read_width, read_precision, write_number, convert,
}

-- What stands behind the `%`; the precision is what stands behind the point, if there is one.
pub record Conversion : Type 0 where
  pub flags : List ℕ
  pub width : List ℕ
  pub precision : Option (List ℕ)
  pub letter : ℕ

abbrev pub precision_text : Option (List ℕ) → List ℕ
precision_text none = []
precision_text (some ds) = b'.' ∷ ds

abbrev pub precision_digits : Option (List ℕ) → List ℕ
precision_digits none = []
precision_digits (some ds) = ds

abbrev pub conversion_text : Conversion → List ℕ
conversion_text c = c.flags ++ (c.width ++ (precision_text c.precision ++ (c.letter ∷ [])))

abbrev pub is_numeric : ℕ → Bool
is_numeric c =
    c == b'd' || c == b'i' || c == b'u' || c == b'o' || c == b'x' || c == b'X' || c == b'b'

abbrev pub base_of : ℕ → ℕ
base_of c =
    if c == b'o' then 8 else (if c == b'x' || c == b'X' then 16 else (if c == b'b' then 2 else 10))

abbrev pub letter_flags : ℕ → Flags → Flags
letter_flags c flags =
    if c == b'd' || c == b'i'
    then record flags { signed = true }
    else (if c == b'X' then record flags { large = true } else flags)

-- A number conversion; width and precision have no zero in front.
pub record IsConversion (c : Conversion) : Type 0 where
  pub flags : All is_flag c.flags
  pub width : Decimal c.width
  pub precision : Decimal (precision_digits c.precision)
  pub letter : is_numeric c.letter ≡ true
  pub small_width : value_of 10 0 c.width < 2 ^ 30
  pub small_precision : value_of 10 0 (precision_digits c.precision) < 2 ^ 30

-- The character behind the width.
abbrev pub Behind : ℕ → Type 0
Behind c = (is_flag c ≡ false) × (is_digit c ≡ false) × ((c == b'*') ≡ false)

pub letter-Behind :
    (m : Memory) (a : ℕ) (precision : Option (List ℕ)) (letter : ℕ)
    → is_numeric letter ≡ true
    → At m a (precision_text precision ++ (letter ∷ []))
    → Behind (m a)
letter-Behind m a none letter h (e, at) = rw e (ground arith, ground arith, ground arith)
letter-Behind m a (some ds) letter h (e, at) = rw e (refl, refl, refl)

pub flags-not_flag :
    (m : Memory) (a : ℕ) (width : List ℕ) (precision : Option (List ℕ)) (letter : ℕ)
    → Decimal width
    → is_numeric letter ≡ true
    → At m a (width ++ (precision_text precision ++ (letter ∷ [])))
    → is_flag (m a) ≡ false
flags-not_flag m a [] precision letter dec h at = (letter-Behind m a precision letter h at).0
flags-not_flag m a (c ∷ cs) precision letter (ne, (p, all)) h (e, at) = rw e (ground arith)

-- Memory that differs only in the array `tmp`.
abbrev pub Off : Memory → Memory → ℕ → Type 0
Off m m' tmp = (x : ℕ) → (x < tmp) ⊎ (tmp + 1024 ≤ x) → m' x ≡ m x

pub read_width_lem :
    (fuel : ℕ) (args : ℕ → ℕ) (fmt tmp : ℕ) (flags : Flags) (width : List ℕ) (s : State)
    → Decimal width
    → At s.memory (fmt + (s.i + 1)) width
    → Behind (s.memory (fmt + (s.i + 1) + length width))
    → length width < fuel
    → length width < 1024
    → Apart tmp 1024 (fmt + s.i) (length width + 2)
    → value_of 10 0 width < 2 ^ 30
    → (w : Option ℕ) × (at_least w ≡ value_of 10 0 width)
      × (end : Memory) × Off s.memory end tmp
      × (read_width fuel args fmt tmp flags s
          ≡ some (
            record { flags = flags; width = int_of w; precision = 4294967295 },
            record s { memory = end; i = s.i + length width },
          ))
unfolding read_width value_of
read_width_lem fuel args fmt tmp flags [] s dec at behind h fit apart small =
    let z : fmt + (s.i + 1) + 0 ≡ fmt + (s.i + 1) = omega arith in
    let w : s.i + 0 ≡ s.i = omega arith in
    let (a, b, c) = behind in
    (none, refl, s.memory, λ x out. refl, rw (rw z at b, rw z at c, w) refl)
read_width_lem fuel args fmt tmp flags (c ∷ cs) s dec at behind h fit apart small =
    let (ne, all) = dec in
    let (e, more) = at in
    let (end, run, off) =
      read_number_lem fuel s.memory fmt tmp s.i c cs dec at behind.1 h
        (elim apart [ inl p ↦ inl (omega arith) | inr p ↦ inr (omega arith) ]) (omega arith) in
    (
      some (value_of 10 0 (c ∷ cs)),
      refl,
      end,
      λ x out. off x (elim out [ inl p ↦ inl p | inr p ↦ inr (omega arith) ]),
      rw (e, all.0, run, read_width) refl,
    )

pub read_precision_lem :
    (fuel : ℕ) (args : ℕ → ℕ) (fmt tmp : ℕ) (flags : Flags) (width : ℕ)
    (precision : Option (List ℕ)) (letter : ℕ) (s : State)
    → Decimal (precision_digits precision)
    → is_numeric letter ≡ true
    → At s.memory (fmt + (s.i + 1)) (precision_text precision ++ (letter ∷ []))
    → length (precision_text precision) < fuel
    → length (precision_text precision) < 1024
    → Apart tmp 1024 (fmt + s.i) (length (precision_text precision) + 2)
    → value_of 10 0 (precision_digits precision) < 2 ^ 30
    → (p : Option ℕ) × (at_least p ≡ value_of 10 0 (precision_digits precision))
      × (end : Memory) × Off s.memory end tmp
      × (read_precision fuel args fmt tmp
            (record { flags = flags; width = width; precision = 4294967295 })
            s
          ≡ some (
            record { flags = flags; width = width; precision = int_of p },
            record s { memory = end; i = s.i + length (precision_text precision) },
          ))
unfolding read_precision value_of
read_precision_lem fuel args fmt tmp flags width none letter s dec num (e, at) h fit apart small =
    let w : s.i + 0 ≡ s.i = omega arith in
    let no_point : (letter == b'.') ≡ false = ground arith in
    (none, refl, s.memory, λ x out. refl, rw (e, no_point, w) refl)
read_precision_lem fuel args fmt tmp flags width (some []) letter s dec num (e, (l, at)) h fit apart
      small =
    let a : fmt + (s.i + 1) + 1 ≡ fmt + (s.i + 2) = omega arith in
    let next : s.memory (fmt + (s.i + 2)) ≡ letter = rw a at l in
    let no_digit : is_digit letter ≡ false = ground arith in
    let no_star : (letter == b'*') ≡ false = ground arith in
    (some 0, refl, s.memory, λ x out. refl, rw (e, next, no_digit, no_star) refl)
read_precision_lem fuel args fmt tmp flags width (some (c ∷ cs)) letter s dec num (e, at) h fit
      apart small =
    let (ne, all) = dec in
    let a : fmt + (s.i + 1) + 1 ≡ fmt + (s.i + 1 + 1) = omega arith in
    let a2 : fmt + (s.i + 2) ≡ fmt + (s.i + 1 + 1) = omega arith in
    let (digits, behind) =
      At-split s.memory (fmt + (s.i + 1 + 1)) (c ∷ cs) (letter ∷ []) (rw a at at) in
    let no_digit : is_digit (s.memory (fmt + (s.i + 1 + 1) + suc (length cs))) ≡ false =
      rw behind.0 (ground arith) in
    let (end, run, off) =
      read_number_lem fuel s.memory fmt tmp (s.i + 1) c cs dec digits no_digit (omega arith)
        (elim apart [ inl p ↦ inl (omega arith) | inr p ↦ inr (omega arith) ]) (omega arith) in
    let w : s.i + 1 + suc (length cs) ≡ s.i + suc (suc (length cs)) = omega arith in
    let positive : leb (2 ^ 31) (value_of 10 0 (c ∷ cs)) ≡ false = ground arith in
    (
      some (value_of 10 0 (c ∷ cs)),
      refl,
      end,
      λ x out. off x (elim out [ inl p ↦ inl p | inr p ↦ inr (omega arith) ]),
      rw (e, a2, digits.0, all.0, run, read_precision, w, positive) refl,
    )

pub convert_lem :
    (fuel : ℕ) (args : ℕ → ℕ) (buf fmt tmp letter : ℕ) (f : Field) (s : State)
    → is_numeric letter ≡ true
    → s.memory (fmt + (s.i + 1)) ≡ letter
    → convert fuel args buf fmt tmp f s
      ≡ some (write_number args buf (base_of letter) (letter_flags letter f.flags) f s)
unfolding convert
convert_lem fuel args buf fmt tmp letter f s num e = rw e (ground arith)

pub write_number_lem :
    (args : ℕ → ℕ) (buf letter : ℕ) (flags kept : Flags) (w p : Option ℕ) (s : State)
    → at_least w < 2 ^ 30
    → at_least p < 2 ^ 30
    → let text = layout (args s.arg) (base_of letter) (at_least w) (at_least p) flags in
      write_number args buf
        (base_of letter)
        flags
        (record { flags = kept; width = int_of w; precision = int_of p })
        s
      ≡ record s {
        memory = store_bytes s.memory (buf + s.loc) text;
        loc = (s.loc + sub_int (length text) 1) % 2 ^ 32;
        arg = s.arg + 1;
        i = s.i + 1;
      }
unfolding write_number number
write_number_lem args buf letter flags kept w p s hw hp =
    let base_ok : (ltb (base_of letter) 2 || ltb 36 (base_of letter)) ≡ false = ground arith in
    rw (base_ok, number_text-layout (args s.arg) (base_of letter) w p flags hw hp) refl
