-- ===== src/Format/Tests.antt =====
-- Runs of the functions of kernel/vsprintf.c and witnesses of their properties.
use toutatis.Common.{
  ℕ, ◌+◌, ◌-◌, ◌≤◌, ◌<◌, ◌≡◌, ◌⊎◌, inr, refl, arith, true, [], ◌∷◌, get_or, none, some, leb,
  if◌then◌else◌,
}
use toutatis.CString.{Memory}
use toutatis.Format.{
  Flags, digits_of, number_buffer, pad_loop, zeros_loop, sign_of, prefix_of, field_width, paddings,
  number_text,
}
use toutatis.Format.Layout.{layout, number_text-layout}
use toutatis.Format.Vsprintf.{State, no_flags, vsprintf}
use toutatis.Format.Plain.{IsPlain, vsprintf-plain}
use toutatis.Format.Conversion.{Conversion}

-- `%05d` at 100.
abbrev five_digits : Memory
five_digits x = if leb 100 x then get_or (b'%' ∷ b'0' ∷ b'5' ∷ b'd' ∷ []) (x - 100) 0 else 0

-- `ab` at 100.
abbrev letters : Memory
letters x = if leb 100 x then get_or (b'a' ∷ b'b' ∷ []) (x - 100) 0 else 0

abbrev padded : Flags
padded = record no_flags { zeros = true; signed = true }

number_text_run :
    number_text 4294967284 10 5 4294967295 padded ≡ b'-' ∷ b'0' ∷ b'0' ∷ b'1' ∷ b'2' ∷ []
unfolding number_text sign_of number_buffer digits_of prefix_of field_width paddings pad_loop
    zeros_loop
number_text_run = refl

number_text-layout_example :
    number_text 4294967284 10 5 4294967295 padded ≡ layout 4294967284 10 5 0 padded
number_text-layout_example =
    number_text-layout 4294967284 10 (some 5) none padded (omega arith) (omega arith)

letters-IsPlain : IsPlain letters 100 2
letters-IsPlain = record {
  string = record { content = λ i h. ground arith; stop = refl };
  no_percent = λ j h. ground arith;
}

vsprintf-plain_example :
    (end : Memory) × (vsprintf 10 letters 300 100 (λ i. 0) 2000 ≡ some (end, 4))
    × ((j : ℕ) → j < 4 → end (300 + j) ≡ letters (100 + j))
    × ((x : ℕ) → (x < 300) ⊎ (304 ≤ x) → (x < 2000) ⊎ (3024 ≤ x) → end x ≡ letters x)
vsprintf-plain_example =
    vsprintf-plain 10 letters 300 100 (λ i. 0) 2000 2 letters-IsPlain (inr (omega arith))
      (inr (omega arith)) ((λ e. absurd (omega arith)), (λ e. absurd (omega arith))) (omega arith)
      (omega arith)

abbrev conversion : Conversion
conversion = record { flags = b'0' ∷ []; width = b'5' ∷ []; precision = none; letter = b'd' }

abbrev start : State
start = record { memory = five_digits; i = 0; loc = 0; arg = 0 }
