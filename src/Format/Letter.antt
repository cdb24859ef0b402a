-- ===== src/Format/Letter.antt =====
-- A conversion of a number by `vsprintf` of kernel/vsprintf.c, once its parts are read.
use toutatis.Common.{ℕ, ◌+◌, ◌%◌, ◌^◌, ◌<◌, ◌≡◌, refl, arith, true, length, Option, some}
use toutatis.CString.{Memory}
use toutatis.Format.{Flags, sub_int, store_bytes}
use toutatis.Format.Layout.{int_of, at_least, layout}
use toutatis.Format.Conversion.{is_numeric, base_of, letter_flags, convert_lem, write_number_lem}
use toutatis.Format.Vsprintf.{
  State, Field, no_flags, read_flags, read_width, read_precision, write_number, convert, directive,
  round,
}

round-steps :
    (fuel : ℕ) (args : ℕ → ℕ) (buf fmt tmp : ℕ) (s s1 s2 s3 : State) (i : ℕ) (flags : Flags)
    (f g : Field)
    → s.memory (fmt + s.i) ≡ b'%'
    → read_flags fuel s.memory fmt s.i no_flags ≡ some (i, flags)
    → read_width fuel args fmt tmp flags (record s { i = i }) ≡ some (f, s1)
    → read_precision fuel args fmt tmp f s1 ≡ some (g, s2)
    → convert fuel args buf fmt tmp g s2 ≡ some s3
    → round fuel args buf fmt tmp s ≡ some (record s3 { i = s3.i + 1; loc = (s3.loc + 1) % 2 ^ 32 })
unfolding round directive
round-steps fuel args buf fmt tmp s s1 s2 s3 i flags f g percent a b c d =
    let whole : directive fuel args buf fmt tmp s ≡ some s3 = rw (a, directive, b, c, d) refl in
    rw (percent, round, whole) refl

wrap_back : (a n : ℕ) → ((a + sub_int n 1) % 2 ^ 32 + 1) % 2 ^ 32 ≡ (a + n) % 2 ^ 32
wrap_back a n = omega arith

-- The last part of a conversion, behind the precision.
pub round-letter :
    (fuel : ℕ) (args : ℕ → ℕ) (buf fmt tmp letter : ℕ) (s : State) (flags : Flags) (w p : Option ℕ)
    (m1 m2 : Memory) (i i1 i2 : ℕ)
    → is_numeric letter ≡ true
    → s.memory (fmt + s.i) ≡ b'%'
    → at_least w < 2 ^ 30
    → at_least p < 2 ^ 30
    → m2 (fmt + (i2 + 1)) ≡ letter
    → read_flags fuel s.memory fmt s.i no_flags ≡ some (i, flags)
    → read_width fuel args fmt tmp flags (record s { i = i })
      ≡ some (
        record { flags = flags; width = int_of w; precision = 4294967295 },
        record s { memory = m1; i = i1 },
      )
    → read_precision fuel args fmt tmp
        (record { flags = flags; width = int_of w; precision = 4294967295 })
        (record s { memory = m1; i = i1 })
      ≡ some (
        record { flags = flags; width = int_of w; precision = int_of p },
        record s { memory = m2; i = i2 },
      )
    → let text =
        layout
          (args s.arg)
          (base_of letter)
          (at_least w)
          (at_least p)
          (letter_flags letter flags) in
      round fuel args buf fmt tmp s
      ≡ some (record s {
        memory = store_bytes m2 (buf + s.loc) text;
        i = i2 + 1 + 1;
        loc = (s.loc + length text) % 2 ^ 32;
        arg = s.arg + 1;
      })
round-letter fuel args buf fmt tmp letter s flags w p m1 m2 i i1 i2 num percent hw hp at a b c =
    let f : Field = record { flags = flags; width = int_of w; precision = 4294967295 } in
    let g : Field = record { flags = flags; width = int_of w; precision = int_of p } in
    let s1 : State = record s { memory = m1; i = i1 } in
    let s2 : State = record s { memory = m2; i = i2 } in
    let text =
      layout (args s.arg) (base_of letter) (at_least w) (at_least p) (letter_flags letter flags) in
    let written = write_number_lem args buf letter (letter_flags letter flags) flags w p s2 hw hp in
    let s3 : State = write_number args buf (base_of letter) (letter_flags letter flags) g s2 in
    let steps =
      round-steps fuel args buf fmt tmp s s1 s2 s3 i flags f g percent a b c
        (convert_lem fuel args buf fmt tmp letter g s2 num at) in
    let wrap : ((s.loc + sub_int (length text) 1) % 2 ^ 32 + 1) % 2 ^ 32
        ≡ (s.loc + length text) % 2 ^ 32 =
      wrap_back s.loc (length text) in
    rw steps (rw written (rw wrap refl))
