-- ===== src/Format/Vsprintf.antt =====
-- `vsprintf` of kernel/vsprintf.c on the memory of kernel/string.c. The text, the format and the array
-- `tmp` lie in one memory. The arguments are words of 32 bits, `args i` is the one that `va_arg` reads
-- as number `i`. Loops run on fuel, `none` means that it ran out.
use toutatis.Common.{
  ℕ, zero, suc, ◌+◌, ◌%◌, ◌^◌, Bool, true, false, ◌||◌, Option, none, some, ◌==◌, leb,
  if◌then◌else◌,
}
use toutatis.Common.Store.{update}
use toutatis.CString.{Memory, memset, strncpy, strlen}
use toutatis.Utils.{is_digit, atoi}
use toutatis.Format.{Flags, sub_int, number}

-- The local variables of the loop, with the number of the next argument.
pub record State : Type 0 where
  pub memory : Memory
  pub i : ℕ
  pub loc : ℕ
  pub arg : ℕ

-- What stands between `%` and the conversion.
pub record Field : Type 0 where
  pub flags : Flags
  pub width : ℕ
  pub precision : ℕ

abbrev pub no_flags : Flags
no_flags = record {
  left = false;
  plus = false;
  signed = false;
  space = false;
  prefix = false;
  zeros = false;
  large = false;
}

abbrev pub is_flag : ℕ → Bool
is_flag c = c == b'#' || c == b'0' || c == b'-' || c == b'+' || c == b' '

abbrev pub set_flag : ℕ → Flags → Flags
set_flag c flags =
    if c == b'#'
    then record flags { prefix = true }
    else (if c == b'0'
        then (if flags.left then flags else record flags { zeros = true })
        else (if c == b'-'
            then record flags { zeros = false; left = true }
            else (if c == b'+'
                then record flags { plus = true }
                else (if c == b' ' then record flags { plus = false; space = true } else flags))))

-- The flags behind `fmt[i]`, and `i` at the last one.
unfoldable pub read_flags : ℕ → Memory → ℕ → ℕ → Flags → Option (ℕ × Flags)
read_flags zero m fmt i flags = none
read_flags (suc fuel) m fmt i flags =
    let rest = read_flags fuel m fmt (i + 1) (set_flag (m (fmt + (i + 1))) flags) in
    if is_flag (m (fmt + (i + 1))) then rest else some (i, flags)

-- The digits behind `fmt[i]` are copied to `tmp`, with a zero behind them.
unfoldable pub copy_digits : ℕ → Memory → ℕ → ℕ → ℕ → ℕ → Option (Memory × ℕ)
copy_digits zero m fmt tmp i k = none
copy_digits (suc fuel) m fmt tmp i k =
    let rest = copy_digits fuel (update m (tmp + k) (m (fmt + (i + 1)))) fmt tmp (i + 1) (k + 1) in
    if is_digit (m (fmt + (i + 1))) then rest else some (update m (tmp + k) 0, i)

-- A number of digits by `atoi`, with the memory and `i` behind it.
unfoldable pub read_number : ℕ → Memory → ℕ → ℕ → ℕ → Option (ℕ × Memory × ℕ)
read_number fuel m fmt tmp i = elim (copy_digits fuel m fmt tmp i 0) [
  | none ↦ none
  | some (m1, i1) ↦ elim (atoi fuel m1 tmp) [ none ↦ none | some n ↦ some (n, m1, i1) ]
]

-- An `int` below zero.
abbrev pub is_negative : ℕ → Bool
is_negative n = leb (2 ^ 31) n

unfoldable pub read_width : ℕ → (ℕ → ℕ) → ℕ → ℕ → Flags → State → Option (Field × State)
read_width fuel args fmt tmp flags s =
    if is_digit (s.memory (fmt + (s.i + 1)))
    then elim (read_number fuel s.memory fmt tmp s.i) [
      | none ↦ none
      | some (n, m, i) ↦ some (
        record { flags = flags; width = n; precision = 4294967295 },
        record s { memory = m; i = i },
      )
    ]
    else (if s.memory (fmt + (s.i + 1)) == b'*'
        then some (
          if is_negative (args s.arg)
              then record {
                flags = record flags { left = true };
                width = sub_int 0 (args s.arg);
                precision = 4294967295;
              }
              else record { flags = flags; width = args s.arg; precision = 4294967295 },
          record s { i = s.i + 1; arg = s.arg + 1 },
        )
        else some (record { flags = flags; width = 4294967295; precision = 4294967295 }, s))

-- A precision below zero is 0, and so is one that is not there.
abbrev pub with_precision : Field → ℕ → Field
with_precision f n = record f { precision = if is_negative n then 0 else n }

-- The precision, if there is a point.
unfoldable pub read_precision : ℕ → (ℕ → ℕ) → ℕ → ℕ → Field → State → Option (Field × State)
read_precision fuel args fmt tmp f s =
    if s.memory (fmt + (s.i + 1)) == b'.'
    then (if is_digit (s.memory (fmt + (s.i + 2)))
        then elim (read_number fuel s.memory fmt tmp (s.i + 1)) [
          | none ↦ none
          | some (n, m, i) ↦ some (with_precision f n, record s { memory = m; i = i })
        ]
        else (if s.memory (fmt + (s.i + 2)) == b'*'
            then some (with_precision f (args s.arg), record s { i = s.i + 2; arg = s.arg + 1 })
            else some (with_precision f 4294967295, record s { i = s.i + 1 })))
    else some (f, s)

-- `loc += number(&buf[loc], val, base, width, precision, flags)`
unfoldable pub write_number : (ℕ → ℕ) → ℕ → ℕ → Flags → Field → State → State
write_number args buf base flags f s =
    let (m, n) = number s.memory (buf + s.loc) (args s.arg) base f.width f.precision flags in
    record s { memory = m; loc = (s.loc + n) % 2 ^ 32; arg = s.arg + 1; i = s.i + 1 }

-- `%s`: the string goes through `tmp`.
unfoldable pub write_string : ℕ → (ℕ → ℕ) → ℕ → ℕ → State → Option State
write_string fuel args buf tmp s =
    let m1 = strncpy s.memory tmp (args s.arg) 1024 in
    let m2 = strncpy m1 (buf + s.loc) tmp 1024 in
    elim (strlen fuel m2 tmp) [
      | none ↦ none
      | some n ↦ some (record s {
        memory = m2;
        loc = (s.loc + sub_int n 2) % 2 ^ 32;
        arg = s.arg + 1;
        i = s.i + 1;
      })
    ]

-- The conversion; another character than these is not passed over.
unfoldable pub convert : ℕ → (ℕ → ℕ) → ℕ → ℕ → ℕ → Field → State → Option State
convert fuel args buf fmt tmp f s =
    let c = s.memory (fmt + (s.i + 1)) in
    if c == b'c'
    then some (record s {
      memory = update s.memory (buf + s.loc) (args s.arg % 256);
      arg = s.arg + 1;
      i = s.i + 1;
    })
    else (if c == b's'
        then write_string fuel args buf tmp s
        else (if c == b'd' || c == b'i'
            then some (write_number args buf 10 (record f.flags { signed = true }) f s)
            else (if c == b'u'
                then some (write_number args buf 10 f.flags f s)
                else (if c == b'o'
                    then some (write_number args buf 8 f.flags f s)
                    else (if c == b'X'
                        then some (write_number args buf 16 (record f.flags { large = true }) f s)
                        else (if c == b'x'
                            then some (write_number args buf 16 f.flags f s)
                            else (if c == b'b'
                                then some (write_number args buf 2 f.flags f s)
                                else some s)))))))

-- From the `%` to the end of the conversion.
unfoldable pub directive : ℕ → (ℕ → ℕ) → ℕ → ℕ → ℕ → State → Option State
directive fuel args buf fmt tmp s = elim (read_flags fuel s.memory fmt s.i no_flags) [
  | none ↦ none
  | some (i, flags) ↦ elim (read_width fuel args fmt tmp flags (record s { i = i })) [
    | none ↦ none
    | some (f, s1) ↦ elim (read_precision fuel args fmt tmp f s1) [
      | none ↦ none
      | some (g, s2) ↦ convert fuel args buf fmt tmp g s2
    ]
  ]
]

-- One round of the loop, with `++i, ++loc`.
unfoldable pub round : ℕ → (ℕ → ℕ) → ℕ → ℕ → ℕ → State → Option State
round fuel args buf fmt tmp s =
    elim (if s.memory (fmt + s.i) == b'%'
      then directive fuel args buf fmt tmp s
      else some (record s { memory = update s.memory (buf + s.loc) (s.memory (fmt + s.i)) })) [
        | none ↦ none
        | some t ↦ some (record t { i = t.i + 1; loc = (t.loc + 1) % 2 ^ 32 })
      ]

-- `for (i = 0; i <= strlen(fmt); ++i, ++loc)`
unfoldable pub vsprintf_loop : ℕ → ℕ → (ℕ → ℕ) → ℕ → ℕ → ℕ → State → Option State
vsprintf_loop zero fuel args buf fmt tmp s = none
vsprintf_loop (suc rounds) fuel args buf fmt tmp s = elim (strlen fuel s.memory fmt) [
  | none ↦ none
  | some n ↦ elim (leb s.i n) [
    | false ↦ some s
    | true ↦ elim (round fuel args buf fmt tmp s) [
      | none ↦ none
      | some t ↦ vsprintf_loop rounds fuel args buf fmt tmp t
    ]
  ]
]

-- The memory and the result. The array `tmp` of 1024 bytes is cleared first.
unfoldable pub vsprintf : ℕ → Memory → ℕ → ℕ → (ℕ → ℕ) → ℕ → Option (Memory × ℕ)
vsprintf fuel m buf fmt args tmp =
    let m0 = memset m tmp 0 1024 in
    if buf == 0 || fmt == 0
    then some (m0, 0)
    else elim (vsprintf_loop fuel fuel args buf fmt tmp
        (record { memory = m0; i = 0; loc = 0; arg = 0 })) [
          | none ↦ none
          | some s ↦ some (s.memory, s.i)
        ]

-- The arguments stand behind the format on the stack.
unfoldable pub sprintf : ℕ → Memory → ℕ → ℕ → (ℕ → ℕ) → ℕ → Option (Memory × ℕ)
sprintf fuel m buf fmt args tmp = vsprintf fuel m buf fmt args tmp
