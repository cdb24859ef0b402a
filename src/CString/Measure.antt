-- ===== src/CString/Measure.antt =====
-- `strlen` and `strnlen` of kernel/string.c: how far they go.
use toutatis.Common.{ℕ, zero, suc, ◌+◌, ◌<◌, ◌≡◌, ◌≢◌, arith, some, min}
use toutatis.CString.{Memory, scan, strlen, strnlen, strnlen_loop}

-- At `s` there is a string of `k` bytes before its zero.
pub record IsString (m : Memory) (s k : ℕ) : Type 0 where
  pub content : (i : ℕ) → i < k → m (s + i) ≢ 0
  pub stop : m (s + k) ≡ 0

scan-stops :
    (fuel : ℕ) (m : Memory) (s k i left : ℕ)
    → IsString m s k
    → i + left ≡ k
    → left < fuel
    → scan fuel m s i ≡ some (k + 1)
unfolding scan
scan-stops zero m s k i left str e h = absurd (omega arith)
scan-stops (suc fuel) m s k i zero str e h =
    let e' : i ≡ k = omega arith in let z = str.stop in rw e' (ground arith)
scan-stops (suc fuel) m s k i (suc left) str e h = ground (
  arith,
  str.content i (omega arith),
  scan-stops fuel m s k (i + 1) left str (omega arith) (omega arith),
)

-- `strlen` ends on every string, and returns one more than the number of bytes before the zero.
pub strlen_lem :
    (fuel : ℕ) (m : Memory) (s k : ℕ) → IsString m s k → k < fuel → strlen fuel m s ≡ some (k + 1)
unfolding strlen
strlen_lem fuel m s k str h = scan-stops fuel m s k 0 k str (omega arith) h

strnlen_loop-min :
    (m : Memory) (s k i left n : ℕ)
    → IsString m s k
    → i + left ≡ k
    → strnlen_loop m s n i ≡ i + min left n + 1
unfolding strnlen_loop
strnlen_loop-min m s k i left zero str e = omega arith
strnlen_loop-min m s k i zero (suc n) str e =
    let e' : i ≡ k = omega arith in let z = str.stop in rw e' (ground arith)
strnlen_loop-min m s k i (suc left) (suc n) str e =
    ground
      (arith, str.content i (omega arith), strnlen_loop-min m s k (i + 1) left n str (omega arith))

-- `strnlen` returns one more than the smaller of `n` and the number of bytes before the zero.
pub strnlen_lem : (m : Memory) (s k n : ℕ) → IsString m s k → strnlen m s n ≡ min k n + 1
unfolding strnlen
strnlen_lem m s k n str = omega (arith, strnlen_loop-min m s k 0 k n str (omega arith))
