-- ===== src/Initrd/Words.antt =====
-- Words of 32 bits in the memory that kernel/initrd.c reads.
use toutatis.Common.{ℕ, ◌+◌, ◌^◌, ◌≤◌, ◌<◌, ◌≡◌, ◌⊎◌, refl, arith}
use toutatis.Common.Store.{update}
use toutatis.CString.{Memory}
use toutatis.CString.Bytes.{At}
use toutatis.Initrd.{word_bytes, read_word, write_word}

pub read_word-At : (m : Memory) (a w : ℕ) → At m a (word_bytes w) → w < 2 ^ 32 → read_word m a ≡ w
read_word-At m a w (e0, (e1, (e2, (e3, end)))) small =
    let a2 : a + 2 ≡ a + 1 + 1 = omega arith in
    let a3 : a + 3 ≡ a + 1 + 1 + 1 = omega arith in rw (a2, a3, e0, e1, e2, e3) (omega arith)

pub write_word-others : (m : Memory) (a w x : ℕ) → (x < a) ⊎ (a + 4 ≤ x) → write_word m a w x ≡ m x
unfolding write_word update
write_word-others m a w x out = ground arith

pub read_word-write_word : (m : Memory) (a w : ℕ) → w < 2 ^ 32 → read_word (write_word m a w) a ≡ w
unfolding write_word update
read_word-write_word m a w small = ground arith

pub read_word-same :
    (m m' : Memory) (a : ℕ)
    → ((x : ℕ) → a ≤ x → x < a + 4 → m' x ≡ m x)
    → read_word m' a ≡ read_word m a
read_word-same m m' a same =
    rw
      (
        same a (omega arith) (omega arith),
        same (a + 1) (omega arith) (omega arith),
        same (a + 2) (omega arith) (omega arith),
        same (a + 3) (omega arith) (omega arith),
      )
      refl
