-- ===== src/Keyboard/Ring.antt =====
-- The ring buffer of the keyboard as the list of the characters that wait in it.
use toutatis.Common.{
  ℕ, zero, suc, ◌+◌, ◌-◌, ◌%◌, ◌<◌, ◌≡◌, ◌≢◌, refl, ap, ap₂, arith, List, [], ◌∷◌, ◌++◌, length,
}
use toutatis.Common.Store.{update, update_self, update_ne}

-- `n` characters of the buffer from the index `i` on, which turns at 32.
unfoldable pub pending_from : (ℕ → ℕ) → ℕ → ℕ → List ℕ
pending_from b i zero = []
pending_from b i (suc n) = b i ∷ pending_from b ((i + 1) % 32) n

-- How many places the ring holds between its indices.
abbrev pub waiting : ℕ → ℕ → ℕ
waiting read write = (write + 32 - read) % 32

pub length-pending_from : (b : ℕ → ℕ) (i n : ℕ) → length (pending_from b i n) ≡ n
unfolding pending_from
length-pending_from b i zero = refl
length-pending_from b i (suc n) = ap suc (length-pending_from b ((i + 1) % 32) n)

-- A write behind the last character appends it.
pub pending_from-append :
    (b : ℕ → ℕ) (i n j c : ℕ)
    → i < 32
    → n < 32
    → j ≡ (i + n) % 32
    → pending_from (update b j c) i (suc n) ≡ pending_from b i n ++ (c ∷ [])
unfolding pending_from
pending_from-append b i zero j c hi hn e =
    let e' : j ≡ i = omega arith in rw e' (ap (λ x. x ∷ []) (update_self b i c))
pending_from-append b i (suc n) j c hi hn e =
    ap₂ (λ x xs. x ∷ xs) (update_ne b j i c (λ e'. absurd (omega arith)))
      (pending_from-append b ((i + 1) % 32) n j c (omega arith) (omega arith) (omega arith))

pub waiting-write :
    (r w : ℕ)
    → r < 32
    → w < 32
    → (w + 1) % 32 ≢ r
    → (waiting r ((w + 1) % 32) ≡ suc (waiting r w)) × (waiting r w < 31)
waiting-write r w hr hw h = (omega arith, omega arith)

pub waiting-full : (r w : ℕ) → r < 32 → w < 32 → (w + 1) % 32 ≡ r → waiting r w ≡ 31
waiting-full r w hr hw h = omega arith

pub waiting-empty : (r w : ℕ) → r < 32 → w < 32 → r ≡ w → waiting r w ≡ 0
waiting-empty r w hr hw h = omega arith

pub waiting-read :
    (r w : ℕ) → r < 32 → w < 32 → r ≢ w → waiting r w ≡ suc (waiting ((r + 1) % 32) w)
waiting-read r w hr hw h = omega arith

pub write_place : (r w : ℕ) → r < 32 → w < 32 → w ≡ (r + waiting r w) % 32
write_place r w hr hw = omega arith
