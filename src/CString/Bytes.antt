-- ===== src/CString/Bytes.antt =====
-- Lists of bytes in memory.
use mathlib.Core.Path.{subst}
use toutatis.Common.{ℕ, suc, ◌+◌, ◌<◌, ◌≡◌, ◌∙◌, arith, List, [], ◌∷◌, ◌++◌, length, get_or}
use toutatis.CString.{Memory}

-- The text `cs` stands at `a`.
abbrev pub At : Memory → ℕ → List ℕ → Type 0
At m a [] = Unit
At m a (c ∷ cs) = (m a ≡ c) × At m (a + 1) cs

pub At-same :
    (m m' : Memory) (a : ℕ) (cs : List ℕ)
    → ((j : ℕ) → j < length cs → m' (a + j) ≡ m (a + j))
    → At m a cs
    → At m' a cs
At-same m m' a [] same at = tt
At-same m m' a (c ∷ cs) same (e, at) =
    let z : a + 0 ≡ a = omega arith in
    (
      subst (λ x. m' x ≡ m x) z (same 0 (omega arith)) ∙ e,
      At-same m m' (a + 1) cs
          (λ j h.
            let e : a + suc j ≡ a + 1 + j = omega arith in
            subst (λ x. m' x ≡ m x) e (same (suc j) (omega arith)))
          at,
    )

pub At-split :
    (m : Memory) (a : ℕ) (xs ys : List ℕ) → At m a (xs ++ ys) → At m a xs × At m (a + length xs) ys
At-split m a [] ys at = let z : a + 0 ≡ a = omega arith in (tt, rw z at)
At-split m a (x ∷ xs) ys (e, at) =
    let (front, back) = At-split m (a + 1) xs ys at in
    let p : a + 1 + length xs ≡ a + suc (length xs) = omega arith in
    ((e, front), subst (λ b. At m b ys) p back)

pub At-get_or :
    (m : Memory) (a : ℕ) (cs : List ℕ)
    → ((j : ℕ) → j < length cs → m (a + j) ≡ get_or cs j 0)
    → At m a cs
At-get_or m a [] same = tt
At-get_or m a (c ∷ cs) same =
    let z : a + 0 ≡ a = omega arith in
    (
      rw z at (same 0 (omega arith)),
      At-get_or m (a + 1) cs (λ j h.
          let e : a + suc j ≡ a + 1 + j = omega arith in rw e at (same (suc j) (omega arith))),
    )
