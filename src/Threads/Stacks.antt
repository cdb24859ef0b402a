-- ===== src/Threads/Stacks.antt =====
-- The stacks of kernel/thread.c: what is pushed and what is found when it is taken off again.
use toutatis.Common.{
  ℕ, zero, suc, ◌+◌, ◌-◌, ◌*◌, ◌%◌, ◌^◌, ◌≤◌, ◌<◌, ◌≡◌, refl, sym, ◌∙◌, ap, arith, List, [], ◌∷◌,
  ◌++◌, reverse, length,
}
use mathlib.Core.List.{reverse-cons}
use toutatis.Common.Store.{update, update_self, update_ne}
use toutatis.Threads.{push, push_all}

-- The words at `at` and above.
abbrev pub pop_all : (ℕ → ℕ) → ℕ → ℕ → List ℕ
pop_all words at zero = []
pop_all words at (suc n) = words at ∷ pop_all words (at + 4) n

push_all-cons :
    (x : ℕ) (xs : List ℕ) (words : ℕ → ℕ) (stack : ℕ)
    → 4 ≤ stack
    → stack < 2 ^ 32
    → push_all words stack (x ∷ xs) ≡ push_all (update words (stack - 4) x) (stack - 4) xs
unfolding push_all push
push_all-cons x xs words stack h small =
    let at : (stack + 2 ^ 32 - 4) % 2 ^ 32 ≡ stack - 4 = omega arith in
    ap (λ a. push_all (update words a x) a xs) at

-- The stack pointer after the pushes.
pub push_all-last :
    (xs : List ℕ) (words : ℕ → ℕ) (stack : ℕ)
    → length xs * 4 ≤ stack
    → stack < 2 ^ 32
    → (push_all words stack xs).1 ≡ stack - length xs * 4
unfolding push_all
push_all-last [] words stack h small = omega arith
push_all-last (x ∷ xs) words stack h small =
    ap (λ r. r.1) (push_all-cons x xs words stack (omega arith) small)
    ∙ push_all-last xs (update words (stack - 4) x) (stack - 4) (omega arith) (omega arith)
    ∙ omega arith

-- Words from the top of the stack on are left alone.
push_all-above :
    (xs : List ℕ) (words : ℕ → ℕ) (stack q : ℕ)
    → length xs * 4 ≤ stack
    → stack < 2 ^ 32
    → stack ≤ q
    → (push_all words stack xs).0 q ≡ words q
unfolding push_all
push_all-above [] words stack q h small above = refl
push_all-above (x ∷ xs) words stack q h small above =
    ap (λ r. r.0 q) (push_all-cons x xs words stack (omega arith) small)
    ∙ push_all-above xs (update words (stack - 4) x) (stack - 4) q (omega arith) (omega arith)
        (omega arith)
    ∙ update_ne words (stack - 4) q x (omega arith)

pop_all-suc :
    (words : ℕ → ℕ) (n : ℕ) (at : ℕ)
    → pop_all words at (suc n) ≡ pop_all words at n ++ words (at + n * 4) ∷ []
pop_all-suc words zero at = ap (λ a. words a ∷ []) (omega arith)
pop_all-suc words (suc n) at =
    ap (λ l. words at ∷ l) (pop_all-suc words n (at + 4))
    ∙ ap (λ a. words at ∷ (pop_all words (at + 4) n ++ words a ∷ [])) (omega arith)

-- What was pushed comes off in the opposite order.
pub pop_all-push_all :
    (xs : List ℕ) (words : ℕ → ℕ) (stack : ℕ)
    → length xs * 4 ≤ stack
    → stack < 2 ^ 32
    → pop_all (push_all words stack xs).0 (stack - length xs * 4) (length xs) ≡ reverse xs
pop_all-push_all [] words stack h small = refl
pop_all-push_all (x ∷ xs) words stack h small =
    let s1 = update words (stack - 4) x in
    let at : stack - length (x ∷ xs) * 4 ≡ stack - 4 - length xs * 4 = omega arith in
    let top : stack - 4 - length xs * 4 + length xs * 4 ≡ stack - 4 = omega arith in
    let r = push_all s1 (stack - 4) xs in
    ap (λ a. pop_all (push_all words stack (x ∷ xs)).0 a (suc (length xs))) at
    ∙ ap (λ p. pop_all p.0 (stack - 4 - length xs * 4) (suc (length xs)))
        (push_all-cons x xs words stack (omega arith) small)
    ∙ pop_all-suc r.0 (length xs) (stack - 4 - length xs * 4)
    ∙ ap (λ l. l ++ r.0 (stack - 4 - length xs * 4 + length xs * 4) ∷ [])
        (pop_all-push_all xs s1 (stack - 4) (omega arith) (omega arith))
    ∙ ap (λ w. reverse xs ++ w ∷ [])
        (ap r.0 top
          ∙ push_all-above xs s1 (stack - 4) (stack - 4) (omega arith) (omega arith) (omega arith)
          ∙ update_self words (stack - 4) x)
    ∙ sym (reverse-cons x xs)
