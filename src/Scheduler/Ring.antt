-- ===== src/Scheduler/Ring.antt =====
-- Doubly linked rings, by their `next` and `prev` alone.
use toutatis.Common.{ℕ, ◌≡◌, ◌≢◌, sym, ◌∙◌, arith, List, [], ◌∷◌, ◌++◌, ◌==◌, if◌then◌else◌}

abbrev pub NotIn : ℕ → List ℕ → Type 0
NotIn a [] = Unit
NotIn a (x ∷ xs) = (a ≢ x) × NotIn a xs

abbrev pub Distinct : List ℕ → Type 0
Distinct [] = Unit
Distinct (x ∷ xs) = NotIn x xs × Distinct xs

-- From `a` the `next` pointers lead through `xs` to `b`, and the `prev` pointers lead back.
abbrev pub Linked : (ℕ → ℕ) → (ℕ → ℕ) → ℕ → List ℕ → ℕ → Type 0
Linked nx pv a [] b = (nx a ≡ b) × (pv b ≡ a)
Linked nx pv a (x ∷ xs) b = (nx a ≡ x) × (pv x ≡ a) × Linked nx pv x xs b

module _ (nx pv : ℕ → ℕ) where
  pub Linked-append :
      (a b c : ℕ) (xs ys : List ℕ)
      → Linked nx pv a xs b
      → Linked nx pv b ys c
      → Linked nx pv a (xs ++ b ∷ ys) c
  Linked-append a b c [] ys l m = (l.0, l.1, m)
  Linked-append a b c (x ∷ xs) ys l m = (l.0, l.1, Linked-append x b c xs ys l.2 m)

  -- A ring can be entered at its second member.
  pub Linked-turn :
      (a x : ℕ) (xs : List ℕ) → Linked nx pv a (x ∷ xs) a → Linked nx pv x (xs ++ a ∷ []) x
  Linked-turn a x xs l = Linked-append x a x xs [] l.2 (l.0, l.1)

  -- The last member is none that the chain leaves out.
  pub last-ne : (a b c : ℕ) (xs : List ℕ) → Linked nx pv a xs b → NotIn c (a ∷ xs) → pv b ≢ c
  last-ne a b c [] l n = λ e. n.0 (sym e ∙ l.1)
  last-ne a b c (x ∷ xs) l n = last-ne x b c xs l.2 n.1

  -- The same for a chain that ends with `th`.
  prev-last-ne :
      (a b c th : ℕ) (xs : List ℕ) → Linked nx pv a (xs ++ th ∷ []) b → NotIn c (a ∷ xs) → pv th ≢ c
  prev-last-ne a b c th [] l n = λ e. n.0 (sym e ∙ l.1)
  prev-last-ne a b c th (x ∷ xs) l n = prev-last-ne x b c th xs l.2 n.1

  next-last : (a b th : ℕ) (xs : List ℕ) → Linked nx pv a (xs ++ th ∷ []) b → nx th ≡ b
  next-last a b th [] l = l.2.0
  next-last a b th (x ∷ xs) l = next-last x b th xs l.2

-- A chain depends on its own pointers alone.
pub Linked-same :
    (nx pv nx' pv' : ℕ → ℕ)
    → ((y : ℕ) → nx' y ≡ nx y)
    → ((y : ℕ) → pv' y ≡ pv y)
    → (a b : ℕ) (xs : List ℕ) → Linked nx pv a xs b
    → Linked nx' pv' a xs b
Linked-same nx pv nx' pv' n p a b [] l = (n a ∙ l.0, p b ∙ l.1)
Linked-same nx pv nx' pv' n p a b (x ∷ xs) l =
    (n a ∙ l.0, p x ∙ l.1, Linked-same nx pv nx' pv' n p x b xs l.2)

-- `th` goes in before `b`.
module _ (nx pv nx' pv' : ℕ → ℕ) (b th : ℕ)
    (next_eq : (y : ℕ) → nx' y ≡ (if y == pv b then th else (if y == th then b else nx y)))
    (prev_eq : (y : ℕ) → pv' y ≡ (if y == b then th else (if y == th then pv b else pv y))) where
  pub Linked-insert :
      (a : ℕ) (xs : List ℕ)
      → Linked nx pv a xs b
      → Distinct (a ∷ xs)
      → NotIn b xs
      → NotIn th (a ∷ xs)
      → th ≢ b
      → Linked nx' pv' a (xs ++ th ∷ []) b
  Linked-insert a [] l d nb nt ne = (
    ground (arith, next_eq a),
    ground (arith, prev_eq th),
    (ground (arith, next_eq th), ground (arith, prev_eq b)),
  )
  Linked-insert a (x ∷ xs) l d nb nt ne = (
    ground (arith, next_eq a, last-ne nx pv x b a xs l.2 d.0),
    ground (arith, prev_eq x),
    Linked-insert x xs l.2 d.1 nb.1 nt.1 ne,
  )

-- `th` is taken out.
module _ (nx pv nx' pv' : ℕ → ℕ) (th : ℕ)
    (next_eq : (y : ℕ) → nx' y ≡ (if y == pv th then nx th else nx y))
    (prev_eq : (y : ℕ) → pv' y ≡ (if y == nx th then pv th else pv y)) where
  pub Linked-remove :
      (a b : ℕ) (xs : List ℕ)
      → Linked nx pv a (xs ++ th ∷ []) b
      → Distinct (a ∷ xs)
      → NotIn b xs
      → Linked nx' pv' a xs b
  Linked-remove a b [] l d nb = (ground (arith, next_eq a), ground (arith, prev_eq b))
  Linked-remove a b (x ∷ xs) l d nb = (
    ground (arith, next_eq a, prev-last-ne nx pv x b a th xs l.2 d.0),
    ground (arith, prev_eq x, next-last nx pv x b th xs l.2),
    Linked-remove x b xs l.2 d.1 nb.1,
  )
