-- ===== src/Format/Asked.antt =====
-- What the flags of a conversion of kernel/vsprintf.c ask for, whatever their order.
use toutatis.Common.{
  ℕ, ◌≡◌, refl, ◌∙◌, arith, Bool, true, false, not, ◌&&◌, ◌||◌, List, [], ◌∷◌, ◌==◌,
}
use toutatis.Format.{Flags}
use toutatis.Format.Reading.{set_flags}
use toutatis.Format.Vsprintf.{no_flags, set_flag}

abbrev pub has : ℕ → List ℕ → Bool
has c [] = false
has c (x ∷ xs) = x == c || has c xs

-- A `+` with no space behind it.
abbrev pub asks_plus : List ℕ → Bool
asks_plus [] = false
asks_plus (x ∷ xs) = (x == b'+' && not (has b' ' xs)) || asks_plus xs

abbrev pub asked_of : List ℕ → Flags → Flags
asked_of cs f = record {
  left = f.left || has b'-' cs;
  plus = (f.plus && not (has b' ' cs)) || asks_plus cs;
  signed = f.signed;
  space = f.space || has b' ' cs;
  prefix = f.prefix || has b'#' cs;
  zeros = (f.zeros || has b'0' cs) && not (f.left || has b'-' cs);
  large = f.large;
}

-- The flags behind a `%`.
abbrev pub asked : List ℕ → Flags
asked cs = record {
  left = has b'-' cs;
  plus = asks_plus cs;
  signed = false;
  space = has b' ' cs;
  prefix = has b'#' cs;
  zeros = has b'0' cs && not (has b'-' cs);
  large = false;
}

-- Flags of which `left` and `zeros` are not both set.
abbrev Sorted : Flags → Type 0
Sorted f = (f.left && f.zeros) ≡ false

set_flag-Sorted : (c : ℕ) (f : Flags) → Sorted f → Sorted (set_flag c f)
set_flag-Sorted c f h = ground arith

step-left :
    (c : ℕ) (d : Bool) (f : Flags) → ((set_flag c f).left || d) ≡ (f.left || (c == b'-' || d))
step-left c d f = ground arith

step-plus :
    (c : ℕ) (s p : Bool) (f : Flags)
    → (((set_flag c f).plus && not s) || p)
      ≡ ((f.plus && not (c == b' ' || s)) || ((c == b'+' && not s) || p))
step-plus c s p f = ground arith

step-signed : (c : ℕ) (f : Flags) → (set_flag c f).signed ≡ f.signed
step-signed c f = ground arith

step-space :
    (c : ℕ) (d : Bool) (f : Flags) → ((set_flag c f).space || d) ≡ (f.space || (c == b' ' || d))
step-space c d f = ground arith

step-prefix :
    (c : ℕ) (d : Bool) (f : Flags) → ((set_flag c f).prefix || d) ≡ (f.prefix || (c == b'#' || d))
step-prefix c d f = ground arith

step-zeros :
    (c : ℕ) (z d : Bool) (f : Flags)
    → (((set_flag c f).zeros || z) && not ((set_flag c f).left || d))
      ≡ ((f.zeros || (c == b'0' || z)) && not (f.left || (c == b'-' || d)))
step-zeros c z d f = ground arith

step-large : (c : ℕ) (f : Flags) → (set_flag c f).large ≡ f.large
step-large c f = ground arith

set_flag-asked_of :
    (c : ℕ) (cs : List ℕ) (f : Flags) → asked_of cs (set_flag c f) ≡ asked_of (c ∷ cs) f
set_flag-asked_of c cs f = λ i. record {
  left = step-left c (has b'-' cs) f i;
  plus = step-plus c (has b' ' cs) (asks_plus cs) f i;
  signed = step-signed c f i;
  space = step-space c (has b' ' cs) f i;
  prefix = step-prefix c (has b'#' cs) f i;
  zeros = step-zeros c (has b'0' cs) (has b'-' cs) f i;
  large = step-large c f i;
}

or-false : (b : Bool) → b ≡ (b || false)
or-false true = refl
or-false false = refl

and-true : (b : Bool) → b ≡ ((b && true) || false)
and-true true = refl
and-true false = refl

without_left :
    (left zeros : Bool)
    → (left && zeros) ≡ false
    → zeros ≡ ((zeros || false) && not (left || false))
without_left true zeros h = rw h refl
without_left false true h = refl
without_left false false h = refl

asked_of-nil : (f : Flags) → Sorted f → f ≡ asked_of [] f
asked_of-nil f h = λ i. record {
  left = or-false f.left i;
  plus = and-true f.plus i;
  signed = f.signed;
  space = or-false f.space i;
  prefix = or-false f.prefix i;
  zeros = without_left f.left f.zeros h i;
  large = f.large;
}

set_flags-asked_of : (cs : List ℕ) (f : Flags) → Sorted f → set_flags cs f ≡ asked_of cs f
set_flags-asked_of [] f h = asked_of-nil f h
set_flags-asked_of (c ∷ cs) f h =
    set_flags-asked_of cs (set_flag c f) (set_flag-Sorted c f h) ∙ set_flag-asked_of c cs f

-- The flags that are set are those that are asked for.
pub set_flags-asked : (cs : List ℕ) → set_flags cs no_flags ≡ asked cs
set_flags-asked cs = set_flags-asked_of cs no_flags refl
