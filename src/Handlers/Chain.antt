-- ===== src/Handlers/Chain.antt =====
-- The list of the handlers' slots that kernel/system.c links, first to last.
use toutatis.Common.{
  ℕ, zero, suc, ◌<◌, ◌≡◌, ◌≢◌, refl, sym, ◌∙◌, ap, arith, Option, none, some, List, [], ◌∷◌, ◌++◌,
  length,
}
use toutatis.Common.Store.{update, update_self, update_ne}
use toutatis.Handlers.{Row, tail, place_behind}

abbrev pub NotIn : ℕ → List ℕ → Type 0
NotIn x [] = Unit
NotIn x (y ∷ ys) = (x ≢ y) × NotIn x ys

abbrev pub first : List ℕ → Option ℕ
first [] = none
first (x ∷ xs) = some x

abbrev pub last : ℕ → List ℕ → ℕ
last x [] = x
last x (y ∷ ys) = last y ys

-- The slots hold handlers, are linked both ways, and none stands twice. `p` is the slot before them.
abbrev pub IsChain : Row → Option ℕ → List ℕ → Type 0
IsChain r p [] = Unit
IsChain r p (x ∷ xs) =
    (r.handler x ≢ 0) × (r.prev x ≡ p) × (r.next x ≡ first xs) × NotIn x xs × IsChain r (some x) xs

NotIn-last : (x y : ℕ) (ys : List ℕ) → NotIn x (y ∷ ys) → x ≢ last y ys
NotIn-last x y [] (n, rest) = n
NotIn-last x y (z ∷ zs) (n, rest) = NotIn-last x z zs rest

NotIn-append : (x n : ℕ) (xs : List ℕ) → NotIn x xs → x ≢ n → NotIn x (xs ++ (n ∷ []))
NotIn-append x n [] h ne = (ne, tt)
NotIn-append x n (y ∷ ys) (a, rest) ne = (a, NotIn-append x n ys rest ne)

used_ne : (r : Row) (x n : ℕ) → r.handler x ≢ 0 → r.handler n ≡ 0 → x ≢ n
used_ne r x n used free = λ e. used (ap r.handler e ∙ free)

pub tail-last :
    (fuel : ℕ) (r : Row) (p : Option ℕ) (x : ℕ) (xs : List ℕ)
    → IsChain r p (x ∷ xs)
    → length xs < fuel
    → tail fuel r x ≡ some (last x xs)
unfolding tail
tail-last zero r p x xs chain h = absurd (omega arith)
tail-last (suc fuel) r p x [] (used, back, forth, apart, rest) h = rw (tail, forth) refl
tail-last (suc fuel) r p x (y ∷ ys) (used, back, forth, apart, rest) h =
    rw (tail, forth) (tail-last fuel r (some x) y ys rest (omega arith))

last_used :
    (r : Row) (p : Option ℕ) (x : ℕ) (xs : List ℕ)
    → IsChain r p (x ∷ xs)
    → r.handler (last x xs) ≢ 0
last_used r p x [] (used, back, forth, apart, rest) = used
last_used r p x (y ∷ ys) (used, back, forth, apart, rest) = last_used r (some x) y ys rest

-- A free slot put behind the last one ends the list.
pub place_behind-IsChain :
    (r : Row) (p : Option ℕ) (n v x : ℕ) (xs : List ℕ)
    → IsChain r p (x ∷ xs)
    → r.handler n ≡ 0
    → v ≢ 0
    → IsChain (place_behind r n v (last x xs)) p ((x ∷ xs) ++ (n ∷ []))
unfolding place_behind
place_behind-IsChain r p n v x [] (used, back, forth, apart, rest) free full =
    let ne = used_ne r x n used free in
    let en : n ≢ x = λ e. ne (sym e) in
    (
      rw (update_ne r.handler n x v ne) used,
      update_ne r.prev n x (some x) ne ∙ back,
      update_self (update r.next n none) x (some n),
      (ne, tt),
      (
        rw (update_self r.handler n v) full,
        update_self r.prev n (some x),
        update_ne (update r.next n none) x n (some n) en ∙ update_self r.next n none,
        tt,
        tt,
      ),
    )
place_behind-IsChain r p n v x (y ∷ ys) (used, back, forth, apart, rest) free full =
    let ne = used_ne r x n used free in
    (
      rw (update_ne r.handler n x v ne) used,
      update_ne r.prev n x (some (last y ys)) ne ∙ back,
      update_ne (update r.next n none) (last y ys) x (some n) (NotIn-last x y ys apart)
          ∙ update_ne r.next n x none ne
          ∙ forth,
      NotIn-append x n (y ∷ ys) apart ne,
      place_behind-IsChain r (some x) n v y ys rest free full,
    )
