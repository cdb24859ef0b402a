-- ===== src/RbTree/Balanced.antt =====
-- Which trees `assert_tree` of kernel/rb_tree.c accepts.
use toutatis.Common.{
  ℕ, zero, suc, ◌+◌, ◌*◌, ◌^◌, ◌≤◌, ◌<◌, ◌≡◌, ◌≢◌, ◌↔◌, refl, sym, ◌∙◌, ap, arith, ◌⊎◌, inl, inr,
  Bool, Bool-cases, true, false, ◌&&◌, ◌||◌, ◌==◌, not, leb, if◌then◌else◌,
}
use native.Mathlib.Decide.{ℕ_discrete}
use native.Mathlib.Nat.{pow-suc}
use toutatis.RbTree.{Nodes, is_red, get_link}
use toutatis.RbTree.Check.{
  Checked, height, violation, no_fuel, join_heights, join_both, is_bad, assert_tree,
}
use toutatis.RbTree.Rotate.{Shape, leaf, node, Rep}

abbrev pub size : Shape → ℕ
size leaf = 0
size (node c a l r) = suc (size l + size r)

abbrev red_root : Shape → Bool
red_root leaf = false
red_root (node c a l r) = c

abbrev address_of : Shape → ℕ
address_of leaf = 0
address_of (node c a l r) = a

-- The data of the root, where there is one, is smaller or greater than `n`.
abbrev pub Below : Nodes → Shape → ℕ → Type 0
Below s leaf n = Unit
Below s (node c a l r) n = (s a).payload < n

abbrev pub Above : Nodes → Shape → ℕ → Type 0
Above s leaf n = Unit
Above s (node c a l r) n = n < (s a).payload

-- No red node has a red child, the ways down meet the same number of black nodes, and every node has
-- greater data than its left child and smaller data than its right child. `h` counts the black nodes of
-- a way down, with the end.
abbrev pub Balanced : Nodes → Shape → ℕ → Type 0
Balanced s leaf h = h ≡ 1
Balanced s (node c a l r) h =
    (k : ℕ) × Balanced s l k
    × Balanced s r k
    × (h ≡ (if c then k else k + 1))
    × ((c && (red_root l || red_root r)) ≡ false)
    × Below s l (s a).payload
    × Above s r (s a).payload

-- The check, on the tree that the links spell out.
abbrev check : Nodes → Shape → Checked
check s leaf = height 1
check s (node c a l r) =
    if c && (red_root l || red_root r)
    then violation
    else join_both c (is_bad s a (address_of l) (address_of r)) (check s l) (check s r)

is_red-Rep : (s : Nodes) (p : ℕ) (t : Shape) → Rep s p t → is_red s p ≡ red_root t
is_red-Rep s p leaf e = rw e (unfold is_red in refl)
is_red-Rep s p (node c a l r) (e, ne, red, left, right) = rw e red

address_of-Rep : (s : Nodes) (p : ℕ) (t : Shape) → Rep s p t → p ≡ address_of t
address_of-Rep s p leaf e = e
address_of-Rep s p (node c a l r) rep = rep.0

assert_tree-check :
    (fuel : ℕ) (s : Nodes) (p : ℕ) (t : Shape)
    → Rep s p t
    → size t < fuel
    → assert_tree fuel s p ≡ check s t
unfolding assert_tree
assert_tree-check zero s p t rep h = absurd (omega arith)
assert_tree-check (suc fuel) s p leaf e h = let z : (p == 0) ≡ true = ground arith in rw z refl
assert_tree-check (suc fuel) s p (node c a l r) (e, ne, red, left, right) h =
    let some_node : (a == 0) ≡ false = ground arith in
    rw
      (
        e,
        some_node,
        red,
        is_red-Rep s (get_link s a false) l left,
        is_red-Rep s (get_link s a true) r right,
        assert_tree-check fuel s (get_link s a false) l left (omega arith),
        assert_tree-check fuel s (get_link s a true) r right (omega arith),
        address_of-Rep s (get_link s a false) l left,
        address_of-Rep s (get_link s a true) r right,
      )
      refl

left-Below :
    (s : Nodes) (p n : ℕ) (t : Shape)
    → Rep s p t
    → (not (address_of t == 0) && leb n (s (address_of t)).payload ≡ false) ↔ Below s t n
left-Below s p n leaf rep = ((λ e. tt), (λ b. refl))
left-Below s p n (node c a l r) rep =
    let ne : a ≢ 0 = rep.1 in ((λ e. ground arith), (λ b. ground arith))

right-Above :
    (s : Nodes) (p n : ℕ) (t : Shape)
    → Rep s p t
    → (not (address_of t == 0) && leb (s (address_of t)).payload n ≡ false) ↔ Above s t n
right-Above s p n leaf rep = ((λ e. tt), (λ b. refl))
right-Above s p n (node c a l r) rep =
    let ne : a ≢ 0 = rep.1 in ((λ e. ground arith), (λ b. ground arith))

or-false : (x y : Bool) → x || y ≡ false → (x ≡ false) × (y ≡ false)
or-false true y e = absurd (cc)
or-false false y e = (refl, e)

Checked-cases : (x : Checked) → ((h : ℕ) × (x ≡ height h)) ⊎ ((x ≡ violation) ⊎ (x ≡ no_fuel))
Checked-cases (height h) = inl (h, refl)
Checked-cases violation = inr (inl refl)
Checked-cases no_fuel = inr (inr refl)

abbrev height_of : Checked → ℕ
height_of (height h) = h
height_of violation = 0
height_of no_fuel = 0

Balanced-pos : (s : Nodes) (t : Shape) (h : ℕ) → Balanced s t h → 0 < h
Balanced-pos s leaf h e = omega arith
Balanced-pos s (node true a l r) h (k, left, right, e, red, below, above) =
    omega (arith, Balanced-pos s l k left)
Balanced-pos s (node false a l r) h (k, left, right, e, red, below, above) = omega arith

join_heights-same :
    (red : Bool) (k : ℕ) → 0 < k → join_heights red false k k ≡ height (if red then k else k + 1)
join_heights-same red k pos =
    let some_height : (k == 0) ≡ false = ground arith in
    let same : (k == k) ≡ true = ground arith in rw (some_height, same) refl

check-Balanced :
    (s : Nodes) (p : ℕ) (t : Shape) (h : ℕ) → Rep s p t → Balanced s t h → check s t ≡ height h
check-Balanced s p leaf h rep e = rw e refl
check-Balanced s p (node c a l r) h (at_a, ne, colour, lrep, rrep)
      (k, left, right, e, red, below, above) =
    let lesser = (left-Below s (get_link s a false) (s a).payload l lrep).1 below in
    let greater = (right-Above s (get_link s a true) (s a).payload r rrep).1 above in
    let lk = check-Balanced s (get_link s a false) l k lrep left in
    let rk = check-Balanced s (get_link s a true) r k rrep right in
    rw (red, lk, rk, lesser, greater, e) (join_heights-same c k (Balanced-pos s l k left))

heights-split :
    (red bad : Bool) (lh rh h : ℕ)
    → 0 < lh
    → 0 < rh
    → join_heights red bad lh rh ≡ height h
    → (bad ≡ false) × (lh ≡ rh) × (h ≡ (if red then lh else lh + 1))
heights-split red true lh rh h l r e = absurd (cc)
heights-split red false lh rh h l r e = elim (ℕ_discrete lh rh) [
  | yes same ↦
      let again : join_heights red false lh rh ≡ height (if red then lh else lh + 1) =
        rw (← same) (join_heights-same red lh l) in
      (refl, same, ap height_of (sym e ∙ again))
  | no other ↦
      let x : (lh == 0) ≡ false = ground arith in
      let y : (rh == 0) ≡ false = ground arith in
      let z : (lh == rh) ≡ false = ground arith in
      let stop : join_heights red false lh rh ≡ violation = rw (x, y, z) refl in absurd (cc)
]

Balanced-check :
    (s : Nodes) (p : ℕ) (t : Shape) (h : ℕ) → Rep s p t → check s t ≡ height h → Balanced s t h
Balanced-check s p leaf h rep e = sym (ap height_of e)
Balanced-check s p (node c a l r) h (at_a, ne, colour, lrep, rrep) e =
    elim (Bool-cases (c && (red_root l || red_root r))) [
      | inl red ↦ let stop : violation ≡ height h = rw red at e in absurd (cc)
      | inr black ↦ elim (Checked-cases (check s l)) [
        | inr (inl v) ↦ let stop : violation ≡ height h = rw (black, v) at e in absurd (cc)
        | inr (inr v) ↦ let stop : no_fuel ≡ height h = rw (black, v) at e in absurd (cc)
        | inl (lh, el) ↦ elim (Checked-cases (check s r)) [
          | inr (inl v) ↦ let stop : violation ≡ height h = rw (black, el, v) at e in absurd (cc)
          | inr (inr v) ↦ let stop : no_fuel ≡ height h = rw (black, el, v) at e in absurd (cc)
          | inl (rh, er) ↦
              let left = Balanced-check s (get_link s a false) l lh lrep el in
              let right = Balanced-check s (get_link s a true) r rh rrep er in
              let bad = is_bad s a (address_of l) (address_of r) in
              let both : join_heights c bad lh rh ≡ height h = rw (black, el, er) at e in
              let (good, same, total) =
                heights-split c bad lh rh h (Balanced-pos s l lh left) (Balanced-pos s r rh right)
                  both in
              let (lesser, greater) =
                or-false (not (address_of l == 0) && leb (s a).payload (s (address_of l)).payload)
                  (not (address_of r == 0) && leb (s (address_of r)).payload (s a).payload) good in
              (
                lh,
                left,
                rw (sym same) at right,
                total,
                black,
                (left-Below s (get_link s a false) (s a).payload l lrep).0 lesser,
                (right-Above s (get_link s a true) (s a).payload r rrep).0 greater,
              )
        ]
      ]
    ]

join_heights-ends : (red bad : Bool) (lh rh : ℕ) → join_heights red bad lh rh ≢ no_fuel
join_heights-ends red true lh rh e = absurd (cc)
join_heights-ends red false lh rh e = elim (Bool-cases (not (lh == 0) && not (rh == 0))) [
  | inl both ↦ elim (Bool-cases (lh == rh)) [
    | inl same ↦ absurd (let q = rw (both, same) at e in cc)
    | inr other ↦ absurd (let q = rw (both, other) at e in cc)
  ]
  | inr one ↦ absurd (let q = rw one at e in cc)
]

join_both-ends :
    (red bad : Bool) (l r : Checked) → l ≢ no_fuel → r ≢ no_fuel → join_both red bad l r ≢ no_fuel
join_both-ends red bad (height lh) (height rh) x y e = join_heights-ends red bad lh rh e
join_both-ends red bad (height lh) violation x y e = absurd (cc)
join_both-ends red bad (height lh) no_fuel x y e = y refl
join_both-ends red bad violation r x y e = absurd (cc)
join_both-ends red bad no_fuel r x y e = x refl

check-ends : (s : Nodes) (t : Shape) → check s t ≢ no_fuel
check-ends s leaf e = absurd (cc)
check-ends s (node c a l r) e = elim (Bool-cases (c && (red_root l || red_root r))) [
  | inl red ↦ let stop : violation ≡ no_fuel = rw red at e in absurd (cc)
  | inr black ↦
      join_both-ends c (is_bad s a (address_of l) (address_of r)) (check s l) (check s r)
        (check-ends s l) (check-ends s r) (rw black at e)
]

check-violation :
    (s : Nodes) (p : ℕ) (t : Shape)
    → Rep s p t
    → (check s t ≡ violation) ↔ ¬ ((k : ℕ) × Balanced s t k)
check-violation s p t rep = (
  λ v (k, b). let e = check-Balanced s p t k rep b in absurd (cc),
  λ none_fits. elim (Checked-cases (check s t)) [
    | inl (h, e) ↦ absurd (none_fits (h, Balanced-check s p t h rep e))
    | inr (inl v) ↦ v
    | inr (inr out) ↦ absurd (check-ends s t out)
  ],
)

-- On more fuel than the tree has nodes `assert_tree` returns a height exactly if the tree is balanced
-- with that height, and it stops the kernel in one of the endless loops exactly if the tree is balanced
-- with no height.
pub assert_tree-Balanced :
    (fuel : ℕ) (s : Nodes) (p h : ℕ) (t : Shape)
    → Rep s p t
    → size t < fuel
    → ((assert_tree fuel s p ≡ height h) ↔ Balanced s t h)
      × ((assert_tree fuel s p ≡ violation) ↔ ¬ ((k : ℕ) × Balanced s t k))
assert_tree-Balanced fuel s p h t rep enough =
    let e = assert_tree-check fuel s p t rep enough in
    let stop = check-violation s p t rep in
    (
      ((λ q. Balanced-check s p t h rep (sym e ∙ q)), (λ b. e ∙ check-Balanced s p t h rep b)),
      ((λ q. stop.0 (sym e ∙ q)), (λ b. e ∙ stop.1 b)),
    )

-- A balanced tree has at least as many nodes as a full one of its height.
pub Balanced-size : (s : Nodes) (t : Shape) (h : ℕ) → Balanced s t h → 2 ^ h ≤ 2 * (size t + 1)
Balanced-size s leaf h e = rw e (omega arith)
Balanced-size s (node true a l r) h (k, left, right, e, red, below, above) =
    rw e (omega (arith, Balanced-size s l k left))
Balanced-size s (node false a l r) h (k, left, right, e, red, below, above) =
    let next : k + 1 ≡ suc k = omega arith in
    rw (e, next) (omega (arith, Balanced-size s l k left, Balanced-size s r k right, pow-suc 2 k))
