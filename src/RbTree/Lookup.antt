-- ===== src/RbTree/Lookup.antt =====
-- `lookup_rbnode` of kernel/rb_tree.c.
use toutatis.Common.{
  ℕ, zero, suc, ◌<◌, ◌≡◌, ◌≢◌, Bool, ◌||◌, Option, none, some, ◌==◌, if◌then◌else◌, List, [], ◌∷◌,
  length, arith,
}
use toutatis.RbTree.{Nodes, Sign, Tree, is_negative, is_zero_sign, get_link}

-- The loop, with fuel. The result `res` that directs it is that of the first comparison: the one inside
-- the loop is a variable of its own.
pub lookup_loop : (ℕ → ℕ → ℕ → Sign) → Nodes → ℕ → Bool → ℕ → ℕ → Bool → Option ℕ
unfolding get_link
lookup_loop compare s data_sought dir zero node found = none
lookup_loop compare s data_sought dir (suc fuel) node found =
    let child = get_link s node dir in
    let rest =
      lookup_loop compare s data_sought dir fuel child
        (is_zero_sign (compare child (s child).payload data_sought)) in
    if found || child == 0 then some (if found then node else 0) else rest

-- `some 0` is the result NULL.
unfoldable pub lookup_rbnode : (ℕ → ℕ → ℕ → Sign) → ℕ → Tree → ℕ → Option ℕ
unfolding lookup_loop
lookup_rbnode compare fuel tree data_sought =
    let res = compare tree.root (tree.nodes tree.root).payload data_sought in
    lookup_loop compare tree.nodes data_sought (is_negative res) fuel tree.root (is_zero_sign res)

-- The nodes from `p` on in one direction, down to the end.
abbrev pub Straight : Nodes → Bool → ℕ → List ℕ → Type 0
Straight s dir p [] = p ≡ 0
Straight s dir p (x ∷ xs) = (p ≡ x) × (x ≢ 0) × Straight s dir (get_link s x dir) xs

-- The first node of a list that matches, 0 for none.
abbrev pub first_match : (ℕ → ℕ → ℕ → Sign) → Nodes → ℕ → List ℕ → ℕ
first_match compare s sought [] = 0
first_match compare s sought (x ∷ xs) =
    if is_zero_sign (compare x (s x).payload sought) then x else first_match compare s sought xs

module _ (compare : ℕ → ℕ → ℕ → Sign) (s : Nodes) (sought : ℕ) (dir : Bool) where
  lookup_loop-Straight :
      (fuel x : ℕ) (xs : List ℕ)
      → x ≢ 0
      → Straight s dir (get_link s x dir) xs
      → length xs < fuel
      → lookup_loop compare s sought dir fuel x (is_zero_sign (compare x (s x).payload sought))
        ≡ some (first_match compare s sought (x ∷ xs))
  unfolding lookup_loop
  lookup_loop-Straight zero x xs x0 st h = absurd (omega arith)
  lookup_loop-Straight (suc fuel) x [] x0 st h = rw st (ground arith)
  lookup_loop-Straight (suc fuel) x (y ∷ ys) x0 (e, y0, st) h =
      rw e (ground (arith, lookup_loop-Straight fuel y ys y0 st (omega arith)))

-- The lookup in a tree that is not empty ends, if the straight line of nodes from the root in the
-- direction of the first comparison is no longer than the fuel, and returns the first match on that
-- line, NULL if there is none. Nodes off the line are never looked at.
pub lookup_rbnode-Straight :
    (compare : ℕ → ℕ → ℕ → Sign) (fuel : ℕ) (tree : Tree) (sought : ℕ) (xs : List ℕ)
    → tree.root ≢ 0
    → let dir = is_negative (compare tree.root (tree.nodes tree.root).payload sought) in
      Straight tree.nodes dir (get_link tree.nodes tree.root dir) xs
      → length xs < fuel
      → lookup_rbnode compare fuel tree sought
        ≡ some (first_match compare tree.nodes sought (tree.root ∷ xs))
unfolding lookup_rbnode
lookup_rbnode-Straight compare fuel tree sought xs r st h =
    lookup_loop-Straight compare tree.nodes sought
      (is_negative (compare tree.root (tree.nodes tree.root).payload sought)) fuel tree.root xs r st
      h
