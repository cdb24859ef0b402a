-- ===== src/RbTree/Tests.antt =====
-- Trees built and taken apart by the model, and the theorems at some of their states.
use toutatis.Common.{
  ℕ, zero, suc, ◌≡◌, ◌≢◌, ◌↔◌, refl, arith, Bool, true, false, Option, none, some, List, [], ◌∷◌,
  ◌==◌, ltb, if◌then◌else◌,
}
use toutatis.Common.Store.{update}
use toutatis.RbTree.{Nodes, Sign, negative, zero_sign, positive, Tree, is_red, get_link, rotate}
use toutatis.RbTree.Insert.{insert_rbnode}
use toutatis.RbTree.Remove.{remove_rbnode}
use toutatis.RbTree.Lookup.{lookup_rbnode, first_match, lookup_rbnode-Straight}
use toutatis.RbTree.Check.{height, violation, assert_tree}
use toutatis.RbTree.Balanced.{Balanced, assert_tree-Balanced}
use toutatis.RbTree.Rotate.{Shape, leaf, node, inorder, Rep, rotate-Rep}

abbrev by_payload : ℕ → ℕ → ℕ → Sign
by_payload p d sought =
    if ltb d sought then negative else (if ltb sought d then positive else zero_sign)

-- Every node has its own address for its data.
abbrev empty : Tree
empty = record {
  nodes = λ p. record { payload = p; link0 = 0; link1 = 0; link2 = 0 };
  root = 0;
  num_nodes = 0;
  num_dup = 0;
}

insert_all : Tree → List ℕ → Tree
insert_all tree [] = tree
insert_all tree (x ∷ xs) = elim (insert_rbnode by_payload 9 1000 tree x) [
  | none ↦ tree
  | some (_, tree') ↦ insert_all tree' xs
]

shape : ℕ → Nodes → ℕ → Shape
shape zero s p = leaf
shape (suc fuel) s p =
    if p == 0
    then leaf
    else node (is_red s p) p (shape fuel s (get_link s p false)) (shape fuel s (get_link s p true))

abbrev one : Bool → ℕ → Shape
one c a = node c a leaf leaf

removed : Tree → ℕ → Option (ℕ × ℕ × Shape)
removed tree x = elim (remove_rbnode by_payload (λ _. true) 9 1000 tree x) [
  | none ↦ none
  | some (tree', taken) ↦ some (taken, tree'.num_nodes, shape 9 tree'.nodes tree'.root)
]

grows :
    let tree = insert_all empty (10 ∷ 20 ∷ 30 ∷ 40 ∷ 50 ∷ 60 ∷ 36 ∷ []) in
    (shape 9 tree.nodes tree.root
      ≡ node false 20
          (one false 10)
          (node true 40 (node false 30 leaf (one true 36)) (node false 50 leaf (one true 60))))
    × (tree.num_nodes ≡ 7)
unfolding insert_all insert_rbnode shape is_red get_link update
grows = (refl, refl)

shrinks :
    removed (insert_all empty (10 ∷ 20 ∷ 30 ∷ 40 ∷ [])) 20
    ≡ some (20, 3, node false 30 (one false 10) (one false 40))
unfolding insert_all insert_rbnode remove_rbnode shape is_red get_link update removed
shrinks = refl

-- 30 under 20 under 10, on the right.
abbrev spine : Nodes
spine p = record {
  payload = p;
  link0 = if p == 20 then 1 else 0;
  link1 = if p == 10 then 20 else (if p == 20 then 30 else 0);
  link2 = 0;
}

rotate-Rep_example :
    ((rotate spine 10 false).1 ≡ 20)
    × Rep (rotate spine 10 false).0 20 (node false 20 (one true 10) (one false 30))
    × ((q : ℕ) → q ≢ 10 → q ≢ 20 → (rotate spine 10 false).0 q ≡ spine q)
    × (inorder (node false 20 (one true 10) (one false 30))
        ≡ inorder (node false 10 leaf (node true 20 leaf (one false 30))))
unfolding get_link is_red
rotate-Rep_example =
    rotate-Rep spine 10 20 false false true leaf leaf (one false 30) refl (omega arith)
      (tt, tt, omega arith, tt, tt, omega arith)
      (
        refl,
        omega arith,
        refl,
        refl,
        (refl, omega arith, refl, refl, (refl, omega arith, refl, refl, refl)),
      )

abbrev chain : Tree
chain = record empty { nodes = spine; root = 10 }

lookup_rbnode-Straight_example :
    lookup_rbnode by_payload 5 chain 30 ≡ some (first_match by_payload spine 30 (10 ∷ 20 ∷ 30 ∷ []))
unfolding get_link
lookup_rbnode-Straight_example =
    lookup_rbnode-Straight by_payload 5 chain 30 (20 ∷ 30 ∷ []) (omega arith)
      (refl, omega arith, (refl, omega arith, refl)) (omega arith)

-- A node that is in the tree, and not on the line.
lookup_misses : lookup_rbnode by_payload 9 (insert_all empty (10 ∷ 20 ∷ 30 ∷ 25 ∷ [])) 25 ≡ some 0
unfolding insert_all insert_rbnode lookup_rbnode update
lookup_misses = refl

abbrev is_some : Option (Bool × Tree) → Bool
is_some none = false
is_some (some r) = true

-- 8 goes into the tree with the node 5.
abbrev with_five : Tree
with_five = record {
  nodes = λ p. record { payload = p; link0 = 0; link1 = 0; link2 = 0 };
  root = 5;
  num_nodes = 1;
  num_dup = 0;
}

second : Option (Bool × Tree)
second = insert_rbnode by_payload 9 1000 with_five 8

second-some : is_some second ≡ true
unfolding second insert_rbnode update
second-some = refl

-- A black node at 8 with a red one at 4 on its left.
abbrev pair : Nodes
pair p = record {
  payload = p;
  link0 = if p == 8 then 4 else (if p == 4 then 1 else 0);
  link1 = 0;
  link2 = 0;
}

abbrev pair_shape : Shape
pair_shape = node false 8 (node true 4 leaf leaf) leaf

assert_tree-Balanced_example :
    ((assert_tree 5 pair 8 ≡ height 2) ↔ Balanced pair pair_shape 2)
    × ((assert_tree 5 pair 8 ≡ violation) ↔ ¬ ((k : ℕ) × Balanced pair pair_shape k))
unfolding is_red get_link
assert_tree-Balanced_example =
    assert_tree-Balanced 5 pair 8 2 pair_shape
      (
        refl,
        (λ e. absurd (omega arith)),
        refl,
        (refl, (λ e. absurd (omega arith)), refl, refl, refl),
        refl,
      )
      (omega arith)

assert_tree_run : assert_tree 5 pair 8 ≡ height 2
unfolding assert_tree is_red get_link
assert_tree_run = refl
