-- ===== src/RbTree/Insert.antt =====
-- `insert_rbnode` of kernel/rb_tree.c: one way down from the root, with colour flips and rotations as it
-- goes.
use toutatis.Common.{
  ℕ, zero, suc, ◌+◌, ◌%◌, ◌^◌, Bool, true, false, not, ◌&&◌, Option, none, some, ◌==◌,
  if◌then◌else◌,
}
use toutatis.Common.Store.{update}
use toutatis.RbTree.{
  Node, Nodes, Sign, Tree, is_negative, is_zero_sign, is_red, paint_red, paint_black, get_link,
  get_dup, set_link, set_dup, set_rotated,
}

-- The local variables of the search.
pub record Cursor : Type 0 where
  pub t : ℕ
  pub g : ℕ
  pub p : ℕ
  pub n : ℕ
  pub dir : Bool
  pub last : Bool
  pub duplicate : Bool

unfoldable pub flip : Nodes → ℕ → Nodes
unfolding paint_red paint_black get_link
flip s n =
    let s1 = paint_red s n in
    let s2 = paint_black s1 (get_link s1 n false) in paint_black s2 (get_link s2 n true)

-- A node at the bottom is linked in, and a black node with two red children is flipped.
unfoldable pub place : Tree → Cursor → ℕ → Tree × Cursor
unfolding set_link is_red flip get_link
place tree c node =
    let s = tree.nodes in
    if c.n == 0
    then (
      record tree { nodes = set_link s c.p c.dir node; num_nodes = (tree.num_nodes + 1) % 2 ^ 32 },
      record c { n = node; duplicate = false },
    )
    else (if is_red s (get_link s c.n false) && is_red s (get_link s c.n true)
        then (record tree { nodes = flip s c.n }, c)
        else (tree, c))

-- Two red nodes in a row: one rotation about the grandparent, or two.
unfoldable pub repair : Nodes → Cursor → Nodes
unfolding is_red get_link set_rotated
repair s c =
    let dir2 = get_link s c.t true == c.g in
    if is_red s c.n && is_red s c.p
    then (if c.n == get_link s c.p c.last
        then set_rotated s c.t dir2 c.g (not c.last)
        else (let s1 = set_rotated s c.g c.last (get_link s c.g c.last) c.last in
            set_rotated s1 c.t dir2 c.g (not c.last)))
    else s

-- The new node goes behind `n` in its list of duplicates.
unfoldable pub add_dup : Tree → ℕ → ℕ → Tree
unfolding get_dup set_dup
add_dup tree n node =
    let s = tree.nodes in
    let s1 = set_dup s node (get_dup s n) in
    record tree { nodes = set_dup s1 n node; num_dup = (tree.num_dup + 1) % 2 ^ 32 }

-- The step down in the direction of the comparison.
unfoldable pub descend : Nodes → Cursor → Bool → Cursor
unfolding get_link
descend s c dir = record {
  t = if c.g == 0 then c.t else c.g;
  g = c.p;
  p = c.n;
  n = get_link s c.n dir;
  dir = dir;
  last = c.dir;
  duplicate = c.duplicate;
}

-- The loop, with fuel; `none` means that the fuel ran out.
unfoldable pub insert_loop : (ℕ → ℕ → ℕ → Sign) → ℕ → Tree → Cursor → ℕ → Option Tree
unfolding place repair add_dup descend
insert_loop compare zero tree c node = none
insert_loop compare (suc fuel) tree c node =
    let (tree1, c1) = place tree c node in
    let s = repair tree1.nodes c1 in
    let tree2 = record tree1 { nodes = s } in
    let res = compare c1.n (s c1.n).payload (s node).payload in
    let rest = insert_loop compare fuel tree2 (descend s c1 (is_negative res)) node in
    if is_zero_sign res
    then some (if c1.duplicate && not (c1.n == node) then add_dup tree2 c1.n node else tree2)
    else rest

-- A fresh node: no links, red.
unfoldable pub fresh : Nodes → ℕ → Nodes
unfolding set_link set_dup paint_red
fresh s node = paint_red (set_dup (set_link (set_link s node false 0) node true 0) node 0) node

-- `head` is the address of the dummy root on the stack. The result tells whether a node was given.
unfoldable pub insert_rbnode : (ℕ → ℕ → ℕ → Sign) → ℕ → ℕ → Tree → ℕ → Option (Bool × Tree)
unfolding fresh insert_loop
insert_rbnode compare fuel head tree node =
    let s = fresh tree.nodes node in
    let dummy : Node = record { payload = 0; link0 = 0; link1 = 0; link2 = 0 } in
    let s1 = set_link (update s head dummy) head true tree.root in
    let start : Cursor = record {
      t = head;
      g = 0;
      p = 0;
      n = tree.root;
      dir = false;
      last = false;
      duplicate = true;
    } in
    if node == 0
    then some (false, tree)
    else (if tree.root == 0
        then some
            (true, record { nodes = paint_black s node; root = node; num_nodes = 1; num_dup = 0 })
        else elim (insert_loop compare fuel (record tree { nodes = s1 }) start node) [
          | none ↦ none
          | some done ↦
              let top = get_link done.nodes head true in
              some (true, record done { nodes = paint_black done.nodes top; root = top })
        ])
