-- ===== src/RbTree/Remove.antt =====
-- `remove_rbnode` of kernel/rb_tree.c: a red node is pushed down on the way to the in-order predecessor,
-- which then takes the place of the node that was found.
use toutatis.Common.{
  ℕ, zero, suc, ◌+◌, ◌-◌, ◌%◌, ◌^◌, Bool, true, false, not, ◌&&◌, Option, none, some, ◌==◌,
  if◌then◌else◌,
}
use toutatis.Common.Store.{update}
use toutatis.RbTree.{
  Node, Nodes, Sign, Tree, is_negative, is_zero_sign, is_red, paint_red, paint_black, copy_color,
  get_link, get_dup, set_link, set_dup, set_rotated,
}

-- The local variables of the search: the node, its parent and grandparent, the node that was found and
-- its parent, and the direction.
pub record Hunt : Type 0 where
  pub n : ℕ
  pub p : ℕ
  pub g : ℕ
  pub f : ℕ
  pub fp : ℕ
  pub dir : Bool

-- A black node whose next child is black: the other child is red.
pub pull_red : Nodes → Hunt → Bool → Nodes × Hunt
unfolding set_rotated get_link
pull_red s h last =
    let s1 = set_rotated s h.p last h.n h.dir in
    let p1 = get_link s1 h.p last in (s1, record h { p = p1; fp = if h.f == h.n then p1 else h.fp })

-- The rotations about the parent when the sibling `w` has a red child.
pub borrow : Nodes → Hunt → Bool → ℕ → Nodes
unfolding is_red get_link set_rotated
borrow s h last w =
    let dir2 = get_link s h.g true == h.p in
    if is_red s (get_link s w (not last))
    then set_rotated s h.g dir2 h.p last
    else (if is_red s (get_link s w last)
        then (let s1 = set_rotated s h.p (not last) (get_link s h.p (not last)) (not last) in
            set_rotated s1 h.g dir2 h.p last)
        else s)

-- The colours after these rotations.
pub recolor : Nodes → ℕ → ℕ → Bool → Nodes
unfolding paint_red paint_black get_link
recolor s n g dir2 =
    let s1 = paint_red s n in
    let s2 = paint_red s1 (get_link s1 g dir2) in
    let s3 = paint_black s2 (get_link s2 (get_link s2 g dir2) false) in
    paint_black s3 (get_link s3 (get_link s3 g dir2) true)

pub use_sibling : Nodes → Hunt → Bool → Nodes × Hunt
unfolding is_red get_link paint_red paint_black borrow recolor
use_sibling s h last =
    let w = get_link s h.p (not last) in
    let dir2 = get_link s h.g true == h.p in
    let s1 = recolor (borrow s h last w) h.n h.g dir2 in
    if w == 0
    then (s, h)
    else (if not (is_red s (get_link s w false)) && not (is_red s (get_link s w true))
        then (paint_red (paint_red (paint_black s h.p) w) h.n, h)
        else (s1, record h { fp = if h.f == h.p then get_link s1 h.g dir2 else h.fp }))

-- One step down, and the work that keeps a red node there.
pub push_red : Nodes → Hunt → Bool → Nodes × Hunt
unfolding is_red get_link pull_red use_sibling
push_red s h last =
    if not (is_red s h.n) && not (is_red s (get_link s h.n h.dir))
    then (if is_red s (get_link s h.n (not h.dir)) then pull_red s h last else use_sibling s h last)
    else (s, h)

pub advance : Nodes → Hunt → Sign → ℕ → Hunt
advance s h res n = record {
  n = n;
  p = h.n;
  g = h.p;
  f = if is_zero_sign res then n else h.f;
  fp = if is_zero_sign res then h.n else h.fp;
  dir = is_negative res;
}

-- The loop, with fuel; `none` means that the fuel ran out.
pub remove_loop : (ℕ → ℕ → ℕ → Sign) → ℕ → ℕ → Nodes → Hunt → Option (Nodes × Hunt)
unfolding get_link push_red advance
remove_loop compare sought zero s h = none
remove_loop compare sought (suc fuel) s h =
    let n = get_link s h.n h.dir in
    let (s1, h1) = push_red s (advance s h (compare n (s n).payload sought) n) h.dir in
    let rest = remove_loop compare sought fuel s1 h1 in if n == 0 then some (s, h) else rest

-- The walk along the duplicates: the one that fits, 0 for none, and the node before it.
pub find_dup : (ℕ → Bool) → ℕ → Nodes → ℕ → ℕ → Option (ℕ × ℕ)
unfolding get_dup
find_dup select zero s before node = none
find_dup select (suc fuel) s before node =
    let rest = find_dup select fuel s node (get_dup s node) in
    if not (node == 0) && not (select node) then rest else some (node, before)

-- The first duplicate of `f` takes its place in the tree.
pub promote_dup : Tree → ℕ → ℕ → Tree
unfolding get_dup get_link set_link copy_color
promote_dup tree f fp =
    let s = tree.nodes in
    let d = get_dup s f in
    let s1 = set_link s d false (get_link s f false) in
    let s2 = set_link s1 d true (get_link s1 f true) in
    let s3 = set_link s2 fp (get_link s2 fp true == f) d in
    record tree { nodes = copy_color s3 f d; num_dup = (tree.num_dup + 2 ^ 32 - 1) % 2 ^ 32 }

-- What the search for a duplicate leads to: the node taken, 0 for none.
pub take_dup : (ℕ → Bool) → Tree → ℕ → ℕ → ℕ × ℕ → Tree × ℕ
unfolding promote_dup get_dup set_dup
take_dup select tree f fp (node, before) =
    if node == 0 then (if select f then (promote_dup tree f fp, f) else (tree, 0)) else (
      record tree {
        nodes = set_dup tree.nodes before (get_dup tree.nodes node);
        num_dup = (tree.num_dup + 2 ^ 32 - 1) % 2 ^ 32;
      },
      node,
    )

-- The node at the bottom leaves, and takes the place of the node that was found.
pub unlink_node : Tree → Hunt → Tree
unfolding get_link set_link copy_color
unlink_node tree h =
    let s = tree.nodes in
    let s1 =
      set_link s h.p (get_link s h.p true == h.n) (get_link s h.n (get_link s h.n false == 0)) in
    let s2 = set_link s1 h.n false (get_link s1 h.f false) in
    let s3 = set_link s2 h.n true (get_link s2 h.f true) in
    let s4 = set_link s3 h.fp (get_link s3 h.fp true == h.f) h.n in
    record tree {
      nodes = if h.n == h.f then s1 else copy_color s4 h.f h.n;
      num_nodes = (tree.num_nodes + 2 ^ 32 - 1) % 2 ^ 32;
    }

-- The root is read from the dummy and painted black.
pub close_root : Tree → ℕ → Tree
unfolding get_link paint_black
close_root tree head =
    let top = get_link tree.nodes head true in
    record tree { root = top; nodes = if top == 0 then tree.nodes else paint_black tree.nodes top }

pub take_found : (ℕ → Bool) → ℕ → Tree → Hunt → Option (Tree × ℕ)
unfolding get_dup find_dup take_dup unlink_node
take_found select fuel tree h =
    if not (h.f == 0) && not (get_dup tree.nodes h.f == 0)
    then elim (find_dup select fuel tree.nodes h.f (get_dup tree.nodes h.f)) [
      | none ↦ none
      | some found ↦ some (take_dup select tree h.f h.fp found)
    ]
    else some (if h.f == 0 then tree else unlink_node tree h, h.f)

-- The tree that is left, and the node that was removed, 0 for none.
unfoldable pub remove_rbnode :
    (ℕ → ℕ → ℕ → Sign) → (ℕ → Bool) → ℕ → ℕ → Tree → ℕ → Option (Tree × ℕ)
unfolding set_link remove_loop take_found close_root
remove_rbnode compare select fuel head tree sought =
    let dummy : Node = record { payload = 0; link0 = 0; link1 = 0; link2 = 0 } in
    let s = set_link (update tree.nodes head dummy) head true tree.root in
    let start : Hunt = record { n = head; p = 0; g = 0; f = 0; fp = 0; dir = true } in
    if tree.root == 0 then some (tree, 0) else elim (remove_loop compare sought fuel s start) [
      | none ↦ none
      | some (s1, h) ↦ elim (take_found select fuel (record tree { nodes = s1 }) h) [
        | none ↦ none
        | some (tree1, taken) ↦ some (close_root tree1 head, taken)
      ]
    ]
