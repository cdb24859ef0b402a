-- ===== src/RbTree.antt =====
-- The red black tree of kernel/rb_tree.c. Nodes stand at addresses, 0 is NULL; the colour of a node is
-- the last bit of its `link[0]`, so a link is a word whose last bit is not part of the address.
pub mod First
pub mod Insert
pub mod Remove
pub mod Lookup
pub mod Links
pub mod Rotate
pub mod Payload
pub mod Check
pub mod Balanced
mod Tests
use toutatis.Common.{
  ℕ, zero, suc, ◌+◌, ◌*◌, ◌/◌, ◌%◌, Bool, true, false, not, ◌&&◌, Option, none, some, ◌==◌,
  if◌then◌else◌,
}
use toutatis.Common.Store.{update}

-- `rb_node_t`
pub record Node : Type 0 where
  pub payload : ℕ
  pub link0 : ℕ
  pub link1 : ℕ
  pub link2 : ℕ

abbrev pub Nodes : Type 0
Nodes = ℕ → Node

-- The sign of what a `compare_t` returns.
pub data Sign : Type 0 where
  negative zero_sign positive : Sign

abbrev pub is_negative : Sign → Bool
is_negative negative = true
is_negative _ = false

abbrev pub is_zero_sign : Sign → Bool
is_zero_sign zero_sign = true
is_zero_sign _ = false

-- `rb_tree_t`, with the nodes that it leads to. `compare` is given a node, its `data` and the data
-- looked for, and `select_dup` a node; the `args` of a call are fixed in them.
pub record Tree : Type 0 where
  pub nodes : Nodes
  pub root : ℕ
  pub num_nodes : ℕ
  pub num_dup : ℕ

-- The address part and the colour bit of a link word.
abbrev pub address : ℕ → ℕ
address w = w / 2 * 2

abbrev pub join : ℕ → ℕ → ℕ
join w v = w % 2 + address v

-- `is_red`; a NULL node is black.
unfoldable pub is_red : Nodes → ℕ → Bool
is_red s p = not (p == 0) && ((s p).link0 % 2 == 1)

pub paint_red : Nodes → ℕ → Nodes
paint_red s p = update s p (record (s p) { link0 = address (s p).link0 + 1 })

pub paint_black : Nodes → ℕ → Nodes
paint_black s p = update s p (record (s p) { link0 = address (s p).link0 })

-- `copy_color(src, dst)`
pub copy_color : Nodes → ℕ → ℕ → Nodes
copy_color s src dst =
    update s dst (record (s dst) { link0 = address (s dst).link0 + (s src).link0 % 2 })

-- `get_link(node, i)` at the index 0 or 1, by a truth value, and at the index 2.
unfoldable pub get_link : Nodes → ℕ → Bool → ℕ
get_link s p false = address (s p).link0
get_link s p true = address (s p).link1

pub get_dup : Nodes → ℕ → ℕ
get_dup s p = address (s p).link2

-- `set_link(node, i, val)`
pub set_link : Nodes → ℕ → Bool → ℕ → Nodes
set_link s p false v = update s p (record (s p) { link0 = join (s p).link0 v })
set_link s p true v = update s p (record (s p) { link1 = join (s p).link1 v })

pub set_dup : Nodes → ℕ → ℕ → Nodes
set_dup s p v = update s p (record (s p) { link2 = join (s p).link2 v })

-- The new root comes beside the nodes.
pub rotate : Nodes → ℕ → Bool → Nodes × ℕ
unfolding get_link set_link paint_red paint_black
rotate s root dir =
    let save = get_link s root (not dir) in
    let s1 = set_link s root (not dir) (get_link s save dir) in
    let s2 = set_link s1 save dir root in (paint_black (paint_red s2 root) save, save)

-- `set_link(node, i, rotate(root, dir))`
pub set_rotated : Nodes → ℕ → Bool → ℕ → Bool → Nodes
unfolding rotate
set_rotated s p i root dir = let (s', top) = rotate s root dir in set_link s' p i top

pub init_rbtree : Tree → Tree
init_rbtree tree = record tree { root = 0 }
