-- ===== src/RbTree/First.antt =====
-- `insert_rbnode` of kernel/rb_tree.c on a tree without nodes.
use toutatis.Common.{ℕ, ◌≡◌, ◌≢◌, refl, ◌∙◌, arith, Bool, true, false, some, ◌==◌}
use toutatis.Common.Store.{update}
use toutatis.RbTree.{Nodes, Sign, Tree, paint_black, get_link, set_dup, set_link}
use toutatis.RbTree.Links.{
  get_link-set_link, get_link-paint_red, get_link-paint_black, is_red-paint_black,
}
use toutatis.RbTree.Insert.{fresh, insert_rbnode}
use toutatis.RbTree.Rotate.{leaf, node, Rep}

get_link-set_dup :
    (s : Nodes) (p q v : ℕ) (j : Bool) → get_link (set_dup s p v) q j ≡ get_link s q j
unfolding get_link set_dup update
get_link-set_dup s p q v false = ground arith
get_link-set_dup s p q v true = ground arith

get_link-fresh : (s : Nodes) (x : ℕ) (j : Bool) → get_link (fresh s x) x j ≡ 0
unfolding fresh
get_link-fresh s x j =
    get_link-paint_red (set_dup (set_link (set_link s x false 0) x true 0) x 0) x x j
    ∙ get_link-set_dup (set_link (set_link s x false 0) x true 0) x x 0 j
    ∙ unlinked j
  where
    itself : (x == x) ≡ true
    itself = ground arith

    unlinked : (j : Bool) → get_link (set_link (set_link s x false 0) x true 0) x j ≡ 0
    unlinked true = get_link-set_link (set_link s x false 0) x true 0 x true refl ∙ rw itself refl
    unlinked false =
        get_link-set_link (set_link s x false 0) x true 0 x false refl
        ∙ rw itself (get_link-set_link s x false 0 x false refl ∙ rw itself refl)

-- The first node of a tree becomes its black root, without children, and the insertion ends on any fuel.
pub insert_rbnode-first :
    (cmp : ℕ → ℕ → ℕ → Sign) (fuel head : ℕ) (tree : Tree) (x : ℕ)
    → tree.root ≡ 0
    → x ≢ 0
    → (t : Tree) × (insert_rbnode cmp fuel head tree x ≡ some (true, t))
      × (t.root ≡ x)
      × (t.num_nodes ≡ 1)
      × Rep t.nodes x (node false x leaf leaf)
unfolding insert_rbnode
insert_rbnode-first cmp fuel head tree x none ne =
    let given : (x == 0) ≡ false = ground arith in
    let itself : (x == x) ≡ true = ground arith in
    let s = fresh tree.nodes x in
    (
      record { nodes = paint_black s x; root = x; num_nodes = 1; num_dup = 0 },
      rw (given, none) refl,
      refl,
      refl,
      (
        refl,
        ne,
        is_red-paint_black s x x ∙ rw itself refl,
        get_link-paint_black s x x false ∙ get_link-fresh tree.nodes x false,
        get_link-paint_black s x x true ∙ get_link-fresh tree.nodes x true,
      ),
    )
