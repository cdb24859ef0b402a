-- ===== src/RbTree/Links.antt =====
-- What the macros of kernel/rb_tree.c read after they have written.
use toutatis.Common.{ℕ, ◌%◌, ◌≡◌, ◌≢◌, arith, Bool, true, false, ◌&&◌, ◌==◌, if◌then◌else◌}
use toutatis.Common.Store.{update}
use toutatis.RbTree.{Nodes, is_red, paint_red, paint_black, get_link, set_link}

abbrev pub same_dir : Bool → Bool → Bool
same_dir false false = true
same_dir true true = true
same_dir _ _ = false

pub get_link-even : (s : Nodes) (p : ℕ) (i : Bool) → get_link s p i % 2 ≡ 0
unfolding get_link
get_link-even s p false = omega arith
get_link-even s p true = omega arith

pub get_link-set_link :
    (s : Nodes) (p : ℕ) (i : Bool) (v q : ℕ) (j : Bool)
    → v % 2 ≡ 0
    → get_link (set_link s p i v) q j ≡ (if (q == p) && same_dir i j then v else get_link s q j)
unfolding get_link set_link update
get_link-set_link s p false v q false h = ground arith
get_link-set_link s p false v q true h = ground arith
get_link-set_link s p true v q false h = ground arith
get_link-set_link s p true v q true h = ground arith

pub get_link-paint_red :
    (s : Nodes) (p q : ℕ) (j : Bool) → get_link (paint_red s p) q j ≡ get_link s q j
unfolding get_link paint_red update
get_link-paint_red s p q false = ground arith
get_link-paint_red s p q true = ground arith

pub get_link-paint_black :
    (s : Nodes) (p q : ℕ) (j : Bool) → get_link (paint_black s p) q j ≡ get_link s q j
unfolding get_link paint_black update
get_link-paint_black s p q false = ground arith
get_link-paint_black s p q true = ground arith

pub is_red-set_link :
    (s : Nodes) (p : ℕ) (i : Bool) (v q : ℕ) → is_red (set_link s p i v) q ≡ is_red s q
unfolding is_red set_link update
is_red-set_link s p false v q = ground arith
is_red-set_link s p true v q = ground arith

pub is_red-paint_red :
    (s : Nodes) (p q : ℕ) → p ≢ 0 → is_red (paint_red s p) q ≡ (if q == p then true else is_red s q)
unfolding is_red paint_red update
is_red-paint_red s p q h = ground arith

pub is_red-paint_black :
    (s : Nodes) (p q : ℕ) → is_red (paint_black s p) q ≡ (if q == p then false else is_red s q)
unfolding is_red paint_black update
is_red-paint_black s p q = ground arith

pub other-set_link : (s : Nodes) (p : ℕ) (i : Bool) (v q : ℕ) → q ≢ p → set_link s p i v q ≡ s q
unfolding set_link update
other-set_link s p false v q h = ground arith
other-set_link s p true v q h = ground arith

pub other-paint_red : (s : Nodes) (p q : ℕ) → q ≢ p → paint_red s p q ≡ s q
unfolding paint_red update
other-paint_red s p q h = ground arith

pub other-paint_black : (s : Nodes) (p q : ℕ) → q ≢ p → paint_black s p q ≡ s q
unfolding paint_black update
other-paint_black s p q h = ground arith
