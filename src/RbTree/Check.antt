-- ===== src/RbTree/Check.antt =====
-- `assert_tree` of kernel/rb_tree.c, the check of a tree. A violation ends in an endless loop, which is
-- a result here; the walk runs on fuel, one unit for each level.
use toutatis.Common.{
  ℕ, zero, suc, ◌+◌, Bool, true, false, not, ◌&&◌, ◌||◌, ◌==◌, leb, if◌then◌else◌,
}
use toutatis.RbTree.{Nodes, is_red, get_link}

pub data Checked : Type 0 where
  height : ℕ → Checked
  violation : Checked
  no_fuel : Checked

-- The checks behind the two calls: `bad` says that a child has the wrong data.
abbrev pub join_heights : Bool → Bool → ℕ → ℕ → Checked
join_heights red bad lh rh =
    if bad
    then violation
    else (if not (lh == 0) && not (rh == 0) && not (lh == rh)
        then violation
        else height (if not (lh == 0) && not (rh == 0) then (if red then lh else lh + 1) else 0))

-- The result of the left subtree, then of the right one.
abbrev pub join_right : Bool → Bool → ℕ → Checked → Checked
join_right red bad lh (height rh) = join_heights red bad lh rh
join_right red bad lh violation = violation
join_right red bad lh no_fuel = no_fuel

abbrev pub join_both : Bool → Bool → Checked → Checked → Checked
join_both red bad (height lh) right = join_right red bad lh right
join_both red bad violation right = violation
join_both red bad no_fuel right = no_fuel

-- A child on the left is smaller, one on the right is greater.
abbrev pub is_bad : Nodes → ℕ → ℕ → ℕ → Bool
is_bad s p ln rn =
    not (ln == 0) && leb (s p).payload (s ln).payload
    || not (rn == 0) && leb (s rn).payload (s p).payload

unfoldable pub assert_tree : ℕ → Nodes → ℕ → Checked
assert_tree zero s p = no_fuel
assert_tree (suc fuel) s p =
    let ln = get_link s p false in
    let rn = get_link s p true in
    let left = assert_tree fuel s ln in
    let right = assert_tree fuel s rn in
    if p == 0
    then height 1
    else (if is_red s p && (is_red s ln || is_red s rn)
        then violation
        else join_both (is_red s p) (is_bad s p ln rn) left right)
