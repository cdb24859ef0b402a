-- ===== src/RbTree/Payload.antt =====
-- kernel/rb_tree.c changes links and colours: what becomes of the data of the nodes.
use toutatis.Common.{
  ℕ, zero, suc, ◌≡◌, ◌≢◌, inl, inr, refl, sym, ◌∙◌, ap, Bool, true, false, not, ◌&&◌, Bool-cases,
  Option-cases, Option, some, ◌==◌,
}
use mathlib.Core.Path.{subst}
use mathlib.Core.Option.{some-injective, some-ne-none}
use toutatis.Common.Store.{update, update-cases, update_ne}
use toutatis.RbTree.{
  Node, Nodes, Sign, Tree, is_negative, is_zero_sign, is_red, paint_red, paint_black, copy_color,
  get_link, get_dup, set_link, set_dup, rotate, set_rotated,
}
use toutatis.RbTree.Insert.{
  Cursor, flip, place, repair, add_dup, descend, insert_loop, fresh, insert_rbnode,
}

abbrev pub SamePayload : Nodes → Nodes → Type 0
SamePayload s s' = (q : ℕ) → (s' q).payload ≡ (s q).payload

pub SamePayload-trans : (a b c : Nodes) → SamePayload a b → SamePayload b c → SamePayload a c
SamePayload-trans a b c h k = λ q. k q ∙ h q

update-payload :
    (s : Nodes) (p : ℕ) (n : Node) → n.payload ≡ (s p).payload → SamePayload s (update s p n)
update-payload s p n h = λ q. elim (update-cases s p q n) [
  | inl (e, u) ↦ ap (λ m. m.payload) u ∙ h ∙ ap (λ x. (s x).payload) (sym e)
  | inr (ne, u) ↦ ap (λ m. m.payload) u
]

paint_red-payload : (s : Nodes) (p : ℕ) → SamePayload s (paint_red s p)
unfolding paint_red
paint_red-payload s p = update-payload s p _ refl

pub paint_black-payload : (s : Nodes) (p : ℕ) → SamePayload s (paint_black s p)
unfolding paint_black
paint_black-payload s p = update-payload s p _ refl

copy_color-payload : (s : Nodes) (src dst : ℕ) → SamePayload s (copy_color s src dst)
unfolding copy_color
copy_color-payload s src dst = update-payload s dst _ refl

set_link-payload : (s : Nodes) (p : ℕ) (dir : Bool) (v : ℕ) → SamePayload s (set_link s p dir v)
unfolding set_link
set_link-payload s p false v = update-payload s p _ refl
set_link-payload s p true v = update-payload s p _ refl

set_dup-payload : (s : Nodes) (p v : ℕ) → SamePayload s (set_dup s p v)
unfolding set_dup
set_dup-payload s p v = update-payload s p _ refl

rotate-payload : (s : Nodes) (root : ℕ) (dir : Bool) → SamePayload s (rotate s root dir).0
unfolding rotate
rotate-payload s root dir = λ q.
    paint_black-payload _ _ q
    ∙ paint_red-payload _ _ q
    ∙ set_link-payload _ _ _ _ q
    ∙ set_link-payload s _ _ _ q

set_rotated-payload :
    (s : Nodes) (p : ℕ) (i : Bool) (root : ℕ) (dir : Bool)
    → SamePayload s (set_rotated s p i root dir)
unfolding set_rotated
set_rotated-payload s p i root dir = λ q. set_link-payload _ _ _ _ q ∙ rotate-payload s root dir q

flip-payload : (s : Nodes) (n : ℕ) → SamePayload s (flip s n)
unfolding flip
flip-payload s n =
    λ q. paint_black-payload _ _ q ∙ paint_black-payload _ _ q ∙ paint_red-payload s n q

repair-payload : (s : Nodes) (c : Cursor) → SamePayload s (repair s c)
unfolding repair
repair-payload s c = elim (Bool-cases (is_red s c.n && is_red s c.p)) [
  | inr calm ↦ rw calm (λ q. refl)
  | inl double ↦ elim (Bool-cases (c.n == get_link s c.p c.last)) [
    | inl outer ↦
        rw (double, outer) (set_rotated-payload s c.t (get_link s c.t true == c.g) c.g (not c.last))
    | inr inner ↦
        rw (double, inner)
          (λ q.
            set_rotated-payload (set_rotated s c.g c.last (get_link s c.g c.last) c.last) c.t
              (get_link s c.t true == c.g) c.g (not c.last) q
            ∙ set_rotated-payload s c.g c.last (get_link s c.g c.last) c.last q)
  ]
]

pub fresh-payload : (s : Nodes) (node : ℕ) → SamePayload s (fresh s node)
unfolding fresh
fresh-payload s node =
    let s1 = set_link s node false 0 in
    let s2 = set_link s1 node true 0 in
    λ q.
      paint_red-payload (set_dup s2 node 0) node q
      ∙ set_dup-payload s2 node 0 q
      ∙ set_link-payload s1 node true 0 q
      ∙ set_link-payload s node false 0 q

place-payload :
    (tree : Tree) (c : Cursor) (node : ℕ) → SamePayload tree.nodes (place tree c node).0.nodes
unfolding place
place-payload tree c node = elim (Bool-cases (c.n == 0)) [
  | inl e ↦ rw e (set_link-payload tree.nodes c.p c.dir node)
  | inr e ↦
      elim (Bool-cases (
        is_red tree.nodes (get_link tree.nodes c.n false)
        && is_red tree.nodes (get_link tree.nodes c.n true))) [
          | inl k ↦ rw (e, k) (flip-payload tree.nodes c.n)
          | inr k ↦ rw (e, k) (λ q. refl)
        ]
]

add_dup-payload : (tree : Tree) (n node : ℕ) → SamePayload tree.nodes (add_dup tree n node).nodes
unfolding add_dup
add_dup-payload tree n node =
    let s1 = set_dup tree.nodes node (get_dup tree.nodes n) in
    λ q. set_dup-payload s1 n node q ∙ set_dup-payload tree.nodes node (get_dup tree.nodes n) q

insert_loop-payload :
    (compare : ℕ → ℕ → ℕ → Sign) (fuel : ℕ) (tree : Tree) (c : Cursor) (node : ℕ) (done : Tree)
    → insert_loop compare fuel tree c node ≡ some done
    → SamePayload tree.nodes done.nodes
unfolding insert_loop
insert_loop-payload compare zero tree c node done h = elim (some-ne-none done (sym h)) [ ]
insert_loop-payload compare (suc fuel) tree c node done h =
    let (tree1, c1) = place tree c node in
    let s = repair tree1.nodes c1 in
    let same : SamePayload tree.nodes s =
      λ q. repair-payload tree1.nodes c1 q ∙ place-payload tree c node q in
    let res = compare c1.n (s c1.n).payload (s node).payload in
    elim (Bool-cases (is_zero_sign res)) [
      | inr go ↦
          let k = rw go at h in
          λ q.
            insert_loop-payload compare fuel (record tree1 { nodes = s })
              (descend s c1 (is_negative res)) node done k q
            ∙ same q
      | inl stop ↦ elim (Bool-cases (c1.duplicate && not (c1.n == node))) [
        | inl twice ↦
            subst (λ d. SamePayload tree.nodes d.nodes)
              (some-injective _ done (rw (stop, twice) at h))
              (λ q. add_dup-payload (record tree1 { nodes = s }) c1.n node q ∙ same q)
        | inr first ↦
            subst (λ d. SamePayload tree.nodes d.nodes)
              (some-injective _ done (rw (stop, first) at h)) same
      ]
    ]

-- The dummy root at the top of a tree.
abbrev under_dummy : Nodes → ℕ → ℕ → Nodes
under_dummy s head root =
    let dummy : Node = record { payload = 0; link0 = 0; link1 = 0; link2 = 0 } in
    set_link (update s head dummy) head true root

under_dummy-payload :
    (s : Nodes) (head root q : ℕ) → q ≢ head → (under_dummy s head root q).payload ≡ (s q).payload
under_dummy-payload s head root q ne =
    let dummy : Node = record { payload = 0; link0 = 0; link1 = 0; link2 = 0 } in
    set_link-payload (update s head dummy) head true root q
    ∙ ap (λ n. n.payload) (update_ne s head q dummy ne)

given_tree :
    (r : Bool) (a b : Tree) (o : Bool)
    → Path (Option (Bool × Tree)) (some (r, a)) (some (o, b))
    → SamePayload a.nodes b.nodes
given_tree r a b o h =
    subst (λ d. SamePayload a.nodes d.nodes) (ap (λ x. x.1) (some-injective (r, a) (o, b) h))
      (λ q. refl)

-- A call of `insert_rbnode` that ends, with the data of every node but the dummy root kept.
pub insert_rbnode-payload :
    (compare : ℕ → ℕ → ℕ → Sign) (fuel head : ℕ) (tree : Tree) (node : ℕ) (r : Bool) (end : Tree)
    → insert_rbnode compare fuel head tree node ≡ some (r, end)
    → (q : ℕ) → q ≢ head
    → (end.nodes q).payload ≡ (tree.nodes q).payload
unfolding insert_rbnode
insert_rbnode-payload compare fuel head tree node r end h q ne =
    let s = fresh tree.nodes node in
    let s1 = under_dummy s head tree.root in
    let start : Cursor = record {
      t = head;
      g = 0;
      p = 0;
      n = tree.root;
      dir = false;
      last = false;
      duplicate = true;
    } in
    elim (Bool-cases (node == 0)) [
      | inl null ↦ given_tree false tree end r (rw null at h) q
      | inr given ↦ elim (Bool-cases (tree.root == 0)) [
        | inl empty ↦
            let only : Tree = record {
              nodes = paint_black s node;
              root = node;
              num_nodes = 1;
              num_dup = 0;
            } in
            given_tree true only end r (rw (given, empty) at h) q
            ∙ paint_black-payload s node q
            ∙ fresh-payload tree.nodes node q
        | inr more ↦
            elim (Option-cases (insert_loop compare fuel (record tree { nodes = s1 }) start node)) [
              | inl out ↦ elim (some-ne-none (r, end) (sym (rw (given, more, out) at h))) [ ]
              | inr (found, e) ↦
                  let top = get_link found.nodes head true in
                  let last : Tree = record found {
                    nodes = paint_black found.nodes top;
                    root = top;
                  } in
                  given_tree true last end r (rw (given, more, e) at h) q
                  ∙ paint_black-payload found.nodes top q
                  ∙ insert_loop-payload compare fuel (record tree { nodes = s1 }) start node found e
                      q
                  ∙ under_dummy-payload s head tree.root q ne
                  ∙ fresh-payload tree.nodes node q
            ]
      ]
    ]
