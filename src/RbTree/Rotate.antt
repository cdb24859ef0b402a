-- ===== src/RbTree/Rotate.antt =====
-- `rotate` of kernel/rb_tree.c on the tree that the nodes hold.
use toutatis.Common.{
  ℕ, ◌%◌, ◌≡◌, ◌≢◌, refl, sym, ◌∙◌, ap, arith, Bool, true, false, not, ◌&&◌, ◌==◌, if◌then◌else◌,
  List, [], ◌∷◌, ◌++◌, append_assoc,
}
use toutatis.RbTree.{Nodes, is_red, paint_red, paint_black, get_link, set_link, rotate}
use toutatis.RbTree.Links.{
  same_dir, get_link-even, get_link-set_link, get_link-paint_red, get_link-paint_black,
  is_red-set_link, is_red-paint_red, is_red-paint_black, other-set_link, other-paint_red,
  other-paint_black,
}

-- The tree of addresses and colours (true is red) that the links spell out.
pub data Shape : Type 0 where
  leaf : Shape
  node : Bool → ℕ → Shape → Shape → Shape

abbrev pub inorder : Shape → List ℕ
inorder leaf = []
inorder (node c a l r) = inorder l ++ a ∷ inorder r

-- The address `x` is not in the tree.
abbrev pub Avoids : ℕ → Shape → Type 0
Avoids x leaf = Unit
Avoids x (node c a l r) = (x ≢ a) × Avoids x l × Avoids x r

-- The pointer `p` leads to the tree.
abbrev pub Rep : Nodes → ℕ → Shape → Type 0
Rep s p leaf = p ≡ 0
Rep s p (node c a l r) =
    (p ≡ a)
    × (a ≢ 0)
    × (is_red s a ≡ c)
    × Rep s (get_link s a false) l
    × Rep s (get_link s a true) r

-- A node with `x` on the side `d` and `y` on the other.
abbrev pub branch : Bool → Bool → ℕ → Shape → Shape → Shape
branch false c a x y = node c a x y
branch true c a x y = node c a y x

-- A tree depends on its own nodes alone.
pub Rep-same :
    (s s' : Nodes) (a b : ℕ) (t : Shape) (p : ℕ)
    → ((q : ℕ) → q ≢ a → q ≢ b → s' q ≡ s q)
    → Avoids a t
    → Avoids b t
    → Rep s p t
    → Rep s' p t
unfolding get_link is_red
Rep-same s s' a b leaf p same na nb r = r
Rep-same s s' a b (node c x l y) p same na nb r =
    let e : s' x ≡ s x = same x (λ e. na.0 (sym e)) (λ e. nb.0 (sym e)) in
    (
      r.0,
      r.1,
      rw e r.2,
      rw e (Rep-same s s' a b l (get_link s x false) same na.1 nb.1 r.3),
      rw e (Rep-same s s' a b y (get_link s x true) same na.2 nb.2 r.4),
    )

module _ (s : Nodes) (a b : ℕ) (dir : Bool) (side : get_link s a (not dir) ≡ b) (ne : a ≢ b)
    (a0 : a ≢ 0) (b0 : b ≢ 0) (even : a % 2 ≡ 0) where
  abbrev turned : Nodes
  turned = (rotate s a dir).0

  top : (rotate s a dir).1 ≡ b
  unfolding rotate
  top = side

  abbrev linked : Nodes
  linked = set_link (set_link s a (not dir) (get_link s b dir)) b dir a

  turned-eq : turned ≡ paint_black (paint_red linked a) b
  unfolding rotate
  turned-eq =
      ap
        (λ (w : ℕ).
          paint_black (paint_red (set_link (set_link s a (not dir) (get_link s w dir)) w dir a) a)
            w)
        side

  others : (q : ℕ) → q ≢ a → q ≢ b → turned q ≡ s q
  others q na nb = rw turned-eq (
      other-paint_black (paint_red linked a) b q nb
      ∙ other-paint_red linked a q na
      ∙ other-set_link (set_link s a (not dir) (get_link s b dir)) b dir a q nb
      ∙ other-set_link s a (not dir) (get_link s b dir) q na)

  turned-link :
      (q : ℕ) (j : Bool)
      → get_link turned q j ≡ (
          if (q == b) && same_dir dir j
          then a
          else (if (q == a) && same_dir (not dir) j then get_link s b dir else get_link s q j))
  turned-link q j = rw turned-eq (
      get_link-paint_black (paint_red linked a) b q j
      ∙ get_link-paint_red linked a q j
      ∙ get_link-set_link (set_link s a (not dir) (get_link s b dir)) b dir a q j even
      ∙ ap (λ (w : ℕ). if (q == b) && same_dir dir j then a else w)
          (get_link-set_link s a (not dir) (get_link s b dir) q j (get_link-even s b dir)))

  turned-red :
      (q : ℕ) → is_red turned q ≡ (if q == b then false else (if q == a then true else is_red s q))
  turned-red q = rw turned-eq (
      is_red-paint_black (paint_red linked a) b q
      ∙ ap (λ (w : Bool). if q == b then false else w)
          (is_red-paint_red linked a q a0
            ∙ ap (λ (w : Bool). if q == a then true else w)
                (is_red-set_link (set_link s a (not dir) (get_link s b dir)) b dir a q
                  ∙ is_red-set_link s a (not dir) (get_link s b dir) q)))

-- Rotating the tree at `a` whose child `b` lies on the side away from `dir`: `b` becomes the root and
-- black, `a` its child on the side `dir` and red, and the subtrees are handed over in order. No other
-- node changes, and so the order of the nodes stays.
pub rotate-Rep :
    (s : Nodes) (a b : ℕ) (dir c c' : Bool) (l m r : Shape)
    → a % 2 ≡ 0
    → a ≢ b
    → Avoids a l × Avoids a m × Avoids a r × Avoids b l × Avoids b m × Avoids b r
    → Rep s a (branch dir c a l (branch dir c' b m r))
    → ((rotate s a dir).1 ≡ b)
      × Rep (rotate s a dir).0 b (branch dir false b (branch dir true a l m) r)
      × ((q : ℕ) → q ≢ a → q ≢ b → (rotate s a dir).0 q ≡ s q)
      × (inorder (branch dir false b (branch dir true a l m) r)
          ≡ inorder (branch dir c a l (branch dir c' b m r)))
rotate-Rep s a b false c c' l m r even ne (al, am, ar, bl, bm, br)
      (e, a0, red, rl, (side, b0, red', rm, rr)) =
    let s' = (rotate s a false).0 in
    let lk = turned-link s a b false side ne a0 b0 even in
    let same = others s a b false side ne a0 b0 even in
    let rd = turned-red s a b false side ne a0 b0 even in
    let el : get_link s' a false ≡ get_link s a false = ground (arith, lk a false) in
    let em : get_link s' a true ≡ get_link s b false = ground (arith, lk a true) in
    let er : get_link s' b true ≡ get_link s b true = ground (arith, lk b true) in
    (
      top s a b false side ne a0 b0 even,
      (
        refl,
        b0,
        ground (arith, rd b),
        (
          ground (arith, lk b false),
          a0,
          ground (arith, rd a),
          rw el (Rep-same s s' a b l (get_link s a false) same al bl rl),
          rw em (Rep-same s s' a b m (get_link s b false) same am bm rm),
        ),
        rw er (Rep-same s s' a b r (get_link s b true) same ar br rr),
      ),
      same,
      append_assoc (inorder l) (a ∷ inorder m) (b ∷ inorder r),
    )
rotate-Rep s a b true c c' l m r even ne (al, am, ar, bl, bm, br)
      (e, a0, red, (side, b0, red', rr, rm), rl) =
    let s' = (rotate s a true).0 in
    let lk = turned-link s a b true side ne a0 b0 even in
    let same = others s a b true side ne a0 b0 even in
    let rd = turned-red s a b true side ne a0 b0 even in
    let el : get_link s' a true ≡ get_link s a true = ground (arith, lk a true) in
    let em : get_link s' a false ≡ get_link s b true = ground (arith, lk a false) in
    let er : get_link s' b false ≡ get_link s b false = ground (arith, lk b false) in
    (
      top s a b true side ne a0 b0 even,
      (
        refl,
        b0,
        ground (arith, rd b),
        rw er (Rep-same s s' a b r (get_link s b false) same ar br rr),
        (
          ground (arith, lk b true),
          a0,
          ground (arith, rd a),
          rw em (Rep-same s s' a b m (get_link s b true) same am bm rm),
          rw el (Rep-same s s' a b l (get_link s a true) same al bl rl),
        ),
      ),
      same,
      sym (append_assoc (inorder r) (b ∷ inorder m) (a ∷ inorder l)),
    )
