-- ===== src/Vnodes/Pool.antt =====
-- The list of free vnodes of kernel/vnode.c as a stack of at most 100 addresses.
use toutatis.Common.{
  ℕ, zero, ◌+◌, ◌-◌, ◌%◌, ◌^◌, ◌≤◌, ◌<◌, ◌≡◌, ◌≢◌, ◌⊎◌, inl, inr, refl, sym, ◌∙◌, ap, arith, true,
  false, not, ◌||◌, Option, some, List, [], ◌∷◌, ◌==◌, ltb, length, Bool-cases,
}
use mathlib.Core.Path.{subst}
use toutatis.Common.Store.{update, update_self, update_ne, update-cases}
use toutatis.Scheduler.Ring.{NotIn}
use toutatis.Vnodes.{
  Vnode, Vnodes, vnode_get, vnode_init, vnode_kill, set_ref_count, vnode_incref, vnode_decref,
}

-- The links from `p` on lead through exactly these vnodes, each of them once.
abbrev pub Chain : (ℕ → Vnode) → ℕ → List ℕ → Type 0
Chain nodes p [] = p ≡ zero
Chain nodes p (x ∷ xs) = (p ≡ x) × (x ≢ 0) × NotIn x xs × Chain nodes (nodes x).freelist xs

pub record IsPool (v : Vnodes) (xs : List ℕ) : Type 0 where
  pub chain : Chain v.nodes v.freelist_head xs
  pub counted : v.freelist_size ≡ length xs
  pub bounded : length xs ≤ 100

Chain-update :
    (nodes : ℕ → Vnode) (q : ℕ) (n : Vnode) (p : ℕ) (xs : List ℕ)
    → NotIn q xs
    → Chain nodes p xs
    → Chain (update nodes q n) p xs
Chain-update nodes q n p [] out c = c
Chain-update nodes q n p (x ∷ xs) (ne, out) (e, x0, alone, c) = (
  e,
  x0,
  alone,
  subst (λ w. Chain (update nodes q n) w.freelist xs)
      (sym (update_ne nodes q x n (λ k. ne (sym k))))
      (Chain-update nodes q n (nodes x).freelist xs out c),
)

-- A vnode with one reference that is not in the list: with fewer than 100 free vnodes it becomes the
-- first of them, and with 100 its memory is given back and the list stays.
pub vnode_kill-IsPool :
    (v : Vnodes) (node : ℕ) (xs : List ℕ)
    → IsPool v xs
    → node ≢ 0
    → (v.nodes node).ref_count ≡ 1
    → NotIn node xs
    → (w : Vnodes) × Path (Option Vnodes) (vnode_kill v node) (some w)
      × (((length xs < 100) × IsPool w (node ∷ xs) × (w.freed ≡ v.freed))
          ⊎ ((length xs ≡ 100) × IsPool w xs × (w.freed ≡ node ∷ v.freed)))
unfolding vnode_kill
vnode_kill-IsPool v node xs pool n one out =
    let given : node == 0 || not ((v.nodes node).ref_count == 1) ≡ false = ground arith in
    elim (Bool-cases (ltb v.freelist_size 100)) [
      | inl room ↦
          let few : length xs < 100 = (let c = pool.counted in ground arith) in
          let linked : Vnode = record (v.nodes node) { freelist = v.freelist_head } in
          let w : Vnodes = record v {
            nodes = update v.nodes node linked;
            freelist_head = node;
            freelist_size = (v.freelist_size + 1) % 2 ^ 32;
          } in
          let rest : Chain w.nodes (w.nodes node).freelist xs =
            subst (λ m. Chain w.nodes m.freelist xs) (sym (update_self v.nodes node linked))
              (Chain-update v.nodes node linked v.freelist_head xs out pool.chain) in
          (
            w,
            rw (given, room) refl,
            inl (
              few,
              record {
                chain = (refl, n, out, rest);
                counted = (let c = pool.counted in omega arith);
                bounded = few;
              },
              refl,
            ),
          )
      | inr full ↦
          let many : length xs ≡ 100 =
            (let c = pool.counted in let b = pool.bounded in ground arith) in
          (
            record v { freed = node ∷ v.freed },
            rw (given, full) refl,
            inr (
              many,
              record { chain = pool.chain; counted = pool.counted; bounded = pool.bounded },
              refl,
            ),
          )
    ]

-- A new vnode, with one reference and no link: the first of the free vnodes, which leaves the list, or
-- memory that is not in the list if none is free.
pub vnode_init-IsPool :
    (fresh : ℕ) (v : Vnodes) (ops vfs payload : ℕ) (xs : List ℕ)
    → IsPool v xs
    → ops ≢ 0
    → vfs ≢ 0
    → NotIn fresh xs
    → (node : ℕ) × (w : Vnodes) × Path
        (Option (ℕ × Vnodes))
        (vnode_init fresh v ops vfs payload)
        (some (node, w))
      × ((w.nodes node).ref_count ≡ 1)
      × ((w.nodes node).ops ≡ ops)
      × (((xs ≡ []) × (node ≡ fresh) × IsPool w [])
          ⊎ ((rest : List ℕ) × (xs ≡ node ∷ rest) × IsPool w rest))
      × (w.freed ≡ v.freed)
unfolding vnode_init vnode_get
vnode_init-IsPool fresh v ops vfs payload [] pool o f out =
    let given : ops == 0 || vfs == 0 ≡ false = ground arith in
    let none_free : ltb 0 v.freelist_size ≡ false = (let c = pool.counted in ground arith) in
    let made : Vnode = record {
      ref_count = 1;
      vfs = vfs;
      freelist = 0;
      payload = payload;
      ops = ops;
    } in
    (
      fresh,
      record v { nodes = update v.nodes fresh made },
      rw (given, none_free) refl,
      ap (λ m. m.ref_count) (update_self v.nodes fresh made),
      ap (λ m. m.ops) (update_self v.nodes fresh made),
      inl (
        refl,
        refl,
        record { chain = pool.chain; counted = pool.counted; bounded = pool.bounded },
      ),
      refl,
    )
vnode_init-IsPool fresh v ops vfs payload (x ∷ xs) pool o f out =
    let given : ops == 0 || vfs == 0 ≡ false = ground arith in
    let some_free : ltb 0 v.freelist_size ≡ true = (let c = pool.counted in ground arith) in
    let made : Vnode = record {
      ref_count = 1;
      vfs = vfs;
      freelist = 0;
      payload = payload;
      ops = ops;
    } in
    let (e, x0, alone, tail) = pool.chain in
    let w : Vnodes = record v {
      nodes = update v.nodes v.freelist_head made;
      freelist_head = (v.nodes v.freelist_head).freelist;
      freelist_size = (v.freelist_size + 2 ^ 32 - 1) % 2 ^ 32;
    } in
    (
      v.freelist_head,
      w,
      rw (given, some_free) refl,
      ap (λ m. m.ref_count) (update_self v.nodes v.freelist_head made),
      ap (λ m. m.ops) (update_self v.nodes v.freelist_head made),
      inr (
        xs,
        ap (λ y. y ∷ xs) (sym e),
        record {
          chain =
              Chain-update v.nodes v.freelist_head made (v.nodes v.freelist_head).freelist xs
                (subst (λ y. NotIn y xs) (sym e) alone)
                (subst (λ y. Chain v.nodes (v.nodes y).freelist xs) (sym e) tail);
          counted = (let c = pool.counted in let b = pool.bounded in omega arith);
          bounded = (let b = pool.bounded in omega arith);
        },
      ),
      refl,
    )

abbrev with_count : Vnode → ℕ → Vnode
with_count m n = record m { ref_count = n }

-- A reference that is taken and given back, while the count stays in a word of 32 bits: every vnode is as
-- before, the file system is not called, and the free vnodes are the same.
pub vnode_decref-vnode_incref :
    (reclaim : Vnodes → ℕ → Option Vnodes) (v : Vnodes) (node : ℕ)
    → node ≢ 0
    → 0 < (v.nodes node).ref_count
    → (v.nodes node).ref_count + 1 < 2 ^ 32
    → (w u : Vnodes) × (vnode_incref v node ≡ some w)
      × (vnode_decref reclaim w node ≡ some u)
      × ((w.nodes node).ref_count ≡ (v.nodes node).ref_count + 1)
      × ((q : ℕ) → u.nodes q ≡ v.nodes q)
      × (u.freelist_head ≡ v.freelist_head)
      × (u.freelist_size ≡ v.freelist_size)
      × (u.freed ≡ v.freed)
unfolding vnode_incref vnode_decref
vnode_decref-vnode_incref reclaim v node n low high =
    let c = (v.nodes node).ref_count in
    let given : node == 0 ≡ false = ground arith in
    let added : ((v.nodes node).ref_count + 1) % 2 ^ 32 ≡ c + 1 = omega arith in
    let up : Vnode = record (v.nodes node) { ref_count = c + 1 } in
    let w = set_ref_count v node (c + 1) in
    let at : w.nodes node ≡ up = update_self v.nodes node up in
    let count : (w.nodes node).ref_count ≡ c + 1 = ap (λ m. m.ref_count) at in
    let u = set_ref_count w node ((w.nodes node).ref_count - 1) in
    let down : Vnode = record (w.nodes node) { ref_count = (w.nodes node).ref_count - 1 } in
    let back : down ≡ v.nodes node =
      ap (λ m. with_count m (m.ref_count - 1)) at ∙ ap (with_count (v.nodes node)) (omega arith) in
    let some_left : (w.nodes node).ref_count == 0 ≡ false = rw count (ground arith) in
    let more : ltb 1 (w.nodes node).ref_count ≡ true = rw count (ground arith) in
    (
      w,
      u,
      rw (given, added) refl,
      rw (given, some_left, more) refl,
      count,
      λ q. elim (update-cases w.nodes node q down) [
        | inl (e, s) ↦ s ∙ back ∙ ap v.nodes (sym e)
        | inr (ne, s) ↦ s ∙ update_ne v.nodes node q up ne
      ],
      refl,
      refl,
      refl,
    )
