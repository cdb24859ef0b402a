-- ===== src/Vnodes.antt =====
-- kernel/vnode.c: the vnodes, their reference counts and the list of those that are free. Vnodes stand at
-- addresses, 0 is NULL, and `freed` collects what kfree is given. `none` is a failed assertion.
pub mod Pool
mod Tests
use toutatis.Common.{
  ℕ, zero, suc, ◌+◌, ◌-◌, ◌%◌, ◌^◌, Bool, true, false, not, ◌||◌, Option, none, some, List, [], ◌∷◌,
  ◌==◌, ltb, if◌then◌else◌,
}
use toutatis.Common.Store.{update}

-- `vnode_t`; its type is never set.
pub record Vnode : Type 0 where
  pub ref_count : ℕ
  pub vfs : ℕ
  pub freelist : ℕ
  pub payload : ℕ
  pub ops : ℕ

pub record Vnodes : Type 0 where
  pub nodes : ℕ → Vnode
  pub freelist_size : ℕ
  pub freelist_head : ℕ
  pub freed : List ℕ

abbrev pub vnode_cache_size : ℕ
vnode_cache_size = 100

-- `fresh` is what kmalloc returns if it is asked.
unfoldable pub vnode_get : ℕ → Vnodes → ℕ × Vnodes
vnode_get fresh v =
    if ltb 0 v.freelist_size
    then (
      v.freelist_head,
      record v {
        freelist_head = (v.nodes v.freelist_head).freelist;
        freelist_size = (v.freelist_size + 2 ^ 32 - 1) % 2 ^ 32;
      },
    )
    else (fresh, v)

unfoldable pub vnode_init : ℕ → Vnodes → ℕ → ℕ → ℕ → Option (ℕ × Vnodes)
vnode_init fresh v ops vfs payload =
    let (node, v1) = vnode_get fresh v in
    let made : Vnode = record {
      ref_count = 1;
      vfs = vfs;
      freelist = 0;
      payload = payload;
      ops = ops;
    } in
    if ops == 0 || vfs == 0
    then none
    else some (node, record v1 { nodes = update v1.nodes node made })

unfoldable pub vnode_kill : Vnodes → ℕ → Option Vnodes
vnode_kill v node =
    if node == 0 || not ((v.nodes node).ref_count == 1)
    then none
    else (if ltb v.freelist_size vnode_cache_size
        then some (record v {
          nodes = update v.nodes node (record (v.nodes node) { freelist = v.freelist_head });
          freelist_head = node;
          freelist_size = (v.freelist_size + 1) % 2 ^ 32;
        })
        else some (record v { freed = node ∷ v.freed }))

abbrev pub set_ref_count : Vnodes → ℕ → ℕ → Vnodes
set_ref_count v node n = record v {
  nodes = update v.nodes node (record (v.nodes node) { ref_count = n });
}

unfoldable pub vnode_incref : Vnodes → ℕ → Option Vnodes
vnode_incref v node =
    if node == 0
    then none
    else some (set_ref_count v node (((v.nodes node).ref_count + 1) % 2 ^ 32))

-- `reclaim` is the file system's operation, `none` if the vnode has none; what it returns is only logged.
unfoldable pub vnode_decref : (Vnodes → ℕ → Option Vnodes) → Vnodes → ℕ → Option Vnodes
vnode_decref reclaim v node =
    let n = (v.nodes node).ref_count in
    if node == 0 || n == 0
    then none
    else (if ltb 1 n
        then some (set_ref_count v node (n - 1))
        else elim (reclaim v node) [ none ↦ none | some v1 ↦ vnode_kill v1 node ])
