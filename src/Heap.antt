-- ===== src/Heap.antt =====
-- The allocator of kernel/mem_alloc.c. A block is `alloc_header_t`, the user's bytes and
-- `alloc_footer_t`; its size stands in the tree node of its header. The words of the heap that are no
-- words of tree nodes (the magic words and the footers) stand in `words` under their addresses; the
-- nodes stand in the tree. Addresses and sizes are words of 32 bits.
pub mod Fit
pub mod Blocks
pub mod Carve
pub mod Aligned
pub mod Resize
pub mod Released
pub mod Alloc
pub mod Free
pub mod Freed
pub mod Create
pub mod Placement
mod Tests
use toutatis.Common.{
  ℕ, zero, suc, ◌+◌, ◌-◌, ◌*◌, ◌/◌, ◌%◌, ◌^◌, Bool, true, false, not, ◌&&◌, ◌||◌, Option, none,
  some, ◌==◌, ltb, leb, if◌then◌else◌,
}
use toutatis.Common.Store.{update}
use toutatis.RbTree.{Node, Nodes, Sign, negative, zero_sign, positive, Tree}
use toutatis.RbTree.Insert.{insert_rbnode}
use toutatis.RbTree.Remove.{remove_rbnode}
use toutatis.Frames.{Frames}
use toutatis.Paging.Directory.{Space}

-- `allocator_t`, with the memory of the heap and the frames and page tables that it is mapped by.
pub record Allocator : Type 0 where
  pub mem_tree : Tree
  pub words : ℕ → ℕ
  pub start_address : ℕ
  pub end_address : ℕ
  pub min_size : ℕ
  pub max_size : ℕ
  pub supervisor : Bool
  pub readonly : Bool
  pub mem_used : ℕ
  pub frames : Frames
  pub page_dir : Space

-- What a call leads to: a result, a failed assertion, which stops the kernel, or no more fuel.
pub data Outcome {ℓ} (A : Type ℓ) : Type ℓ where
  done : A → Outcome A
  stopped : Outcome A
  out_of_fuel : Outcome A

infixl 5 ◌>>=◌
abbrev pub ◌>>=◌ {ℓ κ} : {A : Type ℓ} {B : Type κ} → Outcome A → (A → Outcome B) → Outcome B
done a >>= f = f a
stopped >>= f = stopped
out_of_fuel >>= f = out_of_fuel

abbrev pub fueled {ℓ} : {A : Type ℓ} → Option A → Outcome A
fueled none = out_of_fuel
fueled (some a) = done a

abbrev pub add_word : ℕ → ℕ → ℕ
add_word a b = (a + b) % 2 ^ 32

abbrev pub sub_word : ℕ → ℕ → ℕ
sub_word a b = (a + 2 ^ 32 - b) % 2 ^ 32

-- `MAGIC`; its last bit is 0.
abbrev pub magic : ℕ
magic = 2712847316

abbrev pub rounded_size : ℕ → ℕ
rounded_size size = add_word size 3 / 4 * 4

-- A header has 20 bytes, a footer 8.
abbrev pub header_size : ℕ
header_size = 20

abbrev pub footer_size : ℕ
footer_size = 8

abbrev pub min_block_size : ℕ
min_block_size = 28

-- The magic word and the size stand before the user's bytes, which lie over the links of the node.
abbrev pub user_ptr_offset : ℕ
user_ptr_offset = 8

abbrev pub rbnode_to_user : ℕ → ℕ
rbnode_to_user node = add_word node 4

abbrev pub rbnode_to_block : ℕ → ℕ
rbnode_to_block node = sub_word node 4

abbrev pub block_to_rbnode : ℕ → ℕ
block_to_rbnode block = add_word block 4

abbrev pub block_to_user : ℕ → ℕ
block_to_user block = add_word block user_ptr_offset

abbrev pub user_to_block : ℕ → ℕ
user_to_block p = sub_word p user_ptr_offset

pub set_magic : Allocator → ℕ → Allocator
set_magic a p = record a { words = update a.words p (magic + a.words p % 2) }

pub check_magic : Allocator → ℕ → Bool
check_magic a p = a.words p / 2 * 2 == magic

pub is_free : Allocator → ℕ → Bool
is_free a block = a.words block % 2 == 1

pub mark_free : Allocator → ℕ → Allocator
mark_free a block = record a { words = update a.words block (a.words block / 2 * 2 + 1) }

pub mark_used : Allocator → ℕ → Allocator
mark_used a block = record a { words = update a.words block (a.words block / 2 * 2) }

pub get_size : Allocator → ℕ → ℕ
get_size a block = (a.mem_tree.nodes (block_to_rbnode block)).payload

pub set_size : Allocator → ℕ → ℕ → Allocator
set_size a block size = record a {
  mem_tree = record (a.mem_tree) {
    nodes =
        update a.mem_tree.nodes (block_to_rbnode block)
          (record (a.mem_tree.nodes (block_to_rbnode block)) { payload = size });
  };
}

pub get_footer : Allocator → ℕ → ℕ
unfolding get_size
get_footer a block = sub_word (add_word block (get_size a block)) footer_size

abbrev pub get_left_footer : ℕ → ℕ
get_left_footer block = sub_word block footer_size

pub get_next_block : Allocator → ℕ → ℕ
unfolding get_size
get_next_block a block = add_word block (get_size a block)

-- `footer->header`
pub get_header : Allocator → ℕ → ℕ
get_header a footer = a.words (add_word footer 4)

pub set_header : Allocator → ℕ → ℕ → Allocator
set_header a footer block = record a { words = update a.words (add_word footer 4) block }

-- The size of the block for a request of `size` bytes.
pub get_block_size : ℕ → ℕ
get_block_size size =
    let s = rounded_size (add_word (add_word size user_ptr_offset) footer_size) in
    if ltb s min_block_size then min_block_size else s

-- `while (offset && offset < MIN_BLOCK_SIZE) offset += alignment;`, at most 28 rounds.
pub pad_offset : ℕ → ℕ → ℕ → ℕ
pad_offset alignment zero offset = offset
pad_offset alignment (suc rounds) offset =
    let more = pad_offset alignment rounds (add_word offset alignment) in
    if not (offset == 0) && ltb offset min_block_size then more else offset

-- The distance from the user's pointer of a node to the next place where a block with this alignment
-- can begin; the piece in front of it is a block of its own.
pub align_offset : ℕ → ℕ → ℕ
unfolding pad_offset
align_offset alignment user =
    pad_offset alignment min_block_size ((alignment - user % alignment) % alignment)

-- The comparison of a node with a size: with an alignment a node that is big enough fits, with none (0)
-- only one of the very size.
pub compare : ℕ → ℕ → ℕ → ℕ → Sign
unfolding align_offset
compare alignment node size sought =
    if ltb size sought
    then negative
    else (if alignment == 0
        then (if ltb sought size then positive else zero_sign)
        else (if ltb (sub_word size (align_offset alignment (rbnode_to_user node))) sought
            then negative
            else zero_sign))

-- With an address (not 0) only the node at this address is selected.
pub select_dup : ℕ → ℕ → Bool
select_dup address node = not (node == 0) && (address == 0 || node == address)
