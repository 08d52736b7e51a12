-- ===== src/MetadataTree.antt =====
-- src/caliper/MetadataTree.cpp and include/caliper/common/util/lockfree-tree.hpp: the context tree of one thread. A
-- node never changes and never moves, so a pointer to it is the list of the nodes from there up to the root.
-- `append` puts a child first, so the children of a node are found the newest first.
pub mod Shape
pub mod Create
pub mod Lookup
pub mod Blocks
pub mod Paths
pub mod GetPath
pub mod Bootstrap
pub mod Modify
pub mod Copies
pub mod Removal
use caliper.Base.{
  ℕ, zero, suc, ◌+◌, ◌-◌, ◌*◌, ◌/◌, ◌%◌, ◌^◌, ltb, leb, ◌==◌, if◌then◌else◌, Bool, true, false,
  ◌&&◌, ◌||◌,
}
use caliper.Base.{List, [], ◌∷◌, ◌++◌, map, Option, none, some, ◌>>=◌, ◌≡◌, length}
use caliper.Variant.{AttrType, type_code}
use caliper.Variant.AttrType.{inv}
use caliper.Datum.{Datum, inline, DataNode, DataPath, datum_size, same_value, make_value}
use caliper.Node.{inv_id}
use caliper.MemoryPool.{Pool, Pointer, allocate}

-- What the tree asks of an attribute: `id()` and `type()`.
pub record Key : Type 0 where
  pub id : ℕ
  pub type : AttrType

-- The settings, and `sizeof(Node)`.
pub record TreeConfig : Type 0 where
  pub num_blocks : ℕ
  pub nodes_per_block : ℕ
  pub node_size : ℕ

-- `m_nodeblock` is the block's number and its `index`; `nodes` are all nodes, the newest first.
pub record Tree : Type 0 where
  pub pool : Pool
  pub block : Option (ℕ × ℕ)
  pub next_block : ℕ
  pub nodes : List DataPath
  pub num_nodes : ℕ
  pub num_used : ℕ

abbrev pub root : DataNode
root = record { id = inv_id; attribute = inv_id; value = inline inv 0 }

abbrev pub root_path : DataPath
root_path = root ∷ []

abbrev pub path_id : DataPath → ℕ
path_id [] = inv_id
path_id (n ∷ up) = n.id

-- An attribute and a value.
abbrev pub Label : Type 0
Label = Key × Datum

abbrev pub has_parent : DataPath → ℕ → Bool
has_parent [] id = false
has_parent (n ∷ up) id = path_id up == id

-- `equals(attr, data)`.
abbrev pub equals : DataPath → Label → Bool
equals [] l = false
equals (n ∷ up) (k, v) = (n.attribute == k.id) && same_value n.value v

abbrev pub is_child : DataPath → Label → DataPath → Bool
is_child parent l node = has_parent node (path_id parent) && equals node l

-- The loop over `first_child` and `next_sibling`.
unfoldable pub find_child : List DataPath → DataPath → Label → Option DataPath
find_child [] parent l = none
find_child (p ∷ ps) parent l =
    let rest = find_child ps parent l in if is_child parent l p then some p else rest

-- The loop of `get_path`: the last node found, and the labels that are left.
unfoldable pub walk : Tree → DataPath → List Label → DataPath × List Label
unfolding find_child
walk t node [] = (node, [])
walk t node (l ∷ ls) = elim (find_child t.nodes node l) [
  | none ↦ (node, l ∷ ls)
  | some child ↦ walk t child ls
]

-- `attr.type() == CALI_TYPE_USR || attr.type() == CALI_TYPE_STRING`.
abbrev pub is_copied : AttrType → Bool
is_copied t = (type_code t == 1) || (type_code t == 4)

-- `size + (align - size % align)`.
abbrev pub padded : Datum → ℕ
padded v = datum_size v + (8 - datum_size v % 8)

abbrev pub data_size : List Label → ℕ
data_size [] = 0
data_size ((k, v) ∷ ls) = ((if is_copied k.type then padded v else 0) + data_size ls) % 2 ^ 64

abbrev pub advance : Option (ℕ × ℕ) → Option (ℕ × ℕ)
advance none = none
advance (some (b, i)) = some (b, i + 1)

-- What the new node at `offset` of `room` allocated bytes holds: the value as it is, or made of a copy of
-- its bytes. none is a copy to a place behind these bytes, or a read behind those of the value.
abbrev pub placed_value : ℕ → ℕ → Key → Datum → Option Datum
placed_value room offset k v =
    if is_copied k.type && ltb room (offset + datum_size v) then none else make_value k.type v

abbrev pub or_root : DataPath → DataPath
or_root [] = root_path
or_root (n ∷ up) = n ∷ up

module _ (cfg : TreeConfig) where
  abbrev pub needs_block : Option (ℕ × ℕ) → ℕ → Bool
  needs_block none n = true
  needs_block (some (b, i)) n = leb cfg.nodes_per_block (i + n)

  abbrev pub use_chunk : Tree → Pool → Option Pointer → Tree × Bool
  use_chunk t pool none = (record t { pool = pool }, false)
  use_chunk t pool (some chunk) = (
    record t {
      pool = pool;
      block = some (t.next_block, 0);
      next_block = (t.next_block + 1) % 2 ^ 32;
      num_used = (t.num_used + 1) % 2 ^ 32;
    },
    true,
  )

  -- The part of `have_free_nodeblock` that allocates a block.
  unfoldable pub new_block : Tree → Option (Tree × Bool)
  new_block t =
      let fresh : Option (Tree × Bool) =
        allocate t.pool (cfg.nodes_per_block * cfg.node_size)
        >>= (λ (pool, chunk). some (use_chunk t pool chunk)) in
      if leb cfg.num_blocks t.next_block then some (t, false) else fresh

  unfoldable pub have_free_nodeblock : Tree → ℕ → Option (Tree × Bool)
  unfolding new_block
  have_free_nodeblock t n = if needs_block t.block n then new_block t else some (t, true)

  -- `new(chunk + index) Node(...)`: none is a place behind the chunk.
  abbrev pub next_node : Option (ℕ × ℕ) → Key → Datum → Option DataNode
  next_node none k v = none
  next_node (some (b, i)) k v =
      if ltb i cfg.nodes_per_block
      then some (record { id = b * cfg.nodes_per_block + i; attribute = k.id; value = v })
      else none

  -- The loop of `create_path`, with the copies from `offset` on in `room` bytes.
  unfoldable pub create_nodes : Tree → ℕ → ℕ → List Label → DataPath → Option (Tree × DataPath)
  create_nodes t room offset [] parent = some (t, parent)
  create_nodes t room offset ((k, v) ∷ ls) parent = placed_value room offset k v >>= λ m.
      next_node t.block k m >>= λ n.
      create_nodes (record t { block = advance t.block; nodes = (n ∷ parent) ∷ t.nodes }) room
        (if is_copied k.type then offset + padded v else offset) ls (n ∷ parent)

  -- The end of `create_path`, once the memory for the data is there.
  unfoldable pub create_with : Tree → ℕ → List Label → DataPath → Option (Tree × Option DataPath)
  unfolding create_nodes
  create_with t room ls parent = do
    (t', node) ← create_nodes t room 0 ls parent
    some (record t' { num_nodes = (t'.num_nodes + length ls) % 2 ^ 32 }, some node)

  abbrev pub with_memory :
      Tree → Pool → Option Pointer → List Label → DataPath → Option (Tree × Option DataPath)
  with_memory t pool none ls parent = some (record t { pool = pool }, none)
  with_memory t pool (some p) ls parent =
      create_with (record t { pool = pool }) (data_size ls) ls parent

  -- The part of `create_path` behind `have_free_nodeblock`.
  unfoldable pub create_in : Tree → Bool → List Label → DataPath → Option (Tree × Option DataPath)
  unfolding create_with
  create_in t false ls parent = some (t, none)
  create_in t true ls parent =
      let copied : Option (Tree × Option DataPath) =
        allocate t.pool (data_size ls) >>= (λ (pool, p). with_memory t pool p ls parent) in
      let plain : Option (Tree × Option DataPath) = create_with t 0 ls parent in
      if data_size ls == 0 then plain else copied

  -- `create_path(n, attr, data, parent)`.
  unfoldable pub create_path : Tree → List Label → DataPath → Option (Tree × Option DataPath)
  unfolding have_free_nodeblock create_in
  create_path t ls parent =
      have_free_nodeblock t (length ls) >>= (λ (t', free). create_in t' free ls parent)

  abbrev pub create_rest : Tree → DataPath × List Label → Option (Tree × Option DataPath)
  create_rest t (node, []) = some (t, some node)
  create_rest t (node, l ∷ ls) = create_path t (l ∷ ls) node

  -- `get_path(n, attr, data, parent)`.
  unfoldable pub get_path : Tree → List Label → DataPath → Option (Tree × Option DataPath)
  unfolding walk create_path
  get_path t ls parent = create_rest t (walk t (or_root parent) ls)

  -- `get_path(attr, n, data, parent)`.
  unfoldable pub get_path_of : Tree → Key → List Datum → DataPath → Option (Tree × Option DataPath)
  unfolding get_path
  get_path_of t k vs parent = get_path t (map (λ (v : Datum). (k, v)) vs) parent
