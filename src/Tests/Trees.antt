-- ===== src/Tests/Trees.antt =====
-- Small context trees.
use caliper.Base.{List, [], ◌∷◌, ◌++◌, ◌≡◌, inl, refl, arith, true, Option, none, some, length}
use caliper.Variant.AttrType.{string, uint}
use caliper.Datum.{Datum, inline, bytes, DataNode, DataPath}
use caliper.MemoryPool.{Pool, Pointer, allocate, new_pool}
use caliper.MemoryPool.Blocks.{IsPool}
use caliper.MemoryPool.Requests.{new_pool-Sound}
use caliper.MetadataTree.{TreeConfig, Tree, Label, root_path}
use caliper.MetadataTree.Shape.{IsConfig, IsTree}
use caliper.MetadataTree.Bootstrap.{
  bootstrap, bootstrap_nodes, boot_tree, boot_tree-IsTree, HasBootNodes, bootstrap-IsTree,
}
use caliper.MetadataTree.Modify.{copy_path_without_attribute, remove_first_in_path}
use caliper.MetadataTree.Removal.{
  kept_labels, labels_of, IsCopiedPath, copy_path_without_attribute-IsCopiedPath,
  remove_first_in_path-IsCopiedPath,
}

abbrev small : TreeConfig
small = record { num_blocks = 4; nodes_per_block = 16; node_size = 80 }

small-IsConfig : IsConfig small
small-IsConfig = record {
  some_nodes = omega arith;
  ids_fit = omega arith;
  blocks_counted = omega arith;
  block_fits = omega arith;
}

abbrev pool : Pool
pool = new_pool true 0

pool-IsPool : IsPool pool
pool-IsPool = let s = new_pool-Sound true 0 in s.pool

boot_tree-IsTree_here : IsTree small (boot_tree pool)
boot_tree-IsTree_here = boot_tree-IsTree small pool (omega arith) (omega arith) pool-IsPool

bootstrap-IsTree_example :
    (t : Tree) × (bootstrap small pool ≡ some t)
    × IsTree small t
    × (length t.nodes ≡ 11)
    × HasBootNodes small t
unfolding new_pool
bootstrap-IsTree_example =
    bootstrap-IsTree small pool small-IsConfig (omega arith) (omega arith) pool-IsPool refl

-- Without an entry for a block the first write is outside the table.
no_blocks : bootstrap (record small { num_blocks = 0 }) pool ≡ none
unfolding bootstrap
no_blocks = refl

-- The string `ab` of attribute 20, whose bytes are copied, above the value 5 of attribute 21.
abbrev ab : Datum
ab = bytes string (97 ∷ 98 ∷ [])

abbrev labels : List Label
labels =
    (record { id = 20; type = string }, ab) ∷ (record { id = 21; type = uint }, inline uint 5) ∷ []

abbrev ab_node : DataNode
ab_node = record { id = 11; attribute = 20; value = ab }

abbrev five_node : DataNode
five_node = record { id = 12; attribute = 21; value = inline uint 5 }

abbrev made_path : DataPath
made_path = five_node ∷ ab_node ∷ root_path

abbrev pool_of : Option (Pool × Option Pointer) → Pool
pool_of none = pool
pool_of (some (p, o)) = p

abbrev with_two : Tree
with_two = record (boot_tree (pool_of (allocate pool 8))) {
  block = some (0, 13);
  nodes = made_path ∷ (ab_node ∷ root_path) ∷ bootstrap_nodes;
  num_nodes = 13;
}

-- A path with these labels, below the root.
copy_path_without_attribute_example :
    IsCopiedPath small (boot_tree pool) (kept_labels 20 (five_node ∷ ab_node ∷ [])) root_path 0 (
      copy_path_without_attribute small
        (boot_tree pool)
        20
        ((five_node ∷ ab_node ∷ []) ++ root_path)
        root_path)
unfolding new_pool
copy_path_without_attribute_example =
    copy_path_without_attribute-IsCopiedPath {cfg = small} (boot_tree pool) 20
      (five_node ∷ ab_node ∷ []) root_path small-IsConfig boot_tree-IsTree_here (inl refl)
      ((λ e. cc), ((λ e. cc), tt)) (refl, omega arith)

remove_first_in_path_example :
    IsCopiedPath small
      (boot_tree pool)
      (labels_of (five_node ∷ []))
      root_path
      0
      (remove_first_in_path small (boot_tree pool) ((five_node ∷ []) ++ (ab_node ∷ root_path)) 20)
unfolding new_pool
remove_first_in_path_example =
    remove_first_in_path-IsCopiedPath {cfg = small} (boot_tree pool) (five_node ∷ []) ab_node
      root_path small-IsConfig boot_tree-IsTree_here (inl refl) ((λ e. cc), tt)
      ((λ e. cc), ((λ e. cc), tt)) (refl, omega arith)
