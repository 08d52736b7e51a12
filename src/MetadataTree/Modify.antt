-- ===== src/MetadataTree/Modify.antt =====
-- `get_or_copy_node`, and the operations that copy paths.
use caliper.Base.{
  ℕ, ◌+◌, ◌%◌, ◌^◌, ◌==◌, if◌then◌else◌, Bool, true, false, List, [], ◌∷◌, Option, none, some,
  ◌>>=◌,
}
use caliper.Datum.{Datum, DataNode, DataPath}
use caliper.Node.{inv_id}
use caliper.MetadataTree.{
  Key, TreeConfig, Tree, root_path, path_id, advance, next_node, find_child, have_free_nodeblock,
  or_root, get_path_of,
}
use caliper.MetadataTree.Shape.{label_of}

-- `parent()`.
abbrev pub parent_of : DataPath → DataPath
parent_of [] = []
parent_of (n ∷ up) = up

-- The loop of `find_hierarchy_parent`, from `tmp` on; the root has no other id.
abbrev pub highest : ℕ → DataPath → DataPath → DataPath
highest attr [] node = node
highest attr (n ∷ up) node =
    let rest = highest attr up (if n.attribute == attr then n ∷ up else node) in
    if n.id == inv_id then node else rest

abbrev pub parent_or_root : DataPath → DataPath
parent_or_root [] = root_path
parent_or_root (n ∷ up) = up

unfoldable pub find_hierarchy_parent : ℕ → DataPath → DataPath
find_hierarchy_parent attr node = parent_or_root (highest attr node node)

unfoldable pub find_node_with_attribute : ℕ → DataPath → DataPath
find_node_with_attribute attr [] = []
find_node_with_attribute attr (n ∷ up) =
    let rest = find_node_with_attribute attr up in if n.attribute == attr then n ∷ up else rest

-- A node pointer; the null pointer is the empty path.
abbrev pub or_null : Option DataPath → DataPath
or_null none = []
or_null (some p) = p

module _ (cfg : TreeConfig) where
  -- The new node shares the data of `from`.
  abbrev pub copy_in : DataNode → DataPath → Tree × Bool → Option (Tree × Option DataPath)
  copy_in from parent (t, false) = some (t, none)
  copy_in from parent (t, true) = do
    n ← next_node cfg t.block (label_of from).0 from.value
    some (
      record t {
        block = advance t.block;
        nodes = (n ∷ parent) ∷ t.nodes;
        num_nodes = (t.num_nodes + 1) % 2 ^ 32;
      },
      some (n ∷ parent),
    )

  unfoldable pub get_or_copy_node : Tree → DataNode → DataPath → Option (Tree × Option DataPath)
  unfolding find_child have_free_nodeblock
  get_or_copy_node t from parent = elim (find_child t.nodes (or_root parent) (label_of from)) [
    | none ↦ have_free_nodeblock cfg t 1 >>= copy_in from (or_root parent)
    | some c ↦ some (t, some c)
  ]

  -- `get_path(n, nodelist, parent)`, from `node` on.
  unfoldable pub get_path_nodes : Tree → List DataPath → DataPath → Option (Tree × DataPath)
  unfolding get_or_copy_node
  get_path_nodes t [] node = some (t, node)
  get_path_nodes t ([] ∷ ps) node = get_path_nodes t ps node
  get_path_nodes t ((n ∷ up) ∷ ps) node =
      get_or_copy_node t n node >>= λ (t', o). get_path_nodes t' ps (or_null o)

  abbrev pub copy_unless : Bool → Tree → DataNode → DataPath → Option (Tree × DataPath)
  copy_unless true t n tmp = some (t, tmp)
  copy_unless false t n tmp = get_or_copy_node t n tmp >>= λ (t', o). some (t', or_null o)

  -- The recursion of `copy_path_without_attribute`, where `r` is not null.
  unfoldable pub copy_path : Tree → ℕ → DataPath → DataPath → Option (Tree × DataPath)
  unfolding get_or_copy_node
  copy_path t attr [] r = some (t, r)
  copy_path t attr (n ∷ up) r =
      let copied : Option (Tree × DataPath) =
        copy_path t attr up r >>= (λ (t', tmp). copy_unless (attr == n.attribute) t' n tmp) in
      if n.id == path_id r then some (t, r) else copied

  unfoldable pub copy_path_without_attribute :
      Tree → ℕ → DataPath → DataPath → Option (Tree × DataPath)
  unfolding copy_path
  copy_path_without_attribute t attr node r = copy_path t attr node (or_root r)

  unfoldable pub remove_first_in_path : Tree → DataPath → ℕ → Option (Tree × DataPath)
  unfolding copy_path_without_attribute find_node_with_attribute
  remove_first_in_path t path attr =
      copy_path_without_attribute t attr path (parent_of (find_node_with_attribute attr path))

  -- What is done with a path that is not null.
  abbrev pub unless_null : Tree → DataPath → Option (Tree × DataPath) → Option (Tree × DataPath)
  unless_null t [] changed = some (t, [])
  unless_null t (n ∷ up) changed = changed

  unfoldable pub replace_first_in_path :
      Tree → DataPath → Key → Datum → Option (Tree × Option DataPath)
  unfolding remove_first_in_path get_path_of
  replace_first_in_path t path k v = do
    (t', p) ← unless_null t path (remove_first_in_path t path k.id)
    get_path_of cfg t' k (v ∷ []) p

  unfoldable pub replace_all_in_path :
      Tree → DataPath → Key → List Datum → Option (Tree × Option DataPath)
  unfolding copy_path_without_attribute find_hierarchy_parent get_path_of
  replace_all_in_path t path k vs = do
    (t', p) ←
        unless_null t path
          (copy_path_without_attribute t k.id path (find_hierarchy_parent k.id path))
    get_path_of cfg t' k vs p
