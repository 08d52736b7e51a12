-- ===== src/SnapshotRecord.antt =====
-- include/caliper/SnapshotRecord.h and src/caliper/SnapshotRecord.cpp: the record of fixed capacity that a snapshot
-- is collected in. Its two arrays of immediate entries are filled together and stand as pairs.
pub mod Contents
use caliper.Base.{ℕ, ◌+◌, ◌-◌, min, leb, ◌==◌, if◌then◌else◌, List, [], ◌∷◌, ◌++◌}
use caliper.Base.{length, take, map, replicate}
use caliper.Attribute.{Attr}
use caliper.Node.{NodePtr, inv_id}
use caliper.Variant.{Variant}
use caliper.Entry.{Entry, node_entry, imm_entry, empty_entry}

-- The used parts of the arrays, and `m_capacity`.
pub record SnapshotRecord : Type 0 where
  pub nodes : List NodePtr
  pub imms : List (ℕ × Variant)
  pub max_nodes : ℕ
  pub max_imms : ℕ

-- A record over a `FixedSnapshotRecord<N>`.
unfoldable pub fixed : ℕ → SnapshotRecord
fixed n = record { nodes = []; imms = []; max_nodes = n; max_imms = n }

-- The free places, `capacity()`.
unfoldable pub capacity : SnapshotRecord → ℕ × ℕ
capacity r = (r.max_nodes - length r.nodes, r.max_imms - length r.imms)

-- `append(n, node_vec, m, attr_vec, data_vec)`: what finds no place is left out.
unfoldable pub append : SnapshotRecord → List NodePtr → List (ℕ × Variant) → SnapshotRecord
unfolding capacity
append r node_vec imm_vec = record r {
  nodes = r.nodes ++ take (min (length node_vec) (capacity r).0) node_vec;
  imms = r.imms ++ take (min (length imm_vec) (capacity r).1) imm_vec;
}

-- `append(n, attr_vec, data_vec)`.
unfoldable pub append_immediate : SnapshotRecord → List (ℕ × Variant) → SnapshotRecord
unfolding capacity
append_immediate r imm_vec = record r {
  imms = r.imms ++ take (min (length imm_vec) (capacity r).1) imm_vec;
}

-- `append(const SnapshotRecord&)`.
unfoldable pub append_all : SnapshotRecord → SnapshotRecord → SnapshotRecord
unfolding capacity
append_all r list = record r {
  nodes = r.nodes ++ take (min (length list.nodes) (capacity r).0) list.nodes;
  imms = r.imms ++ take (min (length list.imms) (capacity r).1) list.imms;
}

-- `append(Node*)`.
unfoldable pub append_node : SnapshotRecord → NodePtr → SnapshotRecord
append_node r node =
    if leb r.max_nodes (length r.nodes) then r else record r { nodes = r.nodes ++ (node ∷ []) }

-- `to_entrylist()`: the vector starts with as many empty entries as the record has entries.
unfoldable pub to_entrylist : SnapshotRecord → List Entry
to_entrylist r =
    replicate (length r.nodes + length r.imms) empty_entry
    ++ (map node_entry r.nodes ++ map (λ (e : ℕ × Variant). imm_entry e.0 e.1) r.imms)

-- `get(attr)` for an attribute stored as a value.
unfoldable pub get_value : List (ℕ × Variant) → ℕ → Entry
get_value [] attr = empty_entry
get_value ((a, v) ∷ es) attr = if a == attr then imm_entry attr v else get_value es attr

-- The inner loop of `get(attr)`, from a node upwards: the node that has the attribute.
unfoldable pub find_node : NodePtr → ℕ → NodePtr
find_node [] attr = []
find_node (n ∷ up) attr = if n.attribute == attr then n ∷ up else find_node up attr

-- `get(attr)` for an attribute stored in nodes.
unfoldable pub get_path : List NodePtr → ℕ → Entry
unfolding find_node
get_path [] attr = empty_entry
get_path (p ∷ ps) attr = elim (find_node p attr) [
  | [] ↦ get_path ps attr
  | n ∷ up ↦ node_entry (n ∷ up)
]

unfoldable pub get : SnapshotRecord → Attr → Entry
unfolding get_value get_path
get r a =
    let value = get_value r.imms a.id in
    let path = get_path r.nodes a.id in
    if a.id == inv_id then empty_entry else if a.store_as_value then value else path
