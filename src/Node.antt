-- ===== src/Node.antt =====
-- include/caliper/common/Node.h, read upwards: a node never changes and never moves, so a pointer to it
-- is the list of the nodes from there up to the root. The null pointer is the empty list.
use caliper.Base.{ℕ, ◌-◌, ◌^◌, List, [], ◌∷◌}
use caliper.Variant.{Variant}

-- `CALI_INV_ID`.
abbrev pub inv_id : ℕ
inv_id = 2 ^ 64 - 1

-- The id, the attribute and the data of a node.
pub record Node : Type 0 where
  pub id : ℕ
  pub attribute : ℕ
  pub value : Variant

-- `const Node*`; the tail is `parent()`.
abbrev pub NodePtr : Type 0
NodePtr = List Node

-- `id()`, read as `CALI_INV_ID` at the null pointer.
abbrev pub path_id : NodePtr → ℕ
path_id [] = inv_id
path_id (n ∷ up) = n.id
