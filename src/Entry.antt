-- ===== src/Entry.antt =====
-- include/caliper/common/Entry.h and src/common/Entry.cpp: one element of a snapshot, a pointer to a
-- context tree node or an immediate (attribute, value) pair.
pub mod Laws
use caliper.Base.{ℕ, ◌+◌, ◌==◌, List, [], ◌∷◌, Bool, true, false, not, ◌&&◌, if◌then◌else◌}
use caliper.Node.{Node, NodePtr, inv_id}
use caliper.Variant.{Variant, empty_variant}

pub record Entry : Type 0 where
  pub node : NodePtr
  pub attr_id : ℕ
  pub value : Variant

-- `Entry(const Node*)`, with a null pointer too.
abbrev pub node_entry : NodePtr → Entry
node_entry n = record { node = n; attr_id = inv_id; value = empty_variant }

-- `Entry(cali_id_t, const Variant&)`.
abbrev pub imm_entry : ℕ → Variant → Entry
imm_entry a v = record { node = []; attr_id = a; value = v }

-- `Entry::empty`.
abbrev pub empty_entry : Entry
empty_entry = node_entry []

-- `m_node == 0 && m_attr_id != CALI_INV_ID`, on the two fields.
abbrev pub is_value : NodePtr → ℕ → Bool
is_value (n ∷ up) a = false
is_value [] a = not (a == inv_id)

unfoldable pub is_immediate : Entry → Bool
is_immediate e = is_value e.node e.attr_id

-- `attribute()`.
abbrev pub attribute_of : NodePtr → ℕ → ℕ
attribute_of (n ∷ up) a = n.attribute
attribute_of [] a = a

unfoldable pub attribute : Entry → ℕ
attribute e = attribute_of e.node e.attr_id

-- The loop of `count(attr_id)` over the nodes.
unfoldable pub count_nodes : ℕ → NodePtr → ℕ
count_nodes attr [] = 0
count_nodes attr (n ∷ up) = (if n.attribute == attr then 1 else 0) + count_nodes attr up

abbrev pub count_of : NodePtr → ℕ → ℕ → ℕ
count_of (n ∷ up) a attr = count_nodes attr (n ∷ up)
count_of [] a attr = if not (a == inv_id) && (a == attr) then 1 else 0

unfoldable pub count : Entry → ℕ → ℕ
unfolding count_nodes
count e attr = count_of e.node e.attr_id attr

-- `value()`.
abbrev pub top_of : NodePtr → Variant → Variant
top_of (n ∷ up) v = n.value
top_of [] v = v

unfoldable pub top_value : Entry → Variant
top_value e = top_of e.node e.value

-- The loop of `value(attr_id)`: the first node with the attribute, or the empty value.
unfoldable pub find_value : ℕ → NodePtr → Variant
find_value attr [] = empty_variant
find_value attr (n ∷ up) = if n.attribute == attr then n.value else find_value attr up

abbrev pub value_at : NodePtr → ℕ → Variant → ℕ → Variant
value_at (n ∷ up) a v attr = find_value attr (n ∷ up)
value_at [] a v attr = if attr == a then v else empty_variant

unfoldable pub value_of : Entry → ℕ → Variant
unfolding find_value
value_of e attr = value_at e.node e.attr_id e.value attr
