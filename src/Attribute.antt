-- ===== src/Attribute.antt =====
-- include/caliper/common/Attribute.h and src/common/Attribute.cpp: an attribute is a pointer to its name node in the
-- context tree, and what is known of it stands in the nodes from there upwards.
use caliper.Base.{ℕ, ◌==◌, if◌then◌else◌, Bool, true, false, not, ◌&&◌, ◌||◌}
use caliper.Base.{[], ◌∷◌, Option, none, some}
use caliper.Node.{NodePtr, inv_id}
use caliper.Variant.{Variant, empty_variant}
use caliper.Variant.Convert.{Platform, to_int, to_type}
use Prim.Native.Nat.{bit_and}

-- What the blackboard and the snapshot record ask of an attribute.
pub record Attr : Type 0 where
  pub id : ℕ
  pub store_as_value : Bool
  pub is_hidden : Bool

-- `s_keys`.
abbrev pub name_attr_id : ℕ
name_attr_id = 8

abbrev pub type_attr_id : ℕ
type_attr_id = 9

abbrev pub prop_attr_id : ℕ
prop_attr_id = 10

-- The loops over the parents: the data of the first node with the attribute `key`, up to a node
-- without an attribute.
unfoldable pub find_data : ℕ → NodePtr → Option Variant
find_data key [] = none
find_data key (n ∷ up) =
    let rest = find_data key up in
    if n.attribute == inv_id then none else if n.attribute == key then some n.value else rest

abbrev pub is_some {ℓ} : {A : Type ℓ} → Option A → Bool
is_some none = false
is_some (some a) = true

-- The null pointer is `Attribute::invalid`.
unfoldable pub make_attribute : NodePtr → NodePtr
unfolding find_data
make_attribute [] = []
make_attribute (n ∷ up) =
    if (n.attribute == inv_id) || not (n.attribute == name_attr_id)
    then []
    else if is_some (find_data type_attr_id (n ∷ up))
    then n ∷ up
    else []

unfoldable pub id_of : NodePtr → ℕ
id_of [] = inv_id
id_of (n ∷ up) = n.id

-- The data of the name node, whose text is the name; `none` is the empty name.
unfoldable pub name : NodePtr → Option Variant
unfolding find_data
name node = find_data name_attr_id node

abbrev pub type_or_inv : Option Variant → ℕ
type_or_inv none = 0
type_or_inv (some v) = (to_type v).0

unfoldable pub type_of : NodePtr → ℕ
unfolding find_data to_type
type_of node = type_or_inv (find_data type_attr_id node)

abbrev pub int_or_default : Platform → Option Variant → ℕ
int_or_default c none = 0
int_or_default c (some v) = (to_int c v).0

unfoldable pub properties : Platform → NodePtr → ℕ
unfolding find_data to_int
properties c node = int_or_default c (find_data prop_attr_id node)

-- A flag of the properties.
unfoldable pub has_flag : Platform → ℕ → NodePtr → Bool
unfolding properties
has_flag c flag node = not (bit_and (properties c node) flag == 0)

-- `store_as_value()` tests `CALI_ATTR_ASVALUE` and `is_hidden()` tests `CALI_ATTR_HIDDEN`.
unfoldable pub attr_of : Platform → NodePtr → Attr
unfolding has_flag id_of
attr_of c node = record {
  id = id_of node;
  store_as_value = has_flag c 1 node;
  is_hidden = has_flag c 128 node;
}

unfoldable pub is_autocombineable : Platform → NodePtr → Bool
unfolding has_flag
is_autocombineable c node = not (has_flag c 1 node) && not (has_flag c 2 node)

-- `get(attr)`, from a node upwards.
unfoldable pub get_data : NodePtr → ℕ → Variant
get_data [] attr = empty_variant
get_data (n ∷ up) attr =
    let rest = get_data up attr in if n.attribute == attr then n.value else rest
