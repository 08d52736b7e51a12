-- ===== src/Tests/Values.antt =====
-- Conversions and comparisons of values.
use caliper.Base.{[], ◌∷◌}
use caliper.Node.{Node}
use caliper.Attribute.{make_attribute, type_of}
use caliper.Base.{ℕ, ◌-◌, ◌^◌, ◌≡◌, refl, arith, some, none, true}
use caliper.Variant.{Variant, get_type, make_uint}
use caliper.Variant.Convert.{Platform, minus_one, to_uint, compare_values, sub_int}
use caliper.Variant.Order.{compare_values-uint}

abbrev platform : Platform
platform = record {
  double_to_int = λ d. 0;
  double_to_uint = λ d. 0;
  double_diff = λ l r. 0;
  memcmp = λ l r n. 0;
  strncmp = λ l r n. 0;
}

abbrev int_value : ℕ → Variant
int_value i = record { type_and_size = 2; v_uint = i }

-- The pattern of -1 as an unsigned value.
extends_sign : to_uint platform (int_value minus_one) ≡ (2 ^ 64 - 1, true)
unfolding to_uint get_type
extends_sign = refl

-- 1 and the lowest `int`.
difference_overflows : compare_values platform (int_value 1) (int_value (2 ^ 31)) ≡ none
unfolding compare_values get_type sub_int
difference_overflows = refl

compare_values-uint_example :
    compare_values platform (make_uint 3) (make_uint (2 ^ 64 - 1)) ≡ some minus_one
unfolding make_uint get_type
compare_values-uint_example =
    compare_values-uint platform (make_uint 3) (make_uint (2 ^ 64 - 1)) refl refl (omega arith)
      (omega arith)

abbrev type_node : Node
type_node = record { id = 3; attribute = 9; value = record { type_and_size = 8; v_uint = 2 } }

abbrev name_node : Node
name_node = record {
  id = 20;
  attribute = 8;
  value = record { type_and_size = 1028; v_uint = 4096 };
}

name_node-type_of : type_of (make_attribute (name_node ∷ type_node ∷ [])) ≡ 2
unfolding make_attribute type_of get_type
name_node-type_of = refl

-- A node of a type is not an attribute.
type_node_refused : make_attribute (type_node ∷ []) ≡ []
unfolding make_attribute
type_node_refused = refl
