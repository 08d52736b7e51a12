-- ===== src/Variant/Convert.antt =====
-- The conversions and the comparison of src/common/cali_variant.c, on a little-endian machine with 32-bit `int`.
-- An `int` is its 32-bit pattern.
use caliper.Base.{◌||◌}
use caliper.Variant.{extract_type}
use caliper.Base.{
  ℕ, ◌+◌, ◌-◌, ◌%◌, ◌^◌, ltb, leb, ◌==◌, if◌then◌else◌, Bool, true, false, not, ◌&&◌,
}
use caliper.Base.{Option, none, some}
use caliper.Node.{inv_id}
use caliper.Variant.{AttrType, type_code, Variant, get_type, extract_size}
use caliper.Variant.AttrType.{inv, usr, int, uint, string, addr, double, bool, type}

-- What the C implementation does with `double` values, given by their bits, and with memory: the
-- casts, the sign of a difference, and `memcmp` and `strncmp` of two addresses and a size.
pub record Platform : Type 0 where
  pub double_to_int : ℕ → ℕ
  pub double_to_uint : ℕ → ℕ
  pub double_diff : ℕ → ℕ → ℕ
  pub memcmp : ℕ → ℕ → ℕ → ℕ
  pub strncmp : ℕ → ℕ → ℕ → ℕ

-- The members of the union.
abbrev pub v_int : Variant → ℕ
v_int v = v.v_uint % 2 ^ 32

abbrev pub v_bool : Variant → Bool
v_bool v = not (v.v_uint % 256 == 0)

-- `(uint64_t)` of an `int`: the sign is extended.
abbrev pub extend : ℕ → ℕ
extend i = if ltb i (2 ^ 31) then i else i + (2 ^ 64 - 2 ^ 32)

abbrev pub bit : Bool → ℕ
bit true = 1
bit false = 0

-- Where an `int` stands in the order of all.
abbrev pub rank : ℕ → ℕ
rank i = (i + 2 ^ 31) % 2 ^ 32

abbrev pub is_negative : ℕ → Bool
is_negative i = leb (2 ^ 31) i

abbrev pub minus_one : ℕ
minus_one = 2 ^ 32 - 1

-- `l - r` on `int`, which is undefined where it overflows.
unfoldable pub sub_int : ℕ → ℕ → Option ℕ
sub_int l r =
    if leb (rank l) (rank r + (2 ^ 31 - 1)) && leb (rank r) (rank l + 2 ^ 31)
    then some ((l + (2 ^ 32 - r)) % 2 ^ 32)
    else none

-- The comparison of two unsigned values by their difference.
unfoldable pub compare_uint : ℕ → ℕ → Option ℕ
compare_uint l r =
    let diff = (l + (2 ^ 64 - r)) % 2 ^ 64 in
    some (if diff == 0 then 0 else if ltb l diff then minus_one else 1)

module _ (c : Platform) where
  -- The `switch` of `cali_variant_to_int`: the value, and `ok`.
  abbrev pub int_of : AttrType → Variant → ℕ × Bool
  int_of inv v = (0, false)
  int_of usr v = (0, false)
  int_of int v = (v_int v, true)
  int_of uint v = (v.v_uint % 2 ^ 32, true)
  int_of string v = (0, false)
  int_of addr v = (v.v_uint % 2 ^ 32, true)
  int_of double v = (c.double_to_int v.v_uint, true)
  int_of bool v = (bit (v_bool v), true)
  int_of type v = (v_int v, true)

  unfoldable pub to_int : Variant → ℕ × Bool
  to_int v = int_of (get_type v) v

  abbrev pub uint_of : AttrType → Variant → ℕ × Bool
  uint_of inv v = (0, false)
  uint_of usr v = (0, false)
  uint_of int v = (extend (v_int v), true)
  uint_of uint v = (v.v_uint, true)
  uint_of string v = (0, false)
  uint_of addr v = (v.v_uint, true)
  uint_of double v = (c.double_to_uint v.v_uint, true)
  uint_of bool v = (bit (v_bool v), true)
  uint_of type v = (v_int v, true)

  unfoldable pub to_uint : Variant → ℕ × Bool
  to_uint v = uint_of (get_type v) v

  -- `Variant::to_id`.
  unfoldable pub to_id : Variant → ℕ × Bool
  unfolding to_uint
  to_id v = ((if (to_uint v).1 then (to_uint v).0 else inv_id), (to_uint v).1)

  -- The size of a string or blob as an `int`.
  abbrev pub int_size : Variant → ℕ
  int_size v = extract_size v.type_and_size % 2 ^ 32

  -- `imin` of the two sizes, as the `size_t` that the comparison is handed.
  abbrev pub common_size : Variant → Variant → ℕ
  common_size l r =
      extend (if ltb (rank (int_size l)) (rank (int_size r)) then int_size l else int_size r)

  abbrev pub or_sizes : ℕ → Variant → Variant → Option ℕ
  or_sizes cmp l r = if cmp == 0 then sub_int (int_size l) (int_size r) else some cmp

  -- The comparison of two values of one type.
  abbrev pub compare_as : AttrType → Variant → Variant → Option ℕ
  compare_as inv l r = sub_int (v_int l) (v_int r)
  compare_as usr l r = or_sizes (c.memcmp l.v_uint r.v_uint (common_size l r)) l r
  compare_as int l r = sub_int (v_int l) (v_int r)
  compare_as uint l r = compare_uint l.v_uint r.v_uint
  compare_as string l r = or_sizes (c.strncmp l.v_uint r.v_uint (common_size l r)) l r
  compare_as addr l r = compare_uint l.v_uint r.v_uint
  compare_as double l r = some (c.double_diff l.v_uint r.v_uint)
  compare_as bool l r = sub_int (bit (v_bool l)) (bit (v_bool r))
  compare_as type l r = sub_int (v_int l) (v_int r)

  -- `cali_variant_compare`.
  unfoldable pub compare_values : Variant → Variant → Option ℕ
  compare_values l r =
      if type_code (get_type l) == type_code (get_type r)
      then compare_as (get_type l) l r
      else sub_int (type_code (get_type l)) (type_code (get_type r))

-- `cali_variant_to_bool`.
abbrev pub bool_of : AttrType → Variant → Bool × Bool
bool_of int v = (not (v_int v == 0), true)
bool_of uint v = (not (v.v_uint == 0), true)
bool_of addr v = (not (v.v_uint == 0), true)
bool_of bool v = (v_bool v, true)
bool_of inv v = (false, false)
bool_of usr v = (false, false)
bool_of string v = (false, false)
bool_of double v = (false, false)
bool_of type v = (false, false)

unfoldable pub to_bool : Variant → Bool × Bool
to_bool v = bool_of (get_type v) v

-- `cali_variant_to_type`: the number of the type as it stands in the union.
abbrev pub type_of : AttrType → Variant → ℕ × Bool
type_of t v = if type_code t == 8 then (v_int v, true) else (0, false)

unfoldable pub to_type : Variant → ℕ × Bool
to_type v = type_of (get_type v) v

-- `cali_variant_eq`; strings and blobs are equal by their address or by `memcmp`.
unfoldable pub eq_values : Platform → Variant → Variant → Bool
eq_values c l r =
    let t = extract_type l.type_and_size in
    let bytes = c.memcmp l.v_uint r.v_uint (extract_size l.type_and_size) == 0 in
    if l.type_and_size == r.type_and_size
    then (if (t == 1) || (t == 4) then (l.v_uint == r.v_uint) || bytes else l.v_uint == r.v_uint)
    else false
