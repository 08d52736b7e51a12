-- ===== src/Variant.antt =====
-- src/common/cali_variant.c, include/caliper/common/cali_variant.h and include/caliper/common/Variant.h:
-- the tagged value. The union is its 64 bits; a string or a blob is the address of its bytes.
pub mod Pack
pub mod Convert
pub mod Order
use caliper.Base.{ℕ, ◌+◌, ◌*◌, ◌/◌, ◌%◌, ◌^◌, ◌≤◌, ◌<◌, leb, ◌==◌, if◌then◌else◌, ◌>>=◌}
use caliper.Base.{List, ◌++◌, Option, some, Bool, true, false, ◌&&◌}
use caliper.Vlenc.{IsU64, vlenc_u64, vldec_at}
use Prim.Native.Nat.{bit_and}

-- `cali_attr_type`.
pub data AttrType : Type 0 where
  inv usr int uint string addr double bool type : AttrType

-- The number that stands for a type.
abbrev pub type_code : AttrType → ℕ
type_code inv = 0
type_code usr = 1
type_code int = 2
type_code uint = 3
type_code string = 4
type_code addr = 5
type_code double = 6
type_code bool = 7
type_code type = 8

abbrev pub max_type : ℕ
max_type = 8

-- `t <= CALI_MAXTYPE ? (cali_attr_type) t : CALI_TYPE_INV`.
abbrev pub attr_type : ℕ → AttrType
attr_type t =
    if t == 1
    then usr
    else if t == 2
    then int
    else if t == 3
    then uint
    else if t == 4
    then string
    else if t == 5
    then addr
    else if t == 6
    then double
    else if t == 7
    then bool
    else if t == 8
    then type
    else inv

pub record Variant : Type 0 where
  pub type_and_size : ℕ
  pub v_uint : ℕ

abbrev pub extract_type : ℕ → ℕ
extract_type ts = bit_and ts 0xFF

abbrev pub extract_size : ℕ → ℕ
extract_size ts = ts / 2 ^ 8

abbrev pub empty_variant : Variant
empty_variant = record { type_and_size = 0; v_uint = 0 }

-- `Variant::empty`.
unfoldable pub empty : Variant → Bool
empty v = extract_type v.type_and_size == 0

unfoldable pub get_type : Variant → AttrType
get_type v = attr_type (extract_type v.type_and_size)

-- The number of bytes of a value: stored for strings and blobs, `sizeof` for the others.
abbrev pub size_of : AttrType → ℕ → ℕ
size_of inv s = 0
size_of usr s = s
size_of int s = 4
size_of uint s = 8
size_of string s = s
size_of addr s = 8
size_of double s = 8
size_of bool s = 1
size_of type s = 4

unfoldable pub get_size : Variant → ℕ
unfolding get_type
get_size v = size_of (get_type v) (extract_size v.type_and_size)

-- `Variant(cali_id_t)` and the like.
unfoldable pub make_uint : ℕ → Variant
make_uint n = record { type_and_size = 3; v_uint = n }

-- The bytes written; the function's result is their number.
unfoldable pub pack : Variant → List ℕ
pack v = vlenc_u64 v.type_and_size ++ vlenc_u64 v.v_uint

-- `cali_variant_unpack(buf+pos, &pos, &ok)`: the value, the new `pos`, and `ok`. An unknown type
-- leaves `pos` where it was.
unfoldable pub unpack_at : List ℕ → ℕ → Option (Variant × ℕ × Bool)
unpack_at buf pos = do
  (ts, p) ← vldec_at buf pos
  let rest : Option (Variant × ℕ × Bool) = do
    (v, p') ← vldec_at buf p
    some (record { type_and_size = ts; v_uint = v }, p', true)
  if leb (extract_type ts) max_type then rest else some (empty_variant, pos, false)

-- Values that fit their fields, of a known type.
pub record IsVariant (v : Variant) : Type 0 where
  pub typed : extract_type v.type_and_size ≤ max_type
  pub tag_fits : IsU64 v.type_and_size
  pub value_fits : IsU64 v.v_uint
