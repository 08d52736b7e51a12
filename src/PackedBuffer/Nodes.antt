-- ===== src/PackedBuffer/Nodes.antt =====
-- `NodeBuffer`: the items are context tree nodes.
pub mod RoundTrip
use caliper.Base.{
  ℕ, zero, suc, ◌+◌, ◌*◌, ◌/◌, ◌%◌, ◌^◌, ◌≤◌, ◌<◌, ◌≡◌, leb, ◌==◌, if◌then◌else◌, ◌>>=◌,
}
use caliper.Base.{List, [], ◌∷◌, ◌++◌, length, drop, Option, none, some, Bool, true, false, not}
use caliper.Base.Memory.{front}
use caliper.Vlenc.{IsU64, vlenc_u64, vldec_at}
use caliper.Variant.{AttrType, attr_type, type_code, size_of}
use caliper.Node.{inv_id}
use caliper.PackedBuffer.{PackedBuffer, Allocator, append_bytes}

-- `NodeBuffer::NodeInfo`. `value` is its type and the `value.size()` bytes at `value.data()`.
pub record NodeInfo : Type 0 where
  pub node_id : ℕ
  pub attr_id : ℕ
  pub parent_id : ℕ
  pub type : AttrType
  pub bytes : List ℕ

-- `make_nodeinfo`, from a node's id, attribute, parent and data.
unfoldable pub make_nodeinfo : ℕ → ℕ → Option ℕ → AttrType → List ℕ → NodeInfo
make_nodeinfo id attr parent t b = record {
  node_id = id;
  attr_id = attr;
  parent_id = elim parent [ some p ↦ p | none ↦ inv_id ];
  type = t;
  bytes = b;
}

unfoldable pub max_packed_size : NodeInfo → ℕ
max_packed_size info = 50 + length info.bytes

-- `2 * info.node_id + (have_parent ? 1 : 0)`.
abbrev pub id_and_flag : NodeInfo → ℕ
id_and_flag info = (2 * info.node_id + (if info.parent_id == inv_id then 0 else 1)) % 2 ^ 64

-- The bytes written; the function's result is their number.
unfoldable pub pack_node : NodeInfo → List ℕ
pack_node info =
    vlenc_u64 (id_and_flag info)
    ++ (vlenc_u64 info.attr_id
        ++ ((if info.parent_id == inv_id then [] else vlenc_u64 info.parent_id)
            ++ (vlenc_u64 (type_code info.type) ++ (vlenc_u64 (length info.bytes) ++ info.bytes))))

-- `Variant(type, buf+pos, size)`: the bytes of the value. A string keeps `size` in 56 bits.
abbrev pub make_value : AttrType → List ℕ → ℕ → Option (List ℕ)
make_value t buf size = front buf (size_of t (size % 2 ^ 56))

-- The part of `unpack_node` behind the parent id.
unfoldable pub unpack_value : List ℕ → ℕ → ℕ → ℕ → ℕ → Option (NodeInfo × ℕ)
unpack_value buf node_id attr_id parent_id pos = do
  (u, p) ← vldec_at buf pos
  (size, q) ← vldec_at buf p
  value ← make_value (attr_type u) (drop q buf) size
  some (
    record {
      node_id = node_id;
      attr_id = attr_id;
      parent_id = parent_id;
      type = attr_type u;
      bytes = value;
    },
    q + size,
  )

-- `unpack_node(buf, inc)`: the node and by how much `*inc` grows.
unfoldable pub unpack_node : List ℕ → Option (NodeInfo × ℕ)
unpack_node buf = do
  (u, p) ← vldec_at buf 0
  (attr, q) ← vldec_at buf p
  let with_parent : Option (NodeInfo × ℕ) =
      vldec_at buf q >>= (λ (parent, r). unpack_value buf (u / 2) attr parent r)
  if u % 2 == 1 then with_parent else unpack_value buf (u / 2) attr inv_id q

-- `append(info)`.
unfoldable pub append_node : Allocator → PackedBuffer → NodeInfo → Option PackedBuffer
append_node mem s info = append_bytes mem s (max_packed_size info) (pack_node info)
