-- ===== src/Tests/Buffers.antt =====
-- Buffers of snapshots and of nodes.
use caliper.Base.{
  ℕ, ◌≤◌, ◌≡◌, refl, arith, [], ◌∷◌, ◌++◌, length, some, replicate, length-replicate,
}
use caliper.Vlenc.{vlenc_u64}
use caliper.Variant.{uint}
use caliper.PackedBuffer.{PackedBuffer, Allocator, empty, for_each}
use caliper.PackedBuffer.Holds.{Holds, empty-Holds, for_each-Holds}
use caliper.PackedBuffer.Snapshots
use caliper.PackedBuffer.Snapshots.{Snapshot, snapshot_codec, decode_view}
use caliper.PackedBuffer.Nodes
use caliper.PackedBuffer.Nodes.{NodeInfo, pack_node, unpack_node, max_packed_size}
use caliper.PackedBuffer.Nodes.RoundTrip
use caliper.PackedBuffer.Nodes.RoundTrip.{
  IsNodeInfo, node_codec, unpack_node-pack_node, length-pack_node,
}
use caliper.Tests.Records.{sample, sample-Encodes, one_imm, seven-IsVariant}

abbrev zeros : Allocator
zeros = record { alloc = λ n. replicate n 0; alloc_size = λ n. length-replicate {A = ℕ} n 0 }

append_record-Holds_example :
    (s' : PackedBuffer) × (Snapshots.append_record zeros empty sample ≡ some s')
    × Holds snapshot_codec s' ([] ++ ((3 ∷ [], one_imm) ∷ []))
append_record-Holds_example =
    Snapshots.append_record-Holds zeros (empty-Holds snapshot_codec) sample-Encodes (omega arith)
      ((omega arith, seven-IsVariant), tt)

one_snapshot :
    (s' : PackedBuffer) × (Snapshots.append_record zeros empty sample ≡ some s')
    × Holds snapshot_codec s' ([] ++ ((3 ∷ [], one_imm) ∷ []))
one_snapshot =
    Snapshots.append_record-Holds zeros (empty-Holds snapshot_codec) sample-Encodes (omega arith)
      ((omega arith, seven-IsVariant), tt)

for_each-Holds_example : for_each decode_view one_snapshot.0 ≡ some ((3 ∷ [], one_imm) ∷ [])
for_each-Holds_example = for_each-Holds snapshot_codec one_snapshot.2

abbrev child : NodeInfo
child = record {
  node_id = 20;
  attr_id = 8;
  parent_id = 3;
  type = uint;
  bytes = 1 ∷ 0 ∷ 0 ∷ 0 ∷ 0 ∷ 0 ∷ 0 ∷ 0 ∷ [];
}

child-IsNodeInfo : IsNodeInfo child
child-IsNodeInfo = omega arith

-- The id 20 and the flag, the attribute, the parent, the type, the size, the bytes.
pack_child : pack_node child ≡ 41 ∷ 8 ∷ 3 ∷ 3 ∷ 8 ∷ 1 ∷ 0 ∷ 0 ∷ 0 ∷ 0 ∷ 0 ∷ 0 ∷ 0 ∷ []
unfolding pack_node vlenc_u64
pack_child = refl

unpack_node-pack_node_example :
    unpack_node (pack_node child ++ (9 ∷ [])) ≡ some (child, length (pack_node child))
unpack_node-pack_node_example = unpack_node-pack_node child (9 ∷ []) child-IsNodeInfo

length-pack_node_example :
    (4 ≤ length (pack_node child)) × (length (pack_node child) ≤ max_packed_size child)
length-pack_node_example = length-pack_node child child-IsNodeInfo

append_node-Holds_example :
    (s' : PackedBuffer) × (Nodes.append_node zeros empty child ≡ some s')
    × Holds node_codec s' ([] ++ (child ∷ []))
append_node-Holds_example =
    RoundTrip.append_node-Holds zeros child (empty-Holds node_codec) child-IsNodeInfo
