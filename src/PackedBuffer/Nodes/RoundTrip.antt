-- ===== src/PackedBuffer/Nodes/RoundTrip.antt =====
-- A packed node reads back, and `append` asks for enough room.
use caliper.Base.{ℕ, ◌+◌, ◌*◌, ◌/◌, ◌%◌, ◌^◌, ◌≤◌, ◌<◌, ◌≡◌, refl, arith, ap, ◌∙◌, ◌==◌}
use caliper.Base.{List, [], ◌∷◌, ◌++◌, length, length-append, append_assoc, drop}
use caliper.Base.{some, Bool-cases, inl, inr, true, false}
use caliper.Base.Memory.{drop-append, front, front-append}
use caliper.Vlenc.{IsU64, vlenc_u64, vldec_at}
use caliper.Vlenc.Encode.{length-vlenc_u64}
use caliper.Vlenc.RoundTrip.{vldec_at-vlenc_u64}
use caliper.Variant.{AttrType, attr_type, type_code, size_of}
use caliper.Node.{inv_id}
use caliper.PackedBuffer.{PackedBuffer, Allocator}
use caliper.PackedBuffer.Holds.{Codec, Holds, append_bytes-Holds}
use caliper.PackedBuffer.Nodes.{
  NodeInfo, pack_node, unpack_value, unpack_node, append_node, max_packed_size,
}
use native.Mathlib.Nat.{mod-eq_of_lt}

-- Ids that fit, and a value of its type's size. The flag takes one bit of the node's id.
pub record IsNodeInfo (info : NodeInfo) : Type 0 where
  pub id_fits : info.node_id < 2 ^ 63
  pub attr_fits : IsU64 info.attr_id
  pub parent_fits : IsU64 info.parent_id
  pub sized : size_of info.type (length info.bytes) ≡ length info.bytes
  pub short : length info.bytes < 2 ^ 56

pub attr_type-type_code : (t : AttrType) → attr_type (type_code t) ≡ t
attr_type-type_code AttrType.inv = refl
attr_type-type_code AttrType.usr = refl
attr_type-type_code AttrType.int = refl
attr_type-type_code AttrType.uint = refl
attr_type-type_code AttrType.string = refl
attr_type-type_code AttrType.addr = refl
attr_type-type_code AttrType.double = refl
attr_type-type_code AttrType.bool = refl
attr_type-type_code AttrType.type = refl

type_code-IsU64 : (t : AttrType) → IsU64 (type_code t)
type_code-IsU64 AttrType.inv = omega arith
type_code-IsU64 AttrType.usr = omega arith
type_code-IsU64 AttrType.int = omega arith
type_code-IsU64 AttrType.uint = omega arith
type_code-IsU64 AttrType.string = omega arith
type_code-IsU64 AttrType.addr = omega arith
type_code-IsU64 AttrType.double = omega arith
type_code-IsU64 AttrType.bool = omega arith
type_code-IsU64 AttrType.type = omega arith

unpack_value-pack :
    (pre value rest : List ℕ) (t : AttrType) (node_id attr_id parent_id pos : ℕ)
    → pos ≡ length pre
    → size_of t (length value) ≡ length value
    → length value < 2 ^ 56
    → unpack_value
        (pre ++ (vlenc_u64 (type_code t) ++ (vlenc_u64 (length value) ++ (value ++ rest))))
        node_id
        attr_id
        parent_id
        pos
      ≡ some (
        record {
          node_id = node_id;
          attr_id = attr_id;
          parent_id = parent_id;
          type = t;
          bytes = value;
        },
        pos + length (vlenc_u64 (type_code t)) + length (vlenc_u64 (length value)) + length value,
      )
unfolding unpack_value
unpack_value-pack pre value rest t node_id attr_id parent_id pos hp hs hv =
    let T = vlenc_u64 (type_code t) in
    let S = vlenc_u64 (length value) in
    let buf = pre ++ (T ++ (S ++ (value ++ rest))) in
    let p = pos + length T in
    let q = p + length S in
    let b₁ : buf ≡ (pre ++ T) ++ (S ++ (value ++ rest)) = simp append_assoc in
    let b₂ : buf ≡ (pre ++ (T ++ S)) ++ (value ++ rest) = simp append_assoc in
    let r₁ : vldec_at buf pos ≡ some (type_code t, p) =
      vldec_at-vlenc_u64 pre (S ++ (value ++ rest)) (type_code t) pos hp (type_code-IsU64 t) in
    let r₂ : vldec_at buf p ≡ some (length value, q) = rw b₁ (
      vldec_at-vlenc_u64 (pre ++ T) (value ++ rest) (length value) p
        (omega (arith, length-append pre T)) (omega arith)) in
    let m : length value % 2 ^ 56 ≡ length value = mod-eq_of_lt hv in
    let d : drop q buf ≡ value ++ rest = rw b₂ (
      drop-append (pre ++ (T ++ S)) (value ++ rest) q
        (omega (arith, length-append pre (T ++ S), length-append T S))) in
    let f : front (value ++ rest) (length value) ≡ some value =
      front-append value rest (length value) refl in
    rw (r₁, r₂, attr_type-type_code t, m, hs, d, f)

-- What stands behind the ids.
value_part : NodeInfo → List ℕ
value_part info = vlenc_u64 (type_code info.type) ++ (vlenc_u64 (length info.bytes) ++ info.bytes)

-- `unpack_value` at its place, in a buffer with the parts `pre` in front and `rest` behind.
unpack_value_part :
    (info : NodeInfo) (pre rest : List ℕ) (pos : ℕ)
    → IsNodeInfo info
    → pos ≡ length pre
    → unpack_value (pre ++ (value_part info ++ rest)) info.node_id info.attr_id info.parent_id pos
      ≡ some (info, pos + length (value_part info))
unfolding value_part
unpack_value_part info pre rest pos ok hp =
    let T = vlenc_u64 (type_code info.type) in
    let S = vlenc_u64 (length info.bytes) in
    let e : (T ++ (S ++ info.bytes)) ++ rest ≡ T ++ (S ++ (info.bytes ++ rest)) =
      simp append_assoc in
    let l : pos + length T + length S + length info.bytes ≡ pos + length (T ++ (S ++ info.bytes)) =
      omega (arith, length-append T (S ++ info.bytes), length-append S info.bytes) in
    rw e (
      unpack_value-pack pre info.bytes rest info.type info.node_id info.attr_id info.parent_id pos
        hp ok.sized ok.short
      ∙ ap (λ (n : ℕ). some (info, n)) l)

unpack_root :
    (buf : List ℕ) (u p a q : ℕ) {x : NodeInfo × ℕ}
    → vldec_at buf 0 ≡ some (u, p)
    → vldec_at buf p ≡ some (a, q)
    → u % 2 ≡ 0
    → unpack_value buf (u / 2) a inv_id q ≡ some x
    → unpack_node buf ≡ some x
unfolding unpack_node
unpack_root buf u p a q e f even h = let t : (u % 2 == 1) ≡ false = ground arith in rw (e, f, t, h)

unpack_child :
    (buf : List ℕ) (u p a q parent r : ℕ) {x : NodeInfo × ℕ}
    → vldec_at buf 0 ≡ some (u, p)
    → vldec_at buf p ≡ some (a, q)
    → vldec_at buf q ≡ some (parent, r)
    → u % 2 ≡ 1
    → unpack_value buf (u / 2) a parent r ≡ some x
    → unpack_node buf ≡ some x
unfolding unpack_node
unpack_child buf u p a q parent r e f g odd h =
    let t : (u % 2 == 1) ≡ true = ground arith in rw (e, f, t, g, h)

pack_root :
    (info : NodeInfo)
    → IsNodeInfo info
    → (info.parent_id == inv_id) ≡ true
    → pack_node info ≡ vlenc_u64 (2 * info.node_id) ++ (vlenc_u64 info.attr_id ++ value_part info)
unfolding pack_node value_part
pack_root info ok root =
    let w : (2 * info.node_id + 0) % 2 ^ 64 ≡ 2 * info.node_id = omega (arith, ok.id_fits) in
    rw (root, w)

pack_child :
    (info : NodeInfo)
    → IsNodeInfo info
    → (info.parent_id == inv_id) ≡ false
    → pack_node info
      ≡ vlenc_u64 (2 * info.node_id + 1)
        ++ (vlenc_u64 info.attr_id ++ (vlenc_u64 info.parent_id ++ value_part info))
unfolding pack_node value_part
pack_child info ok child =
    let w : (2 * info.node_id + 1) % 2 ^ 64 ≡ 2 * info.node_id + 1 = omega (arith, ok.id_fits) in
    rw (child, w)

unpack_root_node :
    (info : NodeInfo) (rest : List ℕ)
    → IsNodeInfo info
    → info.parent_id ≡ inv_id
    → let packed = vlenc_u64 (2 * info.node_id) ++ (vlenc_u64 info.attr_id ++ value_part info) in
      unpack_node (packed ++ rest) ≡ some (info, length packed)
unpack_root_node info rest ok root =
    let u = 2 * info.node_id in
    let U = vlenc_u64 u in
    let A = vlenc_u64 info.attr_id in
    let V = value_part info in
    let buf = (U ++ (A ++ V)) ++ rest in
    let b₀ : buf ≡ [] ++ (U ++ (A ++ (V ++ rest))) = simp append_assoc in
    let b₁ : buf ≡ U ++ (A ++ (V ++ rest)) = simp append_assoc in
    let b₂ : buf ≡ (U ++ A) ++ (V ++ rest) = simp append_assoc in
    let p = 0 + length U in
    let q = p + length A in
    let half : u / 2 ≡ info.node_id = omega arith in
    let l : q + length V ≡ length (U ++ (A ++ V)) =
      omega (arith, length-append U (A ++ V), length-append A V) in
    unpack_root buf u p info.attr_id q
      (rw b₀ (vldec_at-vlenc_u64 [] (A ++ (V ++ rest)) u 0 refl (omega (arith, ok.id_fits))))
      (rw b₁ (vldec_at-vlenc_u64 U (V ++ rest) info.attr_id p (omega arith) ok.attr_fits))
      (omega arith)
      (rw (half, ← root, b₂, ← l)
        (unpack_value_part info (U ++ A) rest q ok (omega (arith, length-append U A))))

unpack_child_node :
    (info : NodeInfo) (rest : List ℕ)
    → IsNodeInfo info
    → let packed =
        vlenc_u64 (2 * info.node_id + 1)
        ++ (vlenc_u64 info.attr_id ++ (vlenc_u64 info.parent_id ++ value_part info)) in
      unpack_node (packed ++ rest) ≡ some (info, length packed)
unpack_child_node info rest ok =
    let u = 2 * info.node_id + 1 in
    let U = vlenc_u64 u in
    let A = vlenc_u64 info.attr_id in
    let P = vlenc_u64 info.parent_id in
    let V = value_part info in
    let buf = (U ++ (A ++ (P ++ V))) ++ rest in
    let b₀ : buf ≡ [] ++ (U ++ (A ++ (P ++ (V ++ rest)))) = simp append_assoc in
    let b₁ : buf ≡ U ++ (A ++ (P ++ (V ++ rest))) = simp append_assoc in
    let b₂ : buf ≡ (U ++ A) ++ (P ++ (V ++ rest)) = simp append_assoc in
    let b₃ : buf ≡ (U ++ (A ++ P)) ++ (V ++ rest) = simp append_assoc in
    let p = 0 + length U in
    let q = p + length A in
    let r = q + length P in
    let half : u / 2 ≡ info.node_id = omega arith in
    let l : r + length V ≡ length (U ++ (A ++ (P ++ V))) =
      omega (arith, length-append U (A ++ (P ++ V)), length-append A (P ++ V), length-append P V) in
    unpack_child buf u p info.attr_id q info.parent_id r
      (rw b₀ (vldec_at-vlenc_u64 [] (A ++ (P ++ (V ++ rest))) u 0 refl (omega (arith, ok.id_fits))))
      (rw b₁ (vldec_at-vlenc_u64 U (P ++ (V ++ rest)) info.attr_id p (omega arith) ok.attr_fits))
      (rw b₂ (
        vldec_at-vlenc_u64 (U ++ A) (V ++ rest) info.parent_id q (omega (arith, length-append U A))
          ok.parent_fits))
      (omega arith)
      (rw (half, b₃, ← l)
        (unpack_value_part info (U ++ (A ++ P)) rest r ok
          (omega (arith, length-append U (A ++ P), length-append A P))))

-- Unpacking a packed context tree node, with an id below 2^63, 64-bit ids of its attribute and
-- parent, and a value as long as its type says and of fewer than 2^56 bytes, gives the node and
-- consumes exactly its bytes, whatever follows.
pub unpack_node-pack_node :
    (info : NodeInfo) (rest : List ℕ)
    → IsNodeInfo info
    → unpack_node (pack_node info ++ rest) ≡ some (info, length (pack_node info))
unpack_node-pack_node info rest ok = elim (Bool-cases (info.parent_id == inv_id)) [
  | inl root ↦ let e = pack_root info ok root in rw e (unpack_root_node info rest ok (ground arith))
  | inr child ↦ let e = pack_child info ok child in rw e (unpack_child_node info rest ok)
]

-- A packed node takes 4 bytes at least, and no more than `append` reserves.
pub length-pack_node :
    (info : NodeInfo)
    → IsNodeInfo info
    → (4 ≤ length (pack_node info)) × (length (pack_node info) ≤ max_packed_size info)
unfolding max_packed_size value_part
length-pack_node info ok =
    let A = vlenc_u64 info.attr_id in
    let P = vlenc_u64 info.parent_id in
    let T = vlenc_u64 (type_code info.type) in
    let S = vlenc_u64 (length info.bytes) in
    let V = T ++ (S ++ info.bytes) in
    let U₀ = vlenc_u64 (2 * info.node_id) in
    let U₁ = vlenc_u64 (2 * info.node_id + 1) in
    let a = length-vlenc_u64 info.attr_id ok.attr_fits in
    let p = length-vlenc_u64 info.parent_id ok.parent_fits in
    let t = length-vlenc_u64 (type_code info.type) (type_code-IsU64 info.type) in
    let s = length-vlenc_u64 (length info.bytes) (omega (arith, ok.short)) in
    let u₀ = length-vlenc_u64 (2 * info.node_id) (omega (arith, ok.id_fits)) in
    let u₁ = length-vlenc_u64 (2 * info.node_id + 1) (omega (arith, ok.id_fits)) in
    let v₁ = length-append T (S ++ info.bytes) in
    let v₂ = length-append S info.bytes in
    elim (Bool-cases (info.parent_id == inv_id)) [
      | inl root ↦
          let l₁ = length-append U₀ (A ++ V) in
          let l₂ = length-append A V in rw (pack_root info ok root) (omega arith, omega arith)
      | inr child ↦
          let l₁ = length-append U₁ (A ++ (P ++ V)) in
          let l₂ = length-append A (P ++ V) in
          let l₃ = length-append P V in rw (pack_child info ok child) (omega arith, omega arith)
    ]

pub node_encode_some : (info : NodeInfo) → IsNodeInfo info → 1 ≤ length (pack_node info)
node_encode_some info ok = omega (arith, (length-pack_node info ok).0)

abbrev pub node_codec : Codec NodeInfo
node_codec = record {
  Good = IsNodeInfo;
  encode = pack_node;
  decode = unpack_node;
  encode_some = node_encode_some;
  decode-encode = unpack_node-pack_node;
}

-- Appending a node, with an id below 2^63, 64-bit ids of its attribute and parent, and a value as
-- long as its type says and of fewer than 2^56 bytes, to a node buffer that holds such nodes
-- succeeds, growing it as needed, keeps the earlier nodes and adds the node behind them.
pub append_node-Holds :
    (mem : Allocator) {s : PackedBuffer} {items : List NodeInfo} (info : NodeInfo)
    → Holds node_codec s items
    → IsNodeInfo info
    → (s' : PackedBuffer) × (append_node mem s info ≡ some s')
      × Holds node_codec s' (items ++ (info ∷ []))
unfolding append_node
append_node-Holds mem info h ok =
    append_bytes-Holds node_codec mem info (max_packed_size info) h ok (length-pack_node info ok).1
