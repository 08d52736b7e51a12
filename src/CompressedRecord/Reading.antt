-- ===== src/CompressedRecord/Reading.antt =====
-- The view reads back what a record holds.
pub mod Loops
pub mod Unpack
pub mod Overwrite
use caliper.Base.{ℕ, zero, suc, ◌+◌, ◌-◌, ◌≤◌, ◌<◌, ◌≡◌, refl, arith, sym, ap, ◌∙◌, min, get_elem?}
use caliper.Base.{List, [], ◌∷◌, ◌++◌, length, length-append, append_assoc, append-nil, take, map}
use caliper.Base.{Option, some, ◌>>=◌}
use caliper.Base.Memory.{get_elem?-append}
use caliper.Vlenc.{IsU64}
use caliper.Variant.{Variant}
use caliper.Node.{NodePtr}
use caliper.Entry.{Entry}
use caliper.CompressedRecord.{CompressedRecord, encode_ids, encode_imms}
use caliper.CompressedRecord.Nodes.{Stored}
use caliper.Base.{All}
use caliper.CompressedRecord.Shape.{IsImm, Encodes, node_section, imm_section}
use caliper.CompressedRecord.View.{View, make_view, unpack_nodes, unpack_immediate, to_entrylist}
use caliper.CompressedRecord.View.{read_ids, read_imms, id_entry, pair_entry}
use Loops.{read_ids-encode_ids, read_imms-encode_imms, read_ids_front, read_imms_front}

-- `CompressedSnapshotRecord::view()`.
unfoldable pub view : CompressedRecord → View
view r = record {
  buffer = r.buffer;
  num_nodes = r.num_nodes;
  num_imm = r.num_imm;
  imm_pos = r.imm_pos;
  imm_len = r.imm_len;
}

-- The bytes of a record, `data()` up to `size()`.
abbrev pub bytes : List ℕ → List (ℕ × Variant) → List ℕ
bytes ids es = node_section ids ++ imm_section es

-- Decoding the bytes of a record gives both counts and both positions, and consumes exactly those bytes.
pub make_view-bytes :
    (ids : List ℕ) (es : List (ℕ × Variant)) (rest : List ℕ)
    → All IsU64 ids
    → All IsImm es
    → make_view (bytes ids es ++ rest)
      ≡ some (
        record {
          buffer = bytes ids es ++ rest;
          num_nodes = length ids;
          num_imm = length es;
          imm_pos = length (node_section ids);
          imm_len = length (imm_section es);
        },
        length (bytes ids es),
      )
unfolding make_view
make_view-bytes ids es rest hi he =
    let buf = bytes ids es ++ rest in
    let nodes = node_section ids in
    let back = encode_imms es ++ rest in
    let cut : buf ≡ nodes ++ (length es ∷ back) = append_assoc nodes (imm_section es) rest in
    let tail : buf ≡ (nodes ++ (length es ∷ [])) ++ back =
      cut ∙ sym (append_assoc nodes (length es ∷ []) back) in
    let p = suc (length (encode_ids ids)) in
    let e₁ : read_ids buf (length ids) 1 ≡ some (ids, p) = rw cut (
      read_ids-encode_ids (length ids ∷ []) ids (length es ∷ back) (length ids) 1 hi refl refl
      ∙ (let l : 1 + length (encode_ids ids) ≡ p = omega arith in rw l)) in
    let e₂ : get_elem? buf p ≡ some (length es) =
      rw cut (get_elem?-append nodes (length es) back p refl) in
    let q = length (bytes ids es) in
    let lq : p + 1 + length (encode_imms es) ≡ q =
      omega (arith, length-append nodes (imm_section es)) in
    let e₃ : read_imms buf (length es) (p + 1) ≡ some (es, q) = rw tail (
      read_imms-encode_imms (nodes ++ (length es ∷ [])) es rest (length es) (p + 1) he refl
        (omega (arith, length-append nodes (length es ∷ [])))
      ∙ rw lq) in
    let lm : q - p ≡ length (imm_section es) =
      omega (arith, length-append nodes (imm_section es)) in
    rw (e₁, e₂, e₃, lm)

module _ {r : CompressedRecord} {ids : List ℕ} {es : List (ℕ × Variant)}
    (enc : Encodes r ids es) where
  layout_nodes : r.buffer ≡ (length ids ∷ []) ++ (encode_ids ids ++ (imm_section es ++ enc.unused))
  layout_nodes = enc.layout

  layout_imms : r.buffer ≡ (node_section ids ++ (length es ∷ [])) ++ (encode_imms es ++ enc.unused)
  layout_imms =
      enc.layout
      ∙ sym (append_assoc (node_section ids) (length es ∷ []) (encode_imms es ++ enc.unused))

  -- `unpack_nodes(n, …)` gives the first `n` of the nodes that the record holds.
  pub unpack_nodes-Encodes :
      (n : ℕ) → All IsU64 ids → unpack_nodes (view r) n ≡ some (take (min n (length ids)) ids)
  unfolding unpack_nodes view
  unpack_nodes-Encodes n h =
      let m = min n (length ids) in
      let (p, e) =
        read_ids_front (length ids ∷ []) ids (imm_section es ++ enc.unused) m 1 h (omega arith)
          refl in
      let f : read_ids r.buffer m 1 ≡ some (take m ids, p) = rw layout_nodes e in
      rw (enc.nodes_counted, f)

  -- `unpack_immediate(n, …)` gives the first `n` of the immediate entries.
  pub unpack_immediate-Encodes :
      (n : ℕ) → All IsImm es → unpack_immediate (view r) n ≡ some (take (min n (length es)) es)
  unfolding unpack_immediate view
  unpack_immediate-Encodes n h =
      let m = min n (length es) in
      let pre = node_section ids ++ (length es ∷ []) in
      let (p, e) =
        read_imms_front pre es enc.unused m (r.imm_pos + 1) h (omega arith)
          (omega (arith, enc.imm_start, length-append (node_section ids) (length es ∷ []))) in
      let f : read_imms r.buffer m (r.imm_pos + 1) ≡ some (take m es, p) = rw layout_imms e in
      rw (enc.imms_counted, f)

  -- `to_entrylist` gives an entry for each node, and then one for each immediate entry.
  pub to_entrylist-Encodes :
      (node : ℕ → NodePtr)
      → All IsU64 ids
      → All IsImm es
      → to_entrylist node (view r) ≡ some (map (id_entry node) ids ++ map (pair_entry node) es)
  unfolding to_entrylist view
  to_entrylist-Encodes node hi he =
      let e₁ : read_ids r.buffer (length ids) 1 ≡ some (ids, 1 + length (encode_ids ids)) =
        rw layout_nodes (
          read_ids-encode_ids (length ids ∷ []) ids (imm_section es ++ enc.unused) (length ids) 1 hi
            refl refl) in
      let e₂ : read_imms r.buffer (length es) (r.imm_pos + 1)
          ≡ some (es, r.imm_pos + 1 + length (encode_imms es)) =
        rw layout_imms (
          read_imms-encode_imms (node_section ids ++ (length es ∷ [])) es enc.unused (length es)
            (r.imm_pos + 1) he refl
            (omega (arith, enc.imm_start, length-append (node_section ids) (length es ∷ [])))) in
      rw (enc.nodes_counted, enc.imms_counted, e₁, e₂)

-- Reading back as many nodes as a block had gives that block, whatever was held before it.
pub unpack_nodes-Stored :
    {r : CompressedRecord} {old new : List ℕ} {es : List (ℕ × Variant)}
    → Stored r old new es
    → All IsU64 new
    → unpack_nodes (view r) (length new) ≡ some new
unfolding unpack_nodes view
unpack_nodes-Stored {r} {old} {new} {es} st h =
    let m : min (length new) r.num_nodes ≡ length new = omega (arith, st.nodes_counted) in
    let f : read_ids r.buffer (length new) 1 ≡ some (new, 1 + length (encode_ids new)) =
      rw st.layout (
        read_ids-encode_ids ((length old + length new) ∷ []) new
          (st.left ++ (imm_section es ++ st.unused)) (length new) 1 h refl refl) in
    rw (m, f)
