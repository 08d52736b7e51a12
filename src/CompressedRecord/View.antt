-- ===== src/CompressedRecord/View.antt =====
-- `CompressedSnapshotRecordView`: decoding a record in place.
use caliper.Base.{ℕ, zero, suc, ◌+◌, ◌-◌, min, ltb, ◌==◌, if◌then◌else◌, ◌>>=◌, get_elem?}
use caliper.Base.{List, [], ◌∷◌, ◌++◌, map, Option, none, some, Bool, true, false}
use caliper.Vlenc.{vldec_at}
use caliper.Variant.{Variant, unpack_at}
use caliper.Node.{NodePtr}
use caliper.Entry.{Entry, node_entry, imm_entry, empty_entry}

-- `buffer` is what stands from `m_buffer` on.
pub record View : Type 0 where
  pub buffer : List ℕ
  pub num_nodes : ℕ
  pub num_imm : ℕ
  pub imm_pos : ℕ
  pub imm_len : ℕ

-- The loop over `n` node ids from `pos` on: the ids and the new `pos`.
unfoldable pub read_ids : List ℕ → ℕ → ℕ → Option (List ℕ × ℕ)
read_ids buf zero pos = some ([], pos)
read_ids buf (suc n) pos = do
  (id, p) ← vldec_at buf pos
  (ids, q) ← read_ids buf n p
  some (id ∷ ids, q)

-- One immediate entry.
unfoldable pub read_imm : List ℕ → ℕ → Option ((ℕ × Variant) × ℕ)
read_imm buf pos = do
  (attr, p) ← vldec_at buf pos
  (v, q, ok) ← unpack_at buf p
  some ((attr, v), q)

-- The loop over `n` immediate entries.
unfoldable pub read_imms : List ℕ → ℕ → ℕ → Option (List (ℕ × Variant) × ℕ)
read_imms buf zero pos = some ([], pos)
read_imms buf (suc n) pos = do
  (e, p) ← read_imm buf pos
  (es, q) ← read_imms buf n p
  some (e ∷ es, q)

-- The constructor from a buffer: the view, and by how much `*inc` grows.
unfoldable pub make_view : List ℕ → Option (View × ℕ)
make_view buf = do
  num_nodes ← get_elem? buf 0
  (ids, imm_pos) ← read_ids buf num_nodes 1
  num_imm ← get_elem? buf imm_pos
  (es, pos) ← read_imms buf num_imm (imm_pos + 1)
  some (
    record {
      buffer = buf;
      num_nodes = num_nodes;
      num_imm = num_imm;
      imm_pos = imm_pos;
      imm_len = pos - imm_pos;
    },
    pos,
  )

-- `unpack_nodes(n, node_vec)`: the ids that it writes to `node_vec`.
unfoldable pub unpack_nodes : View → ℕ → Option (List ℕ)
unpack_nodes v n = do (ids, p) ← read_ids v.buffer (min n v.num_nodes) 1; some ids

-- `unpack_immediate(n, attr_vec, data_vec)`.
unfoldable pub unpack_immediate : View → ℕ → Option (List (ℕ × Variant))
unpack_immediate v n = do (es, p) ← read_imms v.buffer (min n v.num_imm) (v.imm_pos + 1); some es

-- `node` is `CaliperMetadataAccessInterface::node`, which the record does not implement: the node
-- with an id, or the null pointer.
module _ (node : ℕ → NodePtr) where
  abbrev pub id_entry : ℕ → Entry
  id_entry i = node_entry (node i)

  abbrev pub pair_entry : ℕ × Variant → Entry
  pair_entry (a, v) = imm_entry a v

  unfoldable pub to_entrylist : View → Option (List Entry)
  to_entrylist v = do
    (ids, p) ← read_ids v.buffer v.num_nodes 1
    (es, q) ← read_imms v.buffer v.num_imm (v.imm_pos + 1)
    some (map id_entry ids ++ map pair_entry es)

  -- `unpack_next_entry(c, n, pos)`: the entry and the new `n` and `pos`.
  unfoldable pub unpack_next_entry : View → ℕ → ℕ → Option (Entry × ℕ × ℕ)
  unpack_next_entry v n pos =
      let p = if n == 0 then 1 else pos in
      let q = if n == v.num_nodes then v.imm_pos + 1 else p in
      let as_node : Option (Entry × ℕ × ℕ) =
        vldec_at v.buffer p >>= (λ (i, r). some (id_entry i, n + 1, r)) in
      let as_imm : Option (Entry × ℕ × ℕ) =
        read_imm v.buffer q >>= (λ (e, r). some (pair_entry e, n + 1, r)) in
      if ltb n v.num_nodes
      then as_node
      else if ltb n (v.num_nodes + v.num_imm)
      then as_imm
      else some (empty_entry, n, q)

  -- The loop of `unpack`, with at most `fuel` rounds: the entries that `fn` is called with.
  -- It ends where `fn` answers false.
  unfoldable pub unpack_from : (Entry → Bool) → ℕ → View → ℕ → ℕ → Option (List Entry)
  unpack_from fn zero v n pos = if ltb n (v.num_nodes + v.num_imm) then none else some []
  unpack_from fn (suc fuel) v n pos = elim (ltb n (v.num_nodes + v.num_imm)) [
    | false ↦ some []
    | true ↦ do
      (e, n', pos') ← unpack_next_entry v n pos
      es ← elim (fn e) [ true ↦ unpack_from fn fuel v n' pos' | false ↦ some [] ]
      some (e ∷ es)
  ]

  -- Each round takes one entry.
  unfoldable pub unpack : (Entry → Bool) → View → Option (List Entry)
  unpack fn v = unpack_from fn (v.num_nodes + v.num_imm) v 0 1
