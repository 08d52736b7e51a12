-- ===== src/TraceBuffer.antt =====
-- src/services/trace/TraceBufferChunk.cpp: the chunks that a trace keeps snapshots in. A pointer into the data is
-- what is left of it from there on, and a chunk with those behind it in `m_next` is a list of chunks.
pub mod RoundTrip
pub mod Stored
pub mod Saving
use caliper.Base.{
  ℕ, zero, suc, ◌+◌, ◌*◌, ◌%◌, ◌^◌, min, ltb, ◌==◌, if◌then◌else◌, Bool, true, false, List, [], ◌∷◌,
  ◌++◌, map, Option, none, some, ◌>>=◌, take, drop, length,
}
use caliper.Base.Memory.{write}
use caliper.Vlenc.{vlenc_u64, vldec_u64}
use caliper.Variant.{Variant, pack, unpack_at}
use caliper.Node.{NodePtr, path_id}
use caliper.SnapshotRecord.{SnapshotRecord, fixed, append_node, append_immediate}

-- `buffer` is `m_data`.
pub record TraceBufferChunk : Type 0 where
  pub size : ℕ
  pub pos : ℕ
  pub nrec : ℕ
  pub buffer : List ℕ

-- The constructor, with the memory that `new` gives.
abbrev pub new_chunk : List ℕ → TraceBufferChunk
new_chunk memory = record { size = length memory; pos = 0; nrec = 0; buffer = memory }

abbrev pub snap_max : ℕ
snap_max = 80

abbrev pub encode_ids : List ℕ → List ℕ
encode_ids [] = []
encode_ids (id ∷ ids) = vlenc_u64 id ++ encode_ids ids

abbrev pub encode_values : List Variant → List ℕ
encode_values [] = []
encode_values (v ∷ vs) = pack v ++ encode_values vs

-- What `save_snapshot` writes, from the ids and the values that it keeps.
abbrev pub snapshot_bytes : List ℕ → List ℕ → List Variant → List ℕ
snapshot_bytes ids attrs vals =
    vlenc_u64 (length ids)
    ++ (vlenc_u64 (length attrs) ++ (encode_ids ids ++ (encode_ids attrs ++ encode_values vals)))

abbrev pub kept_ids : SnapshotRecord → List ℕ
kept_ids s = map path_id (take snap_max s.nodes)

abbrev pub kept_attrs : SnapshotRecord → List ℕ
kept_attrs s = map (λ (e : ℕ × Variant). e.0) (take snap_max s.imms)

abbrev pub kept_values : SnapshotRecord → List Variant
kept_values s = map (λ (e : ℕ × Variant). e.1) (take snap_max s.imms)

-- The loops read the ids through the pointers.
abbrev pub any_null : List NodePtr → Bool
any_null [] = false
any_null ([] ∷ ps) = true
any_null ((n ∷ up) ∷ ps) = any_null ps

-- none is a write behind the data, or a read through the null pointer.
unfoldable pub save_snapshot : TraceBufferChunk → SnapshotRecord → Option TraceBufferChunk
save_snapshot c s =
    let bytes = snapshot_bytes (kept_ids s) (kept_attrs s) (kept_values s) in
    let saved : Option TraceBufferChunk = write c.buffer c.pos bytes >>= (λ buffer.
      some (record c { buffer = buffer; pos = c.pos + length bytes; nrec = c.nrec + 1 })) in
    let written : Option TraceBufferChunk =
      if any_null (take snap_max s.nodes) then none else saved in
    if length s.nodes + length s.imms == 0 then some c else written

unfoldable pub fits : TraceBufferChunk → SnapshotRecord → Bool
fits c s = ltb (c.pos + (20 + 10 * length s.nodes + 32 * length s.imms)) c.size

-- `vldec_u64(p, &p)` and `Variant::unpack(p, &p, nullptr)`.
unfoldable pub next_u64 : List ℕ → Option (ℕ × List ℕ)
next_u64 p = vldec_u64 p >>= λ (v, inc). some (v, drop inc p)

unfoldable pub next_value : List ℕ → Option (Variant × List ℕ)
next_value p = unpack_at p 0 >>= λ (v, inc, ok). some (v, drop inc p)

unfoldable pub read_ids : ℕ → List ℕ → Option (List ℕ × List ℕ)
unfolding next_u64
read_ids zero p = some ([], p)
read_ids (suc n) p = do (id, q) ← next_u64 p; (ids, r) ← read_ids n q; some (id ∷ ids, r)

unfoldable pub read_values : ℕ → List ℕ → Option (List Variant × List ℕ)
unfolding next_value
read_values zero p = some ([], p)
read_values (suc n) p = do (v, q) ← next_value p; (vs, r) ← read_values n q; some (v ∷ vs, r)

-- `std::min(static_cast<int>(n), SNAP_MAX)` rounds of a loop; a negative number makes none.
abbrev pub rounds : ℕ → ℕ
rounds n = if ltb (n % 2 ^ 32) (2 ^ 31) then min (n % 2 ^ 32) snap_max else 0

abbrev pub pairs_of : List ℕ → List Variant → List (ℕ × Variant)
pairs_of [] vs = []
pairs_of (a ∷ rest) [] = []
pairs_of (a ∷ rest) (v ∷ vs) = (a, v) ∷ pairs_of rest vs

-- The loop over `snapshot.append(c->node(id))`.
abbrev pub add_nodes : (ℕ → NodePtr) → SnapshotRecord → List ℕ → SnapshotRecord
add_nodes node s [] = s
add_nodes node s (id ∷ ids) = add_nodes node (append_node s (node id)) ids

-- One round of `flush`: the record that the callback is called with, and where the next one starts.
unfoldable pub flush_record : (ℕ → NodePtr) → List ℕ → Option (SnapshotRecord × List ℕ)
unfolding next_u64 read_ids read_values
flush_record node p = do
  (n, p1) ← next_u64 p
  (m, p2) ← next_u64 p1
  (ids, p3) ← read_ids (rounds n) p2
  (attrs, p4) ← read_ids (rounds m) p3
  (vals, p5) ← read_values (rounds m) p4
  some (append_immediate (add_nodes node (fixed snap_max) ids) (pairs_of attrs vals), p5)

unfoldable pub flush_loop : (ℕ → NodePtr) → ℕ → List ℕ → Option (List SnapshotRecord)
unfolding flush_record
flush_loop node zero p = some []
flush_loop node (suc r) p = do (s, q) ← flush_record node p; ss ← flush_loop node r q; some (s ∷ ss)

-- `flush`: the records handed to the callback, and the number that it answers.
unfoldable pub flush : (ℕ → NodePtr) → List TraceBufferChunk → Option (List SnapshotRecord × ℕ)
unfolding flush_loop
flush node [] = some ([], 0)
flush node (c ∷ next) = do
  ss ← flush_loop node c.nrec c.buffer
  (more, written) ← flush node next
  some (ss ++ more, c.nrec + written)

-- `append` to the chunk behind `m_next`.
abbrev pub append_chunk : List TraceBufferChunk → TraceBufferChunk → List TraceBufferChunk
append_chunk cs c = cs ++ (c ∷ [])

abbrev pub zeros : List ℕ → List ℕ
zeros [] = []
zeros (b ∷ bs) = 0 ∷ zeros bs

abbrev pub reset : List TraceBufferChunk → List TraceBufferChunk
reset [] = []
reset (c ∷ next) = record c { pos = 0; nrec = 0; buffer = zeros c.buffer } ∷ []

-- The number of chunks, the bytes reserved and the bytes used.
abbrev pub info : List TraceBufferChunk → ℕ × ℕ × ℕ
info [] = (0, 0, 0)
info (c ∷ next) = let (n, reserved, used) = info next in (n + 1, reserved + c.size, used + c.pos)
