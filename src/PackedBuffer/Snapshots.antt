-- ===== src/PackedBuffer/Snapshots.antt =====
-- `SnapshotBuffer`: the items are compressed snapshot records.
use caliper.Base.{ℕ, zero, suc, ◌+◌, ◌<◌, ◌≡◌, refl, arith, sym, ap, ◌∙◌, min}
use caliper.Base.{
  List, [], ◌∷◌, ◌++◌, length, length-append, append_assoc, take, Option, some, ◌>>=◌,
}
use caliper.Base.Memory.{read, read-append}
use caliper.Vlenc.{IsU64}
use caliper.Variant.{Variant}
use caliper.CompressedRecord.{CompressedRecord, size}
use caliper.Base.{All}
use caliper.CompressedRecord.Shape.{IsImm, Encodes, node_section, imm_section}
use caliper.CompressedRecord.View.{make_view, unpack_nodes, unpack_immediate}
use caliper.CompressedRecord.Reading.{
  bytes, view, make_view-bytes, unpack_nodes-Encodes, unpack_immediate-Encodes,
}
use caliper.PackedBuffer.{PackedBuffer, Allocator, append_bytes}
use caliper.PackedBuffer.Holds.{Codec, Holds, append_bytes-Holds}

-- The node ids and the immediate entries of a record.
abbrev pub Snapshot : Type 0
Snapshot = List ℕ × List (ℕ × Variant)

-- `append(rec)`: the bytes from `rec.data()` on, `rec.size()` of them.
unfoldable pub append_record : Allocator → PackedBuffer → CompressedRecord → Option PackedBuffer
append_record mem s r = do item ← read r.buffer 0 (size r); append_bytes mem s (size r) item

-- What `for_each` does with one item: it makes a view, from which the callback here unpacks all.
unfoldable pub decode_view : List ℕ → Option (Snapshot × ℕ)
decode_view buf = do
  (v, inc) ← make_view buf
  ids ← unpack_nodes v v.num_nodes
  es ← unpack_immediate v v.num_imm
  some ((ids, es), inc)

abbrev pub GoodSnapshot : Snapshot → Type 0
GoodSnapshot (ids, es) = All IsU64 ids × All IsImm es × (length ids < 128) × (length es < 128)

take_all {ℓ} : {A : Type ℓ} (n : ℕ) (xs : List A) → n ≡ length xs → take n xs ≡ xs
take_all zero [] h = refl
take_all (suc n) [] h = refl
take_all zero (x ∷ xs) h = absurd (omega arith)
take_all {A} (suc n) (x ∷ xs) h = ap (λ (t : List A). x ∷ t) (take_all n xs (omega arith))

-- A record with those entries, seen through its bytes and whatever follows them.
as_record : List ℕ → List (ℕ × Variant) → List ℕ → CompressedRecord
as_record ids es rest = record {
  buffer = bytes ids es ++ rest;
  buffer_len = length (bytes ids es ++ rest);
  num_nodes = length ids;
  num_imm = length es;
  imm_pos = length (node_section ids);
  imm_len = length (imm_section es);
  needed_len = 0;
  skipped = 0;
}

as_record-Encodes :
    (ids : List ℕ) (es : List (ℕ × Variant)) (rest : List ℕ)
    → length ids < 128
    → length es < 128
    → Encodes (as_record ids es rest) ids es
unfolding as_record
as_record-Encodes ids es rest hi he = record {
  unused = rest;
  layout = append_assoc (node_section ids) (imm_section es) rest;
  whole = refl;
  nodes_counted = refl;
  imms_counted = refl;
  imm_start = refl;
  imm_extent = refl;
  few_nodes = hi;
  few_imms = he;
}

pub decode_view-bytes :
    (a : Snapshot) (rest : List ℕ)
    → GoodSnapshot a
    → decode_view (bytes a.0 a.1 ++ rest) ≡ some (a, length (bytes a.0 a.1))
unfolding decode_view as_record view
decode_view-bytes (ids, es) rest (gi, ge, hi, he) =
    let enc = as_record-Encodes ids es rest hi he in
    let ti = take_all (min (length ids) (length ids)) ids (omega arith) in
    let te = take_all (min (length es) (length es)) es (omega arith) in
    rw (make_view-bytes ids es rest gi ge) (
      rw (
        unpack_nodes-Encodes enc (length ids) gi,
        ti,
        unpack_immediate-Encodes enc (length es) ge,
        te,
      ))

abbrev pub snapshot_codec : Codec Snapshot
snapshot_codec = record {
  Good = GoodSnapshot;
  encode = λ a. bytes a.0 a.1;
  decode = decode_view;
  encode_some = λ a g. omega arith;
  decode-encode = decode_view-bytes;
}

-- `data()` up to `size()` are the bytes of the entries that the record holds.
pub read-size :
    {r : CompressedRecord} {ids : List ℕ} {es : List (ℕ × Variant)}
    → Encodes r ids es
    → (read r.buffer 0 (size r) ≡ some (bytes ids es)) × (size r ≡ length (bytes ids es))
unfolding size
read-size {r} {ids} {es} enc =
    let n = node_section ids in
    let i = imm_section es in
    let l : r.buffer ≡ bytes ids es ++ enc.unused =
      enc.layout ∙ sym (append_assoc n i enc.unused) in
    let m : min (r.imm_pos + r.imm_len) r.buffer_len ≡ length (bytes ids es) = omega (
      arith,
      enc.imm_start,
      enc.imm_extent,
      enc.whole,
      ap length l,
      length-append n i,
      length-append (bytes ids es) enc.unused,
    ) in
    (rw l (read-append [] (bytes ids es) enc.unused 0 (size r) refl m), m)

-- Appending a record keeps the earlier ones and puts its entries behind them, growing as needed.
pub append_record-Holds :
    (mem : Allocator) {s : PackedBuffer} {items : List Snapshot} {r : CompressedRecord}
    {ids : List ℕ} {es : List (ℕ × Variant)}
    → Holds snapshot_codec s items
    → Encodes r ids es
    → All IsU64 ids
    → All IsImm es
    → (s' : PackedBuffer) × (append_record mem s r ≡ some s')
      × Holds snapshot_codec s' (items ++ ((ids, es) ∷ []))
unfolding append_record
append_record-Holds mem {s} {items} {r} {ids} {es} h enc gi ge =
    let (rd, sz) = read-size enc in
    let (s', run, h') =
      append_bytes-Holds snapshot_codec mem (ids, es) (size r) h
        (gi, ge, enc.few_nodes, enc.few_imms) (omega arith) in
    (s', rw rd run, h')
