-- ===== src/TraceBuffer/Saving.antt =====
-- Saving a snapshot and flushing the chunk.
use caliper.Base.{ℕ, ◌+◌, ◌*◌, ◌≤◌, ◌≡◌, refl, sym, ap, ◌∙◌, arith, ◌==◌, true, false}
use caliper.Base.{
  List, [], ◌∷◌, ◌++◌, map, append_assoc, append-nil, some, take, drop, take-append-drop,
  length-take, length, length-append, length-map, All,
}
use caliper.Base.Memory.{write, write-append}
use caliper.Vlenc.{IsU64, vlenc_u64}
use caliper.Vlenc.Encode.{length-vlenc_u64}
use caliper.Variant.{Variant, IsVariant, pack}
use caliper.Variant.Pack.{length-pack}
use caliper.Node.{NodePtr, path_id}
use caliper.SnapshotRecord.{SnapshotRecord}
use caliper.TraceBuffer.{
  TraceBufferChunk, new_chunk, encode_ids, encode_values, snapshot_bytes, kept_ids, kept_attrs,
  kept_values, save_snapshot, fits, flush_loop, flush,
}
use caliper.TraceBuffer.RoundTrip.{flush_record-bytes}
use caliper.TraceBuffer.Stored.{IsSnapshot, stored, kept-IsStorable, kept-any_null, restored-kept}

abbrev pub bytes_of : SnapshotRecord → List ℕ
bytes_of s = snapshot_bytes (kept_ids s) (kept_attrs s) (kept_values s)

abbrev pub all_bytes : List SnapshotRecord → List ℕ
all_bytes [] = []
all_bytes (s ∷ ss) = bytes_of s ++ all_bytes ss

-- A chunk holds snapshots, the oldest first.
pub record Holds (node : ℕ → NodePtr) (c : TraceBufferChunk) (ss : List SnapshotRecord)
    : Type 0 where
  pub unused : List ℕ
  pub layout : c.buffer ≡ all_bytes ss ++ unused
  pub end_pos : c.pos ≡ length (all_bytes ss)
  pub counted : c.nrec ≡ length ss
  pub sized : c.size ≡ length c.buffer
  pub good : All (IsSnapshot node) ss

pub new_chunk-Holds : (node : ℕ → NodePtr) (memory : List ℕ) → Holds node (new_chunk memory) []
new_chunk-Holds node memory = record {
  unused = memory;
  layout = refl;
  end_pos = refl;
  counted = refl;
  sized = refl;
  good = tt;
}

length-encode_ids : (ids : List ℕ) → All IsU64 ids → length (encode_ids ids) ≤ 10 * length ids
length-encode_ids [] h = omega arith
length-encode_ids (id ∷ ids) (small, h) =
    let (lo, hi) = length-vlenc_u64 id small in
    omega (arith, length-append (vlenc_u64 id) (encode_ids ids), length-encode_ids ids h)

length-encode_values :
    (vs : List Variant) → All IsVariant vs → length (encode_values vs) ≤ 20 * length vs
length-encode_values [] h = omega arith
length-encode_values (v ∷ vs) (good, h) =
    let (lo, hi) = length-pack good in
    omega (arith, length-append (pack v) (encode_values vs), length-encode_values vs h)

-- The estimate of `fits` is enough.
length-bytes_of :
    (node : ℕ → NodePtr) (s : SnapshotRecord)
    → IsSnapshot node s
    → length (bytes_of s) ≤ 20 + 10 * length s.nodes + 32 * length s.imms
length-bytes_of node s h =
    let k = kept-IsStorable node s h in
    let ids = kept_ids s in
    let attrs = kept_attrs s in
    let vals = kept_values s in
    let (lo, hi) = length-vlenc_u64 (length ids) (omega (arith, k.few_ids)) in
    let (lo', hi') = length-vlenc_u64 (length attrs) (omega (arith, k.few_attrs)) in
    omega (
      arith,
      length-append (vlenc_u64 (length ids)) (
          vlenc_u64 (length attrs) ++ (encode_ids ids ++ (encode_ids attrs ++ encode_values vals))),
      length-append (vlenc_u64 (length attrs))
          (encode_ids ids ++ (encode_ids attrs ++ encode_values vals)),
      length-append (encode_ids ids) (encode_ids attrs ++ encode_values vals),
      length-append (encode_ids attrs) (encode_values vals),
      length-encode_ids ids k.small_ids,
      length-encode_ids attrs k.small_attrs,
      length-encode_values vals k.good_vals,
      k.in_step,
      length-map (take 80 s.nodes) path_id,
      length-take 80 s.nodes,
      length-map (take 80 s.imms) (λ (e : ℕ × Variant). e.0),
      length-take 80 s.imms,
    )

all_bytes-snoc :
    (ss : List SnapshotRecord) (s : SnapshotRecord)
    → all_bytes (ss ++ (s ∷ [])) ≡ all_bytes ss ++ bytes_of s
all_bytes-snoc [] s = append-nil (bytes_of s)
all_bytes-snoc (t ∷ ss) s =
    ap (λ xs. bytes_of t ++ xs) (all_bytes-snoc ss s)
    ∙ sym (append_assoc (bytes_of t) (all_bytes ss) (bytes_of s))

All-snoc {κ} :
    {A : Type 0} (P : A → Type κ) (xs : List A) (x : A) → All P xs → P x → All P (xs ++ (x ∷ []))
All-snoc P [] x h p = (p, tt)
All-snoc P (y ∷ xs) x (q, h) p = (q, All-snoc P xs x h p)

-- A snapshot with an entry, whose node pointers are not null and are found by their ids, and
-- whose ids and values fit their widths, that fits() accepts for a chunk that holds snapshots is
-- saved behind the others of the chunk without a write outside its data.
pub save_snapshot-Holds :
    (node : ℕ → NodePtr) (c : TraceBufferChunk) (ss : List SnapshotRecord) (s : SnapshotRecord)
    → Holds node c ss
    → IsSnapshot node s
    → fits c s ≡ true
    → 1 ≤ length s.nodes + length s.imms
    → (c' : TraceBufferChunk) × (save_snapshot c s ≡ some c') × Holds node c' (ss ++ (s ∷ []))
unfolding save_snapshot fits
save_snapshot-Holds node c ss s h good room entry =
    let bytes = bytes_of s in
    let n = length bytes in
    let old = take n h.unused in
    let rest = drop n h.unused in
    let some_entry : length s.nodes + length s.imms == 0 ≡ false = ground arith in
    let long : n ≤ length h.unused = ground (
      arith,
      length-bytes_of node s good,
      h.end_pos,
      h.sized,
      ap length h.layout,
      length-append (all_bytes ss) h.unused,
    ) in
    let split : c.buffer ≡ all_bytes ss ++ (old ++ rest) =
      h.layout ∙ ap (λ xs. all_bytes ss ++ xs) (sym (take-append-drop n h.unused)) in
    let done : write c.buffer c.pos bytes ≡ some (all_bytes ss ++ (bytes ++ rest)) =
      ap (λ xs. write xs c.pos bytes) split
      ∙ write-append (all_bytes ss) old bytes rest c.pos h.end_pos
          (omega (arith, length-take n h.unused)) in
    let all = all_bytes-snoc ss s in
    (
      record c { buffer = all_bytes ss ++ (bytes ++ rest); pos = c.pos + n; nrec = c.nrec + 1 },
      rw (some_entry, kept-any_null node s good, done) refl,
      record {
        unused = rest;
        layout = sym (append_assoc (all_bytes ss) bytes rest) ∙ ap (λ xs. xs ++ rest) (sym all);
        end_pos = omega (arith, h.end_pos, ap length all, length-append (all_bytes ss) bytes);
        counted = omega (arith, h.counted, length-append ss (s ∷ []));
        sized = omega (
          arith,
          h.sized,
          ap length split,
          length-append (all_bytes ss) (old ++ rest),
          length-append old rest,
          length-append (all_bytes ss) (bytes ++ rest),
          length-append bytes rest,
          length-take n h.unused,
        );
        good = All-snoc (IsSnapshot node) ss s h.good good;
      },
    )

flush_loop-all_bytes :
    (node : ℕ → NodePtr) (ss : List SnapshotRecord) (rest : List ℕ)
    → All (IsSnapshot node) ss
    → flush_loop node (length ss) (all_bytes ss ++ rest) ≡ some (map stored ss)
unfolding flush_loop
flush_loop-all_bytes node [] rest h = refl
flush_loop-all_bytes node (s ∷ ss) rest (good, h) =
    rw
      (
        append_assoc (bytes_of s) (all_bytes ss) rest,
        flush_record-bytes node (kept_ids s) (kept_attrs s) (kept_values s) (all_bytes ss ++ rest)
            (kept-IsStorable node s good),
        restored-kept node s good,
        flush_loop-all_bytes node ss rest h,
      )
      refl

-- The chunks of a chain hold these snapshots, one chunk after the other.
abbrev pub HoldAll : (ℕ → NodePtr) → List TraceBufferChunk → List SnapshotRecord → Type 0
HoldAll node [] ss = ss ≡ []
HoldAll node (c ∷ next) ss =
    (front : List SnapshotRecord) × (back : List SnapshotRecord) × (ss ≡ front ++ back)
    × Holds node c front
    × HoldAll node next back

map-append : (xs ys : List SnapshotRecord) → map stored (xs ++ ys) ≡ map stored xs ++ map stored ys
map-append [] ys = refl
map-append (x ∷ xs) ys = ap (λ zs. stored x ∷ zs) (map-append xs ys)

-- Flushing a chain of chunks that hold snapshots hands on what was kept of each snapshot, its
-- first 80 nodes and its first 80 pairs, in order, and answers their number.
pub flush-HoldAll :
    (node : ℕ → NodePtr) (cs : List TraceBufferChunk) (ss : List SnapshotRecord)
    → HoldAll node cs ss
    → flush node cs ≡ some (map stored ss, length ss)
unfolding flush
flush-HoldAll node [] ss h = ap (λ xs. some (map stored xs, length xs)) (sym h)
flush-HoldAll node (c ∷ next) ss (front, back, e, h, later) =
    let first : flush_loop node c.nrec c.buffer ≡ some (map stored front) =
      ap (λ n. flush_loop node n c.buffer) h.counted
      ∙ (ap (flush_loop node (length front)) h.layout
          ∙ flush_loop-all_bytes node front h.unused h.good) in
    rw (first, flush-HoldAll node next back later, h.counted, e)
      (ap (λ xs. some (xs, length front + length back)) (sym (map-append front back))
        ∙ ap (λ n. some (map stored (front ++ back), n)) (sym (length-append front back)))
