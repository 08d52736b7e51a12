-- ===== src/CompressedRecord/Reading/Overwrite.antt =====
-- Nodes that are appended to a record with nodes.
use caliper.Base.{ℕ, suc, ◌+◌, ◌≤◌, ◌≡◌, ◌≢◌, refl, arith, ap, ◌∙◌, min}
use caliper.Base.{List, [], ◌∷◌, ◌++◌, length, length-append, append_assoc, some, true, >>=-eq-some}
use caliper.Vlenc.{IsU64, vlenc_u64, vldec_at}
use caliper.Vlenc.RoundTrip.{vldec_at-vlenc_u64}
use caliper.Variant.{Variant}
use caliper.CompressedRecord.{CompressedRecord, encode_ids, append_nodes, block_size}
use caliper.CompressedRecord.Nodes.{Stored, node_room, append_node_block-Stored, one_block}
use caliper.CompressedRecord.Shape.{Encodes, imm_section}
use caliper.CompressedRecord.View.{unpack_nodes, read_ids}
use caliper.CompressedRecord.Reading.{view}
use caliper.CompressedRecord.Reading.Unpack.{read_ids_first}

-- The first id that is read is the first of the block that was stored last.
first_id-Stored :
    {r : CompressedRecord} {old new xs : List ℕ} {x : ℕ} {es : List (ℕ × Variant)} (k p : ℕ)
    → Stored r old (x ∷ new) es
    → IsU64 x
    → read_ids r.buffer (suc k) 1 ≡ some (xs, p)
    → (rest : List ℕ) × (xs ≡ x ∷ rest)
first_id-Stored {r} {old} {new} {xs} {x} {es} k p st hx h =
    let (id, q, q', rest, e, f, cut) = read_ids_first r.buffer k 1 h in
    let tail = encode_ids new ++ (st.left ++ (imm_section es ++ st.unused)) in
    let n = length old + length (x ∷ new) in
    let b : r.buffer ≡ (n ∷ []) ++ (vlenc_u64 x ++ tail) =
      st.layout ∙ ap (λ (t : List ℕ). n ∷ t) (append_assoc (vlenc_u64 x) (encode_ids new) _) in
    let g : vldec_at r.buffer 1 ≡ some (x, 1 + length (vlenc_u64 x)) =
      rw b (vldec_at-vlenc_u64 (n ∷ []) tail x 1 refl hx) in
    let same : id ≡ x = cc (e, g) in (rest, cut ∙ ap (λ (t : ℕ). t ∷ rest) same)

-- A block of nodes that fits by count and by bytes, appended to a record whose first node is
-- another than the block's first one, is reported as stored and counted, but the record does not
-- read back as the old nodes followed by the new.
pub append_nodes_overwrites :
    {r : CompressedRecord} {es : List (ℕ × Variant)} (o : ℕ) (old : List ℕ) (x : ℕ) (new : List ℕ)
    → Encodes r (o ∷ old) es
    → length (x ∷ new) ≤ block_size
    → node_room r.buffer_len (o ∷ old) es (x ∷ new) ≡ true
    → IsU64 x
    → x ≢ o
    → (r' : CompressedRecord) × (append_nodes r (x ∷ new) ≡ some (r', 0))
      × (r'.num_nodes ≡ length ((o ∷ old) ++ (x ∷ new)))
      × (unpack_nodes (view r') r'.num_nodes ≢ some ((o ∷ old) ++ (x ∷ new)))
unfolding unpack_nodes view
append_nodes_overwrites {r} {es} o old x new enc h fit hx ne =
    let (r', run, st, sk, nd, bl) = append_node_block-Stored enc (x ∷ new) fit in
    let n = length old + length (x ∷ new) in
    let c : r'.num_nodes ≡ suc n = omega (arith, st.nodes_counted) in
    let m : min r'.num_nodes r'.num_nodes ≡ suc n = omega arith in
    (
      record r' { skipped = r'.skipped + 0 },
      one_block r (x ∷ new) h (λ e. cc) run,
      omega (arith, length-append (o ∷ old) (x ∷ new)),
      λ e.
          let ((ids, p), f, g) =
            >>=-eq-some (read_ids r'.buffer (min r'.num_nodes r'.num_nodes) 1) _ e in
          let (rest, first) = first_id-Stored {xs = ids} n p st hx (rw m at f) in
          ne (cc (first, g)),
    )
