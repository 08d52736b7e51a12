-- ===== src/CompressedRecord/Nodes.antt =====
-- `append(n, node_vec)`: appending context tree nodes.
use caliper.Base.{ℕ, suc, ◌+◌, ◌%◌, ◌≤◌, ◌<◌, ◌≡◌, ◌≢◌, refl, arith, sym, ap, ◌∙◌, ltb, leb}
use caliper.Base.{List, [], ◌∷◌, ◌++◌, length, length-append, append_assoc}
use caliper.Base.{some, Bool, true, false, ◌&&◌, Bool-cases, inl, inr, ◌⊎◌}
use caliper.Base.Memory.{write, write-append, split_at}
use caliper.Variant.{Variant}
use caliper.CompressedRecord.{CompressedRecord, encode_ids, store_nodes, append_node_block}
use caliper.CompressedRecord.{
  skip_block, fits, append_nodes, append_blocks, block_size, save_memmove,
}
use caliper.CompressedRecord.Move.{save_memmove-Moves}
use caliper.CompressedRecord.Immediates.{add_byte-append}
use caliper.CompressedRecord.Shape.{
  Encodes, node_section, imm_section, buffer_len-sections, Encodes-counters,
}

-- The record after a block of nodes was stored: the new ids stand in front, and behind them as
-- many bytes as the node section had before.
abbrev pub stored : CompressedRecord → List ℕ → List ℕ → List ℕ → List ℕ → ℕ → ℕ → CompressedRecord
stored r tmp left imms rest h blk = record r {
  buffer = (h + blk) % 256 ∷ (tmp ++ (left ++ (imms ++ rest)));
  imm_pos = r.imm_pos + length tmp;
  num_nodes = r.num_nodes + blk;
  needed_len = r.needed_len + length tmp;
}

-- `store_nodes` on a buffer that is cut at its sections.
store_nodes_at :
    (r : CompressedRecord) (h : ℕ) (old imms gap rest tmp : List ℕ) (blk : ℕ)
    → r.buffer ≡ (h ∷ old) ++ (imms ++ (gap ++ rest))
    → r.imm_pos ≡ length (h ∷ old)
    → r.imm_len ≡ length imms
    → length gap ≡ length tmp
    → (left : List ℕ) × (length left ≡ length old)
      × (store_nodes r tmp blk ≡ some (stored r tmp left imms rest h blk, 0))
unfolding store_nodes
store_nodes_at r h old imms gap rest tmp blk hb hp hl hg =
    let (g, lg, moves) =
      save_memmove-Moves (h ∷ old) imms gap rest (r.imm_pos + length tmp) r.imm_pos r.imm_len hl hp
        (omega arith) in
    let (front, left, e, lf) =
      split_at (length tmp) (old ++ g) (omega (arith, length-append old g)) in
    let ll : length left ≡ length old =
      omega (arith, ap length e, length-append old g, length-append front left) in
    (left, ll, finish g front left moves e lf)
  where
    finish :
        (g front left : List ℕ)
        → save_memmove
            ((h ∷ old) ++ (imms ++ (gap ++ rest)))
            (r.imm_pos + length tmp)
            r.imm_pos
            r.imm_len
          ≡ some ((h ∷ old) ++ (g ++ (imms ++ rest)))
        → old ++ g ≡ front ++ left
        → length front ≡ length tmp
        → store_nodes r tmp blk ≡ some (stored r tmp left imms rest h blk, 0)
    finish g front left moves e lf =
        let back = imms ++ rest in
        let f : (h ∷ old) ++ (g ++ back) ≡ (h ∷ []) ++ (front ++ (left ++ back)) =
          ap (λ (t : List ℕ). h ∷ t)
            (sym (append_assoc old g back)
              ∙ ap (λ (t : List ℕ). t ++ back) e
              ∙ append_assoc front left back) in
        let w : write ((h ∷ old) ++ (g ++ back)) 1 tmp
            ≡ some ((h ∷ []) ++ (tmp ++ (left ++ back))) =
          rw f (write-append (h ∷ []) front tmp (left ++ back) 1 refl lf) in
        rw (hb, moves, w, add_byte-append [] h (tmp ++ (left ++ back)) 0 blk refl)

-- The test of `append_node_block` in terms of what the record holds.
abbrev pub node_room : ℕ → List ℕ → List (ℕ × Variant) → List ℕ → Bool
node_room bytes old es new =
    ltb (length old + length new) 128
    && leb (length (node_section old) + length (imm_section es) + length (encode_ids new)) bytes

-- A record that held `old`, after the block `new` was stored.
pub record Stored (r : CompressedRecord) (old new : List ℕ) (es : List (ℕ × Variant)) : Type 0 where
  pub left : List ℕ
  pub unused : List ℕ
  pub left_size : length left ≡ length (encode_ids old)
  pub layout :
      r.buffer
      ≡ (length old + length new) ∷ (encode_ids new ++ (left ++ (imm_section es ++ unused)))
  pub whole : r.buffer_len ≡ length r.buffer
  pub nodes_counted : r.num_nodes ≡ length old + length new
  pub imms_counted : r.num_imm ≡ length es
  pub imm_start : r.imm_pos ≡ suc (length (encode_ids new) + length left)
  pub imm_extent : r.imm_len ≡ length (imm_section es)
  pub few_nodes : length old + length new < 128
  pub few_imms : length es < 128

module _ {r : CompressedRecord} {old : List ℕ} {es : List (ℕ × Variant)}
    (enc : Encodes r old es) where
  fits-node_room :
      (new : List ℕ)
      → fits r r.num_nodes (length new) (length (encode_ids new))
        ≡ node_room r.buffer_len old es new
  fits-node_room new = rw (enc.nodes_counted, enc.imm_start, enc.imm_extent)

  stored-Stored :
      (new left gap rest : List ℕ)
      → length old + length new < 128
      → enc.unused ≡ gap ++ rest
      → length gap ≡ length (encode_ids new)
      → length left ≡ length (encode_ids old)
      → Stored
          (stored r (encode_ids new) left (imm_section es) rest (length old) (length new))
          old
          new
          es
  stored-Stored new left gap rest few e lg ll =
      let tmp = encode_ids new in
      let c : (length old + length new) % 256 ≡ length old + length new = omega arith in
      record {
        left = left;
        unused = rest;
        left_size = ll;
        layout = rw c;
        whole = omega (
          arith,
          buffer_len-sections enc,
          ap length e,
          length-append gap rest,
          length-append tmp (left ++ (imm_section es ++ rest)),
          length-append left (imm_section es ++ rest),
          length-append (imm_section es) rest,
        );
        nodes_counted = omega (arith, enc.nodes_counted);
        imms_counted = enc.imms_counted;
        imm_start = omega (arith, enc.imm_start);
        imm_extent = enc.imm_extent;
        few_nodes = few;
        few_imms = enc.few_imms;
      }

  -- A block that fits is stored.
  pub append_node_block-Stored :
      (new : List ℕ)
      → node_room r.buffer_len old es new ≡ true
      → (r' : CompressedRecord) × (append_node_block r new ≡ some (r', 0))
        × Stored r' old new es
        × (r'.skipped ≡ r.skipped)
        × (r'.needed_len ≡ r.needed_len + length (encode_ids new))
        × (r'.buffer_len ≡ r.buffer_len)
  unfolding append_node_block
  append_node_block-Stored new fit =
      let tmp = encode_ids new in
      let few : length old + length new < 128 = ground arith in
      let (gap, rest, e, lg) =
        split_at (length tmp) enc.unused (ground (arith, buffer_len-sections enc)) in
      let (left, ll, run) =
        store_nodes_at r (length old) (encode_ids old) (imm_section es) gap rest tmp (length new)
          (rw (← e) enc.layout) enc.imm_start enc.imm_extent lg in
      (
        stored r tmp left (imm_section es) rest (length old) (length new),
        rw (fits-node_room new, fit) run,
        stored-Stored new left gap rest few e lg ll,
        refl,
        refl,
        refl,
      )

  -- A block that does not fit is skipped.
  pub append_node_block_full :
      (new : List ℕ)
      → node_room r.buffer_len old es new ≡ false
      → append_node_block r new ≡ some (skip_block r (length (encode_ids new)) (length new))
  unfolding append_node_block
  append_node_block_full new full = rw (fits-node_room new, full)

-- Where no node was held before, the stored block is all that the section holds.
Stored-Encodes :
    {r : CompressedRecord} {new : List ℕ} {es : List (ℕ × Variant)}
    → Stored r [] new es
    → Encodes r new es
Stored-Encodes {r} {new} {es} st = whole_section st.left st.left_size st.layout st.imm_start
  where
    whole_section :
        (left : List ℕ)
        → length left ≡ 0
        → r.buffer ≡ (0 + length new) ∷ (encode_ids new ++ (left ++ (imm_section es ++ st.unused)))
        → r.imm_pos ≡ suc (length (encode_ids new) + length left)
        → Encodes r new es
    whole_section [] l lay pos =
        let z : 0 + length new ≡ length new = omega arith in
        record {
          unused = st.unused;
          layout = rw z at lay;
          whole = st.whole;
          nodes_counted = omega (arith, st.nodes_counted);
          imms_counted = st.imms_counted;
          imm_start = omega arith;
          imm_extent = st.imm_extent;
          few_nodes = omega (arith, st.few_nodes);
          few_imms = st.few_imms;
        }
    whole_section (x ∷ left) l lay pos = absurd (omega arith)

zero_plus : (k : ℕ) → 0 + k ≡ k
zero_plus k = omega arith

pub one_block :
    (r : CompressedRecord) (ids : List ℕ) {r' : CompressedRecord} {k : ℕ}
    → length ids ≤ block_size
    → ids ≢ []
    → append_node_block r ids ≡ some (r', k)
    → append_nodes r ids ≡ some (record r' { skipped = r'.skipped + k }, k)
unfolding append_nodes append_blocks
one_block r [] h n e = absurd (n refl)
one_block r (a ∷ []) {r'} {k} h n e = rw (e, zero_plus k)
one_block r (a ∷ b ∷ []) {r'} {k} h n e = rw (e, zero_plus k)
one_block r (a ∷ b ∷ c ∷ []) {r'} {k} h n e = rw (e, zero_plus k)
one_block r (a ∷ b ∷ c ∷ d ∷ []) {r'} {k} h n e = rw (e, zero_plus k)
one_block r (a ∷ b ∷ c ∷ d ∷ x ∷ ids) h n e = absurd (omega arith)

-- Up to four nodes in a record without nodes: held if they fit, and otherwise skipped and counted.
pub append_nodes-Encodes :
    {r : CompressedRecord} {es : List (ℕ × Variant)}
    → Encodes r [] es
    → (ids : List ℕ) → length ids ≤ block_size
    → ids ≢ []
    → (r' : CompressedRecord) × (k : ℕ) × (append_nodes r ids ≡ some (r', k))
      × (r'.skipped ≡ r.skipped + k)
      × (r'.needed_len ≡ r.needed_len + length (encode_ids ids))
      × ((node_room r.buffer_len [] es ids ≡ true) × Encodes r' ids es × (k ≡ 0)
          ⊎ (node_room r.buffer_len [] es ids ≡ false) × Encodes r' [] es × (k ≡ length ids))
append_nodes-Encodes {r} {es} enc ids h n = elim (Bool-cases (node_room r.buffer_len [] es ids)) [
  | inl fit ↦
      let (r', run, st, sk, nd, bl) = append_node_block-Stored enc ids fit in
      (
        record r' { skipped = r'.skipped + 0 },
        0,
        one_block r ids h n run,
        omega arith,
        nd,
        inl (fit, Encodes-counters (Stored-Encodes st) r'.needed_len (r'.skipped + 0), refl),
      )
  | inr full ↦ (
    record r {
      needed_len = r.needed_len + length (encode_ids ids);
      skipped = r.skipped + length ids;
    },
    length ids,
    one_block r ids h n (append_node_block_full enc ids full),
    refl,
    refl,
    inr (
      full,
      Encodes-counters enc (r.needed_len + length (encode_ids ids)) (r.skipped + length ids),
      refl,
    ),
  )
]

-- The same for a block that is known to fit, or for no node at all.
pub append_nodes_fit :
    {r : CompressedRecord} {es : List (ℕ × Variant)}
    → Encodes r [] es
    → (ids : List ℕ) → length ids ≤ block_size
    → 1 + length (imm_section es) + length (encode_ids ids) ≤ r.buffer_len
    → (r' : CompressedRecord) × (append_nodes r ids ≡ some (r', 0))
      × Encodes r' ids es
      × (r'.buffer_len ≡ r.buffer_len)
unfolding append_nodes append_blocks
append_nodes_fit {r} enc [] h fit = (
  record r { skipped = r.skipped + 0 },
  refl,
  Encodes-counters enc r.needed_len (r.skipped + 0),
  refl,
)
append_nodes_fit {r} {es} enc (x ∷ xs) h fit =
    let room' : node_room r.buffer_len [] es (x ∷ xs) ≡ true = ground arith in
    let (r', run, st, sk, nd, bl) = append_node_block-Stored enc (x ∷ xs) room' in
    (
      record r' { skipped = r'.skipped + 0 },
      one_block r (x ∷ xs) h (λ e. cc) run,
      Encodes-counters (Stored-Encodes st) r'.needed_len (r'.skipped + 0),
      bl,
    )
