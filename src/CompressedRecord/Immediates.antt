-- ===== src/CompressedRecord/Immediates.antt =====
-- `append(n, attr_vec, data_vec)`: appending immediate entries.
pub mod Loop
use caliper.Base.{
  ℕ, zero, suc, ◌+◌, ◌-◌, ◌%◌, ◌≤◌, ◌<◌, ◌≡◌, refl, arith, sym, ap, ◌∙◌, ltb, leb, ◌==◌,
}
use caliper.Base.{List, [], ◌∷◌, ◌++◌, length, length-append, append_assoc, append-nil, take, drop}
use caliper.Base.{some, ◌>>=◌, Bool, true, false, ◌&&◌, if◌then◌else◌, Bool-cases, inl, inr, ◌⊎◌}
use caliper.Base.Memory.{write, write-append, get_elem?-append, split_at}
use caliper.Variant.{Variant}
use caliper.CompressedRecord.{CompressedRecord, encode_imms, store_imms, append_imm_block, add_byte}
use caliper.CompressedRecord.{skip_block, fits, append_imms, append_blocks, block_size}
use caliper.CompressedRecord.Shape.{
  Encodes, node_section, imm_section, encode_imms-append, buffer_len-sections, Encodes-counters,
}

pub add_byte-append :
    (pre : List ℕ) (c : ℕ) (rest : List ℕ) (p k : ℕ)
    → p ≡ length pre
    → add_byte (pre ++ (c ∷ rest)) p k ≡ some (pre ++ ((c + k) % 256 ∷ rest))
unfolding add_byte
add_byte-append pre c rest p k h =
    rw (get_elem?-append pre c rest p h)
      (write-append pre (c ∷ []) ((c + k) % 256 ∷ []) rest p h refl)

-- `store_imms` on a buffer that is cut where it writes.
store_imms_at :
    (r : CompressedRecord) (pre es tmp old rest : List ℕ) (c blk : ℕ)
    → r.buffer ≡ pre ++ ((c ∷ es) ++ (old ++ rest))
    → r.imm_pos ≡ length pre
    → r.imm_len ≡ length (c ∷ es)
    → length old ≡ length tmp
    → store_imms r tmp blk
      ≡ some (
        record r {
          buffer = pre ++ ((c + blk) % 256 ∷ (es ++ (tmp ++ rest)));
          imm_len = r.imm_len + length tmp;
          num_imm = r.num_imm + blk;
          needed_len = r.needed_len + length tmp;
        },
        0,
      )
unfolding store_imms
store_imms_at r pre es tmp old rest c blk hb hp hl ho =
    let e : r.buffer ≡ (pre ++ (c ∷ es)) ++ (old ++ rest) =
      hb ∙ sym (append_assoc pre (c ∷ es) _) in
    let w : write r.buffer (r.imm_pos + r.imm_len) tmp ≡ some (pre ++ (c ∷ (es ++ (tmp ++ rest)))) =
      rw e (
        write-append (pre ++ (c ∷ es)) old tmp rest (r.imm_pos + r.imm_len)
          (omega (arith, length-append pre (c ∷ es))) ho
        ∙ ap some (append_assoc pre (c ∷ es) (tmp ++ rest))) in
    rw (w, add_byte-append pre c (es ++ (tmp ++ rest)) r.imm_pos blk hp)

-- What a record of `cap` bytes is to do with a block: take it whole or leave it.
abbrev pub room : ℕ → List ℕ → List (ℕ × Variant) → List (ℕ × Variant) → Bool
room cap ids es new =
    ltb (length es + length new) 128
    && leb (length (node_section ids) + length (imm_section es) + length (encode_imms new)) cap

abbrev pub take_block : ℕ → List ℕ → List (ℕ × Variant) → List (ℕ × Variant) → List (ℕ × Variant)
take_block cap ids es new = if room cap ids es new then es ++ new else es

-- The entries that a record holds after `new` was appended: blocks of four, each if it fits.
unfoldable pub take_imms :
    ℕ → ℕ → List ℕ → List (ℕ × Variant) → List (ℕ × Variant) → List (ℕ × Variant)
take_imms fuel cap ids es [] = es
take_imms zero cap ids es (x ∷ xs) = es
take_imms (suc fuel) cap ids es (x ∷ xs) =
    take_imms fuel cap ids (take_block cap ids es (take block_size (x ∷ xs)))
      (drop block_size (x ∷ xs))

-- What an append does besides: `k` entries were skipped, and their encoding has `len` bytes.
pub record Counts (r r' : CompressedRecord) (k len : ℕ) : Type 0 where
  pub needed : r'.needed_len ≡ r.needed_len + len
  pub same_len : r'.buffer_len ≡ r.buffer_len
  pub skips : r'.skipped ≡ r.skipped + k

module _ {r : CompressedRecord} {ids : List ℕ} {es : List (ℕ × Variant)}
    (enc : Encodes r ids es) where
  pub fits-room :
      (new : List (ℕ × Variant))
      → fits r r.num_imm (length new) (length (encode_imms new)) ≡ room r.buffer_len ids es new
  fits-room new = rw (enc.imms_counted, enc.imm_start, enc.imm_extent)

  store_imms_cut :
      (new : List (ℕ × Variant)) (old rest : List ℕ)
      → length es + length new < 128
      → enc.unused ≡ old ++ rest
      → length old ≡ length (encode_imms new)
      → (r' : CompressedRecord) × (store_imms r (encode_imms new) (length new) ≡ some (r', 0))
        × Encodes r' ids (es ++ new)
        × Counts r r' 0 (length (encode_imms new))
  store_imms_cut new old rest few e l =
      let tmp = encode_imms new in
      let pre = node_section ids in
      let le : length (es ++ new) ≡ length es + length new = length-append es new in
      let lt : length (encode_imms (es ++ new)) ≡ length (encode_imms es) + length tmp =
        ap length (encode_imms-append es new) ∙ length-append (encode_imms es) tmp in
      let c : (length es + length new) % 256 ≡ length (es ++ new) = omega arith in
      let out : pre ++ ((length es + length new) % 256 ∷ (encode_imms es ++ (tmp ++ rest)))
          ≡ pre ++ (imm_section (es ++ new) ++ rest) =
        rw (c, encode_imms-append es new, append_assoc (encode_imms es) tmp rest) in
      (
        record r {
          buffer = pre ++ ((length es + length new) % 256 ∷ (encode_imms es ++ (tmp ++ rest)));
          imm_len = r.imm_len + length tmp;
          num_imm = r.num_imm + length new;
          needed_len = r.needed_len + length tmp;
        },
        store_imms_at r pre (encode_imms es) tmp old rest (length es) (length new)
            (rw (← e) enc.layout) enc.imm_start enc.imm_extent l,
        record {
          unused = rest;
          layout = out;
          whole = omega (
            arith,
            buffer_len-sections enc,
            ap length out,
            ap length e,
            length-append old rest,
            length-append pre (imm_section (es ++ new) ++ rest),
            length-append (imm_section (es ++ new)) rest,
          );
          nodes_counted = enc.nodes_counted;
          imms_counted = omega (arith, enc.imms_counted);
          imm_start = enc.imm_start;
          imm_extent = omega (arith, enc.imm_extent);
          few_nodes = enc.few_nodes;
          few_imms = omega arith;
        },
        record { needed = refl; same_len = refl; skips = omega arith },
      )

  store_imms-Encodes :
      (new : List (ℕ × Variant))
      → room r.buffer_len ids es new ≡ true
      → (r' : CompressedRecord) × (store_imms r (encode_imms new) (length new) ≡ some (r', 0))
        × Encodes r' ids (es ++ new)
        × Counts r r' 0 (length (encode_imms new))
  store_imms-Encodes new fit =
      let few : length es + length new < 128 = ground arith in
      let (old, rest, e, l) =
        split_at (length (encode_imms new)) enc.unused (ground (arith, buffer_len-sections enc)) in
      store_imms_cut new old rest few e l

  -- A block is taken whole or skipped whole, as the room says.
  append_imm_block-Encodes :
      (new : List (ℕ × Variant))
      → (r' : CompressedRecord) × (k : ℕ) × (append_imm_block r new ≡ some (r', k))
        × Encodes r' ids (take_block r.buffer_len ids es new)
        × (length (take_block r.buffer_len ids es new) + k ≡ length es + length new)
        × (r'.needed_len ≡ r.needed_len + length (encode_imms new))
        × (r'.buffer_len ≡ r.buffer_len)
        × (r'.skipped ≡ r.skipped)
  unfolding append_imm_block
  append_imm_block-Encodes new = elim (Bool-cases (room r.buffer_len ids es new)) [
    | inl yes' ↦
        let (r', run, enc', c) = store_imms-Encodes new yes' in
        (
          r',
          0,
          rw (fits-room new, yes') run,
          rw yes' enc',
          rw yes' (omega (arith, length-append es new)),
          c.needed,
          c.same_len,
          omega (arith, c.skips),
        )
    | inr no' ↦ (
      record r { needed_len = r.needed_len + length (encode_imms new) },
      length new,
      rw (fits-room new, no'),
      rw no' (Encodes-counters enc (r.needed_len + length (encode_imms new)) r.skipped),
      rw no',
      refl,
      refl,
      refl,
    )
  ]
