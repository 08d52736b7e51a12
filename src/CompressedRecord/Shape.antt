-- ===== src/CompressedRecord/Shape.antt =====
-- When a buffer holds the encoding of some nodes and some immediate entries.
use caliper.Base.{ℕ, zero, suc, ◌+◌, ◌≤◌, ◌<◌, ◌≡◌, refl, arith, ap, replicate, length-replicate}
use caliper.Base.{List, [], ◌∷◌, ◌++◌, length, length-append, append_assoc}
use caliper.Vlenc.{IsU64}
use caliper.Variant.{Variant, IsVariant}
use caliper.CompressedRecord.{CompressedRecord, new, encode_ids, encode_imms}

-- An immediate entry that fits its fields.
abbrev pub IsImm : ℕ × Variant → Type 0
IsImm (a, v) = IsU64 a × IsVariant v

-- The bytes of a record: both counts and both sections.
abbrev pub node_section : List ℕ → List ℕ
node_section ids = length ids ∷ encode_ids ids

abbrev pub imm_section : List (ℕ × Variant) → List ℕ
imm_section es = length es ∷ encode_imms es

-- The record holds the nodes `ids` and the immediate entries `es`, and nothing else of `buffer` matters.
pub record Encodes (r : CompressedRecord) (ids : List ℕ) (es : List (ℕ × Variant)) : Type 0 where
  pub unused : List ℕ
  pub layout : r.buffer ≡ node_section ids ++ (imm_section es ++ unused)
  pub whole : r.buffer_len ≡ length r.buffer
  pub nodes_counted : r.num_nodes ≡ length ids
  pub imms_counted : r.num_imm ≡ length es
  pub imm_start : r.imm_pos ≡ length (node_section ids)
  pub imm_extent : r.imm_len ≡ length (imm_section es)
  pub few_nodes : length ids < 128
  pub few_imms : length es < 128

pub encode_ids-append : (xs ys : List ℕ) → encode_ids (xs ++ ys) ≡ encode_ids xs ++ encode_ids ys
encode_ids-append [] ys = refl
encode_ids-append (x ∷ xs) ys = rw (encode_ids-append xs ys, append_assoc)

pub encode_imms-append :
    (xs ys : List (ℕ × Variant)) → encode_imms (xs ++ ys) ≡ encode_imms xs ++ encode_imms ys
encode_imms-append [] ys = refl
encode_imms-append ((a, v) ∷ xs) ys = simp (encode_imms-append xs ys, append_assoc)

-- A new record over at least two bytes holds no entry.
pub new-Encodes : (len : ℕ) → 2 ≤ len → Encodes (new len) [] []
unfolding new
new-Encodes zero h = absurd (omega arith)
new-Encodes (suc zero) h = absurd (omega arith)
new-Encodes (suc (suc len)) h = record {
  unused = replicate len 0;
  layout = refl;
  whole = omega (arith, length-replicate {A = ℕ} len 0);
  nodes_counted = refl;
  imms_counted = refl;
  imm_start = refl;
  imm_extent = refl;
  few_nodes = omega arith;
  few_imms = omega arith;
}

-- The sections and the unused bytes fill the buffer.
pub buffer_len-sections :
    {r : CompressedRecord} {ids : List ℕ} {es : List (ℕ × Variant)} (enc : Encodes r ids es)
    → r.buffer_len ≡ length (node_section ids) + (length (imm_section es) + length enc.unused)
buffer_len-sections {r} {ids} {es} enc = omega (
  arith,
  enc.whole,
  ap length enc.layout,
  length-append (node_section ids) (imm_section es ++ enc.unused),
  length-append (imm_section es) enc.unused,
)

-- The two statistics do not matter.
pub Encodes-counters :
    {r : CompressedRecord} {ids : List ℕ} {es : List (ℕ × Variant)}
    → Encodes r ids es
    → (needed skips : ℕ) → Encodes (record r { needed_len = needed; skipped = skips }) ids es
Encodes-counters enc needed skips = record {
  unused = enc.unused;
  layout = enc.layout;
  whole = enc.whole;
  nodes_counted = enc.nodes_counted;
  imms_counted = enc.imms_counted;
  imm_start = enc.imm_start;
  imm_extent = enc.imm_extent;
  few_nodes = enc.few_nodes;
  few_imms = enc.few_imms;
}
