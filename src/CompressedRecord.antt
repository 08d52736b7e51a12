-- ===== src/CompressedRecord.antt =====
-- src/common/CompressedSnapshotRecord.cpp and its header: snapshot records as bytes, a count and
-- the ids of the context tree nodes, then a count and the immediate (attribute, value) entries.
-- A buffer is a list of bytes; `none` is an access outside it. A node pointer is the node's id.
pub mod Move
pub mod View
pub mod Shape
pub mod Nodes
pub mod Immediates
pub mod Entries
pub mod Reading
use caliper.Base.{ℕ, zero, suc, ◌+◌, ◌-◌, ◌%◌, ◌≤◌, ◌<◌, min, ltb, leb, ◌==◌, if◌then◌else◌}
use caliper.Base.{List, [], ◌∷◌, ◌++◌, Option, none, some, ◌>>=◌, length, take, drop, replicate}
use caliper.Base.{Bool, true, false, ◌&&◌, not, get_elem?}
use caliper.Base.Memory.{read, write}
use caliper.Vlenc.{vlenc_u64}
use caliper.Variant.{Variant, pack}

-- `save_memmove` from the last block of 64 bytes down to the first.
unfoldable pub move_blocks : ℕ → List ℕ → ℕ → ℕ → ℕ → Option (List ℕ)
move_blocks zero buf dst src len = if len == 0 then some buf else none
move_blocks (suc fuel) buf dst src len = elim (len == 0) [
  | true ↦ some buf
  | false ↦ do
    let blk = min len 64
    tmp ← read buf (src + (len - blk)) blk
    buf' ← write buf (dst + (len - blk)) tmp
    move_blocks fuel buf' dst src (len - blk)
]

-- A round moves a byte at least, so `len` rounds are enough.
unfoldable pub save_memmove : List ℕ → ℕ → ℕ → ℕ → Option (List ℕ)
save_memmove buf dst src len = if src == dst then some buf else move_blocks len buf dst src len

pub record CompressedRecord : Type 0 where
  pub buffer : List ℕ
  pub buffer_len : ℕ
  pub num_nodes : ℕ
  pub num_imm : ℕ
  pub imm_pos : ℕ
  pub imm_len : ℕ
  pub needed_len : ℕ
  pub skipped : ℕ

abbrev pub block_size : ℕ
block_size = 4

abbrev pub internal_buffer_size : ℕ
internal_buffer_size = 512

-- The constructor over a buffer of `len` bytes.
unfoldable pub new : ℕ → CompressedRecord
new len = record {
  buffer = replicate len 0;
  buffer_len = len;
  num_nodes = 0;
  num_imm = 0;
  imm_pos = 1;
  imm_len = 1;
  needed_len = 2;
  skipped = 0;
}

-- `size()`.
unfoldable pub size : CompressedRecord → ℕ
size r = min (r.imm_pos + r.imm_len) r.buffer_len

-- `m_buffer[p] += k`.
unfoldable pub add_byte : List ℕ → ℕ → ℕ → Option (List ℕ)
add_byte buf p k = do b ← get_elem? buf p; write buf p ((b + k) % 256 ∷ [])

-- The inner `for` loops: what stands in `tmp`.
abbrev pub encode_ids : List ℕ → List ℕ
encode_ids [] = []
encode_ids (i ∷ is) = vlenc_u64 i ++ encode_ids is

abbrev pub encode_imms : List (ℕ × Variant) → List ℕ
encode_imms [] = []
encode_imms ((a, v) ∷ es) = vlenc_u64 a ++ (pack v ++ encode_imms es)

-- "size check, copy to actual buffer", for `blk` nodes whose encoding is `tmp`.
unfoldable pub store_nodes : CompressedRecord → List ℕ → ℕ → Option (CompressedRecord × ℕ)
store_nodes r tmp blk = do
  let len = length tmp
  moved ← save_memmove r.buffer (r.imm_pos + len) r.imm_pos r.imm_len
  copied ← write moved 1 tmp
  counted ← add_byte copied 0 blk
  some (
    record r {
      buffer = counted;
      imm_pos = r.imm_pos + len;
      num_nodes = r.num_nodes + blk;
      needed_len = r.needed_len + len;
    },
    0,
  )

unfoldable pub store_imms : CompressedRecord → List ℕ → ℕ → Option (CompressedRecord × ℕ)
store_imms r tmp blk = do
  let len = length tmp
  copied ← write r.buffer (r.imm_pos + r.imm_len) tmp
  counted ← add_byte copied r.imm_pos blk
  some (
    record r {
      buffer = counted;
      imm_len = r.imm_len + len;
      num_imm = r.num_imm + blk;
      needed_len = r.needed_len + len;
    },
    0,
  )

-- A block that does not fit is skipped as a whole.
abbrev pub skip_block : CompressedRecord → ℕ → ℕ → CompressedRecord × ℕ
skip_block r len blk = (record r { needed_len = r.needed_len + len }, blk)

abbrev pub fits : CompressedRecord → ℕ → ℕ → ℕ → Bool
fits r n blk len = ltb (n + blk) 128 && leb (r.imm_pos + r.imm_len + len) r.buffer_len

-- One round of `append(n, node_vec)`: the record and how many entries it skipped.
unfoldable pub append_node_block : CompressedRecord → List ℕ → Option (CompressedRecord × ℕ)
append_node_block r ids =
    let tmp = encode_ids ids in
    let blk = length ids in
    if fits r r.num_nodes blk (length tmp)
    then store_nodes r tmp blk
    else some (skip_block r (length tmp) blk)

-- One round of `append(n, attr_vec, data_vec)`.
unfoldable pub append_imm_block :
    CompressedRecord → List (ℕ × Variant) → Option (CompressedRecord × ℕ)
append_imm_block r es =
    let tmp = encode_imms es in
    let blk = length es in
    if fits r r.num_imm blk (length tmp)
    then store_imms r tmp blk
    else some (skip_block r (length tmp) blk)

-- The `while (n > 0)` loops, over blocks of at most `block_size` entries.
unfoldable pub append_blocks {ℓ} :
    {A : Type ℓ}
    → (CompressedRecord → List A → Option (CompressedRecord × ℕ))
    → ℕ
    → CompressedRecord
    → List A
    → ℕ
    → Option (CompressedRecord × ℕ)
append_blocks step fuel r [] skipped = some (record r { skipped = r.skipped + skipped }, skipped)
append_blocks step zero r (x ∷ xs) skipped = none
append_blocks step (suc fuel) r (x ∷ xs) skipped = do
  (r', k) ← step r (take block_size (x ∷ xs))
  append_blocks step fuel r' (drop block_size (x ∷ xs)) (skipped + k)

unfoldable pub append_nodes : CompressedRecord → List ℕ → Option (CompressedRecord × ℕ)
append_nodes r ids = append_blocks append_node_block (length ids) r ids 0

unfoldable pub append_imms : CompressedRecord → List (ℕ × Variant) → Option (CompressedRecord × ℕ)
append_imms r es = append_blocks append_imm_block (length es) r es 0
