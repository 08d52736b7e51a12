-- ===== src/CompressedRecord/Entries.antt =====
-- `append(n, entrylist)` and `append(rec)`: a list of entries is sorted into nodes and immediate
-- entries on the way.
pub mod Fit
use caliper.Base.{ℕ, zero, suc, ◌+◌, ◌==◌, if◌then◌else◌, Option, none, some, ◌>>=◌, length}
use caliper.Base.{List, [], ◌∷◌, ◌++◌, Bool, true, false}
use caliper.Variant.{Variant}
use caliper.Node.{NodePtr}
use caliper.Entry.{Entry, is_value}
use caliper.CompressedRecord.{CompressedRecord, append_nodes, append_imms, block_size}

-- The arrays `nodes` and `attr`/`data` up to `nn` and `ni`, the record, and `skipped`.
pub record Pending : Type 0 where
  pub rec : CompressedRecord
  pub nodes : List ℕ
  pub imms : List (ℕ × Variant)
  pub skipped : ℕ

unfoldable pub add_node : Pending → ℕ → Option Pending
add_node s id =
    let nodes' = s.nodes ++ (id ∷ []) in
    let flushed : Option Pending =
      append_nodes s.rec nodes'
      >>= (λ (r', k). some (record s { rec = r'; nodes = []; skipped = s.skipped + k })) in
    if length nodes' == block_size then flushed else some (record s { nodes = nodes' })

unfoldable pub add_imm : Pending → ℕ × Variant → Option Pending
add_imm s e =
    let imms' = s.imms ++ (e ∷ []) in
    let flushed : Option Pending =
      append_imms s.rec imms'
      >>= (λ (r', k). some (record s { rec = r'; imms = []; skipped = s.skipped + k })) in
    if length imms' == block_size then flushed else some (record s { imms = imms' })

-- One round of the `for` loop, on the fields of the entry.
unfoldable pub add_fields : Pending → NodePtr → ℕ → Variant → Option Pending
add_fields s (n ∷ up) a v = add_node s n.id
add_fields s [] a v = if is_value [] a then add_imm s (a, v) else some s

unfoldable pub add_entry : Pending → Entry → Option Pending
unfolding add_fields
add_entry s e = add_fields s e.node e.attr_id e.value

unfoldable pub add_entries : Pending → List Entry → Option Pending
add_entries s [] = some s
add_entries s (e ∷ es) = add_entry s e >>= λ s'. add_entries s' es

-- The two calls behind the loop.
unfoldable pub finish : Pending → Option (CompressedRecord × ℕ)
finish s = do
  (r₁, k₁) ← append_nodes s.rec s.nodes
  (r₂, k₂) ← append_imms r₁ s.imms
  some (r₂, s.skipped + k₁ + k₂)

unfoldable pub append_entries : CompressedRecord → List Entry → Option (CompressedRecord × ℕ)
append_entries r es =
    add_entries (record { rec = r; nodes = []; imms = []; skipped = 0 }) es >>= finish

-- `append(const SnapshotRecord*)`, on the contents of the record's arrays.
unfoldable pub append_snapshot :
    CompressedRecord → List ℕ → List (ℕ × Variant) → Option (CompressedRecord × ℕ)
append_snapshot r nodes imms = do
  (r₁, k₁) ← append_nodes r nodes
  (r₂, k₂) ← append_imms r₁ imms
  some (r₂, k₁ + k₂)
