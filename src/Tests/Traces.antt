-- ===== src/Tests/Traces.antt =====
-- A chunk with a snapshot.
use caliper.Base.{ℕ, ◌≡◌, refl, arith, false, [], ◌∷◌, some, none, replicate}
use caliper.Variant.{make_uint}
use caliper.Node.{NodePtr}
use caliper.SnapshotRecord.{SnapshotRecord}
use caliper.TraceBuffer.{TraceBufferChunk, new_chunk, save_snapshot, fits, flush}
use caliper.TraceBuffer.Stored.{IsSnapshot, stored}
use caliper.TraceBuffer.Saving.{Holds, new_chunk-Holds, save_snapshot-Holds, flush-HoldAll}

abbrev seven : NodePtr
seven = record { id = 7; attribute = 9; value = make_uint 8 } ∷ []

abbrev seven_only : ℕ → NodePtr
seven_only id = seven

abbrev one_snapshot : SnapshotRecord
one_snapshot = record {
  nodes = seven ∷ [];
  imms = (20, make_uint 5) ∷ [];
  max_nodes = 80;
  max_imms = 80;
}

abbrev chunk : TraceBufferChunk
chunk = new_chunk (replicate 100 0)

one_snapshot-IsSnapshot : IsSnapshot seven_only one_snapshot
unfolding make_uint
one_snapshot-IsSnapshot = record {
  nodes = ((omega arith, refl, λ e. cc), tt);
  imms = (
    (omega arith, record { typed = omega arith; tag_fits = omega arith; value_fits = omega arith }),
    tt,
  );
}

one_saved :
    (c : TraceBufferChunk) × (save_snapshot chunk one_snapshot ≡ some c)
    × Holds seven_only c (one_snapshot ∷ [])
unfolding fits
one_saved =
    save_snapshot-Holds seven_only chunk [] one_snapshot
      (new_chunk-Holds seven_only (replicate 100 0)) one_snapshot-IsSnapshot refl (omega arith)

-- A chunk too small for the estimate does not fit the snapshot.
too_small : fits (new_chunk (replicate 50 0)) one_snapshot ≡ false
unfolding fits
too_small = refl

-- The null pointer is not saved, even where there is room.
null_not_saved :
    save_snapshot chunk (record { nodes = [] ∷ []; imms = []; max_nodes = 80; max_imms = 80 })
    ≡ none
unfolding save_snapshot
null_not_saved = refl

save_snapshot-Holds_example :
    (c : TraceBufferChunk) × (save_snapshot (new_chunk (replicate 63 1)) one_snapshot ≡ some c)
    × Holds seven_only c (one_snapshot ∷ [])
unfolding fits
save_snapshot-Holds_example =
    save_snapshot-Holds seven_only (new_chunk (replicate 63 1)) [] one_snapshot
      (new_chunk-Holds seven_only (replicate 63 1)) one_snapshot-IsSnapshot refl (omega arith)

flush-HoldAll_example :
    flush seven_only (one_saved.0 ∷ new_chunk (replicate 3 0) ∷ [])
    ≡ some (stored one_snapshot ∷ [], 1)
flush-HoldAll_example =
    flush-HoldAll seven_only (one_saved.0 ∷ new_chunk (replicate 3 0) ∷ []) (one_snapshot ∷ []) (
      one_snapshot ∷ [],
      [],
      refl,
      one_saved.2,
      ([], [], refl, new_chunk-Holds seven_only (replicate 3 0), refl),
    )
