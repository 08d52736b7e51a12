-- ===== src/Tests/Runtime.antt =====
-- The memory pool, the blackboard and its snapshots.
use caliper.Base.{ℕ, ◌≤◌, ◌≡◌, inl, refl, arith, true, false, if◌then◌else◌, ◌==◌}
use caliper.Base.{List, [], ◌∷◌, some, length}
use caliper.MemoryPool.{new_pool}
use caliper.MemoryPool.Requests.{AllAnswered, serve-new_pool}
use caliper.Node.{Node}
use caliper.Variant.{Variant, empty_variant, make_uint}
use caliper.SnapshotRecord.{SnapshotRecord, fixed, append}
use caliper.SnapshotRecord.Contents.{Fits, append-Fits}
use caliper.Attribute.{Attr}
use caliper.ContextBuffer.{
  Slot, ContextBuffer, get, get_node, find, set_value, set_node, unset, snapshot,
}
use caliper.ContextBuffer.Slots.{first_or_empty}
use caliper.ContextBuffer.Regions.{IsContext}
use caliper.ContextBuffer.Insert.{Updated}
use caliper.ContextBuffer.Updates.{get-set_value}
use caliper.ContextBuffer.Removal.{get-unset}
use caliper.ContextBuffer.SetNode.{get-set_node}
use caliper.ContextBuffer.Visible.{values_for, snapshot_shows}
use caliper.Entry.{top_value}
use caliper.SnapshotRecord
use caliper.ContextBuffer.ReadBack.{snapshot-get}
use caliper.ContextBuffer.Exposed.{set_value_exposes}

serve-new_pool_example : AllAnswered (new_pool true 64) [] (40 ∷ 600000 ∷ 8 ∷ []) true
serve-new_pool_example =
    serve-new_pool true 64 (40 ∷ 600000 ∷ 8 ∷ []) (omega arith, (omega arith, (omega arith, tt)))

-- Attribute 1 is stored in nodes, 2 is hidden, and the others are visible values.
abbrev attrs : ℕ → Attr
attrs i =
    if i == 1
    then record { id = i; store_as_value = false; is_hidden = false }
    else if i == 2
    then record { id = i; store_as_value = true; is_hidden = true }
    else record { id = i; store_as_value = true; is_hidden = false }

abbrev root : Node
root = record { id = 11; attribute = 1; value = make_uint 5 }

abbrev child : Node
child = record { id = 12; attribute = 1; value = make_uint 6 }

abbrev slot : ℕ → ℕ → Slot
slot k v = record { key = k; attr = make_uint k; value = make_uint v }

abbrev board : ContextBuffer
board = record {
  slots = slot 1 11 ∷ slot 2 20 ∷ slot 3 30 ∷ slot 4 40 ∷ [];
  nodes = (root ∷ []) ∷ [];
  num_nodes = 1;
  num_hidden = 1;
  max_entries = 4;
}

board-IsContext : IsContext attrs board
board-IsContext = record {
  regions = record {
    node_slots = slot 1 11 ∷ [];
    hidden_slots = slot 2 20 ∷ [];
    data_slots = slot 3 30 ∷ slot 4 40 ∷ [];
    layout = refl;
    nodes_end = refl;
    hidden_end = refl;
    nodes_kind = (refl, tt);
    hidden_kind = ((refl, refl), tt);
    data_kind = ((refl, refl), ((refl, refl), tt));
  };
  once = λ k. ground arith;
  nodes_counted = refl;
}

get-set_value_example :
    (b' : ContextBuffer) × (set_value board (attrs 5) (make_uint 50) ≡ some b')
    × IsContext attrs b'
    × Updated board b' 5 (make_uint 50)
get-set_value_example =
    get-set_value attrs board (attrs 5) (make_uint 50) board-IsContext refl (inl refl)

get-unset_example :
    IsContext attrs (unset board (attrs 2)) × Updated board (unset board (attrs 2)) 2 empty_variant
get-unset_example = get-unset attrs board (attrs 2) board-IsContext

get-set_node_example :
    (b' : ContextBuffer) × (set_node board (attrs 1) (child ∷ root ∷ []) ≡ some (b', true))
    × IsContext attrs b'
    × Updated board b' 1 (make_uint 12)
    × (get_node b' (attrs 1) ≡ some (child ∷ root ∷ []))
get-set_node_example =
    get-set_node attrs board (attrs 1) child (root ∷ []) board-IsContext refl refl

snapshot_shows_example :
    (es : List (ℕ × Variant)) × (snapshot board (fixed 4)
      ≡ record (fixed 4) { nodes = (root ∷ []) ∷ []; imms = es })
    × (some (first_or_empty (values_for 3 es)) ≡ get board (attrs 3))
    × (length (values_for 3 es) ≤ 1)
unfolding fixed
snapshot_shows_example =
    snapshot_shows attrs board (fixed 4) (attrs 3) board-IsContext refl (omega arith) (omega arith)

append-Fits_example :
    Fits (append (fixed 1) ((root ∷ []) ∷ (child ∷ []) ∷ []) ((3, make_uint 30) ∷ []))
unfolding fixed
append-Fits_example =
    append-Fits (fixed 1) ((root ∷ []) ∷ (child ∷ []) ∷ []) ((3, make_uint 30) ∷ [])
      (record { nodes_fit = omega arith; imms_fit = omega arith })

abbrev hidden_board : ContextBuffer
hidden_board = record {
  slots = slot 2 20 ∷ slot 3 30 ∷ slot 4 40 ∷ [];
  nodes = [];
  num_nodes = 0;
  num_hidden = 1;
  max_entries = 3;
}

abbrev hidden_board-IsContext : IsContext attrs hidden_board
hidden_board-IsContext = record {
  regions = record {
    node_slots = [];
    hidden_slots = slot 2 20 ∷ [];
    data_slots = slot 3 30 ∷ slot 4 40 ∷ [];
    layout = refl;
    nodes_end = refl;
    hidden_end = refl;
    nodes_kind = tt;
    hidden_kind = ((refl, refl), tt);
    data_kind = ((refl, refl), ((refl, refl), tt));
  };
  once = λ k. ground arith;
  nodes_counted = refl;
}

set_value_exposes_example :
    (b' : ContextBuffer) × (set_value hidden_board (attrs 1) (make_uint 11) ≡ some b')
    × (snapshot b' (fixed 4)
        ≡ append (fixed 4) ([] ∷ []) ((4, make_uint 40) ∷ (2, make_uint 20) ∷ []))
unfolding find
set_value_exposes_example =
    set_value_exposes attrs hidden_board (fixed 4) (attrs 1) (make_uint 11) hidden_board-IsContext
      refl refl (slot 2 20) [] (slot 3 30) (slot 4 40 ∷ []) refl refl

snapshot-get_example :
    some (top_value (SnapshotRecord.get (snapshot board (fixed 4)) (attrs 4))) ≡ get board (attrs 4)
snapshot-get_example =
    snapshot-get attrs board 4 (attrs 4) board-IsContext refl (omega arith) (omega arith)
      (λ e. absurd (omega arith)) refl refl
