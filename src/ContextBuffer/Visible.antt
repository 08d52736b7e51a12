-- ===== src/ContextBuffer/Visible.antt =====
-- What a snapshot of the blackboard shows.
use caliper.Base.{true-false}
use caliper.Base.{ℕ, ◌+◌, ◌-◌, ◌≤◌, ◌≡◌, ◌≢◌, inl, inr, refl, sym, ap, ◌∙◌, arith, ltb}
use caliper.Base.{
  if◌then◌else◌, ◌==◌, Bool, Bool-cases, true, false, append_assoc, append-nil, length-append, map,
  length-map,
}
use caliper.Base.{
  List, [], ◌∷◌, ◌++◌, some, length, take, drop, All, All-mono, length-drop, ◌&&◌, not,
}
use caliper.Base.Memory.{drop-append}
use caliper.Variant.{Variant, empty_variant}
use caliper.SnapshotRecord.{SnapshotRecord}
use caliper.SnapshotRecord.Contents.{append_roomy}
use caliper.Base.{take_all}
use caliper.Attribute.{Attr}
use caliper.ContextBuffer.{Slot, ContextBuffer, snapshot, slot_pair, get}
use caliper.ContextBuffer.Slots.{matching, first_or_empty}
use caliper.ContextBuffer.Regions.{IsNode, IsContext}
use caliper.ContextBuffer.NodeUpdates.{matching_regions}
use caliper.ContextBuffer.Insert.{get-matching, no_elements}
use caliper.ContextBuffer.SetNode.{other_kind}

-- The values that a list of pairs has for a key.
abbrev pub values_for : ℕ → List (ℕ × Variant) → List Variant
values_for k [] = []
values_for k ((a, v) ∷ es) = if a == k then v ∷ values_for k es else values_for k es

values_for-slots : (k : ℕ) (ss : List Slot) → values_for k (map slot_pair ss) ≡ matching k ss
values_for-slots k [] = refl
values_for-slots k (s ∷ ss) = rw (values_for-slots k ss)

-- What `snapshot` hands over, in terms of the regions.
module _ (attrs : ℕ → Attr) (b : ContextBuffer) (c : IsContext attrs b) where
  behind_hidden : (N H D : List Slot) (p : ℕ) → p ≡ length N + length H → drop p (N ++ (H ++ D)) ≡ D
  behind_hidden N H D p h =
      ap (drop p) (sym (append_assoc N H D))
      ∙ drop-append (N ++ H) D p (omega (arith, h, length-append N H))

  visible : drop (b.num_nodes + b.num_hidden) b.slots ≡ c.regions.data_slots
  visible =
      let r = c.regions in
      ap (drop (b.num_nodes + b.num_hidden)) r.layout
      ∙ behind_hidden r.node_slots r.hidden_slots r.data_slots (b.num_nodes + b.num_hidden)
          (omega (arith, r.nodes_end, r.hidden_end))

  -- A value attribute stands among the visible slots alone.
  node_slots_lack :
      (k : ℕ) (ss : List Slot)
      → (attrs k).store_as_value ≡ true
      → All (IsNode attrs) ss
      → matching k ss ≡ []
  node_slots_lack k [] h g = refl
  node_slots_lack k (s ∷ ss) h (e, g) = elim (Bool-cases (s.key == k)) [
    | inl same ↦
        let t : s.key ≡ k = ground arith in
        absurd (true-false (sym h ∙ (ap (λ (x : ℕ). (attrs x).store_as_value) (sym t) ∙ e)))
    | inr off ↦ rw off (node_slots_lack k ss h g)
  ]

  -- Slots whose attributes are hidden or not, looked at with an attribute of the other sort.
  other_sort :
      (k : ℕ) (ss : List Slot) (hidden other : Bool)
      → hidden ≢ other
      → (attrs k).is_hidden ≡ other
      → All
          (λ (s : Slot). ((attrs s.key).store_as_value ≡ true) × ((attrs s.key).is_hidden ≡ hidden))
          ss
      → matching k ss ≡ []
  other_sort k [] hidden other d h g = refl
  other_sort k (s ∷ ss) hidden other d h ((_, e), g) = elim (Bool-cases (s.key == k)) [
    | inl same ↦
        let t : s.key ≡ k = ground arith in
        absurd (d (sym e ∙ (ap (λ (x : ℕ). (attrs x).is_hidden) t ∙ h)))
    | inr off ↦ rw off (other_sort k ss hidden other d h g)
  ]

  all_matching :
      (k : ℕ)
      → matching k b.slots
        ≡ matching k c.regions.node_slots
          ++ (matching k c.regions.hidden_slots ++ matching k c.regions.data_slots)
  all_matching k =
      ap (matching k) c.regions.layout
      ∙ matching_regions k c.regions.node_slots c.regions.hidden_slots c.regions.data_slots

  -- The visible slots have the value of an attribute that is stored as a value and not hidden.
  visible_matching :
      (k : ℕ)
      → (attrs k).store_as_value ≡ true
      → (attrs k).is_hidden ≡ false
      → matching k c.regions.data_slots ≡ matching k b.slots
  visible_matching k h g = sym (
      all_matching k
      ∙ rw
          (
            node_slots_lack k c.regions.node_slots h c.regions.nodes_kind,
            other_sort k c.regions.hidden_slots true false true-false g c.regions.hidden_kind,
          )
          refl)

  -- They have none of a hidden attribute.
  hidden_matching : (k : ℕ) → (attrs k).is_hidden ≡ true → matching k c.regions.data_slots ≡ []
  hidden_matching k g =
      other_sort k c.regions.data_slots false true (λ e. true-false (sym e)) g c.regions.data_kind

  -- The value of an attribute in a snapshot of the blackboard.
  visible_value :
      (a : Attr)
      → attrs a.id ≡ a
      → some (first_or_empty (matching a.id c.regions.data_slots))
        ≡ (if a.store_as_value && not a.is_hidden then get b a else some empty_variant)
  unfolding get
  visible_value a kind = elim (Bool-cases a.store_as_value) [
    | inr e ↦
        rw
          (
            e,
            other_kind attrs a.id c.regions.data_slots (ap Attr.store_as_value kind ∙ e)
                (All-mono (λ s h. h.0) c.regions.data_slots c.regions.data_kind),
          )
          refl
    | inl e ↦ elim (Bool-cases a.is_hidden) [
      | inl h ↦ rw (e, h, hidden_matching a.id (ap Attr.is_hidden kind ∙ h)) refl
      | inr h ↦
          let same =
            visible_matching a.id (ap Attr.store_as_value kind ∙ e) (ap Attr.is_hidden kind ∙ h) in
          rw (e, h)
            (ap (λ (t : List Variant). some (first_or_empty t)) same ∙ sym (get-matching b a))
    ]
  ]

  once_visible : (k : ℕ) → length (matching k c.regions.data_slots) ≤ 1
  once_visible k =
      let r = c.regions in
      omega (
        arith,
        c.once k,
        ap length (all_matching k),
        length-append (matching k r.node_slots)
            (matching k r.hidden_slots ++ matching k r.data_slots),
        length-append (matching k r.hidden_slots) (matching k r.data_slots),
      )

  all_nodes : take b.num_nodes b.nodes ≡ b.nodes
  all_nodes = take_all b.num_nodes b.nodes (omega (arith, c.nodes_counted))

  snapshot_run :
      (r : SnapshotRecord)
      → length r.nodes + length b.nodes ≤ r.max_nodes
      → length r.imms + length c.regions.data_slots ≤ r.max_imms
      → snapshot b r ≡ record r {
        nodes = r.nodes ++ b.nodes;
        imms = r.imms ++ map slot_pair c.regions.data_slots;
      }
  unfolding snapshot
  snapshot_run r h g =
      let D = c.regions.data_slots in
      let n : length (drop (b.num_nodes + b.num_hidden) b.slots) ≡ length D = ap length visible in
      elim (Bool-cases (ltb 0 (b.num_nodes + (length b.slots - (b.num_nodes + b.num_hidden))))) [
        | inl e ↦
            rw (e, visible, all_nodes)
              (append_roomy r b.nodes (map slot_pair D) h
                (omega (arith, g, length-map D slot_pair)))
        | inr e ↦
            let sizes : length b.nodes + length D ≤ 0 =
              ground
                (arith, n, c.nodes_counted, length-drop (b.num_nodes + b.num_hidden) b.slots) in
            let no_nodes = no_elements b.nodes (omega (arith, sizes)) in
            let no_data = no_elements D (omega (arith, sizes)) in
            rw (e, no_nodes, no_data, append-nil r.nodes, append-nil r.imms) refl
      ]

-- A snapshot of a well-formed blackboard, taken into a record with enough room, adds the node pointers
-- and some pairs: for an attribute stored as a value and not hidden, the value that `get` gives, and
-- no value for any other; and none twice.
pub snapshot_shows :
    (attrs : ℕ → Attr) (b : ContextBuffer) (r : SnapshotRecord) (a : Attr)
    → IsContext attrs b
    → attrs a.id ≡ a
    → length r.nodes + length b.nodes ≤ r.max_nodes
    → length r.imms + length b.slots ≤ r.max_imms
    → (es : List (ℕ × Variant)) × (snapshot b r
        ≡ record r { nodes = r.nodes ++ b.nodes; imms = r.imms ++ es })
      × (some (first_or_empty (values_for a.id es))
          ≡ (if a.store_as_value && not a.is_hidden then get b a else some empty_variant))
      × (length (values_for a.id es) ≤ 1)
snapshot_shows attrs b r a c kind h g =
    let D = c.regions.data_slots in
    let roomy : length r.imms + length D ≤ r.max_imms =
      omega (
        arith,
        g,
        ap length (visible attrs b c),
        length-drop (b.num_nodes + b.num_hidden) b.slots,
      ) in
    let same = values_for-slots a.id D in
    (
      map slot_pair D,
      snapshot_run attrs b c r h roomy,
      ap (λ (t : List Variant). some (first_or_empty t)) same ∙ visible_value attrs b c a kind,
      omega (arith, ap length same, once_visible attrs b c a.id),
    )
