-- ===== src/ContextBuffer/Exposed.antt =====
-- `set` of a node attribute, where hidden entries and visible values are there already.
use caliper.Base.{ℕ, ◌+◌, ◌-◌, ◌≡◌, refl, ap, ◌∙◌, arith, ltb, true, false}
use caliper.Base.{List, [], ◌∷◌, ◌++◌, some, none, length, drop, take, map, append_assoc}
use caliper.Base.{length-append}
use caliper.Base.Memory.{drop-append}
use caliper.Variant.{Variant, make_uint}
use caliper.SnapshotRecord.{SnapshotRecord, append}
use caliper.Base.{take_all}
use caliper.Attribute.{Attr}
use caliper.ContextBuffer.{
  Slot, ContextBuffer, find, add_slot, note_max, move_to, set_value, snapshot, slot_pair,
}
use caliper.ContextBuffer.Moves.{move_to-snoc}
use caliper.ContextBuffer.Regions.{IsContext}

module _ (attrs : ℕ → Attr) (b : ContextBuffer) (r : SnapshotRecord) (a : Attr) (v : Variant)
    (c : IsContext attrs b) (as_node : a.store_as_value ≡ false) (fresh : find a.id b.slots ≡ none)
    (x : Slot) (H : List Slot) (d : Slot) (D : List Slot) (hidden : c.regions.hidden_slots ≡ x ∷ H)
    (values : c.regions.data_slots ≡ d ∷ D) where
  abbrev new : Slot
  new = record { key = a.id; attr = make_uint a.id; value = v }

  abbrev front : List Slot
  front = c.regions.node_slots ++ (new ∷ (H ++ (d ∷ [])))

  abbrev moved : List Slot
  moved = front ++ (D ++ (x ∷ []))

  run : move_to (b.slots ++ (new ∷ [])) b.num_nodes ≡ some moved
  run =
      let N = c.regions.node_slots in
      let from : b.slots ≡ N ++ (x ∷ (H ++ (d ∷ D))) =
        c.regions.layout ∙ rw (hidden, values) refl in
      ap (λ (t : List Slot). move_to (t ++ (new ∷ [])) b.num_nodes) from
      ∙ (move_to-snoc N (x ∷ (H ++ (d ∷ D))) new b.num_nodes c.regions.nodes_end
          ∙ ap some (simp append_assoc))

  abbrev after : ContextBuffer
  after = record b { slots = moved; nodes = b.nodes ++ ([] ∷ []); num_nodes = b.num_nodes + 1 }

  add_run : add_slot b a v ≡ some after
  unfolding add_slot
  add_run = rw (as_node, run) refl

  set_run : set_value b a v ≡ some (note_max after)
  unfolding set_value
  set_run = rw (fresh, add_run) refl

  front_size : b.num_nodes + 1 + b.num_hidden ≡ length front
  front_size = omega (
    arith,
    c.regions.nodes_end,
    c.regions.hidden_end,
    ap length hidden,
    length-append c.regions.node_slots (new ∷ (H ++ (d ∷ []))),
    length-append H (d ∷ []),
  )

  shown : drop (b.num_nodes + 1 + b.num_hidden) moved ≡ D ++ (x ∷ [])
  shown = drop-append front (D ++ (x ∷ [])) (b.num_nodes + 1 + b.num_hidden) front_size

  nodes_shown : take (b.num_nodes + 1) (b.nodes ++ ([] ∷ [])) ≡ b.nodes ++ ([] ∷ [])
  nodes_shown =
      take_all (b.num_nodes + 1) (b.nodes ++ ([] ∷ []))
        (omega (arith, c.nodes_counted, length-append b.nodes ([] ∷ [])))

  snapshot-after :
      snapshot (note_max after) r ≡ append r (b.nodes ++ ([] ∷ [])) (map slot_pair (D ++ (x ∷ [])))
  unfolding snapshot
  snapshot-after =
      let t : ltb 0 (b.num_nodes + 1 + (length moved - (b.num_nodes + 1 + b.num_hidden))) ≡ true =
        ground arith in
      rw (t, shown, nodes_shown) refl

  -- `set` of a new node attribute on a well-formed blackboard with the hidden entry `x` first among the hidden
  -- ones and the value `d` first among the visible ones: a snapshot then shows `x` and leaves out `d`.
  pub set_value_exposes :
      (b' : ContextBuffer) × (set_value b a v ≡ some b')
      × (snapshot b' r ≡ append r (b.nodes ++ ([] ∷ [])) (map slot_pair (D ++ (x ∷ []))))
  set_value_exposes = (note_max after, set_run, snapshot-after)
