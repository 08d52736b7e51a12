-- ===== src/ContextBuffer/Updates.antt =====
-- `get` after `set`.
use caliper.Base.{true-false}
use caliper.Base.{ℕ, ◌≡◌, ◌⊎◌, inl, inr, sym, ◌∙◌}
use caliper.Base.{true, Bool-cases, Option-cases}
use caliper.Base.{[], some}
use caliper.Variant.{Variant}
use caliper.Attribute.{Attr}
use caliper.ContextBuffer.{ContextBuffer, find, put, add_slot, note_max, set_value}
use caliper.ContextBuffer.Slots.{matching, find-none}
use caliper.ContextBuffer.Regions.{locate, IsContext}
use caliper.ContextBuffer.Insert.{
  Updated, Stored-get, PutBy, update_slot-IsContext, add_node-IsContext, add_hidden-IsContext,
  add_data-IsContext,
}

module _ (attrs : ℕ → Attr) where
  -- A node attribute can be added by `set` where no hidden entries are.
  abbrev pub Placeable : ContextBuffer → Attr → Type 0
  Placeable b a = (a.store_as_value ≡ true) ⊎ (b.num_hidden ≡ 0)

  add_slot-IsContext :
      (b : ContextBuffer) (a : Attr) (v : Variant)
      → IsContext attrs b
      → attrs a.id ≡ a
      → Placeable b a
      → matching a.id b.slots ≡ []
      → PutBy attrs b a.id v (add_slot b a v)
  unfolding add_slot
  add_slot-IsContext b a v c kind place fresh = elim (Bool-cases a.store_as_value) [
    | inr as_node ↦
        let free : b.num_hidden ≡ 0 = elim place [
          | inl e ↦ absurd (true-false (sym e ∙ as_node))
          | inr e ↦ e
        ] in
        let (moved, run, good, stored) =
          add_node-IsContext attrs b a v [] c kind as_node free fresh in
        (_, rw (as_node, run), good, stored)
    | inl as_value ↦ elim (Bool-cases a.is_hidden) [
      | inl hidden ↦
          let (moved, run, good, stored) =
            add_hidden-IsContext attrs b a v c kind as_value hidden fresh in
          (_, rw (as_value, hidden, run), good, stored)
      | inr visible ↦
          let (b', run, good, stored) =
            add_data-IsContext attrs b a v c kind as_value visible fresh in
          (b', rw (as_value, visible) run, good, stored)
    ]
  ]

  put-IsContext :
      (b : ContextBuffer) (a : Attr) (v : Variant)
      → IsContext attrs b
      → attrs a.id ≡ a
      → Placeable b a
      → PutBy attrs b a.id v (put b a v (find a.id b.slots))
  put-IsContext b a v c kind place = elim (Option-cases (find a.id b.slots)) [
    | inl e ↦ rw e (add_slot-IsContext b a v c kind place (find-none a.id b.slots e))
    | inr (i, e) ↦ rw e (update_slot-IsContext attrs b a.id i v c (locate attrs a.id i c.regions e))
  ]

  -- `set` on a well-formed blackboard never leaves the vectors and keeps it well formed; `get` then
  -- gives the new value for the attribute and the old ones for all others.
  pub get-set_value :
      (b : ContextBuffer) (a : Attr) (v : Variant)
      → IsContext attrs b
      → attrs a.id ≡ a
      → Placeable b a
      → (b' : ContextBuffer) × (set_value b a v ≡ some b')
        × IsContext attrs b'
        × Updated b b' a.id v
  unfolding set_value
  get-set_value b a v c kind place =
      let (b', run, good, stored) = put-IsContext b a v c kind place in
      (
        note_max b',
        rw run,
        record { regions = good.regions; once = good.once; nodes_counted = good.nodes_counted },
        Stored-get (record { own = stored.own; others = stored.others }),
      )
