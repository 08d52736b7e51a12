-- ===== src/ContextBuffer/ReadBack.antt =====
-- Reading a value from a snapshot of the blackboard.
use caliper.Base.{ℕ, ◌≤◌, ◌≡◌, ◌≢◌, refl, ap, ◌∙◌, arith, ◌==◌, ◌&&◌, not, if◌then◌else◌}
use caliper.Base.{Bool, Bool-cases, true, false, inl, inr, List, [], ◌∷◌, some, length}
use caliper.Node.{inv_id}
use caliper.Variant.{Variant, empty_variant}
use caliper.Entry.{Entry, top_value}
use caliper.Attribute.{Attr}
use caliper.SnapshotRecord.{SnapshotRecord, fixed, get_value}
use caliper.SnapshotRecord
use caliper.ContextBuffer.{ContextBuffer, snapshot, get}
use caliper.ContextBuffer.Slots.{first_or_empty}
use caliper.ContextBuffer.Regions.{IsContext}
use caliper.ContextBuffer.Visible.{values_for, snapshot_shows}

get_value_first :
    (es : List (ℕ × Variant)) (k : ℕ)
    → top_value (get_value es k) ≡ first_or_empty (values_for k es)
unfolding get_value top_value
get_value_first [] k = refl
get_value_first ((a, v) ∷ es) k = elim (Bool-cases (a == k)) [
  | inl e ↦ rw e refl
  | inr e ↦ rw e (get_value_first es k)
]

record_get :
    (r : SnapshotRecord) (a : Attr)
    → a.id ≢ inv_id
    → a.store_as_value ≡ true
    → SnapshotRecord.get r a ≡ get_value r.imms a.id
unfolding SnapshotRecord.get
record_get r a valid as_value =
    let t : a.id == inv_id ≡ false = ground arith in rw (t, as_value) refl

if_visible {ℓ} :
    {A : Type ℓ} (p q : Bool) (x y : A) → p ≡ true → q ≡ false → (if p && not q then x else y) ≡ x
if_visible p q x y h g = rw (h, g) refl

-- The attribute's value in a snapshot of a well-formed blackboard that fits a fresh record is the value
-- that the blackboard has, for a valid attribute stored as a value and not hidden.
pub snapshot-get :
    (attrs : ℕ → Attr) (b : ContextBuffer) (n : ℕ) (a : Attr)
    → IsContext attrs b
    → attrs a.id ≡ a
    → length b.nodes ≤ n
    → length b.slots ≤ n
    → a.id ≢ inv_id
    → a.store_as_value ≡ true
    → a.is_hidden ≡ false
    → some (top_value (SnapshotRecord.get (snapshot b (fixed n)) a)) ≡ get b a
unfolding fixed
snapshot-get attrs b n a c kind h g valid as_value visible =
    let (es, run, value, _) =
      snapshot_shows attrs b (fixed n) a c kind (omega arith) (omega arith) in
    ap (λ (s : SnapshotRecord). some (top_value (SnapshotRecord.get s a))) run
    ∙ (ap (λ (e : Entry). some (top_value e))
          (record_get (record (fixed n) { nodes = b.nodes; imms = es }) a valid as_value)
        ∙ (ap some (get_value_first es a.id)
            ∙ (value
                ∙ if_visible a.store_as_value a.is_hidden (get b a) (some empty_variant) as_value
                    visible)))
