-- ===== src/Entry/Laws.antt =====
-- `count` and `value(attr_id)` together.
use caliper.Base.{ℕ, ◌≡◌, ◌≢◌, refl, arith, [], ◌∷◌}
use caliper.Node.{NodePtr, inv_id}
use caliper.Variant.{Variant, empty_variant}
use caliper.Entry.{Entry, count_nodes, count_of, count, find_value, value_at, value_of}

find_value_none :
    (attr : ℕ) (p : NodePtr) → count_nodes attr p ≡ 0 → find_value attr p ≡ empty_variant
unfolding count_nodes find_value
find_value_none attr [] h = refl
find_value_none attr (n ∷ up) h = ground (arith, find_value_none attr up)

value_at_none :
    (p : NodePtr) (a : ℕ) (v : Variant) (attr : ℕ)
    → attr ≢ inv_id
    → count_of p a attr ≡ 0
    → value_at p a v attr ≡ empty_variant
value_at_none [] a v attr h z = ground arith
value_at_none (n ∷ up) a v attr h z = find_value_none attr (n ∷ up) z

-- An entry that counts no instance of a valid attribute has the empty value for it.
pub value_of_none :
    (e : Entry) (attr : ℕ) → attr ≢ inv_id → count e attr ≡ 0 → value_of e attr ≡ empty_variant
unfolding count value_of
value_of_none e attr h z = value_at_none e.node e.attr_id e.value attr h z
