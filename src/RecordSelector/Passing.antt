-- ===== src/RecordSelector/Passing.antt =====
-- What the records that pass have.
use caliper.Base.{ℕ, ◌≡◌, ◌⊎◌, ◌==◌, ◌||◌, if◌then◌else◌, Bool, true, false}
use caliper.Base.{List, [], ◌∷◌, ◌++◌, All}
use caliper.Variant.{Variant}
use caliper.Node.{NodePtr, inv_id}
use caliper.Entry.{Entry, attribute}
use caliper.RecordSelector.{
  Op, no_op, exist, not_exist, equal, not_equal, less_than, greater_than, less_or_equal,
  greater_or_equal, Condition, Lookup, Clause, make_clause,
}

-- An attribute and a value.
abbrev pub Pair : Type 0
Pair = ℕ × Variant

abbrev pub path_pairs : NodePtr → List Pair
path_pairs [] = []
path_pairs (n ∷ up) = if n.id == inv_id then [] else (n.attribute, n.value) ∷ path_pairs up

abbrev pub entry_pairs : NodePtr → ℕ → Variant → List Pair
entry_pairs [] attr v = (attr, v) ∷ []
entry_pairs (n ∷ up) attr v = path_pairs (n ∷ up)

-- All attributes of a record with their values: those on the paths of its nodes, the root left out, and
-- those of its other entries.
abbrev pub pairs : List Entry → List Pair
pairs [] = []
pairs (e ∷ es) = entry_pairs e.node (attribute e) e.value ++ pairs es

abbrev pub Has : (Pair → Type 0) → List Pair → Type 0
Has P [] = ⊥
Has P (x ∷ xs) = P x ⊎ Has P xs

-- What a clause says, for the operators that `pass` knows.
abbrev pub Meets : Lookup → Op → Clause → List Pair → Type 0
Meets db exist c ps = Has (λ (a, v). a ≡ c.attr) ps
Meets db not_exist c ps = ¬ Has (λ (a, v). a ≡ c.attr) ps
Meets db equal c ps = Has (λ (a, v). (a ≡ c.attr) × (db.same v c.value ≡ true)) ps
Meets db not_equal c ps = ¬ Has (λ (a, v). (a ≡ c.attr) × (db.same v c.value ≡ true)) ps
Meets db no_op c ps = Unit
Meets db less_than c ps = Unit
Meets db greater_than c ps = Unit
Meets db less_or_equal c ps = Unit
Meets db greater_or_equal c ps = Unit

-- A test decides a predicate.
abbrev Decides : (ℕ → Variant → Bool) → (Pair → Type 0) → Type 0
Decides test P =
    (a : ℕ) (v : Variant) → ((test a v ≡ true) → P (a, v)) × (P (a, v) → (test a v ≡ true))

abbrev any_pair : (ℕ → Variant → Bool) → List Pair → Bool
any_pair test [] = false
any_pair test ((a, v) ∷ ps) = test a v || any_pair test ps

abbrev pub MeetsAll : Lookup → List Condition → List Entry → Type 0
MeetsAll db fs list =
    All (λ (f : Condition). Meets db (make_clause db f).op (make_clause db f) (pairs list)) fs
