-- ===== src/ContextBuffer.antt =====
-- src/caliper/ContextBuffer.cpp: the blackboard with the current value of every attribute. The vectors
-- `m_keys`, `m_attr` and `m_data` always change together and stand as one list of slots. The spinlock makes
-- each operation one step. `none` is an access behind a vector or a failed assertion.
pub mod Slots
pub mod Moves
pub mod Regions
pub mod Matching
pub mod Insert
pub mod Updates
pub mod Removal
pub mod NodeUpdates
pub mod SetNode
pub mod Visible
pub mod ReadBack
pub mod Exposed
use caliper.Base.{ℕ, zero, suc, ◌+◌, ◌-◌, max, ltb, ◌==◌, if◌then◌else◌, Bool, true, false, ◌||◌}
use caliper.Base.{
  List, [], ◌∷◌, ◌++◌, map, Option, none, some, ◌>>=◌, length, get_elem?, set, take, drop,
}
use caliper.Attribute.{Attr}
use caliper.Node.{NodePtr}
use caliper.Variant.{Variant, empty_variant, empty, make_uint}
use caliper.SnapshotRecord.{SnapshotRecord, append}

pub record Slot : Type 0 where
  pub key : ℕ
  pub attr : Variant
  pub value : Variant

pub record ContextBuffer : Type 0 where
  pub slots : List Slot
  pub nodes : List NodePtr
  pub num_nodes : ℕ
  pub num_hidden : ℕ
  pub max_entries : ℕ

unfoldable pub new_buffer : ContextBuffer
new_buffer = record { slots = []; nodes = []; num_nodes = 0; num_hidden = 0; max_entries = 0 }

-- `std::find` for a key.
abbrev pub next : Option ℕ → Option ℕ
next none = none
next (some i) = some (suc i)

unfoldable pub find : ℕ → List Slot → Option ℕ
find k [] = none
find k (s ∷ ss) = let rest = find k ss in if s.key == k then some 0 else next rest

abbrev pub value_at : List Slot → Option ℕ → Option Variant
value_at slots none = some empty_variant
value_at slots (some i) = do s ← get_elem? slots i; some s.value

unfoldable pub get : ContextBuffer → Attr → Option Variant
get b a = value_at b.slots (find a.id b.slots)

abbrev pub node_at : List NodePtr → Option ℕ → Option NodePtr
node_at nodes none = some []
node_at nodes (some i) = get_elem? nodes i

-- `get_node`; the null pointer is the empty path.
unfoldable pub get_node : ContextBuffer → Attr → Option NodePtr
get_node b a = node_at b.nodes (find a.id (take b.num_nodes b.slots))

-- `std::swap` of the last slot with slot `n`.
unfoldable pub swap_back : List Slot → ℕ → Option (List Slot)
swap_back slots n = do
  x ← get_elem? slots n
  y ← get_elem? slots (length slots - 1)
  some (set (set slots n y) (length slots - 1) x)

-- The same under the source's guard.
unfoldable pub move_to : List Slot → ℕ → Option (List Slot)
move_to slots n = if ltb n (length slots - 1) then swap_back slots n else some slots

-- The branch of `set` that updates a slot.
unfoldable pub update_slot : ContextBuffer → ℕ → Variant → Option ContextBuffer
update_slot b i v = do
  s ← get_elem? b.slots i
  some (record b { slots = set b.slots i (record s { value = v }) })

-- The branch that adds one.
unfoldable pub add_slot : ContextBuffer → Attr → Variant → Option ContextBuffer
unfolding move_to
add_slot b a v =
    let slots = b.slots ++ (record { key = a.id; attr = make_uint a.id; value = v } ∷ []) in
    let as_node : Option ContextBuffer = move_to slots b.num_nodes >>= (λ moved.
      some
        (record b { slots = moved; nodes = b.nodes ++ ([] ∷ []); num_nodes = b.num_nodes + 1 })) in
    let as_hidden : Option ContextBuffer =
      move_to slots (b.num_nodes + b.num_hidden)
      >>= (λ moved. some (record b { slots = moved; num_hidden = b.num_hidden + 1 })) in
    if a.store_as_value
    then (if a.is_hidden then as_hidden else some (record b { slots = slots }))
    else as_node

abbrev pub put : ContextBuffer → Attr → Variant → Option ℕ → Option ContextBuffer
put b a v (some i) = update_slot b i v
put b a v none = add_slot b a v

abbrev pub note_max : ContextBuffer → ContextBuffer
note_max b = record b { max_entries = max b.max_entries (length b.slots) }

-- `set`, which always returns `CALI_SUCCESS`.
unfoldable pub set_value : ContextBuffer → Attr → Variant → Option ContextBuffer
set_value b a v = put b a v (find a.id b.slots) >>= λ b'. some (note_max b')

-- `exchange`: the new state and the old value. The search starts behind the nodes.
unfoldable pub exchange : ContextBuffer → Attr → Variant → Option (ContextBuffer × Variant)
exchange b a v = elim (find a.id (drop b.num_nodes b.slots)) [
  | none ↦ do b' ← set_value b a v; some (b', empty_variant)
  | some i ↦ do
    s ← get_elem? b.slots (b.num_nodes + i)
    b₁ ← update_slot b (b.num_nodes + i) v
    b₂ ← elim (empty s.value) [ true ↦ set_value b₁ a v | false ↦ some b₁ ]
    some (b₂, s.value)
]

-- The branch of `set_node` that adds a slot.
unfoldable pub add_node_slot : ContextBuffer → Attr → ℕ → NodePtr → Option ContextBuffer
unfolding move_to
add_node_slot b a id node = do
  let slots = b.slots ++ (record { key = a.id; attr = make_uint a.id; value = make_uint id } ∷ [])
  first ← move_to slots b.num_nodes
  second ← if ltb 0 b.num_hidden then swap_back first (b.num_nodes + b.num_hidden) else some first
  some (record b { slots = second; nodes = b.nodes ++ (node ∷ []); num_nodes = b.num_nodes + 1 })

unfoldable pub update_node : ContextBuffer → ℕ → ℕ → NodePtr → Option ContextBuffer
update_node b i id node = do
  s ← get_elem? b.slots i
  old ← get_elem? b.nodes i
  some (record b {
    slots = set b.slots i (record s { value = make_uint id });
    nodes = set b.nodes i node;
  })

abbrev pub put_node : ContextBuffer → Attr → ℕ → NodePtr → Option ℕ → Option ContextBuffer
put_node b a id node (some i) = update_node b i id node
put_node b a id node none = add_node_slot b a id node

-- `set_node`; `false` is the answer `CALI_EINV`, for a null pointer or an attribute stored as a value.
unfoldable pub set_node_if : Bool → ContextBuffer → Attr → NodePtr → Option (ContextBuffer × Bool)
set_node_if as_value b a [] = some (b, false)
set_node_if true b a (n ∷ up) = some (b, false)
set_node_if false b a (n ∷ up) = do
  b' ← put_node b a n.id (n ∷ up) (find a.id (take b.num_nodes b.slots))
  some (note_max b', true)

unfoldable pub set_node : ContextBuffer → Attr → NodePtr → Option (ContextBuffer × Bool)
set_node b a node = set_node_if a.store_as_value b a node

-- `erase` of one element; behind the end it does nothing.
abbrev pub erase {ℓ} : {A : Type ℓ} → List A → ℕ → List A
erase [] i = []
erase (x ∷ xs) zero = xs
erase (x ∷ xs) (suc i) = x ∷ erase xs i

abbrev pub remove : ContextBuffer → Option ℕ → ContextBuffer
remove b none = b
remove b (some n) = record b {
  slots = erase b.slots n;
  nodes = if ltb n (length b.nodes) then erase b.nodes n else b.nodes;
  num_nodes = if ltb n b.num_nodes then b.num_nodes - 1 else b.num_nodes;
  num_hidden =
      if ltb n b.num_nodes
      then b.num_hidden
      else if ltb n (b.num_nodes + b.num_hidden)
      then b.num_hidden - 1
      else b.num_hidden;
}

-- `unset`, which always returns `CALI_SUCCESS`.
unfoldable pub unset : ContextBuffer → Attr → ContextBuffer
unset b a = remove b (find a.id b.slots)

abbrev pub slot_pair : Slot → ℕ × Variant
slot_pair s = (s.key, s.value)

-- `snapshot`: the nodes and the visible values go to the record.
unfoldable pub snapshot : ContextBuffer → SnapshotRecord → SnapshotRecord
snapshot b r =
    let p = b.num_nodes + b.num_hidden in
    let n = length b.slots - p in
    if ltb 0 (b.num_nodes + n)
    then append r (take b.num_nodes b.nodes) (map slot_pair (drop p b.slots))
    else r
