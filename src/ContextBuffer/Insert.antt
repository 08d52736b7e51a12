-- ===== src/ContextBuffer/Insert.antt =====
-- The places where `set` puts slots, and that the blackboard stays well formed.
use caliper.Base.{ℕ, ◌+◌, ◌≤◌, ◌≡◌, ◌≢◌, inl, inr, refl, sym, ap, ◌∙◌, subst, arith}
use caliper.Base.{if◌then◌else◌, ◌==◌, true, false, Bool-cases, length-append, append_assoc}
use caliper.Base.{append-nil, List, [], ◌∷◌, ◌++◌, Option, some, length, get_elem?, set}
use caliper.Base.Memory.{get_elem?-append}
use caliper.Node.{NodePtr}
use caliper.Variant.{Variant, make_uint}
use caliper.Attribute.{Attr}
use caliper.ContextBuffer.{Slot, ContextBuffer, get, update_slot, move_to}
use caliper.ContextBuffer.Slots.{matching, first_or_empty, value_at-find}
use caliper.ContextBuffer.Moves.{rotate, All-append, All-rotate, set-append, move_to-snoc}
use caliper.ContextBuffer.Regions.{IsNode, IsHidden, IsData, Regions, Located, IsContext}
use caliper.ContextBuffer.Matching.{insert_other, insert_own, replace_other, replace_own}

-- `get` gives `v` for the attribute `k` and is as before for the others.
abbrev pub Updated : ContextBuffer → ContextBuffer → ℕ → Variant → Type 0
Updated b b' k v = (a : Attr) → get b' a ≡ (if a.id == k then some v else get b a)

-- The same on the values under a key.
pub record Stored (b b' : ContextBuffer) (k : ℕ) (vs : List Variant) : Type 0 where
  pub own : matching k b'.slots ≡ vs
  pub others : (k' : ℕ) → k ≢ k' → matching k' b'.slots ≡ matching k' b.slots

pub get-matching :
    (b : ContextBuffer) (a : Attr) → get b a ≡ some (first_or_empty (matching a.id b.slots))
unfolding get
get-matching b a = value_at-find a.id b.slots

pub Stored-get :
    {b b' : ContextBuffer} {k : ℕ} {vs : List Variant}
    → Stored b b' k vs
    → (a : Attr) → get b' a ≡ (if a.id == k then some (first_or_empty vs) else get b a)
Stored-get {b} {b'} {k} {vs} s a = elim (Bool-cases (a.id == k)) [
  | inl e ↦
      let same : a.id ≡ k = ground arith in
      rw e (
        get-matching b' a
        ∙ ap (λ (t : List Variant). some (first_or_empty t))
            (ap (λ (i : ℕ). matching i b'.slots) same ∙ s.own))
  | inr e ↦
      let differ : k ≢ a.id = ground arith in
      rw e (
        get-matching b' a
        ∙ (ap (λ (t : List Variant). some (first_or_empty t)) (s.others a.id differ)
            ∙ sym (get-matching b a)))
]

pub Stored-once :
    {b b' : ContextBuffer} {k : ℕ} {vs : List Variant}
    → Stored b b' k vs
    → length vs ≤ 1
    → ((i : ℕ) → length (matching i b.slots) ≤ 1)
    → (i : ℕ) → length (matching i b'.slots) ≤ 1
Stored-once {b} {b'} {k} {vs} s few once i = elim (Bool-cases (k == i)) [
  | inl e ↦
      let same : k ≡ i = ground arith in
      subst (λ (t : ℕ). length (matching t b'.slots) ≤ 1) same (omega (arith, ap length s.own))
  | inr e ↦
      let differ : k ≢ i = ground arith in omega (arith, once i, ap length (s.others i differ))
]

-- A new slot behind `pre`, with the first slot of `rest` moved to the end.
insert_Stored :
    (b b' : ContextBuffer) (pre rest : List Slot) (new : Slot)
    → b.slots ≡ pre ++ rest
    → b'.slots ≡ pre ++ (new ∷ rotate rest)
    → matching new.key b.slots ≡ []
    → ((k : ℕ) → length (matching k b.slots) ≤ 1)
    → Stored b b' new.key (new.value ∷ [])
insert_Stored b b' pre rest new from to fresh once = record {
  own =
      ap (matching new.key) to
      ∙ insert_own new.key pre rest new refl (sym (ap (matching new.key) from) ∙ fresh);
  others = λ k h.
      ap (matching k) to
      ∙ (insert_other k pre rest new h
            (omega (arith, once k, ap (λ (t : List Slot). length (matching k t)) from))
          ∙ sym (ap (matching k) from));
}

pub no_elements {ℓ} : {A : Type ℓ} (xs : List A) → length xs ≤ 0 → xs ≡ []
no_elements [] h = refl
no_elements (x ∷ xs) h = absurd (omega arith)

module _ (attrs : ℕ → Attr) where
  -- A well-formed blackboard behind the operation, with `v` stored.
  abbrev pub PutBy : ContextBuffer → ℕ → Variant → Option ContextBuffer → Type 0
  PutBy b k v result =
      (b' : ContextBuffer) × (result ≡ some b') × IsContext attrs b' × Stored b b' k (v ∷ [])

  pub resize :
      {slots : List Slot} {n h n' h' : ℕ}
      → Regions attrs slots n h
      → n ≡ n'
      → h ≡ h'
      → Regions attrs slots n' h'
  resize {slots} {n} {h} {n'} r e f =
      subst (λ (x : ℕ). Regions attrs slots n' x) f (subst (λ (x : ℕ). Regions attrs slots x h) e r)

  pub update_slot-IsContext :
      (b : ContextBuffer) (k i : ℕ) (v : Variant)
      → IsContext attrs b
      → Located attrs b.slots b.num_nodes b.num_hidden k i
      → PutBy b k v (update_slot b i v)
  unfolding update_slot
  update_slot-IsContext b k i v c l =
      let s = l.at in
      let new : Slot = record s.slot { value = v } in
      let here : get_elem? b.slots i ≡ some s.slot =
        ap (λ (t : List Slot). get_elem? t i) s.layout
        ∙ get_elem?-append s.before s.slot s.behind i s.place in
      let whole : set b.slots i new ≡ s.before ++ (new ∷ s.behind) =
        ap (λ (t : List Slot). set t i new) s.layout
        ∙ set-append s.before s.slot s.behind i new s.place in
      let stored : Stored b (record b { slots = s.before ++ (new ∷ s.behind) }) k (v ∷ []) =
        record {
          own = replace_own k i s (new ∷ []) (c.once k) (s.keyed, tt);
          others = λ k' h. replace_other k i k' s (new ∷ []) h (s.keyed, tt);
        } in
      (
        record b { slots = s.before ++ (new ∷ s.behind) },
        rw here (ap (λ (t : List Slot). some (record b { slots = t })) whole),
        record {
          regions = resize (l.replaced (new ∷ []) (s.keyed, tt)) (ground arith) (ground arith);
          once = Stored-once stored (omega arith) c.once;
          nodes_counted = c.nodes_counted;
        },
        stored,
      )

  abbrev pub new_slot : Attr → Variant → Slot
  new_slot a v = record { key = a.id; attr = make_uint a.id; value = v }

  pub add_node-IsContext :
      (b : ContextBuffer) (a : Attr) (v : Variant) (node : NodePtr)
      → IsContext attrs b
      → attrs a.id ≡ a
      → a.store_as_value ≡ false
      → b.num_hidden ≡ 0
      → matching a.id b.slots ≡ []
      → (moved : List Slot) × (move_to (b.slots ++ (new_slot a v ∷ [])) b.num_nodes ≡ some moved)
        × IsContext attrs (record b {
          slots = moved;
          nodes = b.nodes ++ (node ∷ []);
          num_nodes = b.num_nodes + 1;
        })
        × Stored b
            (record b {
              slots = moved;
              nodes = b.nodes ++ (node ∷ []);
              num_nodes = b.num_nodes + 1;
            })
            a.id
            (v ∷ [])
  add_node-IsContext b a v node c kind as_node no_hidden fresh =
      let r = c.regions in
      let new = new_slot a v in
      let empty : r.hidden_slots ≡ [] = no_elements r.hidden_slots (omega (arith, r.hidden_end)) in
      let from : b.slots ≡ r.node_slots ++ r.data_slots =
        r.layout ∙ ap (λ (t : List Slot). r.node_slots ++ (t ++ r.data_slots)) empty in
      let moved = r.node_slots ++ (new ∷ rotate r.data_slots) in
      let b' : ContextBuffer = record b {
        slots = moved;
        nodes = b.nodes ++ (node ∷ []);
        num_nodes = b.num_nodes + 1;
      } in
      let stored : Stored b b' a.id (v ∷ []) =
        insert_Stored b b' r.node_slots r.data_slots new from refl fresh c.once in
      (
        moved,
        ap (λ (t : List Slot). move_to (t ++ (new ∷ [])) b.num_nodes) from
            ∙ move_to-snoc r.node_slots r.data_slots new b.num_nodes r.nodes_end,
        record {
          regions = record {
            node_slots = r.node_slots ++ (new ∷ []);
            hidden_slots = [];
            data_slots = rotate r.data_slots;
            layout = sym (append_assoc r.node_slots (new ∷ []) (rotate r.data_slots));
            nodes_end = omega (arith, r.nodes_end, length-append r.node_slots (new ∷ []));
            hidden_end = no_hidden;
            nodes_kind =
                All-append (IsNode attrs) r.node_slots (new ∷ []) r.nodes_kind
                  (ap Attr.store_as_value kind ∙ as_node, tt);
            hidden_kind = tt;
            data_kind = All-rotate (IsData attrs) r.data_slots r.data_kind;
          };
          once = Stored-once stored (omega arith) c.once;
          nodes_counted = omega (arith, c.nodes_counted, length-append b.nodes (node ∷ []));
        },
        stored,
      )

  pub add_hidden-IsContext :
      (b : ContextBuffer) (a : Attr) (v : Variant)
      → IsContext attrs b
      → attrs a.id ≡ a
      → a.store_as_value ≡ true
      → a.is_hidden ≡ true
      → matching a.id b.slots ≡ []
      → (moved : List Slot) × (move_to (b.slots ++ (new_slot a v ∷ [])) (b.num_nodes + b.num_hidden)
          ≡ some moved)
        × IsContext attrs (record b { slots = moved; num_hidden = b.num_hidden + 1 })
        × Stored b (record b { slots = moved; num_hidden = b.num_hidden + 1 }) a.id (v ∷ [])
  add_hidden-IsContext b a v c kind as_value hidden fresh =
      let r = c.regions in
      let new = new_slot a v in
      let pre = r.node_slots ++ r.hidden_slots in
      let from : b.slots ≡ pre ++ r.data_slots =
        r.layout ∙ sym (append_assoc r.node_slots r.hidden_slots r.data_slots) in
      let moved = pre ++ (new ∷ rotate r.data_slots) in
      let b' : ContextBuffer = record b { slots = moved; num_hidden = b.num_hidden + 1 } in
      let stored : Stored b b' a.id (v ∷ []) =
        insert_Stored b b' pre r.data_slots new from refl fresh c.once in
      (
        moved,
        ap (λ (t : List Slot). move_to (t ++ (new ∷ [])) (b.num_nodes + b.num_hidden)) from
            ∙ move_to-snoc pre r.data_slots new (b.num_nodes + b.num_hidden) (
                omega
                  (arith, r.nodes_end, r.hidden_end, length-append r.node_slots r.hidden_slots)),
        record {
          regions = record {
            node_slots = r.node_slots;
            hidden_slots = r.hidden_slots ++ (new ∷ []);
            data_slots = rotate r.data_slots;
            layout = simp append_assoc;
            nodes_end = r.nodes_end;
            hidden_end = omega (arith, r.hidden_end, length-append r.hidden_slots (new ∷ []));
            nodes_kind = r.nodes_kind;
            hidden_kind =
                All-append (IsHidden attrs) r.hidden_slots (new ∷ []) r.hidden_kind
                  ((ap Attr.store_as_value kind ∙ as_value, ap Attr.is_hidden kind ∙ hidden), tt);
            data_kind = All-rotate (IsData attrs) r.data_slots r.data_kind;
          };
          once = Stored-once stored (omega arith) c.once;
          nodes_counted = c.nodes_counted;
        },
        stored,
      )

  pub add_data-IsContext :
      (b : ContextBuffer) (a : Attr) (v : Variant)
      → IsContext attrs b
      → attrs a.id ≡ a
      → a.store_as_value ≡ true
      → a.is_hidden ≡ false
      → matching a.id b.slots ≡ []
      → PutBy b a.id v (some (record b { slots = b.slots ++ (new_slot a v ∷ []) }))
  add_data-IsContext b a v c kind as_value visible fresh =
      let r = c.regions in
      let new = new_slot a v in
      let b' : ContextBuffer = record b { slots = b.slots ++ (new ∷ []) } in
      let stored : Stored b b' a.id (v ∷ []) =
        insert_Stored b b' b.slots [] new (sym (append-nil b.slots)) refl fresh c.once in
      (
        b',
        refl,
        record {
          regions = record {
            node_slots = r.node_slots;
            hidden_slots = r.hidden_slots;
            data_slots = r.data_slots ++ (new ∷ []);
            layout = ap (λ (t : List Slot). t ++ (new ∷ [])) r.layout ∙ simp append_assoc;
            nodes_end = r.nodes_end;
            hidden_end = r.hidden_end;
            nodes_kind = r.nodes_kind;
            hidden_kind = r.hidden_kind;
            data_kind =
                All-append (IsData attrs) r.data_slots (new ∷ []) r.data_kind
                  ((ap Attr.store_as_value kind ∙ as_value, ap Attr.is_hidden kind ∙ visible), tt);
          };
          once = Stored-once stored (omega arith) c.once;
          nodes_counted = c.nodes_counted;
        },
        stored,
      )
