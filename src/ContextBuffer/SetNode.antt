-- ===== src/ContextBuffer/SetNode.antt =====
-- `get` and `get_node` after `set_node`.
use caliper.Base.{true-false}
use caliper.Base.{ℕ, zero, suc, ◌+◌, ◌<◌, ◌≡◌, inl, inr, refl, sym, ap, ◌∙◌, subst, arith, ltb}
use caliper.Base.{
  if◌then◌else◌, ◌==◌, Bool, Bool-cases, Option-cases, true, false, length-append, All-mono,
}
use caliper.Base.{
  List, [], ◌∷◌, ◌++◌, Option, none, some, length, get_elem?, set, take, drop, min,
  take-append-drop, length-take, All, length-set, get_elem?-lt,
}
use caliper.Base.{get_elem?-set_self}
use caliper.Base.Memory.{get_elem?-append}
use caliper.Node.{Node, NodePtr}
use caliper.Variant.{Variant, make_uint}
use caliper.Attribute.{Attr}
use caliper.ContextBuffer.{
  Slot, ContextBuffer, find, get_node, note_max, move_to, swap_back, update_slot, add_node_slot,
  update_node, put_node, set_node, set_node_if,
}
use caliper.ContextBuffer.Slots.{matching, find-none}
use caliper.ContextBuffer.Moves.{rotate, length-rotate, All-append, All-rotate}
use caliper.ContextBuffer.Regions.{IsNode, IsHidden, IsData, locate, IsContext}
use caliper.ContextBuffer.Insert.{
  Updated, Stored, Stored-get, Stored-once, new_slot, update_slot-IsContext,
}
use caliper.ContextBuffer.Slots.{find-Split, find-prefix, find-last, find-set}
use caliper.ContextBuffer.NodeUpdates.{take_append, place_node, place_other, place_own}

take-set {ℓ} :
    {A : Type ℓ} (n : ℕ) (xs : List A) (i : ℕ) (t : A) → take n (set xs i t) ≡ set (take n xs) i t
take-set zero xs i t = refl
take-set (suc n) [] i t = refl
take-set (suc n) (x ∷ xs) zero t = refl
take-set {A} (suc n) (x ∷ xs) (suc i) t = ap (λ (l : List A). x ∷ l) (take-set n xs i t)

get_elem?-take {ℓ} :
    {A : Type ℓ} (n : ℕ) (xs : List A) (i : ℕ) → i < n → get_elem? (take n xs) i ≡ get_elem? xs i
get_elem?-take zero xs i h = absurd (omega arith)
get_elem?-take (suc n) [] i h = refl
get_elem?-take (suc n) (x ∷ xs) zero h = refl
get_elem?-take (suc n) (x ∷ xs) (suc i) h = get_elem?-take n xs i (omega arith)

some_inj {ℓ} : {A : Type ℓ} {x y : A} → some x ≡ some y → x ≡ y
some_inj h = cc

get_node_at :
    (b : ContextBuffer) (a : Attr) (i : ℕ) (p : NodePtr)
    → find a.id (take b.num_nodes b.slots) ≡ some i
    → get_elem? b.nodes i ≡ some p
    → get_node b a ≡ some p
unfolding get_node
get_node_at b a i p h g = rw h g

update_slot_at :
    (b : ContextBuffer) (i : ℕ) (v : Variant) (s : Slot) (b' : ContextBuffer)
    → get_elem? b.slots i ≡ some s
    → update_slot b i v ≡ some b'
    → b' ≡ record b { slots = set b.slots i (record s { value = v }) }
unfolding update_slot
update_slot_at b i v s b' h g =
    let run : update_slot b i v
        ≡ some (record b { slots = set b.slots i (record s { value = v }) }) =
      rw h refl in
    some_inj (sym g ∙ run)

add_node_run :
    (b : ContextBuffer) (a : Attr) (id : ℕ) (node : NodePtr) (first second : List Slot)
    → move_to
        (b.slots ++ (record { key = a.id; attr = make_uint a.id; value = make_uint id } ∷ []))
        b.num_nodes
      ≡ some first
    → (if ltb 0 b.num_hidden then swap_back first (b.num_nodes + b.num_hidden) else some first)
      ≡ some second
    → add_node_slot b a id node
      ≡ some
          (record b { slots = second; nodes = b.nodes ++ (node ∷ []); num_nodes = b.num_nodes + 1 })
unfolding add_node_slot
add_node_run b a id node first second h g = rw (h, g) refl

set_node_if_run :
    (as_value : Bool) (b : ContextBuffer) (a : Attr) (n : Node) (up : NodePtr) (b' : ContextBuffer)
    → as_value ≡ false
    → put_node b a n.id (n ∷ up) (find a.id (take b.num_nodes b.slots)) ≡ some b'
    → set_node_if as_value b a (n ∷ up) ≡ some (note_max b', true)
unfolding set_node_if
set_node_if_run true b a n up b' h g = absurd (true-false h)
set_node_if_run false b a n up b' h g = rw g refl

module _ (attrs : ℕ → Attr) where
  -- A well-formed blackboard behind `set_node`, with the node stored.
  abbrev NodePutBy : ContextBuffer → Attr → ℕ → NodePtr → Option ContextBuffer → Type 0
  NodePutBy b a id node result =
      (b' : ContextBuffer) × (result ≡ some b')
      × IsContext attrs b'
      × Stored b b' a.id (make_uint id ∷ [])
      × (get_node b' a ≡ some node)

  update_node_with :
      (b : ContextBuffer) (a : Attr) (id : ℕ) (node : NodePtr) (i : ℕ) (s : Slot) (old : NodePtr)
      → IsContext attrs b
      → find a.id (take b.num_nodes b.slots) ≡ some i
      → i < b.num_nodes
      → get_elem? b.slots i ≡ some s
      → get_elem? b.nodes i ≡ some old
      → NodePutBy b a id node (update_node b i id node)
  unfolding update_node
  update_node_with b a id node i s old c f lo hs ho =
      let v = make_uint id in
      let t : Slot = record s { value = v } in
      let b₁ : ContextBuffer = record b { slots = set b.slots i t } in
      let b₂ : ContextBuffer = record b₁ { nodes = set b.nodes i node } in
      let everywhere : find a.id b.slots ≡ some i =
        ap (find a.id) (sym (take-append-drop b.num_nodes b.slots))
        ∙ find-prefix a.id (take b.num_nodes b.slots) (drop b.num_nodes b.slots) i f in
      let (b', run, good, stored) =
        update_slot-IsContext attrs b a.id i v c (locate attrs a.id i c.regions everywhere) in
      let same : b' ≡ b₁ = update_slot_at b i v s b' hs run in
      let good₁ : IsContext attrs b₁ = subst (IsContext attrs) same good in
      let stored₁ : Stored b b₁ a.id (v ∷ []) =
        subst (λ (x : ContextBuffer). Stored b x a.id (v ∷ [])) same stored in
      let front : get_elem? (take b.num_nodes b.slots) i ≡ some s =
        get_elem?-take b.num_nodes b.slots i lo ∙ hs in
      let found : find a.id (take b.num_nodes (set b.slots i t)) ≡ some i =
        ap (find a.id) (take-set b.num_nodes b.slots i t)
        ∙ (find-set a.id (take b.num_nodes b.slots) i s t front refl ∙ f) in
      (
        b₂,
        rw (hs, ho) refl,
        record {
          regions = good₁.regions;
          once = good₁.once;
          nodes_counted = length-set b.nodes i node ∙ c.nodes_counted;
        },
        record { own = stored₁.own; others = stored₁.others },
        get_node_at b₂ a i node found
            (get_elem?-set_self b.nodes i node (omega (arith, c.nodes_counted))),
      )

  update_node-IsContext :
      (b : ContextBuffer) (a : Attr) (id : ℕ) (node : NodePtr) (i : ℕ)
      → IsContext attrs b
      → find a.id (take b.num_nodes b.slots) ≡ some i
      → NodePutBy b a id node (update_node b i id node)
  update_node-IsContext b a id node i c f =
      let s = find-Split a.id (take b.num_nodes b.slots) i f in
      let size : min b.num_nodes (length b.slots) ≡ i + (1 + length s.behind) =
        sym (length-take b.num_nodes b.slots)
        ∙ (ap length s.layout
            ∙ (length-append s.before (s.slot ∷ s.behind) ∙ omega (arith, s.place))) in
      let (slot, hs) = get_elem?-lt b.slots i (omega (arith, size)) in
      let (old, ho) = get_elem?-lt b.nodes i (omega (arith, size, c.nodes_counted)) in
      update_node_with b a id node i slot old c f (omega (arith, size)) hs ho

  -- A node attribute does not stand among the slots of the others.
  pub other_kind :
      (k : ℕ) (xs : List Slot)
      → (attrs k).store_as_value ≡ false
      → All (λ (s : Slot). (attrs s.key).store_as_value ≡ true) xs
      → matching k xs ≡ []
  other_kind k [] h g = refl
  other_kind k (s ∷ ss) h (e, g) = elim (Bool-cases (s.key == k)) [
    | inl same ↦
        let t : s.key ≡ k = ground arith in
        absurd (true-false (sym e ∙ (ap (λ (x : ℕ). (attrs x).store_as_value) t ∙ h)))
    | inr off ↦ rw off (other_kind k ss h g)
  ]

  add_node_slot-IsContext :
      (b : ContextBuffer) (a : Attr) (id : ℕ) (node : NodePtr)
      → IsContext attrs b
      → attrs a.id ≡ a
      → a.store_as_value ≡ false
      → find a.id (take b.num_nodes b.slots) ≡ none
      → NodePutBy b a id node (add_node_slot b a id node)
  add_node_slot-IsContext b a id node c kind as_node f =
      let r = c.regions in
      let N = r.node_slots in
      let H = r.hidden_slots in
      let D = r.data_slots in
      let new = new_slot attrs a (make_uint id) in
      let slots' = (N ++ (new ∷ [])) ++ (rotate H ++ rotate D) in
      let b' : ContextBuffer = record b {
        slots = slots';
        nodes = b.nodes ++ (node ∷ []);
        num_nodes = b.num_nodes + 1;
      } in
      let (first, run, run') =
        place_node N H D new b.num_nodes b.num_hidden r.nodes_end r.hidden_end in
      let of_kind : (attrs a.id).store_as_value ≡ false = ap Attr.store_as_value kind ∙ as_node in
      let front : take b.num_nodes b.slots ≡ N =
        ap (take b.num_nodes) r.layout ∙ take_append N (H ++ D) b.num_nodes r.nodes_end in
      let fresh : find a.id N ≡ none = ap (find a.id) (sym front) ∙ f in
      let stored : Stored b b' a.id (make_uint id ∷ []) = record {
        own =
            place_own N H D new (find-none a.id N fresh)
              (other_kind a.id H of_kind (All-mono (λ s e. e.0) H r.hidden_kind))
              (other_kind a.id D of_kind (All-mono (λ s e. e.0) D r.data_kind));
        others = λ k h.
            place_other k N H D new h
              (omega (arith, c.once k, ap (λ (t : List Slot). length (matching k t)) r.layout))
            ∙ sym (ap (matching k) r.layout);
      } in
      let more : b.num_nodes + 1 ≡ length (N ++ (new ∷ [])) =
        omega (arith, r.nodes_end, length-append N (new ∷ [])) in
      (
        b',
        add_node_run b a id node first slots'
            (ap (λ (t : List Slot). move_to (t ++ (new ∷ [])) b.num_nodes) r.layout ∙ run) run',
        record {
          regions = record {
            node_slots = N ++ (new ∷ []);
            hidden_slots = rotate H;
            data_slots = rotate D;
            layout = refl;
            nodes_end = more;
            hidden_end = omega (arith, r.hidden_end, length-rotate H);
            nodes_kind = All-append (IsNode attrs) N (new ∷ []) r.nodes_kind (of_kind, tt);
            hidden_kind = All-rotate (IsHidden attrs) H r.hidden_kind;
            data_kind = All-rotate (IsData attrs) D r.data_kind;
          };
          once = Stored-once stored (omega arith) c.once;
          nodes_counted = omega (arith, c.nodes_counted, length-append b.nodes (node ∷ []));
        },
        stored,
        get_node_at b' a (length N) node
            (ap (find a.id) (take_append (N ++ (new ∷ [])) (rotate H ++ rotate D) _ more)
              ∙ find-last a.id N new refl fresh)
            (get_elem?-append b.nodes node [] (length N)
              (omega (arith, c.nodes_counted, r.nodes_end))),
      )

  put_node-IsContext :
      (b : ContextBuffer) (a : Attr) (id : ℕ) (node : NodePtr)
      → IsContext attrs b
      → attrs a.id ≡ a
      → a.store_as_value ≡ false
      → NodePutBy b a id node (put_node b a id node (find a.id (take b.num_nodes b.slots)))
  put_node-IsContext b a id node c kind as_node =
      elim (Option-cases (find a.id (take b.num_nodes b.slots))) [
        | inl e ↦ rw e (add_node_slot-IsContext b a id node c kind as_node e)
        | inr (i, e) ↦ rw e (update_node-IsContext b a id node i c e)
      ]

  -- `set_node` of a node attribute on a well-formed blackboard never leaves the vectors and keeps it
  -- well formed; `get_node` then gives the node, and `get` its id for the attribute and the old values
  -- for all others.
  pub get-set_node :
      (b : ContextBuffer) (a : Attr) (n : Node) (up : NodePtr)
      → IsContext attrs b
      → attrs a.id ≡ a
      → a.store_as_value ≡ false
      → (b' : ContextBuffer) × (set_node b a (n ∷ up) ≡ some (b', true))
        × IsContext attrs b'
        × Updated b b' a.id (make_uint n.id)
        × (get_node b' a ≡ some (n ∷ up))
  unfolding get_node set_node
  get-set_node b a n up c kind as_node =
      let (b', run, good, stored, node) = put_node-IsContext b a n.id (n ∷ up) c kind as_node in
      (
        note_max b',
        set_node_if_run a.store_as_value b a n up b' as_node run,
        record { regions = good.regions; once = good.once; nodes_counted = good.nodes_counted },
        Stored-get (record { own = stored.own; others = stored.others }),
        node,
      )
