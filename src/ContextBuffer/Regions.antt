-- ===== src/ContextBuffer/Regions.antt =====
-- The layout of a blackboard: the nodes' slots, then the hidden ones, then the visible values.
use caliper.Base.{ℕ, ◌+◌, ◌-◌, ◌≤◌, ◌≡◌, inl, inr, sym, ap, ◌∙◌, subst, arith, ltb}
use caliper.Base.{if◌then◌else◌, true, false, length-append, append_assoc, All, All-mono}
use caliper.Base.{List, ◌∷◌, ◌++◌, some, length}
use caliper.Attribute.{Attr}
use caliper.ContextBuffer.{Slot, ContextBuffer, find}
use caliper.ContextBuffer.Slots.{Split, matching, find-Split, find-append}
use caliper.ContextBuffer.Moves.{All-append, All-split}

abbrev pub Keyed : ℕ → Slot → Type 0
Keyed k s = s.key ≡ k

-- `attrs` tells what the attribute with an id is.
module _ (attrs : ℕ → Attr) where
  abbrev pub IsNode : Slot → Type 0
  IsNode s = (attrs s.key).store_as_value ≡ false

  abbrev pub IsHidden : Slot → Type 0
  IsHidden s = ((attrs s.key).store_as_value ≡ true) × ((attrs s.key).is_hidden ≡ true)

  abbrev pub IsData : Slot → Type 0
  IsData s = ((attrs s.key).store_as_value ≡ true) × ((attrs s.key).is_hidden ≡ false)

  pub record Regions (slots : List Slot) (num_nodes num_hidden : ℕ) : Type 0 where
    pub node_slots : List Slot
    pub hidden_slots : List Slot
    pub data_slots : List Slot
    pub layout : slots ≡ node_slots ++ (hidden_slots ++ data_slots)
    pub nodes_end : num_nodes ≡ length node_slots
    pub hidden_end : num_hidden ≡ length hidden_slots
    pub nodes_kind : All IsNode node_slots
    pub hidden_kind : All IsHidden hidden_slots
    pub data_kind : All IsData data_slots

  -- A well-formed blackboard: its slots lie in their regions, no key stands twice, and there is a
  -- node pointer for each node slot.
  pub record IsContext (b : ContextBuffer) : Type 0 where
    pub regions : Regions b.slots b.num_nodes b.num_hidden
    pub once : (k : ℕ) → length (matching k b.slots) ≤ 1
    pub nodes_counted : length b.nodes ≡ b.num_nodes

  -- The slot at `i` has the key `k`, and any slots with that key may stand in its place: the sizes
  -- of the regions change by the difference.
  pub record Located (slots : List Slot) (n h k i : ℕ) : Type 0 where
    pub at : Split slots k i
    pub replaced :
        (new : List Slot)
        → All (Keyed k) new
        → Regions
            (at.before ++ (new ++ at.behind))
            (if ltb i n then n - 1 + length new else n)
            (if ltb i n then h else if ltb i (n + h) then h - 1 + length new else h)

  -- A kind depends on the key alone.
  replace_kind :
      (P : ℕ → Type 0) (k : ℕ) (pre : List Slot) (s : Slot) (post new : List Slot)
      → s.key ≡ k
      → All (λ (t : Slot). P t.key) (pre ++ (s ∷ post))
      → All (Keyed k) new
      → All (λ (t : Slot). P t.key) (pre ++ (new ++ post))
  replace_kind P k pre s post new e h g =
      let Q : Slot → Type 0 = λ t. P t.key in
      let (hp, (hs, hq)) = All-split Q pre (s ∷ post) h in
      let as_kind : (t : Slot) → t.key ≡ k → P t.key = λ t f. subst P (e ∙ sym f) hs in
      All-append Q pre (new ++ post) hp (All-append Q new post (All-mono as_kind new g) hq)

  Split-length :
      {xs : List Slot} {k i : ℕ} (s : Split xs k i) → length xs ≡ i + (1 + length s.behind)
  Split-length s =
      ap length s.layout ∙ (length-append s.before (s.slot ∷ s.behind) ∙ omega (arith, s.place))

  replaced_length :
      {xs : List Slot} {k i : ℕ} (s : Split xs k i) (new : List Slot)
      → length (s.before ++ (new ++ s.behind)) ≡ i + (length new + length s.behind)
  replaced_length s new =
      length-append s.before (new ++ s.behind) ∙ omega (arith, s.place, length-append new s.behind)

  locate_node :
      (N H D : List Slot) (n h k i : ℕ)
      → n ≡ length N
      → h ≡ length H
      → All IsNode N
      → All IsHidden H
      → All IsData D
      → Split N k i
      → Located (N ++ (H ++ D)) n h k i
  locate_node N H D n h k i hn hh gn gh gd s = record {
    at = record {
      before = s.before;
      slot = s.slot;
      behind = s.behind ++ (H ++ D);
      layout =
          ap (λ (t : List Slot). t ++ (H ++ D)) s.layout
          ∙ append_assoc s.before (s.slot ∷ s.behind) (H ++ D);
      place = s.place;
      keyed = s.keyed;
    };
    replaced = λ new g. record {
      node_slots = s.before ++ (new ++ s.behind);
      hidden_slots = H;
      data_slots = D;
      layout = simp append_assoc;
      nodes_end = ground (arith, Split-length s, replaced_length s new);
      hidden_end = ground (arith, Split-length s);
      nodes_kind =
          replace_kind (λ a. (attrs a).store_as_value ≡ false) k s.before s.slot s.behind new
            s.keyed (subst (All IsNode) s.layout gn) g;
      hidden_kind = gh;
      data_kind = gd;
    };
  }

  locate_hidden :
      (N H D : List Slot) (n h k i j : ℕ)
      → n ≡ length N
      → h ≡ length H
      → All IsNode N
      → All IsHidden H
      → All IsData D
      → i ≡ length N + j
      → Split H k j
      → Located (N ++ (H ++ D)) n h k i
  locate_hidden N H D n h k i j hn hh gn gh gd at s = record {
    at = record {
      before = N ++ s.before;
      slot = s.slot;
      behind = s.behind ++ D;
      layout = ap (λ (t : List Slot). N ++ (t ++ D)) s.layout ∙ simp append_assoc;
      place = at ∙ (ap (λ (t : ℕ). length N + t) s.place ∙ sym (length-append N s.before));
      keyed = s.keyed;
    };
    replaced = λ new g. record {
      node_slots = N;
      hidden_slots = s.before ++ (new ++ s.behind);
      data_slots = D;
      layout = simp append_assoc;
      nodes_end = ground (arith, at);
      hidden_end = ground (arith, at, Split-length s, replaced_length s new);
      nodes_kind = gn;
      hidden_kind =
          replace_kind (λ a. ((attrs a).store_as_value ≡ true) × ((attrs a).is_hidden ≡ true)) k
            s.before s.slot s.behind new s.keyed (subst (All IsHidden) s.layout gh) g;
      data_kind = gd;
    };
  }

  locate_data :
      (N H D : List Slot) (n h k i j : ℕ)
      → n ≡ length N
      → h ≡ length H
      → All IsNode N
      → All IsHidden H
      → All IsData D
      → i ≡ length N + (length H + j)
      → Split D k j
      → Located (N ++ (H ++ D)) n h k i
  locate_data N H D n h k i j hn hh gn gh gd at s = record {
    at = record {
      before = N ++ (H ++ s.before);
      slot = s.slot;
      behind = s.behind;
      layout = ap (λ (t : List Slot). N ++ (H ++ t)) s.layout ∙ simp append_assoc;
      place = omega (arith, at, s.place, length-append N (H ++ s.before), length-append H s.before);
      keyed = s.keyed;
    };
    replaced = λ new g. record {
      node_slots = N;
      hidden_slots = H;
      data_slots = s.before ++ (new ++ s.behind);
      layout = simp append_assoc;
      nodes_end = ground (arith, at);
      hidden_end = ground (arith, at);
      nodes_kind = gn;
      hidden_kind = gh;
      data_kind =
          replace_kind (λ a. ((attrs a).store_as_value ≡ true) × ((attrs a).is_hidden ≡ false)) k
            s.before s.slot s.behind new s.keyed (subst (All IsData) s.layout gd) g;
    };
  }

  locate_in :
      (N H D : List Slot) (n h k i : ℕ)
      → n ≡ length N
      → h ≡ length H
      → All IsNode N
      → All IsHidden H
      → All IsData D
      → find k (N ++ (H ++ D)) ≡ some i
      → Located (N ++ (H ++ D)) n h k i
  locate_in N H D n h k i hn hh gn gh gd f = elim (find-append k N (H ++ D) i f) [
    | inl g ↦ locate_node N H D n h k i hn hh gn gh gd (find-Split k N i g)
    | inr (j, at, g) ↦ elim (find-append k H D j g) [
      | inl g' ↦ locate_hidden N H D n h k i j hn hh gn gh gd at (find-Split k H j g')
      | inr (l, at', g') ↦
          locate_data N H D n h k i l hn hh gn gh gd (at ∙ ap (λ (t : ℕ). length N + t) at')
            (find-Split k D l g')
    ]
  ]

  pub locate :
      {slots : List Slot} {n h : ℕ} (k i : ℕ)
      → Regions slots n h
      → find k slots ≡ some i
      → Located slots n h k i
  locate {n} {h} k i r f =
      subst (λ (t : List Slot). Located t n h k i) (sym r.layout)
        (locate_in r.node_slots r.hidden_slots r.data_slots n h k i r.nodes_end r.hidden_end
          r.nodes_kind r.hidden_kind r.data_kind (ap (find k) (sym r.layout) ∙ f))
