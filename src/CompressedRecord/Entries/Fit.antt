-- ===== src/CompressedRecord/Entries/Fit.antt =====
-- A list of entries with at most three nodes, in a record that has room for all of it.
use caliper.Base.{ℕ, ◌+◌, ◌≤◌, ◌<◌, ◌≡◌, refl, arith, sym, ap, ◌∙◌, ◌==◌, if◌then◌else◌}
use caliper.Base.{List, [], ◌∷◌, ◌++◌, length, length-append, append_assoc, append-nil}
use caliper.Base.{some, ◌>>=◌, false, Bool-cases, inl, inr}
use mathlib.Core.Path.{subst₂}
use caliper.Variant.{Variant}
use caliper.Node.{NodePtr}
use caliper.Entry.{Entry, is_value}
use caliper.CompressedRecord.{CompressedRecord, encode_ids, encode_imms, block_size}
use caliper.CompressedRecord.Shape.{Encodes, encode_imms-append}
use caliper.CompressedRecord.Immediates.Loop.{append_imms_fit}
use caliper.CompressedRecord.Nodes.{append_nodes_fit}
use caliper.CompressedRecord.Entries.{
  Pending, add_node, add_imm, add_entry, add_fields, add_entries, finish, append_entries,
  append_snapshot,
}

-- The node ids and the immediate entries of a list, in its order.
abbrev pub node_field : NodePtr → List ℕ
node_field (n ∷ up) = n.id ∷ []
node_field [] = []

abbrev pub imm_field : NodePtr → ℕ → Variant → List (ℕ × Variant)
imm_field (n ∷ up) a v = []
imm_field [] a v = if is_value [] a then (a, v) ∷ [] else []

unfoldable pub nodes_of : List Entry → List ℕ
nodes_of [] = []
nodes_of (e ∷ es) = node_field e.node ++ nodes_of es

unfoldable pub imms_of : List Entry → List (ℕ × Variant)
imms_of [] = []
imms_of (e ∷ es) = imm_field e.node e.attr_id e.value ++ imms_of es

-- The bytes that a record needs for the nodes and the immediate entries.
abbrev pub need : List ℕ → List (ℕ × Variant) → ℕ
need ids es = 2 + length (encode_ids ids) + length (encode_imms es)

length-encode_imms-append :
    (xs ys : List (ℕ × Variant))
    → length (encode_imms (xs ++ ys)) ≡ length (encode_imms xs) + length (encode_imms ys)
length-encode_imms-append xs ys =
    ap length (encode_imms-append xs ys) ∙ length-append (encode_imms xs) (encode_imms ys)

-- Nothing was skipped, no node is stored yet, and `nodes` and `imms` are stored or pending.
record Holding (s : Pending) (nodes : List ℕ) (imms : List (ℕ × Variant)) (bytes : ℕ) : Type 0 where
  held : List (ℕ × Variant)
  encodes : Encodes s.rec [] held
  all_nodes : s.nodes ≡ nodes
  all_imms : held ++ s.imms ≡ imms
  none_skipped : s.skipped ≡ 0
  bytes_left : s.rec.buffer_len ≡ bytes

module _ {nodes : List ℕ} {imms : List (ℕ × Variant)} {bytes : ℕ} (fits : need nodes imms ≤ bytes)
    (few : length imms < 128) where
  finish-Holding :
      {s : Pending}
      → Holding s nodes imms bytes
      → length nodes ≤ 3
      → (r' : CompressedRecord) × (finish s ≡ some (r', 0)) × Encodes r' nodes imms
  unfolding finish
  finish-Holding {s} h n =
      let c = length-encode_imms-append h.held s.imms in
      let d = ap (λ (t : List (ℕ × Variant)). length (encode_imms t)) h.all_imms in
      let l : length h.held + length s.imms ≡ length imms =
        omega (arith, length-append h.held s.imms, ap length h.all_imms) in
      let (r₁, run₁, enc₁, b₁) =
        append_nodes_fit h.encodes nodes (omega arith) (omega (arith, c, d, h.bytes_left)) in
      let (r₂, run₂, enc₂, b₂) =
        append_imms_fit enc₁ s.imms (omega (arith, l)) (omega (arith, c, d, h.bytes_left, b₁)) in
      let z : s.skipped + 0 + 0 ≡ 0 = omega (arith, h.none_skipped) in
      (r₂, rw (h.all_nodes, run₁, run₂, z), rw h.all_imms at enc₂)

add_node-Holding :
    (s : Pending) {nodes : List ℕ} {imms : List (ℕ × Variant)} {bytes : ℕ} (id : ℕ)
    → Holding s nodes imms bytes
    → length nodes < 3
    → (s' : Pending) × (add_node s id ≡ some s') × Holding s' (nodes ++ (id ∷ [])) imms bytes
unfolding add_node
add_node-Holding s {nodes} {imms} {bytes} id h n =
    let l : (length (s.nodes ++ (id ∷ [])) == block_size) ≡ false =
      ground (arith, length-append s.nodes (id ∷ []), ap length h.all_nodes) in
    (
      record s { nodes = s.nodes ++ (id ∷ []) },
      rw l,
      record {
        held = h.held;
        encodes = h.encodes;
        all_nodes = ap (λ (t : List ℕ). t ++ (id ∷ [])) h.all_nodes;
        all_imms = h.all_imms;
        none_skipped = h.none_skipped;
        bytes_left = h.bytes_left;
      },
    )

add_imm-Holding :
    (s : Pending) {nodes : List ℕ} {imms : List (ℕ × Variant)} {bytes : ℕ} (e : ℕ × Variant)
    → Holding s nodes imms bytes
    → need [] (imms ++ (e ∷ [])) ≤ bytes
    → length (imms ++ (e ∷ [])) < 128
    → (s' : Pending) × (add_imm s e ≡ some s') × Holding s' nodes (imms ++ (e ∷ [])) bytes
unfolding add_imm
add_imm-Holding s {nodes} {imms} {bytes} e h fits few =
    let more = s.imms ++ (e ∷ []) in
    let j : h.held ++ more ≡ imms ++ (e ∷ []) =
      sym (append_assoc h.held s.imms (e ∷ []))
      ∙ ap (λ (t : List (ℕ × Variant)). t ++ (e ∷ [])) h.all_imms in
    let c = length-encode_imms-append h.held more in
    let d = ap (λ (t : List (ℕ × Variant)). length (encode_imms t)) j in
    let m = ap length j in
    elim (Bool-cases (length more == block_size)) [
      | inl full ↦
          let (r', run, enc, b) =
            append_imms_fit h.encodes more (omega (arith, m, length-append h.held more))
              (omega (arith, c, d, h.bytes_left)) in
          let z : s.skipped + 0 ≡ s.skipped = omega arith in
          (
            record s { rec = r'; imms = []; skipped = s.skipped + 0 },
            rw (full, run),
            record {
              held = h.held ++ more;
              encodes = enc;
              all_nodes = h.all_nodes;
              all_imms = append-nil (h.held ++ more) ∙ j;
              none_skipped = z ∙ h.none_skipped;
              bytes_left = b ∙ h.bytes_left;
            },
          )
      | inr part ↦ (
        record s { imms = more },
        rw part,
        record {
          held = h.held;
          encodes = h.encodes;
          all_nodes = h.all_nodes;
          all_imms = j;
          none_skipped = h.none_skipped;
          bytes_left = h.bytes_left;
        },
      )
    ]

need-front :
    (front back : List (ℕ × Variant)) (bytes : ℕ)
    → need [] (front ++ back) ≤ bytes
    → need [] front ≤ bytes
need-front front back bytes h = omega (arith, length-encode_imms-append front back)

-- An entry joins the nodes or the immediate entries; an empty one joins neither.
add_fields-Holding :
    (s : Pending) {nodes : List ℕ} {imms : List (ℕ × Variant)} {bytes : ℕ} (n : NodePtr) (a : ℕ)
    (v : Variant)
    → Holding s nodes imms bytes
    → length (nodes ++ node_field n) ≤ 3
    → need [] (imms ++ imm_field n a v) ≤ bytes
    → length (imms ++ imm_field n a v) < 128
    → (s' : Pending) × (add_fields s n a v ≡ some s')
      × Holding s' (nodes ++ node_field n) (imms ++ imm_field n a v) bytes
unfolding add_fields
add_fields-Holding s {nodes} {imms} (n ∷ up) a v h hn hb hl =
    rw (append-nil imms)
      (add_node-Holding s n.id h (omega (arith, length-append nodes (n.id ∷ []))))
add_fields-Holding s {nodes} {imms} [] a v h hn hb hl =
    rw (append-nil nodes) (elim (Bool-cases (is_value [] a)) [
      | inl imm ↦ rw imm (add_imm-Holding s (a, v) h (rw imm at hb) (rw imm at hl))
      | inr nothing ↦ rw nothing (s, refl, rw (append-nil imms) h)
    ])

-- The loop over the entries.
add_entries-Holding :
    (es : List Entry) (s : Pending) {nodes : List ℕ} {imms : List (ℕ × Variant)} {bytes : ℕ}
    → Holding s nodes imms bytes
    → length (nodes ++ nodes_of es) ≤ 3
    → need [] (imms ++ imms_of es) ≤ bytes
    → length (imms ++ imms_of es) < 128
    → (s' : Pending) × (add_entries s es ≡ some s')
      × Holding s' (nodes ++ nodes_of es) (imms ++ imms_of es) bytes
unfolding add_entries nodes_of imms_of add_entry
add_entries-Holding [] s {nodes} {imms} h hn hb hl =
    (s, refl, rw (append-nil nodes, append-nil imms) h)
add_entries-Holding (e ∷ es) s {nodes} {imms} {bytes} h hn hb hl =
    let front = imm_field e.node e.attr_id e.value in
    let an = append_assoc nodes (node_field e.node) (nodes_of es) in
    let ai = append_assoc imms front (imms_of es) in
    let hn' : length ((nodes ++ node_field e.node) ++ nodes_of es) ≤ 3 = rw an hn in
    let hb' : need [] ((imms ++ front) ++ imms_of es) ≤ bytes = rw ai hb in
    let hl' : length ((imms ++ front) ++ imms_of es) < 128 = rw ai hl in
    let (s₁, run₁, h₁) =
      add_fields-Holding s e.node e.attr_id e.value h
        (omega (arith, length-append (nodes ++ node_field e.node) (nodes_of es)))
        (need-front (imms ++ front) (imms_of es) bytes hb')
        (omega (arith, length-append (imms ++ front) (imms_of es))) in
    let (s₂, run₂, h₂) = add_entries-Holding es s₁ h₁ hn' hb' hl' in
    (s₂, step run₁ run₂, subst₂ (λ x y. Holding s₂ x y bytes) an ai h₂)
  where
    step :
        {s₁ s₂ : Pending}
        → add_fields s e.node e.attr_id e.value ≡ some s₁
        → add_entries s₁ es ≡ some s₂
        → (add_fields s e.node e.attr_id e.value >>= λ s'. add_entries s' es) ≡ some s₂
    step p q = rw (p, q)

-- With room for all, and at most three nodes, every entry is held in its order, and none is skipped.
pub append_entries_fit :
    {r : CompressedRecord} (es : List Entry)
    → Encodes r [] []
    → length (nodes_of es) ≤ 3
    → length (imms_of es) < 128
    → need (nodes_of es) (imms_of es) ≤ r.buffer_len
    → (r' : CompressedRecord) × (append_entries r es ≡ some (r', 0))
      × Encodes r' (nodes_of es) (imms_of es)
unfolding append_entries
append_entries_fit {r} es enc hn hl hb =
    let start : Holding (record { rec = r; nodes = []; imms = []; skipped = 0 }) [] []
        r.buffer_len =
      record {
        held = [];
        encodes = enc;
        all_nodes = refl;
        all_imms = refl;
        none_skipped = refl;
        bytes_left = refl;
      } in
    let (s, run, h) = add_entries-Holding es _ start hn (omega arith) hl in
    let (r', run', enc') = finish-Holding hb hl h hn in (r', rw (run, run'), enc')

-- Appending the arrays of a snapshot record with at most four nodes.
pub append_snapshot_fit :
    {r : CompressedRecord} (nodes : List ℕ) (imms : List (ℕ × Variant))
    → Encodes r [] []
    → length nodes ≤ block_size
    → length imms < 128
    → need nodes imms ≤ r.buffer_len
    → (r' : CompressedRecord) × (append_snapshot r nodes imms ≡ some (r', 0))
      × Encodes r' nodes imms
unfolding append_snapshot
append_snapshot_fit {r} nodes imms enc hn hl hb =
    let (r₁, run₁, enc₁, b₁) = append_nodes_fit enc nodes hn (omega arith) in
    let (r₂, run₂, enc₂, b₂) = append_imms_fit enc₁ imms (omega arith) (omega (arith, b₁)) in
    (r₂, rw (run₁, run₂), enc₂)
