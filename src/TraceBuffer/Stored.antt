-- ===== src/TraceBuffer/Stored.antt =====
-- What is kept of a snapshot.
use caliper.Base.{ℕ, zero, suc, ◌+◌, min, ◌≤◌, ◌≡◌, ◌≢◌, refl, sym, ap, ◌∙◌, arith, leb, false}
use caliper.Base.{
  List, [], ◌∷◌, ◌++◌, map, append_assoc, append-nil, take, length-take, length, length-append,
  length-map, All, All-mono,
}
use caliper.Vlenc.{IsU64}
use caliper.Variant.{Variant, IsVariant}
use caliper.Node.{NodePtr, path_id}
use caliper.SnapshotRecord.{SnapshotRecord, fixed, append_node, append_immediate, capacity}
use caliper.Base.{take_all}
use caliper.TraceBuffer.{snap_max, kept_ids, kept_attrs, kept_values, pairs_of, add_nodes, any_null}
use caliper.TraceBuffer.RoundTrip.{IsStorable, restored}

-- A snapshot with numbers that fit, whose nodes are not null and are found by their ids.
pub record IsSnapshot (node : ℕ → NodePtr) (s : SnapshotRecord) : Type 0 where
  pub nodes : All (λ (p : NodePtr). IsU64 (path_id p) × (node (path_id p) ≡ p) × (p ≢ [])) s.nodes
  pub imms : All (λ (e : ℕ × Variant). IsU64 e.0 × IsVariant e.1) s.imms

-- What is kept of a snapshot: the first 80 nodes and the first 80 pairs.
abbrev pub stored : SnapshotRecord → SnapshotRecord
stored s = record {
  nodes = take snap_max s.nodes;
  imms = take snap_max s.imms;
  max_nodes = snap_max;
  max_imms = snap_max;
}

All-take-map {κ} :
    {A B : Type 0} (P : B → Type κ) (Q : A → Type κ) (f : A → B) (n : ℕ) (xs : List A)
    → ((x : A) → Q x → P (f x))
    → All Q xs
    → All P (map f (take n xs))
All-take-map P Q f zero xs g h = tt
All-take-map P Q f (suc n) [] g h = tt
All-take-map P Q f (suc n) (x ∷ xs) g (q, h) = (g x q, All-take-map P Q f n xs g h)

All-take {κ} : {A : Type 0} (P : A → Type κ) (n : ℕ) (xs : List A) → All P xs → All P (take n xs)
All-take P zero xs h = tt
All-take P (suc n) [] h = tt
All-take P (suc n) (x ∷ xs) (p, h) = (p, All-take P n xs h)

few : {A B : Type 0} (f : A → B) (n : ℕ) (xs : List A) → length (map f (take n xs)) ≤ n
few f n xs = omega (arith, length-map (take n xs) f, length-take n xs)

pub kept-IsStorable :
    (node : ℕ → NodePtr) (s : SnapshotRecord)
    → IsSnapshot node s
    → IsStorable (kept_ids s) (kept_attrs s) (kept_values s)
kept-IsStorable node s h = record {
  few_ids = few path_id 80 s.nodes;
  few_attrs = few (λ (e : ℕ × Variant). e.0) 80 s.imms;
  in_step =
      length-map (take 80 s.imms) (λ (e : ℕ × Variant). e.1)
      ∙ sym (length-map (take 80 s.imms) (λ (e : ℕ × Variant). e.0));
  small_ids = All-take-map IsU64 _ path_id 80 s.nodes (λ p q. q.0) h.nodes;
  small_attrs = All-take-map IsU64 _ (λ (e : ℕ × Variant). e.0) 80 s.imms (λ e q. q.0) h.imms;
  good_vals = All-take-map IsVariant _ (λ (e : ℕ × Variant). e.1) 80 s.imms (λ e q. q.1) h.imms;
}

any_null-All : (ps : List NodePtr) → All (λ (p : NodePtr). p ≢ []) ps → any_null ps ≡ false
any_null-All [] h = refl
any_null-All ([] ∷ ps) (some_node, h) = absurd (some_node refl)
any_null-All ((n ∷ up) ∷ ps) (_, h) = any_null-All ps h

pub kept-any_null :
    (node : ℕ → NodePtr) (s : SnapshotRecord)
    → IsSnapshot node s
    → any_null (take 80 s.nodes) ≡ false
kept-any_null node s h =
    any_null-All (take 80 s.nodes)
      (All-take (λ (p : NodePtr). p ≢ []) 80 s.nodes (All-mono (λ p (_, _, k). k) s.nodes h.nodes))

pairs_of-map :
    (es : List (ℕ × Variant))
    → pairs_of (map (λ (e : ℕ × Variant). e.0) es) (map (λ (e : ℕ × Variant). e.1) es) ≡ es
pairs_of-map [] = refl
pairs_of-map ((a, v) ∷ es) = ap (λ xs. (a, v) ∷ xs) (pairs_of-map es)

add_nodes-map :
    (node : ℕ → NodePtr) (pre ps : List NodePtr)
    → length pre + length ps ≤ 80
    → All (λ (p : NodePtr). node (path_id p) ≡ p) ps
    → add_nodes node
        (record { nodes = pre; imms = []; max_nodes = 80; max_imms = 80 })
        (map path_id ps)
      ≡ record { nodes = pre ++ ps; imms = []; max_nodes = 80; max_imms = 80 }
unfolding append_node
add_nodes-map node pre [] h g =
    ap (λ ns. record { nodes = ns; imms = []; max_nodes = 80; max_imms = 80 })
      (sym (append-nil pre))
add_nodes-map node pre (p ∷ ps) h (e, g) =
    let room : leb 80 (length pre) ≡ false = ground arith in
    let r : SnapshotRecord = record { nodes = pre; imms = []; max_nodes = 80; max_imms = 80 } in
    let step : append_node r (node (path_id p)) ≡ record r { nodes = pre ++ (p ∷ []) } =
      ap (append_node r) e ∙ rw room refl in
    ap (λ x. add_nodes node x (map path_id ps)) step
    ∙ (add_nodes-map node (pre ++ (p ∷ [])) ps (omega (arith, length-append pre (p ∷ []))) g
        ∙ ap (λ ns. record { nodes = ns; imms = []; max_nodes = 80; max_imms = 80 })
            (append_assoc pre (p ∷ []) ps))

pub restored-kept :
    (node : ℕ → NodePtr) (s : SnapshotRecord)
    → IsSnapshot node s
    → restored node (kept_ids s) (kept_attrs s) (kept_values s) ≡ stored s
unfolding append_immediate fixed capacity
restored-kept node s h =
    let ps = take 80 s.nodes in
    let es = take 80 s.imms in
    let found = add_nodes-map node [] ps (omega (arith, length-take 80 s.nodes)) (
      All-take (λ (p : NodePtr). node (path_id p) ≡ p) 80 s.nodes
        (All-mono (λ p (_, e, _). e) s.nodes h.nodes)) in
    rw (found, pairs_of-map es)
      (ap (λ xs. record { nodes = ps; imms = xs; max_nodes = 80; max_imms = 80 })
        (take_all (min (length es) 80) es (omega (arith, length-take 80 s.imms))))
