-- ===== src/MetadataTree/Shape.antt =====
-- Well-formed trees.
use caliper.Base.{ℕ, ◌+◌, ◌-◌, ◌^◌, ◌*◌, ◌≤◌, ◌<◌, ◌≡◌, ◌⊎◌, inl, inr, sym, ap, ◌∙◌, subst, arith}
use caliper.Base.{true, List, [], ◌∷◌, ◌++◌, Option, none, some, All}
use caliper.Datum.{type_of_datum, Datum, DataNode, DataPath, same_value}
use caliper.Node.{inv_id}
use caliper.MemoryPool.Blocks.{IsPool}
use caliper.MetadataTree.{Key, TreeConfig, Tree, root_path, path_id, Label, is_child}

abbrev pub In : DataPath → List DataPath → Type 0
In p [] = ⊥
In p (q ∷ qs) = (q ≡ p) ⊎ In p qs

-- The root, or a node of the list.
abbrev pub Known : List DataPath → DataPath → Type 0
Known nodes p = (p ≡ root_path) ⊎ In p nodes

-- A node with a known parent.
abbrev pub IsPlaced : List DataPath → DataPath → Type 0
IsPlaced nodes [] = ⊥
IsPlaced nodes (n ∷ up) = Known nodes up

-- The id of the next node.
abbrev pub next_id : TreeConfig → Option (ℕ × ℕ) → ℕ
next_id cfg none = 0
next_id cfg (some (b, i)) = b * cfg.nodes_per_block + i

-- The current block is the last one and is not used beyond its end.
abbrev pub IsBlock : TreeConfig → Option (ℕ × ℕ) → ℕ → Type 0
IsBlock cfg none next_block = Unit
IsBlock cfg (some (b, i)) next_block = (b < next_block) × (i ≤ cfg.nodes_per_block)

-- Ids fall from the newest node on.
abbrev pub IsDescending : List DataPath → Type 0
IsDescending [] = Unit
IsDescending (p ∷ ps) = All (λ (q : DataPath). path_id q < path_id p) ps × IsDescending ps

abbrev pub label_of : DataNode → Label
label_of n = (record { id = n.attribute; type = type_of_datum n.value }, n.value)

-- No two children of a node have the same attribute and the same value.
abbrev pub IsTwin : DataPath → DataPath → Type 0
IsTwin [] q = ⊥
IsTwin (n ∷ up) q = is_child up (label_of n) q ≡ true

abbrev pub NoTwins : List DataPath → Type 0
NoTwins [] = Unit
NoTwins (p ∷ ps) = All (λ (q : DataPath). ¬ IsTwin p q) ps × NoTwins ps

-- Settings under which no node has the id of the root, whose blocks can be counted and are small
-- enough to ask for.
pub record IsConfig (cfg : TreeConfig) : Type 0 where
  pub some_nodes : 0 < cfg.nodes_per_block
  pub ids_fit : cfg.num_blocks * cfg.nodes_per_block ≤ inv_id
  pub blocks_counted : cfg.num_blocks < 2 ^ 32
  pub block_fits : cfg.nodes_per_block * cfg.node_size ≤ 2 ^ 64 - 8

pub record IsTree (cfg : TreeConfig) (t : Tree) : Type 0 where
  pub pool : IsPool t.pool
  pub block : IsBlock cfg t.block t.next_block
  pub blocks_fit : t.next_block ≤ cfg.num_blocks
  pub placed : All (IsPlaced t.nodes) t.nodes
  pub below : All (λ (p : DataPath). path_id p < next_id cfg t.block) t.nodes
  pub descending : IsDescending t.nodes
  pub no_twins : NoTwins t.nodes

pub with_count :
    {cfg : TreeConfig} (t : Tree) (m : ℕ) → IsTree cfg t → IsTree cfg (record t { num_nodes = m })
with_count t m w = record {
  pool = w.pool;
  block = w.block;
  blocks_fit = w.blocks_fit;
  placed = w.placed;
  below = w.below;
  descending = w.descending;
  no_twins = w.no_twins;
}

-- The nodes that a list of labels leads through, from `p` down to `q`.
abbrev pub Leads : List DataPath → DataPath → List Label → DataPath → Type 0
Leads nodes p [] q = p ≡ q
Leads nodes p ((k, v) ∷ ls) q =
    (n : DataNode) × In (n ∷ p) nodes
    × (n.attribute ≡ k.id)
    × (same_value n.value v ≡ true)
    × Leads nodes (n ∷ p) ls q

pub All-In {κ} :
    (P : DataPath → Type κ) (ps : List DataPath) (p : DataPath) → All P ps → In p ps → P p
All-In P [] p h i = absurd i
All-In P (q ∷ qs) p (h, hs) (inl e) = subst P e h
All-In P (q ∷ qs) p (h, hs) (inr i) = All-In P qs p hs i

pub In-append : (xs ys : List DataPath) (p : DataPath) → In p ys → In p (xs ++ ys)
In-append [] ys p i = i
In-append (x ∷ xs) ys p i = inr (In-append xs ys p i)

pub Known-append : (xs ys : List DataPath) (p : DataPath) → Known ys p → Known (xs ++ ys) p
Known-append xs ys p (inl e) = inl e
Known-append xs ys p (inr i) = inr (In-append xs ys p i)

pub Leads-append :
    (xs ys : List DataPath) (p : DataPath) (ls : List Label) (q : DataPath)
    → Leads ys p ls q
    → Leads (xs ++ ys) p ls q
Leads-append xs ys p [] q h = h
Leads-append xs ys p ((k, v) ∷ ls) q (n, i, e, f, h) =
    (n, In-append xs ys (n ∷ p) i, e, f, Leads-append xs ys (n ∷ p) ls q h)

-- Nodes with the same id are one node.
pub one_of_id :
    (nodes : List DataPath) (p q : DataPath)
    → IsDescending nodes
    → In p nodes
    → In q nodes
    → path_id p ≡ path_id q
    → p ≡ q
one_of_id [] p q h i j e = absurd i
one_of_id (x ∷ xs) p q (hx, h) (inl a) (inl b) e = sym a ∙ b
one_of_id (x ∷ xs) p q (hx, h) (inl a) (inr j) e =
    let lo = All-In (λ r. path_id r < path_id x) xs q hx j in
    absurd (omega (arith, lo, ap path_id a))
one_of_id (x ∷ xs) p q (hx, h) (inr i) (inl b) e =
    let lo = All-In (λ r. path_id r < path_id x) xs p hx i in
    absurd (omega (arith, lo, ap path_id b))
one_of_id (x ∷ xs) p q (hx, h) (inr i) (inr j) e = one_of_id xs p q h i j e

-- One label more.
pub Leads-snoc :
    (nodes : List DataPath) (p q : DataPath) (ls : List Label) (n : DataNode) (k : Key) (v : Datum)
    → Leads nodes p ls q
    → In (n ∷ q) nodes
    → n.attribute ≡ k.id
    → same_value n.value v ≡ true
    → Leads nodes p (ls ++ ((k, v) ∷ [])) (n ∷ q)
Leads-snoc nodes p q [] n k v h i a s =
    (n, subst (λ x. In (n ∷ x) nodes) (sym h) i, a, s, ap (λ (x : DataPath). n ∷ x) h)
Leads-snoc nodes p q ((j, w) ∷ ls) n k v (m, im, am, sm, h) i a s =
    (m, im, am, sm, Leads-snoc nodes (m ∷ p) q ls n k v h i a s)
