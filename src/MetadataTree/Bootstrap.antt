-- ===== src/MetadataTree/Bootstrap.antt =====
-- The constructor of `GlobalData`: the nodes that every tree starts with.
use caliper.Base.{
  ℕ, zero, suc, ◌+◌, ◌*◌, ◌≤◌, ◌<◌, ◌≡◌, refl, sym, ap, ◌∙◌, arith, ◌==◌, ◌&&◌, leb, ltb,
  if◌then◌else◌, true, false, inl, inr, Bool-cases,
}
use caliper.Base.{List, [], ◌∷◌, Option, none, some, ◌>>=◌, All, All-mono, true-false, length}
use caliper.Variant.{type_code}
use caliper.Variant.AttrType.{string, int, type}
use caliper.Datum.{Datum, inline, bytes, DataNode, DataPath, same_value, same_refl}
use caliper.Node.{inv_id}
use caliper.MemoryPool.{Pool, allocate}
use caliper.MemoryPool.Blocks.{IsPool}
use caliper.MetadataTree.{Key, Label, TreeConfig, Tree, root_path, path_id, get_path}
use caliper.MetadataTree.Shape.{In, IsPlaced, IsDescending, IsTwin, NoTwins, IsConfig, IsTree}
use caliper.MetadataTree.Blocks.{allocate-IsPool}
use caliper.MetadataTree.GetPath.{get_path-Leads}

-- "cali.attribute.", and the three strings that start with it.
abbrev pub prefixed : List ℕ → Datum
prefixed ending =
    bytes string
      (99 ∷ 97 ∷ 108 ∷ 105 ∷ 46 ∷ 97 ∷ 116 ∷ 116 ∷ 114 ∷ 105 ∷ 98 ∷ 117 ∷ 116 ∷ 101 ∷ 46 ∷ ending)

abbrev pub name_text : Datum
name_text = prefixed (110 ∷ 97 ∷ 109 ∷ 101 ∷ [])

abbrev pub type_text : Datum
type_text = prefixed (116 ∷ 121 ∷ 112 ∷ 101 ∷ [])

abbrev pub prop_text : Datum
prop_text = prefixed (112 ∷ 114 ∷ 111 ∷ 112 ∷ [])

abbrev pub type_value : ℕ → Datum
type_value code = inline type code

-- The node of the type with the number `id + 1`.
abbrev pub type_node : ℕ → DataPath
type_node id = record { id = id; attribute = 9; value = type_value (id + 1) } ∷ root_path

abbrev pub string_node : ℕ → Datum → DataNode
string_node id v = record { id = id; attribute = 8; value = v }

abbrev pub type_nodes : ℕ → List DataPath
type_nodes zero = []
type_nodes (suc k) = type_node k ∷ type_nodes k

abbrev pub bootstrap_nodes : List DataPath
bootstrap_nodes =
    (string_node 10 prop_text ∷ type_node 1)
    ∷ (string_node 9 type_text ∷ type_node 7)
    ∷ (string_node 8 name_text ∷ type_node 3)
    ∷ type_nodes 8

abbrev pub boot_tree : Pool → Tree
boot_tree pool = record {
  pool = pool;
  block = some (0, 11);
  next_block = 1;
  nodes = bootstrap_nodes;
  num_nodes = 11;
  num_used = 1;
}

-- none is a write to memory that is not there: the pool has none, a block is too small for the nodes, or
-- there is no entry for a block.
unfoldable pub bootstrap : TreeConfig → Pool → Option Tree
bootstrap cfg pool =
    let made : Option Tree = do
      (pool', o) ← allocate pool (cfg.nodes_per_block * cfg.node_size)
      chunk ← o
      some (boot_tree pool')
    in if leb 11 cfg.nodes_per_block && ltb 0 cfg.num_blocks then made else none

types_apart : (a k : ℕ) → k ≤ a → All (λ (q : DataPath). ¬ IsTwin (type_node a) q) (type_nodes k)
types_apart a zero le = tt
types_apart a (suc k) le =
    let other : (k + 1) == (a + 1) ≡ false = ground arith in
    (λ twin. true-false (sym twin ∙ other), types_apart a k (omega arith))

types-NoTwins : (k : ℕ) → NoTwins (type_nodes k)
types-NoTwins zero = tt
types-NoTwins (suc k) = (types_apart k k (omega arith), types-NoTwins k)

-- No type node lies below another node.
types_under_root :
    (n : DataNode) (id k : ℕ)
    → id == inv_id ≡ false
    → All (λ (q : DataPath). ¬ IsTwin (n ∷ type_node id) q) (type_nodes k)
types_under_root n id zero h = tt
types_under_root n id (suc k) h =
    let other : inv_id == id ≡ false = ground arith in
    (rw other (λ twin. true-false (sym twin)), types_under_root n id k h)

types-IsPlaced : (nodes : List DataPath) (k : ℕ) → All (IsPlaced nodes) (type_nodes k)
types-IsPlaced nodes zero = tt
types-IsPlaced nodes (suc k) = (inl refl, types-IsPlaced nodes k)

types_below : (k m : ℕ) → k ≤ m → All (λ (q : DataPath). path_id q < m) (type_nodes k)
types_below zero m h = tt
types_below (suc k) m h = (omega arith, types_below k m (omega arith))

types-IsDescending : (k : ℕ) → IsDescending (type_nodes k)
types-IsDescending zero = tt
types-IsDescending (suc k) = (types_below k k (omega arith), types-IsDescending k)

pub boot_tree-IsTree :
    (cfg : TreeConfig) (pool : Pool)
    → 11 ≤ cfg.nodes_per_block
    → 1 ≤ cfg.num_blocks
    → IsPool pool
    → IsTree cfg (boot_tree pool)
boot_tree-IsTree cfg pool big blocks good = record {
  pool = good;
  block = (omega arith, big);
  blocks_fit = blocks;
  placed = (
    inr (inr (inr (inr (inr (inr (inr (inr (inr (inr (inl refl)))))))))),
    (
      inr (inr (inr (inr (inl refl)))),
      (inr (inr (inr (inr (inr (inr (inr (inr (inl refl)))))))), types-IsPlaced bootstrap_nodes 8),
    ),
  );
  below = (
    omega arith,
    (
      omega arith,
      (
        omega arith,
        All-mono {P = λ (q : DataPath). path_id q < 8}
            {Q = λ (q : DataPath). path_id q < 0 * cfg.nodes_per_block + 11} (λ q lo. omega arith)
            (type_nodes 8) (types_below 8 8 (omega arith)),
      ),
    ),
  );
  descending = (
    (omega arith, (omega arith, types_below 8 10 (omega arith))),
    (
      (omega arith, types_below 8 9 (omega arith)),
      (types_below 8 8 (omega arith), types-IsDescending 8),
    ),
  );
  no_twins = (
    (
      λ twin. true-false (sym twin),
      (λ twin. true-false (sym twin), types_under_root (string_node 10 prop_text) 1 8 refl),
    ),
    (
      (λ twin. true-false (sym twin), types_under_root (string_node 9 type_text) 7 8 refl),
      (types_under_root (string_node 8 name_text) 3 8 refl, types-NoTwins 8),
    ),
  );
}

-- `get_path` finds the node with this id, and changes nothing.
abbrev pub Finds : TreeConfig → Tree → List Label → ℕ → Type 0
Finds cfg t ls id = (q : DataPath) × (get_path cfg t ls [] ≡ some (t, some q)) × (path_id q ≡ id)

-- The attributes of a type, a name, a type of an attribute and its properties.
abbrev pub type_key : Key
type_key = record { id = 9; type = type }

abbrev pub name_key : Key
name_key = record { id = 8; type = string }

-- The node of a type has the id below its code, and the three named attributes are 8 to 10, each below
-- the node of its own type.
abbrev pub HasBootNodes : TreeConfig → Tree → Type 0
HasBootNodes cfg t =
    ((id : ℕ) → id < 8 → Finds cfg t ((type_key, inline type (id + 1)) ∷ []) id)
    × Finds cfg t ((type_key, inline type (type_code string)) ∷ (name_key, name_text) ∷ []) 8
    × Finds cfg t ((type_key, inline type (type_code type)) ∷ (name_key, type_text) ∷ []) 9
    × Finds cfg t ((type_key, inline type (type_code int)) ∷ (name_key, prop_text) ∷ []) 10

type_node-In : (id k : ℕ) → id < k → In (type_node id) (type_nodes k)
type_node-In id zero h = absurd (omega arith)
type_node-In id (suc k) h = elim (Bool-cases (id == k)) [
  | inl e ↦ let same : k ≡ id = ground arith in inl (ap type_node same)
  | inr e ↦ inr (type_node-In id k (ground arith))
]

module _ {cfg : TreeConfig} (ok : IsConfig cfg) (pool : Pool)
    (w : IsTree cfg (boot_tree pool)) where
  Finds-type :
      (id : ℕ) → id < 8 → Finds cfg (boot_tree pool) ((type_key, inline type (id + 1)) ∷ []) id
  Finds-type id h =
      let i = inr (inr (inr (type_node-In id 8 h))) in
      let same = same_refl (inline type (id + 1)) in
      (
        type_node id,
        get_path-Leads {cfg = cfg} (boot_tree pool) ((type_key, inline type (id + 1)) ∷ []) []
            (type_node id) ok w
            (record { id = id; attribute = 9; value = type_value (id + 1) }, i, refl, same, refl),
        refl,
      )

  Finds-named :
      (code : ℕ) (n : DataNode) (v : Datum)
      → code < 8
      → In (n ∷ type_node code) bootstrap_nodes
      → n.attribute ≡ 8
      → n.value ≡ v
      → Finds cfg (boot_tree pool) ((type_key, inline type (code + 1)) ∷ (name_key, v) ∷ []) n.id
  Finds-named code n v h i a e =
      let j = inr (inr (inr (type_node-In code 8 h))) in
      let same = same_refl (inline type (code + 1)) in
      let value : same_value n.value v ≡ true =
        ap (same_value n.value) (sym e) ∙ same_refl n.value in
      (
        n ∷ type_node code,
        get_path-Leads {cfg = cfg} (boot_tree pool)
            ((type_key, inline type (code + 1)) ∷ (name_key, v) ∷ []) [] (n ∷ type_node code) ok w
            (
              record { id = code; attribute = 9; value = type_value (code + 1) },
              j,
              refl,
              same,
              (n, i, a, value, refl),
            ),
        refl,
      )

  boot_tree-HasBootNodes : HasBootNodes cfg (boot_tree pool)
  boot_tree-HasBootNodes = (
    Finds-type,
    Finds-named 3 (string_node 8 name_text) name_text (omega arith) (inr (inr (inl refl))) refl
        refl,
    Finds-named 7 (string_node 9 type_text) type_text (omega arith) (inr (inl refl)) refl refl,
    Finds-named 1 (string_node 10 prop_text) prop_text (omega arith) (inl refl) refl refl,
  )

-- Under settings with at least one node per block, fewer than 2^32 blocks of at most 2^64-8
-- bytes, and no id as large as the root's, with at least one block, at least eleven nodes per
-- block and a pool that may expand, the program starts with a well-formed tree of eleven nodes.
-- get_path from the root finds in it, and changes nothing, the node of each type by the type
-- attribute 9 and the type's code, with the id below that code; and by the name attribute 8 the
-- attribute cali.attribute.name below the node of the string type with id 8, cali.attribute.type
-- below that of the type of types with id 9, and cali.attribute.prop below that of the int type
-- with id 10.
pub bootstrap-IsTree :
    (cfg : TreeConfig) (pool : Pool)
    → IsConfig cfg
    → 11 ≤ cfg.nodes_per_block
    → 1 ≤ cfg.num_blocks
    → IsPool pool
    → pool.can_expand ≡ true
    → (t : Tree) × (bootstrap cfg pool ≡ some t)
      × IsTree cfg t
      × (length t.nodes ≡ 11)
      × HasBootNodes cfg t
unfolding bootstrap
bootstrap-IsTree cfg pool ok big blocks good may =
    let (pool', o, run, good', same, one) =
      allocate-IsPool pool (cfg.nodes_per_block * cfg.node_size) ok.block_fits good in
    elim one [
      | inl off ↦ absurd (true-false (sym may ∙ off))
      | inr (chunk, e) ↦
          let fits : leb 11 cfg.nodes_per_block ≡ true = ground arith in
          let entry : ltb 0 cfg.num_blocks ≡ true = ground arith in
          let w = boot_tree-IsTree cfg pool' big blocks good' in
          (
            boot_tree pool',
            rw (fits, entry, run, e) refl,
            w,
            refl,
            boot_tree-HasBootNodes ok pool' w,
          )
    ]
