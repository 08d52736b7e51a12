-- ===== src/MetadataTree/Paths.antt =====
-- What `create_path` makes.
use caliper.Base.{
  ℕ, ◌+◌, ◌%◌, ◌^◌, ◌<◌, if◌then◌else◌, ◌≤◌, ◌≡◌, ◌⊎◌, inl, inr, refl, sym, ap, ◌∙◌, subst, arith,
  ◌==◌,
}
use caliper.Base.{
  Bool, true, false, Bool-cases, List, [], ◌∷◌, ◌++◌, Option, none, some, All, length,
}
use caliper.Datum.{DataPath}
use caliper.MemoryPool.{Pool, Pointer}
use caliper.MemoryPool.Blocks.{IsPool}
use caliper.MemoryPool.Requests.{IsRequest}
use caliper.MetadataTree.{
  TreeConfig, Tree, Label, is_copied, padded, data_size, create_with, with_memory, create_in,
  create_path,
}
use caliper.MetadataTree.Shape.{with_count, Known, IsConfig, IsTree, Leads}
use caliper.MetadataTree.Create.{IsKept, all_padded, HasRoom, IsFresh, create_nodes-Created}
use caliper.MetadataTree.Blocks.{
  IsExhausted, allocate-IsPool, with_pool, have_free_nodeblock-HasBlock,
}

data_size_lem : (ls : List Label) → (data_size ls % 8 ≡ 0) × IsRequest (data_size ls)
data_size_lem [] = (refl, omega arith)
data_size_lem ((k, v) ∷ ls) =
    let (even, small) = data_size_lem ls in
    elim (Bool-cases (is_copied k.type)) [
      | inl e ↦ rw e (omega arith, omega arith)
      | inr e ↦ rw e (omega arith, omega arith)
    ]

-- Nothing wraps around where the copied bytes can be counted.
data_size-all_padded : (ls : List Label) → all_padded ls < 2 ^ 64 → data_size ls ≡ all_padded ls
data_size-all_padded [] h = refl
data_size-all_padded ((k, v) ∷ ls) h = omega (
  arith,
  data_size-all_padded ls (rest_small (if is_copied k.type then padded v else 0) (all_padded ls) h),
)
  where
    rest_small : (a b : ℕ) → a + b < 2 ^ 64 → b < 2 ^ 64
    rest_small a b g = omega arith

-- New nodes in front of the old ones, and a node that the labels lead to; or none of either, for
-- the reason `why`. The count of nodes is a 32-bit number.
abbrev pub IsPathOf :
    TreeConfig → Tree → DataPath → List Label → Type 0 → Option (Tree × Option DataPath) → Type 0
IsPathOf cfg t p ls why result =
    (t' : Tree) × (o : Option DataPath) × (front : List DataPath) × (result ≡ some (t', o))
    × IsTree cfg t'
    × (t'.nodes ≡ front ++ t.nodes)
    × (t'.num_nodes % 2 ^ 32 ≡ (t.num_nodes + length front) % 2 ^ 32)
    × (((o ≡ none) × (front ≡ []) × why) ⊎ ((q : DataPath) × (o ≡ some q) × Leads t'.nodes p ls q))

same_nodes :
    (cfg : TreeConfig) (t u : Tree) (p : DataPath) (ls : List Label) (why why' : Type 0)
    (result : Option (Tree × Option DataPath))
    → u.nodes ≡ t.nodes
    → u.num_nodes ≡ t.num_nodes
    → (why → why')
    → IsPathOf cfg u p ls why result
    → IsPathOf cfg t p ls why' result
same_nodes cfg t u p ls why why' result e n f (t', o, front, run, w, nodes, num, inl (x, y, z)) =
    (t', o, front, run, w, nodes ∙ ap (λ ps. front ++ ps) e, omega arith, inl (x, y, f z))
same_nodes cfg t u p ls why why' result e n f (t', o, front, run, w, nodes, num, inr found) =
    (t', o, front, run, w, nodes ∙ ap (λ ps. front ++ ps) e, omega arith, inr found)

module _ {cfg : TreeConfig} (ok : IsConfig cfg) (ls : List Label) (kept : All IsKept ls)
    (countable : all_padded ls < 2 ^ 64) where
  create_with-IsPathOf :
      (t : Tree) (room : ℕ) (p : DataPath)
      → IsTree cfg t
      → Known t.nodes p
      → HasRoom cfg t.block (length ls)
      → IsFresh t.nodes p ls
      → all_padded ls ≤ room
      → IsPathOf cfg t p ls ⊥ (create_with cfg t room ls p)
  unfolding create_with
  create_with-IsPathOf t room p w known free fresh fits =
      let (t', q, front, run, w', nodes, count, leads, num) =
        create_nodes-Created ok t room 0 ls p w known free kept (omega arith) fresh in
      (
        record t' { num_nodes = (t'.num_nodes + length ls) % 2 ^ 32 },
        some q,
        front,
        rw run,
        with_count t' ((t'.num_nodes + length ls) % 2 ^ 32) w',
        nodes,
        omega (arith, num, count),
        inr (q, refl, leads),
      )

  with_memory-IsPathOf :
      (t : Tree) (pool : Pool) (o : Option Pointer) (p : DataPath)
      → IsTree cfg t
      → Known t.nodes p
      → HasRoom cfg t.block (length ls)
      → IsFresh t.nodes p ls
      → IsPool pool
      → pool.can_expand ≡ t.pool.can_expand
      → (t.pool.can_expand ≡ false) ⊎ ((ptr : Pointer) × (o ≡ some ptr))
      → IsPathOf cfg t p ls (t.pool.can_expand ≡ false) (with_memory cfg t pool o ls p)
  with_memory-IsPathOf t pool none p w known room fresh good same (inl off) = (
    record t { pool = pool },
    none,
    [],
    refl,
    with_pool t pool good w,
    refl,
    omega arith,
    inl (refl, refl, off),
  )
  with_memory-IsPathOf t pool none p w known room fresh good same (inr (ptr, e)) = cc
  with_memory-IsPathOf t pool (some ptr) p w known room fresh good same one =
      same_nodes cfg t (record t { pool = pool }) p ls ⊥ (t.pool.can_expand ≡ false)
        (with_memory cfg t pool (some ptr) ls p) refl refl (λ x. absurd x)
        (create_with-IsPathOf (record t { pool = pool }) (data_size ls) p (with_pool t pool good w)
          known room fresh (omega (arith, data_size-all_padded ls countable)))

  create_in-IsPathOf :
      (t : Tree) (p : DataPath)
      → IsTree cfg t
      → Known t.nodes p
      → HasRoom cfg t.block (length ls)
      → IsFresh t.nodes p ls
      → IsPathOf cfg t p ls (t.pool.can_expand ≡ false) (create_in cfg t true ls p)
  unfolding create_in
  create_in-IsPathOf t p w known room fresh = elim (Bool-cases (data_size ls == 0)) [
    | inl e ↦ rw e (
        same_nodes cfg t t p ls ⊥ (t.pool.can_expand ≡ false) (create_with cfg t 0 ls p) refl refl
          (λ x. absurd x)
          (create_with-IsPathOf t 0 p w known room fresh
            (ground (arith, e, data_size-all_padded ls countable))))
    | inr e ↦
        let (_, small) = data_size_lem ls in
        let (pool, o, run, good, same, one) = allocate-IsPool t.pool (data_size ls) small w.pool in
        rw (e, run) (with_memory-IsPathOf t pool o p w known room fresh good same one)
  ]

  create_behind :
      (t t' : Tree) (free : Bool) (p : DataPath)
      → IsTree cfg t'
      → t'.nodes ≡ t.nodes
      → t'.num_nodes ≡ t.num_nodes
      → t'.pool.can_expand ≡ t.pool.can_expand
      → ((free ≡ false) × IsExhausted cfg t) ⊎ ((free ≡ true) × HasRoom cfg t'.block (length ls))
      → Known t.nodes p
      → IsFresh t.nodes p ls
      → IsPathOf cfg t p ls (IsExhausted cfg t) (create_in cfg t' free ls p)
  unfolding create_in
  create_behind t t' false p w e n same (inl (_, stuck)) known fresh =
      (t', none, [], refl, w, e, omega arith, inl (refl, refl, stuck))
  create_behind t t' false p w e n same (inr (h, _)) known fresh = cc
  create_behind t t' true p w e n same (inl (h, _)) known fresh = cc
  create_behind t t' true p w e n same (inr (_, room)) known fresh =
      same_nodes cfg t t' p ls (t'.pool.can_expand ≡ false) (IsExhausted cfg t)
        (create_in cfg t' true ls p) e n (λ off. inl (sym same ∙ off))
        (create_in-IsPathOf t' p w (subst (λ ps. Known ps p) (sym e) known) room
          (subst (λ ps. IsFresh ps p ls) (sym e) fresh))

  -- Creating a path below a node of the tree.
  pub create_path-IsPathOf :
      (t : Tree) (p : DataPath)
      → IsTree cfg t
      → Known t.nodes p
      → length ls ≤ cfg.nodes_per_block
      → IsFresh t.nodes p ls
      → IsPathOf cfg t p ls (IsExhausted cfg t) (create_path cfg t ls p)
  unfolding create_path
  create_path-IsPathOf t p w known small fresh =
      let (t', free, run, w', nodes, num, same, next, room) =
        have_free_nodeblock-HasBlock t (length ls) ok small w in
      rw run (create_behind t t' free p w' nodes num same room known fresh)
