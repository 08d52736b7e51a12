-- ===== src/MetadataTree/Blocks.antt =====
-- Room for nodes.
use caliper.Base.{ℕ, ◌+◌, ◌%◌, ◌^◌, ◌*◌, ◌≤◌, ◌<◌, ◌≡◌, ◌⊎◌, inl, inr, refl, arith, leb}
use caliper.Base.{Bool, true, false, Bool-cases, [], Option, none, some, All-mono}
use caliper.MemoryPool.{Pool, Pointer, allocate}
use caliper.MemoryPool.Blocks.{IsPool}
use caliper.MemoryPool.Requests.{IsRequest, allocate-Sound}
use caliper.MetadataTree.{TreeConfig, Tree, needs_block, use_chunk, new_block, have_free_nodeblock}
use caliper.MetadataTree.Shape.{IsConfig, IsTree}
use caliper.MetadataTree.Lookup.{next_id_le}
use caliper.MetadataTree.Create.{HasRoom}

-- Why a node may be refused: the pool may not expand, or all blocks are in use.
abbrev pub IsExhausted : TreeConfig → Tree → Type 0
IsExhausted cfg t = (t.pool.can_expand ≡ false) ⊎ (cfg.num_blocks ≤ t.next_block)

pub allocate-IsPool :
    (p : Pool) (bytes : ℕ)
    → IsRequest bytes
    → IsPool p
    → (q : Pool) × (o : Option Pointer) × (allocate p bytes ≡ some (q, o))
      × IsPool q
      × (q.can_expand ≡ p.can_expand)
      × ((p.can_expand ≡ false) ⊎ ((ptr : Pointer) × (o ≡ some ptr)))
allocate-IsPool p bytes small w =
    let (q, o, run, s, same, one) =
      allocate-Sound p [] bytes small (record { pool = w; inside = tt; apart = tt }) in
    (q, o, run, s.pool, same, one)

-- The same nodes, and room for `n` more if `free`.
abbrev pub HasBlock : TreeConfig → Tree → ℕ → Option (Tree × Bool) → Type 0
HasBlock cfg t n result =
    (t' : Tree) × (free : Bool) × (result ≡ some (t', free))
    × IsTree cfg t'
    × (t'.nodes ≡ t.nodes)
    × (t'.num_nodes ≡ t.num_nodes)
    × (t'.pool.can_expand ≡ t.pool.can_expand)
    × (t'.next_block ≤ t.next_block + 1)
    × (((free ≡ false) × IsExhausted cfg t) ⊎ ((free ≡ true) × HasRoom cfg t'.block n))

room_left :
    (cfg : TreeConfig) (o : Option (ℕ × ℕ)) (n : ℕ) → needs_block cfg o n ≡ false → HasRoom cfg o n
room_left cfg none n h = cc
room_left cfg (some (b, i)) n h = ground arith

module _ {cfg : TreeConfig} where
  pub with_pool :
      (t : Tree) (pool : Pool) → IsPool pool → IsTree cfg t → IsTree cfg (record t { pool = pool })
  with_pool t pool good w = record {
    pool = good;
    block = w.block;
    blocks_fit = w.blocks_fit;
    placed = w.placed;
    below = w.below;
    descending = w.descending;
    no_twins = w.no_twins;
  }

  with_chunk :
      (t : Tree) (pool : Pool) (chunk : Pointer)
      → IsPool pool
      → IsConfig cfg
      → t.next_block < cfg.num_blocks
      → IsTree cfg t
      → IsTree cfg (use_chunk cfg t pool (some chunk)).0
  with_chunk t pool chunk good ok free w =
      let exact : (t.next_block + 1) % 2 ^ 32 ≡ t.next_block + 1 =
        omega (arith, ok.blocks_counted) in
      let under = next_id_le cfg t.block t.next_block t.next_block w.block (omega arith) in
      record {
        pool = good;
        block = (omega arith, omega arith);
        blocks_fit = omega arith;
        placed = w.placed;
        below = All-mono (λ q lo. omega arith) t.nodes w.below;
        descending = w.descending;
        no_twins = w.no_twins;
      }

  use_chunk-HasBlock :
      (t : Tree) (n : ℕ) (pool : Pool) (o : Option Pointer)
      → IsConfig cfg
      → n ≤ cfg.nodes_per_block
      → IsTree cfg t
      → t.next_block < cfg.num_blocks
      → IsPool pool
      → pool.can_expand ≡ t.pool.can_expand
      → (t.pool.can_expand ≡ false) ⊎ ((ptr : Pointer) × (o ≡ some ptr))
      → HasBlock cfg t n (some (use_chunk cfg t pool o))
  use_chunk-HasBlock t n pool none ok small w free good same (inl off) = (
    record t { pool = pool },
    false,
    refl,
    with_pool t pool good w,
    refl,
    refl,
    same,
    omega arith,
    inl (refl, inl off),
  )
  use_chunk-HasBlock t n pool none ok small w free good same (inr (ptr, e)) = cc
  use_chunk-HasBlock t n pool (some chunk) ok small w free good same one = (
    (use_chunk cfg t pool (some chunk)).0,
    true,
    refl,
    with_chunk t pool chunk good ok free w,
    refl,
    refl,
    same,
    omega arith,
    inr (refl, omega arith),
  )

  new_block-HasBlock :
      (t : Tree) (n : ℕ)
      → IsConfig cfg
      → n ≤ cfg.nodes_per_block
      → IsTree cfg t
      → HasBlock cfg t n (new_block cfg t)
  unfolding new_block
  new_block-HasBlock t n ok small w = elim (Bool-cases (leb cfg.num_blocks t.next_block)) [
    | inl full ↦
        rw full (t, false, refl, w, refl, refl, refl, omega arith, inl (refl, inr (ground arith)))
    | inr free ↦
        let (pool, o, run, good, same, one) =
          allocate-IsPool t.pool (cfg.nodes_per_block * cfg.node_size) ok.block_fits w.pool in
        rw (free, run) (use_chunk-HasBlock t n pool o ok small w (ground arith) good same one)
  ]

  pub have_free_nodeblock-HasBlock :
      (t : Tree) (n : ℕ)
      → IsConfig cfg
      → n ≤ cfg.nodes_per_block
      → IsTree cfg t
      → HasBlock cfg t n (have_free_nodeblock cfg t n)
  unfolding have_free_nodeblock
  have_free_nodeblock-HasBlock t n ok small w = elim (Bool-cases (needs_block cfg t.block n)) [
    | inl full ↦ rw full (new_block-HasBlock t n ok small w)
    | inr free ↦
        rw free (
          t,
          true,
          refl,
          w,
          refl,
          refl,
          refl,
          omega arith,
          inr (refl, room_left cfg t.block n free),
        )
  ]
