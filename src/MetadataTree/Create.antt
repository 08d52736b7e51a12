-- ===== src/MetadataTree/Create.antt =====
-- Creating nodes keeps a tree well formed.
use caliper.Base.{
  ℕ, suc, ◌+◌, ◌*◌, ◌≤◌, ◌<◌, ◌≡◌, inl, inr, refl, sym, ap, ◌∙◌, subst, arith, ◌==◌, ◌&&◌,
  if◌then◌else◌, ltb,
}
use caliper.Base.{
  Bool, true, false, Bool-cases, List, [], ◌∷◌, ◌++◌, Option, none, some, All, All-mono, length,
  true-false, append_assoc, length-append,
}
use caliper.Datum.{
  Datum, DataNode, DataPath, same_value, datum_size, HasType, make_value-HasType, same_trans,
  same_refl,
}
use caliper.Node.{inv_id}
use caliper.MetadataTree.{
  Key, TreeConfig, Tree, path_id, Label, is_child, advance, next_node, is_copied, padded,
  placed_value, create_nodes,
}
use caliper.MetadataTree.Shape.{
  In, Known, IsBlock, IsPlaced, next_id, label_of, IsConfig, IsTree, Leads, All-In, In-append,
  Known-append,
}
use caliper.MetadataTree.Lookup.{next_id-bound}

-- The value has the type of the attribute.
abbrev pub IsKept : Label → Type 0
IsKept (k, v) = HasType k.type v

-- The bytes that are copied, with their padding, and not wrapped around.
abbrev pub all_padded : List Label → ℕ
all_padded [] = 0
all_padded ((k, v) ∷ ls) = (if is_copied k.type then padded v else 0) + all_padded ls

-- Room for `n` more nodes in the current block.
abbrev pub HasRoom : TreeConfig → Option (ℕ × ℕ) → ℕ → Type 0
HasRoom cfg none n = ⊥
HasRoom cfg (some (b, i)) n = i + n ≤ cfg.nodes_per_block

-- A node below `p`, at the next place of the block.
abbrev pub added : Tree → DataNode → DataPath → Tree
added t n p = record t { block = advance t.block; nodes = (n ∷ p) ∷ t.nodes }

IsPlaced-mono : (nodes : List DataPath) (x q : DataPath) → IsPlaced nodes q → IsPlaced (x ∷ nodes) q
IsPlaced-mono nodes x [] h = h
IsPlaced-mono nodes x (n ∷ up) h = Known-append (x ∷ []) nodes up h

-- No child of `p` has the first label.
abbrev pub IsFresh : List DataPath → DataPath → List Label → Type 0
IsFresh nodes p [] = Unit
IsFresh nodes p (l ∷ ls) = All (λ (q : DataPath). is_child p l q ≡ false) nodes

module _ {cfg : TreeConfig} (ok : IsConfig cfg) where
  pub add-IsTree :
      (t : Tree) (n : DataNode) (p : DataPath) (b i : ℕ)
      → IsTree cfg t
      → Known t.nodes p
      → t.block ≡ some (b, i)
      → i < cfg.nodes_per_block
      → n.id ≡ b * cfg.nodes_per_block + i
      → All (λ (q : DataPath). is_child p (label_of n) q ≡ false) t.nodes
      → IsTree cfg (added t n p)
  add-IsTree t n p b i w known at room id alone =
      let now : next_id cfg t.block ≡ b * cfg.nodes_per_block + i = ap (next_id cfg) at in
      let next : next_id cfg (advance t.block) ≡ b * cfg.nodes_per_block + (i + 1) =
        ap (λ o. next_id cfg (advance o)) at in
      let (last, _) = subst (λ o. IsBlock cfg o t.next_block) at w.block in
      record {
        pool = w.pool;
        block = subst (λ o. IsBlock cfg (advance o) t.next_block) (sym at) (last, omega arith);
        blocks_fit = w.blocks_fit;
        placed = (
          Known-append ((n ∷ p) ∷ []) t.nodes p known,
          All-mono (IsPlaced-mono t.nodes (n ∷ p)) t.nodes w.placed,
        );
        below = (omega arith, All-mono (λ q lo. omega arith) t.nodes w.below);
        descending = (All-mono (λ q lo. omega arith) t.nodes w.below, w.descending);
        no_twins = (All-mono (λ q e twin. true-false (sym twin ∙ e)) t.nodes alone, w.no_twins);
      }

  fresh_parent :
      (t : Tree) (n : DataNode) (p q : DataPath) (l : Label)
      → IsTree cfg t
      → next_id cfg t.block ≤ n.id
      → n.id < inv_id
      → IsPlaced t.nodes q
      → is_child (n ∷ p) l q ≡ false
  fresh_parent t n p [] l w new small placed = refl
  fresh_parent t n p (m ∷ up) (k, v) w new small (inl e) =
      let other : path_id up == n.id ≡ false = ground (arith, ap path_id e) in rw other
  fresh_parent t n p (m ∷ up) (k, v) w new small (inr i) =
      let lo = All-In (λ r. path_id r < next_id cfg t.block) t.nodes up w.below i in
      let other : path_id up == n.id ≡ false = ground arith in rw other

  IsFresh-all :
      (t : Tree) (n : DataNode) (p : DataPath) (ls : List Label)
      → IsTree cfg t
      → next_id cfg t.block ≤ n.id
      → n.id < inv_id
      → Known t.nodes p
      → IsFresh ((n ∷ p) ∷ t.nodes) (n ∷ p) ls
  IsFresh-all t n p [] w new small known = tt
  IsFresh-all t n p (l ∷ ls) w new small known = (
    fresh_parent t n p (n ∷ p) l w new small known,
    All-mono (λ q placed. fresh_parent t n p q l w new small placed) t.nodes w.placed,
  )

and_le :
    (a b s s' : Bool) → (s' ≡ true → s ≡ true) → (a && (b && s)) ≡ false → (a && (b && s')) ≡ false
and_le false b s s' f h = refl
and_le true false s s' f h = refl
and_le true true s false f h = refl
and_le true true s true f h = absurd (true-false (sym (f refl) ∙ h))

-- A node that differs from a value differs from the node made for it.
copy_differs :
    (p q : DataPath) (n : DataNode) (k : Key) (v : Datum)
    → n.attribute ≡ k.id
    → same_value n.value v ≡ true
    → is_child p (k, v) q ≡ false
    → is_child p (label_of n) q ≡ false
copy_differs p [] n k v a kept h = refl
copy_differs p (m ∷ up) n k v a kept h =
    and_le (path_id up == path_id p) (m.attribute == n.attribute) (same_value m.value v)
      (same_value m.value n.value) (λ s. same_trans m.value n.value v s kept)
      (ap (λ i. (path_id up == path_id p) && ((m.attribute == i) && same_value m.value v)) a ∙ h)

pub room_at :
    (cfg : TreeConfig) (o : Option (ℕ × ℕ)) (n : ℕ)
    → HasRoom cfg o n
    → (b : ℕ) × (i : ℕ) × (o ≡ some (b, i)) × (i + n ≤ cfg.nodes_per_block)
room_at cfg none n h = absurd h
room_at cfg (some (b, i)) n h = (b, i, refl, h)

-- The loop ends with the new nodes in front of the old ones, a chain from `p` down along the labels.
abbrev pub Created : TreeConfig → Tree → List Label → DataPath → Option (Tree × DataPath) → Type 0
Created cfg t ls p result =
    (t' : Tree) × (q : DataPath) × (front : List DataPath) × (result ≡ some (t', q))
    × IsTree cfg t'
    × (t'.nodes ≡ front ++ t.nodes)
    × (length front ≡ length ls)
    × Leads t'.nodes p ls q
    × (t'.num_nodes ≡ t.num_nodes)

-- A value of the right type is put where there is room for its copy.
placed_value-HasType :
    (room offset rest : ℕ) (k : Key) (v : Datum)
    → HasType k.type v
    → offset + ((if is_copied k.type then padded v else 0) + rest) ≤ room
    → placed_value room offset k v ≡ some v
placed_value-HasType room offset rest k v typed fits = elim (Bool-cases (is_copied k.type)) [
  | inl e ↦
      let inside : ltb room (offset + datum_size v) ≡ false = ground (arith, e, fits) in
      rw (e, inside) (make_value-HasType k.type v typed)
  | inr e ↦ rw e (make_value-HasType k.type v typed)
]

next_offset :
    (b : Bool) (room offset pad rest : ℕ)
    → offset + ((if b then pad else 0) + rest) ≤ room
    → (if b then offset + pad else offset) + rest ≤ room
next_offset true room offset pad rest h = omega arith
next_offset false room offset pad rest h = omega arith

pub create_nodes-Created :
    {cfg : TreeConfig} (ok : IsConfig cfg) (t : Tree) (room offset : ℕ) (ls : List Label)
    (p : DataPath)
    → IsTree cfg t
    → Known t.nodes p
    → HasRoom cfg t.block (length ls)
    → All IsKept ls
    → offset + all_padded ls ≤ room
    → IsFresh t.nodes p ls
    → Created cfg t ls p (create_nodes cfg t room offset ls p)
unfolding create_nodes
create_nodes-Created ok t room offset [] p w known free kept fits fresh =
    (t, p, [], refl, w, refl, refl, refl, refl)
create_nodes-Created {cfg} ok t room offset ((k, v) ∷ ls) p w known free (typed, kept) fits fresh =
    let (b, i, at, places) = room_at cfg t.block (suc (length ls)) free in
    let n : DataNode = record { id = b * cfg.nodes_per_block + i; attribute = k.id; value = v } in
    let same = same_refl v in
    let value = placed_value-HasType room offset (all_padded ls) k v typed fits in
    let inside : ltb i cfg.nodes_per_block ≡ true = ground arith in
    let made : next_node cfg t.block k v ≡ some n =
      ap (λ o. next_node cfg o k v) at ∙ rw inside refl in
    let w' =
      add-IsTree ok t n p b i w known at (omega arith) refl
        (All-mono (λ q. copy_differs p q n k v refl same) t.nodes fresh) in
    let small : n.id < inv_id =
      omega (arith, next_id-bound ok w', ap (λ o. next_id cfg (advance o)) at) in
    let (t', q, front, run, w'', nodes, count, leads, num) =
      create_nodes-Created ok (added t n p) room
        (if is_copied k.type then offset + padded v else offset) ls (n ∷ p) w' (inr (inl refl))
        (subst (λ o. HasRoom cfg (advance o) (length ls)) (sym at) (omega arith)) kept
        (next_offset (is_copied k.type) room offset (padded v) (all_padded ls) fits)
        (IsFresh-all ok t n p ls w (omega (arith, ap (next_id cfg) at)) small known) in
    (
      t',
      q,
      front ++ ((n ∷ p) ∷ []),
      rw (value, made) run,
      w'',
      nodes ∙ sym (append_assoc front ((n ∷ p) ∷ []) t.nodes),
      omega (arith, length-append front ((n ∷ p) ∷ []), count),
      (
        n,
        subst (In (n ∷ p)) (sym nodes) (In-append front ((n ∷ p) ∷ t.nodes) (n ∷ p) (inl refl)),
        refl,
        same,
        leads,
      ),
      num,
    )
