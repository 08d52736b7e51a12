-- ===== src/MetadataTree/Copies.antt =====
-- Copying one node.
use caliper.Base.{
  ℕ, suc, ◌+◌, ◌%◌, ◌^◌, ◌*◌, ◌≤◌, ◌≡◌, ◌⊎◌, inl, inr, refl, sym, ap, ◌∙◌, subst, arith, true-false,
  ltb,
}
use caliper.Base.{Bool, true, false, Option-cases, List, [], ◌∷◌, ◌++◌, Option, none, some}
use caliper.Datum.{DataNode, DataPath, same_value, same_refl}
use caliper.MetadataTree.{TreeConfig, Tree, next_node, find_child, or_root}
use caliper.MetadataTree.Shape.{In, Known, label_of, IsConfig, IsTree, with_count}
use caliper.MetadataTree.Lookup.{find_child-none, child_of}
use caliper.MetadataTree.Create.{HasRoom, added, add-IsTree, room_at}
use caliper.MetadataTree.Blocks.{IsExhausted, have_free_nodeblock-HasBlock}
use caliper.MetadataTree.Modify.{copy_in, get_or_copy_node}

-- The pool may expand, and there are blocks for `k` nodes.
abbrev pub HasBlocks : TreeConfig → Tree → ℕ → Type 0
HasBlocks cfg t k = (t.pool.can_expand ≡ true) × (t.next_block + k ≤ cfg.num_blocks)

-- A node below `p` with the attribute and the value of `n`.
abbrev pub IsCopied :
    TreeConfig → Tree → DataNode → DataPath → ℕ → Option (Tree × Option DataPath) → Type 0
IsCopied cfg t n p k result =
    (t' : Tree) × (c : DataNode) × (front : List DataPath) × (result ≡ some (t', some (c ∷ p)))
    × IsTree cfg t'
    × (t'.nodes ≡ front ++ t.nodes)
    × HasBlocks cfg t' k
    × In (c ∷ p) t'.nodes
    × (c.attribute ≡ n.attribute)
    × (same_value c.value n.value ≡ true)

module _ {cfg : TreeConfig} (ok : IsConfig cfg) where
  copy_in-IsCopied :
      (t t' : Tree) (free : Bool) (n : DataNode) (p : DataPath) (k : ℕ)
      → IsTree cfg t'
      → t'.nodes ≡ t.nodes
      → t'.pool.can_expand ≡ t.pool.can_expand
      → t'.next_block ≤ t.next_block + 1
      → ((free ≡ false) × IsExhausted cfg t) ⊎ ((free ≡ true) × HasRoom cfg t'.block 1)
      → Known t.nodes p
      → HasBlocks cfg t (suc k)
      → find_child t.nodes p (label_of n) ≡ none
      → IsCopied cfg t n p k (copy_in cfg n p (t', free))
  copy_in-IsCopied t t' false n p k w e same next (inl (_, inl off)) known (may, blocks) alone =
      absurd (true-false (sym may ∙ off))
  copy_in-IsCopied t t' false n p k w e same next (inl (_, inr full)) known (may, blocks) alone =
      absurd (omega arith)
  copy_in-IsCopied t t' false n p k w e same next (inr (h, _)) known has alone = cc
  copy_in-IsCopied t t' true n p k w e same next (inl (h, _)) known has alone = cc
  copy_in-IsCopied t t' true n p k w e same next (inr (_, room)) known (may, blocks) alone =
      let (b, i, at, free) = room_at cfg t'.block 1 room in
      let c : DataNode = record {
        id = b * cfg.nodes_per_block + i;
        attribute = n.attribute;
        value = n.value;
      } in
      let inside : ltb i cfg.nodes_per_block ≡ true = ground arith in
      let made : next_node cfg t'.block (label_of n).0 n.value ≡ some c =
        ap (λ o. next_node cfg o (label_of n).0 n.value) at ∙ rw inside refl in
      let w' =
        add-IsTree ok t' c p b i w (subst (λ ps. Known ps p) (sym e) known) at (omega arith) refl (
          find_child-none t'.nodes p (label_of n)
            (subst (λ ps. find_child ps p (label_of n) ≡ none) (sym e) alone)) in
      (
        record (added t' c p) { num_nodes = (t'.num_nodes + 1) % 2 ^ 32 },
        c,
        (c ∷ p) ∷ [],
        rw made refl,
        with_count (added t' c p) ((t'.num_nodes + 1) % 2 ^ 32) w',
        ap (λ ps. (c ∷ p) ∷ ps) e,
        (same ∙ may, omega arith),
        inl refl,
        refl,
        same_refl n.value,
      )

  pub get_or_copy_node-IsCopied :
      (t : Tree) (n : DataNode) (p : DataPath) (k : ℕ)
      → IsTree cfg t
      → Known t.nodes (or_root p)
      → HasBlocks cfg t (suc k)
      → IsCopied cfg t n (or_root p) k (get_or_copy_node cfg t n p)
  unfolding get_or_copy_node
  get_or_copy_node-IsCopied t n p k w known (may, blocks) =
      elim (Option-cases (find_child t.nodes (or_root p) (label_of n))) [
        | inl e ↦
            let (t', free, run, w', nodes, num, same, next, room) =
              have_free_nodeblock-HasBlock t 1 ok ok.some_nodes w in
            rw (e, get_or_copy_node, run)
              (copy_in-IsCopied t t' free n (or_root p) k w' nodes same next room known
                (may, blocks) e)
        | inr (c, e) ↦
            let (m, same, i, a, s) = child_of ok w (or_root p) c (label_of n).0 n.value known e in
            rw (e, get_or_copy_node, same) (t, m, [], refl, w, refl, (may, omega arith), i, a, s)
      ]
