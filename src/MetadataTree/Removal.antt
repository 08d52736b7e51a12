-- ===== src/MetadataTree/Removal.antt =====
-- Copying paths without an attribute.
use caliper.Base.{
  ℕ, suc, ◌+◌, ◌≡◌, ◌≢◌, inl, inr, refl, sym, ap, ◌∙◌, subst, arith, ◌==◌, if◌then◌else◌,
}
use caliper.Base.{
  Bool, true, false, List, [], ◌∷◌, ◌++◌, append_assoc, append-nil, Option, some, All, length,
  length-append,
}
use caliper.Datum.{DataNode, DataPath}
use caliper.MetadataTree.{TreeConfig, Tree, path_id, Label, or_root}
use caliper.MetadataTree.Shape.{
  In, Known, label_of, IsConfig, IsTree, IsPlaced, Leads, All-In, Leads-append, Leads-snoc,
}
use caliper.MetadataTree.Modify.{
  find_node_with_attribute, copy_unless, copy_path, copy_path_without_attribute,
  remove_first_in_path,
}
use caliper.MetadataTree.Copies.{HasBlocks, get_or_copy_node-IsCopied}

-- The labels of the nodes that are copied, the uppermost first.
abbrev pub kept_labels : ℕ → List DataNode → List Label
kept_labels attr [] = []
kept_labels attr (n ∷ up) =
    kept_labels attr up ++ (if attr == n.attribute then [] else label_of n ∷ [])

-- The way from `r` down to the new end of the path.
abbrev pub IsCopiedPath :
    TreeConfig → Tree → List Label → DataPath → ℕ → Option (Tree × DataPath) → Type 0
IsCopiedPath cfg t ls r k result =
    (t' : Tree) × (q : DataPath) × (front : List DataPath) × (result ≡ some (t', q))
    × IsTree cfg t'
    × (t'.nodes ≡ front ++ t.nodes)
    × HasBlocks cfg t' k
    × Known t'.nodes q
    × Leads t'.nodes r ls q

-- The nodes of a path above `r` are not `r`.
abbrev pub IsPathTo : DataPath → List DataNode → Type 0
IsPathTo r front = All (λ (n : DataNode). n.id ≢ path_id r) front

copy_path_self :
    (cfg : TreeConfig) (t : Tree) (attr : ℕ) (r : DataPath) → copy_path cfg t attr r r ≡ some (t, r)
unfolding copy_path
copy_path_self cfg t attr [] = refl
copy_path_self cfg t attr (n ∷ up) = let e : n.id == n.id ≡ true = ground arith in rw e refl

or_root-Known :
    {cfg : TreeConfig} {t : Tree} (w : IsTree cfg t) (q : DataPath)
    → Known t.nodes q
    → or_root q ≡ q
or_root-Known w [] (inl e) = cc
or_root-Known {cfg} {t} w [] (inr i) = absurd (All-In (IsPlaced t.nodes) t.nodes [] w.placed i)
or_root-Known w (n ∷ up) known = refl

module _ {cfg : TreeConfig} (ok : IsConfig cfg) where
  copy_unless-IsCopiedPath :
      (skip : Bool) (t t' : Tree) (n : DataNode) (ls : List Label) (r q : DataPath)
      (front : List DataPath) (k : ℕ)
      → IsTree cfg t'
      → t'.nodes ≡ front ++ t.nodes
      → HasBlocks cfg t' (suc k)
      → Known t'.nodes q
      → Leads t'.nodes r ls q
      → IsCopiedPath cfg t
          (ls ++ (if skip then [] else label_of n ∷ []))
          r
          k
          (copy_unless cfg skip t' n q)
  copy_unless-IsCopiedPath true t t' n ls r q front k w e (may, blocks) known leads = (
    t',
    q,
    front,
    refl,
    w,
    e,
    (may, omega arith),
    known,
    subst (λ x. Leads t'.nodes r x q) (sym (append-nil ls)) leads,
  )
  copy_unless-IsCopiedPath false t t' n ls r q front k w e has known leads =
      let here = or_root-Known w q known in
      let (u, c, more, run, w', e', has', i, a, s) =
        get_or_copy_node-IsCopied {cfg = cfg} ok t' n q k w
          (subst (Known t'.nodes) (sym here) known) has in
      (
        u,
        c ∷ q,
        more ++ front,
        rw (run, here) refl,
        w',
        e' ∙ (ap (λ (x : List DataPath). more ++ x) e ∙ sym (append_assoc more front t.nodes)),
        has',
        inr (subst (λ x. In (c ∷ x) u.nodes) here i),
        Leads-snoc u.nodes r q ls c (label_of n).0 n.value
            (subst (λ x. Leads x r ls q) (sym e') (Leads-append more t'.nodes r ls q leads))
            (subst (λ x. In (c ∷ x) u.nodes) here i) a s,
      )

  copy_path-IsCopiedPath :
      (t : Tree) (attr : ℕ) (front : List DataNode) (r : DataPath) (k : ℕ)
      → IsTree cfg t
      → Known t.nodes r
      → IsPathTo r front
      → HasBlocks cfg t (length front + k)
      → IsCopiedPath cfg t (kept_labels attr front) r k (copy_path cfg t attr (front ++ r) r)
  unfolding copy_path
  copy_path-IsCopiedPath t attr [] r k w known path (may, blocks) =
      (t, r, [], copy_path_self cfg t attr r, w, refl, (may, omega arith), known, refl)
  copy_path-IsCopiedPath t attr (n ∷ up) r k w known (other, path) (may, blocks) =
      let off : n.id == path_id r ≡ false = ground arith in
      let (t', q, more, run, w', e, has, here, leads) =
        copy_path-IsCopiedPath t attr up r (suc k) w known path (may, omega arith) in
      rw (off, run)
        (copy_unless-IsCopiedPath (attr == n.attribute) t t' n (kept_labels attr up) r q more k w' e
          has here leads)

-- Under settings with at least one node per block, fewer than 2^32 blocks of at most 2^64-8
-- bytes, and no id as large as the root's: in a well-formed tree with a block to spare for every
-- node and a pool that may expand, a path is copied without an attribute from below a given node
-- of it on, which is the root or a node of the tree and whose id no node below it has: below the
-- given node follow the attributes and values of the path's other nodes, in their order, in a
-- tree that keeps all its nodes and stays well formed.
pub copy_path_without_attribute-IsCopiedPath :
    {cfg : TreeConfig} (t : Tree) (attr : ℕ) (front : List DataNode) (r : DataPath)
    → IsConfig cfg
    → IsTree cfg t
    → Known t.nodes r
    → IsPathTo r front
    → HasBlocks cfg t (length front)
    → IsCopiedPath cfg t
        (kept_labels attr front)
        r
        0
        (copy_path_without_attribute cfg t attr (front ++ r) r)
unfolding copy_path_without_attribute
copy_path_without_attribute-IsCopiedPath {cfg} t attr front r ok w known path (may, blocks) =
    rw (or_root-Known w r known)
      (copy_path-IsCopiedPath {cfg = cfg} ok t attr front r 0 w known path (may, omega arith))

find_node_with_attribute-first :
    (attr : ℕ) (front : List DataNode) (n : DataNode) (up : DataPath)
    → All (λ (m : DataNode). m.attribute ≢ attr) front
    → n.attribute ≡ attr
    → find_node_with_attribute attr (front ++ (n ∷ up)) ≡ n ∷ up
unfolding find_node_with_attribute
find_node_with_attribute-first attr [] n up h e =
    let same : n.attribute == attr ≡ true = ground arith in rw same refl
find_node_with_attribute-first attr (m ∷ front) n up (other, h) e =
    let off : m.attribute == attr ≡ false = ground arith in
    rw off (find_node_with_attribute-first attr front n up h e)

abbrev pub labels_of : List DataNode → List Label
labels_of [] = []
labels_of (n ∷ up) = labels_of up ++ (label_of n ∷ [])

-- Nothing else is left out.
kept_first :
    (attr : ℕ) (front : List DataNode) (n : DataNode)
    → All (λ (m : DataNode). m.attribute ≢ attr) front
    → n.attribute ≡ attr
    → kept_labels attr (front ++ (n ∷ [])) ≡ labels_of front
kept_first attr [] n h e = let same : attr == n.attribute ≡ true = ground arith in rw same refl
kept_first attr (m ∷ front) n (other, h) e =
    let off : attr == m.attribute ≡ false = ground arith in
    rw off (ap (λ (x : List Label). x ++ (label_of m ∷ [])) (kept_first attr front n h e))

-- Under settings with at least one node per block, fewer than 2^32 blocks of at most 2^64-8
-- bytes, and no id as large as the root's: remove_first_in_path of a path whose lowest node with
-- the attribute is given, whose parent is the root or a node of the well-formed tree and has an
-- id that no node below it has, with a block to spare for every node and a pool that may expand:
-- the nodes below that node are found or copied below its parent, in a tree that keeps all its
-- nodes and stays well formed.
pub remove_first_in_path-IsCopiedPath :
    {cfg : TreeConfig} (t : Tree) (front : List DataNode) (n : DataNode) (up : DataPath)
    → IsConfig cfg
    → IsTree cfg t
    → Known t.nodes up
    → All (λ (m : DataNode). m.attribute ≢ n.attribute) front
    → IsPathTo up (front ++ (n ∷ []))
    → HasBlocks cfg t (suc (length front))
    → IsCopiedPath cfg t
        (labels_of front)
        up
        0
        (remove_first_in_path cfg t (front ++ (n ∷ up)) n.attribute)
unfolding remove_first_in_path
remove_first_in_path-IsCopiedPath {cfg} t front n up ok w known lowest path (may, blocks) =
    let found = find_node_with_attribute-first n.attribute front n up lowest refl in
    let copied =
      copy_path_without_attribute-IsCopiedPath {cfg = cfg} t n.attribute (front ++ (n ∷ [])) up ok w
        known path (may, omega (arith, length-append front (n ∷ []))) in
    let path_of =
      subst
        (λ x.
          IsCopiedPath cfg t (kept_labels n.attribute (front ++ (n ∷ []))) up 0
            (copy_path_without_attribute cfg t n.attribute x up))
        (append_assoc front (n ∷ []) up) copied in
    rw found (
      subst
        (λ ls.
          IsCopiedPath cfg t ls up 0
            (copy_path_without_attribute cfg t n.attribute (front ++ (n ∷ up)) up))
        (kept_first n.attribute front n lowest refl) path_of)
