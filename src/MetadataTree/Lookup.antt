-- ===== src/MetadataTree/Lookup.antt =====
-- Finding nodes that are there.
use caliper.Base.{
  ℕ, suc, ◌+◌, ◌*◌, ◌≤◌, ◌<◌, ◌≡◌, ◌⊎◌, inl, inr, refl, sym, ap, ◌∙◌, subst, arith, ◌==◌,
  if◌then◌else◌,
}
use caliper.Base.{Bool, true, false, Bool-cases, both_true, List, [], ◌∷◌, Option, none, some, All}
use caliper.Datum.{same_sym, same_trans, Datum, DataNode, DataPath, same_value}
use caliper.Node.{inv_id}
use caliper.MetadataTree.{Key, TreeConfig, Tree, path_id, Label, is_child, equals, find_child, walk}
use caliper.MetadataTree.Shape.{
  In, Known, IsBlock, IsPlaced, next_id, IsTwin, NoTwins, IsConfig, IsTree, Leads, All-In,
  one_of_id,
}

-- The first of two answers.
first_some {ℓ} :
    {A : Type ℓ} (b : Bool) (q c : A) (r : Option A)
    → (if b then some q else r) ≡ some c
    → ((b ≡ true) × (q ≡ c)) ⊎ (r ≡ some c)
first_some true q c r h = inl (refl, cc)
first_some false q c r h = inr h

first_none {ℓ} :
    {A : Type ℓ} (b : Bool) (q : A) (r : Option A)
    → (if b then some q else r) ≡ none
    → (b ≡ false) × (r ≡ none)
first_none true q r h = cc
first_none false q r h = (refl, h)

find_child-some :
    (nodes : List DataPath) (p c : DataPath) (l : Label)
    → find_child nodes p l ≡ some c
    → In c nodes × (is_child p l c ≡ true)
unfolding find_child
find_child-some [] p c l h = cc
find_child-some (q ∷ qs) p c l h = elim (first_some (is_child p l q) q c (find_child qs p l) h) [
  | inl (e, same) ↦ (inl same, ap (is_child p l) (sym same) ∙ e)
  | inr later ↦ let (i, e) = find_child-some qs p c l later in (inr i, e)
]

pub find_child-none :
    (nodes : List DataPath) (p : DataPath) (l : Label)
    → find_child nodes p l ≡ none
    → All (λ (q : DataPath). is_child p l q ≡ false) nodes
unfolding find_child
find_child-none [] p l h = tt
find_child-none (q ∷ qs) p l h =
    let (e, later) = first_none (is_child p l q) q (find_child qs p l) h in
    (e, find_child-none qs p l later)

-- A newer node with the label would be a twin.
IsTwin-of :
    (y p : DataPath) (n : DataNode) (k : Key) (v : Datum)
    → is_child p (k, v) y ≡ true
    → n.attribute ≡ k.id
    → same_value n.value v ≡ true
    → IsTwin y (n ∷ p)
IsTwin-of [] p n k v h e f = cc
IsTwin-of (m ∷ up) p n k v h e f =
    let (parent, label) = both_true (path_id up == path_id p) (equals (m ∷ up) (k, v)) h in
    let (attr, value) = both_true (m.attribute == k.id) (same_value m.value v) label in
    let q : path_id p == path_id up ≡ true = ground arith in
    let a : n.attribute == m.attribute ≡ true = ground arith in
    let s : same_value n.value m.value ≡ true =
      same_trans n.value v m.value f (same_sym m.value v value) in
    rw (q, a, s)

find_unique :
    (nodes : List DataPath) (p : DataPath) (n : DataNode) (k : Key) (v : Datum)
    → NoTwins nodes
    → In (n ∷ p) nodes
    → n.attribute ≡ k.id
    → same_value n.value v ≡ true
    → find_child nodes p (k, v) ≡ some (n ∷ p)
unfolding find_child
find_unique [] p n k v h i e f = absurd i
find_unique (y ∷ ys) p n k v (h, hs) (inl at) e f =
    let q : path_id p == path_id p ≡ true = ground arith in
    let a : n.attribute == k.id ≡ true = ground arith in
    let found : is_child p (k, v) y ≡ true = ap (is_child p (k, v)) at ∙ rw (q, a, f) refl in
    rw found (ap some at)
find_unique (y ∷ ys) p n k v (h, hs) (inr i) e f = elim (Bool-cases (is_child p (k, v) y)) [
  | inl twin ↦ absurd (All-In (λ q. ¬ IsTwin y q) ys (n ∷ p) h i (IsTwin-of y p n k v twin e f))
  | inr other ↦ rw other (find_unique ys p n k v hs i e f)
]

mul_mono : (a b c : ℕ) → a ≤ b → a * c ≤ b * c
mul_mono a b c h = grind arith

suc_mul : (a c : ℕ) → suc a * c ≡ a * c + c
suc_mul a c = grind arith

pub next_id_le :
    (cfg : TreeConfig) (o : Option (ℕ × ℕ)) (m k : ℕ)
    → IsBlock cfg o m
    → m ≤ k
    → next_id cfg o ≤ k * cfg.nodes_per_block
next_id_le cfg none m k h g = omega arith
next_id_le cfg (some (b, i)) m k (lo, hi) g =
    let n = cfg.nodes_per_block in omega (arith, mul_mono (suc b) k n (omega arith), suc_mul b n)

module _ {cfg : TreeConfig} {t : Tree} (ok : IsConfig cfg) (w : IsTree cfg t) where
  -- No node has the id of the root.
  pub next_id-bound : next_id cfg t.block ≤ inv_id
  next_id-bound =
      omega
        (arith, next_id_le cfg t.block t.next_block cfg.num_blocks w.block w.blocks_fit, ok.ids_fit)

  pub Known-same :
      (p q : DataPath) → Known t.nodes p → Known t.nodes q → path_id p ≡ path_id q → p ≡ q
  Known-same p q (inl e) (inl f) h = e ∙ sym f
  Known-same p q (inl e) (inr j) h =
      let lo = All-In (λ r. path_id r < next_id cfg t.block) t.nodes q w.below j in
      absurd (omega (arith, lo, ap path_id e, next_id-bound))
  Known-same p q (inr i) (inl f) h =
      let lo = All-In (λ r. path_id r < next_id cfg t.block) t.nodes p w.below i in
      absurd (omega (arith, lo, ap path_id f, next_id-bound))
  Known-same p q (inr i) (inr j) h = one_of_id t.nodes p q w.descending i j h

  child_shape :
      (p c : DataPath) (k : Key) (v : Datum)
      → Known t.nodes p
      → In c t.nodes
      → is_child p (k, v) c ≡ true
      → IsPlaced t.nodes c
      → (n : DataNode) × (c ≡ n ∷ p)
        × In (n ∷ p) t.nodes
        × (n.attribute ≡ k.id)
        × (same_value n.value v ≡ true)
  child_shape p [] k v known i e placed = absurd placed
  child_shape p (n ∷ up) k v known i e placed =
      let (parent, label) = both_true (path_id up == path_id p) (equals (n ∷ up) (k, v)) e in
      let (attr, value) = both_true (n.attribute == k.id) (same_value n.value v) label in
      let same : up ≡ p = Known-same up p placed known (ground arith) in
      (
        n,
        ap (λ (x : DataPath). n ∷ x) same,
        subst (λ (x : DataPath). In (n ∷ x) t.nodes) same i,
        ground arith,
        value,
      )

  -- A child that is found is a node below `p` with the label.
  pub child_of :
      (p c : DataPath) (k : Key) (v : Datum)
      → Known t.nodes p
      → find_child t.nodes p (k, v) ≡ some c
      → (n : DataNode) × (c ≡ n ∷ p)
        × In (n ∷ p) t.nodes
        × (n.attribute ≡ k.id)
        × (same_value n.value v ≡ true)
  child_of p c k v known h =
      let (i, e) = find_child-some t.nodes p c (k, v) h in
      child_shape p c k v known i e (All-In (IsPlaced t.nodes) t.nodes c w.placed i)

  -- A node below `p` with the label is the one that is found.
  pub find_child-In :
      (p : DataPath) (n : DataNode) (k : Key) (v : Datum)
      → In (n ∷ p) t.nodes
      → n.attribute ≡ k.id
      → same_value n.value v ≡ true
      → find_child t.nodes p (k, v) ≡ some (n ∷ p)
  find_child-In p n k v i e f = find_unique t.nodes p n k v w.no_twins i e f

  -- Following labels that lead through nodes that are there.
  pub walk-Leads :
      (p : DataPath) (ls : List Label) (q : DataPath) → Leads t.nodes p ls q → walk t p ls ≡ (q, [])
  unfolding walk
  walk-Leads p [] q h = ap (λ (x : DataPath). (x, [])) h
  walk-Leads p ((k, v) ∷ ls) q (n, i, e, f, h) =
      rw (find_child-In p n k v i e f, walk) (walk-Leads (n ∷ p) ls q h)
