-- ===== src/CsvWriter/Order.antt =====
-- What a record refers to is written before it.
use caliper.Base.{
  ℕ, zero, suc, ◌+◌, ◌≤◌, ◌<◌, ◌≡◌, ◌≢◌, ◌⊎◌, inl, inr, refl, sym, ap, ◌∙◌, subst, arith, ltb, ◌==◌,
  ◌||◌, true, false, Bool-cases, true-false,
}
use caliper.Base.{List, [], ◌∷◌, ◌++◌, append_assoc, Option, some, All, All-mono}
use caliper.Base.Text.{one_of}
use caliper.Node.{Node, NodePtr, inv_id, path_id}
use caliper.CsvWriter.{
  Db, Line, node_line, record_line, Writer, add_node, write_parent, write_found, write_node,
}

abbrev pub In : ℕ → List ℕ → Type 0
In x [] = ⊥
In x (y ∷ ys) = (x ≡ y) ⊎ In x ys

-- The ids of the node records.
abbrev pub written_ids : List Line → List ℕ
written_ids [] = []
written_ids (node_line p ∷ ls) = path_id p ∷ written_ids ls
written_ids (record_line name nodes attrs vals ∷ ls) = written_ids ls

-- The node is a bootstrap node, is written, or is not in the database.
abbrev pub IsDone : Db → List ℕ → ℕ → Type 0
IsDone db ids id = (id < 11) ⊎ (In id ids ⊎ (db id ≡ []))

-- Attribute and parent are done.
abbrev pub HasContext : Db → List ℕ → NodePtr → Type 0
HasContext db ids [] = ⊥
HasContext db ids (n ∷ up) =
    IsDone db ids n.attribute × ((path_id up ≡ inv_id) ⊎ IsDone db ids (path_id up))

-- No node is written twice, and what a line refers to is done before it.
abbrev pub IsOrdered : Db → List Line → Type 0
IsOrdered db [] = Unit
IsOrdered db (node_line p ∷ ls) =
    (¬ In (path_id p) (written_ids ls)) × HasContext db (written_ids ls) p × IsOrdered db ls
IsOrdered db (record_line name nodes attrs vals ∷ ls) =
    All (IsDone db (written_ids ls)) nodes
    × All (IsDone db (written_ids ls)) attrs
    × IsOrdered db ls

pub record IsWriter (db : Db) (w : Writer) : Type 0 where
  pub ordered : IsOrdered db w.lines
  pub in_step : w.written ≡ written_ids w.lines

-- Nodes have their ids, and attributes and parents come before the nodes in some order.
pub record IsDb (db : Db) (rank : ℕ → ℕ) : Type 0 where
  pub ids : (id : ℕ) (n : Node) (up : NodePtr) → db id ≡ n ∷ up → n.id ≡ id
  pub attributes_first :
      (id : ℕ) (n : Node) (up : NodePtr) → 11 ≤ id → db id ≡ n ∷ up → rank n.attribute < rank id
  pub parents_first :
      (id : ℕ) (n : Node) (up : NodePtr)
      → 11 ≤ id
      → db id ≡ n ∷ up
      → path_id up ≢ inv_id
      → rank (path_id up) < rank id

one_of-In : (ids : List ℕ) (id : ℕ) → one_of ids id ≡ true → In id ids
one_of-In [] id h = cc
one_of-In (x ∷ ids) id h = elim (Bool-cases (id == x)) [
  | inl e ↦ inl (ground arith)
  | inr e ↦ inr (one_of-In ids id (sym (ap (λ b. b || one_of ids id) e) ∙ h))
]

In-one_of : (ids : List ℕ) (id : ℕ) → In id ids → one_of ids id ≡ true
In-one_of [] id i = absurd i
In-one_of (x ∷ ids) id (inl e) = let s : id == x ≡ true = ground arith in rw s refl
In-one_of (x ∷ ids) id (inr i) = elim (Bool-cases (id == x)) [
  | inl e ↦ rw e refl
  | inr e ↦ rw e (In-one_of ids id i)
]

In-append : (xs ys : List ℕ) (x : ℕ) → In x ys → In x (xs ++ ys)
In-append [] ys x i = i
In-append (y ∷ xs) ys x i = inr (In-append xs ys x i)

pub IsDone-append : (db : Db) (xs ys : List ℕ) (id : ℕ) → IsDone db ys id → IsDone db (xs ++ ys) id
IsDone-append db xs ys id (inl small) = inl small
IsDone-append db xs ys id (inr (inl i)) = inr (inl (In-append xs ys id i))
IsDone-append db xs ys id (inr (inr e)) = inr (inr e)

-- Ids of lower ranks are others.
new-In :
    (rank : ℕ → ℕ) (id : ℕ) (front ids : List ℕ)
    → All (λ (x : ℕ). rank x < rank id) front
    → ¬ In id ids
    → ¬ In id (front ++ ids)
new-In rank id [] ids h new i = new i
new-In rank id (x ∷ front) ids (lo, h) new (inl e) = absurd (omega (arith, lo, ap rank e))
new-In rank id (x ∷ front) ids (lo, h) new (inr i) = new-In rank id front ids h new i

-- The nodes written since `ws`, of rank `r` or less.
abbrev pub Written : Db → (ℕ → ℕ) → ℕ → Writer → ℕ → Option Writer → Type 0
Written db rank r w id result =
    (w' : Writer) × (front : List ℕ) × (result ≡ some w')
    × IsWriter db w'
    × (w'.written ≡ front ++ w.written)
    × All (λ (x : ℕ). rank x ≤ r) front
    × IsDone db w'.written id

unseen :
    (id : ℕ) (ids : List ℕ)
    → (ltb id 11 || one_of ids id) ≡ false
    → (11 ≤ id) × (one_of ids id ≡ false)
unseen id ids h = elim (Bool-cases (ltb id 11)) [
  | inl e ↦ absurd (true-false (sym (ap (λ b. b || one_of ids id) e) ∙ h))
  | inr e ↦ (ground arith, sym (ap (λ b. b || one_of ids id) e) ∙ h)
]

seen : (db : Db) (id : ℕ) (ids : List ℕ) → (ltb id 11 || one_of ids id) ≡ true → IsDone db ids id
seen db id ids h = elim (Bool-cases (ltb id 11)) [
  | inl e ↦ inl (ground arith)
  | inr e ↦ inr (inl (one_of-In ids id (sym (ap (λ b. b || one_of ids id) e) ∙ h)))
]

pub All-append {κ} : (P : ℕ → Type κ) (xs ys : List ℕ) → All P xs → All P ys → All P (xs ++ ys)
All-append P [] ys h g = g
All-append P (x ∷ xs) ys (p, h) g = (p, All-append P xs ys h g)

module _ {db : Db} {rank : ℕ → ℕ} (ok : IsDb db rank) where
  -- The record of a node whose context is done.
  add_node-Written :
      (w w' : Writer) (front : List ℕ) (id : ℕ) (n : Node) (up : NodePtr)
      → IsWriter db w'
      → w'.written ≡ front ++ w.written
      → All (λ (x : ℕ). rank x < rank id) front
      → one_of w.written id ≡ false
      → n.id ≡ id
      → HasContext db w'.written (n ∷ up)
      → Written db rank (rank id) w id (some (add_node id (n ∷ up) w'))
  add_node-Written w w' front id n up g e lo new same context =
      let fresh : ¬ In id w'.written = λ i.
        new-In rank id front w.written lo (λ j. true-false (sym (In-one_of w.written id j) ∙ new))
          (subst (In id) e i) in
      elim (Bool-cases (one_of w'.written id)) [
        | inl old ↦ absurd (fresh (one_of-In w'.written id old))
        | inr other ↦ rw other (
          record w' {
            lines = node_line (n ∷ up) ∷ w'.lines;
            num_written = w'.num_written + 1;
            written = id ∷ w'.written;
          },
          id ∷ front,
          refl,
          record {
            ordered = (
              subst (λ x. ¬ In x (written_ids w'.lines)) (sym same)
                  (subst (λ ids. ¬ In id ids) g.in_step fresh),
              subst (λ ids. HasContext db ids (n ∷ up)) g.in_step context,
              g.ordered,
            );
            in_step =
                ap (λ ids. id ∷ ids) g.in_step ∙ ap (λ x. x ∷ written_ids w'.lines) (sym same);
          },
          ap (λ ids. id ∷ ids) e,
          (omega arith, All-mono {P = λ (x : ℕ). rank x < rank id} (λ x h. omega arith) front lo),
          inr (inl (inl refl)),
        )
      ]

  -- What a call for a node of lower rank does.
  abbrev pub Writes : ℕ → (ℕ → Writer → Option Writer) → Type 0
  Writes r write =
      (id : ℕ) (w : Writer)
      → rank id < r
      → IsWriter db w
      → Written db rank (rank id) w id (write id w)

  write_parent-Written :
      (write : ℕ → Writer → Option Writer) (r id : ℕ) (w : Writer)
      → Writes r write
      → (id ≢ inv_id → rank id < r)
      → IsWriter db w
      → (w' : Writer) × (front : List ℕ) × (write_parent write id w ≡ some w')
        × IsWriter db w'
        × (w'.written ≡ front ++ w.written)
        × All (λ (x : ℕ). rank x < r) front
        × ((id ≡ inv_id) ⊎ IsDone db w'.written id)
  write_parent-Written write r id w step lo g = elim (Bool-cases (id == inv_id)) [
    | inl e ↦ rw (e, write_parent) (w, [], refl, g, refl, tt, inl (ground arith))
    | inr e ↦
        let low = lo (λ same. true-false (sym (ground arith) ∙ e)) in
        let (w', front, run, g', more, ranks, done) = step id w low g in
        rw (e, write_parent)
          (
            w',
            front,
            run,
            g',
            more,
            All-mono {P = λ (x : ℕ). rank x ≤ rank id} (λ x h. omega arith) front ranks,
            inr done,
          )
  ]

  write_found-Written :
      (write : ℕ → Writer → Option Writer) (id : ℕ) (p : NodePtr) (w : Writer)
      → Writes (rank id) write
      → 11 ≤ id
      → db id ≡ p
      → one_of w.written id ≡ false
      → IsWriter db w
      → Written db rank (rank id) w id (write_found write id p w)
  write_found-Written write id [] w step big at new g = (w, [], refl, g, refl, tt, inr (inr at))
  write_found-Written write id (n ∷ up) w step big at new g =
      let (w1, front1, run1, g1, e1, ranks1, done1) =
        step n.attribute w (ok.attributes_first id n up big at) g in
      let (w2, front2, run2, g2, e2, ranks2, done2) =
        write_parent-Written write (rank id) (path_id up) w1 step (ok.parents_first id n up big at)
          g1 in
      let lower = ok.attributes_first id n up big at in
      let front = front2 ++ front1 in
      rw (run1, run2)
        (add_node-Written w w2 front id n up g2
          (e2 ∙ (ap (λ ids. front2 ++ ids) e1 ∙ sym (append_assoc front2 front1 w.written)))
          (All-append (λ x. rank x < rank id) front2 front1 ranks2
            (All-mono {P = λ (x : ℕ). rank x ≤ rank n.attribute} (λ x h. omega arith) front1
              ranks1))
          new (ok.ids id n up at)
          (
            subst (λ ids. IsDone db ids n.attribute) (sym e2)
                (IsDone-append db front2 w1.written n.attribute done1),
            done2,
          ))

  pub write_node-Written : (fuel : ℕ) → Writes fuel (write_node db fuel)
  unfolding write_node
  write_node-Written zero id w lo g = absurd (omega arith)
  write_node-Written (suc fuel) id w lo g = elim (Bool-cases (ltb id 11 || one_of w.written id)) [
    | inl old ↦ rw (old, write_node) (w, [], refl, g, refl, tt, seen db id w.written old)
    | inr new ↦
        let (big, off) = unseen id w.written new in
        rw (new, write_node)
          (write_found-Written (write_node db fuel) id (db id) w
            (λ x v low. write_node-Written fuel x v (omega arith)) big refl off g)
  ]
