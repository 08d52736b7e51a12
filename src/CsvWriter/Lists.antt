-- ===== src/CsvWriter/Lists.antt =====
-- The arrays of `write_entrylist`.
use caliper.Base.{
  ℕ, zero, suc, ◌≤◌, ◌<◌, ◌≡◌, inl, inr, refl, sym, ap, ◌∙◌, subst, arith, ltb, Bool, true, false,
  Bool-cases,
}
use caliper.Base.{
  List, [], ◌∷◌, ◌++◌, append_assoc, append-nil, Option, some, All, take, length, length-append,
}
use caliper.Base.{take_all}
use caliper.Base.Text.{Text}
use caliper.Variant.{Variant}
use caliper.Node.{NodePtr, path_id}
use caliper.Entry.{Entry, is_immediate, attribute}
use caliper.CsvWriter.{
  Db, record_line, Writer, Gathered, add_ref, add_value, choose, gather, write_entrylist,
}
use caliper.CsvWriter.Order.{IsDone, IsWriter, IsDb, All-append, write_node-Written}
use caliper.CsvWriter.Records.{still-IsDone, EndsWith}

-- What an entry adds to the nodes, the attributes and the values.
abbrev pub ref_of : NodePtr → Bool → List ℕ
ref_of (n ∷ up) is_value = n.id ∷ []
ref_of [] is_value = []

abbrev pub value_if {ℓ} : {A : Type ℓ} → NodePtr → Bool → A → List A
value_if (n ∷ up) is_value a = []
value_if [] true a = a ∷ []
value_if [] false a = []

abbrev pub refs_of : List Entry → List ℕ
refs_of [] = []
refs_of (e ∷ es) = ref_of e.node (is_immediate e) ++ refs_of es

abbrev pub attrs_of : List Entry → List ℕ
attrs_of [] = []
attrs_of (e ∷ es) = value_if e.node (is_immediate e) (attribute e) ++ attrs_of es

abbrev pub vals_of : List Entry → List Variant
vals_of [] = []
vals_of (e ∷ es) = value_if e.node (is_immediate e) e.value ++ vals_of es

-- What does not fit does not count.
take_over {ℓ} :
    {A : Type ℓ} (n : ℕ) (xs ys zs : List A) → n ≤ length xs → take n (xs ++ ys) ≡ take n (xs ++ zs)
take_over zero xs ys zs h = refl
take_over (suc n) [] ys zs h = absurd (omega arith)
take_over (suc n) (x ∷ xs) ys zs h = ap (λ us. x ∷ us) (take_over n xs ys zs (omega arith))

-- The loop adds what fits, and all of it is done.
abbrev Gathers :
    Db → Gathered → Writer → List ℕ → List ℕ → List Variant → Option (Gathered × Writer) → Type 0
Gathers db g w refs attrs vals result =
    (g' : Gathered) × (w' : Writer) × (front : List ℕ) × (result ≡ some (g', w'))
    × IsWriter db w'
    × (w'.written ≡ front ++ w.written)
    × All (IsDone db w'.written) g'.nodes
    × All (IsDone db w'.written) g'.attrs
    × (g'.nodes ≡ take 128 (g.nodes ++ refs))
    × (g'.attrs ≡ take 128 (g.attrs ++ attrs))
    × (g'.vals ≡ take 128 (g.vals ++ vals))

-- What the arrays hold before a round.
record IsGathered (db : Db) (g : Gathered) (w : Writer) : Type 0 where
  pub nodes_fit : length g.nodes ≤ 128
  pub attrs_fit : length g.attrs ≤ 128
  pub in_step : length g.vals ≡ length g.attrs
  pub nodes_done : All (IsDone db w.written) g.nodes
  pub attrs_done : All (IsDone db w.written) g.attrs

later :
    (db : Db) (g : Gathered) (w w1 : Writer) (front1 refs attrs : List ℕ) (vals : List Variant)
    (result : Option (Gathered × Writer))
    → w1.written ≡ front1 ++ w.written
    → Gathers db g w1 refs attrs vals result
    → Gathers db g w refs attrs vals result
later db g w w1 front1 refs attrs vals result e (g', w', front, run, wf, more, dn, da, en, ea, ev) =
    (
      g',
      w',
      front ++ front1,
      run,
      wf,
      more ∙ (ap (λ ws. front ++ ws) e ∙ sym (append_assoc front front1 w.written)),
      dn,
      da,
      en,
      ea,
      ev,
    )

choose-Gathers :
    (db : Db) (g : Gathered) (w w1 w2 : Writer) (front1 front2 : List ℕ) (p : NodePtr)
    (is_value : Bool) (a : ℕ) (v : Variant) (refs attrs : List ℕ) (vals : List Variant)
    (skip refer immediate : Option (Gathered × Writer))
    → length g.vals ≡ length g.attrs
    → Gathers db g w refs attrs vals skip
    → w1.written ≡ front1 ++ w.written
    → (length g.nodes < 128 → Gathers db (add_ref (path_id p) g) w1 refs attrs vals refer)
    → w2.written ≡ front2 ++ w.written
    → (length g.attrs < 128 → Gathers db (add_value a v g) w2 refs attrs vals immediate)
    → Gathers db g w
        (ref_of p is_value ++ refs)
        (value_if p is_value a ++ attrs)
        (value_if p is_value v ++ vals)
        (choose p is_value
          (ltb 127 (length g.nodes))
          (ltb 127 (length g.attrs))
          skip
          refer
          immediate)
choose-Gathers db g w w1 w2 front1 front2 [] false a v refs attrs vals skip refer immediate same hs
      e1 hr e2 hi =
    hs
choose-Gathers db g w w1 w2 front1 front2 [] true a v refs attrs vals skip refer immediate same hs
      e1 hr e2 hi =
    elim (Bool-cases (ltb 127 (length g.attrs))) [
      | inl full ↦
          let (g', w', front, run, wf, more, dn, da, en, ea, ev) = hs in
          rw full (
            g',
            w',
            front,
            run,
            wf,
            more,
            dn,
            da,
            en,
            ea ∙ take_over 128 g.attrs attrs (a ∷ attrs) (ground arith),
            ev ∙ take_over 128 g.vals vals (v ∷ vals) (ground arith),
          )
      | inr free ↦
          let (g', w', front, run, wf, more, dn, da, en, ea, ev) =
            later db (add_value a v g) w w2 front2 refs attrs vals immediate e2
              (hi (ground arith)) in
          rw free (
            g',
            w',
            front,
            run,
            wf,
            more,
            dn,
            da,
            en,
            ea ∙ ap (take 128) (append_assoc g.attrs (a ∷ []) attrs),
            ev ∙ ap (take 128) (append_assoc g.vals (v ∷ []) vals),
          )
    ]
choose-Gathers db g w w1 w2 front1 front2 (n ∷ up) is_value a v refs attrs vals skip refer immediate
      same hs e1 hr e2 hi =
    elim (Bool-cases (ltb 127 (length g.nodes))) [
      | inl full ↦
          let (g', w', front, run, wf, more, dn, da, en, ea, ev) = hs in
          rw full (
            g',
            w',
            front,
            run,
            wf,
            more,
            dn,
            da,
            en ∙ take_over 128 g.nodes refs (n.id ∷ refs) (ground arith),
            ea,
            ev,
          )
      | inr free ↦
          let (g', w', front, run, wf, more, dn, da, en, ea, ev) =
            later db (add_ref n.id g) w w1 front1 refs attrs vals refer e1 (hr (ground arith)) in
          rw free (
            g',
            w',
            front,
            run,
            wf,
            more,
            dn,
            da,
            en ∙ ap (take 128) (append_assoc g.nodes (n.id ∷ []) refs),
            ea,
            ev,
          )
    ]

module _ {db : Db} {rank : ℕ → ℕ} (ok : IsDb db rank) (fuel : ℕ)
    (enough : (id : ℕ) → rank id < fuel) where
  gather-Gathers :
      (es : List Entry) (g : Gathered) (w : Writer)
      → IsWriter db w
      → IsGathered db g w
      → Gathers db g w (refs_of es) (attrs_of es) (vals_of es) (gather db fuel es g w)
  unfolding gather
  gather-Gathers [] g w wf h = (
    g,
    w,
    [],
    refl,
    wf,
    refl,
    h.nodes_done,
    h.attrs_done,
    sym (ap (take 128) (append-nil g.nodes) ∙ take_all 128 g.nodes h.nodes_fit),
    sym (ap (take 128) (append-nil g.attrs) ∙ take_all 128 g.attrs h.attrs_fit),
    sym (
        ap (take 128) (append-nil g.vals)
        ∙ take_all 128 g.vals (omega (arith, h.in_step, h.attrs_fit))),
  )
  gather-Gathers (e ∷ es) g w wf h =
      let id = path_id e.node in
      let a = attribute e in
      let (w1, front1, run1, g1, e1, ranks1, done1) =
        write_node-Written ok fuel id w (enough id) wf in
      let (w2, front2, run2, g2, e2, ranks2, done2) =
        write_node-Written ok fuel a w (enough a) wf in
      rw (run1, run2)
        (choose-Gathers db g w w1 w2 front1 front2 e.node (is_immediate e) a e.value (refs_of es)
          (attrs_of es) (vals_of es) _ _ _ h.in_step (gather-Gathers es g w wf h) e1
          (λ room. gather-Gathers es (add_ref id g) w1 g1 (record {
            nodes_fit = omega (arith, length-append g.nodes (id ∷ []));
            attrs_fit = h.attrs_fit;
            in_step = h.in_step;
            nodes_done =
                All-append (IsDone db w1.written) g.nodes (id ∷ [])
                  (still-IsDone db front1 w.written w1.written g.nodes e1 h.nodes_done) (done1, tt);
            attrs_done = still-IsDone db front1 w.written w1.written g.attrs e1 h.attrs_done;
          }))
          e2
          (λ room. gather-Gathers es (add_value a e.value g) w2 g2 (record {
            nodes_fit = h.nodes_fit;
            attrs_fit = omega (arith, length-append g.attrs (a ∷ []));
            in_step = omega (
              arith,
              length-append g.attrs (a ∷ []),
              length-append g.vals (e.value ∷ []),
              h.in_step,
            );
            nodes_done = still-IsDone db front2 w.written w2.written g.nodes e2 h.nodes_done;
            attrs_done =
                All-append (IsDone db w2.written) g.attrs (a ∷ [])
                  (still-IsDone db front2 w.written w2.written g.attrs e2 h.attrs_done) (done2, tt);
          })))

  -- With enough fuel, from a writer in order and with a database whose attributes and parents come
  -- before their nodes, `write_entrylist` ends: the record of a list of entries comes behind the
  -- records of all nodes and attributes it refers to, which come behind those of their own
  -- attributes and parents; no node is written twice. It holds the first 128 nodes, and the first
  -- 128 immediate entries.
  pub write_entrylist-EndsWith :
      (name : Text) (list : List Entry) (w : Writer)
      → IsWriter db w
      → EndsWith db
          (record_line name
            (take 128 (refs_of list))
            (take 128 (attrs_of list))
            (take 128 (vals_of list)))
          (write_entrylist db fuel name list w)
  unfolding write_entrylist
  write_entrylist-EndsWith name list w wf =
      let start : Gathered = record { nodes = []; attrs = []; vals = [] } in
      let (g, w', front, run, wf', more, dn, da, en, ea, ev) =
        gather-Gathers list start w wf (record {
          nodes_fit = omega arith;
          attrs_fit = omega arith;
          in_step = refl;
          nodes_done = tt;
          attrs_done = tt;
        }) in
      rw run (
        record w' { lines = record_line name g.nodes g.attrs g.vals ∷ w'.lines },
        w'.lines,
        refl,
        record {
          ordered = (
            subst (λ ws. All (IsDone db ws) g.nodes) wf'.in_step dn,
            subst (λ ws. All (IsDone db ws) g.attrs) wf'.in_step da,
            wf'.ordered,
          );
          in_step = wf'.in_step;
        },
        ap (λ l. l ∷ w'.lines)
            (ap (λ x. record_line name x g.attrs g.vals) en
              ∙ (ap (λ x. record_line name (take 128 (refs_of list)) x g.vals) ea
                  ∙ ap
                      (λ x. record_line name (take 128 (refs_of list)) (take 128 (attrs_of list)) x)
                      ev)),
      )
