-- ===== src/Tests/Writers.antt =====
-- A file with two nodes.
use caliper.Base.{
  ℕ, ◌≡◌, ◌⊎◌, inl, inr, refl, sym, ap, ◌∙◌, arith, ltb, ◌==◌, if◌then◌else◌, Bool-cases,
}
use caliper.Base.{List, [], ◌∷◌, take, some}
use caliper.Variant.{make_uint, empty_variant}
use caliper.Node.{NodePtr, inv_id, path_id}
use caliper.Entry.{Entry, node_entry, imm_entry}
use caliper.CsvWriter.{Db, record_line, new_writer, node_line, write_node, write_entrylist}
use caliper.CsvWriter.Order.{IsDb, IsWriter}
use caliper.CsvWriter.Records.{EndsWith}
use caliper.CsvWriter.Lists.{refs_of, attrs_of, vals_of, write_entrylist-EndsWith}

abbrev root_path : NodePtr
root_path = record { id = inv_id; attribute = inv_id; value = empty_variant } ∷ []

abbrev parent_of : NodePtr → NodePtr
parent_of [] = []
parent_of (n ∷ up) = up

-- An attribute, and a node with that attribute below it.
abbrev eleven : NodePtr
eleven = record { id = 11; attribute = 8; value = make_uint 1 } ∷ root_path

abbrev twelve : NodePtr
twelve = record { id = 12; attribute = 11; value = make_uint 2 } ∷ eleven

abbrev two_nodes : Db
two_nodes id = if id == 11 then eleven else if id == 12 then twelve else []

abbrev rank : ℕ → ℕ
rank id = if ltb id 13 then id else 0

abbrev attr_of_path : NodePtr → ℕ
attr_of_path [] = 0
attr_of_path (n ∷ up) = n.attribute

node_cases :
    (id : ℕ)
    → ((id ≡ 11) × (two_nodes id ≡ eleven))
      ⊎ (((id ≡ 12) × (two_nodes id ≡ twelve)) ⊎ (two_nodes id ≡ []))
node_cases id = elim (Bool-cases (id == 11)) [
  | inl e ↦ inl (ground arith, rw e refl)
  | inr e ↦ elim (Bool-cases (id == 12)) [
    | inl f ↦ inr (inl (ground arith, rw (e, f) refl))
    | inr f ↦ inr (inr (rw (e, f) refl))
  ]
]

two_nodes-IsDb : IsDb two_nodes rank
two_nodes-IsDb = record {
  ids = λ id n up at. elim (node_cases id) [
    | inl (e, p) ↦ omega (arith, e, ap path_id (sym p ∙ at))
    | inr (inl (e, p)) ↦ omega (arith, e, ap path_id (sym p ∙ at))
    | inr (inr p) ↦ cc
  ];
  attributes_first = λ id n up big at. elim (node_cases id) [
    | inl (e, p) ↦ ground (arith, e, ap attr_of_path (sym p ∙ at))
    | inr (inl (e, p)) ↦ ground (arith, e, ap attr_of_path (sym p ∙ at))
    | inr (inr p) ↦ cc
  ];
  parents_first = λ id n up big at named. elim (node_cases id) [
    | inl (e, p) ↦ absurd (named (sym (ap (λ q. path_id (parent_of q)) (sym p ∙ at))))
    | inr (inl (e, p)) ↦ ground (arith, e, ap (λ q. path_id (parent_of q)) (sym p ∙ at))
    | inr (inr p) ↦ cc
  ];
}

new_writer-IsWriter : IsWriter two_nodes new_writer
new_writer-IsWriter = record { ordered = tt; in_step = refl }

-- The attribute comes first.
two_lines :
    write_node two_nodes 13 12 new_writer
    ≡ some (record {
      lines = node_line twelve ∷ node_line eleven ∷ [];
      written = 12 ∷ 11 ∷ [];
      num_written = 2;
    })
unfolding write_node
two_lines = refl

abbrev two_of_each : List Entry
two_of_each = node_entry twelve ∷ imm_entry 11 (make_uint 5) ∷ node_entry eleven ∷ []

write_entrylist-EndsWith_example :
    EndsWith two_nodes
      (record_line []
        (take 128 (refs_of two_of_each))
        (take 128 (attrs_of two_of_each))
        (take 128 (vals_of two_of_each)))
      (write_entrylist two_nodes 13 [] two_of_each new_writer)
write_entrylist-EndsWith_example =
    write_entrylist-EndsWith {db = two_nodes} {rank = rank} two_nodes-IsDb 13 (λ id. ground arith)
      [] two_of_each new_writer new_writer-IsWriter
