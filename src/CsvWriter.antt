-- ===== src/CsvWriter.antt =====
-- src/common/csv/CsvWriter.cpp: in which order the lines of a file are written. A line is a call of
-- `CsvSpec::write_record`; its text is that of Csv. The locks make every block under them one step, and the
-- model is one thread.
pub mod Order
pub mod Records
pub mod Lists
use caliper.Base.{
  ℕ, zero, suc, ◌+◌, ltb, ◌==◌, ◌||◌, if◌then◌else◌, Bool, true, false, List, [], ◌∷◌, ◌++◌, Option,
  none, some, ◌>>=◌, take, length,
}
use caliper.Base.Text.{Text, one_of}
use caliper.Variant.{Variant}
use caliper.Node.{Node, NodePtr, inv_id, path_id}
use caliper.Entry.{Entry, is_immediate, attribute}

-- `CaliperMetadataAccessInterface::node`.
abbrev pub Db : Type 0
Db = ℕ → NodePtr

-- A node record, or a record with ids of nodes, ids of attributes, and values.
pub data Line : Type 0 where
  node_line : NodePtr → Line
  record_line : Text → List ℕ → List ℕ → List Variant → Line

-- `m_os`, the newest line first; `m_written_nodes`; `m_num_written`.
pub record Writer : Type 0 where
  pub lines : List Line
  pub written : List ℕ
  pub num_written : ℕ

abbrev pub new_writer : Writer
new_writer = record { lines = []; written = []; num_written = 0 }

-- The end of `recursive_write_node`.
abbrev pub add_node : ℕ → NodePtr → Writer → Writer
add_node id p w =
    let more : Writer = record w {
      lines = node_line p ∷ w.lines;
      num_written = w.num_written + 1;
    } in
    if one_of w.written id then more else record more { written = id ∷ w.written }

-- The parent, unless it is the root or null.
abbrev pub write_parent : (ℕ → Writer → Option Writer) → ℕ → Writer → Option Writer
write_parent write id w = elim (id == inv_id) [ true ↦ some w | false ↦ write id w ]

-- `recursive_write_node` behind `db.node(id)`, where `write` is the recursive call.
abbrev pub write_found : (ℕ → Writer → Option Writer) → ℕ → NodePtr → Writer → Option Writer
write_found write id [] w = some w
write_found write id (n ∷ up) w = do
  w1 ← write n.attribute w
  w2 ← write_parent write (path_id up) w1
  some (add_node id (n ∷ up) w2)

-- `recursive_write_node`. Each call runs on fuel; none is not enough of it.
unfoldable pub write_node : Db → ℕ → ℕ → Writer → Option Writer
write_node db zero id w = none
write_node db (suc fuel) id w = elim (ltb id 11 || one_of w.written id) [
  | true ↦ some w
  | false ↦ write_found (write_node db fuel) id (db id) w
]

unfoldable pub write_nodes : Db → ℕ → List ℕ → Writer → Option Writer
unfolding write_node
write_nodes db fuel [] w = some w
write_nodes db fuel (id ∷ ids) w = write_node db fuel id w >>= write_nodes db fuel ids

-- `write_snapshot` with arrays of ids, each of at most 128 elements.
unfoldable pub write_snapshot : Db → ℕ → List ℕ → List ℕ → List Variant → Writer → Option Writer
unfolding write_nodes
write_snapshot db fuel nodes attrs vals w = do
  w1 ← write_nodes db fuel (take 128 nodes) w
  w2 ← write_nodes db fuel (take 128 attrs) w1
  some (record w2 {
    lines =
        record_line (b'c' ∷ b't' ∷ b'x' ∷ []) (take 128 nodes) (take 128 attrs) (take 128 vals)
        ∷ w2.lines;
    num_written = w2.num_written + 1;
  })

-- `v_node`, `v_attr` and `v_data` up to `nn` and `ni`.
pub record Gathered : Type 0 where
  pub nodes : List ℕ
  pub attrs : List ℕ
  pub vals : List Variant

abbrev pub add_ref : ℕ → Gathered → Gathered
add_ref id g = record g { nodes = g.nodes ++ (id ∷ []) }

abbrev pub add_value : ℕ → Variant → Gathered → Gathered
add_value a v g = record g { attrs = g.attrs ++ (a ∷ []); vals = g.vals ++ (v ∷ []) }

-- The branches of a round: a node, an immediate entry, or neither, and whether the arrays are full.
abbrev pub choose {ℓ} : {A : Type ℓ} → NodePtr → Bool → Bool → Bool → A → A → A → A
choose (n ∷ up) is_value full_nodes full_attrs skip refer immediate =
    if full_nodes then skip else refer
choose [] true full_nodes full_attrs skip refer immediate = if full_attrs then skip else immediate
choose [] false full_nodes full_attrs skip refer immediate = skip

-- The loop of `write_entrylist`.
unfoldable pub gather : Db → ℕ → List Entry → Gathered → Writer → Option (Gathered × Writer)
unfolding write_node
gather db fuel [] g w = some (g, w)
gather db fuel (e ∷ es) g w =
    choose e.node (is_immediate e) (ltb 127 (length g.nodes)) (ltb 127 (length g.attrs))
      (gather db fuel es g w)
      (write_node db fuel (path_id e.node) w >>= λ w'.
        gather db fuel es (add_ref (path_id e.node) g) w')
      (write_node db fuel (attribute e) w >>= λ w'.
        gather db fuel es (add_value (attribute e) e.value g) w')

-- `write_entrylist`, which does not count the record.
unfoldable pub write_entrylist : Db → ℕ → Text → List Entry → Writer → Option Writer
unfolding gather
write_entrylist db fuel name list w = do
  (g, w') ← gather db fuel list (record { nodes = []; attrs = []; vals = [] }) w
  some (record w' { lines = record_line name g.nodes g.attrs g.vals ∷ w'.lines })
