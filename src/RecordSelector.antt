-- ===== src/RecordSelector.antt =====
-- src/reader/RecordSelector.cpp, with `split` of include/caliper/common/util/split.hpp: the conditions that a
-- record has to meet. The metadata database, the conversion of a text to a value and the equality of values
-- are parameters.
pub mod Parsing
pub mod Passing
use caliper.Base.{
  ℕ, ◌==◌, ◌&&◌, ◌||◌, not, if◌then◌else◌, Bool, true, false, List, [], ◌∷◌, ◌++◌, map, Option,
  none, some,
}
use caliper.Base.Text.{Text, one_of}
use caliper.Variant.{AttrType, Variant, empty_variant}
use caliper.Node.{Node, NodePtr, inv_id}
use caliper.Entry.{Entry, attribute}

-- `QuerySpec::Condition::Op`; `no_op` is `None`.
pub data Op : Type 0 where
  no_op exist not_exist equal not_equal less_than greater_than less_or_equal greater_or_equal : Op

pub record Condition : Type 0 where
  pub op : Op
  pub attr_name : Text
  pub value : Text

-- `"<>="`.
abbrev pub op_chars : Text
op_chars = b'<' ∷ b'>' ∷ b'=' ∷ []

-- `find_first_of`: what comes before the first operator, and what from there on.
unfoldable pub find_op : Text → Text × Text
find_op [] = ([], [])
find_op (c ∷ s) =
    let (before, rest) = find_op s in if one_of op_chars c then ([], c ∷ s) else (c ∷ before, rest)

abbrev pub op_of : Bool → ℕ → Op
op_of negate c =
    if c == b'='
    then (if negate then not_equal else equal)
    else (if negate then not_exist else exist)

abbrev pub is_empty : Text → Bool
is_empty [] = true
is_empty (c ∷ s) = false

-- `parse_clause` behind the `-`, from the name and what comes from the operator on.
abbrev pub clause_of : Bool → Text × Text → Condition
clause_of negate (name, []) = record {
  op = if is_empty name then no_op else if negate then not_exist else exist;
  attr_name = name;
  value = [];
}
clause_of negate (name, c ∷ []) = record { op = no_op; attr_name = name; value = [] }
clause_of negate (name, c ∷ (d ∷ v)) = record {
  op = if is_empty name then no_op else op_of negate c;
  attr_name = name;
  value = d ∷ v;
}

unfoldable pub parse_clause : Text → Condition
unfolding find_op
parse_clause [] = record { op = no_op; attr_name = []; value = [] }
parse_clause (c ∷ s) =
    if c == b'-' then clause_of true (find_op s) else clause_of false (find_op (c ∷ s))

-- The loop of `util::split` with the current string `str`.
unfoldable pub split_from : ℕ → Text → Text → List Text
split_from sep str [] = if is_empty str then [] else str ∷ []
split_from sep str (c ∷ s) =
    let next = split_from sep [] s in
    let more = split_from sep (str ++ (c ∷ [])) s in if c == sep then str ∷ next else more

abbrev pub is_op : Op → Bool
is_op no_op = false
is_op exist = true
is_op not_exist = true
is_op equal = true
is_op not_equal = true
is_op less_than = true
is_op greater_than = true
is_op less_or_equal = true
is_op greater_or_equal = true

-- The loop of `RecordSelector::parse`, which leaves malformed clauses out.
unfoldable pub parse_clauses : List Text → List Condition
unfolding parse_clause
parse_clauses [] = []
parse_clauses (s ∷ ss) =
    (if is_op (parse_clause s).op then parse_clause s ∷ [] else []) ++ parse_clauses ss

unfoldable pub parse : Text → List Condition
unfolding parse_clauses split_from
parse s = parse_clauses (split_from b',' [] s)

-- `get_attribute` of the database by name, with the type of the attribute; none is `Attribute::invalid`.
pub record Lookup : Type 0 where
  pub get_attribute : Text → Option (ℕ × AttrType)
  pub from_string : AttrType → Text → Variant
  pub same : Variant → Variant → Bool

pub record Clause : Type 0 where
  pub op : Op
  pub attr : ℕ
  pub value : Variant

module _ (db : Lookup) where
  unfoldable pub make_clause : Condition → Clause
  make_clause f = elim (db.get_attribute f.attr_name) [
    | none ↦ record { op = f.op; attr = inv_id; value = empty_variant }
    | some (id, t) ↦ record { op = f.op; attr = id; value = db.from_string t f.value }
  ]

-- The loop of `have_match` over a path.
abbrev pub match_path : (ℕ → Variant → Bool) → NodePtr → Bool
match_path test [] = false
match_path test (n ∷ up) =
    if n.id == inv_id then false else test n.attribute n.value || match_path test up

abbrev pub match_entry : (ℕ → Variant → Bool) → NodePtr → ℕ → Variant → Bool
match_entry test [] attr v = test attr v
match_entry test (n ∷ up) attr v = match_path test (n ∷ up)

unfoldable pub have_match : (ℕ → Variant → Bool) → Entry → Bool
have_match test e = match_entry test e.node (attribute e) e.value

abbrev pub any_match : (ℕ → Variant → Bool) → List Entry → Bool
any_match test [] = false
any_match test (e ∷ es) = have_match test e || any_match test es

module _ (db : Lookup) where
  abbrev pub has_attr : Clause → ℕ → Variant → Bool
  has_attr c attr v = attr == c.attr

  abbrev pub has_value : Clause → ℕ → Variant → Bool
  has_value c attr v = (attr == c.attr) && db.same v c.value

  -- The switch of `pass`; the other operators have no case there.
  abbrev pub pass_clause : Op → Clause → List Entry → Bool
  pass_clause exist c list = any_match (has_attr c) list
  pass_clause not_exist c list = not (any_match (has_attr c) list)
  pass_clause equal c list = any_match (has_value c) list
  pass_clause not_equal c list = not (any_match (has_value c) list)
  pass_clause no_op c list = true
  pass_clause less_than c list = true
  pass_clause greater_than c list = true
  pass_clause less_or_equal c list = true
  pass_clause greater_or_equal c list = true

  unfoldable pub pass : List Condition → List Entry → Bool
  unfolding make_clause
  pass [] list = true
  pass (f ∷ fs) list = pass_clause (make_clause db f).op (make_clause db f) list && pass fs list
