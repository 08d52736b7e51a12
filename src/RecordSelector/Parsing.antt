-- ===== src/RecordSelector/Parsing.antt =====
-- The conditions that are read from a text.
use caliper.Base.{ℕ, ◌≡◌, ◌≢◌, false}
use caliper.Base.{List, [], ◌∷◌, ◌++◌, All}
use caliper.Base.Text.{Text, one_of}
use caliper.RecordSelector.{
  Op, no_op, exist, not_exist, equal, not_equal, less_than, greater_than, less_or_equal,
  greater_or_equal, Condition, op_chars,
}

-- The text of a condition: `name`, `-name`, `name=value` or `-name=value`.
abbrev pub print_as : Op → Text → Text → Text
print_as exist name v = name
print_as not_exist name v = b'-' ∷ name
print_as equal name v = name ++ (b'=' ∷ v)
print_as not_equal name v = b'-' ∷ (name ++ (b'=' ∷ v))
print_as no_op name v = []
print_as less_than name v = []
print_as greater_than name v = []
print_as less_or_equal name v = []
print_as greater_or_equal name v = []

abbrev pub print_clause : Condition → Text
print_clause c = print_as c.op c.attr_name c.value

abbrev pub print_rest : List Condition → Text
print_rest [] = []
print_rest (c ∷ cs) = b',' ∷ (print_clause c ++ print_rest cs)

abbrev pub print_all : List Condition → Text
print_all [] = []
print_all (c ∷ cs) = print_clause c ++ print_rest cs

-- A name without an operator or a comma, that does not start with `-`.
abbrev pub IsName : Text → Type 0
IsName [] = ⊥
IsName (c ∷ s) = (c ≢ b'-') × All (λ (d : ℕ). (one_of op_chars d ≡ false) × (d ≢ b',')) (c ∷ s)

abbrev pub IsValue : Op → Text → Type 0
IsValue exist v = v ≡ []
IsValue not_exist v = v ≡ []
IsValue equal v = (v ≢ []) × All (λ (d : ℕ). d ≢ b',') v
IsValue not_equal v = (v ≢ []) × All (λ (d : ℕ). d ≢ b',') v
IsValue no_op v = ⊥
IsValue less_than v = ⊥
IsValue greater_than v = ⊥
IsValue less_or_equal v = ⊥
IsValue greater_or_equal v = ⊥

abbrev pub IsPrintable : Condition → Type 0
IsPrintable c = IsName c.attr_name × IsValue c.op c.value

abbrev IsClean : Text → Type 0
IsClean s = All (λ (d : ℕ). (one_of op_chars d ≡ false) × (d ≢ b',')) s

abbrev NoComma : Text → Type 0
NoComma s = All (λ (d : ℕ). d ≢ b',') s
