-- ===== src/Tests/Queries.antt =====
-- Conditions on records.
use caliper.Base.{◌≡◌, ◌==◌, refl, true, false, List, [], ◌∷◌, some}
use caliper.Variant.{uint, make_uint}
use caliper.Entry.{Entry, imm_entry}
use caliper.RecordSelector.{
  Condition, exist, not_exist, equal, not_equal, less_than, Lookup, parse, pass,
}
use caliper.RecordSelector.Parsing.{print_all}

abbrev condition_list : List Condition
condition_list =
    record { op = not_exist; attr_name = b'a' ∷ []; value = [] }
    ∷ record { op = equal; attr_name = b'b' ∷ b'-' ∷ []; value = b'=' ∷ b'5' ∷ [] }
    ∷ record { op = not_equal; attr_name = b'c' ∷ []; value = b'7' ∷ [] }
    ∷ []

-- `-a,b-==5,-c=7`.
printed_list :
    print_all condition_list
    ≡ b'-' ∷ b'a' ∷ b',' ∷ b'b' ∷ b'-' ∷ b'=' ∷ b'=' ∷ b'5' ∷ b',' ∷ b'-' ∷ b'c' ∷ b'=' ∷ b'7' ∷ []
printed_list = refl

-- `a<5` only tests whether `a` is there.
less_parsed :
    parse (b'a' ∷ b'<' ∷ b'5' ∷ [])
    ≡ record { op = exist; attr_name = b'a' ∷ []; value = b'5' ∷ [] } ∷ []
unfolding parse
less_parsed = refl

abbrev one_attribute : Lookup
one_attribute = record {
  get_attribute = λ name. some (20, uint);
  from_string = λ t text. make_uint 5;
  same = λ v w. v.v_uint == w.v_uint;
}

abbrev one_value : List Entry
one_value = imm_entry 20 (make_uint 6) ∷ []

-- The value is not 5, so the record does not pass; asked for values below 5 it does.
passing :
    (pass one_attribute
        (record { op = equal; attr_name = b'a' ∷ []; value = b'5' ∷ [] } ∷ [])
        one_value
      ≡ false)
    × (pass one_attribute
          (record { op = less_than; attr_name = b'a' ∷ []; value = b'5' ∷ [] } ∷ [])
          one_value
        ≡ true)
unfolding pass make_uint caliper.RecordSelector.have_match caliper.Entry.attribute
passing = (refl, refl)
