-- ===== src/Csv.antt =====
-- src/common/csv/CsvSpec.cpp, src/common/util/write_util.h and src/common/csv/CsvReader.cpp: records as
-- lines of text. A `std::map` is a list of its pairs in the order of the keys.
pub mod Splitting
pub mod RoundTrip
pub mod Files
use caliper.Base.{ℕ, zero, suc, ◌+◌, ltb, ◌==◌, if◌then◌else◌, Bool, true, false, not, ◌&&◌}
use caliper.Base.{List, [], ◌∷◌, ◌++◌, map, Option, none, some}
use caliper.Base.Text.{Text, str_eq, str_lt, one_of}

-- `m_sep`, `m_esc` and `m_esc_chars`.
abbrev pub sep : ℕ
sep = b','

abbrev pub esc : ℕ
esc = 92

abbrev pub equals : ℕ
equals = b'='

abbrev pub newline : ℕ
newline = 10

abbrev pub esc_chars : Text
esc_chars = esc ∷ sep ∷ equals ∷ newline ∷ []

-- `util::write_esc_string`.
unfoldable pub write_esc_string : Text → Text → ℕ → Text
write_esc_string [] mask_chars e = []
write_esc_string (c ∷ s) mask_chars e =
    (if one_of mask_chars c then e ∷ c ∷ [] else c ∷ []) ++ write_esc_string s mask_chars e

-- The variables of `split`.
pub record Scan : Type 0 where
  pub vec : List Text
  pub str : Text
  pub escaped : Bool

-- One round of the loop of `split`.
abbrev pub split_step : ℕ → Bool → Scan → ℕ → Scan
split_step s keep_escape st c =
    if not st.escaped && (c == esc)
    then record st { str = (if keep_escape then st.str ++ (esc ∷ []) else st.str); escaped = true }
    else if not st.escaped && (c == s)
    then record st { vec = st.vec ++ (st.str ∷ []); str = [] }
    else record st { str = st.str ++ (c ∷ []); escaped = false }

unfoldable pub split_loop : ℕ → Bool → Scan → Text → Scan
split_loop s keep_escape st [] = st
split_loop s keep_escape st (c ∷ line) =
    split_loop s keep_escape (split_step s keep_escape st c) line

abbrev pub finish : Scan → List Text
finish st = st.vec ++ (st.str ∷ [])

abbrev pub start : Scan
start = record { vec = []; str = []; escaped = false }

unfoldable pub split : Text → ℕ → Bool → List Text
unfolding split_loop
split line s keep_escape = finish (split_loop s keep_escape start line)

abbrev pub RecordMap : Type 0
RecordMap = List (Text × List Text)

-- `std::map::insert`, which keeps the value of a key that is there.
unfoldable pub insert : Text → List Text → RecordMap → RecordMap
insert k v [] = (k, v) ∷ []
insert k v ((j, w) ∷ m) =
    let rest = insert k v m in
    if str_eq k j then (j, w) ∷ m else if str_lt k j then (k, v) ∷ ((j, w) ∷ m) else (j, w) ∷ rest

-- The values of an entry, each behind `=`.
unfoldable pub write_values : List Text → Text
write_values [] = []
write_values (v ∷ vs) = equals ∷ (write_esc_string v esc_chars esc ++ write_values vs)

-- The loop of `write_record(os, record)`, after `count` entries.
unfoldable pub write_entries : ℕ → RecordMap → Text
unfolding write_values
write_entries count [] = []
write_entries count ((k, []) ∷ m) = write_entries count m
write_entries count ((k, v ∷ vs) ∷ m) =
    (if count == 0 then [] else sep ∷ [])
    ++ (k ++ (write_values (v ∷ vs) ++ write_entries (count + 1) m))

-- How many entries that loop writes.
abbrev pub num_written : RecordMap → ℕ
num_written [] = 0
num_written ((k, []) ∷ m) = num_written m
num_written ((k, v ∷ vs) ∷ m) = suc (num_written m)

unfoldable pub write_record : RecordMap → Text
unfolding write_entries
write_record m = write_entries 0 m ++ (if num_written m == 0 then [] else newline ∷ [])

-- The loop of `write_record(os, record, count, data)`, on the fields' names and the texts of their values.
unfoldable pub write_fields : List (Text × List Text) → Text
unfolding write_values
write_fields [] = []
write_fields ((k, []) ∷ fs) = write_fields fs
write_fields ((k, v ∷ vs) ∷ fs) = sep ∷ (k ++ (write_values (v ∷ vs) ++ write_fields fs))

-- `__rec=` and the record's name come first.
unfoldable pub write_descriptor : Text → List (Text × List Text) → Text
unfolding write_fields
write_descriptor name fields =
    (b'_' ∷ b'_' ∷ b'r' ∷ b'e' ∷ b'c' ∷ b'=' ∷ name) ++ (write_fields fields ++ (newline ∷ []))

-- One round of the loop of `read_record`, on the parts of the entry.
unfoldable pub add_parts : RecordMap → List Text → RecordMap
unfolding insert
add_parts rec [] = rec
add_parts rec (k ∷ []) = rec
add_parts rec (k ∷ (v ∷ vs)) = insert k (v ∷ vs) rec

unfoldable pub read_entries : RecordMap → List Text → RecordMap
unfolding add_parts split
read_entries rec [] = rec
read_entries rec (entry ∷ entries) = read_entries (add_parts rec (split entry equals false)) entries

unfoldable pub read_record : Text → RecordMap
unfolding read_entries split
read_record line = read_entries [] (split line sep true)

-- The lines that `getline` delivers, the last one also where no newline ends it.
unfoldable pub get_lines : Text → Text → List Text
get_lines line [] = elim line [ [] ↦ [] | c ∷ s ↦ (c ∷ s) ∷ [] ]
get_lines line (c ∷ is) =
    let next = get_lines [] is in
    let more = get_lines (line ++ (c ∷ [])) is in if c == newline then line ∷ next else more

-- The loop of `CsvReader::read`: the records that the handler is called with.
unfoldable pub read : Text → List RecordMap
unfolding get_lines read_record
read is = map read_record (get_lines [] is)

-- `CsvReader::read`, on the file name, what the standard input holds and what the file holds, if it can be
-- opened: the records that the handler is called with, and the result.
unfoldable pub read_file : Text → Text → Option Text → List RecordMap × Bool
unfolding read
read_file [] stdin is = (read stdin, true)
read_file (c ∷ filename) stdin none = ([], false)
read_file (c ∷ filename) stdin (some is) = (read is, true)
