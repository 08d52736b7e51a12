-- ===== src/Tests/Files.antt =====
-- Records as lines of text.
use caliper.Base.{[], ◌∷◌, ◌≡◌, ◌≢◌, refl, arith, none, false}
use caliper.Csv.{RecordMap, write_entries, read_record, read, read_file, write_record}
use caliper.Csv.RoundTrip.{read_record-write_entries}
use caliper.Csv.Files.{read-write_all, read-write_newline, write_all}

-- `kind=a,b=c` with a comma and an equals sign in one value, and a second entry with two values.
abbrev two_entries : RecordMap
two_entries =
    ((b'i' ∷ b'd' ∷ []), (b'a' ∷ b',' ∷ b'=' ∷ []) ∷ [])
    ∷ ((b'k' ∷ []), (92 ∷ []) ∷ (b'7' ∷ []) ∷ [])
    ∷ []

abbrev one_entry : RecordMap
one_entry = ((b'z' ∷ []), [] ∷ []) ∷ []

a_line :
    write_entries 0 two_entries
    ≡ b'i' ∷ b'd' ∷ b'=' ∷ b'a' ∷ 92 ∷ b',' ∷ 92 ∷ b'=' ∷ b',' ∷ b'k' ∷ b'=' ∷ 92 ∷ 92 ∷ b'=' ∷ b'7'
      ∷ []
unfolding write_entries caliper.Csv.write_esc_string
a_line = refl

read_record-write_entries_example : read_record (write_entries 0 two_entries) ≡ two_entries
read_record-write_entries_example =
    read_record-write_entries two_entries
      (((refl, (refl, tt)), ((refl, tt), tt)), ((refl, tt), (tt, tt)))

read-write_all_example :
    read (write_all (two_entries ∷ one_entry ∷ [])) ≡ two_entries ∷ one_entry ∷ []
read-write_all_example = read-write_all (two_entries ∷ one_entry ∷ []) (
  (
    (((refl, (refl, tt)), ((refl, tt), tt)), ((refl, tt), (tt, tt))),
    (λ e. cc),
    (((λ e. cc, (λ e. cc, (λ e. cc, tt))), tt), (((λ e. cc, tt), ((λ e. cc, tt), tt)), tt)),
  ),
  (((((refl, tt), tt), (tt, tt)), (λ e. cc), ((tt, tt), tt)), tt),
)

-- The second value of the second key is the two lines `a` and `b`.
abbrev two_lines : RecordMap
two_lines =
    ((b'i' ∷ []), (b'1' ∷ []) ∷ []) ∷ ((b'k' ∷ []), (b'7' ∷ []) ∷ (b'a' ∷ 10 ∷ b'b' ∷ []) ∷ []) ∷ []

read-write_newline_example : read (write_record two_lines) ≢ two_lines ∷ []
read-write_newline_example = read-write_newline two_lines (omega arith)

-- A file that cannot be opened has no records.
no_file : read_file (b'f' ∷ []) [] none ≡ ([], false)
unfolding read_file
no_file = refl
