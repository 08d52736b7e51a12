-- ===== src/Csv/Files.antt =====
-- Reading a file of records.
use caliper.Base.{ℕ, suc, ◌+◌, ◌≤◌, ◌≡◌, ◌≢◌, refl, ap, ◌∙◌, arith, ◌==◌, if◌then◌else◌, false}
use caliper.Base.{
  List, [], ◌∷◌, ◌++◌, map, append_assoc, append-nil, All, Bool-cases, inl, inr, length, length-map,
}
use caliper.Base.Text.{Text, one_of}
use caliper.Csv.{
  sep, esc, newline, esc_chars, write_esc_string, RecordMap, write_values, write_entries,
  num_written, write_record, read_record, get_lines, read,
}
use caliper.Csv.Splitting.{IsPlain}
use caliper.Csv.RoundTrip.{IsField, IsRecord, read_record-write_entries}

-- No line ends inside the text.
abbrev pub OneLine : Text → Type 0
OneLine s = All (λ (c : ℕ). c ≢ newline) s

abbrev pub OneLineValues : RecordMap → Type 0
OneLineValues m = All (λ (e : Text × List Text). All OneLine e.1) m

OneLine-append : (s t : Text) → OneLine s → OneLine t → OneLine (s ++ t)
OneLine-append [] t h g = g
OneLine-append (c ∷ s) t (e, h) g = (e, OneLine-append s t h g)

plain_line : (k : Text) → IsPlain k → OneLine k
plain_line [] h = tt
plain_line (c ∷ k) (e, h) = (λ f. not_special f e, plain_line k h)
  where
    not_special : {d : ℕ} → d ≡ newline → one_of esc_chars d ≡ false → ⊥
    not_special f g = cc

escaped_line : (v : Text) → OneLine v → OneLine (write_esc_string v esc_chars esc)
unfolding write_esc_string
escaped_line [] h = tt
escaped_line (c ∷ v) (e, h) = elim (Bool-cases (one_of esc_chars c)) [
  | inl special ↦ rw special (λ f. absurd (omega arith), (e, escaped_line v h))
  | inr plain ↦ rw plain (e, escaped_line v h)
]

values_line : (vs : List Text) → All OneLine vs → OneLine (write_values vs)
unfolding write_values
values_line [] h = tt
values_line (v ∷ vs) (e, h) = (
  λ f. absurd (omega arith),
  OneLine-append (write_esc_string v esc_chars esc) (write_values vs) (escaped_line v e)
      (values_line vs h),
)

comma_line : (count : ℕ) → OneLine (if count == 0 then [] else sep ∷ [])
comma_line count = elim (Bool-cases (count == 0)) [
  | inl e ↦ rw e tt
  | inr e ↦ rw e (λ f. absurd (omega arith), tt)
]

entries_line :
    (count : ℕ) (m : RecordMap) → All IsField m → OneLineValues m → OneLine (write_entries count m)
unfolding write_entries
entries_line count [] g h = tt
entries_line count ((k, []) ∷ m) (g, gs) h = absurd g
entries_line count ((k, v ∷ vs) ∷ m) (plain, gs) (e, h) =
    let rest = entries_line (count + 1) m gs h in
    OneLine-append (if count == 0 then [] else sep ∷ [])
      (k ++ (write_values (v ∷ vs) ++ write_entries (count + 1) m)) (comma_line count)
      (OneLine-append k (write_values (v ∷ vs) ++ write_entries (count + 1) m) (plain_line k plain)
        (OneLine-append (write_values (v ∷ vs)) (write_entries (count + 1) m)
          (values_line (v ∷ vs) e) rest))

-- `getline` takes a line up to its end.
get_lines-line :
    (cur s rest : Text)
    → OneLine s
    → get_lines cur (s ++ (newline ∷ rest)) ≡ (cur ++ s) ∷ get_lines [] rest
unfolding get_lines
get_lines-line cur [] rest h = rw (append-nil cur) refl
get_lines-line cur (c ∷ s) rest (e, h) =
    let other : c == newline ≡ false = ground arith in
    rw other (
      get_lines-line (cur ++ (c ∷ [])) s rest h
      ∙ ap (λ (t : Text). t ∷ get_lines [] rest) (append_assoc cur (c ∷ []) s))

-- All the records of a file.
abbrev pub write_all : List RecordMap → Text
write_all [] = []
write_all (m ∷ ms) = write_record m ++ write_all ms

-- A record that a file can hold: it has an entry, and no line ends inside a value.
abbrev pub IsLine : RecordMap → Type 0
IsLine m = IsRecord m × (m ≢ []) × OneLineValues m

ends :
    (k v : Text) (vs : List Text) (m : RecordMap)
    → write_record ((k, v ∷ vs) ∷ m) ≡ write_entries 0 ((k, v ∷ vs) ∷ m) ++ (newline ∷ [])
unfolding write_record
ends k v vs m = let t : suc (num_written m) == 0 ≡ false = ground arith in rw t refl

write_record-line :
    (m : RecordMap) → IsRecord m → m ≢ [] → write_record m ≡ write_entries 0 m ++ (newline ∷ [])
unfolding write_record
write_record-line [] r h = absurd (h refl)
write_record-line ((k, []) ∷ m) ((g, gs), s) h = absurd g
write_record-line ((k, v ∷ vs) ∷ m) r h = ends k v vs m

-- A file of records, each with an entry, with keys in order that need no escape, a value for every
-- key and no newline inside a value, is read back as these records.
pub read-write_all : (ms : List RecordMap) → All IsLine ms → read (write_all ms) ≡ ms
unfolding read
read-write_all [] h = refl
read-write_all (m ∷ ms) ((r, some_entry, clean), h) =
    let line = write_entries 0 m in
    ap (λ (t : Text). map read_record (get_lines [] (t ++ write_all ms)))
      (write_record-line m r some_entry)
    ∙ (ap (λ (t : Text). map read_record (get_lines [] t))
          (append_assoc line (newline ∷ []) (write_all ms))
        ∙ (ap (map read_record) (get_lines-line [] line (write_all ms) (entries_line 0 m r.0 clean))
            ∙ (ap (λ (x : RecordMap). x ∷ map read_record (get_lines [] (write_all ms)))
                  (read_record-write_entries m r)
                ∙ ap (λ (t : List RecordMap). m ∷ t) (read-write_all ms h))))

abbrev newlines : Text → ℕ
newlines [] = 0
newlines (c ∷ s) = (if c == newline then 1 else 0) + newlines s

newlines-append : (s t : Text) → newlines (s ++ t) ≡ newlines s + newlines t
newlines-append [] t = omega arith
newlines-append (c ∷ s) t = omega (arith, newlines-append s t)

lines_counted : (cur s : Text) → newlines s ≤ length (get_lines cur s)
unfolding get_lines
lines_counted cur [] = omega arith
lines_counted cur (c ∷ s) = ground (arith, lines_counted [] s, lines_counted (cur ++ (c ∷ [])) s)

newlines-escaped : (s : Text) → newlines s ≤ newlines (write_esc_string s esc_chars esc)
unfolding write_esc_string
newlines-escaped [] = omega arith
newlines-escaped (c ∷ s) = elim (Bool-cases (one_of esc_chars c)) [
  | inl e ↦ rw e (omega (arith, newlines-escaped s))
  | inr e ↦ rw e (omega (arith, newlines-escaped s))
]

read-newlines : (s : Text) → newlines s ≤ length (read s)
unfolding read
read-newlines s = omega (arith, lines_counted [] s, length-map (get_lines [] s) read_record)

-- The newlines inside the values of a key, and of a record.
abbrev pub values_newlines : List Text → ℕ
values_newlines [] = 0
values_newlines (v ∷ vs) = newlines v + values_newlines vs

abbrev pub record_newlines : RecordMap → ℕ
record_newlines [] = 0
record_newlines ((k, vs) ∷ m) = values_newlines vs + record_newlines m

values_newlines-write : (vs : List Text) → values_newlines vs ≤ newlines (write_values vs)
unfolding write_values
values_newlines-write [] = omega arith
values_newlines-write (v ∷ vs) = omega (
  arith,
  newlines-append (write_esc_string v esc_chars esc) (write_values vs),
  newlines-escaped v,
  values_newlines-write vs,
)

record_newlines-write :
    (count : ℕ) (m : RecordMap) → record_newlines m ≤ newlines (write_entries count m)
unfolding write_entries
record_newlines-write count [] = omega arith
record_newlines-write count ((k, []) ∷ m) = omega (arith, record_newlines-write count m)
record_newlines-write count ((k, v ∷ vs) ∷ m) =
    let rest = write_entries (count + 1) m in
    omega (
      arith,
      newlines-append (if count == 0 then [] else sep ∷ []) (k ++ (write_values (v ∷ vs) ++ rest)),
      newlines-append k (write_values (v ∷ vs) ++ rest),
      newlines-append (write_values (v ∷ vs)) rest,
      values_newlines-write (v ∷ vs),
      record_newlines-write (count + 1) m,
    )

nothing_written : (m : RecordMap) → num_written m ≡ 0 → record_newlines m ≡ 0
nothing_written [] h = refl
nothing_written ((k, []) ∷ m) h = omega (arith, nothing_written m h)
nothing_written ((k, v ∷ vs) ∷ m) h = absurd (omega (arith, h))

write_record-newlines : (m : RecordMap) → 1 ≤ record_newlines m → 2 ≤ newlines (write_record m)
unfolding write_record
write_record-newlines m h = elim (Bool-cases (num_written m == 0)) [
  | inl e ↦ absurd (ground (arith, e, nothing_written m (ground (arith, e)), h))
  | inr e ↦ rw e (
      omega
        (arith, newlines-append (write_entries 0 m) (newline ∷ []), record_newlines-write 0 m, h))
]

-- A record with a newline inside some value of some key is not read back from its file as this
-- one record.
pub read-write_newline : (m : RecordMap) → 1 ≤ record_newlines m → read (write_record m) ≢ m ∷ []
read-write_newline m h same =
    absurd
      (omega (arith, ap length same, read-newlines (write_record m), write_record-newlines m h))
