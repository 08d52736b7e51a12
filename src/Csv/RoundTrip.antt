-- ===== src/Csv/RoundTrip.antt =====
-- Reading the line that was written for a record.
use caliper.Base.{ℕ, ◌+◌, ◌≡◌, refl, sym, ap, ◌∙◌, arith, ◌==◌, if◌then◌else◌, true, false}
use caliper.Base.{
  List, [], ◌∷◌, ◌++◌, map, ◌<◌, Bool, append_assoc, append-nil, All, Bool-cases, inl, inr,
  true-false,
}
use caliper.Base.Text.{Text, str_eq, str_lt, eq-str_eq, str_lt_irrefl, str_lt_asymm, one_of}
use caliper.Csv.{
  sep, esc, equals, esc_chars, write_esc_string, Scan, split_loop, finish, split, RecordMap, insert,
  write_values, write_entries, add_parts, read_entries, read_record,
}
use caliper.Csv.Splitting.{
  IsPlain, after, sep_step, scan_escaped, write_plain, scan_values, split_values,
}

-- A key that needs no escape, with one value at least.
abbrev pub IsField : Text × List Text → Type 0
IsField (k, []) = ⊥
IsField (k, v ∷ vs) = IsPlain k

-- The order of a `std::map`.
abbrev pub IsSorted : RecordMap → Type 0
IsSorted [] = Unit
IsSorted ((k, vs) ∷ m) = All (λ (e : Text × List Text). str_lt k e.0 ≡ true) m × IsSorted m

abbrev pub IsRecord : RecordMap → Type 0
IsRecord m = All IsField m × IsSorted m

abbrev pub entry_text : Text × List Text → Text
entry_text (k, vs) = k ++ write_values vs

-- A plain key goes to the current string.
scan_key :
    (s : ℕ) (keep : Bool) (vec : List Text) (str k rest : Text)
    → one_of esc_chars s ≡ true
    → IsPlain k
    → split_loop s keep (after vec str) (k ++ rest) ≡ split_loop s keep (after vec (str ++ k)) rest
scan_key s keep vec str k rest h plain =
    let same = write_plain k plain in
    ap (λ (t : Text). split_loop s keep (after vec str) (t ++ rest)) (sym same)
    ∙ (scan_escaped s keep vec str k rest h
        ∙ ap (λ (t : Text). split_loop s keep (after vec (str ++ t)) rest) (kept keep k same))
  where
    kept :
        (b : Bool) (t : Text)
        → write_esc_string t esc_chars esc ≡ t
        → (if b then write_esc_string t esc_chars esc else t) ≡ t
    kept true t e = e
    kept false t e = refl

scan_entry :
    (vec : List Text) (str k : Text) (vs : List Text) (rest : Text)
    → IsPlain k
    → split_loop sep true (after vec str) (k ++ (write_values vs ++ rest))
      ≡ split_loop sep true (after vec (str ++ entry_text (k, vs))) rest
scan_entry vec str k vs rest plain =
    scan_key sep true vec str k (write_values vs ++ rest) refl plain
    ∙ (scan_values vec (str ++ k) vs rest
        ∙ ap (λ (t : Text). split_loop sep true (after vec t) rest)
            (append_assoc str k (write_values vs)))

-- Splitting the entries behind the first.
split_entries :
    (count : ℕ) (vec : List Text) (str : Text) (m : RecordMap)
    → 0 < count
    → All IsField m
    → finish (split_loop sep true (after vec str) (write_entries count m))
      ≡ vec ++ (str ∷ map entry_text m)
unfolding split_loop write_entries
split_entries count vec str [] h g = refl
split_entries count vec str ((k, []) ∷ m) h (g, gs) = absurd g
split_entries count vec str ((k, v ∷ vs) ∷ m) h (plain, gs) =
    let more : count == 0 ≡ false = ground arith in
    let rest = write_entries (count + 1) m in
    rw more (
      ap (λ (st : Scan). finish (split_loop sep true st (k ++ (write_values (v ∷ vs) ++ rest))))
        (sep_step sep true vec str (λ e. absurd (omega arith)))
      ∙ (ap finish (scan_entry (vec ++ (str ∷ [])) [] k (v ∷ vs) rest plain)
          ∙ (split_entries (count + 1) (vec ++ (str ∷ [])) (entry_text (k, v ∷ vs)) m (omega arith)
                gs
              ∙ append_assoc vec (str ∷ []) (entry_text (k, v ∷ vs) ∷ map entry_text m))))

split_line :
    (e : Text × List Text) (m : RecordMap)
    → All IsField (e ∷ m)
    → split (write_entries 0 (e ∷ m)) sep true ≡ map entry_text (e ∷ m)
unfolding split write_entries
split_line (k, []) m (g, gs) = absurd g
split_line (k, v ∷ vs) m (plain, gs) =
    ap finish (scan_entry [] [] k (v ∷ vs) (write_entries (0 + 1) m) plain)
    ∙ split_entries (0 + 1) [] (entry_text (k, v ∷ vs)) m (omega arith) gs

split_entry :
    (k : Text) (vs : List Text) → IsPlain k → split (entry_text (k, vs)) equals false ≡ k ∷ vs
unfolding split
split_entry k vs plain =
    ap finish (scan_key equals false [] [] k (write_values vs) refl plain) ∙ split_values [] k vs

-- A key above all others goes to the end.
insert_last :
    (k : Text) (v : List Text) (m : RecordMap)
    → All (λ (e : Text × List Text). str_lt e.0 k ≡ true) m
    → insert k v m ≡ m ++ ((k, v) ∷ [])
unfolding insert
insert_last k v [] h = refl
insert_last k v ((j, w) ∷ m) (below, h) =
    let other : str_lt k j ≡ false = str_lt_asymm j k below in
    elim (Bool-cases (str_eq k j)) [
      | inl e ↦ absurd (
          true-false
            (sym below ∙ (ap (λ (t : Text). str_lt t k) (sym (eq-str_eq k j e)) ∙ str_lt_irrefl k)))
      | inr e ↦ rw (e, other) (ap (λ (t : RecordMap). (j, w) ∷ t) (insert_last k v m h))
    ]

Below : RecordMap → RecordMap → Type 0
Below rec m =
    All (λ (e : Text × List Text). All (λ (f : Text × List Text). str_lt f.0 e.0 ≡ true) rec) m

-- The entries of a record, read behind those that are lower.
read_entries-append :
    (rec m : RecordMap)
    → All IsField m
    → IsSorted m
    → Below rec m
    → read_entries rec (map entry_text m) ≡ rec ++ m
unfolding read_entries add_parts Below
read_entries-append rec [] g s b = sym (append-nil rec)
read_entries-append rec ((k, []) ∷ m) (g, gs) s b = absurd g
read_entries-append rec ((k, v ∷ vs) ∷ m) (plain, gs) (above, s) (here, b) =
    let rec' = rec ++ ((k, v ∷ vs) ∷ []) in
    ap (λ (parts : List Text). read_entries (add_parts rec parts) (map entry_text m))
      (split_entry k (v ∷ vs) plain)
    ∙ (ap (λ (t : RecordMap). read_entries t (map entry_text m)) (insert_last k (v ∷ vs) rec here)
        ∙ (read_entries-append rec' m gs s (add_below rec k (v ∷ vs) m b above)
            ∙ append_assoc rec ((k, v ∷ vs) ∷ []) m))
  where
    snoc_all :
        (rec' : RecordMap) (j t : Text) (w : List Text)
        → All (λ (f : Text × List Text). str_lt f.0 t ≡ true) rec'
        → str_lt j t ≡ true
        → All (λ (f : Text × List Text). str_lt f.0 t ≡ true) (rec' ++ ((j, w) ∷ []))
    snoc_all [] j t w h e = (e, tt)
    snoc_all (x ∷ xs) j t w (p, h) e = (p, snoc_all xs j t w h e)

    add_below :
        (rec' : RecordMap) (j : Text) (w : List Text) (m' : RecordMap)
        → All
            (λ (e : Text × List Text). All (λ (f : Text × List Text). str_lt f.0 e.0 ≡ true) rec')
            m'
        → All (λ (e : Text × List Text). str_lt j e.0 ≡ true) m'
        → All
            (λ (e : Text × List Text).
              All (λ (f : Text × List Text). str_lt f.0 e.0 ≡ true) (rec' ++ ((j, w) ∷ [])))
            m'
    add_below rec' j w [] h a = tt
    add_below rec' j w (e ∷ m') (p, h) (q, a) =
        (snoc_all rec' j e.0 w p q, add_below rec' j w m' h a)

Below-nothing : (m : RecordMap) → Below [] m
unfolding Below
Below-nothing [] = tt
Below-nothing (e ∷ m) = (tt, Below-nothing m)

read_nothing : read_record (write_entries 0 []) ≡ []
unfolding read_record write_entries
read_nothing = refl

-- Reading the line that is written for a record, whose keys are in order and need no escape and
-- that has a value for every key, gives the record.
pub read_record-write_entries : (m : RecordMap) → IsRecord m → read_record (write_entries 0 m) ≡ m
unfolding read_record
read_record-write_entries [] r = read_nothing
read_record-write_entries (e ∷ m) (g, s) =
    ap (read_entries []) (split_line e m g)
    ∙ read_entries-append [] (e ∷ m) g s (Below-nothing (e ∷ m))
