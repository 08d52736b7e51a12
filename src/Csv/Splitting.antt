-- ===== src/Csv/Splitting.antt =====
-- What `split` makes of text that `write_esc_string` wrote.
use caliper.Base.{ℕ, ◌≡◌, ◌≢◌, refl, ap, ◌∙◌, arith, ◌==◌, if◌then◌else◌, Bool, true, false}
use caliper.Base.{Bool-cases, inl, inr, List, [], ◌∷◌, ◌++◌, append_assoc, append-nil, All}
use caliper.Base.Text.{Text, one_of}
use caliper.Csv.{
  sep, esc, equals, esc_chars, write_esc_string, Scan, split_step, split_loop, finish, write_values,
}

-- No character of the text needs to be escaped.
abbrev pub IsPlain : Text → Type 0
IsPlain s = All (λ (c : ℕ). one_of esc_chars c ≡ false) s

-- The state behind `out`.
abbrev pub after : List Text → Text → Scan
after vec str = record { vec = vec; str = str; escaped = false }

split_loop-append :
    (s : ℕ) (k : Bool) (st : Scan) (xs ys : Text)
    → split_loop s k st (xs ++ ys) ≡ split_loop s k (split_loop s k st xs) ys
unfolding split_loop
split_loop-append s k st [] ys = refl
split_loop-append s k st (x ∷ xs) ys = split_loop-append s k (split_step s k st x) xs ys

-- An escaped character, with the escape character kept or not.
two_steps :
    (s : ℕ) (keep : Bool) (vec : List Text) (str : Text) (c : ℕ)
    → split_step s keep (split_step s keep (after vec str) esc) c
      ≡ after vec ((if keep then str ++ (esc ∷ []) else str) ++ (c ∷ []))
two_steps s true vec str c = refl
two_steps s false vec str c = refl

plain_step :
    (s : ℕ) (keep : Bool) (vec : List Text) (str : Text) (c : ℕ)
    → c ≢ esc
    → c ≢ s
    → split_step s keep (after vec str) c ≡ after vec (str ++ (c ∷ []))
plain_step s keep vec str c h g =
    let e : c == esc ≡ false = ground arith in let f : c == s ≡ false = ground arith in rw (e, f)

pub sep_step :
    (s : ℕ) (keep : Bool) (vec : List Text) (str : Text)
    → s ≢ esc
    → split_step s keep (after vec str) s ≡ after (vec ++ (str ∷ [])) []
sep_step s keep vec str h =
    let e : s == esc ≡ false = ground arith in let f : s == s ≡ true = ground arith in rw (e, f)

one-two : {a b : Bool} → a ≡ false → b ≡ true → a ≡ b → ⊥
one-two h g e = cc

escaped_out :
    (keep : Bool) (str : Text) (c : ℕ) (W v : Text)
    → ((if keep then str ++ (esc ∷ []) else str) ++ (c ∷ [])) ++ (if keep then W else v)
      ≡ str ++ (if keep then esc ∷ (c ∷ W) else c ∷ v)
escaped_out true str c W v = simp append_assoc
escaped_out false str c W v = simp append_assoc

plain_out :
    (keep : Bool) (str : Text) (c : ℕ) (W v : Text)
    → (str ++ (c ∷ [])) ++ (if keep then W else v) ≡ str ++ (if keep then c ∷ W else c ∷ v)
plain_out true str c W v = simp append_assoc
plain_out false str c W v = simp append_assoc

-- Escaped text goes to the current string: as it is where escape characters are kept, and otherwise as
-- it was before it was written.
pub scan_escaped :
    (s : ℕ) (keep : Bool) (vec : List Text) (str v rest : Text)
    → one_of esc_chars s ≡ true
    → split_loop s keep (after vec str) (write_esc_string v esc_chars esc ++ rest)
      ≡ split_loop s keep
          (after vec (str ++ (if keep then write_esc_string v esc_chars esc else v)))
          rest
unfolding split_loop write_esc_string
scan_escaped s true vec str [] rest h = rw (append-nil str) refl
scan_escaped s false vec str [] rest h = rw (append-nil str) refl
scan_escaped s keep vec str (c ∷ v) rest h = elim (Bool-cases (one_of esc_chars c)) [
  | inl special ↦
      let W = write_esc_string v esc_chars esc in
      let str' = (if keep then str ++ (esc ∷ []) else str) ++ (c ∷ []) in
      rw special (
        ap (λ (st : Scan). split_loop s keep st (W ++ rest)) (two_steps s keep vec str c)
        ∙ (scan_escaped s keep vec str' v rest h
            ∙ ap (λ (t : Text). split_loop s keep (after vec t) rest) (escaped_out keep str c W v)))
  | inr plain ↦
      let W = write_esc_string v esc_chars esc in
      rw plain (
        ap (λ (st : Scan). split_loop s keep st (W ++ rest))
          (plain_step s keep vec str c (λ e. one-two plain refl (ap (one_of esc_chars) e))
            (λ e. one-two plain h (ap (one_of esc_chars) e)))
        ∙ (scan_escaped s keep vec (str ++ (c ∷ [])) v rest h
            ∙ ap (λ (t : Text). split_loop s keep (after vec t) rest) (plain_out keep str c W v)))
]

-- A plain text is its escaped form.
pub write_plain : (k : Text) → IsPlain k → write_esc_string k esc_chars esc ≡ k
unfolding write_esc_string
write_plain [] h = refl
write_plain (c ∷ k) (e, h) = rw e (ap (λ (t : Text). c ∷ t) (write_plain k h))

-- A text where separators are not escaped, such as an entry: the current string takes it as it is.
pub scan_values :
    (vec : List Text) (str : Text) (vs : List Text) (rest : Text)
    → split_loop sep true (after vec str) (write_values vs ++ rest)
      ≡ split_loop sep true (after vec (str ++ write_values vs)) rest
unfolding split_loop write_values
scan_values vec str [] rest = rw (append-nil str) refl
scan_values vec str (v ∷ vs) rest =
    let W = write_esc_string v esc_chars esc in
    let V = write_values vs in
    ap (split_loop sep true (after vec (str ++ (equals ∷ [])))) (append_assoc W V rest)
    ∙ (scan_escaped sep true vec (str ++ (equals ∷ [])) v (V ++ rest) refl
        ∙ (scan_values vec ((str ++ (equals ∷ [])) ++ W) vs rest
            ∙ ap (λ (t : Text). split_loop sep true (after vec t) rest) (simp append_assoc)))

-- Splitting the values of an entry.
pub split_values :
    (vec : List Text) (str : Text) (vs : List Text)
    → finish (split_loop equals false (after vec str) (write_values vs)) ≡ vec ++ (str ∷ vs)
unfolding split_loop write_values
split_values vec str [] = refl
split_values vec str (v ∷ vs) =
    let W = write_esc_string v esc_chars esc in
    ap finish (scan_escaped equals false (vec ++ (str ∷ [])) [] v (write_values vs) refl)
    ∙ (split_values (vec ++ (str ∷ [])) v vs ∙ append_assoc vec (str ∷ []) (v ∷ vs))
