-- ===== src/ContextBuffer/Slots.antt =====
-- The slots of a blackboard as a list: where a key stands, and what moving a slot does.
use caliper.Base.{ℕ, zero, suc, ◌+◌, ◌≡◌, ◌⊎◌, inl, inr, refl, sym, ap, ◌∙◌}
use caliper.Base.{arith, ◌==◌, if◌then◌else◌, true, false, Bool-cases}
use caliper.Base.{List, [], ◌∷◌, ◌++◌, Option, none, some, length, get_elem?, set}
use caliper.Variant.{Variant, empty_variant}
use caliper.ContextBuffer.{Slot, next, find, value_at}

-- The values that stand under a key.
abbrev pub matching : ℕ → List Slot → List Variant
matching k [] = []
matching k (s ∷ ss) = if s.key == k then s.value ∷ matching k ss else matching k ss

abbrev pub first_or_empty : List Variant → Variant
first_or_empty [] = empty_variant
first_or_empty (v ∷ vs) = v

pub matching-append :
    (k : ℕ) (xs ys : List Slot) → matching k (xs ++ ys) ≡ matching k xs ++ matching k ys
matching-append k [] ys = refl
matching-append k (x ∷ xs) ys = elim (Bool-cases (x.key == k)) [
  | inl e ↦ rw (e, matching-append k xs ys)
  | inr e ↦ rw (e, matching-append k xs ys)
]

-- A slot of the list with the key, and how many stand in front of it.
pub record Split (xs : List Slot) (k i : ℕ) : Type 0 where
  pub before : List Slot
  pub slot : Slot
  pub behind : List Slot
  pub layout : xs ≡ before ++ (slot ∷ behind)
  pub place : i ≡ length before
  pub keyed : slot.key ≡ k

some-none {ℓ} : {A : Type ℓ} {a : A} → ¬ (some a ≡ none)
some-none h = cc

none-some {ℓ} : {A : Type ℓ} {a : A} → ¬ (none ≡ some a)
none-some h = cc

some_inj {ℓ} : {A : Type ℓ} {a b : A} → some a ≡ some b → a ≡ b
some_inj h = cc

find_here : (k : ℕ) (x : Slot) (xs : List Slot) → x.key == k ≡ true → find k (x ∷ xs) ≡ some 0
unfolding find
find_here k x xs e = rw e

find_later :
    (k : ℕ) (x : Slot) (xs : List Slot) → x.key == k ≡ false → find k (x ∷ xs) ≡ next (find k xs)
unfolding find
find_later k x xs e = rw e

next-none : (o : Option ℕ) → next o ≡ none → o ≡ none
next-none none h = refl
next-none (some i) h = cc

next-some : (o : Option ℕ) (i : ℕ) → next o ≡ some i → (j : ℕ) × (i ≡ suc j) × (o ≡ some j)
next-some none i h = cc
next-some (some j) i h = (j, cc, refl)

pub find-none : (k : ℕ) (xs : List Slot) → find k xs ≡ none → matching k xs ≡ []
find-none k [] h = refl
find-none k (x ∷ xs) h = elim (Bool-cases (x.key == k)) [
  | inl e ↦ absurd (some-none (sym (find_here k x xs e) ∙ h))
  | inr e ↦ rw e (find-none k xs (next-none (find k xs) (sym (find_later k x xs e) ∙ h)))
]

pub find-Split : (k : ℕ) (xs : List Slot) (i : ℕ) → find k xs ≡ some i → Split xs k i
unfolding find
find-Split k [] i h = cc
find-Split k (x ∷ xs) i h = elim (Bool-cases (x.key == k)) [
  | inl e ↦
      let z = some_inj (sym (find_here k x xs e) ∙ h) in
      record {
        before = [];
        slot = x;
        behind = xs;
        layout = refl;
        place = sym z;
        keyed = ground (arith, e);
      }
  | inr e ↦
      let (j, at, r) = next-some (find k xs) i (sym (find_later k x xs e) ∙ h) in
      let s = find-Split k xs j r in
      record {
        before = x ∷ s.before;
        slot = s.slot;
        behind = s.behind;
        layout = ap (λ (t : List Slot). x ∷ t) s.layout;
        place = at ∙ ap suc s.place;
        keyed = s.keyed;
      }
]

value_at-next :
    (x : Slot) (xs : List Slot) (o : Option ℕ) → value_at (x ∷ xs) (next o) ≡ value_at xs o
value_at-next x xs none = refl
value_at-next x xs (some i) = refl

-- What `get` reads.
pub value_at-find :
    (k : ℕ) (xs : List Slot) → value_at xs (find k xs) ≡ some (first_or_empty (matching k xs))
unfolding find
value_at-find k [] = refl
value_at-find k (x ∷ xs) = elim (Bool-cases (x.key == k)) [
  | inl e ↦ rw (find_here k x xs e, e)
  | inr e ↦ rw (find_later k x xs e, e) (value_at-next x xs (find k xs) ∙ value_at-find k xs)
]

pub find-append :
    (k : ℕ) (xs ys : List Slot) (i : ℕ)
    → find k (xs ++ ys) ≡ some i
    → (find k xs ≡ some i) ⊎ ((j : ℕ) × (i ≡ length xs + j) × (find k ys ≡ some j))
find-append k [] ys i h = inr (i, omega arith, h)
find-append k (x ∷ xs) ys i h = elim (Bool-cases (x.key == k)) [
  | inl e ↦ inl (find_here k x xs e ∙ (sym (find_here k x (xs ++ ys) e) ∙ h))
  | inr e ↦
      let (j, at, r) = next-some (find k (xs ++ ys)) i (sym (find_later k x (xs ++ ys) e) ∙ h) in
      elim (find-append k xs ys j r) [
        | inl f ↦ inl (find_later k x xs e ∙ (ap next f ∙ ap some (sym at)))
        | inr (l, m, f) ↦ inr (l, omega arith, f)
      ]
]

pub find-prefix :
    (k : ℕ) (xs ys : List Slot) (i : ℕ) → find k xs ≡ some i → find k (xs ++ ys) ≡ some i
unfolding find
find-prefix k [] ys i h = absurd (none-some h)
find-prefix k (x ∷ xs) ys i h = elim (Bool-cases (x.key == k)) [
  | inl e ↦ find_here k x (xs ++ ys) e ∙ (sym (find_here k x xs e) ∙ h)
  | inr e ↦
      let (j, at, r) = next-some (find k xs) i (sym (find_later k x xs e) ∙ h) in
      find_later k x (xs ++ ys) e ∙ (ap next (find-prefix k xs ys j r) ∙ ap some (sym at))
]

-- A slot behind those that do not have its key.
pub find-last :
    (k : ℕ) (xs : List Slot) (new : Slot)
    → new.key ≡ k
    → find k xs ≡ none
    → find k (xs ++ (new ∷ [])) ≡ some (length xs)
find-last k [] new e h = find_here k new [] (ground arith)
find-last k (x ∷ xs) new e h = elim (Bool-cases (x.key == k)) [
  | inl f ↦ absurd (some-none (sym (find_here k x xs f) ∙ h))
  | inr f ↦
      find_later k x (xs ++ (new ∷ [])) f
      ∙ ap next (find-last k xs new e (next-none (find k xs) (sym (find_later k x xs f) ∙ h)))
]

-- `find` reads the keys alone.
pub find-set :
    (k : ℕ) (xs : List Slot) (i : ℕ) (s t : Slot)
    → get_elem? xs i ≡ some s
    → t.key ≡ s.key
    → find k (set xs i t) ≡ find k xs
unfolding find
find-set k [] i s t h e = refl
find-set k (x ∷ xs) zero s t h e =
    let same : t.key ≡ x.key = e ∙ ap Slot.key (some_inj (sym h)) in rw same refl
find-set k (x ∷ xs) (suc i) s t h e = rw (find-set k xs i s t h e) refl
