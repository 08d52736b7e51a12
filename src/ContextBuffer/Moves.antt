-- ===== src/ContextBuffer/Moves.antt =====
-- What exchanging, updating and removing slots does to the list of slots.
use caliper.Base.{ℕ, zero, suc, ◌+◌, ◌-◌, ◌≤◌, ◌≡◌, refl, sym, ap, ◌∙◌, arith, ltb}
use caliper.Base.{true, false, append-nil, length-append, append_assoc}
use caliper.Base.{List, [], ◌∷◌, ◌++◌, some, length, get_elem?, set, All}
use caliper.Base.Memory.{get_elem?-append}
use caliper.ContextBuffer.{Slot, swap_back, move_to, erase}
use caliper.ContextBuffer.Slots.{matching, matching-append}

-- The first element goes to the end.
abbrev pub rotate {ℓ} : {A : Type ℓ} → List A → List A
rotate [] = []
rotate (x ∷ xs) = xs ++ (x ∷ [])

pub length-rotate {ℓ} : {A : Type ℓ} (xs : List A) → length (rotate xs) ≡ length xs
length-rotate [] = refl
length-rotate (x ∷ xs) = omega (arith, length-append xs (x ∷ []))

pub All-append {ℓ κ} :
    {A : Type ℓ} (P : A → Type κ) (xs ys : List A) → All P xs → All P ys → All P (xs ++ ys)
All-append P [] ys h g = g
All-append P (x ∷ xs) ys (p, h) g = (p, All-append P xs ys h g)

pub All-split {ℓ κ} :
    {A : Type ℓ} (P : A → Type κ) (xs ys : List A) → All P (xs ++ ys) → All P xs × All P ys
All-split P [] ys g = (tt, g)
All-split P (x ∷ xs) ys (p, g) = let (h, k) = All-split P xs ys g in ((p, h), k)

pub All-rotate {ℓ κ} : {A : Type ℓ} (P : A → Type κ) (xs : List A) → All P xs → All P (rotate xs)
All-rotate P [] h = h
All-rotate P (x ∷ xs) (p, h) = All-append P xs (x ∷ []) h (p, tt)

pub set-append {ℓ} :
    {A : Type ℓ} (pre : List A) (x : A) (post : List A) (p : ℕ) (v : A)
    → p ≡ length pre
    → set (pre ++ (x ∷ post)) p v ≡ pre ++ (v ∷ post)
set-append [] x post zero v h = refl
set-append [] x post (suc p) v h = absurd (omega arith)
set-append (y ∷ pre) x post zero v h = absurd (omega arith)
set-append {A} (y ∷ pre) x post (suc p) v h =
    ap (λ (t : List A). y ∷ t) (set-append pre x post p v (omega arith))

pub erase-append {ℓ} :
    {A : Type ℓ} (pre : List A) (x : A) (post : List A) (p : ℕ)
    → p ≡ length pre
    → erase (pre ++ (x ∷ post)) p ≡ pre ++ post
erase-append [] x post zero h = refl
erase-append [] x post (suc p) h = absurd (omega arith)
erase-append (y ∷ pre) x post zero h = absurd (omega arith)
erase-append {A} (y ∷ pre) x post (suc p) h =
    ap (λ (t : List A). y ∷ t) (erase-append pre x post p (omega arith))

-- `swap_back` on two different slots.
pub swap_back-two :
    (pre : List Slot) (x : Slot) (mid : List Slot) (y : Slot) (p : ℕ)
    → p ≡ length pre
    → swap_back (pre ++ (x ∷ (mid ++ (y ∷ [])))) p ≡ some (pre ++ (y ∷ (mid ++ (x ∷ []))))
unfolding swap_back
swap_back-two pre x mid y p h =
    let slots = pre ++ (x ∷ (mid ++ (y ∷ []))) in
    let flat : (z : Slot) → pre ++ (z ∷ (mid ++ (y ∷ []))) ≡ (pre ++ (z ∷ mid)) ++ (y ∷ []) =
      λ z. sym (append_assoc pre (z ∷ mid) (y ∷ [])) in
    let last : length slots - 1 ≡ length (pre ++ (y ∷ mid)) = omega (
      arith,
      length-append pre (x ∷ (mid ++ (y ∷ []))),
      length-append mid (y ∷ []),
      length-append pre (y ∷ mid),
    ) in
    let last' : length slots - 1 ≡ length (pre ++ (x ∷ mid)) =
      omega (arith, last, length-append pre (y ∷ mid), length-append pre (x ∷ mid)) in
    let at_p : get_elem? slots p ≡ some x = get_elem?-append pre x (mid ++ (y ∷ [])) p h in
    let at_end : get_elem? slots (length slots - 1) ≡ some y =
      ap (λ (t : List Slot). get_elem? t (length slots - 1)) (flat x)
      ∙ get_elem?-append (pre ++ (x ∷ mid)) y [] _ last' in
    let first : set slots p y ≡ (pre ++ (y ∷ mid)) ++ (y ∷ []) =
      set-append pre x (mid ++ (y ∷ [])) p y h ∙ flat y in
    let second : set (set slots p y) (length slots - 1) x ≡ pre ++ (y ∷ (mid ++ (x ∷ []))) =
      ap (λ (t : List Slot). set t (length slots - 1) x) first
      ∙ (set-append (pre ++ (y ∷ mid)) y [] _ x last ∙ append_assoc pre (y ∷ mid) (x ∷ [])) in
    rw (at_p, at_end) (ap some second)

-- `swap_back` on the last slot itself.
pub swap_back_self :
    (pre : List Slot) (x : Slot) (p : ℕ)
    → p ≡ length pre
    → swap_back (pre ++ (x ∷ [])) p ≡ some (pre ++ (x ∷ []))
unfolding swap_back
swap_back_self pre x p h =
    let slots = pre ++ (x ∷ []) in
    let last : length slots - 1 ≡ length pre = omega (arith, length-append pre (x ∷ [])) in
    let second : set (set slots p x) (length slots - 1) x ≡ slots =
      ap (λ (t : List Slot). set t (length slots - 1) x) (set-append pre x [] p x h)
      ∙ set-append pre x [] _ x last in
    rw (get_elem?-append pre x [] p h, get_elem?-append pre x [] _ last) (ap some second)

-- A new slot at the end takes the place `p`, and the slot from there goes to the end.
pub move_to-snoc :
    (pre rest : List Slot) (new : Slot) (p : ℕ)
    → p ≡ length pre
    → move_to ((pre ++ rest) ++ (new ∷ [])) p ≡ some (pre ++ (new ∷ rotate rest))
unfolding move_to
move_to-snoc pre [] new p h =
    let flat : (pre ++ []) ++ (new ∷ []) ≡ pre ++ (new ∷ []) = rw (append-nil pre) in
    let slots = (pre ++ []) ++ (new ∷ []) in
    let n : length slots ≡ length pre + 1 = ap length flat ∙ length-append pre (new ∷ []) in
    let t : ltb p (length slots - 1) ≡ false = ground (arith, n) in rw t (ap some flat)
move_to-snoc pre (x ∷ rest) new p h =
    let flat : (pre ++ (x ∷ rest)) ++ (new ∷ []) ≡ pre ++ (x ∷ (rest ++ (new ∷ []))) =
      append_assoc pre (x ∷ rest) (new ∷ []) in
    let slots = (pre ++ (x ∷ rest)) ++ (new ∷ []) in
    let n : length slots ≡ length pre + (2 + length rest) =
      omega (arith, length-append (pre ++ (x ∷ rest)) (new ∷ []), length-append pre (x ∷ rest)) in
    let t : ltb p (length slots - 1) ≡ true = ground (arith, n) in
    rw t (ap (λ (s : List Slot). swap_back s p) flat ∙ swap_back-two pre x rest new p h)

-- Two lists of one element at most commute.
commute {ℓ} : {A : Type ℓ} (xs ys : List A) → length (xs ++ ys) ≤ 1 → xs ++ ys ≡ ys ++ xs
commute [] ys h = sym (append-nil ys)
commute (x ∷ xs) [] h = append-nil (x ∷ xs)
commute (x ∷ xs) (y ∷ ys) h = absurd (omega (arith, length-append xs (y ∷ ys)))

-- A key that stands once at most has the same values after the move.
pub matching-rotate :
    (k : ℕ) (xs : List Slot) → length (matching k xs) ≤ 1 → matching k (rotate xs) ≡ matching k xs
matching-rotate k [] h = refl
matching-rotate k (x ∷ xs) h =
    let two : matching k (x ∷ xs) ≡ matching k (x ∷ []) ++ matching k xs =
      matching-append k (x ∷ []) xs in
    matching-append k xs (x ∷ [])
    ∙ (sym (commute (matching k (x ∷ [])) (matching k xs) (omega (arith, ap length two))) ∙ sym two)
