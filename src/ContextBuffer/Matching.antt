-- ===== src/ContextBuffer/Matching.antt =====
-- The values under a key after slots were added or replaced.
use caliper.Base.{ℕ, ◌≤◌, ◌≡◌, ◌≢◌, refl, sym, ap, ◌∙◌, arith, ◌==◌, true, false}
use caliper.Base.{List, [], ◌∷◌, ◌++◌, map, length, length-append, append-nil, All}
use caliper.Variant.{Variant}
use caliper.ContextBuffer.{Slot}
use caliper.ContextBuffer.Slots.{Split, matching, matching-append}
use caliper.ContextBuffer.Moves.{rotate, matching-rotate}
use caliper.ContextBuffer.Regions.{Keyed}

no_front {ℓ} : {A : Type ℓ} (xs ys : List A) → length (xs ++ ys) ≤ 0 → (xs ≡ []) × (ys ≡ [])
no_front [] [] h = (refl, refl)
no_front [] (y ∷ ys) h = absurd (omega arith)
no_front (x ∷ xs) ys h = absurd (omega arith)

-- Where one element stands in the middle of a list of one at most, nothing stands around it.
alone {ℓ} :
    {A : Type ℓ} (xs : List A) (y : A) (ys : List A)
    → length (xs ++ (y ∷ ys)) ≤ 1
    → (xs ≡ []) × (ys ≡ [])
alone [] y [] h = (refl, refl)
alone [] y (z ∷ ys) h = absurd (omega arith)
alone (x ∷ xs) y ys h = absurd (omega (arith, length-append xs (y ∷ ys)))

matching_other :
    (k : ℕ) (s : Slot) (ss : List Slot) → s.key ≢ k → matching k (s ∷ ss) ≡ matching k ss
matching_other k s ss h = let t : s.key == k ≡ false = ground arith in rw t

matching_own :
    (k : ℕ) (s : Slot) (ss : List Slot) → s.key ≡ k → matching k (s ∷ ss) ≡ s.value ∷ matching k ss
matching_own k s ss h = let t : s.key == k ≡ true = ground arith in rw t

-- A new slot behind `pre`, with the first of `rest` moved to the end.
pub insert_other :
    (k : ℕ) (pre rest : List Slot) (new : Slot)
    → new.key ≢ k
    → length (matching k (pre ++ rest)) ≤ 1
    → matching k (pre ++ (new ∷ rotate rest)) ≡ matching k (pre ++ rest)
insert_other k pre rest new h once =
    let both = matching-append k pre rest in
    let few : length (matching k rest) ≤ 1 =
      omega (arith, ap length both, length-append (matching k pre) (matching k rest)) in
    matching-append k pre (new ∷ rotate rest)
    ∙ (ap (λ (t : List Variant). matching k pre ++ t)
          (matching_other k new (rotate rest) h ∙ matching-rotate k rest few)
        ∙ sym both)

pub insert_own :
    (k : ℕ) (pre rest : List Slot) (new : Slot)
    → new.key ≡ k
    → matching k (pre ++ rest) ≡ []
    → matching k (pre ++ (new ∷ rotate rest)) ≡ new.value ∷ []
insert_own k pre rest new h none_yet =
    let both = matching-append k pre rest in
    let (no_pre, no_rest) =
      no_front (matching k pre) (matching k rest)
        (omega (arith, ap length (sym both ∙ none_yet))) in
    let few : length (matching k rest) ≤ 1 = omega (arith, ap length no_rest) in
    matching-append k pre (new ∷ rotate rest)
    ∙ (ap (λ (t : List Variant). t ++ matching k (new ∷ rotate rest)) no_pre
        ∙ (matching_own k new (rotate rest) h
            ∙ ap (λ (t : List Variant). new.value ∷ t) (matching-rotate k rest few ∙ no_rest)))

Keyed-other : (k k' : ℕ) (new : List Slot) → k ≢ k' → All (Keyed k) new → matching k' new ≡ []
Keyed-other k k' [] h g = refl
Keyed-other k k' (s ∷ new) h (e, g) =
    matching_other k' s new (λ f. h (sym e ∙ f)) ∙ Keyed-other k k' new h g

Keyed-own : (k : ℕ) (new : List Slot) → All (Keyed k) new → matching k new ≡ map Slot.value new
Keyed-own k [] g = refl
Keyed-own k (s ∷ new) (e, g) =
    matching_own k s new e ∙ ap (λ (t : List Variant). s.value ∷ t) (Keyed-own k new g)

-- Slots with the key `k` in the place of one.
pub replace_other :
    {xs : List Slot} (k i k' : ℕ) (s : Split xs k i) (new : List Slot)
    → k ≢ k'
    → All (Keyed k) new
    → matching k' (s.before ++ (new ++ s.behind)) ≡ matching k' xs
replace_other {xs} k i k' s new h g =
    let m = matching k' s.behind in
    matching-append k' s.before (new ++ s.behind)
    ∙ (ap (λ (t : List Variant). matching k' s.before ++ t)
          (matching-append k' new s.behind
            ∙ (ap (λ (t : List Variant). t ++ m) (Keyed-other k k' new h g)
                ∙ sym (matching_other k' s.slot s.behind (λ f. h (sym s.keyed ∙ f)))))
        ∙ sym (ap (matching k') s.layout ∙ matching-append k' s.before (s.slot ∷ s.behind)))

pub replace_own :
    {xs : List Slot} (k i : ℕ) (s : Split xs k i) (new : List Slot)
    → length (matching k xs) ≤ 1
    → All (Keyed k) new
    → matching k (s.before ++ (new ++ s.behind)) ≡ map Slot.value new
replace_own {xs} k i s new once g =
    let whole : matching k xs ≡ matching k s.before ++ (s.slot.value ∷ matching k s.behind) =
      ap (matching k) s.layout
      ∙ (matching-append k s.before (s.slot ∷ s.behind)
          ∙ ap (λ (t : List Variant). matching k s.before ++ t)
              (matching_own k s.slot s.behind s.keyed)) in
    let (no_before, no_behind) =
      alone (matching k s.before) s.slot.value (matching k s.behind)
        (omega (arith, ap length whole)) in
    matching-append k s.before (new ++ s.behind)
    ∙ (ap (λ (t : List Variant). t ++ matching k (new ++ s.behind)) no_before
        ∙ (matching-append k new s.behind
            ∙ (ap (λ (t : List Variant). matching k new ++ t) no_behind
                ∙ (append-nil (matching k new) ∙ Keyed-own k new g))))
