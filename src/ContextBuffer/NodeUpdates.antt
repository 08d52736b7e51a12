-- ===== src/ContextBuffer/NodeUpdates.antt =====
-- Where `set_node` puts a new slot.
use caliper.Base.{ℕ, zero, suc, ◌+◌, ◌≤◌, ◌≡◌, ◌≢◌, refl, sym, ap, ◌∙◌, arith, ltb}
use caliper.Base.{if◌then◌else◌, true, false, append_assoc, append-nil, length-append}
use caliper.Base.{List, [], ◌∷◌, ◌++◌, some, length, take}
use caliper.Variant.{Variant}
use caliper.ContextBuffer.{Slot, move_to, swap_back}
use caliper.ContextBuffer.Slots.{matching, matching-append}
use caliper.ContextBuffer.Moves.{
  rotate, move_to-snoc, matching-rotate, swap_back_self, swap_back-two,
}
use caliper.ContextBuffer.Matching.{insert_other, insert_own}

pub take_append {ℓ} : {A : Type ℓ} (xs ys : List A) (n : ℕ) → n ≡ length xs → take n (xs ++ ys) ≡ xs
take_append [] ys zero h = refl
take_append [] ys (suc n) h = absurd (omega arith)
take_append (x ∷ xs) ys zero h = absurd (omega arith)
take_append {A} (x ∷ xs) ys (suc n) h =
    ap (λ (t : List A). x ∷ t) (take_append xs ys n (omega arith))

-- The second exchange of `set_node`: the first hidden slot, which stands at the end, goes to the
-- end of the hidden region.
swap_back-end :
    (pre rest : List Slot) (x : Slot) (p : ℕ)
    → p ≡ length pre
    → swap_back (pre ++ (rest ++ (x ∷ []))) p ≡ some ((pre ++ (x ∷ [])) ++ rotate rest)
swap_back-end pre [] x p h = swap_back_self pre x p h ∙ ap some (sym (append-nil (pre ++ (x ∷ []))))
swap_back-end pre (d ∷ rest) x p h =
    swap_back-two pre d rest x p h ∙ ap some (sym (append_assoc pre (x ∷ []) (rest ++ (d ∷ []))))

-- Both exchanges: the regions grow by the new slot, and the other two are turned by one.
pub place_node :
    (N H D : List Slot) (new : Slot) (n h : ℕ)
    → n ≡ length N
    → h ≡ length H
    → (first : List Slot) × (move_to ((N ++ (H ++ D)) ++ (new ∷ [])) n ≡ some first)
      × ((if ltb 0 h then swap_back first (n + h) else some first)
          ≡ some ((N ++ (new ∷ [])) ++ (rotate H ++ rotate D)))
place_node N [] D new n h hn hh =
    let t : ltb 0 h ≡ false = ground arith in
    (
      N ++ (new ∷ rotate D),
      move_to-snoc N D new n hn,
      rw t (ap some (sym (append_assoc N (new ∷ []) (rotate D)))),
    )
place_node N (x ∷ H) D new n h hn hh =
    let t : ltb 0 h ≡ true = ground arith in
    let front = N ++ (new ∷ H) in
    let shape : N ++ (new ∷ ((H ++ D) ++ (x ∷ []))) ≡ front ++ (D ++ (x ∷ [])) =
      simp append_assoc in
    (
      N ++ (new ∷ ((H ++ D) ++ (x ∷ []))),
      move_to-snoc N (x ∷ (H ++ D)) new n hn,
      rw t (
          ap (λ (s : List Slot). swap_back s (n + h)) shape
          ∙ (swap_back-end front D x (n + h) (omega (arith, length-append N (new ∷ H)))
              ∙ ap some (simp append_assoc))),
    )

-- Values under a key in the three regions.
pub matching_regions :
    (k : ℕ) (N H D : List Slot)
    → matching k (N ++ (H ++ D)) ≡ matching k N ++ (matching k H ++ matching k D)
matching_regions k N H D =
    matching-append k N (H ++ D)
    ∙ ap (λ (t : List Variant). matching k N ++ t) (matching-append k H D)

pub place_other :
    (k : ℕ) (N H D : List Slot) (new : Slot)
    → new.key ≢ k
    → length (matching k (N ++ (H ++ D))) ≤ 1
    → matching k ((N ++ (new ∷ [])) ++ (rotate H ++ rotate D)) ≡ matching k (N ++ (H ++ D))
place_other k N H D new h once =
    let all = matching_regions k N H D in
    let sizes : length (matching k N) + (length (matching k H) + length (matching k D)) ≤ 1 =
      omega (
        arith,
        ap length all,
        length-append (matching k N) (matching k H ++ matching k D),
        length-append (matching k H) (matching k D),
      ) in
    let own : matching k (N ++ (new ∷ [])) ≡ matching k N =
      insert_other k N [] new h
        (omega (arith, sizes, ap (λ (t : List Slot). length (matching k t)) (append-nil N)))
      ∙ ap (matching k) (append-nil N) in
    matching_regions k (N ++ (new ∷ [])) (rotate H) (rotate D)
    ∙ (rw
        (
          own,
          matching-rotate k H (omega (arith, sizes)),
          matching-rotate k D (omega (arith, sizes)),
        )
        (sym all))

pub place_own :
    (N H D : List Slot) (new : Slot)
    → matching new.key N ≡ []
    → matching new.key H ≡ []
    → matching new.key D ≡ []
    → matching new.key ((N ++ (new ∷ [])) ++ (rotate H ++ rotate D)) ≡ new.value ∷ []
place_own N H D new hn hh hd =
    let k = new.key in
    matching_regions k (N ++ (new ∷ [])) (rotate H) (rotate D)
    ∙ rw
        (
          insert_own k N [] new refl (ap (matching k) (append-nil N) ∙ hn),
          matching-rotate k H (omega (arith, ap length hh)),
          matching-rotate k D (omega (arith, ap length hd)),
          hh,
          hd,
        )
        refl
