-- ===== src/Variant/Order.antt =====
-- The order that `cali_variant_compare` gives on numbers.
use caliper.Base.{
  ℕ, ◌+◌, ◌-◌, ◌%◌, ◌^◌, ◌<◌, ◌≡◌, refl, sym, ap, ◌∙◌, arith, ltb, leb, ◌==◌, ◌&&◌, Bool,
  Bool-cases, ◌≤◌,
}
use caliper.Base.{if◌then◌else◌, true, false, inl, inr, none, some}
use caliper.Vlenc.{IsU64}
use caliper.Variant.{AttrType, type_code, Variant, get_type}
use caliper.Variant.AttrType.{int, uint}
use caliper.Variant.Convert.{
  Platform, v_int, rank, is_negative, minus_one, sub_int, compare_uint, compare_as, compare_values,
}

-- `compare_uint` by the order of the numbers.
uint_order :
    (l r : ℕ)
    → IsU64 l
    → IsU64 r
    → compare_uint l r ≡ some (if l == r then 0 else if ltb l r then minus_one else 1)
unfolding compare_uint
uint_order l r hl hr =
    let d = (l + (2 ^ 64 - r)) % 2 ^ 64 in
    elim (Bool-cases (l == r)) [
      | inl e ↦ let zero : d == 0 ≡ true = ground arith in rw (e, zero) refl
      | inr e ↦
          let nonzero : d == 0 ≡ false = ground arith in
          elim (Bool-cases (ltb l r)) [
            | inl f ↦ let wraps : ltb l d ≡ true = ground arith in rw (e, f, nonzero, wraps) refl
            | inr f ↦ let stays : ltb l d ≡ false = ground arith in rw (e, f, nonzero, stays) refl
          ]
    ]

same_type :
    (c : Platform) (l r : Variant) (t : AttrType)
    → get_type l ≡ t
    → get_type r ≡ t
    → compare_values c l r ≡ compare_as c t l r
unfolding compare_values
same_type c l r t h g =
    let e : type_code (get_type l) == type_code (get_type r) ≡ true =
      ground (arith, ap type_code h, ap type_code g) in
    rw e (ap (λ (x : AttrType). compare_as c x l r) h)

if_some {ℓ} :
    {A : Type ℓ} (b : Bool) (y x : A) → (if b then some y else none) ≡ some x → (b ≡ true) × (y ≡ x)
if_some true y x h = (refl, cc)
if_some false y x h = cc

both : (p q : Bool) → (p && q) ≡ true → (p ≡ true) × (q ≡ true)
both true true h = (refl, refl)
both true false h = cc
both false q h = cc

sub_int_order :
    (l r x : ℕ)
    → l < 2 ^ 32
    → r < 2 ^ 32
    → sub_int l r ≡ some x
    → (is_negative x ≡ ltb (rank l) (rank r)) × ((x == 0) ≡ (l == r))
unfolding sub_int
sub_int_order l r x hl hr h =
    let fits = leb (rank l) (rank r + (2 ^ 31 - 1)) && leb (rank r) (rank l + 2 ^ 31) in
    let (e, value) = if_some fits ((l + (2 ^ 32 - r)) % 2 ^ 32) x h in
    let (below, above) =
      both (leb (rank l) (rank r + (2 ^ 31 - 1))) (leb (rank r) (rank l + 2 ^ 31)) e in
    let lo : rank l ≤ rank r + (2 ^ 31 - 1) = ground arith in
    let hi : rank r ≤ rank l + 2 ^ 31 = ground arith in (ground arith, ground arith)

-- The comparison of two unsigned 64-bit values answers -1, 0 or 1 by their order as numbers,
-- although it takes their difference, which wraps around.
pub compare_values-uint :
    (c : Platform) (l r : Variant)
    → get_type l ≡ uint
    → get_type r ≡ uint
    → IsU64 l.v_uint
    → IsU64 r.v_uint
    → compare_values c l r
      ≡ some (if l.v_uint == r.v_uint then 0 else if ltb l.v_uint r.v_uint then minus_one else 1)
compare_values-uint c l r h g hl hr = same_type c l r uint h g ∙ uint_order l.v_uint r.v_uint hl hr

-- Where the comparison of two `int` values does not overflow, its answer is negative or zero where the first is
-- the lower or the same in the order of the integers.
pub compare_values-int :
    (c : Platform) (l r : Variant) (x : ℕ)
    → get_type l ≡ int
    → get_type r ≡ int
    → compare_values c l r ≡ some x
    → (is_negative x ≡ ltb (rank (v_int l)) (rank (v_int r))) × ((x == 0) ≡ (v_int l == v_int r))
compare_values-int c l r x h g run =
    sub_int_order (v_int l) (v_int r) x (omega arith) (omega arith)
      (sym (same_type c l r int h g) ∙ run)
