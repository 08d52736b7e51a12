-- ===== src/Base/Text.antt =====
-- Text as a list of bytes.
use Prim.Native.Nat.{ℕ}
use mathlib.Core.Path.{◌≡◌, refl}
use mathlib.Core.Bool.{Bool, true, false, ◌&&◌, ◌||◌}
use mathlib.Core.List.{List, [], ◌∷◌}
use native.Mathlib.Omega.{arith}
use caliper.Base.Tests.{◌==◌, ltb}

abbrev pub Text : Type 0
Text = List ℕ

-- `std::string::operator==`.
abbrev pub str_eq : Text → Text → Bool
str_eq [] [] = true
str_eq [] (d ∷ t) = false
str_eq (c ∷ s) [] = false
str_eq (c ∷ s) (d ∷ t) = (c == d) && str_eq s t

-- `std::string::operator<`.
abbrev pub str_lt : Text → Text → Bool
str_lt s [] = false
str_lt [] (d ∷ t) = true
str_lt (c ∷ s) (d ∷ t) = ltb c d || ((c == d) && str_lt s t)

-- Whether a character is one of a list.
abbrev pub one_of : Text → ℕ → Bool
one_of [] c = false
one_of (d ∷ ds) c = (c == d) || one_of ds c

pub str_eq_refl : (s : Text) → str_eq s s ≡ true
str_eq_refl [] = refl
str_eq_refl (c ∷ s) = ground (arith, str_eq_refl s)

pub eq-str_eq : (s t : Text) → str_eq s t ≡ true → s ≡ t
eq-str_eq [] [] h = refl
eq-str_eq [] (d ∷ t) h = cc
eq-str_eq (c ∷ s) [] h = cc
eq-str_eq (c ∷ s) (d ∷ t) h = ground (arith, eq-str_eq s t)

-- The order is strict.
pub str_lt_irrefl : (s : Text) → str_lt s s ≡ false
str_lt_irrefl [] = refl
str_lt_irrefl (c ∷ s) = ground (arith, str_lt_irrefl s)

pub str_lt_trans : (s t u : Text) → str_lt s t ≡ true → str_lt t u ≡ true → str_lt s u ≡ true
str_lt_trans s t [] h g = g
str_lt_trans s [] (e ∷ u) h g = cc
str_lt_trans [] (d ∷ t) (e ∷ u) h g = refl
str_lt_trans (c ∷ s) (d ∷ t) (e ∷ u) h g = ground (arith, str_lt_trans s t u)

pub str_lt_asymm : (s t : Text) → str_lt s t ≡ true → str_lt t s ≡ false
str_lt_asymm s [] h = cc
str_lt_asymm [] (d ∷ t) h = refl
str_lt_asymm (c ∷ s) (d ∷ t) h = ground (arith, str_lt_asymm s t)
