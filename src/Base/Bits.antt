-- ===== src/Base/Bits.antt =====
-- `bit_and` with the masks 0x7F and 0x80, and `bit_or` of numbers that share no bit.
use Prim.Native.Nat.{ℕ, zero, suc, ◌+◌, ◌*◌, ◌/◌, ◌%◌, ◌^◌, ◌≤◌, ◌<◌, min, max}
use Prim.Native.Nat.{bit_and, bit_or, digits, bitwise, bit_and-bitwise, bit_or-bitwise}
use mathlib.Core.Path.{◌≡◌, refl, ap}
use native.Mathlib.Nat.{le_refl, pow-suc}
use native.Mathlib.Omega.{arith}

module _ (rest : ℕ → ℕ) (op : ℕ → ℕ → ℕ) where
  -- The fuel of the digit recursion does not matter once it is enough.
  enough_fuel : (n m a b : ℕ) → a ≤ n → a ≤ m → digits rest op n a b ≡ digits rest op m a b
  enough_fuel zero zero a b p q = refl
  enough_fuel zero (suc m) zero b p q = refl
  enough_fuel zero (suc m) (suc a) b p q = absurd (omega arith)
  enough_fuel (suc n) zero zero b p q = refl
  enough_fuel (suc n) zero (suc a) b p q = absurd (omega arith)
  enough_fuel (suc n) (suc m) zero b p q = refl
  enough_fuel (suc n) (suc m) (suc a) b p q =
      rw (enough_fuel n m (suc a / 2) (b / 2) (omega arith) (omega arith))

  lowest_digit :
      (a b : ℕ)
      → bitwise rest op (suc a) b ≡ bitwise rest op (suc a / 2) (b / 2) * 2 + op (suc a % 2) (b % 2)
  lowest_digit a b =
      omega (arith, enough_fuel a (suc a / 2) (suc a / 2) (b / 2) (omega arith) (le_refl _))

or_step : (a b : ℕ) → bit_or a b ≡ bit_or (a / 2) (b / 2) * 2 + max (a % 2) (b % 2)
or_step zero b = simp bit_or-bitwise (omega arith)
or_step (suc a) b = simp bit_or-bitwise (lowest_digit (λ y. y) max a b)

and_step : (a b : ℕ) → bit_and a b ≡ bit_and (a / 2) (b / 2) * 2 + min (a % 2) (b % 2)
and_step zero b = simp bit_and-bitwise (omega arith)
and_step (suc a) b = simp bit_and-bitwise (lowest_digit (λ y. 0) min a b)

and-zero_below : (n a : ℕ) → a ≤ n → bit_and a 0 ≡ 0
and-zero_below zero a h = omega (arith, and_step a 0, and_none a (omega arith))
  where
    and_none : (a : ℕ) → a ≤ 0 → bit_and a 0 ≡ 0
    and_none zero h = refl
    and_none (suc a) h = absurd (omega arith)
and-zero_below (suc n) zero h = refl
and-zero_below (suc n) (suc a) h =
    omega (arith, and_step (suc a) 0, and-zero_below n (suc a / 2) (omega arith))

and-zero : (a : ℕ) → bit_and a 0 ≡ 0
and-zero a = and-zero_below a a (le_refl a)

-- A mask of ones keeps the low bits.
and_3 : (a : ℕ) → bit_and a 3 ≡ a % 4
and_3 a = omega (arith, and_step a 3, and_step (a / 2) 1, and-zero (a / 2 / 2))

and_15 : (a : ℕ) → bit_and a 15 ≡ a % 16
and_15 a = omega (arith, and_step a 15, and_step (a / 2) 7, and_3 (a / 2 / 2))

and_63 : (a : ℕ) → bit_and a 63 ≡ a % 64
and_63 a = omega (arith, and_step a 63, and_step (a / 2) 31, and_15 (a / 2 / 2))

pub and_0x7F : (a : ℕ) → bit_and a 0x7F ≡ a % 128
and_0x7F a = omega (arith, and_step a 127, and_63 (a / 2))

pub and_0xFF : (a : ℕ) → bit_and a 0xFF ≡ a % 256
and_0xFF a = omega (arith, and_step a 255, and_0x7F (a / 2))

and_8 : (a : ℕ) → bit_and a 8 ≡ a / 8 % 2 * 8
and_8 a = omega (
  arith,
  and_step a 8,
  and_step (a / 2) 4,
  and_step (a / 2 / 2) 2,
  and_step (a / 2 / 2 / 2) 1,
  and-zero (a / 2 / 2 / 2 / 2),
)

pub and_0x80 : (a : ℕ) → bit_and a 0x80 ≡ a / 128 % 2 * 128
and_0x80 a = omega (
  arith,
  and_step a 128,
  and_step (a / 2) 64,
  and_step (a / 2 / 2) 32,
  and_step (a / 2 / 2 / 2) 16,
  and_8 (a / 2 / 2 / 2 / 2),
)

half_double : (t : ℕ) → t * 2 / 2 ≡ t
half_double t = omega arith

or_double : (a t : ℕ) → bit_or a (t * 2) ≡ bit_or (a / 2) t * 2 + a % 2
or_double a t = rw (or_step a (t * 2), half_double t) (omega arith)

-- Numbers that share no bit are added.
pub or_disjoint : (s a g : ℕ) → a < 2 ^ s → bit_or a (g * 2 ^ s) ≡ a + g * 2 ^ s
or_disjoint zero zero g h = omega (arith, bit_or-bitwise 0 (g * 2 ^ 0))
or_disjoint zero (suc a) g h = absurd (omega arith)
or_disjoint (suc s) a g h =
    let p = pow-suc 2 s in
    let twice : g * 2 ^ suc s ≡ g * 2 ^ s * 2 = omega (arith, ap (λ (t : ℕ). g * t) p) in
    rw twice (omega (arith, or_double a (g * 2 ^ s), or_disjoint s (a / 2) g (omega arith)))
