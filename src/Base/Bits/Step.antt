-- ===== src/Base/Bits/Step.antt =====
-- One equation for the lowest binary digit of the native `bit_or` and `bit_and`.
use Prim.Native.Nat.{ℕ, zero, suc, ◌+◌, ◌*◌, ◌/◌, ◌%◌, ◌≤◌, min, max, bit_and, bit_or}
use Prim.Native.Nat.{digits, bitwise, bit_and-bitwise, bit_or-bitwise}
use mathlib.Core.Path.{◌≡◌, refl, ap}
use native.Mathlib.Nat.{le_refl}
use native.Mathlib.Omega.{arith}

module _ (rest : ℕ → ℕ) (op : ℕ → ℕ → ℕ) where
  -- Any two amounts of fuel that are enough for `a` give the same digits.
  same_digits : (n a m b : ℕ) → a ≤ m → a ≤ n → digits rest op m a b ≡ digits rest op n a b
  same_digits zero zero zero b hm hn = refl
  same_digits (suc n) zero zero b hm hn = refl
  same_digits zero zero (suc m) b hm hn = refl
  same_digits (suc n) zero (suc m) b hm hn = refl
  same_digits zero (suc a) m b hm hn = ground arith
  same_digits (suc n) (suc a) zero b hm hn = ground arith
  same_digits (suc n) (suc a) (suc m) b hm hn =
      let hi = suc a / 2 in
      ap (λ d. d * 2 + op (suc a % 2) (b % 2))
        (same_digits n hi m (b / 2) (omega arith) (omega arith))

  lowest_digit :
      (b a : ℕ)
      → op (suc a % 2) (b % 2) + 2 * bitwise rest op (suc a / 2) (b / 2) ≡ bitwise rest op (suc a) b
  lowest_digit b a =
      let hi = suc a / 2 in omega (arith, same_digits hi hi a (b / 2) (omega arith) (omega arith))

pub bit_and_step : (a b : ℕ) → min (a % 2) (b % 2) + 2 * bit_and (a / 2) (b / 2) ≡ bit_and a b
bit_and_step (suc a) b = simp bit_and-bitwise (lowest_digit (λ y. 0) min b a)
bit_and_step zero b = simp bit_and-bitwise (omega arith)

pub bit_or_step : (a b : ℕ) → max (a % 2) (b % 2) + 2 * bit_or (a / 2) (b / 2) ≡ bit_or a b
bit_or_step (suc a) b = simp bit_or-bitwise (lowest_digit (λ y. y) max b a)
bit_or_step zero b = simp bit_or-bitwise (omega arith)

halving : (n a : ℕ) → a ≤ n → bit_and a 0 ≡ 0
halving n zero h = refl
halving zero (suc a) h = absurd (omega arith)
halving (suc n) (suc a) h =
    omega (arith, bit_and_step (suc a) 0, halving n (suc a / 2) (omega arith))

pub bit_and-zero : (a : ℕ) → bit_and a 0 ≡ 0
bit_and-zero a = halving a a (le_refl a)

or_halving : (n a : ℕ) → a ≤ n → bit_or a 0 ≡ a
or_halving n zero h = refl
or_halving zero (suc a) h = absurd (omega arith)
or_halving (suc n) (suc a) h =
    omega (arith, bit_or_step (suc a) 0, or_halving n (suc a / 2) (omega arith))

pub bit_or-zero : (a : ℕ) → bit_or a 0 ≡ a
bit_or-zero a = or_halving a a (le_refl a)
