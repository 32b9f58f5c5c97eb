-- ===== src/Base/Bits.antt =====
-- C's `|`, `&` and `~` on 32-bit patterns, and the laws that the register and flag proofs use.
mod Step
pub mod Fields
use Step.{bit_or_step, bit_and_step, bit_and-zero}
use Prim.Native.Nat.{ℕ, zero, suc, ◌+◌, ◌-◌, ◌*◌, ◌/◌, ◌%◌, ◌^◌, ◌≤◌, ◌<◌, min, max}
use Prim.Native.Nat.{bit_and, bit_or, bit_and-bitwise}
use mathlib.Core.Path.{◌≡◌, refl, ap, ◌∙◌}
use mathlib.Core.Bool.{Bool, true, false, not, ◌&&◌, ◌||◌}
use native.Mathlib.Omega.{arith}
use native.Mathlib.Nat.{pow-suc, one-le-pow}
use noa_esp32_pd.Base.Tests.{◌==◌, ltb, if◌then◌else◌}

-- `x & m`, read as a truth value.
unfoldable pub has : ℕ → ℕ → Bool
has x m = not (bit_and x m == 0)

-- `x |= m`
unfoldable pub set_bits : ℕ → ℕ → ℕ
set_bits x m = bit_or x m

-- `x &= ~m`, where `~` flips 32 bits.
unfoldable pub clear_bits : ℕ → ℕ → ℕ
clear_bits x m = bit_and x (2 ^ 32 - 1 - m)

-- The binary digit of `x` at place `k`.
unfoldable pub bit : ℕ → ℕ → ℕ
bit zero x = x % 2
bit (suc k) x = bit k (x / 2)

pub bit-lt : (k x : ℕ) → bit k x < 2
unfolding bit
bit-lt zero x = omega arith
bit-lt (suc k) x = bit-lt k (x / 2)

half-bit_or : (a b : ℕ) → bit_or a b / 2 ≡ bit_or (a / 2) (b / 2)
half-bit_or a b = omega (arith, bit_or_step a b)

half-bit_and : (a b : ℕ) → bit_and a b / 2 ≡ bit_and (a / 2) (b / 2)
half-bit_and a b = omega (arith, bit_and_step a b)

pub bit-bit_or : (k a b : ℕ) → bit k (bit_or a b) ≡ max (bit k a) (bit k b)
unfolding bit
bit-bit_or zero a b = omega (arith, bit_or_step a b)
bit-bit_or (suc k) a b = rw (half-bit_or a b) (bit-bit_or k (a / 2) (b / 2))

pub bit-bit_and : (k a b : ℕ) → bit k (bit_and a b) ≡ min (bit k a) (bit k b)
unfolding bit
bit-bit_and zero a b = omega (arith, bit_and_step a b)
bit-bit_and (suc k) a b = rw (half-bit_and a b) (bit-bit_and k (a / 2) (b / 2))

half-complement : (n m : ℕ) → m < 2 ^ suc n → (2 ^ suc n - 1 - m) / 2 ≡ 2 ^ n - 1 - m / 2
half-complement n m g = omega (arith, pow-suc 2 n)

-- The ones' complement over `n` bits.
bit-complement : (n k m : ℕ) → k < n → m < 2 ^ n → bit k (2 ^ n - 1 - m) + bit k m ≡ 1
unfolding bit
bit-complement zero k m h g = elim h [ ]
bit-complement (suc n) zero m h g = omega (arith, pow-suc 2 n)
bit-complement (suc n) (suc k) m h g =
    rw (half-complement n m g)
      (bit-complement n k (m / 2) (omega arith) (omega (arith, pow-suc 2 n)))

half-pow : (k : ℕ) → 2 ^ suc k / 2 ≡ 2 ^ k
half-pow k = omega (arith, pow-suc 2 k)

bit_and_pow : (k a : ℕ) → bit_and a (2 ^ k) ≡ bit k a * 2 ^ k
unfolding bit
bit_and_pow zero a = omega (arith, bit_and_step a 1, bit_and-zero (a / 2))
bit_and_pow (suc k) a = ground (
  arith,
  bit_and_step a (2 ^ suc k),
  half-pow k,
  pow-suc 2 k,
  bit_and_pow k (a / 2),
  ap (λ (t : ℕ). bit k (a / 2) * t) (pow-suc 2 k),
)

pub has-bit : (k x : ℕ) → has x (2 ^ k) ≡ (bit k x == 1)
unfolding has
has-bit k x = ground (arith, bit_and_pow k x, bit-lt k x, one-le-pow k 2)

zero_and : (b : ℕ) → bit_and 0 b ≡ 0
zero_and b = simp bit_and-bitwise refl

bit_and_le : (n a b : ℕ) → a ≤ n → bit_and a b ≤ a
bit_and_le zero zero b h = rw (zero_and b) (omega arith)
bit_and_le zero (suc a) b h = omega arith
bit_and_le (suc n) a b h = ground (arith, bit_and_step a b, bit_and_le n (a / 2) (b / 2))

pub clear_bits_le : (x m : ℕ) → clear_bits x m ≤ x
unfolding clear_bits
clear_bits_le x m = bit_and_le x x (2 ^ 32 - 1 - m) (omega arith)

-- Setting bits turns on exactly those of the mask.
pub has-set_bits : (k x m : ℕ) → has (set_bits x m) (2 ^ k) ≡ (has x (2 ^ k) || has m (2 ^ k))
unfolding set_bits
has-set_bits k x m = ground (
  arith,
  has-bit k (bit_or x m),
  has-bit k x,
  has-bit k m,
  bit-bit_or k x m,
  bit-lt k x,
  bit-lt k m,
)

-- Clearing bits turns off exactly those of the mask.
pub has-clear_bits :
    (k x m : ℕ)
    → k < 32
    → m < 2 ^ 32
    → has (clear_bits x m) (2 ^ k) ≡ (has x (2 ^ k) && not (has m (2 ^ k)))
unfolding clear_bits
has-clear_bits k x m h g = ground (
  arith,
  has-bit k (bit_and x (2 ^ 32 - 1 - m)),
  has-bit k x,
  has-bit k m,
  bit-bit_and k x (2 ^ 32 - 1 - m),
  bit-complement 32 k m h g,
  bit-lt k x,
  bit-lt k m,
)

bit-zero : (k : ℕ) → bit k 0 ≡ 0
unfolding bit
bit-zero zero = refl
bit-zero (suc k) = bit-zero k

pow-lt : (j n : ℕ) → j < n → 2 ^ j < 2 ^ n
pow-lt zero (suc n) h = omega (arith, pow-suc 2 n, one-le-pow n 2)
pow-lt (suc j) (suc n) h = omega (arith, pow-suc 2 j, pow-suc 2 n, pow-lt j n (omega arith))
pow-lt j zero h = elim h [ ]

bit-pow : (k j : ℕ) → bit k (2 ^ j) ≡ (if k == j then 1 else 0)
unfolding bit
bit-pow zero zero = refl
bit-pow zero (suc j) = ground (arith, pow-suc 2 j)
bit-pow (suc k) zero = bit-zero k ∙ ground arith
bit-pow (suc k) (suc j) = rw (half-pow j) (bit-pow k j ∙ ground arith)

-- One bit as the mask.
pub has-pow : (k j : ℕ) → has (2 ^ j) (2 ^ k) ≡ (k == j)
has-pow k j = ground (arith, has-bit k (2 ^ j), bit-pow k j)

pub has-set_pow : (k j x : ℕ) → has (set_bits x (2 ^ j)) (2 ^ k) ≡ (has x (2 ^ k) || (k == j))
has-set_pow k j x = rw (has-set_bits k x (2 ^ j), has-pow k j) refl

pub has-clear_pow :
    (k j x : ℕ)
    → ltb k 32 ≡ true
    → ltb j 32 ≡ true
    → has (clear_bits x (2 ^ j)) (2 ^ k) ≡ (has x (2 ^ k) && not (k == j))
has-clear_pow k j x hk hj =
    rw (has-clear_bits k x (2 ^ j) (ground arith) (pow-lt j 32 (ground arith)), has-pow k j) refl
