-- ===== src/Base/Bits/Fields.antt =====
-- Packed bit fields as arithmetic: `(q << k) | r` and `x & (2 ^ k - 1)`.
use Prim.Native.Nat.{ℕ, zero, suc, ◌+◌, ◌-◌, ◌*◌, ◌/◌, ◌%◌, ◌^◌, ◌≤◌, ◌<◌, max, bit_and, bit_or}
use mathlib.Core.Path.{◌≡◌, ap, ◌∙◌}
use native.Mathlib.Nat.{pow-suc, one-le-pow}
use native.Mathlib.Omega.{arith}
use noa_esp32_pd.Base.Bits.Step.{bit_or_step, bit_and_step, bit_and-zero, bit_or-zero}

double_shift : (k q : ℕ) → 2 * (q * 2 ^ k) ≡ q * 2 ^ suc k
double_shift k q =
    let two_more : 2 ^ suc k ≡ 2 ^ k * 2 = omega (arith, pow-suc 2 k) in
    omega (arith, ap (λ (p : ℕ). q * p) two_more)

-- A field above bit `k`, or-ed with a value of `k` bits: the two are added.
pub bit_or_fields : (k q r : ℕ) → r < 2 ^ k → bit_or (q * 2 ^ k) r ≡ q * 2 ^ k + r
bit_or_fields (suc k) q r small =
    let r_small : r / 2 < 2 ^ k = omega (arith, pow-suc 2 k) in
    ground
      (arith, double_shift k q, bit_or_fields k q (r / 2) r_small, bit_or_step (q * 2 ^ suc k) r)
bit_or_fields zero q r small = ground (arith, bit_or-zero q)

half-ones : (k : ℕ) → ((2 ^ suc k - 1) / 2 ≡ 2 ^ k - 1) × ((2 ^ suc k - 1) % 2 ≡ 1)
half-ones k = omega (arith, pow-suc 2 k, one-le-pow k 2)

low_field : (k q r : ℕ) → r < 2 ^ k → bit_and (q * 2 ^ k + r) (2 ^ k - 1) ≡ r
low_field (suc k) q r small =
    let r_small : r / 2 < 2 ^ k = omega (arith, pow-suc 2 k) in
    ground (
      arith,
      double_shift k q,
      half-ones k,
      low_field k q (r / 2) r_small,
      bit_and_step (q * 2 ^ suc k + r) (2 ^ suc k - 1),
    )
low_field zero q r small = omega (arith, bit_and-zero (q * 1 + r))

-- `x & (2 ^ k - 1)` is the remainder by `2 ^ k`.
pub bit_and_mask : (k a : ℕ) → bit_and a (2 ^ k - 1) ≡ a % 2 ^ k
bit_and_mask k a = ground (arith, one-le-pow k 2, low_field k (a / 2 ^ k) (a % 2 ^ k))

or_comm : (n a b : ℕ) → a ≤ n → b ≤ n → bit_or a b ≡ bit_or b a
or_comm zero a b p q = ground arith
or_comm (suc n) a b p q =
    omega (
      arith,
      bit_or_step a b,
      bit_or_step b a,
      or_comm n (a / 2) (b / 2) (omega arith) (omega arith),
    )

pub bit_or_comm : (a b : ℕ) → bit_or a b ≡ bit_or b a
bit_or_comm a b = or_comm (a + b) a b (omega arith) (omega arith)

half :
    (a b : ℕ) → (bit_or a b / 2 ≡ bit_or (a / 2) (b / 2)) × (bit_or a b % 2 ≡ max (a % 2) (b % 2))
half a b = omega (arith, bit_or_step a b)

or_right_comm :
    (n a b c : ℕ) → a ≤ n → b ≤ n → c ≤ n → bit_or (bit_or a b) c ≡ bit_or (bit_or a c) b
or_right_comm zero a b c p q r = ground arith
or_right_comm (suc n) a b c p q r = ground (
  arith,
  bit_or_step (bit_or a b) c,
  bit_or_step (bit_or a c) b,
  half a b,
  half a c,
  or_right_comm n (a / 2) (b / 2) (c / 2) (omega arith) (omega arith) (omega arith),
)

pub bit_or_right_comm : (a b c : ℕ) → bit_or (bit_or a b) c ≡ bit_or (bit_or a c) b
bit_or_right_comm a b c = or_right_comm (a + b + c) a b c (omega arith) (omega arith) (omega arith)

-- `r | (q << k)` is a sum when `r` fits in `k` bits.
pub bit_or_low : (k q r : ℕ) → r < 2 ^ k → bit_or r (q * 2 ^ k) ≡ q * 2 ^ k + r
bit_or_low k q r fits = bit_or_comm r (q * 2 ^ k) ∙ bit_or_fields k q r fits

-- Two fields at one place share it.
pub bit_or_shift : (k a b : ℕ) → bit_or (a * 2 ^ k) (b * 2 ^ k) ≡ bit_or a b * 2 ^ k
bit_or_shift zero a b = ground arith
bit_or_shift (suc k) a b = ground (
  arith,
  bit_or_step (a * 2 ^ suc k) (b * 2 ^ suc k),
  double_shift k a,
  double_shift k b,
  double_shift k (bit_or a b),
  bit_or_shift k a b,
)

pub bit_and_shift : (k a b : ℕ) → bit_and (a * 2 ^ k) (b * 2 ^ k) ≡ bit_and a b * 2 ^ k
bit_and_shift zero a b = ground arith
bit_and_shift (suc k) a b = ground (
  arith,
  bit_and_step (a * 2 ^ suc k) (b * 2 ^ suc k),
  double_shift k a,
  double_shift k b,
  double_shift k (bit_and a b),
  bit_and_shift k a b,
)
