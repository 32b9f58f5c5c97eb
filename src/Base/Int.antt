-- ===== src/Base/Int.antt =====
-- Signed C results: `negsuc n` is -(n + 1).
use Prim.Native.Nat.{ℕ}
use mathlib.Core.Bool.{Bool, true, false}
use noa_esp32_pd.Base.Tests.{◌==◌}

pub data ℤ : Type 0 where
  pos : ℕ → ℤ
  negsuc : ℕ → ℤ

-- `x < 0`
abbrev pub is_neg : ℤ → Bool
is_neg (pos n) = false
is_neg (negsuc n) = true

-- `if (x)`
abbrev pub is_nonzero : ℤ → Bool
is_nonzero (pos n) = if_nonzero (n == 0)
  where
    if_nonzero : Bool → Bool
    if_nonzero true = false
    if_nonzero false = true
is_nonzero (negsuc n) = true

-- `x == -1`
abbrev pub is_minus_one : ℤ → Bool
is_minus_one (pos n) = false
is_minus_one (negsuc n) = n == 0
