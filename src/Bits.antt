-- ===== src/Bits.antt =====
-- `|` of disjoint bit fields is a sum, at every width and in either order.
mod Step
use Step.{bit_or_step, zero-bit_or}
use native.Mathlib.Nat.{pow-suc}
use s3blk.Base.{ℕ, zero, suc, ◌+◌, ◌*◌, ◌/◌, ◌%◌, ◌^◌, ◌≤◌, ◌<◌, bit_or, ◌≡◌, refl, ap, arith, ◌<<◌}

bit_or-zero_fuel : (n a : ℕ) → a ≤ n → bit_or a 0 ≡ a
bit_or-zero_fuel n zero h = zero-bit_or 0
bit_or-zero_fuel zero (suc a) h = absurd (omega arith)
bit_or-zero_fuel (suc n) (suc a) h =
    omega (arith, bit_or_step (suc a) 0, bit_or-zero_fuel n (suc a / 2) (omega arith))

pub bit_or-zero : (a : ℕ) → bit_or a 0 ≡ a
bit_or-zero a = bit_or-zero_fuel a a (omega arith)

double_field : (q k : ℕ) → q << suc k ≡ 2 * (q << k)
double_field q k = omega (arith, ap (λ (t : ℕ). q * t) (pow-suc 2 k))

-- The high field stands on the left.
pub bit_or-high_low : (k q r : ℕ) → r < 2 ^ k → bit_or (q << k) r ≡ (q << k) + r
bit_or-high_low zero q r h = ground (arith, bit_or-zero (q * 1))
bit_or-high_low (suc k) q r h =
    ground (
      arith,
      bit_or_step (q << suc k) r,
      double_field q k,
      pow-suc 2 k,
      bit_or-high_low k q (r / 2),
    )

-- The low field stands on the left.
pub bit_or-low_high : (k q r : ℕ) → r < 2 ^ k → bit_or r (q << k) ≡ r + (q << k)
bit_or-low_high zero q r h = ground (arith, zero-bit_or (q * 1))
bit_or-low_high (suc k) q r h =
    ground (
      arith,
      bit_or_step r (q << suc k),
      double_field q k,
      pow-suc 2 k,
      bit_or-low_high k q (r / 2),
    )
