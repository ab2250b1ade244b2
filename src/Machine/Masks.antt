-- ===== src/Machine/Masks.antt =====
-- A mask keeps a number below itself.
use Prim.Native.Nat.{digits, bit_and-bitwise}
use iso9660_rs.Prelude.{ℕ, zero, suc, ◌/◌, ◌≤◌, min, bit_and, arith}

digits_le : (n a b : ℕ) → digits (λ b. zero) min n a b ≤ b
digits_le zero a b = omega arith
digits_le (suc n) zero b = omega arith
digits_le (suc n) (suc a) b = omega (arith, digits_le n (suc a / 2) (b / 2))

pub bit_and_le : (bits mask : ℕ) → bit_and bits mask ≤ mask
bit_and_le bits mask = omega (arith, bit_and-bitwise bits mask, digits_le bits bits mask)
