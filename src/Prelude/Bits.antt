-- ===== src/Prelude/Bits.antt =====
-- The lowest bit of a number.
use Prim.Native.Nat.{ℕ, zero, suc, ◌/◌, ◌<◌, min, bit_and, bit_and-bitwise, digits}
use mathlib.Core.Path.{◌≡◌, refl}
use native.Mathlib.Omega.{arith}

digits-zero : (n a : ℕ) → digits (λ b. zero) min n a 0 ≡ 0
digits-zero zero a = refl
digits-zero (suc n) zero = refl
digits-zero (suc n) (suc a) = omega (arith, digits-zero n (suc a / 2))

pub bit_and-lt : (x : ℕ) → bit_and x 1 < 2
bit_and-lt zero = omega arith
bit_and-lt (suc a) = rw (bit_and-bitwise (suc a) 1) (omega (arith, digits-zero a (suc a / 2)))
