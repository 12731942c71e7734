-- ===== src/Prelude/Words.antt =====
-- Machine words as native numbers: an unsigned word is its value, an `int` its bit pattern.
use Prim.Native.Nat.{ℕ, ◌+◌, ◌-◌, ◌*◌, ◌/◌, ◌%◌, ◌^◌}
use mathlib.Core.Bool.{Bool}
use qemu_win.Prelude.Bools.{ltb, if◌then◌else◌}

abbrev pub u32 : ℕ → ℕ
u32 x = x % 2 ^ 32

abbrev pub u64 : ℕ → ℕ
u64 x = x % 2 ^ 64

-- `a - b` for two 32-bit words, and for two 64-bit ones
abbrev pub sub32 : ℕ → ℕ → ℕ
sub32 a b = (a + 2 ^ 32 - b) % 2 ^ 32

abbrev pub sub64 : ℕ → ℕ → ℕ
sub64 a b = (a + 2 ^ 64 - b) % 2 ^ 64

-- The shift of a signed 32-bit word to the right, the comparison of two, and the extension to 64
-- bits.
abbrev pub sar32 : ℕ → ℕ → ℕ
sar32 x k = if ltb x (2 ^ 31) then x / 2 ^ k else (x + 2 ^ 32 * (2 ^ k - 1)) / 2 ^ k

abbrev pub slt32 : ℕ → ℕ → Bool
slt32 x y = ltb ((x + 2 ^ 31) % 2 ^ 32) ((y + 2 ^ 31) % 2 ^ 32)

abbrev pub sext : ℕ → ℕ
sext x = if ltb x (2 ^ 31) then x else x + (2 ^ 64 - 2 ^ 32)
