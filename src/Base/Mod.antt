-- ===== src/Base/Mod.antt =====
-- Arithmetic of bytes.
use Prim.Native.Nat.{ℕ, ◌+◌, ◌-◌, ◌%◌, ◌<◌}
use mathlib.Core.Path.{◌≡◌}
use native.Mathlib.Omega.{arith}

-- A number read as an `unsigned char`.
abbrev pub u8 : ℕ → ℕ
u8 n = n % 256

pub sub-add-u8 : (b k : ℕ) → b < 256 → u8 (u8 (b + k) + 256 - u8 k) ≡ b
sub-add-u8 b k h = omega arith
