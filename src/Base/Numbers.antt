-- ===== src/Base/Numbers.antt =====
-- Facts on products, quotients and truncated differences that the index accounting uses.
use Prim.Native.Nat.{ℕ, ◌-◌, ◌*◌}
use mathlib.Core.Path.{◌≡◌}
use native.Mathlib.Nat.{mul-zero}
use native.Mathlib.Omega.{arith}

pub mul-sub_self : (v a b : ℕ) → a ≡ b → v * (b - a) ≡ 0
mul-sub_self v a b e = let z : b - a ≡ 0 = omega arith in rw z (mul-zero v)
