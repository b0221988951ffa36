-- ===== src/Common/Int.antt =====
-- Signed numbers, for the differences that movements record.
use Prim.Native.Nat.{ℕ, ◌-◌}
use automatizacion_wh.Common.Tests.{leb, if◌then◌else◌}

-- `negsuc n` is -(n + 1).
pub data ℤ : Type 0 where
  pos : ℕ → ℤ
  negsuc : ℕ → ℤ

-- a - b, as an integer.
abbrev pub sub_ℕ : ℕ → ℕ → ℤ
sub_ℕ a b = if leb b a then pos (a - b) else negsuc (b - a - 1)

-- -a.
abbrev pub neg_ℕ : ℕ → ℤ
neg_ℕ a = sub_ℕ 0 a
