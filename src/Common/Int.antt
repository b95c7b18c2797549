-- ===== src/Common/Int.antt =====
-- Python's int where the source tests a sign: `negsuc n` is -(n + 1).
use Prim.Native.Nat.{ℕ, zero, suc}
use mathlib.Core.Option.{Option, none, some}

pub data ℤ : Type 0 where
  pos : ℕ → ℤ
  negsuc : ℕ → ℤ

-- The value of an integer that is at least 0, and of one that is at least 1.
abbrev pub non_negative : ℤ → Option ℕ
non_negative (pos n) = some n
non_negative (negsuc n) = none

abbrev pub positive : ℤ → Option ℕ
positive (pos zero) = none
positive (pos (suc n)) = some (suc n)
positive (negsuc n) = none
