-- ===== src/Base/Ints.antt =====
-- Go's signed `int` where its sign matters; `negsuc n` is -(n + 1).
use Prim.Native.Nat.{ℕ}

pub data ℤ : Type 0 where
  pos : ℕ → ℤ
  negsuc : ℕ → ℤ

-- `max(x, 0)`.
abbrev pub clip : ℤ → ℕ
clip (pos n) = n
clip (negsuc n) = 0
