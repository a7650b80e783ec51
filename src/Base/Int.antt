-- ===== src/Base/Int.antt =====
-- Integers over the native numbers, and the numbers that a JSON request can hold.
use Prim.Native.Nat.{ℕ, min, max}

-- `negsuc n` is -(n + 1).
pub data ℤ : Type 0 where
  pos : ℕ → ℤ
  negsuc : ℕ → ℤ

-- `Math.max(0, z)`
abbrev pub pos_part : ℤ → ℕ
pos_part (pos n) = n
pos_part (negsuc n) = 0

-- `Number(x)` of a request's field. A finite number is given by its floor: the code applies
-- `Math.floor` to every such number before it uses it in any other way than a test for zero.
pub data Number : Type 0 where
  nan infinity neg_infinity : Number
  finite : ℤ → Number

-- `Math.min(hi, Math.max(lo, n))` for an integer, with `lo` and `hi` at least 0
abbrev pub clamp : ℕ → ℕ → ℤ → ℕ
clamp lo hi z = min hi (max lo (pos_part z))
