-- ===== src/Prelude/Int.antt =====
-- Signed integers over the native numbers, with what the C code computes on them.
use Prim.Native.Nat.{ℕ, zero, suc, compare, Ordering, ◌+◌, ◌-◌, ◌*◌}

-- `negsuc n` is -(n + 1).
pub data ℤ : Type 0 where
  pos : ℕ → ℤ
  negsuc : ℕ → ℤ

abbrev pub negate : ℕ → ℤ
negate zero = pos 0
negate (suc n) = negsuc n

abbrev pub abs : ℤ → ℕ
abs (pos n) = n
abs (negsuc n) = suc n

-- a - b
abbrev pub difference : ℕ → ℕ → ℤ
difference a b = elim (compare a b) [ Ordering.lt ↦ negsuc (b - a - 1) | _ ↦ pos (a - b) ]

infixl 70 ◌*ℤ◌
abbrev pub ◌*ℤ◌ : ℤ → ℤ → ℤ
pos a *ℤ pos b = pos (a * b)
pos a *ℤ negsuc b = negate (a * suc b)
negsuc a *ℤ pos b = negate (suc a * b)
negsuc a *ℤ negsuc b = pos (suc a * suc b)

infixl 65 ◌-ℤ◌
abbrev pub ◌-ℤ◌ : ℤ → ℤ → ℤ
pos a -ℤ pos b = difference a b
pos a -ℤ negsuc b = pos (a + suc b)
negsuc a -ℤ pos b = negsuc (a + b)
negsuc a -ℤ negsuc b = difference b a
