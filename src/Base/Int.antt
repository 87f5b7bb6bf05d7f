-- ===== src/Base/Int.antt =====
-- Signed values, for the estimates that JavaScript lets fall below zero. `negsuc n` is -(n + 1).
use Prim.Native.Nat.{ℕ, suc, ◌+◌, ◌-◌}
use mathlib.Core.Path.{◌≡◌}
use mathlib.Core.Bool.{Bool}
use native.Mathlib.Omega.{arith}
use ipfs_node.Base.Tests.{leb, ltb, if◌then◌else◌}

pub data ℤ : Type 0 where
  pos : ℕ → ℤ
  negsuc : ℕ → ℤ

-- `Math.max(0, a)`
abbrev pub pos_part : ℤ → ℕ
pos_part (pos n) = n
pos_part (negsuc n) = 0

abbrev pub neg_part : ℤ → ℕ
neg_part (pos n) = 0
neg_part (negsuc n) = suc n

abbrev pub sub_ℕ : ℕ → ℕ → ℤ
sub_ℕ a b = if leb b a then pos (a - b) else negsuc (b - a - 1)

-- `a - n` at a count `n`
unfoldable pub minus : ℤ → ℕ → ℤ
minus a n = sub_ℕ (pos_part a) (neg_part a + n)

-- `n - a`
unfoldable pub from_minus : ℕ → ℤ → ℤ
from_minus n a = sub_ℕ (n + neg_part a) (pos_part a)

-- `a < b`
abbrev pub ltz : ℤ → ℤ → Bool
ltz a b = ltb (pos_part a + neg_part b) (pos_part b + neg_part a)

pub minus_parts :
    (a : ℤ) (n : ℕ) → pos_part (minus a n) + neg_part a + n ≡ pos_part a + neg_part (minus a n)
unfolding minus
minus_parts a n = ground arith

pub from_minus_parts :
    (n : ℕ) (a : ℤ)
    → pos_part (from_minus n a) + pos_part a ≡ n + neg_part a + neg_part (from_minus n a)
unfolding from_minus
from_minus_parts n a = ground arith
