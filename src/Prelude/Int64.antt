-- ===== src/Prelude/Int64.antt =====
-- Go's int64: an integer, its range and the operations that wrap around. Sums and orders go through
-- the two parts of an integer, which are numbers that `omega` reads.
use Prim.Native.Nat.{ℕ, suc, ◌+◌, ◌-◌, ◌%◌, ◌^◌, ◌≤◌}
use mathlib.Core.Path.{◌≡◌}
use mathlib.Core.Logic.{◌↔◌}
use mathlib.Core.Bool.{Bool, true}
use native.Mathlib.Omega.{arith}
use cpa_plugin_group_billing.Prelude.Tests.{ltb, leb, ◌==◌, if◌then◌else◌}

-- `negsuc n` is -(n + 1).
pub data ℤ : Type 0 where
  pos : ℕ → ℤ
  negsuc : ℕ → ℤ

abbrev pub pos_part : ℤ → ℕ
pos_part (pos n) = n
pos_part (negsuc n) = 0

abbrev pub neg_part : ℤ → ℕ
neg_part (pos n) = 0
neg_part (negsuc n) = suc n

-- a - b, as an integer.
abbrev pub sub_ℕ : ℕ → ℕ → ℤ
sub_ℕ a b = if leb b a then pos (a - b) else negsuc (b - a - 1)

infix 50 ◌≤ℤ◌
abbrev pub ◌≤ℤ◌ : ℤ → ℤ → Type 0
a ≤ℤ b = pos_part a + neg_part b ≤ pos_part b + neg_part a

abbrev pub ltb_ℤ : ℤ → ℤ → Bool
ltb_ℤ a b = ltb (pos_part a + neg_part b) (pos_part b + neg_part a)

abbrev pub leb_ℤ : ℤ → ℤ → Bool
leb_ℤ a b = leb (pos_part a + neg_part b) (pos_part b + neg_part a)

abbrev pub eqb_ℤ : ℤ → ℤ → Bool
eqb_ℤ a b = pos_part a + neg_part b == pos_part b + neg_part a

abbrev pub max_int64 : ℕ
max_int64 = 9_223_372_036_854_775_807

-- The values that an int64 holds.
abbrev pub IsInt64 : ℤ → Type 0
IsInt64 a = (pos_part a ≤ max_int64) × (neg_part a ≤ max_int64 + 1)

-- The int64 with the same low 64 bits.
unfoldable pub wrap64 : ℤ → ℤ
wrap64 (pos n) =
    let low = n % 2 ^ 64 in if leb low max_int64 then pos low else negsuc (2 ^ 64 - low - 1)
wrap64 (negsuc n) =
    let low = n % 2 ^ 64 in if leb low max_int64 then negsuc low else pos (2 ^ 64 - low - 1)

unfoldable pub add64 : ℤ → ℤ → ℤ
unfolding wrap64
add64 a b = wrap64 (sub_ℕ (pos_part a + pos_part b) (neg_part a + neg_part b))

unfoldable pub sub64 : ℤ → ℤ → ℤ
unfolding wrap64
sub64 a b = wrap64 (sub_ℕ (pos_part a + neg_part b) (neg_part a + pos_part b))

pub wrap64_small : (a : ℤ) → IsInt64 a → wrap64 a ≡ a
unfolding wrap64
wrap64_small (pos n) h = ground arith
wrap64_small (negsuc n) h = ground arith

pub wrap64-IsInt64 : (a : ℤ) → IsInt64 (wrap64 a)
unfolding wrap64
wrap64-IsInt64 (pos n) = ground arith
wrap64-IsInt64 (negsuc n) = ground arith

-- A sum and a difference of numbers that fit do not wrap.
pub add64_pos : (a b : ℕ) → a + b ≤ max_int64 → add64 (pos a) (pos b) ≡ pos (a + b)
unfolding add64
add64_pos a b h = ground arith

pub sub64_pos : (a b : ℕ) → b ≤ a → a ≤ max_int64 → sub64 (pos a) (pos b) ≡ pos (a - b)
unfolding sub64
sub64_pos a b h k = ground arith

pub eqb_ℤ_iff : (a b : ℤ) → (eqb_ℤ a b ≡ true) ↔ (a ≡ b)
eqb_ℤ_iff a b = ground arith
