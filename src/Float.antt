-- ===== src/Float.antt =====
-- Go's float64, as far as prices, costs and quotas use it: a type with the operations of the code,
-- and the facts of IEEE 754 and of Go's conversions that the proofs use.
use cpa_plugin_group_billing.Prelude.{
  ℕ, ◌+◌, ◌*◌, ◌/◌, ◌≤◌, ◌≡◌, refl, Bool, true, false, Option, none, some, arith, ltb, leb, ◌==◌,
}
use cpa_plugin_group_billing.Prelude.Int64.{ℤ, pos, negsuc, max_int64}

pub record Float {ℓ} (F : Type ℓ) : Type ℓ where
  -- The constant or the conversion `float64(n)`.
  pub of_int : ℤ → F
  pub plus : F → F → F
  pub times : F → F → F
  pub over : F → F → F
  pub lt : F → F → Bool
  pub le : F → F → Bool
  pub eq : F → F → Bool
  pub is_nan : F → Bool
  pub is_inf : F → Bool
  -- `math.Round`, `math.Min`, the conversion `int64(x)` and `math.MaxFloat64`.
  pub round : F → F
  pub least : F → F → F
  pub to_int : F → ℤ
  pub max_float : F

-- A non-negative value times a positive constant is not negative, nor is its rounding, and such a
-- value below 2^63 converts to the int64 that it rounds to.
pub record IsFloat {ℓ} (F : Type ℓ) ⦃fl : Float F⦄ : Type ℓ where
  pub times_nonneg :
      (x : F) (n : ℕ)
      → fl.lt x (fl.of_int (pos 0)) ≡ false
      → fl.is_nan x ≡ false
      → fl.is_inf x ≡ false
      → fl.le (fl.of_int (pos 0)) (fl.times x (fl.of_int (pos n))) ≡ true
  pub round_nonneg :
      (x : F) → fl.le (fl.of_int (pos 0)) x ≡ true → fl.le (fl.of_int (pos 0)) (fl.round x) ≡ true
  pub to_int_range :
      (x : F)
      → fl.le (fl.of_int (pos 0)) x ≡ true
      → fl.le (fl.of_int (pos max_int64)) x ≡ false
      → (k : ℕ) × (fl.to_int x ≡ pos k) × (k ≤ max_int64)

-- The facts can be met: non-negative decimals with nine places, and `none` for NaN.
abbrev pub Nanos : Type 0
Nanos = Option ℕ

abbrev both : (ℕ → ℕ → ℕ) → Nanos → Nanos → Nanos
both f (some a) (some b) = some (f a b)
both f _ _ = none

abbrev test : (ℕ → ℕ → Bool) → Nanos → Nanos → Bool
test f (some a) (some b) = f a b
test f _ _ = false

abbrev of_ℤ : ℤ → Nanos
of_ℤ (pos n) = some (n * 1_000_000_000)
of_ℤ (negsuc n) = none

abbrev to_ℤ : Nanos → ℤ
to_ℤ (some a) = pos (a / 1_000_000_000)
to_ℤ none = pos 0

abbrev is_none : Nanos → Bool
is_none (some a) = false
is_none none = true

instance abbrev pub nanos_float : Float Nanos
nanos_float = record {
  of_int = of_ℤ;
  plus = both (λ a b. a + b);
  times = both (λ a b. a * b / 1_000_000_000);
  over = both (λ a b. a * 1_000_000_000 / b);
  lt = test ltb;
  le = test leb;
  eq = test ◌==◌;
  is_nan = is_none;
  is_inf = λ _. false;
  round = both (λ a b. (a + b) / 1_000_000_000 * 1_000_000_000) (some 500_000_000);
  least = both (λ a b. elim (ltb a b) [ true ↦ a | false ↦ b ]);
  to_int = to_ℤ;
  max_float = some 1_000_000_000_000_000_000_000_000_000_000;
}

to_ℤ_range :
    (x : Nanos)
    → test leb (some 0) x ≡ true
    → test leb (of_ℤ (pos max_int64)) x ≡ false
    → (k : ℕ) × (to_ℤ x ≡ pos k) × (k ≤ max_int64)
to_ℤ_range (some a) p q = (a / 1_000_000_000, refl, ground arith)
to_ℤ_range none p q = cc

pub Nanos-IsFloat : IsFloat Nanos
Nanos-IsFloat = record {
  times_nonneg = λ x n p q r. ground arith;
  round_nonneg = λ x p. ground arith;
  to_int_range = to_ℤ_range;
}
