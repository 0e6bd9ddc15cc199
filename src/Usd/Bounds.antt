-- ===== src/Usd/Bounds.antt =====
-- What the operations on amounts can return.
use cpa_plugin_group_billing.Prelude.{
  ℕ, ◌+◌, ◌≤◌, ◌<◌, ◌≡◌, ◌⊎◌, inl, inr, none, some, ◌||◌, arith, Bool-cases,
}
use cpa_plugin_group_billing.Prelude.Int64.{ℤ, pos, max_int64, add64_pos, sub64_pos}
use cpa_plugin_group_billing.Prelude.Text.{Text}
use cpa_plugin_group_billing.Errors.{ok}
use cpa_plugin_group_billing.Float.{Float, IsFloat}
use cpa_plugin_group_billing.Usd.{
  Usd, nano, to_usd, units, split_dot, parse_usd, add_group_count, cost_usd, read,
}

-- An int64 that is not negative.
abbrev pub IsCount : ℤ → Type 0
IsCount v = (n : ℕ) × (v ≡ pos n) × (n ≤ max_int64)

to_usd-IsCount : (s : Text) (v : Usd) → to_usd s ≡ ok v → IsCount v
unfolding to_usd
to_usd-IsCount s v e = (read 0 s, ground arith, ground arith)

-- Every amount that `parse_usd` accepts is an int64 that is not negative.
pub parse_usd-IsCount : (s : Text) (v : Usd) → parse_usd s ≡ ok v → IsCount v
unfolding parse_usd
parse_usd-IsCount s v e =
    let (head, tail) = split_dot s in ground (arith, to_usd-IsCount (units head tail) v)

-- The checked sum of two counts is their exact sum where that is an int64, and is refused otherwise.
pub add_group_count_pos :
    (a b : ℕ)
    → a ≤ max_int64
    → b ≤ max_int64
    → ((add_group_count (pos a) (pos b) ≡ some (pos (a + b))) × (a + b ≤ max_int64))
      ⊎ ((add_group_count (pos a) (pos b) ≡ none) × (max_int64 < a + b))
unfolding add_group_count
add_group_count_pos a b h k = ground (arith, sub64_pos max_int64 b, add64_pos a b)

-- Every cost that is turned into an amount becomes an int64 that is not negative.
pub cost_usd-IsCount :
    {F : Type 0} ⦃fl : Float F⦄ (laws : IsFloat F) (x : F) (v : Usd)
    → cost_usd x ≡ some v
    → IsCount v
unfolding cost_usd
cost_usd-IsCount ⦃fl⦄ laws x v e =
    elim (Bool-cases (fl.lt x (fl.of_int (pos 0)) || fl.is_nan x || fl.is_inf x)) [
      | inl bad ↦ absurd (ground arith)
      | inr good ↦ ground (
        arith,
        laws.to_int_range (fl.round (fl.times x (fl.of_int (pos nano)))),
        laws.round_nonneg (fl.times x (fl.of_int (pos nano))),
        laws.times_nonneg x nano,
      )
    ]
