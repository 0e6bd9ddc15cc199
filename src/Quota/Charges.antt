-- ===== src/Quota/Charges.antt =====
-- internal/billing/quota.go, chargeCycles: what a charge does to the cycles of a key.
use cpa_plugin_group_billing.Prelude.{
  ℕ, ◌+◌, ◌≤◌, ◌≡◌, refl, true, false, Option, none, some, ltb, [], ◌∷◌, arith, if◌then◌else◌,
}
use cpa_plugin_group_billing.Prelude.Int64.{pos, max_int64, add64_pos, sub64_pos}
use cpa_plugin_group_billing.Prelude.Table.{Table, lookup}
use cpa_plugin_group_billing.Prelude.Text.{Text, is_empty}
use cpa_plugin_group_billing.Calendar.{Time, is_zero}
use cpa_plugin_group_billing.Float.{Float}
use cpa_plugin_group_billing.Quota.{
  QuotaUsage, add_quota_count, is_charged, charge_cycle, charge_all, charge_cycles,
}
use cpa_plugin_group_billing.State.{QuotaCycle, KeyState}

abbrev least : ℕ → ℕ → ℕ
least a b = if ltb a b then a else b

-- A count is added exactly, or held at the greatest int64 if the sum would not fit.
pub add_quota_count_pos :
    (a b : ℕ)
    → a ≤ max_int64
    → b ≤ max_int64
    → add_quota_count (pos a) (pos b) ≡ pos (least (a + b) max_int64)
unfolding add_quota_count
add_quota_count_pos a b la lb = ground (arith, sub64_pos max_int64 a, add64_pos a b)

module _ {F : Type 0} ⦃fl : Float F⦄ where
  abbrev pub charge_option :
      Option (QuotaCycle F) → Text → Time → QuotaUsage F → Option (QuotaCycle F)
  charge_option none plan_id at usage = none
  charge_option (some c) plan_id at usage =
      some (if is_charged c plan_id at then charge_cycle c usage else c)

  lookup-charge_all :
      (m : Table (QuotaCycle F)) (id plan_id : Text) (at : Time) (usage : QuotaUsage F)
      → lookup id (charge_all m plan_id at usage) ≡ charge_option (lookup id m) plan_id at usage
  unfolding lookup charge_all
  lookup-charge_all [] id plan_id at usage = refl
  lookup-charge_all ((j, c) ∷ m) id plan_id at usage =
      ground (arith, lookup-charge_all m id plan_id at usage)

  -- Usage at a known instant is charged to a cycle of the key's plan that was running then: its two
  -- counters grow by the usage, up to the greatest int64, and the cycle is not moved. The counters and
  -- the counts of the usage are int64 values that are not negative.
  pub charge_cycles-counts :
      (key : KeyState F) (id : Text) (at : Time) (usage : QuotaUsage F) (c : QuotaCycle F)
      (used asked more_used more_asked : ℕ)
      → lookup id key.cycles ≡ some c
      → c.used_tokens ≡ pos used
      → c.used_requests ≡ pos asked
      → usage.tokens ≡ pos more_used
      → usage.requests ≡ pos more_asked
      → used ≤ max_int64
      → asked ≤ max_int64
      → more_used ≤ max_int64
      → more_asked ≤ max_int64
      → is_empty key.plan_id ≡ false
      → is_zero at ≡ false
      → is_charged c key.plan_id at ≡ true
      → (c' : QuotaCycle F) × (lookup id (charge_cycles key at usage).cycles ≡ some c')
        × (c'.used_tokens ≡ pos (least (used + more_used) max_int64))
        × (c'.used_requests ≡ pos (least (asked + more_asked) max_int64))
        × (c'.start_at ≡ c.start_at)
        × (c'.end_at ≡ c.end_at)
  unfolding charge_cycles charge_cycle
  charge_cycles-counts key id at usage c used asked more_used more_asked found ut ua mt ma lu la lm
        ln bound timed running =
      (
        charge_cycle c usage,
        ground (arith, lookup-charge_all key.cycles id key.plan_id at usage),
        rw (ut, mt) (add_quota_count_pos used more_used lu lm),
        rw (ua, ma) (add_quota_count_pos asked more_asked la ln),
        refl,
        refl,
      )

  -- Usage that no cycle was running for, or of another plan, changes no cycle.
  pub charge_cycles-other :
      (key : KeyState F) (id : Text) (at : Time) (usage : QuotaUsage F) (c : QuotaCycle F)
      → lookup id key.cycles ≡ some c
      → is_charged c key.plan_id at ≡ false
      → lookup id (charge_cycles key at usage).cycles ≡ some c
  unfolding charge_cycles
  charge_cycles-other key id at usage c found other =
      ground (arith, lookup-charge_all key.cycles id key.plan_id at usage)
