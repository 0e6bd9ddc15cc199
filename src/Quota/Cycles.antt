-- ===== src/Quota/Cycles.antt =====
-- internal/billing/quota.go and enforce.go: the cycles that an admission leaves.
use cpa_plugin_group_billing.Prelude.{◌/◌, ◌≤◌, ◌≡◌, true, some, List, All}
use cpa_plugin_group_billing.Prelude.Table.{Table, lookup, Every}
use cpa_plugin_group_billing.Prelude.Text.{Text}
use cpa_plugin_group_billing.Calendar.{Time, second}
use cpa_plugin_group_billing.Float.{Float}
use cpa_plugin_group_billing.Quota.{period_of, is_charged}
use cpa_plugin_group_billing.State.{State, QuotaWindow, QuotaCycle}

module _ {F : Type 0} ⦃fl : Float F⦄ where
  -- Cycles of a plan to which usage at a time is charged: they have begun and not ended, and count usage
  -- from then on.
  abbrev pub AreRunning : Text → Time → Table (QuotaCycle F) → Type 0
  AreRunning plan_id now = Every (λ id c. is_charged c plan_id now ≡ true)

  -- Cycles of a plan that have begun, whether or not they have ended.
  abbrev pub HaveBegun : Text → Time → Table (QuotaCycle F) → Type 0
  HaveBegun plan_id now =
      Every (λ id c. (c.plan_id ≡ plan_id) × (c.start_at ≤ now) × (c.usage_since ≤ now))

  -- The windows of a plan that the cycles of a key can be begun for.
  abbrev pub CanBegin : Time → List (QuotaWindow F) → Type 0
  CanBegin now = All (λ w. (1 ≤ period_of w) × (period_of w ≤ now / second))

  -- Every window of the list has a cycle.
  abbrev pub HasCycles : Table (QuotaCycle F) → List (QuotaWindow F) → Type 0
  HasCycles m = All (λ w. (c : QuotaCycle F) × (lookup w.id m ≡ some c))

  -- Every window has a cycle of the plan to which usage at a time is charged.
  abbrev pub IsActive : Text → Time → Table (QuotaCycle F) → List (QuotaWindow F) → Type 0
  IsActive plan_id now m =
      All (λ w. (c : QuotaCycle F) × (lookup w.id m ≡ some c) × (is_charged c plan_id now ≡ true))
