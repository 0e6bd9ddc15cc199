-- ===== src/Accounting/Cases.antt =====
-- internal/billing/group_account.go, accountGroupUsage: its three outcomes.
use cpa_plugin_group_billing.Prelude.{Bool, false, inl, inr, Option-cases, Bool-cases}
use cpa_plugin_group_billing.Prelude.Text.{Text}
use cpa_plugin_group_billing.Accounting.{
  UsageEvent, Accounted, account_group, account_unclassified, account_group_usage, usage_instant,
  usage_model,
}
use cpa_plugin_group_billing.Calendar.{Time, is_zero}
use cpa_plugin_group_billing.Float.{Float}
use cpa_plugin_group_billing.Groups.{ResourceGroup, binding}
use cpa_plugin_group_billing.Models.{request_model_owner}
use cpa_plugin_group_billing.State.{State, RequestEvent}
use cpa_plugin_group_billing.State.Changes.{Changes}
use cpa_plugin_group_billing.Usd.{cost_usd}

-- What holds of a record that is left alone, of one without a group and of one charged to a group, holds
-- of every record.
pub account_group_usage-cases {κ} :
    {F : Type 0} ⦃fl : Float F⦄ (s : State F) (event : UsageEvent) (entry : RequestEvent F)
    (changes : Changes F) (P : Accounted F → Type κ)
    → P (record { state = s; entry = entry; changes = changes; is_grouped = false })
    → ((model date : Text) → P (account_unclassified s entry changes model date))
    → ((group : ResourceGroup) (model : Text) (is_priced : Bool) (at now : Time)
        → P (
            account_group s entry changes group model
              (cost_usd entry.cost.total)
              is_priced
              event.breakdown
              at
              now))
    → P (account_group_usage s event entry changes)
unfolding account_group_usage
account_group_usage-cases s event entry changes P alone unclassified charged =
    let at = usage_instant event entry.at in
    elim (Option-cases (binding s.grouped entry.scope at)) [
      | inl legacy ↦ rw (legacy, account_group_usage) alone
      | inr (b, inside) ↦
          elim (Option-cases (request_model_owner s.grouped (usage_model event) at)) [
            | inl unowned ↦ rw (inside, unowned, account_group_usage) (unclassified _ _)
            | inr (group, owner) ↦ elim (Bool-cases (is_zero event.requested_at)) [
              | inl unknown ↦ rw (inside, owner, unknown, account_group_usage) (unclassified _ _)
              | inr known ↦ rw (inside, owner, known, account_group_usage) (charged group _ _ _ _)
            ]
          ]
    ]
