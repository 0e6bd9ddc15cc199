-- ===== src/Accounting/Covered.antt =====
-- internal/billing/group_account.go, accountGroupUsage: the changes it returns name all it changed.
use cpa_plugin_group_billing.Prelude.{◌≡◌, refl, Bool, false, Option, List, [], ◌∷◌, ◌++◌, arith}
use cpa_plugin_group_billing.Prelude.Table.{lookup, insert, lookup-insert}
use cpa_plugin_group_billing.Prelude.Text.{Text, contains}
use cpa_plugin_group_billing.Accounting.{
  UsageEvent, account_group, account_unclassified, account_group_usage,
}
use cpa_plugin_group_billing.Accounting.Cases.{account_group_usage-cases}
use cpa_plugin_group_billing.Calendar.{Time}
use cpa_plugin_group_billing.Float.{Float}
use cpa_plugin_group_billing.Groups.{GroupDay, ResourceGroup}
use cpa_plugin_group_billing.Usd.{Usd}
use cpa_plugin_group_billing.Pricing.{Breakdown}
use cpa_plugin_group_billing.State.{State, RequestEvent}
use cpa_plugin_group_billing.State.Changes.{Changes}
use cpa_plugin_group_billing.State.Changes.Covered.{IsCovered, contains-append}

-- A ledger inserted under a key that is added to the changed keys.
lookup-day_covered :
    {F : Type 0} (s : State F) (keys : List Text) (key k : Text) (d : GroupDay)
    → contains k (keys ++ key ∷ []) ≡ false
    → lookup k s.grouped.days ≡ lookup k (insert key d s.grouped.days)
unfolding contains
lookup-day_covered s keys key k d h =
    ground (arith, lookup-insert key k d s.grouped.days, contains-append k keys (key ∷ []))

same-IsCovered : {F : Type 0} (s : State F) (changes : Changes F) → IsCovered changes s s
same-IsCovered s changes = (
  (λ _. refl),
  (λ _. refl),
  (λ _. refl),
  (λ _. refl),
  (λ _. refl),
  (λ _. refl),
  (λ _. refl),
  (λ k _. refl),
  (λ k _ _. refl),
)

unclassified-IsCovered :
    {F : Type 0} (s : State F) (entry : RequestEvent F) (changes : Changes F) (model date : Text)
    → let r = account_unclassified s entry changes model date in IsCovered r.changes s r.state
unfolding account_unclassified
unclassified-IsCovered s entry changes model date = (
  (λ _. refl),
  (λ _. refl),
  (λ _. refl),
  (λ _. refl),
  (λ h. absurd cc),
  (λ h. absurd cc),
  (λ h. absurd cc),
  (λ k _. refl),
  (λ k _ _. refl),
)

group-IsCovered :
    {F : Type 0} (s : State F) (entry : RequestEvent F) (changes : Changes F)
    (group : ResourceGroup) (model_key : Text) (amount : Option Usd) (is_priced : Bool)
    (b : Breakdown) (at now : Time)
    → let r = account_group s entry changes group model_key amount is_priced b at now in
      IsCovered r.changes s r.state
unfolding account_group
group-IsCovered s entry changes group model_key amount is_priced b at now = (
  (λ _. refl),
  (λ _. refl),
  (λ _. refl),
  (λ _. refl),
  (λ _. refl),
  (λ _. refl),
  (λ _. refl),
  (λ k h. lookup-day_covered s changes.group_days _ k _ h),
  (λ k _ _. refl),
)

-- The changes that accounting returns, with those it was handed, name every row it changed.
pub account_group_usage-IsCovered :
    {F : Type 0} ⦃fl : Float F⦄ (s : State F) (event : UsageEvent) (entry : RequestEvent F)
    (changes : Changes F)
    → let r = account_group_usage s event entry changes in IsCovered r.changes s r.state
account_group_usage-IsCovered s event entry changes =
    account_group_usage-cases s event entry changes (λ r. IsCovered r.changes s r.state)
      (same-IsCovered s changes) (unclassified-IsCovered s entry changes)
      (λ group model is_priced at now.
        group-IsCovered s entry changes group model _ is_priced event.breakdown at now)
