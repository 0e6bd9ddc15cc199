-- ===== src/Examples/Accounting.antt =====
-- The theorems on the ledgers, at the example store.
use cpa_plugin_group_billing.Prelude.{
  ◌+◌, ◌≤◌, ◌<◌, ◌≡◌, refl, true, some, [], arith, ◌⊎◌, if◌then◌else◌,
}
use cpa_plugin_group_billing.Prelude.Int64.{pos, max_int64, sub64}
use cpa_plugin_group_billing.Prelude.Table.{lookup}
use cpa_plugin_group_billing.Prelude.Text.{Text, codes}
use cpa_plugin_group_billing.Accounting.{
  account_group_usage, settle_day, is_before_reset, amount_overflow, charged,
}
use cpa_plugin_group_billing.Accounting.Charge.{
  HasSoundDays, account_group_usage-HasSoundDays, account_group_usage_isolated,
}
use cpa_plugin_group_billing.Accounting.Covered.{account_group_usage-IsCovered}
use cpa_plugin_group_billing.Accounting.Ledger.{settle_day_exact}
use cpa_plugin_group_billing.Calendar.{second}
use cpa_plugin_group_billing.Examples.{
  scope_k, id_g, new_year, groups_k, state_k, tokens_100, usage_m, entry_m,
}
use cpa_plugin_group_billing.Float.{nanos_float, Nanos-IsFloat}
use cpa_plugin_group_billing.GroupConfig.Reset.{reset_day}
use cpa_plugin_group_billing.GroupConfig.Reset.Ledger.{reset_day-charged}
use cpa_plugin_group_billing.Groups.{GroupDay, new_day, day_key}
use cpa_plugin_group_billing.State.Changes.{no_changes}
use cpa_plugin_group_billing.State.Changes.Covered.{IsCovered}
use cpa_plugin_group_billing.Usd.{add_group_count}

abbrev day : Text
day = codes "2026-01-01"

-- A ledger with three nanodollars spent, one of them credited.
abbrev spent_day : GroupDay
spent_day = record (new_day scope_k id_g day) {
  raw = pos 3;
  credit = pos 1;
  reset_cutoff = some new_year;
}

settle_day_exact_example :
    let after = settle_day spent_day (some (pos 5)) true tokens_100 (new_year + second) new_year in
    ((8 ≤ max_int64)
      × (after.raw ≡ pos 8)
      × (after.credit
          ≡ (if is_before_reset (some new_year) (new_year + second) then pos 6 else pos 1))
      × (after.accounting_error ≡ []))
    ⊎ ((max_int64 < 8)
        × (after.raw ≡ pos 3)
        × (after.credit ≡ pos 1)
        × (after.accounting_error ≡ amount_overflow))
settle_day_exact_example =
    settle_day_exact spent_day 3 1 5 tokens_100 (new_year + second) new_year refl refl (omega arith)
      (omega arith) (omega arith)

no_days : HasSoundDays groups_k
unfolding lookup
no_days key d e = absurd cc

account_group_usage-HasSoundDays_example :
    HasSoundDays (account_group_usage state_k usage_m entry_m no_changes).state.grouped
account_group_usage-HasSoundDays_example =
    account_group_usage-HasSoundDays Nanos-IsFloat state_k usage_m entry_m no_changes
      ((omega arith), (omega arith)) no_days

account_group_usage_isolated_example :
    let after = (account_group_usage state_k usage_m entry_m no_changes).state.grouped in
    lookup (day_key (codes "ko") id_g day) after.days
    ≡ lookup (day_key (codes "ko") id_g day) groups_k.days
account_group_usage_isolated_example =
    account_group_usage_isolated state_k usage_m entry_m no_changes (codes "ko") id_g day
      ((omega arith), ((omega arith), tt)) ((omega arith), tt) (λ e. cc)

account_group_usage-IsCovered_example :
    let r = account_group_usage state_k usage_m entry_m no_changes in
    IsCovered r.changes state_k r.state
account_group_usage-IsCovered_example =
    account_group_usage-IsCovered state_k usage_m entry_m no_changes

reset_day-charged_example :
    sub64 (pos 8) (pos 3)
    ≡ (if is_before_reset (some new_year) (new_year + second) then pos 0 else pos 5)
unfolding charged is_before_reset add_group_count reset_day sub64
reset_day-charged_example =
    reset_day-charged spent_day 3 1 5 new_year (new_year + second) (pos 8) (pos 3) refl refl
      (omega arith) (omega arith) (omega arith) refl
