-- ===== src/Accounting.antt =====
-- internal/billing/group_account.go, accountGroupUsage: the charge of one usage record to the day
-- ledger of its group, at the record's own instant.
pub mod Ledger
pub mod Charge
pub mod Cases
pub mod Covered
use cpa_plugin_group_billing.Prelude.{
  ℕ, ◌≡◌, refl, Bool, true, false, not, ◌&&◌, ◌||◌, Option, none, some, List, [], ◌∷◌, ◌++◌,
  if◌then◌else◌,
}
use cpa_plugin_group_billing.Prelude.Int64.{ℤ, pos, add64}
use cpa_plugin_group_billing.Prelude.Table.{lookup, insert}
use cpa_plugin_group_billing.Prelude.Text.{Text, codes, is_empty}
use cpa_plugin_group_billing.Calendar.{Time, before, is_zero, group_date}
use cpa_plugin_group_billing.Float.{Float}
use cpa_plugin_group_billing.Groups.{
  GroupState, GroupDay, ResourceGroup, new_day, day_key, binding, binding_of, group_model,
}
use cpa_plugin_group_billing.Models.{request_model_owner}
use cpa_plugin_group_billing.Pricing.{Breakdown, PriceSource, none_found, valid, billable}
use cpa_plugin_group_billing.State.{
  State, RequestEvent, GroupAttribution, Classification, unclassified, grouped, PricingStatus,
  unpriced, priced,
}
use cpa_plugin_group_billing.State.Changes.{Changes}
use cpa_plugin_group_billing.Usd.{Usd, add_group_count, cost_usd}

-- `UsageEvent`
pub record UsageEvent : Type 0 where
  pub scope : Text
  pub key_preview : Text
  pub auth_index : Text
  pub provider : Text
  pub executor_type : Text
  pub auth_type : Text
  pub account : Text
  pub reasoning_effort : Text
  pub service_tier : Text
  pub upstream_model : Text
  pub route_model : Text
  pub requested_at : Time
  pub latency_ms : ℤ
  pub ttft_ms : ℤ
  pub breakdown : Breakdown
  pub at : Time

abbrev pub amount_overflow : Text
amount_overflow = codes "amount_overflow"

abbrev is_known : PriceSource → Bool
is_known none_found = false
is_known _ = true

-- The usage was requested before the administrative reset of the day.
unfoldable pub is_before_reset : Option Time → Time → Bool
is_before_reset none at = false
is_before_reset (some cutoff) at = before at cutoff

-- A charge that fits: the new raw cost and the new credit. Usage from before the reset is credited.
unfoldable pub charged : GroupDay → Usd → Time → Option (Usd × Usd)
charged d amount at = elim (add_group_count d.raw amount) [
  | none ↦ none
  | some raw ↦
      if is_before_reset d.reset_cutoff at
      then elim (add_group_count d.credit amount) [ none ↦ none | some c ↦ some (raw, c) ]
      else some (raw, d.credit)
]

-- What the charge of a priced record does to the ledger: the ledger, whether it was charged, and the
-- reason if it was not.
unfoldable pub charge : GroupDay → Option Usd → Bool → Time → GroupDay × Option Usd × Text
charge d none is_priced at =
    (record d { accounting_error = amount_overflow }, none, amount_overflow)
charge d (some amount) false at = (d, none, [])
charge d (some amount) true at = elim (charged d amount at) [
  | none ↦ (record d { accounting_error = amount_overflow }, none, amount_overflow)
  | some (raw, credit) ↦ (record d { raw = raw; credit = credit }, some amount, [])
]

abbrev incremented : GroupDay → GroupDay
incremented d = record d { incomplete = add64 d.incomplete (pos 1) }

count_incomplete : GroupDay → Option Usd → GroupDay
count_incomplete d none = incremented d
count_incomplete d (some amount) = d

count_request : GroupDay → GroupDay
count_request d = elim (add_group_count d.requests (pos 1)) [
  | none ↦ incremented d
  | some n ↦ record d { requests = n }
]

count_tokens : GroupDay → Breakdown → GroupDay
count_tokens d b =
    if valid b
    then elim (add_group_count d.tokens b.total) [
      | none ↦ incremented d
      | some n ↦ record d { tokens = n }
    ]
    else d

-- The ledger after one record, from the ledger before it.
unfoldable pub settle_day : GroupDay → Option Usd → Bool → Breakdown → Time → Time → GroupDay
unfolding count_incomplete count_request count_tokens
settle_day d amount is_priced b at now =
    let (charged_day, cost, _) = charge d amount is_priced at in
    record (count_tokens (count_request (count_incomplete charged_day cost)) b) { updated_at = now }

abbrev status_of : Option Usd → PricingStatus
status_of none = unpriced
status_of (some c) = priced

abbrev or_incomplete : Option Usd → Text → Text
or_incomplete (some c) reason = reason
or_incomplete none reason = if is_empty reason then codes "usage_or_price_incomplete" else reason

abbrev pub usage_instant : UsageEvent → Time → Time
usage_instant event entry_at = if is_zero event.requested_at then entry_at else event.requested_at

abbrev pub usage_model : UsageEvent → Text
usage_model event = if is_empty event.route_model then event.upstream_model else event.route_model

-- The ledger that a record is charged to; a missing one begins empty.
abbrev pub open_day : GroupState → Text → Text → Text → GroupDay
open_day g scope group_id date = elim (lookup (day_key scope group_id date) g.days) [
  | none ↦ new_day scope group_id date
  | some d ↦ d
]

abbrev attribution : Classification → Text → Text → GroupAttribution
attribution c model_key date = record {
  group_id = [];
  classification = c;
  pricing_status = unpriced;
  model_key = model_key;
  published_at = none;
  date = date;
  cost = none;
  reason = [];
}

-- The state, the record's entry, the changes to save, and whether the key is grouped then.
pub record Accounted (F : Type 0) : Type 0 where
  pub state : State F
  pub entry : RequestEvent F
  pub changes : Changes F
  pub is_grouped : Bool

module _ {F : Type 0} where
  -- Usage of no known group, or at no known instant, is counted in the binding of the key.
  unfoldable pub account_unclassified :
      State F → RequestEvent F → Changes F → Text → Text → Accounted F
  account_unclassified s entry changes model_key date =
      let b = binding_of s.grouped entry.scope in
      let b' = record b { unclassified = add64 b.unclassified (pos 1) } in
      let g = s.grouped in
      record {
        state = record s { grouped = record g { bindings = insert entry.scope b' g.bindings } };
        entry = record entry {
          group = some (record (attribution unclassified model_key date) {
            reason = codes "model_or_start_time_missing";
          });
        };
        changes = record changes { grouped_config = true };
        is_grouped = true;
      }

  -- Usage of a group is charged to the group's ledger of the day of the request.
  unfoldable pub account_group :
      State F
      → RequestEvent F
      → Changes F
      → ResourceGroup
      → Text
      → Option Usd
      → Bool
      → Breakdown
      → Time
      → Time
      → Accounted F
  account_group s entry changes group model_key amount is_priced b at now =
      let g = s.grouped in
      let date = group_date at in
      let key = day_key entry.scope group.id date in
      let d = open_day g entry.scope group.id date in
      let (_, cost, reason) = charge d amount is_priced at in
      record {
        state = record s {
          grouped = record g { days = insert key (settle_day d amount is_priced b at now) g.days };
        };
        entry = record entry {
          group = some (record (attribution grouped model_key date) {
            group_id = group.id;
            published_at = group.published_at;
            pricing_status = status_of cost;
            cost = cost;
            reason = or_incomplete cost reason;
          });
        };
        changes = record changes { group_days = changes.group_days ++ key ∷ [] };
        is_grouped = true;
      }

-- `accountGroupUsage`
unfoldable pub account_group_usage :
    {F : Type 0} ⦃fl : Float F⦄ → State F → UsageEvent → RequestEvent F → Changes F → Accounted F
account_group_usage s event entry changes =
    let at = usage_instant event entry.at in
    let model = usage_model event in
    let model_key = group_model model in
    let amount = cost_usd entry.cost.total in
    let unknown = account_unclassified s entry changes model_key (group_date at) in
    elim (binding s.grouped entry.scope at) [
      | none ↦ record { state = s; entry = entry; changes = changes; is_grouped = false }
      | some b ↦ elim (request_model_owner s.grouped model at) [
        | none ↦ unknown
        | some group ↦
            if is_zero event.requested_at
            then unknown
            else account_group s entry changes group model_key amount
                (is_known entry.price_source && billable event.breakdown) event.breakdown at
                event.at
      ]
    ]
