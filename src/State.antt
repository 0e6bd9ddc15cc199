-- ===== src/State.antt =====
-- internal/billing/state.go, plan.go, quota.go and request_events.go: the data that the store keeps,
-- and the changes that a write hands to the repository (repository.go).
pub mod Changes
use cpa_plugin_group_billing.Prelude.{
  ℕ, ◌≡◌, refl, Bool, true, false, Option, none, some, List, [], ◌∷◌, any, if◌then◌else◌,
}
use cpa_plugin_group_billing.Prelude.Int64.{ℤ}
use cpa_plugin_group_billing.Prelude.Table.{Table, lookup}
use cpa_plugin_group_billing.Prelude.Text.{Text, text_eq, is_empty, trim_space, to_lower}
use cpa_plugin_group_billing.Calendar.{Time, is_zero}
use cpa_plugin_group_billing.Groups.{GroupState, empty_groups}
use cpa_plugin_group_billing.Pricing.{Rates, Cost, Quality, PriceSource}
use cpa_plugin_group_billing.Routing.{RouteRule}

pub record QuotaWindow (F : Type 0) : Type 0 where
  pub id : Text
  pub name : Text
  pub period_seconds : ℤ
  pub amount : F
  pub token_limit : ℤ
  pub request_limit : ℤ
  pub cycle_anchor_at : Time

pub record Plan (F : Type 0) : Type 0 where
  pub id : Text
  pub name : Text
  pub windows : List (QuotaWindow F)

pub record QuotaCycle (F : Type 0) : Type 0 where
  pub plan_id : Text
  pub start_at : Time
  pub end_at : Time
  pub usage_since : Time
  pub spent : F
  pub used_tokens : ℤ
  pub used_requests : ℤ

pub record RouteBindings : Type 0 where
  pub route_ids : List Text
  pub rule : RouteRule

pub record KeyState (F : Type 0) : Type 0 where
  pub preview : Text
  pub label : Text
  pub in_config : Bool
  pub deleted_at : Time
  pub plan_id : Text
  pub concurrency_limit : ℤ
  pub route_bindings : RouteBindings
  pub cycles : Table (QuotaCycle F)

pub record CustomPrice (F : Type 0) : Type 0 where
  pub model_id : Text
  pub rates : Rates F

pub record Route : Type 0 where
  pub id : Text
  pub name : Text
  pub rule : RouteRule

pub record ConfigCredential : Type 0 where
  pub provider : Text
  pub key_preview : Text
  pub disabled : Bool

pub record State (F : Type 0) : Type 0 where
  pub grouped : GroupState
  pub prices : Table (CustomPrice F)
  pub plans : List (Plan F)
  pub keys : Table (KeyState F)
  pub routes : List Route
  pub config_credentials : Table ConfigCredential

-- `NewState`
abbrev pub new_state : {F : Type 0} → State F
new_state = record {
  grouped = empty_groups;
  prices = [];
  plans = [];
  keys = [];
  routes = [];
  config_credentials = [];
}

pub data Classification : Type 0 where
  unclassified grouped : Classification

pub data PricingStatus : Type 0 where
  unpriced priced : PricingStatus

pub record GroupAttribution : Type 0 where
  pub group_id : Text
  pub classification : Classification
  pub pricing_status : PricingStatus
  pub model_key : Text
  pub published_at : Option Time
  pub date : Text
  pub cost : Option ℤ
  pub reason : Text

pub record RequestEvent (F : Type 0) : Type 0 where
  pub group : Option GroupAttribution
  pub at : Time
  pub scope : Text
  pub auth_index : Text
  pub provider : Text
  pub account : Text
  pub executor_type : Text
  pub reasoning_effort : Text
  pub service_tier : Text
  pub upstream_model : Text
  pub billing_model : Text
  pub failed : Bool
  pub latency_ms : ℤ
  pub ttft_ms : ℤ
  pub accounting_quality : Quality
  pub price_source : PriceSource
  pub cost : Cost F
  pub reasoning_tokens : ℤ

unfoldable pub find_route_id : List Route → Text → Option Route
find_route_id [] id = none
find_route_id (r ∷ rs) id = if text_eq r.id id then some r else find_route_id rs id

module _ {F : Type 0} where
  -- `State.liveKey`: a key that is there and is not deleted.
  unfoldable pub live_key : State F → Text → Option (KeyState F)
  live_key s scope = elim (lookup scope s.keys) [
    | none ↦ none
    | some k ↦ if is_zero k.deleted_at then some k else none
  ]

  unfoldable pub find_plan_id : List (Plan F) → Text → Option (Plan F)
  find_plan_id [] id = none
  find_plan_id (p ∷ ps) id = if text_eq p.id id then some p else find_plan_id ps id

  -- `State.FindPlan`
  unfoldable pub find_plan : State F → Text → Option (Plan F)
  unfolding find_plan_id
  find_plan s id =
      let key = trim_space id in if is_empty key then none else find_plan_id s.plans key

  -- `State.findRoute`
  unfoldable pub find_route : State F → Text → Option Route
  unfolding find_route_id
  find_route s id = find_route_id s.routes (trim_space id)

-- `normalizeScope`
unfoldable pub normalize_scope : Text → Text
normalize_scope scope = to_lower (trim_space scope)
