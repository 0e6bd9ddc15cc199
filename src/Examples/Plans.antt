-- ===== src/Examples/Plans.antt =====
-- The theorems on subscription plans, at a plan with one daily window.
use cpa_plugin_group_billing.Prelude.{
  ◌+◌, ◌*◌, ◌≡◌, refl, false, some, List, [], ◌∷◌, any, inr, All, ℕ,
}
use cpa_plugin_group_billing.Prelude.Int64.{pos}
use cpa_plugin_group_billing.Prelude.Text.{
  codes, text_eq, trim_space, contains, is_empty, byte_length,
}
use cpa_plugin_group_billing.Calendar.{second}
use cpa_plugin_group_billing.Errors.{ok}
use cpa_plugin_group_billing.Examples.{counting, scope_k, new_year, key_k, state_k, store_k}
use cpa_plugin_group_billing.Float.{Nanos, nanos_float}
use cpa_plugin_group_billing.Plans.{
  validate_plan, check_windows, check_window, bad_anchor, bad_count,
}
use cpa_plugin_group_billing.Plans.Calls.{
  PlanCall, deleting, binding_key, calls, calls-HasSubscriptions,
}
use cpa_plugin_group_billing.Plans.Subscriptions.{HasSubscriptions}
use cpa_plugin_group_billing.Plans.Validity.{IsSound, AreDistinct, validate_plan-IsSound}
use cpa_plugin_group_billing.State.{State, QuotaWindow, QuotaCycle, Plan, KeyState, find_plan_id}
use cpa_plugin_group_billing.Store.{Store}

abbrev pub window_v : QuotaWindow Nanos
window_v = record {
  id = codes "w";
  name = codes "w";
  period_seconds = pos 86_400;
  amount = some 0;
  token_limit = pos 1000;
  request_limit = pos 0;
  cycle_anchor_at = 0;
}

abbrev pub plan_v : Plan Nanos
plan_v = record { id = codes "s"; name = codes "s"; windows = window_v ∷ [] }

valid_v : validate_plan plan_v ≡ ok tt
unfolding validate_plan check_windows check_window bad_anchor bad_count trim_space contains any
    byte_length
valid_v = refl

validate_plan-IsSound_example :
    (is_empty (trim_space (codes "s")) ≡ false)
    × (is_empty (window_v ∷ []) ≡ false)
    × All IsSound (window_v ∷ [])
    × AreDistinct (window_v ∷ [])
validate_plan-IsSound_example = validate_plan-IsSound plan_v valid_v

-- A cycle whose tokens are used up.
abbrev pub cycle_v : QuotaCycle Nanos
cycle_v = record {
  plan_id = codes "s";
  start_at = new_year;
  end_at = new_year + 86_400 * second;
  usage_since = 0;
  spent = some 0;
  used_tokens = pos 1000;
  used_requests = pos 1;
}

abbrev pub key_v : KeyState Nanos
key_v = record key_k { plan_id = codes "s"; cycles = (codes "w", cycle_v) ∷ [] }

abbrev pub state_v : State Nanos
state_v = record state_k { plans = plan_v ∷ []; keys = (scope_k, key_v) ∷ [] }

abbrev store_v : Store Nanos ℕ
store_v = record store_k { state = state_v }

subscribed : HasSubscriptions state_v
unfolding find_plan_id text_eq any
subscribed = (inr (plan_v, refl, ((refl, refl), tt)), tt)

abbrev two_calls : List (PlanCall Nanos)
two_calls = deleting (codes "s") ∷ binding_key scope_k (codes "s") ∷ []

calls-HasSubscriptions_example : HasSubscriptions (calls two_calls store_v).state
calls-HasSubscriptions_example = calls-HasSubscriptions two_calls store_v subscribed
