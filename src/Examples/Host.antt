-- ===== src/Examples/Host.antt =====
-- The theorems on the calls of the host, at requests of one key.
use cpa_plugin_group_billing.Host.Responses.{quota_exhausted_response}
use cpa_plugin_group_billing.Quota.{settle_expired}
use cpa_plugin_group_billing.Quota.{view_windows}
use cpa_plugin_group_billing.Quota.{quota_view}
use cpa_plugin_group_billing.Quota.{authorize_plan}
use cpa_plugin_group_billing.State.{find_plan}
use cpa_plugin_group_billing.Quota.{authorize_update}
use cpa_plugin_group_billing.Store.{update_result}
use cpa_plugin_group_billing.Quota.{authorize}
use cpa_plugin_group_billing.Slots.{limit_of}
use cpa_plugin_group_billing.Slots.{acquire_new}
use cpa_plugin_group_billing.Slots.{acquire_known}
use cpa_plugin_group_billing.Slots.{acquire_slot}
use cpa_plugin_group_billing.Host.Intercept.{is_generation}
use cpa_plugin_group_billing.Host.Intercept.{is_completed}
use cpa_plugin_group_billing.Pricing.{resolve}
use cpa_plugin_group_billing.Prices.Resolution.{resolve_builtin_price}
use cpa_plugin_group_billing.Prices.Resolution.{resolve_custom_price}
use cpa_plugin_group_billing.Prices.Resolution.{resolve_local}
use cpa_plugin_group_billing.Prices.Resolution.{resolve_model_price}
use cpa_plugin_group_billing.Routing.{restricts_models}
use cpa_plugin_group_billing.Host.Intercept.{intercept_enabled}
use cpa_plugin_group_billing.Host.Intercept.{begin_admission}
use cpa_plugin_group_billing.Usd.{read}
use cpa_plugin_group_billing.Usd.{is_digit}
use cpa_plugin_group_billing.State.{normalize_scope}
use cpa_plugin_group_billing.State.{find_route_id}
use cpa_plugin_group_billing.State.{find_route}
use cpa_plugin_group_billing.Scheduler.{weigh}
use cpa_plugin_group_billing.Scheduler.{store_weights}
use cpa_plugin_group_billing.Scheduler.{ready}
use cpa_plugin_group_billing.Scheduler.{positive_ids}
use cpa_plugin_group_billing.Scheduler.{pick_shared}
use cpa_plugin_group_billing.Scheduler.{pick_in}
use cpa_plugin_group_billing.Scheduler.{pick}
use cpa_plugin_group_billing.Scheduler.{parse_int64}
use cpa_plugin_group_billing.Scheduler.{kept_entries}
use cpa_plugin_group_billing.Scheduler.{choose_next}
use cpa_plugin_group_billing.Scheduler.{choose}
use cpa_plugin_group_billing.Scheduler.{candidate_weight}
use cpa_plugin_group_billing.Routing.{selector_eq}
use cpa_plugin_group_billing.Routing.{restricts_credentials}
use cpa_plugin_group_billing.Routing.{may_match}
use cpa_plugin_group_billing.Routing.{contains_fold}
use cpa_plugin_group_billing.Routing.{allows_credential}
use cpa_plugin_group_billing.RoutePolicy.{text_lt}
use cpa_plugin_group_billing.RoutePolicy.{selector_lt}
use cpa_plugin_group_billing.RoutePolicy.{resolve_routing_state}
use cpa_plugin_group_billing.RoutePolicy.{resolve_routes}
use cpa_plugin_group_billing.RoutePolicy.{lower_lt}
use cpa_plugin_group_billing.RoutePolicy.{compact_from}
use cpa_plugin_group_billing.RoutePolicy.{compact}
use cpa_plugin_group_billing.Prices.{resolve_billing_model}
use cpa_plugin_group_billing.Prelude.Text.{trim_left}
use cpa_plugin_group_billing.Prelude.Text.{lower_rune}
use cpa_plugin_group_billing.Prelude.Text.{is_space}
use cpa_plugin_group_billing.Prelude.Sort.{insert_sorted}
use cpa_plugin_group_billing.Prelude.Sort.{insert_all}
use cpa_plugin_group_billing.Prelude.Int64.{wrap64}
use cpa_plugin_group_billing.Prelude.Int64.{sub64}
use cpa_plugin_group_billing.Prelude.Int64.{add64}
use cpa_plugin_group_billing.Models.{request_model_owner}
use cpa_plugin_group_billing.Models.{normalize_model_id}
use cpa_plugin_group_billing.Models.{model_without_thinking_suffix}
use cpa_plugin_group_billing.Host.Credentials.{short_ref}
use cpa_plugin_group_billing.Host.Credentials.{routing_pool_key}
use cpa_plugin_group_billing.Host.Credentials.{routing_allows}
use cpa_plugin_group_billing.Host.Credentials.{is_usable}
use cpa_plugin_group_billing.Host.Credentials.{candidate_allowed}
use cpa_plugin_group_billing.Groups.{rule}
use cpa_plugin_group_billing.Groups.{policy}
use cpa_plugin_group_billing.Groups.{owns}
use cpa_plugin_group_billing.Groups.{model_owner}
use cpa_plugin_group_billing.Groups.{group_model}
use cpa_plugin_group_billing.Groups.{find_period}
use cpa_plugin_group_billing.Groups.{find_owner}
use cpa_plugin_group_billing.Groups.{covers}
use cpa_plugin_group_billing.Admission.{is_open}
use cpa_plugin_group_billing.RoutePolicy.{resolve_routing}
use cpa_plugin_group_billing.Host.Credentials.{is_file_source}
use cpa_plugin_group_billing.Host.Credentials.{is_config_source}
use cpa_plugin_group_billing.Host.Credentials.{source_of_candidate}
use cpa_plugin_group_billing.Host.Credentials.{observe}
use cpa_plugin_group_billing.Host.Credentials.{observe_candidates}
use cpa_plugin_group_billing.Prelude.{ℕ, ◌≡◌, refl, true, false, none, some, List, [], ◌∷◌, any}
use cpa_plugin_group_billing.Prelude.Table.{lookup, insert}
use cpa_plugin_group_billing.Prelude.Text.{
  Text, codes, text_eq, trim_space, is_empty, contains, to_lower, equal_fold,
}
use cpa_plugin_group_billing.Admission.{group_credential_policy, admit_group}
use cpa_plugin_group_billing.Errors.{ok}
use cpa_plugin_group_billing.Examples.{
  counting, scope_k, request_r, model_m, new_year, key_k, state_k, store_k,
}
use cpa_plugin_group_billing.Examples.Admission.{no_slots}
use cpa_plugin_group_billing.Examples.Plans.{state_v}
use cpa_plugin_group_billing.Float.{Nanos, nanos_float}
use cpa_plugin_group_billing.GroupConfig.{Clock}
use cpa_plugin_group_billing.Groups.{binding, empty_groups}
use cpa_plugin_group_billing.Host.{
  App, string, RequestAdmission, metadata_string, is_helper, caller_scope,
}
use cpa_plugin_group_billing.Host.Credentials.{
  PickRequest, picked, unhandled, pick_credential, pick_scoped, pick_usable,
}
use cpa_plugin_group_billing.Host.Held.{HoldsSame}
use cpa_plugin_group_billing.Host.Intercept.{
  InterceptRequest, commit_admission, complete_request, intercept_before_auth,
}
use cpa_plugin_group_billing.Host.Picks.{
  IsPermittedPick, has_forbidden, pick_credential-IsPermittedPick, pick_credential-unhandled,
}
use cpa_plugin_group_billing.Host.Race.{HasNoSlot, commits, done, next, completed-HasNoSlot}
use cpa_plugin_group_billing.Host.Refusals.{intercept_before_auth-HoldsSame}
use cpa_plugin_group_billing.Prices.Resolution.{Referenced}
use cpa_plugin_group_billing.Routing.{RouteRule, empty_rule}
use cpa_plugin_group_billing.Scheduler.{Candidate}
use cpa_plugin_group_billing.State.{State, KeyState}
use cpa_plugin_group_billing.Store.{Store}

abbrev at_new_year : Clock
at_new_year = λ n. new_year

abbrev own_ref : Text → Text
own_ref id = id

abbrev no_digest : RouteRule → Text
no_digest r = []

abbrev candidate : Text → Candidate
candidate id = record { id = id; provider = codes "p"; status = []; attributes = [] }

-- A key outside of every grouped period that may not use the credential "b".
abbrev key_b : KeyState Nanos
key_b = record key_k {
  route_bindings = record {
    route_ids = [];
    rule = record empty_rule { denied_credential_ids = codes "b" ∷ [] };
  };
}

abbrev state_b : State Nanos
state_b = record state_k { grouped = empty_groups; keys = (scope_k, key_b) ∷ [] }

abbrev store_b : Store Nanos ℕ
store_b = record store_k {
  state = state_b;
  config = record { enabled = true; codex_fast_mode_billing = false };
}

abbrev app_of : Store Nanos ℕ → App Nanos ℕ
app_of s = record {
  store = s;
  admissions = [];
  credentials = [];
  credentials_by_raw_id = [];
  scheduler = [];
}

abbrev pick_of : List Candidate → PickRequest
pick_of candidates = record {
  model = model_m;
  metadata = (caller_scope, string scope_k) ∷ [];
  candidates = candidates;
}

abbrev a_or_b : PickRequest
a_or_b = pick_of (candidate (codes "a") ∷ candidate (codes "b") ∷ [])

picks_a :
    (pick_credential own_ref no_digest at_new_year (app_of store_b) a_or_b).0 ≡ picked (codes "a")
unfolding pick_credential is_helper text_eq metadata_string lookup trim_space pick_scoped
    group_credential_policy binding observe_candidates observe source_of_candidate is_config_source
    contains to_lower equal_fold is_file_source resolve_routing is_open covers find_owner
    find_period group_model model_owner owns policy rule candidate_allowed is_usable pick_usable
    routing_allows routing_pool_key short_ref model_without_thinking_suffix normalize_model_id
    request_model_owner add64 sub64 wrap64 any insert_all insert_sorted insert is_space lower_rune
    trim_left resolve_billing_model compact compact_from lower_lt resolve_routes
    resolve_routing_state selector_lt text_lt allows_credential contains_fold may_match
    restricts_credentials selector_eq candidate_weight choose choose_next kept_entries parse_int64
    pick pick_in pick_shared positive_ids ready store_weights weigh find_route find_route_id
    normalize_scope is_digit read
picks_a = refl

pick_credential-IsPermittedPick_example :
    IsPermittedPick own_ref no_digest store_b a_or_b new_year (codes "a")
pick_credential-IsPermittedPick_example =
    pick_credential-IsPermittedPick own_ref no_digest at_new_year (app_of store_b) a_or_b
      (codes "a") picks_a

abbrev only_a : PickRequest
only_a = pick_of (candidate (codes "a") ∷ [])

client : is_helper only_a.metadata ≡ false
unfolding is_helper metadata_string lookup text_eq trim_space
client = refl

named : is_empty (metadata_string only_a.metadata caller_scope) ≡ false
unfolding metadata_string lookup text_eq trim_space
named = refl

left_to_host : (pick_credential own_ref no_digest at_new_year (app_of store_b) only_a).0 ≡ unhandled
unfolding pick_credential is_helper text_eq metadata_string lookup trim_space pick_scoped
    group_credential_policy binding observe_candidates observe source_of_candidate is_config_source
    contains to_lower equal_fold is_file_source resolve_routing is_open covers find_owner
    find_period group_model model_owner owns policy rule candidate_allowed is_usable pick_usable
    routing_allows routing_pool_key short_ref model_without_thinking_suffix normalize_model_id
    request_model_owner add64 sub64 wrap64 any insert_all insert_sorted insert is_space lower_rune
    trim_left resolve_billing_model compact compact_from lower_lt resolve_routes
    resolve_routing_state selector_lt text_lt allows_credential contains_fold may_match
    restricts_credentials selector_eq candidate_weight choose choose_next kept_entries parse_int64
    pick pick_in pick_shared positive_ids ready store_weights weigh find_route find_route_id
    normalize_scope is_digit read
left_to_host = refl

pick_credential-unhandled_example : has_forbidden own_ref no_digest store_b only_a new_year ≡ false
pick_credential-unhandled_example =
    pick_credential-unhandled own_ref no_digest at_new_year (app_of store_b) only_a refl client
      named left_to_host

-- A key whose quota is used up, and a model with a reference price.
abbrev store_q : Store Nanos ℕ
store_q = record store_b { state = record state_v { grouped = empty_groups } }

abbrev reference_m : Referenced Nanos
reference_m = record {
  found = ok (
      some (record {
        input = some 1;
        output = some 2;
        cache_read = none;
        cache_write = none;
        long_context = none;
      }));
  switched = false;
  later = state_v;
}

abbrev intercept_r : InterceptRequest
intercept_r = record {
  request_id = request_r;
  source_format = codes "claude";
  model = model_m;
  requested_model = [];
  metadata = (caller_scope, string scope_k) ∷ [];
}

exhausted :
    (intercept_before_auth at_new_year reference_m (app_of store_q) intercept_r).0.terminate ≡ true
unfolding intercept_before_auth is_helper text_eq metadata_string lookup begin_admission trim_space
    intercept_enabled resolve_routing resolve_routing_state normalize_scope to_lower
    restricts_models compact insert_all resolve_model_price resolve_local resolve_custom_price
    resolve_builtin_price normalize_model_id resolve_billing_model model_without_thinking_suffix
    resolve is_completed insert admit_group binding is_generation acquire_slot acquire_known
    acquire_new limit_of authorize update_result authorize_update find_plan authorize_plan
    quota_view view_windows any settle_expired quota_exhausted_response
exhausted = refl

intercept_before_auth-HoldsSame_example :
    HoldsSame store_q
      (intercept_before_auth at_new_year reference_m (app_of store_q) intercept_r).1.store
intercept_before_auth-HoldsSame_example =
    intercept_before_auth-HoldsSame at_new_year reference_m (app_of store_q) intercept_r exhausted

abbrev one_call : RequestAdmission
one_call = record { calls = 1; completed = false }

abbrev app_r : App Nanos ℕ
app_r = record (app_of store_k) { admissions = (request_r, one_call) ∷ [] }

abbrev after_r : App Nanos ℕ
after_r = complete_request request_r app_r

trimmed : trim_space request_r ≡ request_r
unfolding trim_space
trimmed = refl

under_way : lookup request_r app_r.admissions ≡ some one_call
unfolding lookup text_eq
under_way = refl

completed-HasNoSlot_example :
    HasNoSlot request_r (commit_admission at_new_year after_r intercept_r scope_k).1.store
completed-HasNoSlot_example =
    completed-HasNoSlot at_new_year request_r app_r
      (commit_admission at_new_year after_r intercept_r scope_k).1 request_r one_call trimmed refl
      no_slots under_way
      (next after_r (commit_admission at_new_year after_r intercept_r scope_k).1
        (commit_admission at_new_year after_r intercept_r scope_k).1
        (commits intercept_r scope_k after_r)
        (done (commit_admission at_new_year after_r intercept_r scope_k).1))
