-- ===== src/Examples.antt =====
-- A store with one key on a group plan, and the theorems of the other modules applied to it.
mod Admission
mod Accounting
mod Storage
mod Config
mod Quota
mod Values
mod Routes
mod Plans
mod Host
use cpa_plugin_group_billing.Prelude.{
  ℕ, ◌+◌, ◌*◌, Bool, true, false, Option, none, some, List, [], ◌∷◌,
}
use cpa_plugin_group_billing.Prelude.Int64.{ℤ, pos}
use cpa_plugin_group_billing.Prelude.Text.{Text, codes}
use cpa_plugin_group_billing.Accounting.{UsageEvent}
use cpa_plugin_group_billing.Calendar.{Time, second, next_group_day}
use cpa_plugin_group_billing.Float.{Nanos, nanos_float}
use cpa_plugin_group_billing.Groups.{
  GroupPool, inherit, ResourceGroup, published, draft, GroupPolicy, GroupPlan, Period, grouped,
  KeyBinding, GroupState, GroupDay, new_day,
}
use cpa_plugin_group_billing.Pricing.{Breakdown, complete, none_found, custom, no_cost, Cost}
use cpa_plugin_group_billing.Routing.{empty_rule}
use cpa_plugin_group_billing.State.{State, new_state, KeyState, RequestEvent}
use cpa_plugin_group_billing.State.Changes.{Changes, no_changes}
use cpa_plugin_group_billing.Store.{Repository, Store, new_store}

-- A database that counts its saves.
instance abbrev pub counting : Repository Nanos ℕ
counting = record { save = λ db s changes. some (db + 1) }

abbrev pub scope_k : Text
scope_k = codes "k"

abbrev pub id_g : Text
id_g = codes "g"

abbrev pub id_p : Text
id_p = codes "p"

abbrev pub model_m : Text
model_m = codes "m"

abbrev pub request_r : Text
request_r = codes "r"

-- The first instant of 2026 in Shanghai.
abbrev pub new_year : Time
new_year = 63_902_793_600 * second

abbrev pub open_pool : GroupPool
open_pool = record {
  mode = inherit;
  allow_refs = [];
  deny_refs = [];
  allow_classes = [];
  deny_classes = [];
}

abbrev pub group_g : ResourceGroup
group_g = record {
  id = id_g;
  name = id_g;
  description = [];
  status = published;
  enabled = true;
  models = model_m ∷ [];
  pool = open_pool;
  revision = pos 2;
  created_at = 1;
  updated_at = 1;
  published_at = some 1;
}

abbrev pub draft_d : ResourceGroup
draft_d = record group_g {
  id = codes "d";
  name = codes "d";
  status = draft;
  models = codes "n" ∷ [];
  published_at = none;
}

abbrev pub two_at_once : GroupPolicy
two_at_once = record {
  group_id = id_g;
  enabled = true;
  daily_limit = some (pos 1_000_000_000);
  concurrency_limit = some (pos 2);
}

abbrev pub plan_p : GroupPlan
plan_p = record {
  id = id_p;
  name = id_p;
  revision = pos 1;
  policies = two_at_once ∷ [];
  created_at = 1;
  updated_at = 1;
  bound_key_count = 0;
}

-- The midnight of the second of January of year 1.
abbrev pub first_midnight : Time
first_midnight = 57_600 * second

abbrev pub period_p : Period
period_p = record {
  mode = grouped;
  plan_id = some id_p;
  effective_from = first_midnight;
  effective_to = none;
}

abbrev pub binding_k : KeyBinding
binding_k = record {
  unclassified = pos 0;
  scope = scope_k;
  revision = pos 1;
  periods = period_p ∷ [];
}

abbrev pub groups_k : GroupState
groups_k = record {
  groups = (id_g, group_g) ∷ (codes "d", draft_d) ∷ [];
  plans = (id_p, plan_p) ∷ [];
  bindings = (scope_k, binding_k) ∷ [];
  days = [];
  labels = [];
}

abbrev pub key_k : KeyState Nanos
key_k = record {
  preview = scope_k;
  label = [];
  in_config = true;
  deleted_at = 0;
  plan_id = [];
  concurrency_limit = pos 0;
  route_bindings = record { route_ids = []; rule = empty_rule };
  cycles = [];
}

abbrev pub state_k : State Nanos
state_k = record new_state { grouped = groups_k; keys = (scope_k, key_k) ∷ [] }

abbrev pub store_k : Store Nanos ℕ
store_k = let s : Store Nanos ℕ = new_store in record s { state = state_k; repo = some 0 }

abbrev pub tokens_100 : Breakdown
tokens_100 = record {
  quality = complete;
  total = pos 100;
  input = record { total = pos 60; uncached = pos 50; cache_read = pos 10; cache_write = pos 0 };
  output = record { total = pos 40; non_reasoning = pos 30; reasoning = pos 10 };
  unclassified_tokens = pos 0;
}

abbrev pub usage_m : UsageEvent
usage_m = record {
  scope = scope_k;
  key_preview = [];
  auth_index = [];
  provider = [];
  executor_type = [];
  auth_type = [];
  account = [];
  reasoning_effort = [];
  service_tier = [];
  upstream_model = model_m;
  route_model = model_m;
  requested_at = new_year;
  latency_ms = pos 0;
  ttft_ms = pos 0;
  breakdown = tokens_100;
  at = new_year + second;
}

abbrev pub cost_half : Cost Nanos
cost_half = record no_cost { total = some 500_000_000 }

abbrev pub entry_m : RequestEvent Nanos
entry_m = record {
  group = none;
  at = new_year + second;
  scope = scope_k;
  auth_index = [];
  provider = [];
  account = [];
  executor_type = [];
  reasoning_effort = [];
  service_tier = [];
  upstream_model = model_m;
  billing_model = model_m;
  failed = false;
  latency_ms = pos 0;
  ttft_ms = pos 0;
  accounting_quality = complete;
  price_source = custom;
  cost = cost_half;
  reasoning_tokens = pos 10;
}
