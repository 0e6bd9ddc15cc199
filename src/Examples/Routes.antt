-- ===== src/Examples/Routes.antt =====
-- The theorems on routes and custom prices, at a key with one route.
use cpa_plugin_group_billing.Prelude.{
  ℕ, ◌+◌, List, ◌≡◌, refl, ◌&&◌, none, some, [], ◌∷◌, if◌then◌else◌,
}
use cpa_plugin_group_billing.Prelude.Sort.{insert_all}
use cpa_plugin_group_billing.Prelude.Table.{lookup, insert}
use cpa_plugin_group_billing.Prelude.Text.{
  Text, codes, text_eq, trim_space, contains, to_lower, byte_length,
}
use cpa_plugin_group_billing.Errors.{ok}
use cpa_plugin_group_billing.Examples.{counting, scope_k, key_k, state_k, store_k}
use cpa_plugin_group_billing.Float.{Nanos, nanos_float}
use cpa_plugin_group_billing.Models.{normalize_model_id}
use cpa_plugin_group_billing.Prices.{custom_price}
use cpa_plugin_group_billing.Prices.Edits.{
  PriceWriter, upsert_price, validate_price, put_price, upsert_price-stored,
}
use cpa_plugin_group_billing.Pricing.{validate_rates}
use cpa_plugin_group_billing.RoutePolicy.{
  resolve_routing_state, resolve_routing, resolve_routes, routing_restricted, compact,
}
use cpa_plugin_group_billing.RoutePolicy.Merge.{DecidesAs, resolve_routing_state-DecidesAs}
use cpa_plugin_group_billing.Routes.{
  RouteDeleteResult, has_route, delete_edit, unbind, drop_id, remove_route, route_changes,
}
use cpa_plugin_group_billing.Routes.Calls.{RouteCall, binding_key, deleting, calls, calls-IsLinked}
use cpa_plugin_group_billing.Routes.Deletion.{
  delete_edit-keys, map_key, count_keys, lists_route, is_deleted, is_set_free,
}
use cpa_plugin_group_billing.Routes.Links.{IsLinked}
use cpa_plugin_group_billing.Routing.{
  RouteRule, empty_rule, restricts_models, restricts_credentials,
}
use cpa_plugin_group_billing.State.{State, KeyState, Route, CustomPrice, find_route, find_route_id}
use cpa_plugin_group_billing.Store.{Store}

abbrev id_x : Text
id_x = codes "x"

abbrev rule_x : RouteRule
rule_x = record empty_rule { models = codes "gpt" ∷ []; denied_models = codes "old" ∷ [] }

abbrev route_x : Route
route_x = record { id = id_x; name = id_x; rule = rule_x }

abbrev key_x : KeyState Nanos
key_x = record key_k { route_bindings = record { route_ids = id_x ∷ []; rule = empty_rule } }

abbrev state_x : State Nanos
state_x = record state_k { routes = route_x ∷ []; keys = (scope_k, key_x) ∷ [] }

abbrev store_x : Store Nanos ℕ
store_x = record store_k { state = state_x }

resolve_routing_state-DecidesAs_example :
    DecidesAs
      (resolve_routing_state state_x (some key_x))
      (rule_x ∷ empty_rule ∷ [])
      (codes "gpt")
      []
      []
      []
unfolding find_route find_route_id text_eq trim_space
resolve_routing_state-DecidesAs_example =
    resolve_routing_state-DecidesAs state_x key_x (rule_x ∷ []) (codes "gpt") [] [] [] refl

linked : IsLinked state_x
unfolding trim_space has_route text_eq
linked = (((refl, refl), tt), tt)

abbrev two_calls : List RouteCall
two_calls = deleting id_x ∷ binding_key scope_k key_x.route_bindings ∷ []

calls-IsLinked_example :
    IsLinked (calls two_calls store_x).state
    × ((resolve_routing (calls two_calls store_x) scope_k (codes "gpt") []).configuration_error
        ≡ [])
calls-IsLinked_example = calls-IsLinked two_calls store_x scope_k (codes "gpt") [] linked

abbrev one_free : RouteDeleteResult
one_free = record {
  deleted = id_x;
  affected_keys = 1;
  deleted_keys = 0;
  fully_unrestricted_keys = 1;
}

abbrev state_without : State Nanos
state_without = record state_x { routes = []; keys = (scope_k, key_k) ∷ [] }

deleted : delete_edit id_x state_x ≡ ok (one_free, state_without, route_changes (scope_k ∷ []))
unfolding delete_edit unbind find_route find_route_id text_eq trim_space contains drop_id
    remove_route routing_restricted resolve_routing_state resolve_routes restricts_models
    restricts_credentials compact insert_all
deleted = refl

delete_edit-keys_example :
    (lookup scope_k state_without.keys ≡ map_key id_x (lookup scope_k state_x.keys))
    × (lookup scope_k state_without.keys ≡ (
        if contains scope_k (scope_k ∷ [])
        then map_key id_x (lookup scope_k state_x.keys)
        else lookup scope_k state_x.keys))
    × (count_keys (lists_route id_x) state_without.keys ≡ 0)
    × (1 ≡ count_keys (lists_route id_x) state_x.keys)
    × (0 ≡ count_keys (λ key. lists_route id_x key && is_deleted key) state_x.keys)
    × (1 ≡ count_keys (is_set_free state_x id_x) state_x.keys)
delete_edit-keys_example =
    delete_edit-keys state_x state_without id_x scope_k one_free (route_changes (scope_k ∷ []))
      deleted

abbrev writer_w : PriceWriter Nanos ℕ
writer_w = record { upsert = λ db price. ok (db + 1); remove = λ db model. ok (db + 1) }

abbrev price_m : CustomPrice Nanos
price_m = record {
  model_id = codes "GPT";
  rates = record {
    input = some 1;
    output = some 2;
    cache_read = none;
    cache_write = none;
    long_context = none;
  };
}

abbrev store_m : Store Nanos ℕ
store_m =
    let state = store_k.state in
    record store_k { state = record state { prices = (codes "gpt", price_m) ∷ [] }; repo = some 1 }

upserted : upsert_price writer_w store_k price_m ≡ (ok price_m, store_m)
unfolding upsert_price validate_price validate_rates put_price trim_space to_lower
    normalize_model_id byte_length lookup insert
upserted = refl

upsert_price-stored_example :
    (validate_rates price_m.rates ≡ ok tt)
    × (price_m.rates ≡ price_m.rates)
    × (custom_price store_m.state (codes "gPt") ≡ (
        if text_eq (normalize_model_id (codes "GPT")) (normalize_model_id (codes "gPt"))
        then some price_m
        else custom_price store_k.state (codes "gPt")))
upsert_price-stored_example =
    upsert_price-stored writer_w store_k store_m price_m price_m (codes "gPt") upserted
