-- ===== src/RoutePolicy.antt =====
-- internal/billing/routing.go, resolveRoutingState and ResolveRouting: the decision that the routes and
-- the own rule of a key amount to.
pub mod Tidy
pub mod Merge
use cpa_plugin_group_billing.Prelude.{
  ℕ, ◌≡◌, refl, Bool, true, false, not, ◌&&◌, ◌||◌, Option, none, some, List, [], ◌∷◌, ◌++◌, ltb,
  ◌==◌, if◌then◌else◌,
}
use cpa_plugin_group_billing.Prelude.Sort.{sort_stable}
use cpa_plugin_group_billing.Prelude.Table.{lookup}
use cpa_plugin_group_billing.Prelude.Text.{
  Text, codes, text_eq, is_empty, trim_space, to_lower, equal_fold,
}
use cpa_plugin_group_billing.Prices.{resolve_billing_model}
use cpa_plugin_group_billing.Routing.{
  Selector, RouteRule, empty_rule, RoutingDecision, selector_eq, restricts_models,
  restricts_credentials,
}
use cpa_plugin_group_billing.State.{State, KeyState, find_route, normalize_scope}
use cpa_plugin_group_billing.Store.{Store}

-- Go's `<` on strings.
unfoldable pub text_lt : Text → Text → Bool
text_lt s [] = false
text_lt [] (d ∷ t) = true
text_lt (c ∷ s) (d ∷ t) = ltb c d || ((c == d) && text_lt s t)

-- The orders of the two sorts.
unfoldable pub lower_lt : Text → Text → Bool
lower_lt s t = text_lt (to_lower s) (to_lower t)

unfoldable pub selector_lt : Selector → Selector → Bool
selector_lt a b =
    if text_eq a.source b.source then text_lt a.provider b.provider else text_lt a.source b.source

module _ {T : Type 0} where
  -- `slices.CompactFunc`, behind the value that is kept or dropped last.
  unfoldable pub compact_from : (T → T → Bool) → T → List T → List T
  compact_from eq last [] = []
  compact_from eq last (x ∷ xs) =
      let rest = compact_from eq x xs in if eq x last then rest else x ∷ rest

  unfoldable pub compact : (T → T → Bool) → List T → List T
  unfolding compact_from
  compact eq [] = []
  compact eq (x ∷ xs) = x ∷ compact_from eq x xs

abbrev pub tidy_names : List Text → List Text
tidy_names names = compact equal_fold (sort_stable lower_lt names)

abbrev pub tidy_selectors : List Selector → List Selector
tidy_selectors selectors = compact selector_eq (sort_stable selector_lt selectors)

-- `merge`: each dimension is appended on its own.
abbrev pub merge_rule : RouteRule → RouteRule → RouteRule
merge_rule d r = record {
  models = d.models ++ r.models;
  credential_ids = d.credential_ids ++ r.credential_ids;
  credential_providers = d.credential_providers ++ r.credential_providers;
  denied_models = d.denied_models ++ r.denied_models;
  denied_credential_ids = d.denied_credential_ids ++ r.denied_credential_ids;
  denied_credential_providers = d.denied_credential_providers ++ r.denied_credential_providers;
}

abbrev pub tidy_rule : RouteRule → RouteRule
tidy_rule r = record {
  models = tidy_names r.models;
  credential_ids = tidy_names r.credential_ids;
  credential_providers = tidy_selectors r.credential_providers;
  denied_models = tidy_names r.denied_models;
  denied_credential_ids = tidy_names r.denied_credential_ids;
  denied_credential_providers = tidy_selectors r.denied_credential_providers;
}

abbrev pub decided : RouteRule → RoutingDecision
decided rule = record { rule = rule; model = []; configuration_error = [] }

-- The format string of the message, which is not empty.
abbrev pub missing_route : Text
missing_route = codes "路由规则 %q 已不存在"

module _ {F : Type 0} where
  -- The loop over the routes of a key, and what follows it: the routes left, the key's own rule and
  -- the rules merged so far.
  unfoldable pub resolve_routes : State F → List Text → RouteRule → RouteRule → RoutingDecision
  resolve_routes s [] own merged = decided (tidy_rule (merge_rule merged own))
  resolve_routes s (id ∷ ids) own merged = elim (find_route s id) [
    | none ↦ record (decided merged) { configuration_error = missing_route }
    | some route ↦ resolve_routes s ids own (merge_rule merged route.rule)
  ]

  -- `resolveRoutingState`
  unfoldable pub resolve_routing_state : State F → Option (KeyState F) → RoutingDecision
  unfolding resolve_routes
  resolve_routing_state s none = decided empty_rule
  resolve_routing_state s (some key) =
      resolve_routes s key.route_bindings.route_ids key.route_bindings.rule empty_rule

  -- `routingRestricted`
  unfoldable pub routing_restricted : State F → KeyState F → Bool
  unfolding resolve_routing_state
  routing_restricted s key =
      let d = resolve_routing_state s (some key) in
      not (is_empty d.configuration_error) || restricts_models d || restricts_credentials d

  -- `ResolveRouting`
  unfoldable pub resolve_routing : {D : Type 0} → Store F D → Text → Text → Text → RoutingDecision
  resolve_routing s scope upstream route_model =
      let d = resolve_routing_state s.state (lookup (normalize_scope scope) s.state.keys) in
      record d { model = trim_space (resolve_billing_model s.state upstream route_model) }
