-- ===== src/Routes/Names.antt =====
-- internal/billing/routing.go, CreateRoute: a route without an identifier gets one that is free.
use cpa_plugin_group_billing.Prelude.{
  ℕ, ◌+◌, ◌^◌, ◌≤◌, ◌≡◌, refl, true, false, none, List, [], ◌∷◌, length, arith, ap, ◌∙◌, sym,
}
use cpa_plugin_group_billing.Prelude.Table.{Table, lookup}
use cpa_plugin_group_billing.Prelude.Text.{Text, codes, trim_space, is_empty, is_space}
use cpa_plugin_group_billing.Identity.{is_key_of, numbered}
use cpa_plugin_group_billing.Identity.Bare.{numbered-trimmed}
use cpa_plugin_group_billing.Identity.FreeId.{free_id_untaken}
use cpa_plugin_group_billing.Routes.{named, is_found, has_route}
use cpa_plugin_group_billing.Routes.Links.{find_route-has_route}
use cpa_plugin_group_billing.State.{State, Route, find_route, find_route_id}

-- The routes as a map from their identifiers.
abbrev by_id : List Route → Table Route
by_id [] = []
by_id (r ∷ rs) = (r.id, r) ∷ by_id rs

length-by_id : (rs : List Route) → length (by_id rs) ≡ length rs
length-by_id [] = refl
length-by_id (r ∷ rs) = omega (arith, length-by_id rs)

is_key_of-by_id : (rs : List Route) (id : Text) → is_key_of (by_id rs) id ≡ has_route id rs
unfolding lookup has_route
is_key_of-by_id [] id = refl
is_key_of-by_id (r ∷ rs) id = ground (arith, is_key_of-by_id rs id)

not_found :
    {F : Type 0} (s : State F) (id : Text)
    → is_found (find_route s id) ≡ false
    → find_route s id ≡ none
not_found s id e = ground arith

-- The search for an identifier ends before its fuel does, with one that no route has. There are fewer
-- than 10^19 - 1 routes.
pub named_free :
    {F : Type 0} (s : State F) (route : Route)
    → is_empty (trim_space route.id) ≡ true
    → length s.routes + 2 ≤ 10 ^ 19
    → find_route s (named s route).id ≡ none
unfolding find_route is_space
named_free s route blank le =
    let taken = λ (id : Text). is_found (find_route s id) in
    let key = λ (i : ℕ) (used : taken (numbered (codes "route") i) ≡ true).
      is_key_of-by_id s.routes (numbered (codes "route") i)
      ∙ sym (find_route-has_route s.routes (numbered (codes "route") i))
      ∙ ap (λ id. is_found (find_route_id s.routes id))
          (sym (numbered-trimmed b'r' (codes "oute") i refl))
      ∙ used in
    let free =
      free_id_untaken (by_id s.routes) (length s.routes) taken route.name (codes "route")
        (length-by_id s.routes) key le in
    rw blank (not_found s _ free)
