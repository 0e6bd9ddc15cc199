-- ===== src/Routes.antt =====
-- internal/billing/routing.go: named routes, the keys that list them, and the edits of both.
pub mod Links
pub mod Edits
pub mod Names
pub mod Calls
pub mod Deletion
use cpa_plugin_group_billing.Prelude.{
  ℕ, ◌+◌, ◌≡◌, refl, Bool, true, false, not, ◌&&◌, ◌||◌, Option, none, some, List, [], ◌∷◌, ◌++◌,
  ltb, length, if◌then◌else◌,
}
use cpa_plugin_group_billing.Prelude.Table.{Table, lookup, insert}
use cpa_plugin_group_billing.Prelude.Text.{
  Text, codes, text_eq, is_empty, byte_length, trim_space, contains,
}
use cpa_plugin_group_billing.Calendar.{is_zero}
use cpa_plugin_group_billing.Errors.{
  Error, Result, ok, err, invalidf, not_foundf, conflictf, refuse, ◌>>=◌, ◌>>◌,
}
use cpa_plugin_group_billing.GroupConfig.{Edit}
use cpa_plugin_group_billing.Identity.{free_id, or_empty}
use cpa_plugin_group_billing.Keys.Scopes.{normalize_scopes}
use cpa_plugin_group_billing.RoutePolicy.{routing_restricted}
use cpa_plugin_group_billing.Routing.{RouteRule, normalize_rule, normalize_route_strings}
use cpa_plugin_group_billing.State.{
  State, KeyState, Route, RouteBindings, live_key, find_route, normalize_scope,
}
use cpa_plugin_group_billing.State.Changes.{Changes, no_changes}
use cpa_plugin_group_billing.Store.{Repository, Store, edit_configuration}

pub record RoutePatch : Type 0 where
  pub id : Text
  pub name : Option Text
  pub rule : Option RouteRule

pub record RouteDeleteResult : Type 0 where
  pub deleted : Text
  pub affected_keys : ℕ
  pub deleted_keys : ℕ
  pub fully_unrestricted_keys : ℕ

abbrev pub max_route_name_bytes : ℕ
max_route_name_bytes = 128

abbrev pub no_such_route : Error
no_such_route = not_foundf "路由规则 %q 不存在"

abbrev pub no_such_key : Error
no_such_key = not_foundf "API Key %q 不存在"

abbrev pub no_route_id : Error
no_route_id = invalidf "路由规则 ID 不能为空"

-- `NormalizeRouteBindings`
unfoldable pub normalize_route_bindings : RouteBindings → Result RouteBindings
normalize_route_bindings b = do
  ids ← normalize_route_strings b.route_ids
  rule ← normalize_rule b.rule
  ok (record { route_ids = ids; rule = rule })

-- `NormalizeRoute`
unfoldable pub normalize_route : Route → Result Route
normalize_route route =
    let id = trim_space route.id in
    let name = trim_space route.name in
    refuse (is_empty id) no_route_id
    >> refuse (is_empty name) (invalidf "路由规则名称不能为空")
    >> refuse (ltb max_route_name_bytes (byte_length name)) (invalidf "路由规则名称不能超过 %d 字节")
    >> normalize_rule route.rule
    >>= λ rule. ok (record { id = id; name = name; rule = rule })

-- `slices.DeleteFunc` with the test for one identifier.
unfoldable pub drop_id : Text → List Text → List Text
drop_id id [] = []
drop_id id (j ∷ js) = let rest = drop_id id js in if text_eq j id then rest else j ∷ rest

-- Whether a route has an identifier, and the list with the first such route replaced or removed.
unfoldable pub has_route : Text → List Route → Bool
has_route id [] = false
has_route id (r ∷ rs) = text_eq r.id id || has_route id rs

unfoldable pub replace_route : Text → Route → List Route → List Route
replace_route id new [] = []
replace_route id new (r ∷ rs) =
    let later = r ∷ replace_route id new rs in if text_eq r.id id then new ∷ rs else later

unfoldable pub remove_route : Text → List Route → List Route
remove_route id [] = []
remove_route id (r ∷ rs) =
    let later = r ∷ remove_route id rs in if text_eq r.id id then rs else later

abbrev pub is_found : Option Route → Bool
is_found none = false
is_found (some route) = true

-- The route with the fields that a patch holds.
abbrev pub patched : RoutePatch → Route → Route
patched patch route = record route {
  name = elim patch.name [ none ↦ route.name | some name ↦ name ];
  rule = elim patch.rule [ none ↦ route.rule | some rule ↦ rule ];
}

module _ {F : Type 0} where
  abbrev pub with_ids : List Text → KeyState F → KeyState F
  with_ids ids key =
      let b = key.route_bindings in record key { route_bindings = record b { route_ids = ids } }

  -- The loop of `CreateRoute` over the keys that it binds.
  unfoldable pub all_live : State F → List Text → Result (Unit {0})
  all_live s [] = ok tt
  all_live s (scope ∷ rest) = elim (live_key s scope) [
    | none ↦ err no_such_key
    | some key ↦ all_live s rest
  ]

  -- `append` of the route to each of the keys; a key that is not there is checked for before.
  unfoldable pub bind_route : Text → List Text → Table (KeyState F) → Table (KeyState F)
  bind_route id [] keys = keys
  bind_route id (scope ∷ rest) keys = bind_route id rest (elim (lookup scope keys) [
    | none ↦ keys
    | some key ↦ insert scope (with_ids (key.route_bindings.route_ids ++ id ∷ []) key) keys
  ])

  -- The route with an identifier, made from its name where it has none.
  abbrev pub named : State F → Route → Route
  named s route =
      if is_empty (trim_space route.id)
      then record route {
        id = or_empty (
            free_id (length s.routes + 1) route.name (codes "route")
              (λ id. is_found (find_route s id)));
      }
      else route

  abbrev pub route_changes : List Text → Changes F
  route_changes scopes = let c : Changes F = no_changes in record c { routes = true; keys = scopes }

  unfoldable pub create_edit : Route → List Text → State F → Edit F Route
  create_edit route scopes s = all_live s scopes >> normalize_route (named s route) >>= λ route'.
      refuse (is_found (find_route s route'.id)) (conflictf "路由规则 %q 已存在")
      >> ok (
        route',
        record s { routes = s.routes ++ route' ∷ []; keys = bind_route route'.id scopes s.keys },
        route_changes scopes,
      )

  -- The loop of `UpdateRoute` over the selected keys: a deleted key may only stay bound.
  unfoldable pub all_selectable : State F → Text → List Text → Result (Unit {0})
  all_selectable s id [] = ok tt
  all_selectable s id (scope ∷ rest) = elim (lookup scope s.keys) [
    | none ↦ err no_such_key
    | some key ↦
        refuse (not (is_zero key.deleted_at) && not (contains id key.route_bindings.route_ids))
          no_such_key
        >> all_selectable s id rest
  ]

  -- The loop over all keys that binds the selected ones and no other, and the keys it changed.
  unfoldable pub rebind : Text → List Text → Table (KeyState F) → Table (KeyState F) × List Text
  rebind id selected [] = ([], [])
  rebind id selected ((scope, key) ∷ rest) =
      let (keys, changed) = rebind id selected rest in
      let ids = key.route_bindings.route_ids in
      let has = contains id ids in
      let should = contains scope selected in
      if should && not has
      then ((scope, with_ids (ids ++ id ∷ []) key) ∷ keys, scope ∷ changed)
      else if not should && has
      then ((scope, with_ids (drop_id id ids) key) ∷ keys, scope ∷ changed)
      else ((scope, key) ∷ keys, changed)

  unfoldable pub check_selected : State F → Text → Option (List Text) → Result (Unit {0})
  check_selected s id none = ok tt
  check_selected s id (some scopes) = all_selectable s id (normalize_scopes scopes)

  unfoldable pub rebound :
      Text → Option (List Text) → Table (KeyState F) → Table (KeyState F) × List Text
  rebound id none keys = (keys, [])
  rebound id (some scopes) keys = rebind id (normalize_scopes scopes) keys

  -- The edit of `UpdateRoute`, for a patch whose identifier is trimmed.
  unfoldable pub update_edit : RoutePatch → Option (List Text) → State F → Edit F Route
  unfolding check_selected rebound
  update_edit patch scopes s = elim (find_route s patch.id) [
    | none ↦ err no_such_route
    | some old ↦ do
      updated ← normalize_route (patched patch old)
      check_selected s patch.id scopes
      let (keys, changed) = rebound patch.id scopes s.keys
      ok (
        updated,
        record s { routes = replace_route (trim_space patch.id) updated s.routes; keys = keys },
        route_changes changed,
      )
  ]

  -- The loop of `SetKeyRoutes` over the routes that it binds.
  unfoldable pub all_routes : State F → List Text → Result (Unit {0})
  all_routes s [] = ok tt
  all_routes s (id ∷ rest) = elim (find_route s id) [
    | none ↦ err no_such_route
    | some route ↦ all_routes s rest
  ]

  unfoldable pub set_edit : Text → RouteBindings → State F → Edit F (Unit {0})
  set_edit scope bindings s = elim (live_key s scope) [
    | none ↦ err no_such_key
    | some key ↦
        all_routes s bindings.route_ids
        >> ok (
          tt,
          record s { keys = insert scope (record key { route_bindings = bindings }) s.keys },
          let c : Changes F = no_changes in record c { keys = scope ∷ [] },
        )
  ]

  -- The counts of one key that has lost the route.
  abbrev count_key : State F → KeyState F → RouteDeleteResult → RouteDeleteResult
  count_key s key out =
      let out' : RouteDeleteResult = record out { affected_keys = out.affected_keys + 1 } in
      if not (is_zero key.deleted_at)
      then record out' { deleted_keys = out.deleted_keys + 1 }
      else if not (routing_restricted s key)
      then record out' { fully_unrestricted_keys = out.fully_unrestricted_keys + 1 }
      else out'

  -- The loop of `DeleteRoute` over all keys. The restrictions of a key are read while the route is
  -- still in the list of routes.
  unfoldable pub unbind :
      State F → Text → Table (KeyState F) → Table (KeyState F) × List Text × RouteDeleteResult
  unbind s id [] = (
    [],
    [],
    record { deleted = id; affected_keys = 0; deleted_keys = 0; fully_unrestricted_keys = 0 },
  )
  unbind s id ((scope, key) ∷ rest) =
      let (keys, changed, out) = unbind s id rest in
      let ids = key.route_bindings.route_ids in
      let key' = with_ids (drop_id id ids) key in
      if contains id ids
      then ((scope, key') ∷ keys, scope ∷ changed, count_key s key' out)
      else ((scope, key) ∷ keys, changed, out)

  -- The edit of `DeleteRoute`, for an identifier that is trimmed.
  unfoldable pub delete_edit : Text → State F → Edit F RouteDeleteResult
  unfolding unbind
  delete_edit id s =
      let (keys, changed, out) = unbind s id s.keys in
      refuse (not (is_found (find_route s id))) no_such_route
      >> ok (
        out,
        record s { routes = remove_route (trim_space id) s.routes; keys = keys },
        route_changes changed,
      )

module _ {F D : Type 0} ⦃repository : Repository F D⦄ where
  -- `CreateRoute`
  unfoldable pub create_route : Store F D → Route → List Text → Result Route × Store F D
  create_route s route scopes = edit_configuration s (create_edit route (normalize_scopes scopes))

  -- `UpdateRoute`
  unfoldable pub update_route :
      Store F D → RoutePatch → Option (List Text) → Result Route × Store F D
  update_route s patch scopes =
      let patch' : RoutePatch = record patch { id = trim_space patch.id } in
      if is_empty patch'.id
      then (err no_route_id, s)
      else edit_configuration s (update_edit patch' scopes)

  unfoldable pub set_normalized :
      Store F D → Text → Result RouteBindings → Result (Unit {0}) × Store F D
  set_normalized s scope (err e) = (err e, s)
  set_normalized s scope (ok bindings) = edit_configuration s (set_edit scope bindings)

  -- `SetKeyRoutes`
  unfoldable pub set_key_routes : Store F D → Text → RouteBindings → Result (Unit {0}) × Store F D
  unfolding set_normalized
  set_key_routes s scope bindings =
      let scope' = normalize_scope scope in
      if is_empty scope'
      then (err (invalidf "API Key 标识不能为空"), s)
      else set_normalized s scope' (normalize_route_bindings bindings)

  -- `DeleteRoute`
  unfoldable pub delete_route : Store F D → Text → Result RouteDeleteResult × Store F D
  delete_route s id =
      let id' = trim_space id in
      if is_empty id' then (err no_route_id, s) else edit_configuration s (delete_edit id')
