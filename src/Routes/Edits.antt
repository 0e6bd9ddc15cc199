-- ===== src/Routes/Edits.antt =====
-- internal/billing/routing.go: the edits of routes keep every key's routes there.
use cpa_plugin_group_billing.Prelude.{
  ◌≡◌, true, Option, none, some, List, [], ◌∷◌, ◌++◌, arith, ap, ◌∙◌, sym, subst, All, Option-cases,
  inl, inr,
}
use cpa_plugin_group_billing.Prelude.Table.{Table, insert, insert-Every}
use cpa_plugin_group_billing.Prelude.Text.{Text, trim_space, text_eq_refl}
use cpa_plugin_group_billing.Prelude.Trim.{trim_space_idem}
use cpa_plugin_group_billing.Errors.{ok, Result-cases}
use cpa_plugin_group_billing.Keys.Scopes.{normalize_scopes}
use cpa_plugin_group_billing.Routes.{
  RoutePatch, RouteDeleteResult, has_route, replace_route, remove_route, normalize_route, is_found,
  all_routes, bind_route, rebound, unbind, named, patched, create_edit, update_edit, set_edit,
  delete_edit,
}
use cpa_plugin_group_billing.Routes.Links.{
  IsRouteId, HasLinks, AllLinked, IsLinked, AllLinked-routes, bind_route-AllLinked,
  rebind-AllLinked, unbind-AllLinked, find_route-has_route, find_route_id-id, has_route-append,
  has_route-replace_route, normalize_route-id,
}
use cpa_plugin_group_billing.State.{
  State, KeyState, Route, RouteBindings, find_route, find_route_id, live_key,
}
use cpa_plugin_group_billing.State.Changes.{Changes}

has_route_found :
    {F : Type 0} (s : State F) (id : Text) (route : Route)
    → trim_space id ≡ id
    → find_route s id ≡ some route
    → has_route id s.routes ≡ true
unfolding find_route
has_route_found s id route trimmed found =
    sym (find_route-has_route s.routes id)
    ∙ ap (λ t. is_found (find_route_id s.routes t)) (sym trimmed)
    ∙ ap is_found found

rebound-AllLinked :
    {F : Type 0} (rs : List Route) (id : Text) (scopes : Option (List Text))
    (keys : Table (KeyState F))
    → IsRouteId rs id
    → AllLinked rs keys
    → AllLinked rs (rebound id scopes keys).0
unfolding rebound
rebound-AllLinked rs id none keys i h = h
rebound-AllLinked rs id (some scopes) keys i h =
    rebind-AllLinked rs id (normalize_scopes scopes) keys i h

all_routes-IsRouteId :
    {F : Type 0} (s : State F) (ids : List Text)
    → All (λ t. trim_space t ≡ t) ids
    → all_routes s ids ≡ ok tt
    → All (IsRouteId s.routes) ids
unfolding all_routes find_route
all_routes-IsRouteId s [] t e = tt
all_routes-IsRouteId s (id ∷ ids) (t, ts) e = elim (Option-cases (find_route s id)) [
  | inl missing ↦ absurd (ground arith)
  | inr (route, found) ↦ (
    (t, has_route_found s id route t found),
    all_routes-IsRouteId s ids ts (rw (found, all_routes) at e),
  )
]

module _ {F : Type 0} (s next : State F) (changes : Changes F) where
  -- What a created route leaves behind.
  created :
      (route out : Route) (scopes : List Text)
      → create_edit route scopes s ≡ ok (out, next, changes)
      → (normalize_route (named s route) ≡ ok out)
        × (next.routes ≡ s.routes ++ out ∷ [])
        × (next.keys ≡ bind_route out.id scopes s.keys)
  unfolding create_edit
  created route out scopes e = ground arith

  updated :
      (patch : RoutePatch) (out : Route) (scopes : Option (List Text))
      → update_edit patch scopes s ≡ ok (out, next, changes)
      → (old : Route) × (find_route s patch.id ≡ some old)
        × (normalize_route (patched patch old) ≡ ok out)
        × (next.routes ≡ replace_route (trim_space patch.id) out s.routes)
        × (next.keys ≡ (rebound patch.id scopes s.keys).0)
  unfolding update_edit
  updated patch out scopes e = ground arith

  bound :
      (scope : Text) (bindings : RouteBindings) (u : Unit {0})
      → set_edit scope bindings s ≡ ok (u, next, changes)
      → (key : KeyState F) × (live_key s scope ≡ some key)
        × (all_routes s bindings.route_ids ≡ ok tt)
        × (next.routes ≡ s.routes)
        × (next.keys ≡ insert scope (record key { route_bindings = bindings }) s.keys)
  unfolding set_edit
  bound scope bindings u e = elim (Option-cases (live_key s scope)) [
    | inl dead ↦ absurd (ground arith)
    | inr (key, live) ↦ elim (Result-cases (all_routes s bindings.route_ids)) [
      | inr (failure, refused) ↦ absurd (ground arith)
      | inl (done, there) ↦ let set = rw (live, there, set_edit) at e in (key, live, there, cc, cc)
    ]
  ]

  pub removed :
      (id : Text) (out : RouteDeleteResult)
      → delete_edit id s ≡ ok (out, next, changes)
      → (is_found (find_route s id) ≡ true)
        × (next.routes ≡ remove_route (trim_space id) s.routes)
        × (next.keys ≡ (unbind s id s.keys).0)
        × (out ≡ (unbind s id s.keys).2)
  unfolding delete_edit
  removed id out e = ground arith

  IsLinked-from :
      (rs : List Route) (keys : Table (KeyState F))
      → next.routes ≡ rs
      → next.keys ≡ keys
      → AllLinked rs keys
      → IsLinked next
  IsLinked-from rs keys er ek h =
      subst (λ rs. AllLinked rs next.keys) (sym er)
        (subst (λ (keys : Table (KeyState F)). AllLinked rs keys) (sym ek) h)

  -- The identifier of a normalised route is trimmed.
  normal-trimmed : (route out : Route) → normalize_route route ≡ ok out → trim_space out.id ≡ out.id
  normal-trimmed route out e =
      let same = normalize_route-id route out e in
      ap trim_space same ∙ trim_space_idem route.id ∙ sym same

  pub create_edit-IsLinked :
      (route out : Route) (scopes : List Text)
      → create_edit route scopes s ≡ ok (out, next, changes)
      → IsLinked s
      → IsLinked next
  unfolding has_route
  create_edit-IsLinked route out scopes e h =
      let (normal, routes, keys) = created route out scopes e in
      let more = s.routes ++ out ∷ [] in
      let old =
        AllLinked-routes s.routes more s.keys
          (λ id there. ground (arith, has_route-append id s.routes (out ∷ []))) h in
      let new : has_route out.id more ≡ true =
        ground (arith, has_route-append out.id s.routes (out ∷ []), text_eq_refl out.id) in
      let id : IsRouteId more out.id = (normal-trimmed (named s route) out normal, new) in
      IsLinked-from more (bind_route out.id scopes s.keys) routes keys
        (bind_route-AllLinked more out.id scopes s.keys id old)

  -- The route that is found has the trimmed identifier, and so has its new version.
  pub update_edit-IsLinked :
      (patch : RoutePatch) (out : Route) (scopes : Option (List Text))
      → trim_space patch.id ≡ patch.id
      → update_edit patch scopes s ≡ ok (out, next, changes)
      → IsLinked s
      → IsLinked next
  unfolding find_route
  update_edit-IsLinked patch out scopes trimmed e h =
      let (old, found, normal, routes, keys) = updated patch out scopes e in
      let id = trim_space patch.id in
      let old_id = find_route_id-id s.routes id old found in
      let same : out.id ≡ id =
        normalize_route-id (patched patch old) out normal
        ∙ ap trim_space old_id
        ∙ trim_space_idem patch.id in
      let rs = replace_route id out s.routes in
      let kept =
        AllLinked-routes s.routes rs s.keys
          (λ j there. has_route-replace_route id j out s.routes same ∙ there) h in
      let there : has_route patch.id rs ≡ true =
        has_route-replace_route id patch.id out s.routes same
        ∙ has_route_found s patch.id old trimmed found in
      IsLinked-from rs (rebound patch.id scopes s.keys).0 routes keys
        (rebound-AllLinked rs patch.id scopes s.keys (trimmed, there) kept)

  pub set_edit-IsLinked :
      (scope : Text) (bindings : RouteBindings) (u : Unit {0})
      → All (λ t. trim_space t ≡ t) bindings.route_ids
      → set_edit scope bindings s ≡ ok (u, next, changes)
      → IsLinked s
      → IsLinked next
  set_edit-IsLinked scope bindings u trimmed e h =
      let (key, live, there, routes, keys) = bound scope bindings u e in
      let new = record key { route_bindings = bindings } in
      IsLinked-from s.routes (insert scope new s.keys) routes keys (
        insert-Every (λ scope (key : KeyState F). HasLinks s.routes key) scope new s.keys
          (all_routes-IsRouteId s bindings.route_ids trimmed there) h)

  pub delete_edit-IsLinked :
      (id : Text) (out : RouteDeleteResult)
      → trim_space id ≡ id
      → delete_edit id s ≡ ok (out, next, changes)
      → IsLinked s
      → IsLinked next
  delete_edit-IsLinked id out trimmed e h =
      let (there, routes, keys, counts) = removed id out e in
      IsLinked-from (remove_route id s.routes) (unbind s id s.keys).0
        (routes ∙ ap (λ t. remove_route t s.routes) trimmed) keys (unbind-AllLinked s id s.keys h)
