-- ===== src/Routes/Calls.antt =====
-- internal/billing/routing.go: any sequence of calls that change routes and bindings leaves every key
-- with routes that are there, so that ResolveRouting finds no configuration error.
use cpa_plugin_group_billing.Prelude.{
  ◌≡◌, refl, Option, List, [], ◌∷◌, arith, ap, sym, ◌∙◌, All, Option-cases, Bool-cases, inl, inr,
}
use cpa_plugin_group_billing.Prelude.Table.{lookup}
use cpa_plugin_group_billing.Prelude.Text.{Text, trim_space, is_empty}
use cpa_plugin_group_billing.Prelude.Trim.{trim_space_idem}
use cpa_plugin_group_billing.Errors.{ok, Result-cases}
use cpa_plugin_group_billing.Keys.Scopes.{normalize_scopes}
use cpa_plugin_group_billing.RoutePolicy.{resolve_routes, resolve_routing_state, resolve_routing}
use cpa_plugin_group_billing.Routes.{
  RoutePatch, create_edit, update_edit, set_edit, delete_edit, create_route, update_route,
  set_key_routes, delete_route, normalize_route_bindings, set_normalized, is_found,
}
use cpa_plugin_group_billing.Routes.Edits.{
  create_edit-IsLinked, update_edit-IsLinked, set_edit-IsLinked, delete_edit-IsLinked,
}
use cpa_plugin_group_billing.Routes.Links.{
  IsRouteId, IsLinked, lookup-HasLinks, normalize_route_strings-trimmed, find_route-has_route,
}
use cpa_plugin_group_billing.Routing.{RouteRule, empty_rule}
use cpa_plugin_group_billing.State.{
  State, Route, RouteBindings, find_route, find_route_id, normalize_scope,
}
use cpa_plugin_group_billing.Store.{Repository, Store}
use cpa_plugin_group_billing.Store.Atomic.{edit_configuration-keeps}

-- A call of one of the four operations, with its arguments.
pub data RouteCall : Type 0 where
  creating : Route → List Text → RouteCall
  updating : RoutePatch → Option (List Text) → RouteCall
  binding_key : Text → RouteBindings → RouteCall
  deleting : Text → RouteCall

normalize_route_bindings-trimmed :
    (b out : RouteBindings)
    → normalize_route_bindings b ≡ ok out
    → All (λ t. trim_space t ≡ t) out.route_ids
unfolding normalize_route_bindings
normalize_route_bindings-trimmed b out e =
    normalize_route_strings-trimmed b.route_ids out.route_ids (ground arith)

resolve_routes-linked :
    {F : Type 0} (s : State F) (ids : List Text) (own merged : RouteRule)
    → All (IsRouteId s.routes) ids
    → (resolve_routes s ids own merged).configuration_error ≡ []
unfolding resolve_routes find_route
resolve_routes-linked s [] own merged h = refl
resolve_routes-linked s (id ∷ ids) own merged ((t, there), h) =
    elim (Option-cases (find_route s id)) [
      | inl missing ↦
          let none_there =
            sym (ap is_found missing)
            ∙ ap (λ j. is_found (find_route_id s.routes j)) t
            ∙ find_route-has_route s.routes id
            ∙ there in
          absurd cc
      | inr (route, found) ↦ rw (found, resolve_routes) (resolve_routes-linked s ids own _ h)
    ]

module _ {F D : Type 0} ⦃repository : Repository F D⦄ where
  abbrev pub call : RouteCall → Store F D → Store F D
  call (creating route scopes) s = (create_route s route scopes).1
  call (updating patch scopes) s = (update_route s patch scopes).1
  call (binding_key scope bindings) s = (set_key_routes s scope bindings).1
  call (deleting id) s = (delete_route s id).1

  create_route-IsLinked :
      (s : Store F D) (route : Route) (scopes : List Text)
      → IsLinked s.state
      → IsLinked (create_route s route scopes).1.state
  unfolding create_route
  create_route-IsLinked s route scopes h =
      edit_configuration-keeps IsLinked s (create_edit route (normalize_scopes scopes)) h
        (λ out next changes e.
          create_edit-IsLinked s.state next changes route out (normalize_scopes scopes) e h)

  update_route-IsLinked :
      (s : Store F D) (patch : RoutePatch) (scopes : Option (List Text))
      → IsLinked s.state
      → IsLinked (update_route s patch scopes).1.state
  unfolding update_route
  update_route-IsLinked s patch scopes h = elim (Bool-cases (is_empty (trim_space patch.id))) [
    | inl blank ↦ rw (blank, update_route) h
    | inr named ↦
        let patch' : RoutePatch = record patch { id = trim_space patch.id } in
        rw (named, update_route)
          (edit_configuration-keeps IsLinked s (update_edit patch' scopes) h (λ out next changes e.
            update_edit-IsLinked s.state next changes patch' out scopes (trim_space_idem patch.id) e
              h))
  ]

  set_key_routes-IsLinked :
      (s : Store F D) (scope : Text) (bindings : RouteBindings)
      → IsLinked s.state
      → IsLinked (set_key_routes s scope bindings).1.state
  unfolding set_key_routes set_normalized
  set_key_routes-IsLinked s scope bindings h =
      elim (Bool-cases (is_empty (normalize_scope scope))) [
        | inl blank ↦ rw (blank, set_key_routes) h
        | inr named ↦ elim (Result-cases (normalize_route_bindings bindings)) [
          | inr (failure, refused) ↦ rw (named, refused, set_key_routes) h
          | inl (normal, known) ↦
              rw (named, known, set_key_routes)
                (edit_configuration-keeps IsLinked s (set_edit (normalize_scope scope) normal) h
                  (λ out next changes e.
                    set_edit-IsLinked s.state next changes (normalize_scope scope) normal out
                      (normalize_route_bindings-trimmed bindings normal known) e h))
        ]
      ]

  delete_route-IsLinked :
      (s : Store F D) (id : Text) → IsLinked s.state → IsLinked (delete_route s id).1.state
  unfolding delete_route
  delete_route-IsLinked s id h = elim (Bool-cases (is_empty (trim_space id))) [
    | inl blank ↦ rw (blank, delete_route) h
    | inr named ↦
        rw (named, delete_route)
          (edit_configuration-keeps IsLinked s (delete_edit (trim_space id)) h
            (λ out next changes e.
              delete_edit-IsLinked s.state next changes (trim_space id) out (trim_space_idem id) e
                h))
  ]

  keeps_links : (c : RouteCall) (s : Store F D) → IsLinked s.state → IsLinked (call c s).state
  keeps_links (creating route scopes) s h = create_route-IsLinked s route scopes h
  keeps_links (updating patch scopes) s h = update_route-IsLinked s patch scopes h
  keeps_links (binding_key scope bindings) s h = set_key_routes-IsLinked s scope bindings h
  keeps_links (deleting id) s h = delete_route-IsLinked s id h

  abbrev pub calls : List RouteCall → Store F D → Store F D
  calls [] s = s
  calls (c ∷ cs) s = calls cs (call c s)

  -- In a store in which every key lists routes that are there, any sequence of creations, updates,
  -- bindings and deletions keeps it so, those that are refused or not saved included, and no key then
  -- has a routing configuration error for any models.
  pub calls-IsLinked :
      (cs : List RouteCall) (s : Store F D) (scope upstream route_model : Text)
      → IsLinked s.state
      → IsLinked (calls cs s).state
        × ((resolve_routing (calls cs s) scope upstream route_model).configuration_error ≡ [])
  unfolding resolve_routing resolve_routing_state
  calls-IsLinked [] s scope upstream route_model h = (
    h,
    elim (Option-cases (lookup (normalize_scope scope) s.state.keys)) [
      | inl missing ↦ rw (missing, resolve_routing) refl
      | inr (key, there) ↦
          rw (there, resolve_routing)
            (resolve_routes-linked s.state key.route_bindings.route_ids key.route_bindings.rule
              empty_rule
              (lookup-HasLinks s.state.routes (normalize_scope scope) key s.state.keys h there))
    ],
  )
  calls-IsLinked (c ∷ cs) s scope upstream route_model h =
      calls-IsLinked cs (call c s) scope upstream route_model (keeps_links c s h)
