-- ===== src/Routes/Links.antt =====
-- internal/billing/routing.go: the routes that the keys list are there.
use cpa_plugin_group_billing.Prelude.{
  ◌≡◌, refl, true, false, ◌||◌, some, List, [], ◌∷◌, ◌++◌, arith, subst, All, All-append, All-map,
  Option-cases, Bool-cases, inl, inr,
}
use cpa_plugin_group_billing.Prelude.Table.{Table, lookup, insert, Every, insert-Every}
use cpa_plugin_group_billing.Prelude.Text.{
  Text, text_eq, text_eq_iff, trim_space, contains, to_lower,
}
use cpa_plugin_group_billing.Prelude.Trim.{trim_space_idem}
use cpa_plugin_group_billing.Errors.{ok, ok-injective}
use cpa_plugin_group_billing.Routes.{
  has_route, replace_route, remove_route, drop_id, normalize_route, is_found, bind_route, with_ids,
  rebind, unbind,
}
use cpa_plugin_group_billing.Routing.{normalize_route_strings, strings_loop}
use cpa_plugin_group_billing.State.{State, KeyState, Route, find_route_id}

-- A trimmed identifier that one of the routes has.
abbrev pub IsRouteId : List Route → Text → Type 0
IsRouteId routes id = (trim_space id ≡ id) × (has_route id routes ≡ true)

abbrev pub HasLinks : {F : Type 0} → List Route → KeyState F → Type 0
HasLinks routes key = All (IsRouteId routes) key.route_bindings.route_ids

abbrev pub AllLinked : {F : Type 0} → List Route → Table (KeyState F) → Type 0
AllLinked routes keys = Every (λ scope key. HasLinks routes key) keys

-- Every key lists routes that are there.
abbrev pub IsLinked : {F : Type 0} → State F → Type 0
IsLinked s = AllLinked s.routes s.keys

pub some-injective : {A : Type 0} (a b : A) → some a ≡ some b → a ≡ b
some-injective a b e = cc

module _ {F : Type 0} where
  pub AllLinked-routes :
      (rs rs' : List Route) (keys : Table (KeyState F))
      → ((id : Text) → has_route id rs ≡ true → has_route id rs' ≡ true)
      → AllLinked rs keys
      → AllLinked rs' keys
  AllLinked-routes rs rs' [] f h = tt
  AllLinked-routes rs rs' ((scope, key) ∷ keys) f (h, hs) = (
    All-map (IsRouteId rs) (IsRouteId rs') key.route_bindings.route_ids (λ id (t, e). (t, f id e))
        h,
    AllLinked-routes rs rs' keys f hs,
  )

pub find_route-has_route :
    (rs : List Route) (id : Text) → is_found (find_route_id rs id) ≡ has_route id rs
unfolding find_route_id has_route
find_route-has_route [] id = refl
find_route-has_route (r ∷ rs) id = ground (arith, find_route-has_route rs id)

pub find_route_id-id :
    (rs : List Route) (id : Text) (r : Route) → find_route_id rs id ≡ some r → r.id ≡ id
unfolding find_route_id
find_route_id-id [] id r e = absurd cc
find_route_id-id (q ∷ rs) id r e = ground (arith, text_eq_iff q.id id, find_route_id-id rs id r)

pub has_route-append :
    (id : Text) (rs qs : List Route)
    → has_route id (rs ++ qs) ≡ (has_route id rs || has_route id qs)
unfolding has_route
has_route-append id [] qs = refl
has_route-append id (r ∷ rs) qs = ground (arith, has_route-append id rs qs)

pub has_route-replace_route :
    (id j : Text) (new : Route) (rs : List Route)
    → new.id ≡ id
    → has_route j (replace_route id new rs) ≡ has_route j rs
unfolding has_route replace_route
has_route-replace_route id j new [] e = refl
has_route-replace_route id j new (r ∷ rs) e =
    ground (arith, text_eq_iff r.id id, has_route-replace_route id j new rs e)

has_route-remove_route :
    (id j : Text) (rs : List Route)
    → text_eq j id ≡ false
    → has_route j (remove_route id rs) ≡ has_route j rs
unfolding has_route remove_route
has_route-remove_route id j [] e = refl
has_route-remove_route id j (r ∷ rs) e = ground (
  arith,
  text_eq_iff r.id id,
  text_eq_iff r.id j,
  text_eq_iff j id,
  has_route-remove_route id j rs e,
)

drop_id-All : (P : Text → Type 0) (id : Text) (ids : List Text) → All P ids → All P (drop_id id ids)
unfolding drop_id
drop_id-All P id [] h = tt
drop_id-All P id (j ∷ js) (h, hs) = ground (arith, drop_id-All P id js hs)

drop_id-absent : (id : Text) (ids : List Text) → All (λ j. text_eq j id ≡ false) (drop_id id ids)
unfolding drop_id
drop_id-absent id [] = tt
drop_id-absent id (j ∷ js) = ground (arith, drop_id-absent id js)

-- Trimming, and the identifiers that a normalised list and a normalised route hold.
strings_loop-trimmed :
    (values seen result out : List Text)
    → All (λ t. trim_space t ≡ t) result
    → strings_loop values seen result ≡ ok out
    → All (λ t. trim_space t ≡ t) out
unfolding strings_loop contains
strings_loop-trimmed [] seen result out h e =
    subst (λ (l : List Text). All (λ t. trim_space t ≡ t) l) (ok-injective result out e) h
strings_loop-trimmed (value ∷ rest) seen result out h e =
    let more =
      All-append (λ t. trim_space t ≡ t) result (trim_space value ∷ []) h
        (trim_space_idem value, tt) in
    ground (
      arith,
      strings_loop-trimmed rest seen result out h,
      strings_loop-trimmed rest (to_lower (trim_space value) ∷ seen)
          (result ++ trim_space value ∷ []) out more,
    )

pub normalize_route_strings-trimmed :
    (values out : List Text)
    → normalize_route_strings values ≡ ok out
    → All (λ t. trim_space t ≡ t) out
unfolding normalize_route_strings
normalize_route_strings-trimmed values out e = strings_loop-trimmed values [] [] out tt e

pub normalize_route-id :
    (route out : Route) → normalize_route route ≡ ok out → out.id ≡ trim_space route.id
unfolding normalize_route
normalize_route-id route out e = ground arith

module _ {F : Type 0} (rs : List Route) where
  pub lookup-HasLinks :
      (scope : Text) (key : KeyState F) (keys : Table (KeyState F))
      → AllLinked rs keys
      → lookup scope keys ≡ some key
      → HasLinks rs key
  unfolding lookup
  lookup-HasLinks scope key [] h e = absurd cc
  lookup-HasLinks scope key ((j, k) ∷ keys) (h, hs) e = elim (Bool-cases (text_eq j scope)) [
    | inl same ↦ subst (HasLinks rs) (some-injective k key (rw (same, lookup) at e)) h
    | inr apart ↦ lookup-HasLinks scope key keys hs (rw (apart, lookup) at e)
  ]

  append-HasLinks :
      (id : Text) (key : KeyState F)
      → IsRouteId rs id
      → HasLinks rs key
      → HasLinks rs (with_ids (key.route_bindings.route_ids ++ id ∷ []) key)
  append-HasLinks id key i h =
      All-append (IsRouteId rs) key.route_bindings.route_ids (id ∷ []) h (i, tt)

  pub bind_route-AllLinked :
      (id : Text) (scopes : List Text) (keys : Table (KeyState F))
      → IsRouteId rs id
      → AllLinked rs keys
      → AllLinked rs (bind_route id scopes keys)
  unfolding bind_route
  bind_route-AllLinked id [] keys i h = h
  bind_route-AllLinked id (scope ∷ rest) keys i h = elim (Option-cases (lookup scope keys)) [
    | inl missing ↦ rw (missing, bind_route) (bind_route-AllLinked id rest keys i h)
    | inr (key, there) ↦
        let new = with_ids (key.route_bindings.route_ids ++ id ∷ []) key in
        rw (there, bind_route)
          (bind_route-AllLinked id rest (insert scope new keys) i (
            insert-Every (λ scope (key : KeyState F). HasLinks rs key) scope new keys
              (append-HasLinks id key i (lookup-HasLinks scope key keys h there)) h))
  ]

  pub rebind-AllLinked :
      (id : Text) (selected : List Text) (keys : Table (KeyState F))
      → IsRouteId rs id
      → AllLinked rs keys
      → AllLinked rs (rebind id selected keys).0
  unfolding rebind
  rebind-AllLinked id selected [] i h = tt
  rebind-AllLinked id selected ((scope, key) ∷ keys) i (h, hs) = ground (
    arith,
    rebind-AllLinked id selected keys i hs,
    append-HasLinks id key i h,
    drop_id-All (IsRouteId rs) id key.route_bindings.route_ids h,
  )

remove-IsRouteId :
    (rs : List Route) (id : Text) (ids : List Text)
    → All (IsRouteId rs) ids
    → All (IsRouteId (remove_route id rs)) (drop_id id ids)
unfolding drop_id
remove-IsRouteId rs id [] h = tt
remove-IsRouteId rs id (j ∷ js) (h, hs) =
    ground (arith, has_route-remove_route id j rs, remove-IsRouteId rs id js hs)

pub drop_id_absent : (id : Text) (ids : List Text) → contains id ids ≡ false → drop_id id ids ≡ ids
unfolding drop_id contains
drop_id_absent id [] e = refl
drop_id_absent id (j ∷ js) e = ground (arith, drop_id_absent id js)

pub unbind-AllLinked :
    {F : Type 0} (s : State F) (id : Text) (keys : Table (KeyState F))
    → AllLinked s.routes keys
    → AllLinked (remove_route id s.routes) (unbind s id keys).0
unfolding unbind
unbind-AllLinked s id [] h = tt
unbind-AllLinked s id ((scope, key) ∷ keys) (h, hs) =
    let ids = key.route_bindings.route_ids in
    let dropped = remove-IsRouteId s.routes id ids h in
    let rest = unbind-AllLinked s id keys hs in
    elim (Bool-cases (contains id ids)) [
      | inl has ↦ rw (has, unbind) (dropped, rest)
      | inr hasnt ↦
          rw (hasnt, unbind)
            (
              subst (All (IsRouteId (remove_route id s.routes))) (drop_id_absent id ids hasnt)
                  dropped,
              rest,
            )
    ]
