-- ===== src/RoutePolicy/Merge.antt =====
-- internal/billing/routing.go, resolveRoutingState: the merged decision against the rules themselves.
use cpa_plugin_group_billing.Prelude.{
  ◌≡◌, refl, Bool, true, not, ◌&&◌, ◌||◌, Option, none, some, List, [], ◌∷◌, ◌++◌, any, arith, ap,
  ◌∙◌, subst, sym, Option-cases, inl, inr,
}
use cpa_plugin_group_billing.Prelude.Text.{
  Text, is_empty, equal_fold, text_eq, text_eq_iff, to_lower,
}
use cpa_plugin_group_billing.Prelude.Sort.{sort_stable}
use cpa_plugin_group_billing.RoutePolicy.{
  compact, lower_lt, selector_lt, tidy_names, tidy_selectors, merge_rule, tidy_rule, decided,
  resolve_routes, resolve_routing_state,
}
use cpa_plugin_group_billing.RoutePolicy.Tidy.{
  any-tidied, is_empty-any, any-append, any-or, Respects,
}
use cpa_plugin_group_billing.Routing.{
  Selector, RouteRule, RoutingDecision, empty_rule, contains_fold, selector_eq, may_match,
  allows_model, allows_credential,
}
use cpa_plugin_group_billing.Routing.Decision.{class_of}
use cpa_plugin_group_billing.State.{State, KeyState, find_route}

-- What one rule says of a model and of a credential.
abbrev pub names_model : Text → RouteRule → Bool
names_model model r = contains_fold r.models model

abbrev pub denies_model : Text → RouteRule → Bool
denies_model model r = contains_fold r.denied_models model

abbrev pub lists_models : RouteRule → Bool
lists_models r = not (is_empty r.models)

abbrev pub names_credential : Text → Selector → RouteRule → Bool
names_credential ref class r =
    contains_fold r.credential_ids ref || any (selector_eq class) r.credential_providers

abbrev pub denies_credential : Text → Selector → RouteRule → Bool
denies_credential ref class r =
    contains_fold r.denied_credential_ids ref || any (may_match class) r.denied_credential_providers

abbrev pub lists_credentials : RouteRule → Bool
lists_credentials r = not (is_empty r.credential_ids) || not (is_empty r.credential_providers)

-- The rules of the routes that a key lists, if all of them are there.
abbrev pub bound_rules : {F : Type 0} → State F → List Text → Option (List RouteRule)
bound_rules s [] = some []
bound_rules s (id ∷ ids) = elim (find_route s id) [
  | none ↦ none
  | some route ↦ elim (bound_rules s ids) [ none ↦ none | some rules ↦ some (route.rule ∷ rules) ]
]

some-injective : {A : Type 0} (a b : A) → some a ≡ some b → a ≡ b
some-injective a b e = cc

abbrev pub merge_all : RouteRule → List RouteRule → RouteRule
merge_all merged [] = merged
merge_all merged (r ∷ rs) = merge_all (merge_rule merged r) rs

-- A dimension of the merged rule holds what that dimension of the rules holds.
any-merge_all :
    {T : Type 0} (p : T → Bool) (of : RouteRule → List T)
    → ((d r : RouteRule) → of (merge_rule d r) ≡ of d ++ of r)
    → (merged : RouteRule) (rules : List RouteRule)
    → any p (of (merge_all merged rules)) ≡ (any p (of merged) || any (λ r. any p (of r)) rules)
unfolding any
any-merge_all p of each merged [] = ground arith
any-merge_all p of each merged (r ∷ rs) = ground (
  arith,
  each merged r,
  any-append p (of merged) (of r),
  any-merge_all p of each (merge_rule merged r) rs,
)

resolve_routes-merge_all :
    {F : Type 0} (s : State F) (ids : List Text) (own merged : RouteRule) (rules : List RouteRule)
    → bound_rules s ids ≡ some rules
    → resolve_routes s ids own merged ≡ decided (tidy_rule (merge_all merged (rules ++ own ∷ [])))
unfolding resolve_routes
resolve_routes-merge_all s [] own merged rules e =
    let none_left : [] ≡ rules = some-injective [] rules e in
    ap (λ (l : List RouteRule). decided (tidy_rule (merge_all merged (l ++ own ∷ [])))) none_left
resolve_routes-merge_all s (id ∷ ids) own merged rules e = elim (Option-cases (find_route s id)) [
  | inl missing ↦ absurd (ground arith)
  | inr (route, found) ↦ elim (Option-cases (bound_rules s ids)) [
    | inl missing ↦ absurd (ground arith)
    | inr (rest, known) ↦
        let split : route.rule ∷ rest ≡ rules = ground arith in
        rw (found, resolve_routes)
          (resolve_routes-merge_all s ids own (merge_rule merged route.rule) rest known
            ∙ ap (λ (l : List RouteRule). decided (tidy_rule (merge_all merged (l ++ own ∷ []))))
                split)
  ]
]

equal_fold-respects :
    (v : Text) (x y : Text) → equal_fold x y ≡ true → equal_fold x v ≡ equal_fold y v
unfolding equal_fold
equal_fold-respects v x y e =
    ap (λ t. text_eq t (to_lower v)) ((text_eq_iff (to_lower x) (to_lower y)).0 e)

selector_eq→eq : (x y : Selector) → selector_eq x y ≡ true → x ≡ y
unfolding selector_eq
selector_eq→eq x y e =
    ground (arith, text_eq_iff x.source y.source, text_eq_iff x.provider y.provider)

module _ {T : Type 0} (eq lt : T → T → Bool) (of : RouteRule → List T)
    (each : (d r : RouteRule) → of (merge_rule d r) ≡ of d ++ of r)
    (none_first : of empty_rule ≡ []) (rules : List RouteRule) where
  any-dimension :
      (p : T → Bool)
      → Respects eq p
      → any p (compact eq (sort_stable lt (of (merge_all empty_rule rules))))
        ≡ any (λ r. any p (of r)) rules
  unfolding any
  any-dimension p r =
      any-tidied p eq lt (of (merge_all empty_rule rules)) r
      ∙ any-merge_all p of each empty_rule rules
      ∙ ap (λ l. any p l || any (λ r. any p (of r)) rules) none_first

  any_entries :
      (rs : List RouteRule)
      → any (λ r. any (λ x. true) (of r)) rs ≡ any (λ r. not (is_empty (of r))) rs
  unfolding any
  any_entries [] = refl
  any_entries (r ∷ rs) = ground (arith, is_empty-any (of r), any_entries rs)

  is_empty-dimension :
      is_empty (compact eq (sort_stable lt (of (merge_all empty_rule rules))))
      ≡ not (any (λ r. not (is_empty (of r))) rules)
  is_empty-dimension =
      is_empty-any (compact eq (sort_stable lt (of (merge_all empty_rule rules))))
      ∙ ap not (any-dimension (λ x. true) (λ x y e. refl) ∙ any_entries rules)

-- A dimension of names of the decision holds a name that one of the rules holds, up to case, and is
-- empty if it is empty in all of them.
names-tidied :
    (of : RouteRule → List Text)
    → ((d r : RouteRule) → of (merge_rule d r) ≡ of d ++ of r)
    → of empty_rule ≡ []
    → (rules : List RouteRule) (v : Text)
    → let names = tidy_names (of (merge_all empty_rule rules)) in
      (contains_fold names v ≡ any (λ r. contains_fold (of r) v) rules)
      × (is_empty names ≡ not (any (λ r. not (is_empty (of r))) rules))
unfolding contains_fold any
names-tidied of each none_first rules v = (
  any-dimension equal_fold lower_lt of each none_first rules (λ name. equal_fold name v)
      (equal_fold-respects v),
  is_empty-dimension equal_fold lower_lt of each none_first rules,
)

selectors-tidied :
    (of : RouteRule → List Selector)
    → ((d r : RouteRule) → of (merge_rule d r) ≡ of d ++ of r)
    → of empty_rule ≡ []
    → (rules : List RouteRule) (p : Selector → Bool)
    → let selectors = tidy_selectors (of (merge_all empty_rule rules)) in
      (any p selectors ≡ any (λ r. any p (of r)) rules)
      × (is_empty selectors ≡ not (any (λ r. not (is_empty (of r))) rules))
unfolding any
selectors-tidied of each none_first rules p = (
  any-dimension selector_eq selector_lt of each none_first rules p
      (λ x y e. ap p (selector_eq→eq x y e)),
  is_empty-dimension selector_eq selector_lt of each none_first rules,
)

-- The decision on a merged rule, dimension by dimension.
merged-allows_model :
    (rules : List RouteRule) (model : Text)
    → allows_model (record (decided (tidy_rule (merge_all empty_rule rules))) { model = model }) ≡ (
        is_empty model
        || (not (any (denies_model model) rules)
            && (not (any lists_models rules) || any (names_model model) rules)))
unfolding allows_model
merged-allows_model rules model = ground (
  arith,
  names-tidied (λ r. r.models) (λ d r. refl) refl rules model,
  names-tidied (λ r. r.denied_models) (λ d r. refl) refl rules model,
)

merged-allows_credential :
    (rules : List RouteRule) (ref source provider : Text)
    → let class = class_of source provider in
      allows_credential (decided (tidy_rule (merge_all empty_rule rules))) ref source provider ≡ (
        not (any (denies_credential ref class) rules)
        && (not (any lists_credentials rules) || any (names_credential ref class) rules))
unfolding allows_credential
merged-allows_credential rules ref source provider =
    let class = class_of source provider in
    ground (
      arith,
      names-tidied (λ r. r.credential_ids) (λ d r. refl) refl rules ref,
      names-tidied (λ r. r.denied_credential_ids) (λ d r. refl) refl rules ref,
      selectors-tidied (λ r. r.credential_providers) (λ d r. refl) refl rules (selector_eq class),
      selectors-tidied (λ r. r.denied_credential_providers) (λ d r. refl) refl rules
          (may_match class),
      any-or (λ (r : RouteRule). contains_fold r.denied_credential_ids ref)
          (λ (r : RouteRule). any (may_match class) r.denied_credential_providers) rules,
      any-or (λ (r : RouteRule). contains_fold r.credential_ids ref)
          (λ (r : RouteRule). any (selector_eq class) r.credential_providers) rules,
      any-or (λ (r : RouteRule). not (is_empty r.credential_ids))
          (λ (r : RouteRule). not (is_empty r.credential_providers)) rules,
    )

-- A decision without an error that allows a model if no rule denies it and, where some rule lists
-- models, one of the rules names it; a request without a model is allowed. It allows a credential in
-- the same way by the references and classes of the rules.
abbrev pub DecidesAs : RoutingDecision → List RouteRule → Text → Text → Text → Text → Type 0
DecidesAs d rules model ref source provider =
    let class = class_of source provider in
    (d.configuration_error ≡ [])
    × (allows_model (record d { model = model }) ≡ (
        is_empty model
        || (not (any (denies_model model) rules)
            && (not (any lists_models rules) || any (names_model model) rules))))
    × (allows_credential d ref source provider ≡ (
        not (any (denies_credential ref class) rules)
        && (not (any lists_credentials rules) || any (names_credential ref class) rules)))

-- The decision of a key whose routes are all there is that of its rules taken one by one, its own rule
-- and those of its routes: a denial of any of them refuses, and a list of any of them is joined with
-- the lists of the others, whatever the merging, sorting and dropping of repetitions does.
pub resolve_routing_state-DecidesAs :
    {F : Type 0} (s : State F) (key : KeyState F) (bound : List RouteRule)
    (model ref source provider : Text)
    → bound_rules s key.route_bindings.route_ids ≡ some bound
    → DecidesAs
        (resolve_routing_state s (some key))
        (bound ++ key.route_bindings.rule ∷ [])
        model
        ref
        source
        provider
unfolding resolve_routing_state
resolve_routing_state-DecidesAs s key bound model ref source provider e =
    let rules = bound ++ key.route_bindings.rule ∷ [] in
    subst (λ d. DecidesAs d rules model ref source provider)
      (sym (
        resolve_routes-merge_all s key.route_bindings.route_ids key.route_bindings.rule empty_rule
          bound e))
      (refl, merged-allows_model rules model, merged-allows_credential rules ref source provider)
