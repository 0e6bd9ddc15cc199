-- ===== src/Host/Picks.antt =====
-- internal/plugin/scheduler.go, pickCredential: a pick, and a pick that is left to the host, respect the
-- routing of the key and the pool of its group.
use cpa_plugin_group_billing.Prelude.{
  ◌≤◌, ◌≡◌, refl, Bool, true, false, not, ◌&&◌, ◌||◌, Option, List, [], ◌∷◌, any, length, ==_iff,
  arith, subst, if◌then◌else◌,
}
use cpa_plugin_group_billing.Prelude.Int64.{pos, ltb_ℤ}
use cpa_plugin_group_billing.Prelude.Text.{Text, text_eq, is_empty}
use cpa_plugin_group_billing.Admission.{group_credential_policy}
use cpa_plugin_group_billing.Calendar.{Time}
use cpa_plugin_group_billing.GroupConfig.{Clock}
use cpa_plugin_group_billing.Groups.{GroupPool}
use cpa_plugin_group_billing.Host.{
  App, metadata_string, is_helper, caller_scope, requested_model_key,
}
use cpa_plugin_group_billing.Host.Credentials.{
  PickRequest, unhandled, picked, filter, is_usable, pick_usable, pick_scoped, pick_credential,
  observe_candidates, observe, routing_pool_key,
}
use cpa_plugin_group_billing.RoutePolicy.{resolve_routing}
use cpa_plugin_group_billing.Routing.{RouteRule, RoutingDecision, restricts_credentials}
use cpa_plugin_group_billing.Scheduler.{Candidate, candidate_weight}
use cpa_plugin_group_billing.Store.{Store}
use cpa_plugin_group_billing.Scheduler.Choice.{is_positive, pick-is_positive}

-- What holds of a picked identifier is what holds of a candidate that passed the filter.
is_positive-filter :
    (p : Candidate → Bool) (cs : List Candidate) (id : Text)
    → is_positive (filter p cs) id ≡ true
    → any (λ c. p c && (ltb_ℤ (pos 0) (candidate_weight c) && text_eq c.id id)) cs ≡ true
unfolding any
is_positive-filter p [] id e = absurd cc
is_positive-filter p (c ∷ cs) id e = ground (arith, is_positive-filter p cs id)

length-filter : {T : Type 0} (p : T → Bool) (xs : List T) → length (filter p xs) ≤ length xs
length-filter p [] = omega arith
length-filter p (x ∷ xs) = ground (arith, length-filter p xs)

-- A filter that drops nothing passes everything.
filter-all :
    {T : Type 0} (p : T → Bool) (xs : List T)
    → length (filter p xs) ≡ length xs
    → any (λ x. not (p x)) xs ≡ false
unfolding any
filter-all p [] e = refl
filter-all p (x ∷ xs) e = ground (arith, length-filter p xs, filter-all p xs)

-- The decision, and the pool, that a request is held to.
abbrev pub requested_of : PickRequest → Text
requested_of req =
    let named = metadata_string req.metadata requested_model_key in
    if is_empty named then req.model else named

module _ {F D : Type 0} where
  abbrev pub decision_for : Store F D → PickRequest → RoutingDecision
  decision_for s req =
      resolve_routing s (metadata_string req.metadata caller_scope) req.model (requested_of req)

  abbrev pub policy_for : Store F D → PickRequest → Time → Option GroupPool × Bool × Bool
  policy_for s req now =
      group_credential_policy s (metadata_string req.metadata caller_scope) req.model
        (requested_of req) now

module _ (fingerprint : Text → Text) (digest : RouteRule → Text) {F D : Type 0} where
  store-observe_candidates :
      (cs : List Candidate) (a : App F D)
      → (observe_candidates fingerprint digest cs a).store ≡ a.store
  unfolding observe_candidates observe
  store-observe_candidates [] a = refl
  store-observe_candidates (c ∷ cs) a =
      ground (arith, store-observe_candidates cs (observe fingerprint digest c a))

  pick_usable-picked :
      (a : App F D) (req : PickRequest) (scope : Text) (d : RoutingDecision)
      (pool : Option GroupPool) (grouped : Bool) (id : Text)
      → (pick_usable fingerprint digest a req scope d pool grouped).0 ≡ picked id
      → any
          (λ c.
            is_usable fingerprint digest d pool c
            && (ltb_ℤ (pos 0) (candidate_weight c) && text_eq c.id id))
          req.candidates
        ≡ true
  unfolding pick_usable
  pick_usable-picked a req scope d pool grouped id e =
      let usable = filter (is_usable fingerprint digest d pool) req.candidates in
      let pool_key = routing_pool_key fingerprint digest d.model d in
      let (positive, named) = pick-is_positive a.scheduler scope pool_key usable in
      let it : is_positive usable id ≡ true = ground arith in
      is_positive-filter (is_usable fingerprint digest d pool) req.candidates id it

  pick_usable-unhandled :
      (a : App F D) (req : PickRequest) (scope : Text) (d : RoutingDecision)
      (pool : Option GroupPool) (grouped : Bool)
      → (pick_usable fingerprint digest a req scope d pool grouped).0 ≡ unhandled
      → any (λ c. not (is_usable fingerprint digest d pool c)) req.candidates ≡ false
  unfolding pick_usable
  pick_usable-unhandled a req scope d pool grouped e =
      let usable = filter (is_usable fingerprint digest d pool) req.candidates in
      filter-all (is_usable fingerprint digest d pool) req.candidates
        ((==_iff (length usable) (length req.candidates)).0 (ground arith))

  -- The pick is of a candidate that may be used, at a time at which the group is open.
  abbrev pub IsPermittedPick : Store F D → PickRequest → Time → Text → Type 0
  IsPermittedPick s req now id =
      let d = decision_for s req in
      let (pool, grouped, allowed) = policy_for s req now in
      (any
          (λ c.
            is_usable fingerprint digest d pool c
            && (ltb_ℤ (pos 0) (candidate_weight c) && text_eq c.id id))
          req.candidates
        ≡ true)
      × (grouped && not allowed ≡ false)
      × (is_empty d.configuration_error ≡ true)

  pick_scoped-picked :
      (now : Time) (a : App F D) (req : PickRequest) (id : Text)
      → (pick_scoped fingerprint digest now a req (metadata_string req.metadata caller_scope)).0
        ≡ picked id
      → IsPermittedPick a.store req now id
  unfolding pick_scoped
  pick_scoped-picked now a req id e =
      let scope = metadata_string req.metadata caller_scope in
      let d = decision_for a.store req in
      let (pool, grouped, allowed) = policy_for a.store req now in
      let usable = pick_usable-picked a req scope d pool grouped id in
      (ground arith, ground arith, ground arith)

  -- A credential that the plugin picks is that of a candidate with a positive weight that the routing of
  -- the key allows and, where the key is in a grouped period, the pool of the model's group too; the
  -- group is then open, and the routing has no configuration error.
  pub pick_credential-IsPermittedPick :
      (clock : Clock) (a : App F D) (req : PickRequest) (id : Text)
      → (pick_credential fingerprint digest clock a req).0 ≡ picked id
      → IsPermittedPick a.store req (clock 1) id
  unfolding pick_credential
  pick_credential-IsPermittedPick clock a req id e =
      let a' = observe_candidates fingerprint digest req.candidates a in
      subst (λ (s : Store F D). IsPermittedPick s req (clock 1) id)
        (store-observe_candidates req.candidates a)
        (pick_scoped-picked (clock 1) a' req id (ground arith))

  -- Some candidate must not be used.
  abbrev pub has_forbidden : Store F D → PickRequest → Time → Bool
  has_forbidden s req now =
      let d = decision_for s req in
      let (pool, grouped, allowed) = policy_for s req now in
      (restricts_credentials d || grouped)
      && any (λ c. not (is_usable fingerprint digest d pool c)) req.candidates

  pick_scoped-unhandled :
      (now : Time) (a : App F D) (req : PickRequest)
      → (pick_scoped fingerprint digest now a req (metadata_string req.metadata caller_scope)).0
        ≡ unhandled
      → has_forbidden a.store req now ≡ false
  unfolding pick_scoped
  pick_scoped-unhandled now a req e =
      let scope = metadata_string req.metadata caller_scope in
      let d = decision_for a.store req in
      let (pool, grouped, allowed) = policy_for a.store req now in
      ground (arith, pick_usable-unhandled a req scope d pool grouped)

  -- With billing enabled, the pick for a client request of a named key is left to the host only if the
  -- host may use every candidate: nothing restricts the key, or no candidate is forbidden by its routing
  -- or by the pool of its group.
  pub pick_credential-unhandled :
      (clock : Clock) (a : App F D) (req : PickRequest)
      → a.store.config.enabled ≡ true
      → is_helper req.metadata ≡ false
      → is_empty (metadata_string req.metadata caller_scope) ≡ false
      → (pick_credential fingerprint digest clock a req).0 ≡ unhandled
      → has_forbidden a.store req (clock 1) ≡ false
  unfolding pick_credential
  pick_credential-unhandled clock a req enabled client named e =
      let a' = observe_candidates fingerprint digest req.candidates a in
      subst (λ (s : Store F D). has_forbidden s req (clock 1) ≡ false)
        (store-observe_candidates req.candidates a)
        (pick_scoped-unhandled (clock 1) a' req (ground arith))
