-- ===== src/Host/Refusals.antt =====
-- internal/plugin/intercept.go: a request that is refused keeps no slot that its admission took.
use cpa_plugin_group_billing.Prelude.{
  ◌≡◌, refl, Bool, true, false, not, ◌&&◌, Option, [], arith, sym, subst, inl, inr, Option-cases,
  Bool-cases, if◌then◌else◌,
}
use cpa_plugin_group_billing.Prelude.Text.{Text, is_empty}
use cpa_plugin_group_billing.Admission.{
  admit_group, admit_grouped, admit_open, take_group_slot, retry_pending, chosen_model,
}
use cpa_plugin_group_billing.Admission.Refusals.{admit_group-IsSame}
use cpa_plugin_group_billing.Calendar.{Time}
use cpa_plugin_group_billing.Errors.{Result, ok, err}
use cpa_plugin_group_billing.Float.{Float}
use cpa_plugin_group_billing.GroupConfig.{Clock}
use cpa_plugin_group_billing.Groups.{binding}
use cpa_plugin_group_billing.Host.{App, is_helper, metadata_string, caller_scope}
use cpa_plugin_group_billing.Host.Held.{
  HoldsSame, HoldsSame-trans, HoldsSame-of_IsSame, HoldsSame-of_eq, admit_ungrouped-HoldsSame,
}
use cpa_plugin_group_billing.Host.Intercept.{
  InterceptRequest, is_generation, is_completed, admit_ungrouped, commit_admission, commit_helper,
  admit_priced, intercept_enabled, intercept_before_auth, begin_admission, end_admission,
}
use cpa_plugin_group_billing.Host.Responses.{go_on}
use cpa_plugin_group_billing.Prices.Resolution.{Referenced, resolve_model_price, is_missing}
use cpa_plugin_group_billing.Pricing.{Price}
use cpa_plugin_group_billing.Routing.{restricts_models, allows_model}
use cpa_plugin_group_billing.RoutePolicy.{resolve_routing}
use cpa_plugin_group_billing.Store.{Repository, Store}

module _ {F D : Type 0} where
  admit_grouped-handled :
      (s : Store F D) (scope request model : Text) (plan_id : Option Text) (generate : Bool)
      (now : Time)
      → (admit_grouped s scope request model plan_id generate now).0.handled ≡ true
  unfolding admit_grouped admit_open take_group_slot
  admit_grouped-handled s scope request model plan_id generate now = ground arith

  store-begin_admission :
      (request : Text) (a : App F D) → (begin_admission request a).store ≡ a.store
  unfolding begin_admission
  store-begin_admission request a = ground arith

  store-end_admission : (request : Text) (a : App F D) → (end_admission request a).store ≡ a.store
  unfolding end_admission
  store-end_admission request a = ground arith

module _ {F D : Type 0} ⦃fl : Float F⦄ ⦃repository : Repository F D⦄ where
  -- A key outside of a grouped period is left alone.
  admit_group_outside :
      (s : Store F D) (scope request model requested : Text) (generate : Bool) (now : Time)
      → (admit_group s scope request model requested generate now).0.handled ≡ false
      → (admit_group s scope request model requested generate now).1 ≡ s
  unfolding admit_group
  admit_group_outside s scope request model requested generate now e =
      elim (Option-cases (binding s.state.grouped scope now)) [
        | inl outside ↦ rw (outside, admit_group) refl
        | inr (b, inside) ↦ elim (Option-cases (retry_pending s)) [
          | inl failed ↦ absurd (ground arith)
          | inr (t, saved) ↦
              let handled =
                admit_grouped-handled t scope request (chosen_model model requested) b.plan_id
                  generate now in
              absurd (ground arith)
        ]
      ]

  module _ (clock : Clock) where
    commit_admission-HoldsSame :
        (a : App F D) (req : InterceptRequest) (scope : Text)
        → (commit_admission clock a req scope).0.terminate ≡ true
        → HoldsSame a.store (commit_admission clock a req scope).1.store
    unfolding commit_admission
    commit_admission-HoldsSame a req scope e =
        let generate = is_generation req.metadata in
        let admitted =
          admit_group a.store scope req.request_id req.model req.requested_model generate
            (clock 1) in
        elim (Bool-cases (is_completed req.request_id a)) [
          | inl completed ↦ rw (completed, commit_admission) (HoldsSame-of_eq a.store a.store refl)
          | inr running ↦ elim (Bool-cases admitted.0.handled) [
            | inr outside ↦
                let after =
                  admit_ungrouped clock admitted.1 req.source_format scope req.request_id
                    generate in
                let same =
                  admit_group_outside a.store scope req.request_id req.model req.requested_model
                    generate (clock 1) outside in
                rw (running, outside, commit_admission)
                  (HoldsSame-trans a.store admitted.1 after.1
                    (HoldsSame-of_eq a.store admitted.1 same)
                    (admit_ungrouped-HoldsSame clock admitted.1 req.source_format scope
                      req.request_id generate (rw (running, outside, commit_admission) at e)))
            | inl handled ↦ elim (Bool-cases admitted.0.allowed) [
              | inl allowed ↦ absurd (ground arith)
              | inr refused ↦
                  rw (running, handled, refused, commit_admission)
                    (HoldsSame-of_IsSame a.store admitted.1 (
                      admit_group-IsSame a.store scope req.request_id req.model req.requested_model
                        generate (clock 1) (ground arith)))
            ]
          ]
        ]

    commit_helper-HoldsSame :
        (a : App F D) (req : InterceptRequest) (scope : Text)
        → HoldsSame a.store (commit_helper clock a req scope).1.store
    unfolding commit_helper
    commit_helper-HoldsSame a req scope =
        let admitted = admit_group a.store scope [] req.model req.requested_model false (clock 1) in
        HoldsSame-of_IsSame a.store admitted.1 (
          admit_group-IsSame a.store scope [] req.model req.requested_model false (clock 1)
            (ground arith))

    admit_priced-HoldsSame :
        (price : Result (Price F)) (a : App F D) (req : InterceptRequest) (scope : Text)
        → (admit_priced clock price a req scope).0.terminate ≡ true
        → HoldsSame a.store (admit_priced clock price a req scope).1.store
    unfolding admit_priced
    admit_priced-HoldsSame (err failure) a req scope e = HoldsSame-of_eq a.store a.store refl
    admit_priced-HoldsSame (ok price) a req scope e = elim (Bool-cases (is_missing price)) [
      | inl missing ↦ rw (missing, admit_priced) (HoldsSame-of_eq a.store a.store refl)
      | inr priced ↦ elim (Bool-cases (is_helper req.metadata)) [
        | inl helper ↦ rw (priced, helper, admit_priced) (commit_helper-HoldsSame a req scope)
        | inr client ↦
            rw (priced, client, admit_priced)
              (commit_admission-HoldsSame a req scope (rw (priced, client, admit_priced) at e))
      ]
    ]

    intercept_enabled-HoldsSame :
        (io : Referenced F) (a : App F D) (req : InterceptRequest)
        → (intercept_enabled clock io a req).0.terminate ≡ true
        → HoldsSame a.store (intercept_enabled clock io a req).1.store
    unfolding intercept_enabled
    intercept_enabled-HoldsSame io a req e =
        let scope = metadata_string req.metadata caller_scope in
        let routing = resolve_routing a.store scope req.model req.requested_model in
        let price = (resolve_model_price a.store.state io req.model req.requested_model).0 in
        elim (Bool-cases
          (not (is_helper req.metadata) && not (is_empty routing.configuration_error))) [
            | inl broken ↦ rw (broken, intercept_enabled) (HoldsSame-of_eq a.store a.store refl)
            | inr intact ↦
                elim (Bool-cases (
                  not (is_helper req.metadata)
                  && (restricts_models routing && not (allows_model routing)))) [
                    | inl forbidden ↦
                        rw (intact, forbidden, intercept_enabled)
                          (HoldsSame-of_eq a.store a.store refl)
                    | inr allowed ↦
                        rw (intact, allowed, intercept_enabled)
                          (admit_priced-HoldsSame price a req scope
                            (rw (intact, allowed, intercept_enabled) at e))
                  ]
          ]

    switched-HoldsSame :
        (enabled : Bool) (io : Referenced F) (a : App F D) (req : InterceptRequest)
        → let r = if enabled then intercept_enabled clock io a req else (go_on, a) in
          r.0.terminate ≡ true → HoldsSame a.store r.1.store
    switched-HoldsSame true io a req e = intercept_enabled-HoldsSame io a req e
    switched-HoldsSame false io a req e = HoldsSame-of_eq a.store a.store refl

    ended-HoldsSame :
        (s : Store F D) (helper : Bool) (request : Text) (a : App F D)
        → HoldsSame s a.store
        → HoldsSame s (if helper then a else end_admission request a).store
    ended-HoldsSame s true request a h = h
    ended-HoldsSame s false request a h =
        subst (HoldsSame s) (sym (store-end_admission request a)) h

    begun_store :
        (helper : Bool) (request : Text) (a : App F D)
        → (if helper then a else begin_admission request a).store ≡ a.store
    begun_store true request a = refl
    begun_store false request a = store-begin_admission request a

    -- A request that is turned away, for whatever reason, leaves every slot as it was: the same requests
    -- hold the same slots of keys and of groups, and every counter reads the same. A slot that its
    -- admission took before the quota refused it is given back.
    pub intercept_before_auth-HoldsSame :
        (io : Referenced F) (a : App F D) (req : InterceptRequest)
        → (intercept_before_auth clock io a req).0.terminate ≡ true
        → HoldsSame a.store (intercept_before_auth clock io a req).1.store
    unfolding intercept_before_auth
    intercept_before_auth-HoldsSame io a req e =
        let helper = is_helper req.metadata in
        let begun = if helper then a else begin_admission req.request_id a in
        let r =
          if begun.store.config.enabled
          then intercept_enabled clock io begun req
          else (go_on, begun) in
        ended-HoldsSame a.store helper req.request_id r.1 (
          HoldsSame-trans a.store begun.store r.1.store
            (HoldsSame-of_eq a.store begun.store (begun_store helper req.request_id a))
            (switched-HoldsSame begun.store.config.enabled io begun req e))
