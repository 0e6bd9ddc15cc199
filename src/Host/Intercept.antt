-- ===== src/Host/Intercept.antt =====
-- internal/plugin/intercept.go: the admission of a request before a credential is chosen, and its
-- completion.
use cpa_plugin_group_billing.Prelude.{
  ◌+◌, ◌-◌, Bool, true, false, not, ◌&&◌, none, some, [], ◌==◌, if◌then◌else◌,
}
use cpa_plugin_group_billing.Prelude.Table.{Table, lookup, insert, delete}
use cpa_plugin_group_billing.Prelude.Text.{Text, is_empty, trim_space}
use cpa_plugin_group_billing.Admission.{admit_group}
use cpa_plugin_group_billing.Errors.{Result, ok, err}
use cpa_plugin_group_billing.Float.{Float}
use cpa_plugin_group_billing.GroupConfig.{Clock}
use cpa_plugin_group_billing.Host.{
  App, Value, boolean, RequestAdmission, metadata_string, is_helper, caller_scope, generate_key,
}
use cpa_plugin_group_billing.Host.Responses.{
  Response, go_on, routing_configuration_response, model_forbidden_response, price_refusal,
  group_refusal, concurrency_limit_response, quota_exhausted_response,
}
use cpa_plugin_group_billing.Prices.Resolution.{Referenced, resolve_model_price, is_missing}
use cpa_plugin_group_billing.Pricing.{Price}
use cpa_plugin_group_billing.Quota.{authorize}
use cpa_plugin_group_billing.RoutePolicy.{resolve_routing}
use cpa_plugin_group_billing.Routing.{restricts_models, allows_model}
use cpa_plugin_group_billing.Slots.{acquire_slot, release_slot}
use cpa_plugin_group_billing.Store.{Repository, Store}

-- `RequestInterceptRequest`
pub record InterceptRequest : Type 0 where
  pub request_id : Text
  pub source_format : Text
  pub model : Text
  pub requested_model : Text
  pub metadata : Table Value

-- `Metadata[MetadataGenerate].(bool)`, which is true where there is no such value.
unfoldable pub is_generation : Table Value → Bool
is_generation metadata = elim (lookup generate_key metadata) [
  | none ↦ true
  | some v ↦ elim v [ boolean b ↦ b | _ ↦ true ]
]

module _ {F D : Type 0} where
  -- `beginAdmission`
  unfoldable pub begin_admission : Text → App F D → App F D
  begin_admission request_id a =
      let id = trim_space request_id in
      let new : RequestAdmission = elim (lookup id a.admissions) [
        | none ↦ record { calls = 1; completed = false }
        | some old ↦ record old { calls = old.calls + 1 }
      ] in
      if is_empty id then a else record a { admissions = insert id new a.admissions }

  -- `endAdmission`
  unfoldable pub end_admission : Text → App F D → App F D
  end_admission request_id a =
      let id = trim_space request_id in
      if is_empty id then a else elim (lookup id a.admissions) [
        | none ↦ a
        | some old ↦ record a {
          admissions =
              if old.calls - 1 == 0
              then delete id a.admissions
              else insert id (record old { calls = old.calls - 1 }) a.admissions;
        }
      ]

  -- Whether the request was completed while its admission was under way.
  unfoldable pub is_completed : Text → App F D → Bool
  is_completed request_id a =
      let id = trim_space request_id in
      if is_empty id
      then false
      else elim (lookup id a.admissions) [ none ↦ false | some old ↦ old.completed ]

  abbrev pub with_store : App F D → Store F D → App F D
  with_store a s = record a { store = s }

  -- `completeRequest`
  unfoldable pub complete_request : Text → App F D → App F D
  complete_request request_id a =
      let id = trim_space request_id in
      let admissions : Table RequestAdmission = elim (lookup id a.admissions) [
        | none ↦ a.admissions
        | some old ↦ insert id (record old { completed = true }) a.admissions
      ] in
      record a { admissions = admissions; store = (release_slot a.store request_id).1 }

module _ {F D : Type 0} ⦃fl : Float F⦄ ⦃repository : Repository F D⦄ (clock : Clock) where
  -- The admission to the subscription of the key, for a request that may hold a slot: a slot that was
  -- taken is released if the quota refuses the request.
  unfoldable pub authorize_held : Store F D → Text → Text → Text → Bool → Response × Store F D
  authorize_held s format scope request_id acquired =
      let (decision, s') = authorize s scope (clock 3) (clock 4) in
      if decision.allowed then (go_on, s') else (
        quota_exhausted_response format decision.view.retry_at (clock 3),
        if acquired then (release_slot s' request_id).1 else s',
      )

  -- The admission of a client request that is not of a grouped key.
  unfoldable pub admit_ungrouped : Store F D → Text → Text → Text → Bool → Response × Store F D
  unfolding authorize_held
  admit_ungrouped s format scope request_id generate =
      let (slot, s') = acquire_slot s scope request_id in
      if generate
      then if slot.allowed
        then authorize_held s' format scope request_id slot.acquired
        else (concurrency_limit_response format, s')
      else authorize_held s format scope request_id false

  -- The part of a client request that runs under the lock of the admissions.
  unfoldable pub commit_admission : App F D → InterceptRequest → Text → Response × App F D
  unfolding admit_ungrouped
  commit_admission a req scope =
      let generate = is_generation req.metadata in
      let (d, s) =
        admit_group a.store scope req.request_id req.model req.requested_model generate (clock 1) in
      let (response, s') = admit_ungrouped s req.source_format scope req.request_id generate in
      if is_completed req.request_id a
      then (price_refusal req.source_format "request_completed", a)
      else if not d.handled
      then (response, with_store a s')
      else if d.allowed
      then (go_on, with_store a s)
      else (group_refusal req.source_format d (clock 2), with_store a s)

  -- The admission of a nested request, which takes no slot.
  unfoldable pub commit_helper : App F D → InterceptRequest → Text → Response × App F D
  commit_helper a req scope =
      let (d, s) = admit_group a.store scope [] req.model req.requested_model false (clock 1) in
      (
        if d.handled && not d.allowed then group_refusal req.source_format d (clock 2) else go_on,
        with_store a s,
      )

  -- The check of the price, before a request is admitted.
  unfoldable pub admit_priced :
      Result (Price F) → App F D → InterceptRequest → Text → Response × App F D
  unfolding commit_helper commit_admission
  admit_priced (err e) a req scope = (price_refusal req.source_format "price_storage_error", a)
  admit_priced (ok price) a req scope =
      if is_missing price
      then (price_refusal req.source_format "model_price_error", a)
      else if is_helper req.metadata
      then commit_helper a req scope
      else commit_admission a req scope

  -- What happens between the beginning and the end of the admission.
  unfoldable pub intercept_enabled : Referenced F → App F D → InterceptRequest → Response × App F D
  unfolding admit_priced
  intercept_enabled io a req =
      let scope = metadata_string req.metadata caller_scope in
      let routing = resolve_routing a.store scope req.model req.requested_model in
      let (price, model) = resolve_model_price a.store.state io req.model req.requested_model in
      if not (is_helper req.metadata) && not (is_empty routing.configuration_error)
      then (routing_configuration_response req.source_format, a)
      else if not (is_helper req.metadata)
          && (restricts_models routing && not (allows_model routing))
      then (model_forbidden_response req.source_format, a)
      else admit_priced price a req scope

  -- `interceptBeforeAuth`, for a request that is decoded.
  unfoldable pub intercept_before_auth :
      Referenced F → App F D → InterceptRequest → Response × App F D
  intercept_before_auth io a req =
      let helper = is_helper req.metadata in
      let begun = if helper then a else begin_admission req.request_id a in
      let (response, a') =
        (if begun.store.config.enabled then intercept_enabled io begun req else (go_on, begun)) in
      (response, if helper then a' else end_admission req.request_id a')
