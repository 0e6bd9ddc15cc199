-- ===== src/Host/Credentials.antt =====
-- internal/plugin: routing_credentials.go and scheduler.go: the credentials that a key may use, and
-- the pick of one of them.
use Prim.Native.String.{String}
use cpa_plugin_group_billing.Prelude.{
  ℕ, Bool, true, false, not, ◌&&◌, ◌||◌, Option, none, some, List, [], ◌∷◌, ◌++◌, take, drop,
  length, ◌==◌, if◌then◌else◌,
}
use cpa_plugin_group_billing.Prelude.Table.{Table, lookup, insert}
use cpa_plugin_group_billing.Prelude.Text.{
  Text, codes, text_eq, is_empty, trim_space, to_lower, equal_fold, contains,
}
use cpa_plugin_group_billing.Admission.{group_credential_policy}
use cpa_plugin_group_billing.Calendar.{Time}
use cpa_plugin_group_billing.GroupConfig.{Clock}
use cpa_plugin_group_billing.Groups.{GroupPool, rule, binding}
use cpa_plugin_group_billing.Host.{
  App, Value, CredentialView, metadata_string, is_helper, caller_scope, requested_model_key,
}
use cpa_plugin_group_billing.RoutePolicy.{resolve_routing}
use cpa_plugin_group_billing.Routing.{
  RouteRule, RoutingDecision, allows_credential, restricts_credentials, auth_files, ai_providers,
}
use cpa_plugin_group_billing.Scheduler.{Candidate, pick, text_at}

abbrev attribute : Candidate → Text → Text
attribute c name = trim_space (text_at name c.attributes)

-- The sources of credentials that the host holds in its configuration, and in files.
unfoldable pub is_config_source : Text → Text → Bool → Bool
is_config_source backend source runtime_only =
    contains backend (codes "config" ∷ codes "memory" ∷ [])
    || runtime_only
    || text_eq (take 7 source) (codes "config:")
    || contains source (codes "memory" ∷ codes "runtime" ∷ codes "runtime_only" ∷ [])

abbrev file_backends : List Text
file_backends = codes "file" ∷ codes "git" ∷ codes "objectstore" ∷ codes "postgres" ∷ []

unfoldable pub is_file_source : Text → Text → Text → Bool
is_file_source backend path source =
    contains backend file_backends
    || not (is_empty path)
    || contains source (codes "filesystem" ∷ file_backends)

-- `credentialSourceFromCandidate`
unfoldable pub source_of_candidate : Candidate → Text
source_of_candidate c =
    let backend = to_lower (attribute c (codes "source_backend")) in
    let source = to_lower (attribute c (codes "source")) in
    let runtime_only = equal_fold (attribute c (codes "runtime_only")) (codes "true") in
    if is_config_source backend source runtime_only
    then ai_providers
    else if is_file_source backend (attribute c (codes "path")) source
    then auth_files
    else []

-- `shortCredentialRef`
unfoldable pub short_ref : Text → Text
short_ref ref = take 8 (if text_eq (take 7 ref) (codes "sha256:") then drop 7 ref else ref)

abbrev pub decision_of : RouteRule → RoutingDecision
decision_of r = record { rule = r; model = []; configuration_error = [] }

abbrev pub filter : {T : Type 0} → (T → Bool) → List T → List T
filter p [] = []
filter p (x ∷ xs) = let rest = filter p xs in if p x then x ∷ rest else rest

-- `SchedulerPickResponse`, or the error envelope with its code and status.
pub data PickResponse : Type 0 where
  unhandled : PickResponse
  picked : Text → PickResponse
  failed : String → ℕ → PickResponse

pub record PickRequest : Type 0 where
  pub model : Text
  pub metadata : Table Value
  pub candidates : List Candidate

abbrev pub is_some : {T : Type 0} → Option T → Bool
is_some none = false
is_some (some x) = true

-- `CredentialFingerprint`, a SHA-256 sum, and the sum of a rule's JSON text are parameters.
module _ (fingerprint : Text → Text) (digest : RouteRule → Text) where
  -- `routingAllowsCredential`
  unfoldable pub routing_allows : Text → Text → Text → RoutingDecision → Bool
  routing_allows raw_id source provider decision =
      let id = trim_space raw_id in
      allows_credential decision (if is_empty id then [] else fingerprint id) source provider

  -- `candidateAllowed`
  unfoldable pub candidate_allowed : RoutingDecision → Candidate → Bool
  candidate_allowed decision c = routing_allows c.id (source_of_candidate c) c.provider decision

  -- `routingPoolKey`
  unfoldable pub routing_pool_key : Text → RoutingDecision → Text
  routing_pool_key model decision =
      to_lower (trim_space model)
      ++ 0 ∷ digest (record decision.rule { models = []; denied_models = [] })

  -- The test of a candidate in `pickCredential`; an ungrouped key has no pool.
  unfoldable pub is_usable : RoutingDecision → Option GroupPool → Candidate → Bool
  is_usable decision none c = candidate_allowed decision c
  is_usable decision (some pool) c =
      candidate_allowed decision c && candidate_allowed (decision_of (rule pool)) c

  module _ {F D : Type 0} where
    -- One round of `observeCandidates`.
    unfoldable pub observe : Candidate → App F D → App F D
    observe c a =
        let id = trim_space c.id in
        let ref = fingerprint id in
        let source = source_of_candidate c in
        let default : Text =
          if text_eq source auth_files then codes "未提供邮箱" else codes "配置凭证 " ++ short_ref ref in
        let name : Text = elim (lookup ref a.credentials) [
          | none ↦ default
          | some old ↦ if is_empty old.display_name then default else old.display_name
        ] in
        let view : CredentialView = record {
          ref = ref;
          source = source;
          provider = to_lower (trim_space c.provider);
          display_name = name;
          status = c.status;
          disabled = false;
          unavailable = false;
        } in
        if is_empty id || is_empty source then a else record a {
          credentials = insert ref view a.credentials;
          credentials_by_raw_id = insert id ref a.credentials_by_raw_id;
        }

    -- `observeCandidates`
    unfoldable pub observe_candidates : List Candidate → App F D → App F D
    observe_candidates [] a = a
    observe_candidates (c ∷ cs) a = observe_candidates cs (observe c a)

    -- The pick among the usable candidates.
    unfoldable pub pick_usable :
        App F D
        → PickRequest
        → Text
        → RoutingDecision
        → Option GroupPool
        → Bool
        → PickResponse × App F D
    pick_usable a req scope decision pool grouped =
        let usable = filter (is_usable decision pool) req.candidates in
        let (id, scheduler) =
          pick a.scheduler scope (routing_pool_key decision.model decision) usable in
        if is_empty usable
        then (
          failed (if grouped then "group_no_available_credentials" else "no_routed_credential") 503,
          a,
        )
        else if length usable == length req.candidates
        then (unhandled, a)
        else if is_empty id
        then (failed "no_routed_credential" 503, record a { scheduler = scheduler })
        else (picked id, record a { scheduler = scheduler })

    -- `pickCredential` behind its checks of the helper and of the scope.
    unfoldable pub pick_scoped : Time → App F D → PickRequest → Text → PickResponse × App F D
    pick_scoped now a req scope =
        let named = metadata_string req.metadata requested_model_key in
        let requested = if is_empty named then req.model else named in
        let decision = resolve_routing a.store scope req.model requested in
        let (pool, grouped, allowed) =
          group_credential_policy a.store scope req.model requested now in
        if grouped && not allowed
        then (failed "group_disabled" 403, a)
        else if not (is_empty decision.configuration_error)
        then (failed "routing_configuration_error" 503, a)
        else if not (restricts_credentials decision) && not grouped
        then (unhandled, a)
        else pick_usable a req scope decision pool grouped

    -- `pickCredential`, for a request that is decoded.
    unfoldable pub pick_credential : Clock → App F D → PickRequest → PickResponse × App F D
    pick_credential clock a req =
        let scope = metadata_string req.metadata caller_scope in
        let a' = observe_candidates req.candidates a in
        if not a.store.config.enabled
        then (unhandled, a)
        else if is_helper req.metadata
            && not (is_some (binding a.store.state.grouped scope (clock 0)))
        then (unhandled, a)
        else if is_empty scope
        then (unhandled, a')
        else pick_scoped (clock 1) a' req scope
