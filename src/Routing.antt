-- ===== src/Routing.antt =====
-- internal/billing/routing.go: rules that allow and deny models and credentials, their
-- normalisation, and the decision that a request is held to.
pub mod Decision
use cpa_plugin_group_billing.Prelude.{
  ℕ, ◌≡◌, refl, Bool, true, false, not, ◌&&◌, ◌||◌, List, [], ◌∷◌, ◌++◌, any, ltb, leb, ◌==◌,
  length, drop, take, if◌then◌else◌,
}
use cpa_plugin_group_billing.Prelude.Text.{
  Text, codes, text_eq, is_empty, byte_length, trim_space, to_lower, equal_fold, contains,
}
use cpa_plugin_group_billing.Errors.{Error, Result, ok, err, invalidf, refuse, ◌>>=◌, ◌>>◌}

-- `CredentialProviderSelector`
pub record Selector : Type 0 where
  pub source : Text
  pub provider : Text

pub record RouteRule : Type 0 where
  pub models : List Text
  pub credential_ids : List Text
  pub credential_providers : List Selector
  pub denied_models : List Text
  pub denied_credential_ids : List Text
  pub denied_credential_providers : List Selector

abbrev pub empty_rule : RouteRule
empty_rule = record {
  models = [];
  credential_ids = [];
  credential_providers = [];
  denied_models = [];
  denied_credential_ids = [];
  denied_credential_providers = [];
}

-- `RoutingDecision`; an empty text is no configuration error.
pub record RoutingDecision : Type 0 where
  pub rule : RouteRule
  pub model : Text
  pub configuration_error : Text

unfoldable pub selector_eq : Selector → Selector → Bool
unfolding text_eq
selector_eq a b = text_eq a.source b.source && text_eq a.provider b.provider

-- `containsRouteValue`
unfoldable pub contains_fold : List Text → Text → Bool
unfolding any
contains_fold values value = any (λ item. equal_fold item value) values

-- `RestrictsModels`
unfoldable pub restricts_models : RoutingDecision → Bool
restricts_models d = not (is_empty d.rule.models) || not (is_empty d.rule.denied_models)

-- `AllowsModel`
unfoldable pub allows_model : RoutingDecision → Bool
allows_model d =
    if not (is_empty d.configuration_error)
    then false
    else if is_empty d.model
    then true
    else not (contains_fold d.rule.denied_models d.model)
      && (is_empty d.rule.models || contains_fold d.rule.models d.model)

-- `RestrictsCredentials`
unfoldable pub restricts_credentials : RoutingDecision → Bool
restricts_credentials d =
    not (is_empty d.rule.credential_ids)
    || not (is_empty d.rule.credential_providers)
    || not (is_empty d.rule.denied_credential_ids)
    || not (is_empty d.rule.denied_credential_providers)

-- A denied class takes every candidate that its known metadata does not tell apart from it.
unfoldable pub may_match : Selector → Selector → Bool
may_match s denied =
    (is_empty s.source || text_eq s.source denied.source)
    && (is_empty s.provider || text_eq s.provider denied.provider)

-- `AllowsCredential`
unfoldable pub allows_credential : RoutingDecision → Text → Text → Text → Bool
allows_credential d ref source provider =
    let s : Selector = record {
      source = to_lower (trim_space source);
      provider = to_lower (trim_space provider);
    } in
    if not (is_empty d.configuration_error) || contains_fold d.rule.denied_credential_ids ref
    then false
    else if any (may_match s) d.rule.denied_credential_providers
    then false
    else (is_empty d.rule.credential_ids && is_empty d.rule.credential_providers)
      || contains_fold d.rule.credential_ids ref
      || any (selector_eq s) d.rule.credential_providers

abbrev pub max_route_value_bytes : ℕ
max_route_value_bytes = 512

abbrev pub auth_files : Text
auth_files = codes "auth-files"

abbrev pub ai_providers : Text
ai_providers = codes "ai-providers"

-- The characters `*`, `[`, `]` and NUL, which no provider name holds.
is_reserved : ℕ → Bool
is_reserved c = (c == b'*') || (c == b'[') || (c == b']') || (c == 0)

-- `normalizeCredentialProviderSelector`
pub normalize_selector : Selector → Result Selector
unfolding is_reserved
normalize_selector item = do
  let source = to_lower (trim_space item.source)
  let provider = to_lower (trim_space item.provider)
  refuse (not (text_eq source auth_files) && not (text_eq source ai_providers))
      (invalidf "上游凭证来源必须是 auth-files 或 ai-providers")
  refuse
      (is_empty provider
        || ltb max_route_value_bytes (byte_length provider)
        || any is_reserved provider)
      (invalidf "供应商标识无效")
  ok (record { source = source; provider = provider })

-- `normalizeCredentialProviders`, its loop over the values left and the results so far.
providers_loop : List Selector → List Selector → Result (List Selector)
providers_loop [] result = ok result
providers_loop (item ∷ rest) result = do
  s ← normalize_selector item
  providers_loop rest (if any (selector_eq s) result then result else result ++ s ∷ [])

unfoldable pub normalize_providers : List Selector → Result (List Selector)
unfolding providers_loop
normalize_providers values = providers_loop values []

-- `normalizeRouteStrings`: the values left, the lower-case texts seen and the results so far.
unfoldable pub strings_loop : List Text → List Text → List Text → Result (List Text)
strings_loop [] seen result = ok result
strings_loop (value ∷ rest) seen result =
    let v = trim_space value in
    let key = to_lower v in
    refuse (is_empty v || ltb max_route_value_bytes (byte_length v)) (invalidf "路由选项无效")
    >> (if contains key seen
        then strings_loop rest seen result
        else strings_loop rest (key ∷ seen) (result ++ v ∷ []))

unfoldable pub normalize_route_strings : List Text → Result (List Text)
unfolding strings_loop
normalize_route_strings values = strings_loop values [] []

is_hex : ℕ → Bool
is_hex c = (leb b'0' c && leb c b'9') || (leb b'a' c && leb c b'f') || (leb b'A' c && leb c b'F')

-- `ValidCredentialFingerprint`: the prefix and the hexadecimal digits of a SHA-256 sum.
pub valid_fingerprint : Text → Bool
unfolding is_hex
valid_fingerprint value =
    (byte_length value == 71)
    && text_eq (take 7 value) (codes "sha256:")
    && not (any (λ c. not (is_hex c)) (drop 7 value))

-- The loop of `normalizeCredentialIDs`.
ids_loop : List Text → Result (List Text)
ids_loop [] = ok []
ids_loop (value ∷ rest) = do
  refuse (not (valid_fingerprint value)) (invalidf "上游凭证引用无效")
  more ← ids_loop rest
  ok (to_lower value ∷ more)

unfoldable pub normalize_credential_ids : List Text → Result (List Text)
unfolding ids_loop
normalize_credential_ids values = do strings ← normalize_route_strings values; ids_loop strings

-- `normalizeRouteSelection`
unfoldable pub normalize_selection :
    {T : Type 0}
    → (List T → Result (List T))
    → (T → T → Bool)
    → Error
    → List T
    → List T
    → Result (List T × List T)
unfolding any
normalize_selection normalize equal both allow deny = do
  allow' ← normalize allow
  deny' ← normalize deny
  refuse (any (λ value. any (λ item. equal item value) allow') deny') both
  ok (allow', deny')

-- `NormalizeRouteRule`
unfoldable pub normalize_rule : RouteRule → Result RouteRule
normalize_rule r = do
  models ←
      normalize_selection normalize_route_strings equal_fold (invalidf "同一模型不能同时加入黑白名单") r.models
        r.denied_models
  ids ←
      normalize_selection normalize_credential_ids equal_fold (invalidf "同一凭证不能同时加入黑白名单")
        r.credential_ids r.denied_credential_ids
  providers ←
      normalize_selection normalize_providers selector_eq (invalidf "同一凭证类别不能同时加入黑白名单")
        r.credential_providers r.denied_credential_providers
  ok (record {
    models = models.0;
    credential_ids = ids.0;
    credential_providers = providers.0;
    denied_models = models.1;
    denied_credential_ids = ids.1;
    denied_credential_providers = providers.1;
  })
