-- ===== src/Host/Responses.antt =====
-- internal/plugin/intercept.go: the responses of an interception.
use Prim.Native.String.{String}
use cpa_plugin_group_billing.Prelude.{
  ℕ, ◌+◌, ◌-◌, ◌/◌, ◌*◌, ◌≤◌, leb, ◌==◌, ◌≡◌, Bool, true, false, ◌||◌, not, none, some, [], ◌∷◌,
  take, length, ltb, arith, if◌then◌else◌,
}
use cpa_plugin_group_billing.Prelude.Text.{Text, codes, text_eq, trim_space, to_lower}
use cpa_plugin_group_billing.Admission.{
  Code, GroupDecision, no_code, accounting_unavailable, model_not_grouped, group_disabled,
  group_quota_exceeded, group_concurrency_exceeded,
}
use cpa_plugin_group_billing.Calendar.{Time, is_zero, before, second}

-- `refusal`, and the body that is made of it: its type in the client's envelope, and its code.
pub record Refusal : Type 0 where
  pub anthropic_type : String
  pub openai_type : String
  pub openai_code : String

pub record Body : Type 0 where
  pub is_anthropic : Bool
  pub error_type : String
  pub code : String

-- `RequestInterceptResponse` without the message; a zero stands for a header that is not set.
pub record Response : Type 0 where
  pub terminate : Bool
  pub status_code : ℕ
  pub retry_after : ℕ
  pub group : Text
  pub body : Body

-- `strings.Contains`
contains_text : Text → Text → Bool
contains_text part [] = text_eq part []
contains_text part (c ∷ s) = text_eq (take (length part) (c ∷ s)) part || contains_text part s

-- `refusalBody`
unfoldable pub refusal_body : Text → Refusal → Body
unfolding contains_text
refusal_body format kind =
    let normalized = to_lower (trim_space format) in
    let native =
      contains_text (codes "claude") normalized || contains_text (codes "anthropic") normalized in
    record {
      is_anthropic = native;
      error_type = if native then kind.anthropic_type else kind.openai_type;
      code = kind.openai_code;
    }

abbrev pub max_retry_after_seconds : ℕ
max_retry_after_seconds = 3600

-- `retryAfterSeconds`; the time left is rounded up to whole seconds.
unfoldable pub retry_after_seconds : Time → Time → ℕ
retry_after_seconds reset now =
    let seconds = (reset - now + (second - 1)) / second in
    if is_zero reset
    then 0
    else if not (before now reset)
    then 1
    else if ltb max_retry_after_seconds seconds
    then max_retry_after_seconds
    else seconds

abbrev refused : ℕ → ℕ → Text → Body → Response
refused status retry group body = record {
  terminate = true;
  status_code = status;
  retry_after = retry;
  group = group;
  body = body;
}

-- The empty response, which lets the request go on.
abbrev pub go_on : Response
go_on = record {
  terminate = false;
  status_code = 0;
  retry_after = 0;
  group = [];
  body = record { is_anthropic = false; error_type = ""; code = "" };
}

-- `quotaExhaustedError` and `modelForbiddenError`
abbrev quota_exhausted_error : Refusal
quota_exhausted_error = record {
  anthropic_type = "rate_limit_error";
  openai_type = "rate_limit_error";
  openai_code = "rate_limit_exceeded";
}

abbrev model_forbidden_error : Refusal
model_forbidden_error = record {
  anthropic_type = "permission_error";
  openai_type = "permission_error";
  openai_code = "insufficient_quota";
}

-- `routingConfigurationResponse`
abbrev pub routing_configuration_response : Text → Response
routing_configuration_response format = refused 503 0 [] (
    refusal_body format (record {
      anthropic_type = "api_error";
      openai_type = "server_error";
      openai_code = "routing_configuration_error";
    }))

-- `modelForbiddenResponse`, `concurrencyLimitResponse` and `quotaExhaustedResponse`
abbrev pub model_forbidden_response : Text → Response
model_forbidden_response format = refused 403 0 [] (refusal_body format model_forbidden_error)

abbrev pub concurrency_limit_response : Text → Response
concurrency_limit_response format = refused 429 1 [] (refusal_body format quota_exhausted_error)

unfoldable pub quota_exhausted_response : Text → Time → Time → Response
unfolding retry_after_seconds
quota_exhausted_response format retry_at now =
    refused 429 (retry_after_seconds retry_at now) [] (refusal_body format quota_exhausted_error)

-- `priceRefusal`
abbrev pub price_refusal : Text → String → Response
price_refusal format code = refused 503 0 [] (
    refusal_body format (record {
      anthropic_type = "cpa_key_billing_error";
      openai_type = "cpa_key_billing_error";
      openai_code = code;
    }))

abbrev code_text : Code → String
code_text no_code = ""
code_text accounting_unavailable = "accounting_unavailable"
code_text model_not_grouped = "model_not_grouped"
code_text group_disabled = "group_disabled"
code_text group_quota_exceeded = "group_quota_exceeded"
code_text group_concurrency_exceeded = "group_concurrency_exceeded"

-- `groupRefusal`, at the time that it reads.
unfoldable pub group_refusal : Text → GroupDecision → Time → Response
unfolding retry_after_seconds
group_refusal format d now = record (price_refusal format (code_text d.code)) {
  status_code = d.status;
  retry_after = elim d.retry_at [ none ↦ 0 | some t ↦ retry_after_seconds t now ];
  group = d.group_id;
}

-- A hint to retry lies between one second and an hour, and where it is less than an hour it is not
-- too early: the quota is reset by then.
pub retry_after_seconds-bounds :
    (reset now : Time)
    → is_zero reset ≡ false
    → let n = retry_after_seconds reset now in
      (1 ≤ n)
      × (n ≤ max_retry_after_seconds)
      × ((n == max_retry_after_seconds) || leb reset (now + n * second) ≡ true)
unfolding retry_after_seconds
retry_after_seconds-bounds reset now h = ground arith
