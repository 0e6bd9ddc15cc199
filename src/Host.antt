-- ===== src/Host.antt =====
-- internal/plugin: app.go, types.go and intercept.go, metadataString: the state of the plugin between
-- two calls of the host, and the values that the host sends along with a request.
pub mod Credentials
pub mod Picks
pub mod Responses
pub mod Intercept
pub mod Held
pub mod Refusals
pub mod Completion
pub mod Race
use cpa_plugin_group_billing.Prelude.{
  ℕ, ◌≡◌, refl, Bool, true, false, Option, none, some, [], if◌then◌else◌,
}
use cpa_plugin_group_billing.Prelude.Table.{Table, lookup}
use cpa_plugin_group_billing.Prelude.Text.{Text, codes, text_eq, trim_space}
use cpa_plugin_group_billing.Scheduler.{Scheduler}
use cpa_plugin_group_billing.Store.{Store}

-- A value of the metadata. `other` holds what `fmt.Sprint` prints of a value of another type.
pub data Value : Type 0 where
  null : Value
  string : Text → Value
  boolean : Bool → Value
  other : Text → Value

abbrev printed : Value → Text
printed null = []
printed (string t) = trim_space t
printed (boolean true) = codes "true"
printed (boolean false) = codes "false"
printed (other t) = trim_space t

-- `metadataString`
unfoldable pub metadata_string : Table Value → Text → Text
metadata_string metadata key = elim (lookup key metadata) [ none ↦ [] | some v ↦ printed v ]

abbrev pub caller_scope : Text
caller_scope = codes "caller_scope"

abbrev pub generate_key : Text
generate_key = codes "generate"

abbrev pub source_key : Text
source_key = codes "source"

abbrev pub requested_model_key : Text
requested_model_key = codes "requested_model"

abbrev pub host_model_callback : Text
host_model_callback = codes "plugin_host_model_callback"

-- Nested executions that a plugin initiates.
unfoldable pub is_helper : Table Value → Bool
is_helper metadata = text_eq (metadata_string metadata source_key) host_model_callback

-- `requestAdmission`
pub record RequestAdmission : Type 0 where
  pub calls : ℕ
  pub completed : Bool

-- `credentialView`
pub record CredentialView : Type 0 where
  pub ref : Text
  pub source : Text
  pub provider : Text
  pub display_name : Text
  pub status : Text
  pub disabled : Bool
  pub unavailable : Bool

-- `App`, without the client of the shared label service, the host's callbacks and the route logs.
pub record App (F D : Type 0) : Type 0 where
  pub store : Store F D
  pub admissions : Table RequestAdmission
  pub credentials : Table CredentialView
  pub credentials_by_raw_id : Table Text
  pub scheduler : Scheduler
