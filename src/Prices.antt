-- ===== src/Prices.antt =====
-- internal/billing/prices.go: the custom prices, and the model that a request is billed as.
pub mod Resolution
pub mod Edits
use cpa_plugin_group_billing.Prelude.{Option, none, some, if◌then◌else◌}
use cpa_plugin_group_billing.Prelude.Table.{lookup}
use cpa_plugin_group_billing.Prelude.Text.{Text, codes, is_empty, trim_space, equal_fold}
use cpa_plugin_group_billing.Models.{model_without_thinking_suffix, normalize_model_id}
use cpa_plugin_group_billing.State.{State, CustomPrice}

module _ {F : Type 0} where
  -- The custom price that is stored for a name, if there is one.
  abbrev pub custom_price : State F → Text → Option (CustomPrice F)
  custom_price s model = lookup (normalize_model_id model) s.prices

  -- `ResolveBillingModel`
  unfoldable pub resolve_billing_model : State F → Text → Text → Text
  resolve_billing_model s upstream route_model =
      let upstream' = model_without_thinking_suffix upstream in
      let route' = trim_space route_model in
      let base = model_without_thinking_suffix route' in
      if is_empty route'
      then upstream'
      else if equal_fold base (codes "auto")
      then upstream'
      else elim (custom_price s route') [
        | some price ↦ price.model_id
        | none ↦ elim (custom_price s base) [
          | some price ↦ price.model_id
          | none ↦ if equal_fold base upstream' then upstream' else base
        ]
      ]
