-- ===== src/Models.antt =====
-- internal/billing/prices.go: model names, and the owner of a requested model.
use mathlib.Core.List.{reverse}
use cpa_plugin_group_billing.Prelude.{
  ◌≡◌, refl, true, false, Option, none, some, [], ◌∷◌, ◌==◌, if◌then◌else◌,
}
use cpa_plugin_group_billing.Prelude.Text.{Text, codes, trim_space, to_lower}
use cpa_plugin_group_billing.Calendar.{Time}
use cpa_plugin_group_billing.Groups.{GroupState, ResourceGroup, model_owner}

-- What stands before the last `(` of a text that is read from its end.
before_open : Text → Option Text
before_open [] = none
before_open (c ∷ s) = elim (c == b'(') [ true ↦ some (reverse s) | false ↦ before_open s ]

-- The text before its last `(`, if the text ends in `)`.
strip_option : Text → Option Text
strip_option [] = none
strip_option (c ∷ s) = if c == b')' then before_open s else none

-- `ModelWithoutThinkingSuffix`
unfoldable pub model_without_thinking_suffix : Text → Text
unfolding strip_option before_open trim_space
model_without_thinking_suffix model =
    let m = trim_space model in
    elim (strip_option (reverse m)) [ none ↦ m | some base ↦ trim_space base ]

-- `NormalizeModelID`
unfoldable pub normalize_model_id : Text → Text
normalize_model_id id = to_lower (trim_space id)

-- `GroupState.requestModelOwner`: the exact name first, then the name without a request option.
unfoldable pub request_model_owner : GroupState → Text → Time → Option ResourceGroup
request_model_owner g model at = elim (model_owner g model at) [
  | some owner ↦ some owner
  | none ↦ model_owner g (model_without_thinking_suffix model) at
]

suffixes :
    (model_without_thinking_suffix (codes " gpt-5(high) ") ≡ codes "gpt-5")
    × (model_without_thinking_suffix (codes "a(b)c") ≡ codes "a(b)c")
    × (model_without_thinking_suffix (codes "a(b) (c)") ≡ codes "a(b)")
unfolding model_without_thinking_suffix
suffixes = (refl, refl, refl)
