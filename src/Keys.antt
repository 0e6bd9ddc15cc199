-- ===== src/Keys.antt =====
-- internal/billing/keys.go and concurrency.go: the settings of one key.
pub mod Binding
pub mod Scopes
pub mod Reset
pub mod Sync
use cpa_plugin_group_billing.Prelude.{
  ◌≡◌, refl, Bool, true, false, not, ◌&&◌, ◌||◌, Option, none, some, [], ◌∷◌, if◌then◌else◌,
}
use cpa_plugin_group_billing.Prelude.Int64.{ℤ, pos, ltb_ℤ, eqb_ℤ}
use cpa_plugin_group_billing.Prelude.Table.{lookup, insert}
use cpa_plugin_group_billing.Prelude.Text.{Text, text_eq, is_empty, trim_space}
use cpa_plugin_group_billing.Errors.{
  Error, Result, ok, err, invalidf, not_foundf, refuse, ◌>>=◌, ◌>>◌,
}
use cpa_plugin_group_billing.GroupConfig.{Edit}
use cpa_plugin_group_billing.GroupConfig.Plans.{max_concurrency_limit}
use cpa_plugin_group_billing.State.{State, KeyState, live_key, find_plan, normalize_scope}
use cpa_plugin_group_billing.State.Changes.{Changes, no_changes}
use cpa_plugin_group_billing.Store.{Repository, Store, edit_configuration}

abbrev no_such_key : Error
no_such_key = not_foundf "API Key %q 不存在"

module _ {F : Type 0} where
  abbrev of_key : Text → Changes F
  of_key scope = let c : Changes F = no_changes in record c { keys = scope ∷ [] }

  -- A state with another key under a scope, and the change that names it.
  abbrev pub stored : State F → Text → KeyState F → Edit F (Unit {0})
  stored s scope key = ok (tt, record s { keys = insert scope key s.keys }, of_key scope)

  abbrev unchanged : State F → Edit F (Unit {0})
  unchanged s = ok (tt, s, no_changes)

  unfoldable pub limit_edit : Text → ℤ → State F → Edit F (Unit {0})
  limit_edit scope limit s = elim (live_key s scope) [
    | none ↦ err no_such_key
    | some key ↦
        if eqb_ℤ key.concurrency_limit limit
        then unchanged s
        else stored s scope (record key { concurrency_limit = limit })
  ]

  unfoldable pub bind_edit : Text → Text → State F → Edit F (Unit {0})
  bind_edit scope plan_id s = elim (find_plan s plan_id) [
    | none ↦ err (not_foundf "订阅计划 %q 不存在")
    | some plan ↦ elim (live_key s scope) [
      | none ↦ err no_such_key
      | some key ↦
          if text_eq key.plan_id plan.id
          then unchanged s
          else stored s scope (record key { cycles = []; plan_id = plan.id })
    ]
  ]

  unfoldable pub unbind_edit : Text → State F → Edit F (Unit {0})
  unbind_edit scope s = elim (live_key s scope) [
    | none ↦ unchanged s
    | some key ↦
        if is_empty key.plan_id
        then unchanged s
        else stored s scope (record key { plan_id = []; cycles = [] })
  ]

  unfoldable pub label_edit : Text → Text → State F → Edit F (Unit {0})
  label_edit scope label s = elim (lookup scope s.keys) [
    | none ↦ err no_such_key
    | some key ↦ stored s scope (record key { label = label })
  ]

abbrev no_scope : Error
no_scope = invalidf "API Key 标识不能为空"

module _ {F D : Type 0} ⦃repository : Repository F D⦄ where
  unfoldable pub checked :
      Store F D → Result (Unit {0}) → (State F → Edit F (Unit {0})) → Result (Unit {0}) × Store F D
  checked s (err e) fn = (err e, s)
  checked s (ok _) fn = edit_configuration s fn

  -- `SetConcurrencyLimit`
  unfoldable pub set_concurrency_limit : Store F D → Text → ℤ → Result (Unit {0}) × Store F D
  unfolding checked
  set_concurrency_limit s scope limit =
      let scope' = normalize_scope scope in
      checked s
        (refuse (is_empty scope') no_scope
          >> refuse (ltb_ℤ limit (pos 0) || ltb_ℤ max_concurrency_limit limit)
              (invalidf "并发限制必须为 0 到 %d 的整数"))
        (limit_edit scope' limit)

  -- `BindKey`
  unfoldable pub bind_key : Store F D → Text → Text → Result (Unit {0}) × Store F D
  unfolding checked
  bind_key s scope plan_id =
      let scope' = normalize_scope scope in
      let plan_id' = trim_space plan_id in
      checked s (refuse (is_empty scope' || is_empty plan_id') (invalidf "API Key 标识和订阅计划 ID 不能为空"))
        (bind_edit scope' plan_id')

  -- `UnbindKey`
  unfoldable pub unbind_key : Store F D → Text → Result (Unit {0}) × Store F D
  unfolding checked
  unbind_key s scope =
      let scope' = normalize_scope scope in
      checked s (refuse (is_empty scope') no_scope) (unbind_edit scope')

  -- `SetLabel`
  unfoldable pub set_label : Store F D → Text → Text → Result (Unit {0}) × Store F D
  unfolding checked
  set_label s scope label =
      let scope' = normalize_scope scope in
      checked s (refuse (is_empty scope') no_scope) (label_edit scope' (trim_space label))
