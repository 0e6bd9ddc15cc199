-- ===== src/Keys/Reset.antt =====
-- internal/billing/keys.go, ResetQuota: the running cycles of keys are dropped.
use cpa_plugin_group_billing.Prelude.{
  ℕ, ◌+◌, Bool, false, not, ◌&&◌, none, some, List, [], ◌∷◌, length, if◌then◌else◌,
}
use cpa_plugin_group_billing.Prelude.Table.{Table, lookup, insert}
use cpa_plugin_group_billing.Prelude.Text.{Text, codes, text_eq, is_empty}
use cpa_plugin_group_billing.Calendar.{is_zero}
use cpa_plugin_group_billing.Errors.{Result, ok, err, invalidf, refuse, ◌>>◌}
use cpa_plugin_group_billing.GroupConfig.{Edit}
use cpa_plugin_group_billing.Keys.Scopes.{normalize_scopes}
use cpa_plugin_group_billing.State.{State, KeyState, live_key}
use cpa_plugin_group_billing.State.Changes.{Changes, no_changes}
use cpa_plugin_group_billing.Store.{Repository, Store, edit_configuration}

pub record ResetRequest : Type 0 where
  pub mode : Text
  pub scopes : List Text

pub record ResetResult : Type 0 where
  pub keys : ℕ
  pub windows : ℕ

-- The checks of a request whose scopes are normalised.
unfoldable pub check_reset : ResetRequest → Result (Unit {0})
check_reset req =
    if text_eq req.mode (codes "global")
    then refuse (not (is_empty req.scopes)) (invalidf "全员重置不接受指定 Key")
    else if text_eq req.mode (codes "all")
    then refuse (is_empty req.scopes) (invalidf "请选择需要重置的 API Key")
    else err (invalidf "额度重置方式无效")

module _ {F : Type 0} where
  -- The live keys that are on a plan.
  unfoldable pub bound_scopes : Table (KeyState F) → List Text
  bound_scopes [] = []
  bound_scopes ((scope, key) ∷ keys) =
      let rest = bound_scopes keys in
      if is_zero key.deleted_at && not (is_empty key.plan_id) then scope ∷ rest else rest

  abbrev pub is_resettable : State F → Text → Bool
  is_resettable s scope = elim (live_key s scope) [
    | none ↦ false
    | some key ↦ not (is_empty key.plan_id)
  ]

  -- The loop that checks the keys.
  unfoldable pub all_resettable : State F → List Text → Result (Unit {0})
  all_resettable s [] = ok tt
  all_resettable s (scope ∷ rest) =
      refuse (not (is_resettable s scope)) (invalidf "API Key 不存在或未绑定计划") >> all_resettable s rest

  -- The loop that drops the cycles: the keys, the scopes of those that had cycles, and the counts.
  unfoldable pub drop_cycles :
      List Text → Table (KeyState F) → Table (KeyState F) × List Text × ResetResult
  drop_cycles [] keys = (keys, [], record { keys = 0; windows = 0 })
  drop_cycles (scope ∷ rest) keys = elim (lookup scope keys) [
    | none ↦ drop_cycles rest keys
    | some key ↦
        let (keys', changed, out) =
          drop_cycles rest (insert scope (record key { cycles = [] }) keys) in
        if is_empty key.cycles then (keys', changed, out) else (
          keys',
          scope ∷ changed,
          record { keys = out.keys + 1; windows = out.windows + length key.cycles },
        )
  ]

  -- The function that `ResetQuota` hands to `editConfiguration`.
  unfoldable pub reset_quota_edit : ResetRequest → State F → Edit F ResetResult
  unfolding all_resettable
  reset_quota_edit req s =
      let scopes = if text_eq req.mode (codes "global") then bound_scopes s.keys else req.scopes in
      let (keys, changed, out) = drop_cycles scopes s.keys in
      let c : Changes F = no_changes in
      all_resettable s scopes >> ok (out, record s { keys = keys }, record c { keys = changed })

module _ {F D : Type 0} ⦃repository : Repository F D⦄ where
  -- `ResetQuota`
  unfoldable pub reset_quota : Store F D → ResetRequest → Result ResetResult × Store F D
  reset_quota s req =
      let req' : ResetRequest = record req { scopes = normalize_scopes req.scopes } in
      elim (check_reset req') [
        | err e ↦ (err e, s)
        | ok u ↦ edit_configuration s (reset_quota_edit req')
      ]
