-- ===== src/GroupConfig/Reset.antt =====
-- internal/billing/group_config.go: the day ledger of a group is reset for a key, and the labels of an
-- instance are replaced.
pub mod Ledger
use cpa_plugin_group_billing.Prelude.{
  ℕ, ◌≡◌, refl, Bool, true, false, not, ◌&&◌, ◌||◌, Option, none, some, List, [], ◌∷◌, ◌++◌,
  if◌then◌else◌,
}
use cpa_plugin_group_billing.Prelude.Int64.{ℤ, pos}
use cpa_plugin_group_billing.Prelude.Table.{Table, lookup, insert}
use cpa_plugin_group_billing.Prelude.Text.{Text, text_eq}
use cpa_plugin_group_billing.Accounting.{open_day}
use cpa_plugin_group_billing.Calendar.{Time, group_date}
use cpa_plugin_group_billing.Errors.{
  Error, Result, ok, err, not_foundf, conflictf, refuse, ◌>>=◌, ◌>>◌,
}
use cpa_plugin_group_billing.GroupConfig.{Clock, Edit, group_audit, group_reason}
use cpa_plugin_group_billing.GroupConfig.Schedule.{has_live_key}
use cpa_plugin_group_billing.Groups.{
  GroupState, GroupDay, SharedLabel, label_key, day_key, binding, policy,
}
use cpa_plugin_group_billing.Identity.{is_key_of}
use cpa_plugin_group_billing.State.{State}
use cpa_plugin_group_billing.State.Changes.{Changes, no_changes, GroupAudit, a_day, reset}
use cpa_plugin_group_billing.Store.{Repository, Store, edit_configuration}

-- The ledger after a reset: all that was spent is credited.
unfoldable pub reset_day : GroupDay → Time → GroupDay
reset_day d now = record d { credit = d.raw; reset_cutoff = some now; updated_at = now }

-- The plan of the binding allows the group. A grouped binding always has a plan: the code, which reads it
-- unchecked, would panic on one that has none.
unfoldable pub has_policy : GroupState → Option Text → Text → Bool
has_policy g none group_id = false
has_policy g (some plan_id) group_id = elim (policy g plan_id group_id) [
  | none ↦ false
  | some p ↦ true
]

delete_labels : Text → Table SharedLabel → Table SharedLabel
delete_labels instance_id [] = []
delete_labels instance_id ((k, l) ∷ m) =
    let rest = delete_labels instance_id m in
    if text_eq l.instance_id instance_id then rest else (k, l) ∷ rest

insert_labels : List SharedLabel → Table SharedLabel → Table SharedLabel
insert_labels [] m = m
insert_labels (l ∷ ls) m = insert_labels ls (insert (label_key l) l m)

module _ {F : Type 0} where
  reset_changes : Text → GroupAudit → Changes F
  reset_changes key audit =
      let c : Changes F = no_changes in
      record c { group_days = key ∷ []; group_audits = audit ∷ [] }

  unfoldable pub reset_edit : Time → Text → Text → Text → State F → Edit F (Unit {0})
  unfolding reset_changes
  reset_edit now scope group_id reason s =
      let g = s.grouped in
      let date = group_date now in
      let key = day_key scope group_id date in
      let old = open_day g scope group_id date in
      let object_id = scope ++ b'/' ∷ (group_id ++ b'/' ∷ old.date) in
      let d = reset_day old now in
      refuse (not (has_live_key s scope)) (not_foundf "API Key 不存在")
      >> refuse (not (is_key_of g.groups group_id)) (not_foundf "资源组不存在")
      >> elim (binding g scope now) [
        | none ↦ err (conflictf "Key 尚未处于分组模式")
        | some b ↦
            refuse (not (has_policy g b.plan_id group_id) && not (is_key_of g.days key))
              (not_foundf "Key 没有该组政策或用量")
            >> ok (
              tt,
              record s { grouped = record g { days = insert key d g.days } },
              reset_changes key (group_audit now reset object_id reason (a_day old) (a_day d)),
            )
      ]

  unfoldable pub labels_edit : Text → List SharedLabel → State F → Edit F (Unit {0})
  unfolding delete_labels insert_labels
  labels_edit instance_id labels s =
      let g = s.grouped in
      let c : Changes F = no_changes in
      ok (
        tt,
        record s {
          grouped = record g { labels = insert_labels labels (delete_labels instance_id g.labels) };
        },
        record c { group_labels = true },
      )

module _ {F D : Type 0} ⦃repository : Repository F D⦄ where
  -- `ResetGroupDay`
  unfoldable pub reset_group_day :
      Time → Store F D → Text → Text → Text → Result (Unit {0}) × Store F D
  reset_group_day now s scope group_id reason = elim (group_reason reason) [
    | err e ↦ (err e, s)
    | ok _ ↦ edit_configuration s (reset_edit now scope group_id reason)
  ]

  -- `CacheSharedLabels`
  unfoldable pub cache_shared_labels :
      Store F D → Text → List SharedLabel → Result (Unit {0}) × Store F D
  cache_shared_labels s instance_id labels = edit_configuration s (labels_edit instance_id labels)
