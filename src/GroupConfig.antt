-- ===== src/GroupConfig.antt =====
-- internal/billing/group_config.go and validGroupText of group_types.go: the checks that the edits of
-- the grouped configuration share. The children hold the edits, one file for each kind of object.
pub mod Lifecycle
pub mod Plans
pub mod Schedule
pub mod Reset
use cpa_plugin_group_billing.Prelude.{
  ℕ, zero, suc, ◌+◌, ◌≡◌, refl, Bool, true, false, not, ◌&&◌, ◌||◌, Option, none, some, List, [],
  ◌∷◌, any, ltb, leb, ◌==◌, length, if◌then◌else◌,
}
use cpa_plugin_group_billing.Prelude.Int64.{ℤ, eqb_ℤ}
use cpa_plugin_group_billing.Prelude.Table.{Table, lookup}
use cpa_plugin_group_billing.Prelude.Text.{Text, codes, is_empty, trim_space}
use cpa_plugin_group_billing.Calendar.{Time}
use cpa_plugin_group_billing.Errors.{
  Error, Result, ok, err, invalidf, conflictf, refuse, ◌>>=◌, ◌>>◌,
}
use cpa_plugin_group_billing.Groups.{GroupPool, ResourceGroup, normalize_pool, GroupState}
use cpa_plugin_group_billing.Routing.{normalize_route_strings}
use cpa_plugin_group_billing.State.{State}
use cpa_plugin_group_billing.State.Changes.{Changes, no_changes, GroupAudit, Snapshot, Action}

-- The successive readings of `Store.Now` in one edit.
abbrev pub Clock : Type 0
Clock = ℕ → Time

-- What the function that `editConfiguration` runs returns.
abbrev pub Edit : Type 0 → Type 0 → Type 0
Edit F T = Result (T × State F × Changes F)

-- `unicode.IsControl`
is_control : ℕ → Bool
is_control c = ltb c 0x20 || (leb 0x7f c && leb c 0x9f)

-- `validGroupText`
unfoldable pub valid_group_text : Text → ℕ → Bool → Bool
unfolding is_control
valid_group_text value max_runes empty =
    not ((not empty && is_empty (trim_space value)) || ltb max_runes (length value))
    && not (any is_control value)

-- `normalizeGroup`
unfoldable pub normalize_group : ResourceGroup → Result ResourceGroup
normalize_group group =
    let name = trim_space group.name in
    refuse
      (not (valid_group_text name 80 false) || not (valid_group_text group.description 1000 true))
      (invalidf "组名或描述格式错误")
    >> normalize_route_strings group.models
    >>= λ models.
        refuse (is_empty models || not (length models == length group.models))
          (invalidf "至少选择一个模型，且组内不能重复")
        >> normalize_pool group.pool
        >>= λ pool. ok (record group { name = name; models = models; pool = pool })

-- `groupAudit`
abbrev pub group_audit : Time → Action → Text → Text → Snapshot → Snapshot → GroupAudit
group_audit at action id reason before_value after_value = record {
  at = at;
  action = action;
  object_id = id;
  before_value = before_value;
  after_value = after_value;
  reason = reason;
}

-- The changes of an edit of the grouped configuration.
abbrev pub grouped_changes : {F : Type 0} → GroupAudit → Changes F
grouped_changes {F} audit =
    let c : Changes F = no_changes in record c { grouped_config = true; group_audits = audit ∷ [] }

-- `groupRevision`
abbrev pub group_revision : ℤ → ℤ → Result (Unit {0})
group_revision actual expected =
    refuse (not (eqb_ℤ actual expected)) (conflictf "revision_conflict: 数据已修改，请刷新后重试")

-- `groupReason`
abbrev pub group_reason : Text → Result (Unit {0})
group_reason reason =
    refuse (not (valid_group_text reason 500 false)) (invalidf "必须填写不超过 500 字的修改理由")
