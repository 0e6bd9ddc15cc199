-- ===== src/GroupConfig/Plans.antt =====
-- internal/billing/group_config.go: group plans are checked and saved.
use cpa_plugin_group_billing.Prelude.{
  Bool, true, false, not, ◌&&◌, ◌||◌, Option, none, some, List, [], ◌∷◌, if◌then◌else◌,
}
use cpa_plugin_group_billing.Prelude.Int64.{ℤ, pos, add64, leb_ℤ, ltb_ℤ}
use cpa_plugin_group_billing.Prelude.Table.{lookup, insert}
use cpa_plugin_group_billing.Prelude.Text.{Text, codes, is_empty, trim_space, contains}
use cpa_plugin_group_billing.Errors.{Result, ok, err, invalidf, not_foundf, refuse, ◌>>◌}
use cpa_plugin_group_billing.GroupConfig.{
  Clock, Edit, valid_group_text, group_audit, grouped_changes, group_revision, group_reason,
}
use cpa_plugin_group_billing.Groups.{GroupState, GroupPolicy, GroupPlan, Status, published}
use cpa_plugin_group_billing.Identity.{new_id}
use cpa_plugin_group_billing.State.{State}
use cpa_plugin_group_billing.State.Changes.{nothing, a_plan, create, update}
use cpa_plugin_group_billing.Store.{Repository, Store, edit_configuration}

abbrev pub max_concurrency_limit : ℤ
max_concurrency_limit = pos 10_000

abbrev is_published : Status → Bool
is_published published = true
is_published _ = false

-- The group is there and published.
unfoldable pub has_published : GroupState → Text → Bool
has_published g id = elim (lookup id g.groups) [
  | none ↦ false
  | some group ↦ is_published group.status
]

abbrev is_positive : Option ℤ → Bool
is_positive none = true
is_positive (some limit) = ltb_ℤ (pos 0) limit

abbrev is_in_range : Option ℤ → Bool
is_in_range none = true
is_in_range (some limit) = leb_ℤ (pos 1) limit && leb_ℤ limit max_concurrency_limit

-- The loop of `validateGroupPlan` over the policies, with the groups seen so far.
unfoldable pub check_policies : GroupState → List Text → List GroupPolicy → Result (Unit {0})
check_policies g seen [] = ok tt
check_policies g seen (p ∷ ps) =
    let rest = check_policies g (p.group_id ∷ seen) ps in
    refuse (not (has_published g p.group_id)) (invalidf "组 %q 尚未发布或已归档")
    >> refuse (contains p.group_id seen) (invalidf "同一组不能重复配置")
    >> refuse (not (is_positive p.daily_limit)) (invalidf "日金额必须大于零；null 表示不限")
    >> refuse (not (is_in_range p.concurrency_limit)) (invalidf "并发必须为 1–10000 或 null")
    >> rest

-- `validateGroupPlan`
unfoldable pub validate_group_plan : GroupState → GroupPlan → Result (Unit {0})
validate_group_plan g plan =
    refuse (not (valid_group_text plan.name 80 false) || is_empty plan.policies)
      (invalidf "请输入计划名称及至少一组政策")
    >> check_policies g [] plan.policies

module _ {F : Type 0} where
  abbrev pub put_plan : State F → GroupPlan → State F
  put_plan s plan =
      let g = s.grouped in record s { grouped = record g { plans = insert plan.id plan g.plans } }

  create_plan : Clock → GroupPlan → Text → State F → Edit F GroupPlan
  create_plan clock plan reason s =
      let plan' = record plan {
        id = new_id s.grouped.plans plan.name (codes "group-plan");
        revision = pos 1;
        created_at = clock 0;
        updated_at = clock 1;
        bound_key_count = 0;
      } in
      ok (
        plan',
        put_plan s plan',
        grouped_changes (group_audit (clock 2) create plan'.id reason nothing (a_plan plan')),
      )

  update_plan : Clock → GroupPlan → ℤ → Text → State F → GroupPlan → Edit F GroupPlan
  update_plan clock plan expected reason s previous =
      let plan' = record plan {
        revision = add64 previous.revision (pos 1);
        created_at = previous.created_at;
        updated_at = clock 0;
        bound_key_count = 0;
      } in
      group_revision previous.revision expected
      >> ok (
        plan',
        put_plan s plan',
        grouped_changes
            (group_audit (clock 1) update plan.id reason (a_plan previous) (a_plan plan')),
      )

  unfoldable pub save_plan_edit : Clock → GroupPlan → ℤ → Text → State F → Edit F GroupPlan
  unfolding create_plan update_plan
  save_plan_edit clock input expected reason s =
      let plan = record input { name = trim_space input.name } in
      validate_group_plan s.grouped plan
      >> (if is_empty plan.id
          then create_plan clock plan reason s
          else elim (lookup plan.id s.grouped.plans) [
            | none ↦ err (not_foundf "分组计划不存在")
            | some previous ↦ update_plan clock plan expected reason s previous
          ])

-- A new plan needs no reason.
plan_reason : GroupPlan → Text → Result (Unit {0})
plan_reason plan reason = if is_empty plan.id then ok tt else group_reason reason

module _ {F D : Type 0} ⦃repository : Repository F D⦄ where
  -- `SaveGroupPlan`
  unfoldable pub save_group_plan :
      Clock → Store F D → GroupPlan → ℤ → Text → Result GroupPlan × Store F D
  unfolding plan_reason
  save_group_plan clock s plan expected reason = elim (plan_reason plan reason) [
    | err e ↦ (err e, s)
    | ok _ ↦ edit_configuration s (save_plan_edit clock plan expected reason)
  ]
