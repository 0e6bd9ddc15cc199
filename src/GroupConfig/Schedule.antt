-- ===== src/GroupConfig/Schedule.antt =====
-- internal/billing/group_config.go: a key is scheduled for another billing mode from the next civil
-- day on.
pub mod Timeline
use cpa_plugin_group_billing.Prelude.{
  ℕ, ◌+◌, ◌≡◌, refl, Bool, true, false, not, ◌&&◌, ◌||◌, Option, none, some, List, [], ◌∷◌, ◌++◌,
  if◌then◌else◌,
}
use cpa_plugin_group_billing.Prelude.Int64.{ℤ, pos, add64}
use cpa_plugin_group_billing.Prelude.Table.{lookup, insert}
use cpa_plugin_group_billing.Prelude.Text.{Text}
use cpa_plugin_group_billing.Calendar.{Time, before, next_group_day}
use cpa_plugin_group_billing.Errors.{
  Error, Result, ok, err, invalidf, not_foundf, refuse, ◌>>=◌, ◌>>◌,
}
use cpa_plugin_group_billing.GroupConfig.{
  Edit, group_audit, grouped_changes, group_revision, group_reason,
}
use cpa_plugin_group_billing.Groups.{
  GroupState, Mode, legacy, grouped, unknown, Period, KeyBinding, binding_of, not_ended,
}
use cpa_plugin_group_billing.Identity.{is_key_of}
use cpa_plugin_group_billing.State.{State, live_key}
use cpa_plugin_group_billing.State.Changes.{Changes, GroupAudit, a_binding, schedule}
use cpa_plugin_group_billing.Store.{Repository, Store, edit_configuration}

-- `GroupBindingView`
pub record BindingView : Type 0 where
  pub scope : Text
  pub revision : ℤ
  pub active : Option Period
  pub pending : Option Period

-- The loop of `bindingView` over the periods.
unfoldable pub view_loop : List Period → Time → BindingView → BindingView
view_loop [] now view = view
view_loop (p ∷ ps) now view =
    let future = view_loop ps now (record view { pending = some p }) in
    let current = view_loop ps now (record view { active = some p }) in
    let past = view_loop ps now view in
    if before now p.effective_from
    then future
    else if not_ended p.effective_to now
    then current
    else past

-- `bindingView`
unfoldable pub binding_view : KeyBinding → Time → BindingView
binding_view b now =
    view_loop b.periods now
      (record { scope = b.scope; revision = b.revision; active = none; pending = none })

-- A period that ends at the boundary at the latest.
unfoldable pub ended_by : Period → Time → Period
ended_by p boundary = elim p.effective_to [
  | none ↦ record p { effective_to = some boundary }
  | some end ↦ if before boundary end then record p { effective_to = some boundary } else p
]

-- The periods that have begun, ended by the boundary; the ones still to begin are dropped.
unfoldable pub kept_periods : List Period → Time → Time → List Period
kept_periods [] now boundary = []
kept_periods (p ∷ ps) now boundary =
    let rest = kept_periods ps now boundary in
    if before now p.effective_from then rest else ended_by p boundary ∷ rest

abbrev pub next_period : Mode → Option Text → Time → Period
next_period mode plan_id boundary = record {
  mode = mode;
  plan_id = plan_id;
  effective_from = boundary;
  effective_to = none;
}

-- The binding that is stored.
unfoldable pub rescheduled : KeyBinding → Text → Mode → Option Text → Time → KeyBinding
rescheduled b scope mode plan_id now =
    let boundary = next_group_day now in
    record b {
      scope = scope;
      revision = add64 b.revision (pos 1);
      periods = kept_periods b.periods now boundary ++ next_period mode plan_id boundary ∷ [];
    }

-- A legacy key has no plan and a grouped one has one.
unfoldable pub is_consistent : Mode → Option Text → Bool
is_consistent legacy none = true
is_consistent grouped (some id) = true
is_consistent _ _ = false

unfoldable pub plan_exists : GroupState → Option Text → Bool
plan_exists g none = true
plan_exists g (some id) = is_key_of g.plans id

module _ {F : Type 0} where
  abbrev pub has_live_key : State F → Text → Bool
  has_live_key s scope = elim (live_key s scope) [ none ↦ false | some k ↦ true ]

  unfoldable pub schedule_edit :
      Time → Text → Mode → Option Text → ℤ → Text → State F → Edit F BindingView
  schedule_edit now scope mode plan_id expected reason s =
      let g = s.grouped in
      let old = binding_of g scope in
      let b = rescheduled old scope mode plan_id now in
      refuse (not (has_live_key s scope)) (not_foundf "API Key 不存在，请先同步")
      >> refuse (not (plan_exists g plan_id)) (not_foundf "分组计划不存在")
      >> group_revision old.revision expected
      >> ok (
        binding_view b now,
        record s { grouped = record g { bindings = insert scope b g.bindings } },
        grouped_changes (group_audit now schedule scope reason (a_binding old) (a_binding b)),
      )

module _ {F D : Type 0} ⦃repository : Repository F D⦄ where
  -- `ScheduleGroupBinding`
  unfoldable pub schedule_group_binding :
      Time → Store F D → Text → Mode → Option Text → ℤ → Text → Result BindingView × Store F D
  schedule_group_binding now s scope mode plan_id expected reason =
      elim (group_reason reason
        >> refuse (not (is_consistent mode plan_id)) (invalidf "模式和 plan_id 不匹配")) [
          | err e ↦ (err e, s)
          | ok _ ↦ edit_configuration s (schedule_edit now scope mode plan_id expected reason)
        ]
