-- ===== src/Examples/Config.antt =====
-- The theorems on the edits of the grouped configuration, at the example state.
use cpa_plugin_group_billing.Prelude.{
  ◌+◌, ◌≡◌, refl, sym, ◌∙◌, any, true, false, none, some, [], ◌∷◌, arith, if◌then◌else◌,
}
use cpa_plugin_group_billing.Prelude.Int64.{pos, add64}
use cpa_plugin_group_billing.Prelude.Table.{lookup}
use cpa_plugin_group_billing.Prelude.Text.{
  Text, codes, text_eq, text_eq_iff, to_lower, trim_space, byte_length, contains,
}
use cpa_plugin_group_billing.Accounting.{open_day}
use cpa_plugin_group_billing.Accounting.Charge.{HasSoundDays}
use cpa_plugin_group_billing.Calendar.{Time, before, local_day, next_group_day, group_date}
use cpa_plugin_group_billing.Errors.{ok, err, conflictf}
use cpa_plugin_group_billing.Examples.{
  scope_k, id_g, new_year, group_g, draft_d, groups_k, state_k, period_p,
}
use cpa_plugin_group_billing.Float.{Nanos}
use cpa_plugin_group_billing.GroupConfig.{Clock, Edit, normalize_group, valid_group_text}
use cpa_plugin_group_billing.GroupConfig.Lifecycle.{
  GroupPatch, create_edit, update_edit, publish_edit, change_status, check_owners, patched,
}
use cpa_plugin_group_billing.GroupConfig.Lifecycle.Ownership.{
  IsExclusive, IsPast, publish_edit-IsExclusive, create_edit-IsExclusive,
}
use cpa_plugin_group_billing.GroupConfig.Lifecycle.Revision.{publish_edit_supersedes}
use cpa_plugin_group_billing.GroupConfig.Lifecycle.Updates.{IsNormal, update_edit-IsExclusive}
use cpa_plugin_group_billing.GroupConfig.Reset.{reset_edit, has_policy}
use cpa_plugin_group_billing.GroupConfig.Reset.Ledger.{reset_edit-HasSoundDays}
use cpa_plugin_group_billing.GroupConfig.Schedule.{BindingView, schedule_edit, plan_exists}
use cpa_plugin_group_billing.GroupConfig.Schedule.Timeline.{
  HasDayStarts, terms, schedule_edit-terms,
}
use cpa_plugin_group_billing.Groups.{
  ResourceGroup, legacy, binding_of, find_period, group_model, model_owner, owns, binding, day_key,
  normalize_pool, rule, policy,
}
use cpa_plugin_group_billing.Routing.{
  normalize_route_strings, normalize_rule, normalize_selection, normalize_credential_ids,
  normalize_providers,
}
use cpa_plugin_group_billing.State.{State, live_key}
use cpa_plugin_group_billing.State.Changes.{Changes, no_changes}

-- What an edit returns, the state it leaves and the changes it names.
abbrev outcome : {T : Type 0} → Edit Nanos T → T → T × State Nanos × Changes Nanos
outcome (ok r) t = r
outcome (err e) t = (t, state_k, no_changes)

abbrev clock : Clock
clock n = new_year + n

abbrev why : Text
why = codes "why"

abbrev no_view : BindingView
no_view = record { scope = []; revision = pos 0; active = none; pending = none }

abbrev to_legacy : Edit Nanos BindingView
to_legacy = schedule_edit new_year scope_k legacy none (pos 1) why state_k

abbrev scheduled : BindingView × State Nanos × Changes Nanos
unfolding schedule_edit live_key lookup text_eq
scheduled = outcome to_legacy no_view

schedules : to_legacy ≡ ok scheduled
unfolding schedule_edit live_key lookup text_eq plan_exists
schedules = refl

starts : HasDayStarts (period_p ∷ [])
unfolding next_group_day local_day
starts = ((0, refl), tt)

schedule_edit-terms_example :
    let old = period_p ∷ [] in
    let new = (binding_of scheduled.1.grouped scope_k).periods in
    HasDayStarts new
    × (terms (find_period new new_year) ≡ (
        if before new_year (next_group_day new_year)
        then terms (find_period old new_year)
        else some (legacy, none)))
unfolding lookup text_eq
schedule_edit-terms_example =
    schedule_edit-terms new_year new_year scope_k legacy none (pos 1) why state_k scheduled.1
      scheduled.0 scheduled.2 starts schedules

abbrev of_draft : Edit Nanos ResourceGroup
of_draft = publish_edit clock (codes "d") (pos 2) why false state_k

abbrev opened : ResourceGroup × State Nanos × Changes Nanos
opened = outcome of_draft draft_d

publishes : of_draft ≡ ok opened
unfolding publish_edit lookup text_eq change_status check_owners model_owner group_model to_lower
    trim_space owns any
publishes = refl

-- Only one group is published.
only_g :
    (i : Text) (a : ResourceGroup) (key : Text) (at : Time)
    → lookup i groups_k.groups ≡ some a
    → owns a key at ≡ true
    → i ≡ id_g
unfolding lookup owns
only_g i a key at l o = ground (arith, text_eq_iff id_g i)

exclusive : IsExclusive groups_k
exclusive i j a b key at la lb k oa ob = only_g i a key at la oa ∙ sym (only_g j b key at lb ob)

past : IsPast groups_k clock
unfolding lookup
past n i a t l e = ground arith

publish_edit-IsExclusive_example : IsExclusive opened.1.grouped
publish_edit-IsExclusive_example =
    publish_edit-IsExclusive clock (codes "d") (pos 2) why false state_k opened.1 opened.0 opened.2
      exclusive past publishes

abbrev of_new : Edit Nanos ResourceGroup
of_new = create_edit clock draft_d state_k

abbrev created : ResourceGroup × State Nanos × Changes Nanos
created = outcome of_new draft_d

creates : of_new ≡ ok created
unfolding create_edit
creates = refl

create_edit-IsExclusive_example :
    (lookup created.0.id groups_k.groups ≡ none)
    × (lookup created.0.id created.1.grouped.groups ≡ some created.0)
    × IsExclusive created.1.grouped
create_edit-IsExclusive_example =
    create_edit-IsExclusive clock draft_d created.0 state_k created.1 created.2 exclusive
      (omega arith) creates

abbrev stale : GroupPatch
stale = record {
  group_id = codes "d";
  expected_revision = pos 2;
  name = none;
  description = none;
  enabled = some false;
  models = none;
  pool = none;
  reason = why;
}

publish_edit_supersedes_example :
    (opened.0.revision ≡ add64 (pos 2) (pos 1))
    × (lookup (codes "d") opened.1.grouped.groups ≡ some opened.0)
    × (update_edit clock stale opened.1 ≡ err (conflictf "revision_conflict: 数据已修改，请刷新后重试"))
    × (publish_edit clock (codes "d") (pos 2) why true opened.1
        ≡ err (conflictf "revision_conflict: 数据已修改，请刷新后重试"))
publish_edit_supersedes_example =
    publish_edit_supersedes clock clock (codes "d") (pos 2) why false state_k opened.0 opened.1
      opened.2 stale why true publishes refl refl

abbrev of_update : Edit Nanos ResourceGroup
of_update = update_edit clock (record stale { group_id = id_g }) state_k

abbrev updated : ResourceGroup × State Nanos × Changes Nanos
updated = outcome of_update draft_d

updates : of_update ≡ ok updated
unfolding update_edit lookup text_eq patched normalize_group valid_group_text trim_space any
    normalize_route_strings normalize_pool normalize_rule normalize_selection
    normalize_credential_ids normalize_providers rule byte_length contains
updates = refl

normal_models :
    (normalize_route_strings group_g.models ≡ ok group_g.models)
    × (normalize_route_strings draft_d.models ≡ ok draft_d.models)
unfolding normalize_route_strings trim_space byte_length contains
normal_models = (refl, refl)

normal : IsNormal groups_k
unfolding lookup
normal i a e =
    let (g, d) = normal_models in ground (arith, text_eq_iff id_g i, text_eq_iff (codes "d") i)

update_edit-IsExclusive_example : IsExclusive updated.1.grouped
update_edit-IsExclusive_example =
    update_edit-IsExclusive clock (record stale { group_id = id_g }) state_k updated.1 updated.0
      updated.2 exclusive normal updates

abbrev of_reset : Edit Nanos (Unit {0})
of_reset = reset_edit new_year scope_k id_g why state_k

abbrev cleared : Unit {0} × State Nanos × Changes Nanos
cleared = outcome of_reset tt

resets : of_reset ≡ ok cleared
unfolding reset_edit live_key lookup text_eq binding policy has_policy
resets = refl

no_days : HasSoundDays groups_k
unfolding lookup
no_days key d e = absurd cc

reset_edit-HasSoundDays_example :
    let key = day_key scope_k id_g (group_date new_year) in
    let d = open_day cleared.1.grouped scope_k id_g (group_date new_year) in
    (d.credit ≡ d.raw)
    × (d.raw ≡ (open_day groups_k scope_k id_g (group_date new_year)).raw)
    × (lookup [] cleared.1.grouped.days
        ≡ (if text_eq key [] then some d else lookup [] groups_k.days))
    × (cleared.2.group_days ≡ key ∷ [])
    × HasSoundDays cleared.1.grouped
reset_edit-HasSoundDays_example =
    reset_edit-HasSoundDays new_year scope_k id_g why [] state_k cleared.1 tt cleared.2 no_days
      resets
