-- ===== src/GroupConfig/Schedule/Timeline.antt =====
-- internal/billing/group_config.go, ScheduleGroupBinding: what a schedule changes of the periods of a
-- key, as GroupState.binding reads them.
use cpa_plugin_group_billing.Prelude.{
  ◌+◌, ◌*◌, ◌≤◌, ◌<◌, ◌≡◌, refl, sym, ap, subst, ◌∙◌, ◌⊎◌, Option, none, some, List, [], ◌∷◌, ◌++◌,
  All, All-append, arith, if◌then◌else◌,
}
use cpa_plugin_group_billing.Prelude.Int64.{ℤ}
use cpa_plugin_group_billing.Prelude.Table.{lookup, insert, lookup-insert_self}
use cpa_plugin_group_billing.Prelude.Text.{Text}
use cpa_plugin_group_billing.Calendar.{Time, before, local_day, next_group_day}
use cpa_plugin_group_billing.Errors.{ok}
use cpa_plugin_group_billing.GroupConfig.Schedule.{
  BindingView, ended_by, kept_periods, next_period, rescheduled, schedule_edit,
}
use cpa_plugin_group_billing.Groups.{Mode, Period, binding_of, covers, find_period}
use cpa_plugin_group_billing.State.{State}
use cpa_plugin_group_billing.State.Changes.{Changes}

-- What admission and accounting read of a period: its mode and its plan.
abbrev pub terms : Option Period → Option (Mode × Option Text)
terms none = none
terms (some p) = some (p.mode, p.plan_id)

-- Every period begins by now, or at the boundary or later.
abbrev pub IsAligned : List Period → Time → Time → Type 0
IsAligned ps now boundary = All (λ p. (p.effective_from ≤ now) ⊎ (boundary ≤ p.effective_from)) ps

terms-kept :
    (ps : List Period) (mode : Mode) (plan_id : Option Text) (now boundary at : Time)
    → IsAligned ps now boundary
    → at < boundary
    → terms
        (find_period (kept_periods ps now boundary ++ next_period mode plan_id boundary ∷ []) at)
      ≡ terms (find_period ps at)
unfolding find_period kept_periods ended_by covers
terms-kept [] mode plan_id now boundary at al lt = ground arith
terms-kept (p ∷ ps) mode plan_id now boundary at (a, al) lt =
    ground (arith, terms-kept ps mode plan_id now boundary at al lt)

find_period-next :
    (ps : List Period) (mode : Mode) (plan_id : Option Text) (now boundary at : Time)
    → boundary ≤ at
    → find_period (kept_periods ps now boundary ++ next_period mode plan_id boundary ∷ []) at
      ≡ some (next_period mode plan_id boundary)
unfolding find_period kept_periods ended_by covers
find_period-next [] mode plan_id now boundary at le = ground arith
find_period-next (p ∷ ps) mode plan_id now boundary at le =
    ground (arith, find_period-next ps mode plan_id now boundary at le)

-- The boundary is the first instant of the next civil day: it is after now, at most a day after, and
-- an instant before it is on a civil day up to today.
pub next_group_day-bounds :
    (now at : Time)
    → at < next_group_day now
    → (now < next_group_day now)
      × (next_group_day now ≤ now + 86_400 * 1_000_000_000)
      × (local_day (next_group_day now) ≡ local_day now + 1)
      × (local_day at ≤ local_day now)
unfolding next_group_day local_day
next_group_day-bounds now at h = ground arith

-- A midnight in Shanghai.
abbrev pub IsDayStart : Time → Type 0
IsDayStart at = (t : Time) × (at ≡ next_group_day t)

abbrev pub HasDayStarts : List Period → Type 0
HasDayStarts = All (λ p. IsDayStart p.effective_from)

day_start-aligned :
    (t now : Time) → (next_group_day t ≤ now) ⊎ (next_group_day now ≤ next_group_day t)
unfolding next_group_day local_day
day_start-aligned t now = ground arith

aligned : (ps : List Period) (now : Time) → HasDayStarts ps → IsAligned ps now (next_group_day now)
aligned [] now h = tt
aligned (p ∷ ps) now ((t, e), h) = (
  subst (λ x. (x ≤ now) ⊎ (next_group_day now ≤ x)) (sym e) (day_start-aligned t now),
  aligned ps now h,
)

kept-HasDayStarts :
    (ps : List Period) (now boundary : Time)
    → HasDayStarts ps
    → HasDayStarts (kept_periods ps now boundary)
unfolding kept_periods ended_by
kept-HasDayStarts [] now boundary h = tt
kept-HasDayStarts (p ∷ ps) now boundary (a, h) = ground (arith, kept-HasDayStarts ps now boundary h)

schedule_edit_ok :
    {F : Type 0} (now : Time) (scope : Text) (mode : Mode) (plan_id : Option Text) (expected : ℤ)
    (reason : Text) (s next : State F) (view : BindingView) (changes : Changes F)
    → schedule_edit now scope mode plan_id expected reason s ≡ ok (view, next, changes)
    → binding_of next.grouped scope
      ≡ rescheduled (binding_of s.grouped scope) scope mode plan_id now
unfolding schedule_edit
schedule_edit_ok now scope mode plan_id expected reason s next view changes e =
    let b = rescheduled (binding_of s.grouped scope) scope mode plan_id now in
    let stored : next.grouped.bindings ≡ insert scope b s.grouped.bindings = ground arith in
    let found : lookup scope next.grouped.bindings ≡ some b =
      ap (λ m. lookup scope m) stored ∙ lookup-insert_self scope b s.grouped.bindings in
    ground arith

-- A schedule that succeeds leaves the terms of the key as they were at every instant before the next
-- midnight, and from that midnight on they are the new ones; every period still begins at a midnight,
-- as the periods stored must before.
pub schedule_edit-terms :
    {F : Type 0} (now at : Time) (scope : Text) (mode : Mode) (plan_id : Option Text) (expected : ℤ)
    (reason : Text) (s next : State F) (view : BindingView) (changes : Changes F)
    → HasDayStarts (binding_of s.grouped scope).periods
    → schedule_edit now scope mode plan_id expected reason s ≡ ok (view, next, changes)
    → let old = (binding_of s.grouped scope).periods in
      let new = (binding_of next.grouped scope).periods in
      HasDayStarts new
      × (terms (find_period new at) ≡ (
          if before at (next_group_day now)
          then terms (find_period old at)
          else some (mode, plan_id)))
unfolding rescheduled
schedule_edit-terms now at scope mode plan_id expected reason s next view changes h e =
    let old = (binding_of s.grouped scope).periods in
    let boundary = next_group_day now in
    rw (schedule_edit_ok now scope mode plan_id expected reason s next view changes e) (
      All-append (λ p. IsDayStart p.effective_from) (kept_periods old now boundary) _
          (kept-HasDayStarts old now boundary h) ((now, refl), tt),
      ground (
        arith,
        terms-kept old mode plan_id now boundary at (aligned old now h),
        find_period-next old mode plan_id now boundary at,
      ),
    )
