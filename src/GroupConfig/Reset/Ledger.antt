-- ===== src/GroupConfig/Reset/Ledger.antt =====
-- internal/billing/group_config.go, ResetGroupDay: what a reset does to the ledger of the day.
use cpa_plugin_group_billing.Prelude.{ℕ, ◌+◌, ◌≤◌, ◌≡◌, refl, some, ◌∷◌, [], arith, if◌then◌else◌}
use cpa_plugin_group_billing.Prelude.Int64.{pos, sub64, sub64_pos, max_int64}
use cpa_plugin_group_billing.Prelude.Table.{lookup, insert, lookup-insert, lookup-insert_self}
use cpa_plugin_group_billing.Prelude.Text.{Text, text_eq}
use cpa_plugin_group_billing.Accounting.{open_day, charged, is_before_reset}
use cpa_plugin_group_billing.Accounting.Ledger.{IsSound, charged_exact}
use cpa_plugin_group_billing.Accounting.Charge.{HasSoundDays, open_day-IsSound, insert-HasSoundDays}
use cpa_plugin_group_billing.Calendar.{Time, group_date}
use cpa_plugin_group_billing.Errors.{ok}
use cpa_plugin_group_billing.GroupConfig.Reset.{reset_day, reset_edit}
use cpa_plugin_group_billing.Groups.{GroupDay, day_key}
use cpa_plugin_group_billing.State.{State}
use cpa_plugin_group_billing.State.Changes.{Changes}
use cpa_plugin_group_billing.Usd.{Usd}

reset_day-IsSound : (d : GroupDay) (now : Time) → IsSound d → IsSound (reset_day d now)
unfolding reset_day
reset_day-IsSound d now ((r, c, re, ce, le, rl), t, q) = ((r, r, re, re, (omega arith), rl), t, q)

reset_edit_ok :
    {F : Type 0} (now : Time) (scope group_id reason : Text) (s next : State F) (u : Unit {0})
    (changes : Changes F)
    → reset_edit now scope group_id reason s ≡ ok (u, next, changes)
    → let date = group_date now in
      let key = day_key scope group_id date in
      let d = reset_day (open_day s.grouped scope group_id date) now in
      (next.grouped.days ≡ insert key d s.grouped.days) × (changes.group_days ≡ key ∷ [])
unfolding reset_edit
reset_edit_ok now scope group_id reason s next u changes e = ground arith

-- A reset that succeeds credits all that the ledger of the day holds, so that nothing of it counts
-- against the limit; it changes no other ledger, names the ledger to be saved, and keeps every ledger
-- sound.
pub reset_edit-HasSoundDays :
    {F : Type 0} (now : Time) (scope group_id reason k : Text) (s next : State F) (u : Unit {0})
    (changes : Changes F)
    → HasSoundDays s.grouped
    → reset_edit now scope group_id reason s ≡ ok (u, next, changes)
    → let date = group_date now in
      let key = day_key scope group_id date in
      let d = open_day next.grouped scope group_id date in
      (d.credit ≡ d.raw)
      × (d.raw ≡ (open_day s.grouped scope group_id date).raw)
      × (lookup k next.grouped.days ≡ (if text_eq key k then some d else lookup k s.grouped.days))
      × (changes.group_days ≡ key ∷ [])
      × HasSoundDays next.grouped
unfolding reset_day
reset_edit-HasSoundDays now scope group_id reason k s next u changes h e =
    let date = group_date now in
    let key = day_key scope group_id date in
    let d = open_day s.grouped scope group_id date in
    let (stored, named) = reset_edit_ok now scope group_id reason s next u changes e in
    let sound = reset_day-IsSound d now (open_day-IsSound s.grouped scope group_id date h) in
    let inserted = insert-HasSoundDays s.grouped key (reset_day d now) h sound in
    rw (stored, open_day, lookup-insert_self)
      (refl, refl, lookup-insert key k (reset_day d now) s.grouped.days, named, inserted)

-- After the reset of a ledger whose credit is at most its cost, a charge that fits an int64 leaves what
-- counts against the limit (the cost without the credit) at nothing if its usage is from before the
-- reset, and at the whole charge if it is from the reset on.
pub reset_day-charged :
    (d : GroupDay) (r c a : ℕ) (now at : Time) (raw credit : Usd)
    → d.raw ≡ pos r
    → d.credit ≡ pos c
    → c ≤ r
    → r ≤ max_int64
    → a ≤ max_int64
    → charged (reset_day d now) (pos a) at ≡ some (raw, credit)
    → sub64 raw credit ≡ (if is_before_reset (some now) at then pos 0 else pos a)
unfolding reset_day is_before_reset
reset_day-charged d r c a now at raw credit re ce le rl al e =
    let (x, y, z) =
      charged_exact (reset_day d now) r r a at raw credit re re (omega arith) rl al e in
    ground (arith, sub64_pos (r + a) r, sub64_pos (r + a) (r + a))
