-- ===== src/Accounting/Charge.antt =====
-- The charge of a usage record, seen from the state: every ledger stays sound, and only the ledger of
-- the record's own key changes.
use mathlib.Core.Option.{some-injective}
use cpa_plugin_group_billing.Prelude.{
  ◌++◌, ◌∷◌, ◌≡◌, ◌≢◌, refl, sym, ◌⊎◌, inl, inr, Bool, false, Option, some, arith, Option-cases,
  Bool-cases, subst,
}
use cpa_plugin_group_billing.Prelude.Int64.{ℤ, pos, negsuc, IsInt64}
use cpa_plugin_group_billing.Prelude.Table.{lookup, insert, lookup-insert}
use cpa_plugin_group_billing.Prelude.Text.{Text, text_eq, text_eq_iff}
use cpa_plugin_group_billing.Accounting.{
  UsageEvent, account_group, account_unclassified, account_group_usage, settle_day, open_day,
}
use cpa_plugin_group_billing.Accounting.Ledger.{IsSound, settle_day-IsSound}
use cpa_plugin_group_billing.Accounting.Cases.{account_group_usage-cases}
use cpa_plugin_group_billing.Calendar.{Time, group_date}
use cpa_plugin_group_billing.Float.{Float, IsFloat}
use cpa_plugin_group_billing.Groups.{GroupState, GroupDay, ResourceGroup, new_day, day_key}
use cpa_plugin_group_billing.Groups.Keys.{IsNulFree, split_nul}
use cpa_plugin_group_billing.Pricing.{Breakdown, valid}
use cpa_plugin_group_billing.State.{State, RequestEvent}
use cpa_plugin_group_billing.State.Changes.{Changes}
use cpa_plugin_group_billing.Usd.{Usd}
use cpa_plugin_group_billing.Usd.Bounds.{IsCount, cost_usd-IsCount}

-- Every ledger of the state is sound.
abbrev pub HasSoundDays : GroupState → Type 0
HasSoundDays g = (key : Text) (d : GroupDay) → lookup key g.days ≡ some d → IsSound d

-- A breakdown that passes its checks has a total that is not negative.
total-IsCount :
    (b : Breakdown) (total : ℤ)
    → b.total ≡ total
    → IsInt64 total
    → IsCount total ⊎ (valid b ≡ false)
unfolding valid
total-IsCount b (pos n) e r = inl (n, refl, r.0)
total-IsCount b (negsuc n) e r = inr (ground arith)

new_day-IsSound : (scope group date : Text) → IsSound (new_day scope group date)
new_day-IsSound scope group date =
    ((0, 0, refl, refl, omega arith, omega arith), (0, refl, omega arith), (0, refl, omega arith))

pub open_day-IsSound :
    (g : GroupState) (scope group date : Text)
    → HasSoundDays g
    → IsSound (open_day g scope group date)
open_day-IsSound g scope group date h =
    elim (Option-cases (lookup (day_key scope group date) g.days)) [
      | inl e ↦ rw (e, open_day) (new_day-IsSound scope group date)
      | inr (d, e) ↦ rw (e, open_day) (h (day_key scope group date) d e)
    ]

pub insert-HasSoundDays :
    (g : GroupState) (key : Text) (d : GroupDay)
    → HasSoundDays g
    → IsSound d
    → HasSoundDays (record g { days = insert key d g.days })
insert-HasSoundDays g key d h v k e f = elim (Bool-cases (text_eq key k)) [
  | inl hit ↦ subst IsSound (some-injective _ _ (rw (lookup-insert, hit) at f)) v
  | inr miss ↦ h k e (rw (lookup-insert, miss) at f)
]

account_group-HasSoundDays :
    {F : Type 0} (s : State F) (entry : RequestEvent F) (changes : Changes F)
    (group : ResourceGroup) (model_key : Text) (amount : Option Usd) (is_priced : Bool)
    (b : Breakdown) (at now : Time)
    → HasSoundDays s.grouped
    → ((a : Usd) → amount ≡ some a → IsCount a)
    → IsInt64 b.total
    → HasSoundDays
        (account_group s entry changes group model_key amount is_priced b at now).state.grouped
unfolding account_group
account_group-HasSoundDays s entry changes group model_key amount is_priced b at now h counts
      range =
    let d = open_day s.grouped entry.scope group.id (group_date at) in
    insert-HasSoundDays s.grouped (day_key entry.scope group.id (group_date at))
      (settle_day d amount is_priced b at now) h
      (settle_day-IsSound d amount is_priced b at now
        (open_day-IsSound s.grouped entry.scope group.id (group_date at) h) counts
        (total-IsCount b b.total refl range))

-- Charging one usage record, its total an int64, keeps every ledger of the state sound, whatever else
-- the record holds: its amounts, tokens and requests are int64 values that are not negative, and its
-- credit is at most its cost. The floating-point type must have the facts of IsFloat.
pub account_group_usage-HasSoundDays :
    {F : Type 0} ⦃fl : Float F⦄ (laws : IsFloat F) (s : State F) (event : UsageEvent)
    (entry : RequestEvent F) (changes : Changes F)
    → IsInt64 event.breakdown.total
    → HasSoundDays s.grouped
    → HasSoundDays (account_group_usage s event entry changes).state.grouped
unfolding account_unclassified
account_group_usage-HasSoundDays laws s event entry changes range h =
    account_group_usage-cases s event entry changes (λ r. HasSoundDays r.state.grouped) h
      (λ model date. h)
      (λ group model is_priced at now.
        account_group-HasSoundDays s entry changes group model _ is_priced event.breakdown at now h
          (cost_usd-IsCount laws entry.cost.total) range)

day_key_apart :
    (scope scope' group group' date date' : Text)
    → IsNulFree scope
    → IsNulFree scope'
    → scope ≢ scope'
    → text_eq (day_key scope' group' date') (day_key scope group date) ≡ false
unfolding day_key
day_key_apart scope scope' group group' date date' n n' other =
    let k = day_key scope group date in
    let k' = day_key scope' group' date' in
    elim (Bool-cases (text_eq k' k)) [
      | inl same ↦ absurd (
          other (
            sym
              (split_nul scope' scope (group' ++ 0 ∷ date') (group ++ 0 ∷ date) n' n
                ((text_eq_iff k' k).0 same)).0))
      | inr apart ↦ apart
    ]

account_group_isolated :
    {F : Type 0} (s : State F) (entry : RequestEvent F) (changes : Changes F)
    (group : ResourceGroup) (model_key : Text) (amount : Option Usd) (is_priced : Bool)
    (b : Breakdown) (at now : Time) (scope group_id date : Text)
    → IsNulFree scope
    → IsNulFree entry.scope
    → scope ≢ entry.scope
    → lookup
        (day_key scope group_id date)
        (account_group s entry changes group model_key amount is_priced b at now).state.grouped.days
      ≡ lookup (day_key scope group_id date) s.grouped.days
unfolding account_group
account_group_isolated s entry changes group model_key amount is_priced b at now scope group_id date
      n n' other =
    rw (
      lookup-insert,
      day_key_apart scope entry.scope group_id group.id date (group_date at) n n' other,
    )

-- A usage record of one key never changes a ledger of another key, where neither key holds a NUL.
pub account_group_usage_isolated :
    {F : Type 0} ⦃fl : Float F⦄ (s : State F) (event : UsageEvent) (entry : RequestEvent F)
    (changes : Changes F) (scope group_id date : Text)
    → IsNulFree scope
    → IsNulFree entry.scope
    → scope ≢ entry.scope
    → let after = (account_group_usage s event entry changes).state.grouped in
      lookup (day_key scope group_id date) after.days
      ≡ lookup (day_key scope group_id date) s.grouped.days
unfolding account_unclassified
account_group_usage_isolated s event entry changes scope group_id date n n' other =
    account_group_usage-cases s event entry changes
      (λ r.
        lookup (day_key scope group_id date) r.state.grouped.days
        ≡ lookup (day_key scope group_id date) s.grouped.days)
      refl (λ model at. refl)
      (λ group model is_priced at now.
        account_group_isolated s entry changes group model _ is_priced event.breakdown at now scope
          group_id date n n' other)
