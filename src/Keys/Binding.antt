-- ===== src/Keys/Binding.antt =====
-- internal/billing/keys.go: binding a key to a subscription plan.
use cpa_plugin_group_billing.Prelude.{
  ◌≡◌, refl, false, some, [], arith, inl, inr, Option-cases, Bool-cases, if◌then◌else◌, ap, ◌∙◌,
}
use cpa_plugin_group_billing.Prelude.Table.{lookup, insert, lookup-insert}
use cpa_plugin_group_billing.Prelude.Text.{Text, text_eq, text_eq_iff}
use cpa_plugin_group_billing.Errors.{ok}
use cpa_plugin_group_billing.Keys.{bind_edit}
use cpa_plugin_group_billing.State.{State, KeyState, Plan, live_key, find_plan}
use cpa_plugin_group_billing.State.Changes.{Changes}

live_key-lookup :
    {F : Type 0} (s : State F) (scope : Text) (key : KeyState F)
    → live_key s scope ≡ some key
    → lookup scope s.keys ≡ some key
unfolding live_key
live_key-lookup s scope key h = ground arith

-- A key that is left alone is looked up as it was.
kept_lookup :
    {F : Type 0} (s next : State F) (scope other : Text) (key : KeyState F)
    → live_key s scope ≡ some key
    → next.keys ≡ s.keys
    → lookup other next.keys ≡ (if text_eq scope other then some key else lookup other s.keys)
kept_lookup s next scope other key live e =
    let there = live_key-lookup s scope key live in
    rw e (
      ground (
        arith,
        text_eq_iff scope other,
        ap (λ (t : Text). lookup t s.keys) {x = scope} {y = other},
      ))

bound_keys :
    {F : Type 0} (s next : State F) (scope plan_id : Text) (u : Unit {0}) (changes : Changes F)
    (plan : Plan F) (key : KeyState F)
    → find_plan s plan_id ≡ some plan
    → live_key s scope ≡ some key
    → text_eq key.plan_id plan.id ≡ false
    → bind_edit scope plan_id s ≡ ok (u, next, changes)
    → next.keys ≡ insert scope (record key { cycles = []; plan_id = plan.id }) s.keys
unfolding bind_edit
bound_keys s next scope plan_id u changes plan key found live apart e = ground arith

-- A key is bound only to a plan that is there, and only if the key is not deleted. It is then on that
-- plan, with no cycle of another plan left over: the cycles are those it had if it was on the plan
-- already, and none otherwise. No other key changes.
pub bind_edit-key :
    {F : Type 0} (scope plan_id other : Text) (s next : State F) (u : Unit {0})
    (changes : Changes F)
    → bind_edit scope plan_id s ≡ ok (u, next, changes)
    → (plan : Plan F) × (old new : KeyState F) × (find_plan s plan_id ≡ some plan)
      × (live_key s scope ≡ some old)
      × (lookup other next.keys ≡ (if text_eq scope other then some new else lookup other s.keys))
      × (new.plan_id ≡ plan.id)
      × (new.cycles ≡ (if text_eq old.plan_id plan.id then old.cycles else []))
unfolding bind_edit
bind_edit-key scope plan_id other s next u changes e = elim (Option-cases (find_plan s plan_id)) [
  | inl missing ↦ absurd (ground arith)
  | inr (plan, found) ↦ elim (Option-cases (live_key s scope)) [
    | inl dead ↦ absurd (ground arith)
    | inr (key, live) ↦ elim (Bool-cases (text_eq key.plan_id plan.id)) [
      | inl same ↦ (
        plan,
        key,
        key,
        found,
        live,
        kept_lookup s next scope other key live (ground arith),
        (text_eq_iff key.plan_id plan.id).0 same,
        rw same refl,
      )
      | inr apart ↦ (
        plan,
        key,
        record key { cycles = []; plan_id = plan.id },
        found,
        live,
        (ap (λ m. lookup other m)
              (bound_keys s next scope plan_id u changes plan key found live apart e)
            ∙ lookup-insert scope other (record key { cycles = []; plan_id = plan.id }) s.keys),
        refl,
        rw apart refl,
      )
    ]
  ]
]
