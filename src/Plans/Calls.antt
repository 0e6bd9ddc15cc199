-- ===== src/Plans/Calls.antt =====
-- internal/billing/plan.go and keys.go: the calls that change plans and the keys that are on them, one
-- after another.
use cpa_plugin_group_billing.Prelude.{
  ℕ, ◌≡◌, Bool, not, ◌&&◌, Option, List, [], ◌∷◌, Bool-cases, inl, inr,
}
use cpa_plugin_group_billing.Prelude.Text.{Text, trim_space, is_empty}
use cpa_plugin_group_billing.Calendar.{Time}
use cpa_plugin_group_billing.Errors.{Result, Result-cases, ok, err}
use cpa_plugin_group_billing.Float.{Float}
use cpa_plugin_group_billing.Keys.{bind_edit, unbind_edit, bind_key, unbind_key, checked}
use cpa_plugin_group_billing.GroupConfig.{Edit}
use cpa_plugin_group_billing.Keys.Reset.{ResetRequest, check_reset, reset_quota_edit, reset_quota}
use cpa_plugin_group_billing.Keys.Sync.{listed_scopes, sync_edit, sync_keys}
use cpa_plugin_group_billing.Keys.Scopes.{normalize_scopes}
use cpa_plugin_group_billing.Plans.Edits.{
  PlanPatch, create_plan_edit, update_plan_edit, delete_plan_edit, create_plan, update_plan,
  delete_plan,
}
use cpa_plugin_group_billing.Plans.Subscriptions.{HasSubscriptions}
use cpa_plugin_group_billing.State.{State, Plan, normalize_scope}
use cpa_plugin_group_billing.State.Changes.{Changes}
use cpa_plugin_group_billing.Store.{Repository, Store}
use cpa_plugin_group_billing.Store.Atomic.{edit_configuration-keeps}
use cpa_plugin_group_billing.Plans.Kept.{
  delete_plan_edit-HasSubscriptions, create_plan_edit-HasSubscriptions,
  update_plan_edit-HasSubscriptions, bind_edit-HasSubscriptions, unbind_edit-HasSubscriptions,
  reset_quota_edit-HasSubscriptions, sync_edit-HasSubscriptions,
}

-- A call of one of the operations, with what it draws and the time it reads.
pub data PlanCall (F : Type 0) : Type 0 where
  creating : (ℕ → Result Text) → Time → Plan F → List Text → PlanCall F
  updating : (ℕ → Result Text) → Time → PlanPatch F → Option (List Text) → PlanCall F
  deleting : Text → PlanCall F
  binding_key : Text → Text → PlanCall F
  unbinding : Text → PlanCall F
  resetting : ResetRequest → PlanCall F
  syncing : (Text → Text) → List Text → Bool → Time → PlanCall F

module _ {F D : Type 0} ⦃fl : Float F⦄ ⦃repository : Repository F D⦄ where
  abbrev pub call : PlanCall F → Store F D → Store F D
  call (creating entropy now plan scopes) s = (create_plan entropy now s plan scopes).1
  call (updating entropy now patch scopes) s = (update_plan entropy now s patch scopes).1
  call (deleting id) s = (delete_plan s id).1
  call (binding_key scope plan_id) s = (bind_key s scope plan_id).1
  call (unbinding scope) s = (unbind_key s scope).1
  call (resetting req) s = (reset_quota s req).1
  call (syncing hash keys allow_empty now) s = (sync_keys hash s keys allow_empty now).1

  abbrev pub calls : List (PlanCall F) → Store F D → Store F D
  calls [] s = s
  calls (c ∷ cs) s = calls cs (call c s)

  update_plan-HasSubscriptions :
      (entropy : ℕ → Result Text) (now : Time) (s : Store F D) (patch : PlanPatch F)
      (scopes : Option (List Text))
      → HasSubscriptions s.state
      → HasSubscriptions (update_plan entropy now s patch scopes).1.state
  unfolding update_plan
  update_plan-HasSubscriptions entropy now s patch scopes h =
      let patch' : PlanPatch F = record patch { id = trim_space patch.id } in
      elim (Bool-cases (is_empty (trim_space patch.id))) [
        | inl blank ↦ rw (blank, update_plan) h
        | inr named ↦
            rw (named, update_plan)
              (edit_configuration-keeps HasSubscriptions s
                (update_plan_edit entropy now patch' scopes) h
                (λ out next changes e.
                  update_plan_edit-HasSubscriptions s.state next changes entropy now patch' out
                    scopes e h))
      ]

  delete_plan-HasSubscriptions :
      (s : Store F D) (id : Text)
      → HasSubscriptions s.state
      → HasSubscriptions (delete_plan s id).1.state
  unfolding delete_plan
  delete_plan-HasSubscriptions s id h = elim (Bool-cases (is_empty (trim_space id))) [
    | inl blank ↦ rw (blank, delete_plan) h
    | inr named ↦
        rw (named, delete_plan)
          (edit_configuration-keeps HasSubscriptions s (delete_plan_edit (trim_space id)) h
            (λ out next changes e.
              delete_plan_edit-HasSubscriptions s.state next changes (trim_space id) out e h))
  ]

  checked-HasSubscriptions :
      (s : Store F D) (test : Result (Unit {0})) (fn : State F → Edit F (Unit {0}))
      → HasSubscriptions s.state
      → ((u : Unit {0})
          → (next : State F) → (changes : Changes F) → fn s.state ≡ ok (u, next, changes)
          → HasSubscriptions next)
      → HasSubscriptions (checked s test fn).1.state
  unfolding checked
  checked-HasSubscriptions s (err e) fn h kept = h
  checked-HasSubscriptions s (ok u) fn h kept =
      edit_configuration-keeps HasSubscriptions s fn h kept

  reset_quota-HasSubscriptions :
      (s : Store F D) (req : ResetRequest)
      → HasSubscriptions s.state
      → HasSubscriptions (reset_quota s req).1.state
  unfolding reset_quota
  reset_quota-HasSubscriptions s req h =
      let req' : ResetRequest = record req { scopes = normalize_scopes req.scopes } in
      elim (Result-cases (check_reset req')) [
        | inr (failure, refused) ↦ rw (refused, reset_quota) h
        | inl (u, fine) ↦
            rw (fine, reset_quota)
              (edit_configuration-keeps HasSubscriptions s (reset_quota_edit req') h
                (λ out next changes e.
                  reset_quota_edit-HasSubscriptions s.state next changes req' out e h))
      ]

  sync_keys-HasSubscriptions :
      (hash : Text → Text) (s : Store F D) (keys : List Text) (allow_empty : Bool) (now : Time)
      → HasSubscriptions s.state
      → HasSubscriptions (sync_keys hash s keys allow_empty now).1.state
  unfolding sync_keys
  sync_keys-HasSubscriptions hash s keys allow_empty now h =
      let scopes = listed_scopes hash keys [] in
      elim (Bool-cases (is_empty scopes && not allow_empty)) [
        | inl blank ↦ rw (blank, sync_keys) h
        | inr named ↦
            rw (named, sync_keys)
              (edit_configuration-keeps HasSubscriptions s (sync_edit scopes now) h
                (λ out next changes e.
                  sync_edit-HasSubscriptions s.state next changes scopes now out e h))
      ]

  call-HasSubscriptions :
      (c : PlanCall F) (s : Store F D)
      → HasSubscriptions s.state
      → HasSubscriptions (call c s).state
  unfolding create_plan bind_key unbind_key
  call-HasSubscriptions (creating entropy now plan scopes) s h =
      let plan' : Plan F = record plan { id = trim_space plan.id; name = trim_space plan.name } in
      edit_configuration-keeps HasSubscriptions s
        (create_plan_edit entropy now plan' (normalize_scopes scopes)) h
        (λ out next changes e.
          create_plan_edit-HasSubscriptions s.state next changes entropy now plan' out
            (normalize_scopes scopes) e h)
  call-HasSubscriptions (updating entropy now patch scopes) s h =
      update_plan-HasSubscriptions entropy now s patch scopes h
  call-HasSubscriptions (deleting id) s h = delete_plan-HasSubscriptions s id h
  call-HasSubscriptions (binding_key scope plan_id) s h =
      checked-HasSubscriptions s _ (bind_edit (normalize_scope scope) (trim_space plan_id)) h
        (λ u next changes e.
          bind_edit-HasSubscriptions s.state next changes (normalize_scope scope)
            (trim_space plan_id) u e h)
  call-HasSubscriptions (unbinding scope) s h =
      checked-HasSubscriptions s _ (unbind_edit (normalize_scope scope)) h (λ u next changes e.
        unbind_edit-HasSubscriptions s.state next changes (normalize_scope scope) u e h)
  call-HasSubscriptions (resetting req) s h = reset_quota-HasSubscriptions s req h
  call-HasSubscriptions (syncing hash keys allow_empty now) s h =
      sync_keys-HasSubscriptions hash s keys allow_empty now h

  -- In a store in which every key without a plan has no cycles, and every other key is on a plan that
  -- is there with cycles of that plan's windows that last their periods, any sequence of edits of plans
  -- and of bindings, of resets of quotas and of synchronisations of the keys keeps it so, those that
  -- are refused or not saved included.
  pub calls-HasSubscriptions :
      (cs : List (PlanCall F)) (s : Store F D)
      → HasSubscriptions s.state
      → HasSubscriptions (calls cs s).state
  calls-HasSubscriptions [] s h = h
  calls-HasSubscriptions (c ∷ cs) s h =
      calls-HasSubscriptions cs (call c s) (call-HasSubscriptions c s h)
