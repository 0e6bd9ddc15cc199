-- ===== src/Plans/Kept.antt =====
-- internal/billing/plan.go and keys.go: edits of plans, and of the bindings, cycles and list of keys,
-- leave every key with a plan that is there and with cycles of that plan's windows.
use cpa_plugin_group_billing.Prelude.{
  ℕ, ◌≡◌, refl, true, if◌then◌else◌, Option, none, some, List, [], ◌∷◌, ◌++◌, any, arith, ap, ◌∙◌,
  sym, subst, Option-cases, Bool-cases, inl, inr,
}
use cpa_plugin_group_billing.Prelude.Table.{Table, insert, insert-Every}
use cpa_plugin_group_billing.Prelude.Text.{Text, codes, text_eq, trim_space, is_empty}
use cpa_plugin_group_billing.Calendar.{Time}
use cpa_plugin_group_billing.Errors.{Result, ok, ok-injective}
use cpa_plugin_group_billing.Float.{Float}
use cpa_plugin_group_billing.Keys.{bind_edit, unbind_edit}
use cpa_plugin_group_billing.Keys.Reset.{
  ResetRequest, ResetResult, bound_scopes, drop_cycles, reset_quota_edit,
}
use cpa_plugin_group_billing.Keys.Sync.{SyncResult, list_keys, unlist_keys, sync_edit}
use cpa_plugin_group_billing.Plans.Edits.{
  PlanPatch, bind_all, update_keys, replace_plan, remove_plan, release_keys, reset_by,
  patched_windows, create_plan_edit, update_plan_edit, delete_plan_edit,
}
use cpa_plugin_group_billing.Plans.Subscriptions.{
  AllSubscribed, HasSubscriptions, IsSubscribed, create-AllSubscribed, bind_all-AllSubscribed,
  release_keys-AllSubscribed, is_window_of,
}
use cpa_plugin_group_billing.Plans.Subscriptions.Keys.{
  drop_cycles-AllSubscribed, list_keys-AllSubscribed, unlist_keys-AllSubscribed,
}
use cpa_plugin_group_billing.Plans.Subscriptions.Updates.{
  Keeps, update_keys-AllSubscribed, reset_windows-kept,
}
use cpa_plugin_group_billing.Plans.Lookups.{find_plan_id-last, find_plan_id-id}
use cpa_plugin_group_billing.State.{
  State, QuotaWindow, Plan, KeyState, find_plan_id, find_plan, live_key,
}
use cpa_plugin_group_billing.State.Changes.{Changes}

find_plan-own :
    {F : Type 0} (s : State F) (id : Text) (plan : Plan F)
    → find_plan s id ≡ some plan
    → find_plan_id s.plans plan.id ≡ some plan
unfolding find_plan
find_plan-own s id plan found =
    let here : find_plan_id s.plans (trim_space id) ≡ some plan = ground arith in
    ap (find_plan_id s.plans) (find_plan_id-id s.plans (trim_space id) plan here) ∙ here

module _ {F : Type 0} (s next : State F) (changes : Changes F) where
  HasSubscriptions-from :
      (ps : List (Plan F)) (keys : Table (KeyState F))
      → next.plans ≡ ps
      → next.keys ≡ keys
      → AllSubscribed ps keys
      → HasSubscriptions next
  HasSubscriptions-from ps keys ep ek h =
      subst (λ (ps : List (Plan F)). AllSubscribed ps next.keys) (sym ep)
        (subst (λ (keys : Table (KeyState F)). AllSubscribed ps keys) (sym ek) h)

  pub delete_plan_edit-HasSubscriptions :
      (id : Text) (released : ℕ)
      → delete_plan_edit id s ≡ ok (released, next, changes)
      → HasSubscriptions s
      → HasSubscriptions next
  unfolding delete_plan_edit
  delete_plan_edit-HasSubscriptions id released e h =
      HasSubscriptions-from (remove_plan id s.plans) (release_keys id s.keys).0 (ground arith)
        (ground arith) (release_keys-AllSubscribed s.plans id s.keys h)

  module _ ⦃fl : Float F⦄ (entropy : ℕ → Result Text) (now : Time) where
    created_plan :
        (plan out : Plan F) (scopes : List Text)
        → create_plan_edit entropy now plan scopes s ≡ ok (out, next, changes)
        → (next.plans ≡ s.plans ++ out ∷ []) × (next.keys ≡ bind_all out.id scopes s.keys)
    unfolding create_plan_edit
    created_plan plan out scopes e = ground arith

    pub create_plan_edit-HasSubscriptions :
        (plan out : Plan F) (scopes : List Text)
        → create_plan_edit entropy now plan scopes s ≡ ok (out, next, changes)
        → HasSubscriptions s
        → HasSubscriptions next
    create_plan_edit-HasSubscriptions plan out scopes e h =
        let (plans, keys) = created_plan plan out scopes e in
        let (last, found) = find_plan_id-last s.plans out in
        let more = s.plans ++ out ∷ [] in
        HasSubscriptions-from more (bind_all out.id scopes s.keys) plans keys (
          bind_all-AllSubscribed more last out.id scopes s.keys found
            (create-AllSubscribed s.plans out s.keys h))

    updated_plan :
        (patch : PlanPatch F) (out : Plan F) (scopes : Option (List Text))
        → update_plan_edit entropy now patch scopes s ≡ ok (out, next, changes)
        → (old : Plan F) × (find_plan_id s.plans patch.id ≡ some old)
          × (out.id ≡ old.id)
          × (patched_windows entropy now patch.windows old.windows ≡ ok out.windows)
          × (next.plans ≡ replace_plan patch.id out s.plans)
          × (next.keys
              ≡ update_keys patch.id scopes
                  (reset_by entropy now patch.windows out.windows old.windows)
                  s.keys)
    unfolding update_plan_edit
    updated_plan patch out scopes e = ground arith

    kept_windows :
        (windows : Option (List (QuotaWindow F))) (old out : Plan F)
        → patched_windows entropy now windows old.windows ≡ ok out.windows
        → Keeps old out (reset_by entropy now windows out.windows old.windows)
    unfolding patched_windows reset_by
    kept_windows none old out e j c free mine =
        subst (λ (ws : List (QuotaWindow F)). any (is_window_of j c) ws ≡ true)
          (ok-injective old.windows out.windows e) mine
    kept_windows (some windows) old out e j c free mine =
        reset_windows-kept out.windows old.windows j c free mine

    pub update_plan_edit-HasSubscriptions :
        (patch : PlanPatch F) (out : Plan F) (scopes : Option (List Text))
        → update_plan_edit entropy now patch scopes s ≡ ok (out, next, changes)
        → HasSubscriptions s
        → HasSubscriptions next
    update_plan_edit-HasSubscriptions patch out scopes e h =
        let (old, found, same, windows, plans, keys) = updated_plan patch out scopes e in
        let reset = reset_by entropy now patch.windows out.windows old.windows in
        HasSubscriptions-from (replace_plan patch.id out s.plans)
          (update_keys patch.id scopes reset s.keys) plans keys
          (update_keys-AllSubscribed s.plans old out patch.id scopes reset s.keys
            (same ∙ find_plan_id-id s.plans patch.id old found) found
            (kept_windows patch.windows old out windows) h)

  pub bind_edit-HasSubscriptions :
      (scope plan_id : Text) (u : Unit {0})
      → bind_edit scope plan_id s ≡ ok (u, next, changes)
      → HasSubscriptions s
      → HasSubscriptions next
  unfolding bind_edit
  bind_edit-HasSubscriptions scope plan_id u e h = elim (Option-cases (find_plan s plan_id)) [
    | inl missing ↦ absurd (ground arith)
    | inr (plan, found) ↦ elim (Option-cases (live_key s scope)) [
      | inl dead ↦ absurd (ground arith)
      | inr (key, live) ↦ elim (Bool-cases (text_eq key.plan_id plan.id)) [
        | inl same ↦ HasSubscriptions-from s.plans s.keys (ground arith) (ground arith) h
        | inr apart ↦
            let new : KeyState F = record key { cycles = []; plan_id = plan.id } in
            let e' = rw (found, live, apart, bind_edit) at e in
            HasSubscriptions-from s.plans (insert scope new s.keys) (cc) (cc) (
              insert-Every (λ scope key. IsSubscribed s.plans key) scope new s.keys
                (inr (plan, find_plan-own s plan_id plan found, tt)) h)
      ]
    ]
  ]

  pub unbind_edit-HasSubscriptions :
      (scope : Text) (u : Unit {0})
      → unbind_edit scope s ≡ ok (u, next, changes)
      → HasSubscriptions s
      → HasSubscriptions next
  unfolding unbind_edit
  unbind_edit-HasSubscriptions scope u e h = elim (Option-cases (live_key s scope)) [
    | inl dead ↦ HasSubscriptions-from s.plans s.keys (ground arith) (ground arith) h
    | inr (key, live) ↦ elim (Bool-cases (is_empty key.plan_id)) [
      | inl free ↦ HasSubscriptions-from s.plans s.keys (ground arith) (ground arith) h
      | inr bound ↦
          let new : KeyState F = record key { plan_id = []; cycles = [] } in
          let e' = rw (live, bound, unbind_edit) at e in
          HasSubscriptions-from s.plans (insert scope new s.keys) (cc) (cc) (
            insert-Every (λ scope key. IsSubscribed s.plans key) scope new s.keys (inl (refl, refl))
              h)
    ]
  ]

  pub reset_quota_edit-HasSubscriptions :
      (req : ResetRequest) (out : ResetResult)
      → reset_quota_edit req s ≡ ok (out, next, changes)
      → HasSubscriptions s
      → HasSubscriptions next
  unfolding reset_quota_edit
  reset_quota_edit-HasSubscriptions req out e h =
      let scopes = if text_eq req.mode (codes "global") then bound_scopes s.keys else req.scopes in
      HasSubscriptions-from s.plans (drop_cycles scopes s.keys).0 (ground arith) (ground arith)
        (drop_cycles-AllSubscribed s.plans scopes s.keys h)

  pub sync_edit-HasSubscriptions :
      (scopes : Table Text) (now : Time) (out : SyncResult)
      → sync_edit scopes now s ≡ ok (out, next, changes)
      → HasSubscriptions s
      → HasSubscriptions next
  unfolding sync_edit
  sync_edit-HasSubscriptions scopes now out e h =
      let keys = (list_keys scopes s.keys).0 in
      HasSubscriptions-from s.plans (unlist_keys scopes now keys).0 (ground arith) (ground arith) (
        unlist_keys-AllSubscribed s.plans scopes now keys
          (list_keys-AllSubscribed s.plans scopes s.keys h))
