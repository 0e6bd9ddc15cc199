-- ===== src/Plans/Edits.antt =====
-- internal/billing/plan.go: the edits of subscription plans and of the keys that are bound to them.
use cpa_plugin_group_billing.Prelude.{
  ℕ, ◌+◌, Bool, true, false, not, ◌&&◌, Option, none, some, List, [], ◌∷◌, ◌++◌, any, length,
  if◌then◌else◌,
}
use cpa_plugin_group_billing.Prelude.Table.{Table, lookup, insert, delete}
use cpa_plugin_group_billing.Prelude.Text.{Text, codes, text_eq, is_empty, trim_space, contains}
use cpa_plugin_group_billing.Calendar.{Time, is_zero}
use cpa_plugin_group_billing.Errors.{
  Error, Result, ok, err, invalidf, not_foundf, conflictf, refuse, ◌>>=◌, ◌>>◌,
}
use cpa_plugin_group_billing.Float.{Float}
use cpa_plugin_group_billing.GroupConfig.{Edit}
use cpa_plugin_group_billing.Identity.{free_id, or_empty}
use cpa_plugin_group_billing.Keys.Scopes.{normalize_scopes}
use cpa_plugin_group_billing.Plans.{prepare_windows, validate_plan, same_schedule}
use cpa_plugin_group_billing.State.{
  State, QuotaWindow, Plan, KeyState, live_key, find_plan, find_plan_id,
}
use cpa_plugin_group_billing.State.Changes.{Changes, no_changes}
use cpa_plugin_group_billing.Store.{Repository, Store, edit_configuration}

pub record PlanPatch (F : Type 0) : Type 0 where
  pub id : Text
  pub name : Option Text
  pub windows : Option (List (QuotaWindow F))

abbrev pub no_such_plan : Error
no_such_plan = not_foundf "订阅计划 %q 不存在"

abbrev no_such_key : Error
no_such_key = not_foundf "API Key %q 不存在"

abbrev bound_elsewhere : Error
bound_elsewhere = conflictf "API Key %q 已绑定其他订阅计划"

abbrev no_plan_id : Error
no_plan_id = invalidf "订阅计划 ID 不能为空"

unfoldable pub delete_all {ℓ} : {V : Type ℓ} → List Text → Table V → Table V
delete_all [] m = m
delete_all (id ∷ ids) m = delete_all ids (delete id m)

abbrev pub is_selected : Option (List Text) → Text → Bool
is_selected none scope = true
is_selected (some scopes) scope = contains scope (normalize_scopes scopes)

abbrev pub joins : Option (List Text) → Text → Bool
joins none scope = false
joins (some scopes) scope = contains scope (normalize_scopes scopes)

module _ {F : Type 0} where
  abbrev pub has_plan : State F → Text → Bool
  has_plan s id = elim (find_plan s id) [ none ↦ false | some plan ↦ true ]

  -- A key that is moved to a plan, or off every plan: no cycle is left over.
  abbrev pub moved : Text → KeyState F → KeyState F
  moved plan_id key = record key { plan_id = plan_id; cycles = [] }

  abbrev plan_changes : List Text → Bool → Changes F
  plan_changes scopes all =
      let c : Changes F = no_changes in record c { plans = true; keys = scopes; all_keys = all }

  -- The loop of `CreatePlanWithBindings` over the keys that it checks.
  unfoldable pub all_unbound : State F → List Text → Result (Unit {0})
  all_unbound s [] = ok tt
  all_unbound s (scope ∷ rest) = elim (live_key s scope) [
    | none ↦ err no_such_key
    | some key ↦ refuse (not (is_empty key.plan_id)) bound_elsewhere >> all_unbound s rest
  ]

  -- The loop that binds them; a key that is not there is checked for before.
  unfoldable pub bind_all : Text → List Text → Table (KeyState F) → Table (KeyState F)
  bind_all plan_id [] keys = keys
  bind_all plan_id (scope ∷ rest) keys =
      bind_all plan_id rest (elim (lookup scope keys) [
        | none ↦ keys
        | some key ↦ insert scope (moved plan_id key) keys
      ])

  -- The loop of `UpdatePlanWithBindings` over the selected keys.
  unfoldable pub all_available : State F → Text → List Text → Result (Unit {0})
  all_available s id [] = ok tt
  all_available s id (scope ∷ rest) = elim (lookup scope s.keys) [
    | none ↦ err no_such_key
    | some key ↦
        refuse (not (is_zero key.deleted_at) && not (text_eq key.plan_id id)) no_such_key
        >> refuse (not (is_empty key.plan_id) && not (text_eq key.plan_id id)) bound_elsewhere
        >> all_available s id rest
  ]

  unfoldable pub check_available : State F → Text → Option (List Text) → Result (Unit {0})
  check_available s id none = ok tt
  check_available s id (some scopes) = all_available s id (normalize_scopes scopes)

  abbrev pub keeps_schedule : QuotaWindow F → QuotaWindow F → Bool
  keeps_schedule old window = text_eq window.id old.id && same_schedule window old

  -- The windows whose cycles an update resets: those that are gone or have another schedule.
  unfoldable pub reset_windows : List (QuotaWindow F) → List (QuotaWindow F) → List Text
  reset_windows updated [] = []
  reset_windows updated (old ∷ rest) =
      let more = reset_windows updated rest in
      if any (keeps_schedule old) updated then more else old.id ∷ more

  -- What an update does to one key: a key of the plan that is not selected leaves it, another one
  -- loses the cycles of the reset windows, and a selected key without a plan joins it.
  unfoldable pub update_key : Text → Option (List Text) → List Text → Text → KeyState F → KeyState F
  unfolding delete_all
  update_key id scopes reset scope key =
      if text_eq key.plan_id id
      then if is_selected scopes scope
        then record key { cycles = delete_all reset key.cycles }
        else moved [] key
      else if joins scopes scope && is_empty key.plan_id
      then moved id key
      else key

  unfoldable pub update_keys :
      Text → Option (List Text) → List Text → Table (KeyState F) → Table (KeyState F)
  update_keys id scopes reset [] = []
  update_keys id scopes reset ((scope, key) ∷ keys) =
      (scope, update_key id scopes reset scope key) ∷ update_keys id scopes reset keys

  unfoldable pub replace_plan : Text → Plan F → List (Plan F) → List (Plan F)
  replace_plan id new [] = []
  replace_plan id new (p ∷ ps) =
      let later = p ∷ replace_plan id new ps in if text_eq p.id id then new ∷ ps else later

  unfoldable pub remove_plan : Text → List (Plan F) → List (Plan F)
  remove_plan id [] = []
  remove_plan id (p ∷ ps) =
      let later = p ∷ remove_plan id ps in if text_eq p.id id then ps else later

  -- The loop of `DeletePlan`: the keys, and how many of them were on the plan.
  unfoldable pub release_keys : Text → Table (KeyState F) → Table (KeyState F) × ℕ
  release_keys id [] = ([], 0)
  release_keys id ((scope, key) ∷ rest) =
      let (keys, released) = release_keys id rest in
      if text_eq key.plan_id id
      then ((scope, moved [] key) ∷ keys, released + 1)
      else ((scope, key) ∷ keys, released)

  -- The function that `DeletePlan` hands to `editConfiguration`.
  unfoldable pub delete_plan_edit : Text → State F → Edit F ℕ
  delete_plan_edit id s = elim (find_plan_id s.plans id) [
    | none ↦ err no_such_plan
    | some plan ↦
        let (keys, released) = release_keys id s.keys in
        ok
          (released, record s { plans = remove_plan id s.plans; keys = keys }, plan_changes [] true)
  ]

module _ {F : Type 0} ⦃fl : Float F⦄ (entropy : ℕ → Result Text) (now : Time) where
  -- A new plan's identifier: the given one, or one made from its name.
  abbrev pub plan_id_for : State F → Plan F → Text
  plan_id_for s plan =
      if is_empty plan.id
      then or_empty (free_id (length s.plans + 1) plan.name (codes "plan") (has_plan s))
      else plan.id

  -- The function that `CreatePlanWithBindings` hands to `editConfiguration`.
  unfoldable pub create_plan_edit : Plan F → List Text → State F → Edit F (Plan F)
  create_plan_edit plan scopes s =
      let id = plan_id_for s plan in
      prepare_windows entropy plan.windows [] now >>= λ windows.
      validate_plan (record plan { id = id; windows = windows })
      >> refuse (has_plan s id) (conflictf "订阅计划 %q 已存在")
      >> all_unbound s scopes
      >> (let created : Plan F = record {
        id = id;
        name = if is_empty plan.name then id else plan.name;
        windows = windows;
      } in
          ok (
            created,
            record s { plans = s.plans ++ created ∷ []; keys = bind_all id scopes s.keys },
            plan_changes scopes false,
          ))

  abbrev pub patched_name : PlanPatch F → Plan F → Text
  patched_name patch plan = elim patch.name [ none ↦ plan.name | some name ↦ trim_space name ]

  unfoldable pub patched_windows :
      Option (List (QuotaWindow F)) → List (QuotaWindow F) → Result (List (QuotaWindow F))
  patched_windows none existing = ok existing
  patched_windows (some windows) existing = prepare_windows entropy windows existing now

  unfoldable pub reset_by :
      Option (List (QuotaWindow F)) → List (QuotaWindow F) → List (QuotaWindow F) → List Text
  reset_by none updated existing = []
  reset_by (some windows) updated existing = reset_windows updated existing

  -- The function that `UpdatePlanWithBindings` hands to `editConfiguration`.
  unfoldable pub update_plan_edit : PlanPatch F → Option (List Text) → State F → Edit F (Plan F)
  unfolding patched_windows reset_by
  update_plan_edit patch scopes s = elim (find_plan_id s.plans patch.id) [
    | none ↦ err no_such_plan
    | some old ↦ patched_windows patch.windows old.windows >>= λ windows.
        let updated : Plan F = record {
          id = old.id;
          name = patched_name patch old;
          windows = windows;
        } in
        validate_plan updated
        >> check_available s patch.id scopes
        >> ok (
          updated,
          record s {
            plans = replace_plan patch.id updated s.plans;
            keys = update_keys patch.id scopes (reset_by patch.windows windows old.windows) s.keys;
          },
          plan_changes [] true,
        )
  ]

module _ {F D : Type 0} ⦃fl : Float F⦄ ⦃repository : Repository F D⦄ where
  -- `CreatePlanWithBindings`
  unfoldable pub create_plan :
      (ℕ → Result Text) → Time → Store F D → Plan F → List Text → Result (Plan F) × Store F D
  create_plan entropy now s plan scopes = edit_configuration s (
      create_plan_edit entropy now
        (record plan { id = trim_space plan.id; name = trim_space plan.name })
        (normalize_scopes scopes))

  -- `UpdatePlanWithBindings`
  unfoldable pub update_plan :
      (ℕ → Result Text)
      → Time
      → Store F D
      → PlanPatch F
      → Option (List Text)
      → Result (Plan F) × Store F D
  update_plan entropy now s patch scopes =
      let patch' : PlanPatch F = record patch { id = trim_space patch.id } in
      if is_empty patch'.id
      then (err no_plan_id, s)
      else edit_configuration s (update_plan_edit entropy now patch' scopes)

  -- `DeletePlan`
  unfoldable pub delete_plan : Store F D → Text → Result ℕ × Store F D
  delete_plan s id =
      let id' = trim_space id in
      if is_empty id' then (err no_plan_id, s) else edit_configuration s (delete_plan_edit id')
