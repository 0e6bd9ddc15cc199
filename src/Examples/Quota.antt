-- ===== src/Examples/Quota.antt =====
-- The theorems on quota cycles and on the binding of keys, at a plan with one daily window.
use cpa_plugin_group_billing.Identity.{preview_key}
use cpa_plugin_group_billing.Keys.Sync.{scope_of}
use cpa_plugin_group_billing.Prelude.{
  if◌then◌else◌, ◌+◌, ◌*◌, ◌≡◌, refl, true, some, List, [], ◌∷◌, ◌⊎◌, arith,
}
use cpa_plugin_group_billing.Prelude.Int64.{pos}
use cpa_plugin_group_billing.Prelude.Table.{lookup, insert}
use cpa_plugin_group_billing.Prelude.Text.{Text, codes, text_eq, trim_space}
use cpa_plugin_group_billing.Calendar.{second}
use cpa_plugin_group_billing.Examples.{scope_k, new_year, key_k, state_k}
use cpa_plugin_group_billing.Float.{Nanos, nanos_float}
use cpa_plugin_group_billing.Quota.{QuotaUsage, charge_cycles, is_charged}
use cpa_plugin_group_billing.Quota.Charges.{charge_cycles-counts}
use cpa_plugin_group_billing.Errors.{ok}
use cpa_plugin_group_billing.Keys.{bind_edit}
use cpa_plugin_group_billing.Keys.Binding.{bind_edit-key}
use cpa_plugin_group_billing.Keys.Sync.{sync_edit, listed_scopes}
use cpa_plugin_group_billing.Keys.Sync.Listing.{synced, sync_edit-keys}
use cpa_plugin_group_billing.State.Changes.{Changes, no_changes}
use cpa_plugin_group_billing.State.{
  State, find_plan, live_key, QuotaWindow, QuotaCycle, Plan, KeyState,
}

abbrev window_w : QuotaWindow Nanos
window_w = record {
  id = codes "w";
  name = codes "w";
  period_seconds = pos 86_400;
  amount = some 0;
  token_limit = pos 1000;
  request_limit = pos 0;
  cycle_anchor_at = second;
}

abbrev plan_s : Plan Nanos
plan_s = record { id = codes "s"; name = codes "s"; windows = window_w ∷ [] }

abbrev key_s : KeyState Nanos
key_s = record key_k { plan_id = codes "s" }

abbrev cycle_c : QuotaCycle Nanos
cycle_c = record {
  plan_id = codes "s";
  start_at = new_year;
  end_at = new_year + 86_400 * second;
  usage_since = 0;
  spent = some 0;
  used_tokens = pos 10;
  used_requests = pos 1;
}

abbrev key_c : KeyState Nanos
key_c = record key_s { cycles = (codes "w", cycle_c) ∷ [] }

abbrev usage_u : QuotaUsage Nanos
usage_u = record { amount = some 5; tokens = pos 100; requests = pos 1 }

has_cycle : lookup (codes "w") key_c.cycles ≡ some cycle_c
unfolding lookup text_eq
has_cycle = refl

running : is_charged cycle_c (codes "s") (new_year + second) ≡ true
unfolding is_charged text_eq
running = refl

charge_cycles-counts_example :
    (c' : QuotaCycle Nanos) × (lookup
        (codes "w")
        (charge_cycles key_c (new_year + second) usage_u).cycles
      ≡ some c')
    × (c'.used_tokens ≡ pos 110)
    × (c'.used_requests ≡ pos 2)
    × (c'.start_at ≡ new_year)
    × (c'.end_at ≡ new_year + 86_400 * second)
charge_cycles-counts_example =
    charge_cycles-counts key_c (codes "w") (new_year + second) usage_u cycle_c 10 1 100 1 has_cycle
      refl refl refl refl (omega arith) (omega arith) (omega arith) (omega arith) refl refl running

abbrev state_q : State Nanos
state_q = record state_k { plans = plan_s ∷ [] }

abbrev bound : State Nanos
unfolding insert text_eq
bound = record state_q { keys = insert scope_k key_s state_q.keys }

abbrev of_k : Changes Nanos
of_k = let c : Changes Nanos = no_changes in record c { keys = scope_k ∷ [] }

binds : bind_edit scope_k (codes "s") state_q ≡ ok (tt, bound, of_k)
unfolding bind_edit find_plan live_key lookup insert text_eq trim_space
binds = refl

bind_edit-key_example :
    (plan : Plan Nanos) × (old new : KeyState Nanos) × (find_plan state_q (codes "s") ≡ some plan)
    × (live_key state_q scope_k ≡ some old)
    × (lookup [] bound.keys ≡ (if text_eq scope_k [] then some new else lookup [] state_q.keys))
    × (new.plan_id ≡ plan.id)
    × (new.cycles ≡ (if text_eq old.plan_id plan.id then old.cycles else []))
bind_edit-key_example = bind_edit-key scope_k (codes "s") [] state_q bound tt of_k binds

abbrev scope_hash : Text → Text
scope_hash v = scope_k

abbrev listed_key : List Text
listed_key = codes "secret" ∷ []

abbrev synced_state : State Nanos
synced_state = record state_k { keys = (scope_k, record key_k { preview = codes "******" }) ∷ [] }

syncs :
    sync_edit (listed_scopes scope_hash listed_key []) new_year state_k
    ≡ ok (
      record { added = 0; deleted = 0 },
      synced_state,
      let c : Changes Nanos = no_changes in record c { all_keys = true },
    )
unfolding sync_edit listed_scopes scope_of trim_space insert lookup preview_key
syncs = refl

sync_edit-keys_example :
    (lookup scope_k synced_state.keys
      ≡ synced new_year
          (lookup scope_k (listed_scopes scope_hash listed_key []))
          (lookup scope_k state_k.keys))
    × ((true ≡ true) ⊎ (lookup scope_k synced_state.keys ≡ lookup scope_k state_k.keys))
sync_edit-keys_example =
    sync_edit-keys scope_hash listed_key new_year state_k synced_state
      (record { added = 0; deleted = 0 })
      (let c : Changes Nanos = no_changes in record c { all_keys = true }) scope_k syncs
