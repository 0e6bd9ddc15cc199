-- ===== src/Examples/Storage.antt =====
-- The theorems on saving, at the example store.
use cpa_plugin_group_billing.Prelude.{ℕ, ◌≡◌, refl, true}
use cpa_plugin_group_billing.Errors.{Result, err, invalidf}
use cpa_plugin_group_billing.Examples.{counting, state_k, store_k}
use cpa_plugin_group_billing.Float.{Nanos}
use cpa_plugin_group_billing.State.{State}
use cpa_plugin_group_billing.State.Changes.{Changes, no_changes}
use cpa_plugin_group_billing.State.Changes.Covered.{IsCovered}
use cpa_plugin_group_billing.Store.{Store, edit_configuration, update_result}
use cpa_plugin_group_billing.Store.Atomic.{edit_configuration_atomic}
use cpa_plugin_group_billing.Store.Durable.{
  Runs, IsDurable, start, later, update, edit, loaded, Runs-IsDurable,
}

abbrev of_plans : Changes Nanos
of_plans = let c : Changes Nanos = no_changes in record c { plans = true }

-- A function that changes nothing and names the plans.
abbrev touch : State Nanos → ℕ × State Nanos × Changes Nanos
touch s = (7, s, of_plans)

abbrev refused : State Nanos → Result (ℕ × State Nanos × Changes Nanos)
refused s = err (invalidf "no")

covers_all : (c : Changes Nanos) → IsCovered c state_k state_k
covers_all c = (
  (λ _. refl),
  (λ _. refl),
  (λ _. refl),
  (λ _. refl),
  (λ _. refl),
  (λ _. refl),
  (λ _. refl),
  (λ k _. refl),
  (λ k _ _. refl),
)

edit_configuration_atomic_example : store_k ≡ store_k
unfolding edit_configuration
edit_configuration_atomic_example =
    edit_configuration_atomic store_k store_k refused (invalidf "no") refl

abbrev touched_store : Store Nanos ℕ
touched_store = (update_result store_k touch).1

-- A live update, and an edit that is refused.
two_writes : Runs store_k (edit_configuration touched_store refused).1
two_writes =
    later (later start (update touch (covers_all of_plans)))
      (edit refused (λ value next changes e. cc))

Runs-IsDurable_example : IsDurable 0 state_k (edit_configuration touched_store refused).1
Runs-IsDurable_example =
    Runs-IsDurable 0 state_k store_k (edit_configuration touched_store refused).1 two_writes
      (0, state_k, refl, loaded, covers_all no_changes)
