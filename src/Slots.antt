-- ===== src/Slots.antt =====
-- internal/billing/concurrency.go: the concurrency slots of requests, by key and by key and group.
pub mod Counts
pub mod Release
use cpa_plugin_group_billing.Prelude.{
  ℕ, ◌+◌, ◌-◌, ◌≡◌, refl, Bool, true, false, not, ◌&&◌, ◌||◌, Option, none, some, ltb, leb, ◌++◌,
  ◌∷◌, if◌then◌else◌,
}
use cpa_plugin_group_billing.Prelude.Int64.{ℤ, pos, ltb_ℤ, leb_ℤ}
use cpa_plugin_group_billing.Prelude.Table.{Table, lookup, insert, delete}
use cpa_plugin_group_billing.Prelude.Text.{Text, text_eq, is_empty, trim_space}
use cpa_plugin_group_billing.State.{State}
use cpa_plugin_group_billing.Store.{Store, GroupSlot}

pub record SlotDecision : Type 0 where
  pub allowed : Bool
  pub acquired : Bool
  pub limit : ℤ
  pub active : ℕ

-- A counter that is not in the map reads as zero.
abbrev pub count_of : Text → Table ℕ → ℕ
count_of k m = elim (lookup k m) [ none ↦ 0 | some n ↦ n ]

-- A released slot takes one from its counter, and the last one removes it.
unfoldable pub decrement : Text → Table ℕ → Table ℕ
decrement k m = if ltb 1 (count_of k m) then insert k (count_of k m - 1) m else delete k m

-- `groupSlotKey`
unfoldable pub group_slot_key : Text → Text → Text
group_slot_key scope group_id = scope ++ 0 ∷ group_id

-- The limit of a key; an unknown key has none.
unfoldable pub limit_of : {F : Type 0} → State F → Text → ℤ
limit_of s scope = elim (lookup scope s.keys) [ none ↦ pos 0 | some k ↦ k.concurrency_limit ]

module _ {F D : Type 0} where
  -- `AcquireSlot` behind its checks of the scope, of group slots and of the request ID.
  unfoldable pub acquire_new : Store F D → Text → Text → ℤ → ℕ → SlotDecision × Store F D
  acquire_new s scope request limit active =
      if ltb_ℤ (pos 0) limit && leb_ℤ limit (pos active)
      then (record { allowed = false; acquired = false; limit = limit; active = active }, s)
      else (
        record { allowed = true; acquired = true; limit = limit; active = active + 1 },
        record s {
          active_requests = insert request scope s.active_requests;
          active_by_scope = insert scope (active + 1) s.active_by_scope;
        },
      )

  unfoldable pub acquire_known : Store F D → Text → Text → ℤ → ℕ → SlotDecision × Store F D
  acquire_known s scope request limit active = elim (lookup request s.active_requests) [
    | some owner ↦ (
      record { allowed = text_eq owner scope; acquired = false; limit = limit; active = active },
      s,
    )
    | none ↦ acquire_new s scope request limit active
  ]

  -- `AcquireSlot`
  unfoldable pub acquire_slot : Store F D → Text → Text → SlotDecision × Store F D
  acquire_slot s scope request_id =
      let scope' = trim_space scope in
      let request = trim_space request_id in
      let limit = limit_of s.state scope' in
      let active = count_of scope' s.active_by_scope in
      if is_empty scope'
      then (record { allowed = true; acquired = false; limit = pos 0; active = 0 }, s)
      else elim (lookup request s.group_slots) [
        | some slot ↦ (record { allowed = false; acquired = false; limit = pos 0; active = 0 }, s)
        | none ↦
            if is_empty request
            then (
              record {
                allowed = leb_ℤ limit (pos 0);
                acquired = false;
                limit = limit;
                active = active;
              },
              s,
            )
            else acquire_known s scope' request limit active
      ]

  -- `releaseGroupSlotLocked`
  unfoldable pub release_group_slot : Store F D → Text → Bool × Store F D
  release_group_slot s request = elim (lookup request s.group_slots) [
    | none ↦ (false, s)
    | some slot ↦ (
      true,
      record s {
        group_slots = delete request s.group_slots;
        group_active = decrement (group_slot_key slot.scope slot.group_id) s.group_active;
      },
    )
  ]

  -- `ReleaseSlot`
  unfoldable pub release_slot : Store F D → Text → Bool × Store F D
  release_slot s request_id =
      let request = trim_space request_id in
      if is_empty request then (false, s) else elim (lookup request s.active_requests) [
        | none ↦ release_group_slot s request
        | some scope ↦ (
          true,
          record s {
            active_requests = delete request s.active_requests;
            active_by_scope = decrement scope s.active_by_scope;
          },
        )
      ]
