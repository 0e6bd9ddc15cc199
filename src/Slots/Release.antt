-- ===== src/Slots/Release.antt =====
-- What acquiring and releasing a slot of a key does to the counters.
use cpa_plugin_group_billing.Prelude.{
  ◌≡◌, inl, inr, true, false, none, arith, Option-cases, Bool-cases,
}
use cpa_plugin_group_billing.Prelude.Int64.{ℤ}
use cpa_plugin_group_billing.Prelude.Table.{lookup, lookup-delete}
use cpa_plugin_group_billing.Prelude.Text.{Text, text_eq_refl, is_empty, trim_space}
use cpa_plugin_group_billing.Slots.{
  count_of, limit_of, acquire_new, acquire_known, acquire_slot, release_group_slot, release_slot,
}
use cpa_plugin_group_billing.Slots.Counts.{
  IsCounted, take_scope-IsCounted, give_scope-IsCounted, give_group-IsCounted,
}
use cpa_plugin_group_billing.Store.{Store}

module _ {F D : Type 0} (s : Store F D) (v : IsCounted s) where
  acquire_known-IsCounted :
      (scope request : Text) (limit : ℤ)
      → lookup request s.group_slots ≡ none
      → IsCounted (acquire_known s scope request limit (count_of scope s.active_by_scope)).1
  unfolding acquire_known acquire_new
  acquire_known-IsCounted scope request limit free =
      ground (arith, take_scope-IsCounted s v request scope)

  -- Acquiring a slot keeps every counter exact, whether the slot is granted, refused or held already.
  pub acquire_slot-IsCounted : (scope request : Text) → IsCounted (acquire_slot s scope request).1
  unfolding acquire_slot
  acquire_slot-IsCounted scope request = ground (
    arith,
    acquire_known-IsCounted (trim_space scope) (trim_space request)
        (limit_of s.state (trim_space scope)),
  )

  release_group_slot-IsCounted : (request : Text) → IsCounted (release_group_slot s request).1
  unfolding release_group_slot
  release_group_slot-IsCounted request = elim (Option-cases (lookup request s.group_slots)) [
    | inl absent ↦ rw (absent, release_group_slot) v
    | inr (slot, held) ↦ rw (held, release_group_slot) (give_group-IsCounted s v request slot held)
  ]

  -- Releasing keeps them exact, also for a request that holds no slot.
  pub release_slot-IsCounted : (request : Text) → IsCounted (release_slot s request).1
  unfolding release_slot
  release_slot-IsCounted request = elim (Bool-cases (is_empty (trim_space request))) [
    | inl blank ↦ rw (blank, release_slot) v
    | inr named ↦ elim (Option-cases (lookup (trim_space request) s.active_requests)) [
      | inl absent ↦
          rw (named, absent, release_slot) (release_group_slot-IsCounted (trim_space request))
      | inr (scope, held) ↦
          rw (named, held, release_slot) (give_scope-IsCounted s v (trim_space request) scope held)
    ]
  ]

-- In a store whose counters are exact, a request that has released its slot holds none, and releasing
-- it again is refused and changes nothing.
pub release_slot_twice :
    {F D : Type 0} (s : Store F D)
    → IsCounted s
    → (request : Text) → (release_slot s request).0 ≡ true
    → let s' = (release_slot s request).1 in
      (lookup (trim_space request) s'.active_requests ≡ none)
      × (lookup (trim_space request) s'.group_slots ≡ none)
      × (release_slot s' request ≡ (false, s'))
unfolding release_slot release_group_slot
release_slot_twice s v request = ground (
  arith,
  v.apart (trim_space request),
  lookup-delete (trim_space request) (trim_space request) s.active_requests,
  lookup-delete (trim_space request) (trim_space request) s.group_slots,
  text_eq_refl (trim_space request),
)
