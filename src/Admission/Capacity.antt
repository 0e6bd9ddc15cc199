-- ===== src/Admission/Capacity.antt =====
-- The slots of a group: the counters stay exact under admission, and a limit is never exceeded.
use mathlib.Core.Option.{some-injective}
use cpa_plugin_group_billing.Prelude.{
  ℕ, ◌+◌, ◌≤◌, ◌≡◌, refl, inl, inr, Bool, true, false, Option, none, some, arith, Option-cases,
  subst,
}
use cpa_plugin_group_billing.Prelude.Int64.{pos}
use cpa_plugin_group_billing.Prelude.Table.{lookup, insert}
use cpa_plugin_group_billing.Prelude.Tally.{tally}
use cpa_plugin_group_billing.Prelude.Text.{Text, text_eq_refl, trim_space}
use cpa_plugin_group_billing.Admission.{
  take_group_slot, admit_open, admit_grouped, admit_group, retry_pending, is_full, chosen_model,
}
use cpa_plugin_group_billing.Calendar.{Time}
use cpa_plugin_group_billing.Groups.{ResourceGroup, GroupPolicy, Period, binding, policy}
use cpa_plugin_group_billing.Models.{request_model_owner}
use cpa_plugin_group_billing.Slots.{count_of, group_slot_key}
use cpa_plugin_group_billing.Slots.Counts.{
  IsCounted, has_key, count_of-insert, take_group-IsCounted,
}
use cpa_plugin_group_billing.State.Changes.{no_changes}
use cpa_plugin_group_billing.Store.{Store, Repository, GroupSlot}

abbrev slot_of : Text → ResourceGroup → GroupSlot
slot_of scope group = record { scope = scope; group_id = group.id }

module _ {F D : Type 0} where
  -- The store in which a request has taken a slot of a group.
  abbrev with_slot : Store F D → Text → Text → ResourceGroup → Store F D
  with_slot s scope request group =
      let key = group_slot_key scope group.id in
      record s {
        group_slots = insert request (slot_of scope group) s.group_slots;
        group_active = insert key (count_of key s.group_active + 1) s.group_active;
      }

  module _ (s : Store F D) (scope request : Text) (group : ResourceGroup) (p : GroupPolicy) where
    -- Taking a slot leaves the store as it was, or adds one slot of a free request to a group that
    -- has room.
    take_group_slot_cases {ℓ} :
        (P : Store F D → Type ℓ)
        → P s
        → (lookup (trim_space request) s.group_slots ≡ none
            → lookup (trim_space request) s.active_requests ≡ none
            → is_full p.concurrency_limit (count_of (group_slot_key scope group.id) s.group_active)
              ≡ false
            → P (with_slot s scope (trim_space request) group))
        → P (take_group_slot s scope request group p).1
    unfolding take_group_slot
    take_group_slot_cases P same taken = ground arith

    take_group_slot-IsCounted : IsCounted s → IsCounted (take_group_slot s scope request group p).1
    take_group_slot-IsCounted v = take_group_slot_cases IsCounted v λ free free' _.
        take_group-IsCounted s v (trim_space request) (slot_of scope group) free' free

    -- With status 200 a slot was free below the limit, and the group now holds at most its limit.
    take_group_slot-le :
        (limit : ℕ)
        → p.concurrency_limit ≡ some (pos limit)
        → (take_group_slot s scope request group p).0.status ≡ 200
        → let key = group_slot_key scope group.id in
          count_of key (take_group_slot s scope request group p).1.group_active ≤ limit
    unfolding take_group_slot is_full
    take_group_slot-le limit e h =
        let key = group_slot_key scope group.id in
        ground (
          arith,
          count_of-insert key key (count_of key s.group_active + 1) s.group_active,
          text_eq_refl key,
        )

  admit_grouped_cases {ℓ} :
      (P : Store F D → Type ℓ) (s : Store F D) (scope request model : Text) (plan_id : Option Text)
      (generate : Bool) (now : Time)
      → P s
      → ((group : ResourceGroup) (p : GroupPolicy) → P (take_group_slot s scope request group p).1)
      → P (admit_grouped s scope request model plan_id generate now).1
  unfolding admit_grouped admit_open
  admit_grouped_cases P s scope request model plan_id generate now same taken = grind arith

  admit_grouped-IsCounted :
      (s : Store F D) (scope request model : Text) (plan_id : Option Text) (generate : Bool)
      (now : Time)
      → IsCounted s
      → IsCounted (admit_grouped s scope request model plan_id generate now).1
  admit_grouped-IsCounted s scope request model plan_id generate now v =
      admit_grouped_cases IsCounted s scope request model plan_id generate now v
        λ group p. take_group_slot-IsCounted s scope request group p v

  admit_grouped-le :
      (s : Store F D) (scope request model id : Text) (group : ResourceGroup) (p : GroupPolicy)
      (limit : ℕ) (now : Time)
      → request_model_owner s.state.grouped model now ≡ some group
      → policy s.state.grouped id group.id ≡ some p
      → p.concurrency_limit ≡ some (pos limit)
      → (admit_grouped s scope request model (some id) true now).0.status ≡ 200
      → count_of
          (group_slot_key scope group.id)
          (admit_grouped s scope request model (some id) true now).1.group_active
        ≤ limit
  unfolding admit_grouped admit_open
  admit_grouped-le s scope request model id group p limit now owner allows bound =
      ground (arith, take_group_slot-le s scope request group p limit bound)

module _ {F D : Type 0} ⦃repository : Repository F D⦄ (s : Store F D) (v : IsCounted s) where
  retry_pending_cases {ℓ} :
      (P : Option (Store F D) → Type ℓ)
      → P none
      → P (some s)
      → ((db : D) → P (some (record s { repo = some db; dirty = no_changes })))
      → P (retry_pending s)
  unfolding retry_pending
  retry_pending_cases P failed same saved = grind arith

  -- Saving pending changes touches neither the state nor a slot.
  pub retry_pending-IsCounted :
      (s' : Store F D) → retry_pending s ≡ some s' → IsCounted s' × (s'.state ≡ s.state)
  retry_pending-IsCounted =
      retry_pending_cases
        (λ o. (s' : Store F D) → o ≡ some s' → IsCounted s' × (s'.state ≡ s.state)) (λ s' e. cc)
        (λ s' e. subst (λ t. IsCounted t × (t.state ≡ s.state)) (some-injective _ _ e) (v, refl))
        (λ db s' e.
          subst (λ t. IsCounted t × (t.state ≡ s.state)) (some-injective _ _ e)
            (
              record {
                requests_unique = v.requests_unique;
                slots_unique = v.slots_unique;
                scope_counts = v.scope_counts;
                group_counts = v.group_counts;
                apart = v.apart;
              },
              refl,
            ))

  -- Admission keeps every counter exact, on every branch.
  pub admit_group-IsCounted :
      (scope request model requested : Text) (generate : Bool) (now : Time)
      → IsCounted (admit_group s scope request model requested generate now).1
  unfolding admit_group
  admit_group-IsCounted scope request model requested generate now =
      elim (Option-cases (binding s.state.grouped scope now)) [
        | inl outside ↦ rw (outside, admit_group) v
        | inr (b, inside) ↦ elim (Option-cases (retry_pending s)) [
          | inl failed ↦ rw (inside, failed, admit_group) v
          | inr (s', saved) ↦
              rw (inside, saved, admit_group)
                (admit_grouped-IsCounted s' scope request (chosen_model model requested) b.plan_id
                  generate now (retry_pending-IsCounted s' saved).0)
        ]
      ]

  -- In a store whose counters are exact, a generation that is admitted with a new slot (status 200)
  -- leaves the group within the limit of the plan: no more requests of the key hold slots of the group
  -- than the limit allows.
  pub admit_group_capacity :
      (scope request model requested id : Text) (b : Period) (group : ResourceGroup)
      (p : GroupPolicy) (limit : ℕ) (now : Time)
      → binding s.state.grouped scope now ≡ some b
      → b.plan_id ≡ some id
      → request_model_owner s.state.grouped (chosen_model model requested) now ≡ some group
      → policy s.state.grouped id group.id ≡ some p
      → p.concurrency_limit ≡ some (pos limit)
      → (admit_group s scope request model requested true now).0.status ≡ 200
      → tally
          (has_key (group_slot_key scope group.id))
          (admit_group s scope request model requested true now).1.group_slots
        ≤ limit
  unfolding admit_group
  admit_group_capacity scope request model requested id b group p limit now bound plan owner allows
        most =
      elim (Option-cases (retry_pending s)) [
        | inl failed ↦ rw (bound, failed, admit_group) (λ h. absurd (omega arith))
        | inr (s', saved) ↦
            let (v', same) = retry_pending-IsCounted s' saved in
            let m = chosen_model model requested in
            rw (bound, saved, admit_group, plan)
              λ h.
                rw
                  (← (admit_grouped-IsCounted s' scope request m (some id) true now v').group_counts
                    (group_slot_key scope group.id))
                  (admit_grouped-le s' scope request m id group p limit now (rw same owner)
                    (rw same allows) most h)
      ]
