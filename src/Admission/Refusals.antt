-- ===== src/Admission/Refusals.antt =====
-- internal/billing/group_account.go, AdmitGroup: what a refusal, and a request that generates nothing,
-- leave of the store.
use cpa_plugin_group_billing.Prelude.{
  ◌≡◌, refl, Bool, false, ◌&&◌, Option, some, arith, inl, inr, Option-cases,
}
use cpa_plugin_group_billing.Prelude.Text.{Text}
use cpa_plugin_group_billing.Admission.{
  admit_group, admit_grouped, admit_open, take_group_slot, retry_pending, chosen_model,
}
use cpa_plugin_group_billing.Calendar.{Time}
use cpa_plugin_group_billing.Groups.{binding}
use cpa_plugin_group_billing.Store.{Repository, Store}

module _ {F D : Type 0} where
  -- The state and the slots are the same.
  abbrev pub IsSame : Store F D → Store F D → Type 0
  IsSame s t =
      (t.state ≡ s.state)
      × (t.active_requests ≡ s.active_requests)
      × (t.active_by_scope ≡ s.active_by_scope)
      × (t.group_slots ≡ s.group_slots)
      × (t.group_active ≡ s.group_active)

  admit_grouped-refused :
      (s : Store F D) (scope request model : Text) (plan_id : Option Text) (generate : Bool)
      (now : Time)
      → (admit_grouped s scope request model plan_id generate now).0.allowed && generate ≡ false
      → (admit_grouped s scope request model plan_id generate now).1 ≡ s
  unfolding admit_grouped admit_open take_group_slot
  admit_grouped-refused s scope request model plan_id generate now h = ground arith

module _ {F D : Type 0} ⦃repository : Repository F D⦄ where
  retry_pending-IsSame : (s t : Store F D) → retry_pending s ≡ some t → IsSame s t
  unfolding retry_pending
  retry_pending-IsSame s t e = ground arith

  -- An admission that is refused, and one of a request that generates nothing, changes neither the
  -- state nor a slot; it may have saved pending changes.
  pub admit_group-IsSame :
      (s : Store F D) (scope request model requested : Text) (generate : Bool) (now : Time)
      → (admit_group s scope request model requested generate now).0.allowed && generate ≡ false
      → IsSame s (admit_group s scope request model requested generate now).1
  unfolding admit_group
  admit_group-IsSame s scope request model requested generate now h =
      elim (Option-cases (binding s.state.grouped scope now)) [
        | inl outside ↦ rw (outside, admit_group) (refl, refl, refl, refl, refl)
        | inr (b, inside) ↦ elim (Option-cases (retry_pending s)) [
          | inl failed ↦ rw (inside, failed, admit_group) (refl, refl, refl, refl, refl)
          | inr (t, saved) ↦
              rw
                (
                  inside,
                  saved,
                  admit_group,
                  admit_grouped-refused t scope request (chosen_model model requested) b.plan_id
                      generate now (rw (inside, saved, admit_group) at h),
                )
                (retry_pending-IsSame s t saved)
        ]
      ]
