-- ===== src/Host/Completion.antt =====
-- internal/plugin/intercept.go: a request that is completed while its admission is under way, in any
-- interleaving with other calls, ends without a slot.
use cpa_plugin_group_billing.Prelude.{
  ◌≡◌, refl, Bool, false, Option, none, some, arith, ap, ◌∙◌, inl, inr, Option-cases, Bool-cases,
}
use cpa_plugin_group_billing.Prelude.Table.{lookup, lookup-insert, lookup-delete}
use cpa_plugin_group_billing.Prelude.Text.{Text, text_eq, text_eq_refl, is_empty, trim_space}
use cpa_plugin_group_billing.Admission.{
  admit_group, admit_grouped, admit_open, take_group_slot, retry_pending, chosen_model, is_open,
}
use cpa_plugin_group_billing.Calendar.{Time}
use cpa_plugin_group_billing.Float.{Float}
use cpa_plugin_group_billing.GroupConfig.{Clock}
use cpa_plugin_group_billing.Groups.{binding, policy, ResourceGroup, GroupPolicy}
use cpa_plugin_group_billing.Models.{request_model_owner}
use cpa_plugin_group_billing.Host.{App}
use cpa_plugin_group_billing.Host.Held.{authorize-slots}
use cpa_plugin_group_billing.Host.Intercept.{
  InterceptRequest, is_generation, authorize_held, admit_ungrouped, commit_admission,
}
use cpa_plugin_group_billing.Quota.{authorize}
use cpa_plugin_group_billing.Slots.{
  acquire_slot, acquire_known, acquire_new, release_slot, release_group_slot,
}
use cpa_plugin_group_billing.Slots.Counts.{IsCounted}
use cpa_plugin_group_billing.Store.{Repository, Store}

module _ {F D : Type 0} (r : Text) where
  -- The request holds the same slots in both stores.
  abbrev pub SameAt : Store F D → Store F D → Type 0
  SameAt s t =
      (lookup r t.active_requests ≡ lookup r s.active_requests)
      × (lookup r t.group_slots ≡ lookup r s.group_slots)

  SameAt-trans : (s t u : Store F D) → SameAt s t → SameAt t u → SameAt s u
  SameAt-trans s t u (a, b) (c, d) = (c ∙ a, d ∙ b)

  take_group_slot-other :
      (s : Store F D) (scope request : Text) (group : ResourceGroup) (p : GroupPolicy)
      → text_eq (trim_space request) r ≡ false
      → SameAt s (take_group_slot s scope request group p).1
  unfolding take_group_slot
  take_group_slot-other s scope request group p e = ground (
    arith,
    lookup-insert (trim_space request) r (record { scope = scope; group_id = group.id })
        s.group_slots,
  )

  admit_open-other :
      (s : Store F D) (scope request : Text) (group : ResourceGroup) (p : GroupPolicy)
      (generate : Bool) (now : Time)
      → text_eq (trim_space request) r ≡ false
      → SameAt s (admit_open s scope request group p generate now).1
  unfolding admit_open
  admit_open-other s scope request group p generate now e =
      ground (arith, take_group_slot-other s scope request group p)

  admit_grouped-other :
      (s : Store F D) (scope request model : Text) (plan_id : Option Text) (generate : Bool)
      (now : Time)
      → text_eq (trim_space request) r ≡ false
      → SameAt s (admit_grouped s scope request model plan_id generate now).1
  unfolding admit_grouped
  admit_grouped-other s scope request model none generate now e = ground arith
  admit_grouped-other s scope request model (some id) generate now e =
      elim (Option-cases (request_model_owner s.state.grouped model now)) [
        | inl unowned ↦ rw (unowned, admit_grouped) (refl, refl)
        | inr (group, owned) ↦ elim (Option-cases (policy s.state.grouped id group.id)) [
          | inl closed ↦ rw (owned, closed, admit_grouped) (refl, refl)
          | inr (p, there) ↦ elim (Bool-cases (is_open p group)) [
            | inl opened ↦
                rw (owned, there, opened, admit_grouped)
                  (admit_open-other s scope request group p generate now e)
            | inr closed ↦ rw (owned, there, closed, admit_grouped) (refl, refl)
          ]
        ]
      ]

  acquire_slot-other :
      (s : Store F D) (scope request : Text)
      → text_eq (trim_space request) r ≡ false
      → SameAt s (acquire_slot s scope request).1
  unfolding acquire_slot acquire_known acquire_new
  acquire_slot-other s scope request e =
      ground (arith, lookup-insert (trim_space request) r (trim_space scope) s.active_requests)

  pub release_slot-other :
      (s : Store F D) (request : Text)
      → text_eq (trim_space request) r ≡ false
      → SameAt s (release_slot s request).1
  unfolding release_slot release_group_slot
  release_slot-other s request e = ground (
    arith,
    lookup-delete (trim_space request) r s.active_requests,
    lookup-delete (trim_space request) r s.group_slots,
  )

  -- After its release a request holds no slot, where it did not hold one of both kinds.
  pub release_slot-free :
      (s : Store F D) (request : Text)
      → trim_space request ≡ r
      → is_empty r ≡ false
      → IsCounted s
      → let t = (release_slot s request).1 in
        (lookup r t.active_requests ≡ none) × (lookup r t.group_slots ≡ none)
  unfolding release_slot release_group_slot
  release_slot-free s request e named v = ground (
    arith,
    v.apart r,
    lookup-delete r r s.active_requests,
    lookup-delete r r s.group_slots,
    text_eq_refl r,
  )

module _ {F D : Type 0} ⦃fl : Float F⦄ ⦃repository : Repository F D⦄ (r : Text) where
  retry_pending-SameAt : (s t : Store F D) → retry_pending s ≡ some t → SameAt r s t
  unfolding retry_pending
  retry_pending-SameAt s t e = ground arith

  admit_group-other :
      (s : Store F D) (scope request model requested : Text) (generate : Bool) (now : Time)
      → text_eq (trim_space request) r ≡ false
      → SameAt r s (admit_group s scope request model requested generate now).1
  unfolding admit_group
  admit_group-other s scope request model requested generate now e =
      elim (Option-cases (binding s.state.grouped scope now)) [
        | inl outside ↦ rw (outside, admit_group) (refl, refl)
        | inr (b, inside) ↦ elim (Option-cases (retry_pending s)) [
          | inl failed ↦ rw (inside, failed, admit_group) (refl, refl)
          | inr (t, saved) ↦
              let next =
                admit_grouped t scope request (chosen_model model requested) b.plan_id generate
                  now in
              rw (inside, saved, admit_group)
                (SameAt-trans r s t next.1 (retry_pending-SameAt s t saved) (
                  admit_grouped-other r t scope request (chosen_model model requested) b.plan_id
                    generate now e))
        ]
      ]

  authorize-SameAt :
      (s : Store F D) (scope : Text) (at now : Time) → SameAt r s (authorize s scope at now).1
  authorize-SameAt s scope at now =
      let (a, b, c, d) = authorize-slots s scope at now in (ap (lookup r) a, ap (lookup r) c)

  authorize_held-other :
      (clock : Clock) (s : Store F D) (format scope request : Text) (acquired : Bool)
      → text_eq (trim_space request) r ≡ false
      → SameAt r s (authorize_held clock s format scope request acquired).1
  unfolding authorize_held
  authorize_held-other clock s format scope request acquired e =
      let t = (authorize s scope (clock 3) (clock 4)).1 in
      ground (arith, authorize-SameAt s scope (clock 3) (clock 4), release_slot-other r t request)

  admit_ungrouped-other :
      (clock : Clock) (s : Store F D) (format scope request : Text) (generate : Bool)
      → text_eq (trim_space request) r ≡ false
      → SameAt r s (admit_ungrouped clock s format scope request generate).1
  unfolding admit_ungrouped
  admit_ungrouped-other clock s format scope request generate e =
      let (slot, t) = acquire_slot s scope request in
      ground (
        arith,
        acquire_slot-other r s scope request,
        authorize_held-other clock t format scope request slot.acquired,
        authorize_held-other clock s format scope request false,
      )

  pub commit_admission-other :
      (clock : Clock) (a : App F D) (req : InterceptRequest) (scope : Text)
      → text_eq (trim_space req.request_id) r ≡ false
      → SameAt r a.store (commit_admission clock a req scope).1.store
  unfolding commit_admission
  commit_admission-other clock a req scope e =
      let generate = is_generation req.metadata in
      let admitted =
        admit_group a.store scope req.request_id req.model req.requested_model generate (clock 1) in
      ground (
        arith,
        admit_group-other a.store scope req.request_id req.model req.requested_model generate
            (clock 1),
        admit_ungrouped-other clock admitted.1 req.source_format scope req.request_id generate,
      )
