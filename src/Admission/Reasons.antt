-- ===== src/Admission/Reasons.antt =====
-- When a request is admitted to a group, and that nothing else refuses it.
use cpa_plugin_group_billing.Prelude.{
  ◌≡◌, Bool, true, false, Option, none, some, arith, Option-cases, inl, inr, subst, sym,
}
use cpa_plugin_group_billing.Prelude.Table.{lookup, lookup-insert_self}
use cpa_plugin_group_billing.Prelude.Text.{Text, is_empty, trim_space}
use cpa_plugin_group_billing.Admission.{
  take_group_slot, admit_open, admit_grouped, admit_group, retry_pending, is_full, is_open,
  is_used_up, day_of, chosen_model,
}
use cpa_plugin_group_billing.Calendar.{Time, group_date}
use cpa_plugin_group_billing.Groups.{
  GroupState, ResourceGroup, GroupPolicy, Period, binding, policy,
}
use cpa_plugin_group_billing.Models.{request_model_owner}
use cpa_plugin_group_billing.Slots.{count_of, group_slot_key}
use cpa_plugin_group_billing.State.{State}
use cpa_plugin_group_billing.Store.{Store, Repository, GroupSlot}

-- A published group owns the model, the plan of the key opens it, and its ledger of the day is sound
-- and below the plan's limit.
pub record IsPermitted (g : GroupState) (scope model : Text) (plan_id : Option Text) (now : Time)
    (group : ResourceGroup) (p : GroupPolicy) : Type 0 where
  pub owner : request_model_owner g model now ≡ some group
  pub plan : Text
  pub planned : plan_id ≡ some plan
  pub allows : policy g plan group.id ≡ some p
  pub opened : is_open p group ≡ true
  pub sound : is_empty (day_of g scope group.id (group_date now)).accounting_error ≡ true
  pub below : is_used_up p.daily_limit (day_of g scope group.id (group_date now)) ≡ false

module _ {F D : Type 0} (s : Store F D) (scope request model : Text) (plan_id : Option Text) where
  admit_grouped-IsPermitted :
      (generate : Bool) (now : Time)
      → (admit_grouped s scope request model plan_id generate now).0.allowed ≡ true
      → (group : ResourceGroup) × (p : GroupPolicy) × IsPermitted s.state.grouped scope model
          plan_id now group p
  unfolding admit_grouped admit_open
  admit_grouped-IsPermitted generate now h =
      elim (Option-cases (request_model_owner s.state.grouped model now)) [
        | inl missing ↦ absurd (ground arith)
        | inr (group, owner) ↦ elim (Option-cases plan_id) [
          | inl unplanned ↦ absurd (ground arith)
          | inr (plan, planned) ↦ elim (Option-cases (policy s.state.grouped plan group.id)) [
            | inl refused ↦ absurd (ground arith)
            | inr (p, allows) ↦ (
              group,
              p,
              record {
                owner = owner;
                plan = plan;
                planned = planned;
                allows = allows;
                opened = ground arith;
                sound = ground arith;
                below = ground arith;
              },
            )
          ]
        ]
      ]

  -- The only other reasons to refuse a new generation are a blank request ID, a slot in the other
  -- mode, a slot of another key or group, and a full group.
  admit_grouped_room :
      (now : Time) (group : ResourceGroup) (p : GroupPolicy)
      → IsPermitted s.state.grouped scope model plan_id now group p
      → is_empty (trim_space request) ≡ false
      → lookup (trim_space request) s.active_requests ≡ none
      → lookup (trim_space request) s.group_slots ≡ none
      → is_full p.concurrency_limit (count_of (group_slot_key scope group.id) s.group_active)
        ≡ false
      → (admit_grouped s scope request model plan_id true now).0.allowed ≡ true
  unfolding admit_grouped admit_open take_group_slot
  admit_grouped_room now group p permit named free free' room =
      let e = permit.owner in
      let f = permit.planned in
      let g = permit.allows in
      let h = permit.opened in let i = permit.sound in let j = permit.below in ground arith

  admit_grouped-holds :
      (now : Time) (group : ResourceGroup) (p : GroupPolicy)
      → IsPermitted s.state.grouped scope model plan_id now group p
      → is_empty (trim_space request) ≡ false
      → lookup (trim_space request) s.active_requests ≡ none
      → lookup (trim_space request) s.group_slots ≡ none
      → is_full p.concurrency_limit (count_of (group_slot_key scope group.id) s.group_active)
        ≡ false
      → lookup
          (trim_space request)
          (admit_grouped s scope request model plan_id true now).1.group_slots
        ≡ some (record { scope = scope; group_id = group.id })
  unfolding admit_grouped admit_open take_group_slot
  admit_grouped-holds now group p permit named free free' room =
      let slot : GroupSlot = record { scope = scope; group_id = group.id } in
      let e = permit.owner in
      let f = permit.planned in
      let g = permit.allows in
      let h = permit.opened in
      let i = permit.sound in
      let j = permit.below in
      ground (arith, lookup-insert_self (trim_space request) slot s.group_slots)

module _ {F D : Type 0} ⦃repository : Repository F D⦄ (s : Store F D) where
  -- Saving pending changes leaves the state and the slots alone.
  pub retry_pending-same :
      (s' : Store F D)
      → retry_pending s ≡ some s'
      → (s'.state ≡ s.state)
        × (s'.active_requests ≡ s.active_requests)
        × (s'.group_slots ≡ s.group_slots)
        × (s'.group_active ≡ s.group_active)
  unfolding retry_pending
  retry_pending-same s' e = ground arith

  module _ (scope request model requested : Text) (b : Period) (now : Time)
      (inside : binding s.state.grouped scope now ≡ some b) where
    -- A key in a grouped period is admitted only if its pending charges are saved, a published group
    -- owns the requested model, the plan of the period opens that group, and the group's ledger of the
    -- day has no accounting error and is below the daily limit.
    pub admit_group-IsPermitted :
        (generate : Bool)
        → (admit_group s scope request model requested generate now).0.allowed ≡ true
        → (s' : Store F D) × (retry_pending s ≡ some s')
          × (group : ResourceGroup) × (p : GroupPolicy) × IsPermitted s.state.grouped scope
              (chosen_model model requested)
              b.plan_id
              now
              group
              p
    unfolding admit_group
    admit_group-IsPermitted generate h = elim (Option-cases (retry_pending s)) [
      | inl failed ↦ absurd (ground arith)
      | inr (s', saved) ↦
          let (same, _, _, _) = retry_pending-same s' saved in
          let (group, p, permit) =
            admit_grouped-IsPermitted s' scope request (chosen_model model requested) b.plan_id
              generate now (rw (inside, saved, admit_group) at h) in
          (
            s',
            saved,
            group,
            p,
            subst
                (λ (t : State F).
                  IsPermitted t.grouped scope (chosen_model model requested) b.plan_id now group p)
                same permit,
          )
    ]

    -- Conversely a new generation is then admitted, and holds a slot of its group, if its request ID is
    -- not blank and holds no slot, and the group has room.
    pub admit_group_room :
        (s' : Store F D) (group : ResourceGroup) (p : GroupPolicy)
        → retry_pending s ≡ some s'
        → IsPermitted s.state.grouped scope (chosen_model model requested) b.plan_id now group p
        → is_empty (trim_space request) ≡ false
        → lookup (trim_space request) s.active_requests ≡ none
        → lookup (trim_space request) s.group_slots ≡ none
        → is_full p.concurrency_limit (count_of (group_slot_key scope group.id) s.group_active)
          ≡ false
        → let (d, after) = admit_group s scope request model requested true now in
          (d.allowed ≡ true)
          × (lookup (trim_space request) after.group_slots
              ≡ some (record { scope = scope; group_id = group.id }))
    unfolding admit_group
    admit_group_room s' group p saved permit named free free' room =
        let (same, requests, slots, counts) = retry_pending-same s' saved in
        let m = chosen_model model requested in
        let permit' : IsPermitted s'.state.grouped scope m b.plan_id now group p =
          subst (λ (t : State F). IsPermitted t.grouped scope m b.plan_id now group p) (sym same)
            permit in
        rw (inside, saved, admit_group)
          (
            admit_grouped_room s' scope request m b.plan_id now group p permit' named
                (rw requests free) (rw slots free') (rw counts room),
            admit_grouped-holds s' scope request m b.plan_id now group p permit' named
                (rw requests free) (rw slots free') (rw counts room),
          )
