-- ===== src/Admission.antt =====
-- internal/billing/group_account.go, AdmitGroup and GroupCredentialPolicy: the admission of a request
-- to the resource group of its model.
pub mod Reasons
pub mod History
pub mod Capacity
pub mod Refusals
use Prim.Native.String.{String}
use cpa_plugin_group_billing.Prelude.{
  ℕ, ◌+◌, ◌≡◌, refl, Bool, true, false, not, ◌&&◌, ◌||◌, Option, none, some, [], if◌then◌else◌,
}
use cpa_plugin_group_billing.Prelude.Int64.{ℤ, pos, leb_ℤ, sub64}
use cpa_plugin_group_billing.Prelude.Table.{Table, lookup, insert}
use cpa_plugin_group_billing.Prelude.Text.{Text, text_eq, is_empty, trim_space}
use cpa_plugin_group_billing.Calendar.{Time, group_date, next_group_day}
use cpa_plugin_group_billing.Groups.{
  GroupPool, ResourceGroup, GroupPolicy, GroupDay, GroupState, Status, published, new_day, day_key,
  binding, policy,
}
use cpa_plugin_group_billing.Models.{request_model_owner}
use cpa_plugin_group_billing.Slots.{count_of, group_slot_key}
use cpa_plugin_group_billing.State.Changes.{no_changes, is_unchanged}
use cpa_plugin_group_billing.Store.{Store, Repository, GroupSlot}

-- The texts of the constructors; `no_code` is the empty one.
pub data Code : Type 0 where
  no_code accounting_unavailable model_not_grouped group_disabled : Code
  group_quota_exceeded group_concurrency_exceeded : Code

pub record GroupDecision : Type 0 where
  pub handled : Bool
  pub allowed : Bool
  pub code : Code
  pub group_id : Text
  pub message : String
  pub status : ℕ
  pub retry_at : Option Time

abbrev pub not_handled : GroupDecision
not_handled = record {
  handled = false;
  allowed = true;
  code = no_code;
  group_id = [];
  message = "";
  status = 0;
  retry_at = none;
}

-- `deny`
abbrev pub denied : Text → Code → String → ℕ → GroupDecision
denied group_id code message status = record {
  handled = true;
  allowed = false;
  code = code;
  group_id = group_id;
  message = message;
  status = status;
  retry_at = none;
}

abbrev pub admitted : Text → ℕ → GroupDecision
admitted group_id status = record {
  handled = true;
  allowed = true;
  code = no_code;
  group_id = group_id;
  message = "";
  status = status;
  retry_at = none;
}

abbrev is_published : Status → Bool
is_published published = true
is_published _ = false

-- The group is open to the plan by this policy.
unfoldable pub is_open : GroupPolicy → ResourceGroup → Bool
is_open p group = p.enabled && group.enabled && is_published group.status

-- The ledger of a day; a missing entry reads as an empty one.
abbrev pub day_of : GroupState → Text → Text → Text → GroupDay
day_of g scope group_id date = elim (lookup (day_key scope group_id date) g.days) [
  | none ↦ new_day [] [] []
  | some d ↦ d
]

-- The day's charge has reached the limit.
unfoldable pub is_used_up : Option ℤ → GroupDay → Bool
is_used_up none d = false
is_used_up (some limit) d = leb_ℤ limit (sub64 d.raw d.credit)

unfoldable pub is_full : Option ℤ → ℕ → Bool
is_full none count = false
is_full (some limit) count = leb_ℤ limit (pos count)

abbrev pub chosen_model : Text → Text → Text
chosen_model model requested = if is_empty requested then model else requested

module _ {F D : Type 0} where
  -- The slot of a generation: a retry keeps its slot, and a new request takes one if there is room.
  unfoldable pub take_group_slot :
      Store F D → Text → Text → ResourceGroup → GroupPolicy → GroupDecision × Store F D
  take_group_slot s scope request_id group p =
      let request = trim_space request_id in
      let key = group_slot_key scope group.id in
      let count = count_of key s.group_active in
      if is_empty request
      then (denied group.id accounting_unavailable "宿主未提供生命周期请求 ID" 503, s)
      else elim (lookup request s.group_slots) [
        | some slot ↦
            if not (text_eq slot.scope scope) || not (text_eq slot.group_id group.id)
            then (denied group.id accounting_unavailable "重复请求的计费主体或分组不一致" 503, s)
            else (admitted group.id 403, s)
        | none ↦ elim (lookup request s.active_requests) [
          | some owner ↦ (denied group.id accounting_unavailable "请求已在旧计费模式准入" 503, s)
          | none ↦
              if is_full p.concurrency_limit count
              then (denied group.id group_concurrency_exceeded "此资源组并发已满" 429, s)
              else (
                admitted group.id 200,
                record s {
                  group_slots =
                      insert request (record { scope = scope; group_id = group.id }) s.group_slots;
                  group_active = insert key (count + 1) s.group_active;
                },
              )
        ]
      ]

  -- The checks of a group that the plan opens: its ledger, its quota and the slot.
  unfoldable pub admit_open :
      Store F D
      → Text
      → Text
      → ResourceGroup
      → GroupPolicy
      → Bool
      → Time
      → GroupDecision × Store F D
  admit_open s scope request_id group p generate now =
      let day = day_of s.state.grouped scope group.id (group_date now) in
      let over : GroupDecision = record (denied group.id group_quota_exceeded "此资源组当日额度已用尽" 429) {
        retry_at = some (next_group_day now);
      } in
      if not (is_empty day.accounting_error)
      then (denied group.id accounting_unavailable "本组存在金额溢出或核算错误，需要管理员对账" 503, s)
      else if is_used_up p.daily_limit day
      then (over, s)
      else if generate
      then take_group_slot s scope request_id group p
      else (admitted group.id 200, s)

  admit_policy :
      Store F D
      → Text
      → Text
      → ResourceGroup
      → Option GroupPolicy
      → Bool
      → Time
      → GroupDecision × Store F D
  admit_policy s scope request_id group none generate now =
      (denied group.id group_disabled "当前套餐未开放此资源组" 403, s)
  admit_policy s scope request_id group (some p) generate now =
      if is_open p group
      then admit_open s scope request_id group p generate now
      else (denied group.id group_disabled "当前套餐未开放此资源组" 403, s)

  -- The checks behind the ledger's: the model's group, the plan and its policy.
  unfoldable pub admit_grouped :
      Store F D → Text → Text → Text → Option Text → Bool → Time → GroupDecision × Store F D
  unfolding admit_policy
  admit_grouped s scope request_id model plan_id generate now =
      elim (request_model_owner s.state.grouped model now) [
        | none ↦ (denied [] model_not_grouped "模型未归入已发布的资源组" 403, s)
        | some group ↦ elim plan_id [
          | none ↦ (denied group.id group_disabled "分组计划不可用" 403, s)
          | some id ↦
              admit_policy s scope request_id group (policy s.state.grouped id group.id) generate
                now
        ]
      ]

  -- `GroupCredentialPolicy`: the pool, whether the key is grouped, and whether the group is open.
  unfoldable pub group_credential_policy :
      Store F D → Text → Text → Text → Time → Option GroupPool × Bool × Bool
  group_credential_policy s scope model requested now = elim (binding s.state.grouped scope now) [
    | none ↦ (none, false, true)
    | some b ↦ elim (request_model_owner s.state.grouped (chosen_model model requested) now) [
      | none ↦ (none, true, false)
      | some group ↦ elim b.plan_id [
        | none ↦ (none, true, false)
        | some id ↦ elim (policy s.state.grouped id group.id) [
          | none ↦ (some group.pool, true, false)
          | some p ↦ (some group.pool, true, is_open p group)
        ]
      ]
    ]
  ]

module _ {F D : Type 0} ⦃repository : Repository F D⦄ where
  -- Pending writes are saved before new spending is considered. `none` is a failure.
  unfoldable pub retry_pending : Store F D → Option (Store F D)
  retry_pending s = if is_unchanged s.dirty then some s else elim s.repo [
    | none ↦ none
    | some db ↦ elim (repository.save db s.state s.dirty) [
      | none ↦ none
      | some db' ↦ some (record s { repo = some db'; dirty = no_changes })
    ]
  ]

  -- `AdmitGroup`
  unfoldable pub admit_group :
      Store F D → Text → Text → Text → Text → Bool → Time → GroupDecision × Store F D
  admit_group s scope request_id model requested generate now =
      elim (binding s.state.grouped scope now) [
        | none ↦ (not_handled, s)
        | some b ↦ elim (retry_pending s) [
          | none ↦ (denied [] accounting_unavailable "计费账本尚未保存，请稍后重试" 503, s)
          | some s' ↦
              admit_grouped s' scope request_id (chosen_model model requested) b.plan_id generate
                now
        ]
      ]
