-- ===== src/Examples/Admission.antt =====
-- The theorems on admission and on the slots, at the example store.
use cpa_plugin_group_billing.Prelude.{
  ◌&&◌, ℕ, ◌≤◌, ◌≡◌, refl, true, false, none, some, [], inl, any,
}
use cpa_plugin_group_billing.Prelude.Int64.{sub64}
use cpa_plugin_group_billing.Prelude.Table.{lookup, insert}
use cpa_plugin_group_billing.Prelude.Tally.{tally}
use cpa_plugin_group_billing.Prelude.Text.{text_eq, to_lower, trim_space}
use cpa_plugin_group_billing.Admission.{
  admit_group, retry_pending, is_open, is_used_up, is_full, admit_grouped, admit_open,
  take_group_slot,
}
use cpa_plugin_group_billing.Admission.Capacity.{admit_group_capacity}
use cpa_plugin_group_billing.Admission.History.{Step, Reach, Reach-IsCounted}
use cpa_plugin_group_billing.Admission.Refusals.{IsSame, admit_group-IsSame}
use cpa_plugin_group_billing.Admission.Reasons.{
  IsPermitted, admit_group-IsPermitted, admit_group_room,
}
use cpa_plugin_group_billing.Examples.{
  counting, scope_k, id_g, id_p, model_m, request_r, new_year, group_g, two_at_once, period_p,
  groups_k, store_k,
}
use cpa_plugin_group_billing.Float.{Nanos}
use cpa_plugin_group_billing.Groups.{
  ResourceGroup, GroupPolicy, binding, model_owner, group_model, owns, policy,
}
use cpa_plugin_group_billing.Models.{request_model_owner, model_without_thinking_suffix}
use cpa_plugin_group_billing.State.Changes.{is_unchanged}
use cpa_plugin_group_billing.Slots.{
  group_slot_key, acquire_slot, release_slot, acquire_new, acquire_known, limit_of,
}
use cpa_plugin_group_billing.Slots.Counts.{IsCounted, has_key}
use cpa_plugin_group_billing.Slots.Release.{release_slot_twice}
use cpa_plugin_group_billing.Store.{Store, new_store, close}

pub no_slots : IsCounted store_k
no_slots = record {
  requests_unique = tt;
  slots_unique = tt;
  scope_counts = λ k. unfold lookup tally in refl;
  group_counts = λ k. unfold lookup tally in refl;
  apart = λ k. inl (unfold lookup in refl);
}

binds : binding groups_k scope_k new_year ≡ some period_p
unfolding binding lookup text_eq
binds = refl

owner_m : request_model_owner groups_k model_m new_year ≡ some group_g
unfolding request_model_owner model_owner group_model to_lower trim_space owns any text_eq
owner_m = refl

allows_m : policy groups_k id_p id_g ≡ some two_at_once
unfolding policy lookup text_eq
allows_m = refl

permitted : IsPermitted groups_k scope_k model_m (some id_p) new_year group_g two_at_once
unfolding is_open is_used_up sub64 lookup
permitted = record {
  owner = owner_m;
  plan = id_p;
  planned = refl;
  allows = allows_m;
  opened = refl;
  sound = refl;
  below = refl;
}

free : lookup request_r store_k.active_requests ≡ none
unfolding lookup
free = refl

admit_group_room_example :
    ((admit_group store_k scope_k request_r model_m [] true new_year).0.allowed ≡ true)
    × (lookup request_r
          (admit_group store_k scope_k request_r model_m [] true new_year).1.group_slots
        ≡ some (record { scope = scope_k; group_id = id_g }))
unfolding retry_pending is_unchanged trim_space is_full lookup
admit_group_room_example =
    admit_group_room store_k scope_k request_r model_m [] period_p new_year binds store_k group_g
      two_at_once refl permitted refl free refl refl

admits : (admit_group store_k scope_k request_r model_m [] true new_year).0.status ≡ 200
unfolding admit_group retry_pending is_unchanged admit_grouped request_model_owner model_owner
    group_model to_lower trim_space owns any text_eq policy lookup binding is_open admit_open
    is_used_up sub64 take_group_slot is_full
admits = refl

admit_group_capacity_example :
    tally
      (has_key (group_slot_key scope_k id_g))
      (admit_group store_k scope_k request_r model_m [] true new_year).1.group_slots
    ≤ 2
admit_group_capacity_example =
    admit_group_capacity store_k no_slots scope_k request_r model_m [] id_p period_p group_g
      two_at_once 2 new_year binds refl owner_m allows_m refl admits

admit_group-IsPermitted_example :
    (s' : Store Nanos ℕ) × (retry_pending store_k ≡ some s')
    × (group : ResourceGroup) × (p : GroupPolicy) × IsPermitted groups_k scope_k model_m
        (some id_p)
        new_year
        group
        p
admit_group-IsPermitted_example =
    admit_group-IsPermitted store_k scope_k request_r model_m [] period_p new_year binds true
      admit_group_room_example.0

refuses :
    (admit_group store_k scope_k request_r request_r [] false new_year).0.allowed && false ≡ false
unfolding admit_group retry_pending is_unchanged admit_grouped request_model_owner model_owner
    group_model to_lower trim_space owns any text_eq lookup binding model_without_thinking_suffix
refuses = refl

admit_group-IsSame_example :
    IsSame store_k (admit_group store_k scope_k request_r request_r [] false new_year).1
admit_group-IsSame_example =
    admit_group-IsSame store_k scope_k request_r request_r [] false new_year refuses

-- A key takes a slot and releases it, and the store is closed.
abbrev acquired : Store Nanos ℕ
acquired = (acquire_slot new_store scope_k request_r).1

history : Reach (close (release_slot acquired request_r).1)
history =
    Reach.later
      (Reach.later (Reach.later Reach.start (Step.acquire scope_k request_r))
        (Step.release request_r))
      Step.stop

Reach-IsCounted_example : IsCounted (close (release_slot acquired request_r).1)
Reach-IsCounted_example = Reach-IsCounted history

acquired-IsCounted : IsCounted acquired
acquired-IsCounted = Reach-IsCounted (Reach.later Reach.start (Step.acquire scope_k request_r))

release_slot_twice_example :
    let s' = (release_slot acquired request_r).1 in
    (lookup request_r s'.active_requests ≡ none)
    × (lookup request_r s'.group_slots ≡ none)
    × (release_slot s' request_r ≡ (false, s'))
unfolding acquire_slot acquire_new acquire_known limit_of release_slot trim_space lookup insert
    text_eq
release_slot_twice_example = release_slot_twice acquired acquired-IsCounted request_r refl
