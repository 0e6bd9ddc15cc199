-- ===== src/Admission/History.antt =====
-- internal/billing/store.go, concurrency.go and group_account.go: the store under any sequence of the
-- operations that hold its lock.
use cpa_plugin_group_billing.Prelude.{refl, inl, Bool, Option, arith}
use cpa_plugin_group_billing.Prelude.Table.{lookup}
use cpa_plugin_group_billing.Prelude.Tally.{tally}
use cpa_plugin_group_billing.Prelude.Text.{Text}
use cpa_plugin_group_billing.Admission.{admit_group}
use cpa_plugin_group_billing.Admission.Capacity.{admit_group-IsCounted}
use cpa_plugin_group_billing.Calendar.{Time}
use cpa_plugin_group_billing.Errors.{Result}
use cpa_plugin_group_billing.Slots.{acquire_slot, release_slot}
use cpa_plugin_group_billing.Slots.Counts.{IsCounted}
use cpa_plugin_group_billing.Slots.Release.{acquire_slot-IsCounted, release_slot-IsCounted}
use cpa_plugin_group_billing.State.{State}
use cpa_plugin_group_billing.State.Changes.{Changes}
use cpa_plugin_group_billing.Store.{
  Repository, Store, new_store, close, flush, update_result, commit, publish, edit_configuration,
}

-- One operation under the lock of the store.
pub data Step {F D : Type 0} ⦃repository : Repository F D⦄ (s : Store F D)
    : Store F D → Type 1 where
  acquire : (scope request : Text) → Step s (acquire_slot s scope request).1
  admit :
      (scope request model requested : Text) (generate : Bool) (now : Time)
      → Step s (admit_group s scope request model requested generate now).1
  release : (request : Text) → Step s (release_slot s request).1
  update : {T : Type 0} (fn : State F → T × State F × Changes F) → Step s (update_result s fn).1
  edit :
      {T : Type 0} (fn : State F → Result (T × State F × Changes F))
      → Step s (edit_configuration s fn).1
  stop : Step s (close s)

-- The stores that a new store reaches.
pub data Reach {F D : Type 0} ⦃repository : Repository F D⦄ : Store F D → Type 1 where
  start : Reach new_store
  later : {s t : Store F D} → Reach s → Step s t → Reach t

module _ {F D : Type 0} ⦃repository : Repository F D⦄ where
  new_store-IsCounted : IsCounted (new_store {F = F} {D = D})
  new_store-IsCounted = record {
    requests_unique = tt;
    slots_unique = tt;
    scope_counts = λ k. unfold lookup tally in refl;
    group_counts = λ k. unfold lookup tally in refl;
    apart = λ k. inl (unfold lookup in refl);
  }

  close-IsCounted : (s : Store F D) → IsCounted (close s)
  unfolding close
  close-IsCounted s = record {
    requests_unique = tt;
    slots_unique = tt;
    scope_counts = λ k. unfold lookup tally in refl;
    group_counts = λ k. unfold lookup tally in refl;
    apart = λ k. inl (unfold lookup in refl);
  }

  with_data-IsCounted :
      (s : Store F D) (state : State F) (repo : Option D) (dirty : Changes F)
      → IsCounted s
      → IsCounted (record s { state = state; repo = repo; dirty = dirty })
  with_data-IsCounted s state repo dirty v = record {
    requests_unique = v.requests_unique;
    slots_unique = v.slots_unique;
    scope_counts = v.scope_counts;
    group_counts = v.group_counts;
    apart = v.apart;
  }

  -- Neither a live update nor an edit touches a slot.
  update_result-IsCounted :
      {T : Type 0} (s : Store F D) (fn : State F → T × State F × Changes F)
      → IsCounted s
      → IsCounted (update_result s fn).1
  unfolding update_result flush
  update_result-IsCounted s fn v =
      let keep = λ (x : State F) (y : Option D) (z : Changes F). with_data-IsCounted s x y z v in
      grind arith

  edit_configuration-IsCounted :
      {T : Type 0} (s : Store F D) (fn : State F → Result (T × State F × Changes F))
      → IsCounted s
      → IsCounted (edit_configuration s fn).1
  unfolding edit_configuration commit publish
  edit_configuration-IsCounted s fn v =
      let keep = λ (x : State F) (y : Option D) (z : Changes F). with_data-IsCounted s x y z v in
      grind arith

  Step-IsCounted : {s t : Store F D} → Step s t → IsCounted s → IsCounted t
  Step-IsCounted {s} (acquire scope request) v = acquire_slot-IsCounted s v scope request
  Step-IsCounted {s} (admit scope request model requested generate now) v =
      admit_group-IsCounted s v scope request model requested generate now
  Step-IsCounted {s} (release request) v = release_slot-IsCounted s v request
  Step-IsCounted {s} (update fn) v = update_result-IsCounted s fn v
  Step-IsCounted {s} (edit fn) v = edit_configuration-IsCounted s fn v
  Step-IsCounted {s} stop v = close-IsCounted s

  -- Whatever sequence of slot requests, admissions, releases, live updates, edits and closings a new
  -- store went through, its counters are exact: the counter of a key, and that of a key and group, is
  -- the number of the requests that hold such a slot, and no request holds a slot of both kinds.
  pub Reach-IsCounted : {s : Store F D} → Reach s → IsCounted s
  Reach-IsCounted start = new_store-IsCounted
  Reach-IsCounted (later r x) = Step-IsCounted x (Reach-IsCounted r)
