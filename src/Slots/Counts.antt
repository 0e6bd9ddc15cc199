-- ===== src/Slots/Counts.antt =====
-- The counters of the store are the numbers of the requests that hold slots.
use cpa_plugin_group_billing.Prelude.{
  ℕ, ◌+◌, ◌-◌, ◌≡◌, refl, ◌⊎◌, Bool, none, some, arith, if◌then◌else◌,
}
use cpa_plugin_group_billing.Prelude.Table.{
  Table, lookup, insert, delete, lookup-insert, lookup-delete,
}
use cpa_plugin_group_billing.Prelude.Tally.{
  IsUnique, tally, insert-IsUnique, delete-IsUnique, tally-insert, tally-delete,
}
use cpa_plugin_group_billing.Prelude.Text.{Text, text_eq, text_eq_iff}
use cpa_plugin_group_billing.Slots.{count_of, decrement, group_slot_key}
use cpa_plugin_group_billing.Store.{Store, GroupSlot}

abbrev pub has_scope : Text → Text → Bool
has_scope scope owner = text_eq owner scope

abbrev pub has_key : Text → GroupSlot → Bool
has_key key slot = text_eq (group_slot_key slot.scope slot.group_id) key

-- Every counter is the number of the requests that hold a slot of it, and no request holds a slot of
-- a key and one of a group.
pub record IsCounted {F D : Type 0} (s : Store F D) : Type 0 where
  pub requests_unique : IsUnique s.active_requests
  pub slots_unique : IsUnique s.group_slots
  pub scope_counts :
      (scope : Text) → count_of scope s.active_by_scope ≡ tally (has_scope scope) s.active_requests
  pub group_counts : (key : Text) → count_of key s.group_active ≡ tally (has_key key) s.group_slots
  pub apart :
      (request : Text)
      → (lookup request s.active_requests ≡ none) ⊎ (lookup request s.group_slots ≡ none)

pub count_of-insert :
    (k j : Text) (n : ℕ) (m : Table ℕ)
    → count_of j (insert k n m) ≡ (if text_eq k j then n else count_of j m)
count_of-insert k j n m = ground (arith, lookup-insert k j n m)

pub count_of-decrement :
    (k j : Text) (m : Table ℕ)
    → count_of j (decrement k m) ≡ (if text_eq k j then count_of j m - 1 else count_of j m)
unfolding decrement
count_of-decrement k j m =
    ground (arith, text_eq_iff k j, count_of-insert k j (count_of k m - 1) m, lookup-delete k j m)

-- A counted table of holders, its tests taken from the values.
module _ {V : Type 0} (test : Text → V → Bool) (key_of : V → Text) where
  module _ (reads : (k : Text) (v : V) → test k v ≡ text_eq (key_of v) k) where
    pub counts-insert :
        (holders : Table V) (counts : Table ℕ) (request : Text) (v : V)
        → ((k : Text) → count_of k counts ≡ tally (test k) holders)
        → lookup request holders ≡ none
        → (k : Text)
        → count_of k (insert (key_of v) (count_of (key_of v) counts + 1) counts)
          ≡ tally (test k) (insert request v holders)
    counts-insert holders counts request v h free k = ground (
      arith,
      text_eq_iff (key_of v) k,
      count_of-insert (key_of v) k (count_of (key_of v) counts + 1) counts,
      tally-insert (test k) request v holders,
      reads k v,
      h k,
    )

    pub counts-delete :
        (holders : Table V) (counts : Table ℕ) (request : Text) (v : V)
        → ((k : Text) → count_of k counts ≡ tally (test k) holders)
        → IsUnique holders
        → lookup request holders ≡ some v
        → (k : Text)
        → count_of k (decrement (key_of v) counts) ≡ tally (test k) (delete request holders)
    counts-delete holders counts request v h unique held k = ground (
      arith,
      count_of-decrement (key_of v) k counts,
      tally-delete (test k) request v holders unique,
      reads k v,
      h k,
    )

abbrev pub key_of_slot : GroupSlot → Text
key_of_slot slot = group_slot_key slot.scope slot.group_id

module _ {F D : Type 0} (s : Store F D) (v : IsCounted s) (request : Text) where
  -- A free request takes a slot of a key, and one of a group.
  pub take_scope-IsCounted :
      (scope : Text)
      → lookup request s.active_requests ≡ none
      → lookup request s.group_slots ≡ none
      → IsCounted (record s {
        active_requests = insert request scope s.active_requests;
        active_by_scope = insert scope (count_of scope s.active_by_scope + 1) s.active_by_scope;
      })
  take_scope-IsCounted scope free free' = record {
    requests_unique = insert-IsUnique request scope s.active_requests v.requests_unique;
    slots_unique = v.slots_unique;
    scope_counts =
        counts-insert has_scope (λ t. t) (λ k t. refl) s.active_requests s.active_by_scope request
          scope v.scope_counts free;
    group_counts = v.group_counts;
    apart = λ r. ground (
      arith,
      v.apart r,
      text_eq_iff request r,
      lookup-insert request r scope s.active_requests,
      free',
    );
  }

  pub take_group-IsCounted :
      (slot : GroupSlot)
      → lookup request s.active_requests ≡ none
      → lookup request s.group_slots ≡ none
      → IsCounted (record s {
        group_slots = insert request slot s.group_slots;
        group_active =
            insert
              (key_of_slot slot)
              (count_of (key_of_slot slot) s.group_active + 1)
              s.group_active;
      })
  take_group-IsCounted slot free free' = record {
    requests_unique = v.requests_unique;
    slots_unique = insert-IsUnique request slot s.group_slots v.slots_unique;
    scope_counts = v.scope_counts;
    group_counts =
        counts-insert has_key key_of_slot (λ k t. refl) s.group_slots s.group_active request slot
          v.group_counts free';
    apart = λ r.
        ground (
          arith,
          v.apart r,
          text_eq_iff request r,
          lookup-insert request r slot s.group_slots,
          free,
        );
  }

  -- A request gives its slot back.
  pub give_scope-IsCounted :
      (scope : Text)
      → lookup request s.active_requests ≡ some scope
      → IsCounted (record s {
        active_requests = delete request s.active_requests;
        active_by_scope = decrement scope s.active_by_scope;
      })
  give_scope-IsCounted scope held = record {
    requests_unique = delete-IsUnique request s.active_requests v.requests_unique;
    slots_unique = v.slots_unique;
    scope_counts =
        counts-delete has_scope (λ t. t) (λ k t. refl) s.active_requests s.active_by_scope request
          scope v.scope_counts v.requests_unique held;
    group_counts = v.group_counts;
    apart = λ r. ground (arith, v.apart r, lookup-delete request r s.active_requests);
  }

  pub give_group-IsCounted :
      (slot : GroupSlot)
      → lookup request s.group_slots ≡ some slot
      → IsCounted (record s {
        group_slots = delete request s.group_slots;
        group_active = decrement (key_of_slot slot) s.group_active;
      })
  give_group-IsCounted slot held = record {
    requests_unique = v.requests_unique;
    slots_unique = delete-IsUnique request s.group_slots v.slots_unique;
    scope_counts = v.scope_counts;
    group_counts =
        counts-delete has_key key_of_slot (λ k t. refl) s.group_slots s.group_active request slot
          v.group_counts v.slots_unique held;
    apart = λ r. ground (arith, v.apart r, lookup-delete request r s.group_slots);
  }
