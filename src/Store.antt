-- ===== src/Store.antt =====
-- internal/billing/store.go: the store behind its lock, live updates that are saved when the
-- repository can, and edits that are published only once they are saved.
pub mod Atomic
pub mod Pending
pub mod Durable
use cpa_plugin_group_billing.Prelude.{
  ℕ, ◌≡◌, refl, Bool, true, false, not, ◌&&◌, Option, none, some, [], if◌then◌else◌,
}
use cpa_plugin_group_billing.Prelude.Table.{Table}
use cpa_plugin_group_billing.Prelude.Text.{Text}
use cpa_plugin_group_billing.Errors.{Error, Result, ok, err, storage}
use cpa_plugin_group_billing.State.{State, new_state}
use cpa_plugin_group_billing.State.Changes.{Changes, no_changes, is_unchanged, merge}

-- What the store takes from `Repository`: a save of the changed part of a state into a database.
-- `none` is an error, which leaves the database as it was.
pub record Repository (F D : Type 0) : Type 0 where
  pub save : D → State F → Changes F → Option D

pub record GroupSlot : Type 0 where
  pub scope : Text
  pub group_id : Text

pub record Config : Type 0 where
  pub enabled : Bool
  pub codex_fast_mode_billing : Bool

pub record Store (F D : Type 0) : Type 0 where
  pub state : State F
  pub config : Config
  pub repo : Option D
  pub dirty : Changes F
  pub active_requests : Table Text
  pub active_by_scope : Table ℕ
  pub group_slots : Table GroupSlot
  pub group_active : Table ℕ

abbrev save_failed : Error
save_failed = record { kind = storage; message = "保存配置失败：%w" }

module _ {F D : Type 0} where
  -- `NewStore`
  abbrev pub new_store : Store F D
  new_store = record {
    state = new_state;
    config = record { enabled = false; codex_fast_mode_billing = false };
    repo = none;
    dirty = no_changes;
    active_requests = [];
    active_by_scope = [];
    group_slots = [];
    group_active = [];
  }

  -- `Store.Close`
  unfoldable pub close : Store F D → Store F D
  close s = record s {
    repo = none;
    dirty = no_changes;
    active_requests = [];
    active_by_scope = [];
    group_slots = [];
    group_active = [];
  }

module _ {F D : Type 0} ⦃repository : Repository F D⦄ where
  -- Saves pending changes, or keeps them for the next write.
  unfoldable pub flush : Store F D → Changes F → Store F D
  flush s changes = elim s.repo [
    | none ↦ s
    | some db ↦ if is_unchanged changes then s else elim (repository.save db s.state changes) [
      | some db' ↦ record s { repo = some db'; dirty = no_changes }
      | none ↦ record s { dirty = changes }
    ]
  ]

  -- `updateResult`
  unfoldable pub update_result :
      {T : Type 0} → Store F D → (State F → T × State F × Changes F) → T × Store F D
  update_result s fn =
      let (value, next, current) = fn s.state in
      (value, flush (record s { state = next }) (merge s.dirty current))

  -- The end of an edit: nothing is published unless it is saved.
  unfoldable pub commit : Store F D → State F → Changes F → Result (Store F D)
  commit s next changes = elim s.repo [
    | none ↦ ok (record s { state = next })
    | some db ↦
        if is_unchanged changes
        then ok (record s { state = next })
        else elim (repository.save db next changes) [
          | some db' ↦ ok (record s { state = next; repo = some db'; dirty = no_changes })
          | none ↦ err save_failed
        ]
  ]

  unfoldable pub publish : {T : Type 0} → Store F D → T → Result (Store F D) → Result T × Store F D
  publish s value (ok s') = (ok value, s')
  publish s value (err e) = (err e, s)

  -- `editConfiguration`
  unfoldable pub edit_configuration :
      {T : Type 0} → Store F D → (State F → Result (T × State F × Changes F)) → Result T × Store F D
  unfolding publish
  edit_configuration s fn = elim (fn s.state) [
    | err e ↦ (err e, s)
    | ok (value, next, changes) ↦ publish s value (commit s next (merge s.dirty changes))
  ]
