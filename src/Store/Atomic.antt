-- ===== src/Store/Atomic.antt =====
-- internal/billing/store.go: edits that are refused or not saved, and what every edit keeps.
use cpa_plugin_group_billing.Prelude.{◌≡◌, arith, inl, inr}
use cpa_plugin_group_billing.Errors.{Error, Result, ok, err, Result-cases}
use cpa_plugin_group_billing.State.{State}
use cpa_plugin_group_billing.State.Changes.{Changes}
use cpa_plugin_group_billing.Store.{Repository, Store, commit, publish, edit_configuration}

module _ {F D : Type 0} ⦃repository : Repository F D⦄ where
  -- A refused edit, or one that could not be saved, leaves the store as it was.
  pub edit_configuration_atomic :
      {T : Type 0} (s s' : Store F D) (fn : State F → Result (T × State F × Changes F)) (e : Error)
      → edit_configuration s fn ≡ (err e, s')
      → s' ≡ s
  unfolding edit_configuration publish
  edit_configuration_atomic s s' fn e h = ground arith

  -- What holds of the state, and of every state that the function returns for it, holds after the edit.
  pub edit_configuration-keeps :
      {T : Type 0} (P : State F → Type 0) (s : Store F D)
      (fn : State F → Result (T × State F × Changes F))
      → P s.state
      → ((value : T) (next : State F) (changes : Changes F)
          → fn s.state ≡ ok (value, next, changes)
          → P next)
      → P (edit_configuration s fn).1.state
  unfolding edit_configuration publish commit
  edit_configuration-keeps P s fn h kept = elim (Result-cases (fn s.state)) [
    | inr (e, refused) ↦ rw (refused, edit_configuration) h
    | inl ((value, next, changes), done) ↦
        let after = kept value next changes done in rw (done, edit_configuration) (ground arith)
  ]
