-- ===== src/Store/Pending.antt =====
-- internal/billing/store.go, updateResult: what the database does not have yet stays pending until a
-- save succeeds.
use cpa_plugin_group_billing.Prelude.{◌≡◌, ◌⊎◌, true, some, arith}
use cpa_plugin_group_billing.Prelude.Text.{contains}
use cpa_plugin_group_billing.State.{State}
use cpa_plugin_group_billing.State.Changes.{Changes, no_changes, is_unchanged}
use cpa_plugin_group_billing.State.Changes.Covered.{IsCovered}
use cpa_plugin_group_billing.Store.{Repository, Store, flush}

module _ {F : Type 0} where
  -- What covers nothing covers no difference, so any changes do.
  pub unchanged-IsCovered :
      (c d : Changes F) (s t : State F) → is_unchanged c ≡ true → IsCovered c s t → IsCovered d s t
  unfolding is_unchanged contains
  unchanged-IsCovered c d s t u (p, r, cs, l, g, q, b, dy, ks) = (
    (λ _. p (ground arith)),
    (λ _. r (ground arith)),
    (λ _. cs (ground arith)),
    (λ _. l (ground arith)),
    (λ _. g (ground arith)),
    (λ _. q (ground arith)),
    (λ _. b (ground arith)),
    (λ k _. dy k (ground arith)),
    (λ k _ _. ks k (ground arith) (ground arith)),
  )

module _ {F D : Type 0} ⦃repository : Repository F D⦄ where
  -- The pending changes name every row in which the state in memory differs from the one last saved.
  abbrev pub IsPending : Store F D → State F → Type 0
  IsPending s saved = IsCovered s.dirty saved s.state

  -- The database was asked to save the state in memory, and did.
  abbrev pub IsSaved : Store F D → D → Changes F → Type 0
  IsSaved s db changes =
      (db' : D) × (repository.save db s.state changes ≡ some db')
      × (s.repo ≡ some db')
      × (s.dirty ≡ no_changes)

  pub flush-IsPending :
      (s : Store F D) (db : D) (saved : State F) (changes : Changes F)
      → s.repo ≡ some db
      → IsCovered changes saved s.state
      → (is_unchanged changes ≡ true → IsPending s saved)
      → ((flush s changes).state ≡ s.state)
        × (IsSaved (flush s changes) db changes
            ⊎ ((flush s changes).repo ≡ some db) × IsPending (flush s changes) saved)
  unfolding flush
  flush-IsPending s db saved changes r c u = ground arith
