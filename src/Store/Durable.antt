-- ===== src/Store/Durable.antt =====
-- internal/billing/store.go and group_account.go: what the database has been given and what is still
-- pending, under any sequence of live updates, edits and admissions.
use cpa_plugin_group_billing.Prelude.{
  ◌≡◌, refl, sym, subst, Bool, true, Option, some, arith, ◌∙◌, inl, inr, Option-cases, Bool-cases,
}
use cpa_plugin_group_billing.Prelude.Text.{Text}
use cpa_plugin_group_billing.Admission.{
  admit_group, retry_pending, admit_grouped, admit_open, take_group_slot, chosen_model,
}
use cpa_plugin_group_billing.Calendar.{Time}
use cpa_plugin_group_billing.Errors.{Result, ok, Result-cases}
use cpa_plugin_group_billing.Groups.{binding}
use cpa_plugin_group_billing.Slots.{
  acquire_slot, acquire_known, acquire_new, release_slot, release_group_slot,
}
use cpa_plugin_group_billing.State.{State}
use cpa_plugin_group_billing.State.Changes.{Changes, no_changes, is_unchanged, merge}
use cpa_plugin_group_billing.State.Changes.Covered.{IsCovered, merge-IsCovered}
use cpa_plugin_group_billing.Store.{
  Repository, Store, flush, update_result, commit, publish, edit_configuration,
}
use cpa_plugin_group_billing.Store.Pending.{flush-IsPending, unchanged-IsCovered}

-- What a database that held a state at first holds after saves: each of them named every row in which
-- the state that it saved differs from the one saved before.
pub data IsStored {F D : Type 0} ⦃repository : Repository F D⦄ (first : D) (held : State F)
    : D → State F → Type 0 where
  loaded : IsStored first held first held
  saved :
      {db db' : D} {s t : State F} (c : Changes F)
      → IsStored first held db s
      → IsCovered c s t
      → repository.save db t c ≡ some db'
      → IsStored first held db' t

-- One call that writes, or that saves what is pending. The function of an update or of an edit names
-- what it changes.
pub data Writes {F D : Type 0} ⦃repository : Repository F D⦄ (s : Store F D)
    : Store F D → Type 1 where
  update :
      {T : Type 0} (fn : State F → T × State F × Changes F)
      → IsCovered (fn s.state).2 s.state (fn s.state).1
      → Writes s (update_result s fn).1
  edit :
      {T : Type 0} (fn : State F → Result (T × State F × Changes F))
      → ((value : T) (next : State F) (changes : Changes F)
          → fn s.state ≡ ok (value, next, changes)
          → IsCovered changes s.state next)
      → Writes s (edit_configuration s fn).1
  admit :
      (scope request model requested : Text) (generate : Bool) (now : Time)
      → Writes s (admit_group s scope request model requested generate now).1
  acquire : (scope request : Text) → Writes s (acquire_slot s scope request).1
  release : (request : Text) → Writes s (release_slot s request).1

-- The stores that a sequence of such calls leads to.
pub data Runs {F D : Type 0} ⦃repository : Repository F D⦄ (s : Store F D)
    : Store F D → Type 1 where
  start : Runs s s
  later : {t u : Store F D} → Runs s t → Writes t u → Runs s u

module _ {F : Type 0} where
  same-IsCovered : (c : Changes F) (s t : State F) → s ≡ t → IsCovered c s t
  same-IsCovered c s t e = subst (IsCovered c s) e (
    (λ _. refl),
    (λ _. refl),
    (λ _. refl),
    (λ _. refl),
    (λ _. refl),
    (λ _. refl),
    (λ _. refl),
    (λ k _. refl),
    (λ k _ _. refl),
  )

module _ {F D : Type 0} ⦃repository : Repository F D⦄ (first : D) (held : State F) where
  -- The database holds some state, which it was given by saves that named all that they changed, and
  -- the pending changes name every row in which the state in memory differs from it.
  abbrev pub IsDurable : Store F D → Type 0
  IsDurable s =
      (db : D) × (t : State F) × (s.repo ≡ some db)
      × IsStored first held db t
      × IsCovered s.dirty t s.state

  -- A store with the same data.
  IsDurable-same :
      (s s' : Store F D)
      → s'.state ≡ s.state
      → s'.repo ≡ s.repo
      → s'.dirty ≡ s.dirty
      → IsDurable s
      → IsDurable s'
  IsDurable-same s s' es er ed (db, t, r, stored, covered) = (
    db,
    t,
    er ∙ r,
    stored,
    subst (λ c. IsCovered c t s'.state) (sym ed) (subst (IsCovered s.dirty t) (sym es) covered),
  )

  saved-IsDurable :
      (s : Store F D) (db db' : D) (t : State F) (c : Changes F)
      → IsStored first held db t
      → IsCovered c t s.state
      → repository.save db s.state c ≡ some db'
      → s.repo ≡ some db'
      → IsDurable s
  saved-IsDurable s db db' t c stored covered save r =
      (db', s.state, r, saved c stored covered save, same-IsCovered s.dirty s.state s.state refl)

  flush-IsDurable :
      (s : Store F D) (db : D) (t : State F) (c : Changes F)
      → s.repo ≡ some db
      → IsStored first held db t
      → IsCovered c t s.state
      → (is_unchanged c ≡ true → IsCovered s.dirty t s.state)
      → IsDurable (flush s c)
  flush-IsDurable s db t c r stored covered unchanged =
      let (same, out) = flush-IsPending s db t c r covered unchanged in
      elim out [
        | inl (db', save, repo, dirty) ↦
            saved-IsDurable (flush s c) db db' t c stored (subst (IsCovered c t) (sym same) covered)
              save repo
        | inr (repo, pending) ↦ (db, t, repo, stored, pending)
      ]

  update-IsDurable :
      {T : Type 0} (s : Store F D) (fn : State F → T × State F × Changes F)
      → IsCovered (fn s.state).2 s.state (fn s.state).1
      → IsDurable s
      → IsDurable (update_result s fn).1
  unfolding update_result
  update-IsDurable s fn names (db, t, r, stored, covered) =
      let next = (fn s.state).1 in
      let c = merge s.dirty (fn s.state).2 in
      let m = merge-IsCovered s.dirty (fn s.state).2 t s.state next covered names in
      flush-IsDurable (record s { state = next }) db t c r stored m
        (λ u. unchanged-IsCovered c s.dirty t next u m)

  commit-IsDurable :
      {T : Type 0} (s : Store F D) (db : D) (t next : State F) (c : Changes F) (value : T)
      → s.repo ≡ some db
      → IsStored first held db t
      → IsCovered s.dirty t s.state
      → IsCovered c t next
      → IsDurable (publish s value (commit s next c)).1
  unfolding publish commit
  commit-IsDurable s db t next c value r stored covered m = elim (Bool-cases (is_unchanged c)) [
    | inl u ↦
        rw (r, u, commit, publish) (db, t, r, stored, unchanged-IsCovered c s.dirty t next u m)
    | inr some_left ↦ elim (Option-cases (repository.save db next c)) [
      | inl failed ↦ rw (r, some_left, failed, commit, publish) (db, t, r, stored, covered)
      | inr (db', save) ↦
          rw (r, some_left, save, commit, publish)
            (saved-IsDurable (record s { state = next; repo = some db'; dirty = no_changes }) db db'
              t c stored m save refl)
    ]
  ]

  edit-IsDurable :
      {T : Type 0} (s : Store F D) (fn : State F → Result (T × State F × Changes F))
      → ((value : T) (next : State F) (changes : Changes F)
          → fn s.state ≡ ok (value, next, changes)
          → IsCovered changes s.state next)
      → IsDurable s
      → IsDurable (edit_configuration s fn).1
  unfolding edit_configuration
  edit-IsDurable s fn names (db, t, r, stored, covered) = elim (Result-cases (fn s.state)) [
    | inr (e, refused) ↦ rw (refused, edit_configuration) (db, t, r, stored, covered)
    | inl ((value, next, changes), done) ↦
        rw (done, edit_configuration)
          (commit-IsDurable s db t next (merge s.dirty changes) value r stored covered (
            merge-IsCovered s.dirty changes t s.state next covered (names value next changes done)))
  ]

  retry-IsDurable : (s s' : Store F D) → retry_pending s ≡ some s' → IsDurable s → IsDurable s'
  unfolding retry_pending
  retry-IsDurable s s' e (db, t, r, stored, covered) = elim (Bool-cases (is_unchanged s.dirty)) [
    | inl u ↦ let same : s ≡ s' = ground arith in subst IsDurable same (db, t, r, stored, covered)
    | inr some_left ↦ elim (Option-cases (repository.save db s.state s.dirty)) [
      | inl failed ↦ absurd (ground arith)
      | inr (db', save) ↦
          let next : Store F D = record s { repo = some db'; dirty = no_changes } in
          let same : next ≡ s' = ground arith in
          subst IsDurable same (saved-IsDurable next db db' t s.dirty stored covered save refl)
    ]
  ]

  admit_grouped-same :
      (s : Store F D) (scope request model : Text) (plan : Option Text) (generate : Bool)
      (now : Time)
      → let s' = (admit_grouped s scope request model plan generate now).1 in
        (s'.state ≡ s.state) × (s'.repo ≡ s.repo) × (s'.dirty ≡ s.dirty)
  unfolding admit_grouped admit_open take_group_slot
  admit_grouped-same s scope request model plan generate now = ground arith

  acquire_slot-same :
      (s : Store F D) (scope request : Text)
      → let s' = (acquire_slot s scope request).1 in
        (s'.state ≡ s.state) × (s'.repo ≡ s.repo) × (s'.dirty ≡ s.dirty)
  unfolding acquire_slot acquire_known acquire_new
  acquire_slot-same s scope request = ground arith

  release_slot-same :
      (s : Store F D) (request : Text)
      → let s' = (release_slot s request).1 in
        (s'.state ≡ s.state) × (s'.repo ≡ s.repo) × (s'.dirty ≡ s.dirty)
  unfolding release_slot release_group_slot
  release_slot-same s request = ground arith

  admit-IsDurable :
      (s : Store F D) (scope request model requested : Text) (generate : Bool) (now : Time)
      → IsDurable s
      → IsDurable (admit_group s scope request model requested generate now).1
  unfolding admit_group
  admit-IsDurable s scope request model requested generate now h =
      elim (Option-cases (binding s.state.grouped scope now)) [
        | inl outside ↦ rw (outside, admit_group) h
        | inr (b, inside) ↦ elim (Option-cases (retry_pending s)) [
          | inl failed ↦ rw (inside, failed, admit_group) h
          | inr (s', retried) ↦
              let chosen = chosen_model model requested in
              let (es, er, ed) =
                admit_grouped-same s' scope request chosen b.plan_id generate now in
              rw (inside, retried, admit_group)
                (IsDurable-same s' (admit_grouped s' scope request chosen b.plan_id generate now).1
                  es er ed (retry-IsDurable s s' retried h))
        ]
      ]

  Writes-IsDurable : {s t : Store F D} → Writes s t → IsDurable s → IsDurable t
  Writes-IsDurable {s} (update fn names) h = update-IsDurable s fn names h
  Writes-IsDurable {s} (edit fn names) h = edit-IsDurable s fn names h
  Writes-IsDurable {s} (admit scope request model requested generate now) h =
      admit-IsDurable s scope request model requested generate now h
  Writes-IsDurable {s} (acquire scope request) h =
      let (es, er, ed) = acquire_slot-same s scope request in
      IsDurable-same s (acquire_slot s scope request).1 es er ed h
  Writes-IsDurable {s} (release request) h =
      let (es, er, ed) = release_slot-same s request in
      IsDurable-same s (release_slot s request).1 es er ed h

  -- Under any sequence of live updates, edits, admissions and calls on slots, saves that fail included:
  -- the database holds a state that it was given by saves each of which named every row that it changed,
  -- and the pending changes name every row in which the state in memory differs from that one. It must
  -- be so at first, and the functions of updates and of edits must name the rows that they change. The
  -- records of requests and the prices are no such rows.
  pub Runs-IsDurable : (s t : Store F D) → Runs s t → IsDurable s → IsDurable t
  Runs-IsDurable s _ start h = h
  Runs-IsDurable s _ (later {t} runs step) h = Writes-IsDurable step (Runs-IsDurable s t runs h)
