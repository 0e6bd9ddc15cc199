-- ===== src/Host/Race.antt =====
-- internal/plugin/intercept.go: a request that is completed while its admission is under way ends
-- without a slot, however its calls are interleaved with those of other requests.
use cpa_plugin_group_billing.Prelude.{
  ℕ, ◌+◌, ◌-◌, ◌≤◌, ◌≡◌, refl, true, false, none, some, arith, ap, ◌∙◌, inl, inr, ◌⊎◌, ◌==◌,
  Option-cases, Bool-cases,
}
use cpa_plugin_group_billing.Prelude.Table.{
  Table, lookup, insert, delete, lookup-insert, lookup-delete,
}
use cpa_plugin_group_billing.Prelude.Text.{Text, text_eq, text_eq_iff, is_empty, trim_space}
use cpa_plugin_group_billing.Float.{Float}
use cpa_plugin_group_billing.GroupConfig.{Clock}
use cpa_plugin_group_billing.Host.{App, RequestAdmission}
use cpa_plugin_group_billing.Host.Completion.{
  commit_admission-other, release_slot-other, release_slot-free,
}
use cpa_plugin_group_billing.Host.Intercept.{
  InterceptRequest, is_completed, commit_admission, begin_admission, end_admission,
  complete_request,
}
use cpa_plugin_group_billing.Slots.{release_slot, release_group_slot}
use cpa_plugin_group_billing.Slots.Counts.{IsCounted}
use cpa_plugin_group_billing.Store.{Repository, Store}

module _ (r : Text) where
  -- An entry that is stored under the request's own identifier, or under another one.
  stored_own :
      (id : Text) (new : RequestAdmission) (m : Table RequestAdmission)
      → text_eq id r ≡ true
      → lookup r (insert id new m) ≡ some new
  stored_own id new m e = ground (arith, lookup-insert id r new m)

  stored_other :
      (id : Text) (new : RequestAdmission) (m : Table RequestAdmission)
      → text_eq id r ≡ false
      → lookup r (insert id new m) ≡ lookup r m
  stored_other id new m e = ground (arith, lookup-insert id r new m)

  removed_other :
      (id : Text) (m : Table RequestAdmission)
      → text_eq id r ≡ false
      → lookup r (delete id m) ≡ lookup r m
  removed_other id m e = ground (arith, lookup-delete id r m)

module _ {F D : Type 0} where
  -- How many admissions of the request are under way.
  abbrev pub calls_of : Text → App F D → ℕ
  calls_of r a = elim (lookup r a.admissions) [ none ↦ 0 | some admission ↦ admission.calls ]

  abbrev pub HasNoSlot : Text → Store F D → Type 0
  HasNoSlot r s = (lookup r s.active_requests ≡ none) × (lookup r s.group_slots ≡ none)

  -- The request is marked as completed and holds no slot.
  abbrev pub IsOver : Text → App F D → Type 0
  IsOver r a =
      ((m : RequestAdmission) × (lookup r a.admissions ≡ some m) × (m.completed ≡ true))
      × HasNoSlot r a.store

module _ {F D : Type 0} ⦃fl : Float F⦄ ⦃repository : Repository F D⦄ (clock : Clock)
    (r : Text) where
  -- The calls that the host makes at the same time, each under the lock of the admissions, while an
  -- admission of the request is still under way.
  pub data Step : App F D → App F D → Type 0 where
    begins : (request : Text) (a : App F D) → Step a (begin_admission request a)
    commits :
        (req : InterceptRequest) (scope : Text) (a : App F D)
        → Step a (commit_admission clock a req scope).1
    ends :
        (request : Text) (a : App F D)
        → ((text_eq (trim_space request) r ≡ false) ⊎ (2 ≤ calls_of r a))
        → Step a (end_admission request a)
    completes : (request : Text) (a : App F D) → Step a (complete_request request a)

  pub data Steps : App F D → App F D → Type 0 where
    done : (a : App F D) → Steps a a
    next : (a b c : App F D) → Step a b → Steps b c → Steps a c

  begin_admission-IsOver :
      (request : Text) (a : App F D) → IsOver r a → IsOver r (begin_admission request a)
  unfolding begin_admission
  begin_admission-IsOver request a ((m, there, over), free) =
      let id = trim_space request in
      elim (Bool-cases (is_empty id)) [
        | inl blank ↦ rw (blank, begin_admission) ((m, there, over), free)
        | inr named ↦ elim (Bool-cases (text_eq id r)) [
          | inl own ↦
              let found = ap (λ t. lookup t a.admissions) ((text_eq_iff id r).0 own) ∙ there in
              let new : RequestAdmission = record m { calls = m.calls + 1 } in
              rw (named, found, begin_admission)
                ((new, stored_own r id new a.admissions own, over), free)
          | inr other ↦
              rw (named, begin_admission)
                ((m, stored_other r id _ a.admissions other ∙ there, over), free)
        ]
      ]

  completed_own :
      (request : Text) (a : App F D) (m : RequestAdmission)
      → trim_space request ≡ r
      → is_empty r ≡ false
      → lookup r a.admissions ≡ some m
      → m.completed ≡ true
      → is_completed request a ≡ true
  unfolding is_completed
  completed_own request a m e named there over = rw (e, named, there, is_completed) over

  commit_admission-admissions :
      (req : InterceptRequest) (scope : Text) (a : App F D)
      → (commit_admission clock a req scope).1.admissions ≡ a.admissions
  unfolding commit_admission
  commit_admission-admissions req scope a = ground arith

  commit_admission-IsOver :
      (req : InterceptRequest) (scope : Text) (a : App F D)
      → is_empty r ≡ false
      → IsOver r a
      → IsOver r (commit_admission clock a req scope).1
  unfolding commit_admission
  commit_admission-IsOver req scope a named ((m, there, over), free) =
      elim (Bool-cases (text_eq (trim_space req.request_id) r)) [
        | inl own ↦
            let e = (text_eq_iff (trim_space req.request_id) r).0 own in
            let completed : is_completed req.request_id a ≡ true =
              completed_own req.request_id a m e named there over in
            rw (completed, commit_admission) ((m, there, over), free)
        | inr other ↦
            let (kept_own, kept_group) = commit_admission-other r clock a req scope other in
            (
              (m, ap (lookup r) (commit_admission-admissions req scope a) ∙ there, over),
              (kept_own ∙ free.0, kept_group ∙ free.1),
            )
      ]

  still_open :
      (a : App F D) (m : RequestAdmission) (id : Text)
      → text_eq id r ≡ true
      → lookup r a.admissions ≡ some m
      → ((text_eq id r ≡ false) ⊎ (2 ≤ calls_of r a))
      → (m.calls - 1 == 0) ≡ false
  still_open a m id own there (inl other) = absurd (ground arith)
  still_open a m id own there (inr more) = ground arith

  end_admission-IsOver :
      (request : Text) (a : App F D)
      → ((text_eq (trim_space request) r ≡ false) ⊎ (2 ≤ calls_of r a))
      → IsOver r a
      → IsOver r (end_admission request a)
  unfolding end_admission
  end_admission-IsOver request a open_ ((m, there, over), free) =
      let id = trim_space request in
      elim (Bool-cases (is_empty id)) [
        | inl blank ↦ rw (blank, end_admission) ((m, there, over), free)
        | inr named ↦ elim (Bool-cases (text_eq id r)) [
          | inl own ↦
              let found = ap (λ t. lookup t a.admissions) ((text_eq_iff id r).0 own) ∙ there in
              let new : RequestAdmission = record m { calls = m.calls - 1 } in
              let left : (m.calls - 1 == 0) ≡ false = still_open a m id own there open_ in
              rw (named, found, left, end_admission)
                ((new, stored_own r id new a.admissions own, over), free)
          | inr other ↦ elim (Option-cases (lookup id a.admissions)) [
            | inl missing ↦ rw (named, missing, end_admission) ((m, there, over), free)
            | inr (n, found) ↦ elim (Bool-cases (n.calls - 1 == 0)) [
              | inl last ↦
                  rw (named, found, last, end_admission)
                    ((m, removed_other r id a.admissions other ∙ there, over), free)
              | inr left ↦
                  rw (named, found, left, end_admission)
                    ((m, stored_other r id _ a.admissions other ∙ there, over), free)
            ]
          ]
        ]
      ]

  release_slot-none :
      (s : Store F D) (request : Text)
      → trim_space request ≡ r
      → HasNoSlot r s
      → HasNoSlot r (release_slot s request).1
  unfolding release_slot release_group_slot
  release_slot-none s request e free = ground arith

  complete_request-IsOver :
      (request : Text) (a : App F D) → IsOver r a → IsOver r (complete_request request a)
  unfolding complete_request
  complete_request-IsOver request a ((m, there, over), free) =
      let id = trim_space request in
      elim (Bool-cases (text_eq id r)) [
        | inl own ↦
            let e = (text_eq_iff id r).0 own in
            let found = ap (λ t. lookup t a.admissions) e ∙ there in
            let new : RequestAdmission = record m { completed = true } in
            rw (found, complete_request)
              (
                (new, stored_own r id new a.admissions own, refl),
                release_slot-none a.store request e free,
              )
        | inr other ↦
            let (kept_own, kept_group) = release_slot-other r a.store request other in
            let slots : HasNoSlot r (release_slot a.store request).1 =
              (kept_own ∙ free.0, kept_group ∙ free.1) in
            elim (Option-cases (lookup id a.admissions)) [
              | inl missing ↦ rw (missing, complete_request) ((m, there, over), slots)
              | inr (n, found) ↦
                  rw (found, complete_request)
                    ((m, stored_other r id _ a.admissions other ∙ there, over), slots)
            ]
      ]

  Step-IsOver : (a b : App F D) → is_empty r ≡ false → Step a b → IsOver r a → IsOver r b
  Step-IsOver _ _ named (begins request a) over = begin_admission-IsOver request a over
  Step-IsOver _ _ named (commits req scope a) over = commit_admission-IsOver req scope a named over
  Step-IsOver _ _ named (ends request a left) over = end_admission-IsOver request a left over
  Step-IsOver _ _ named (completes request a) over = complete_request-IsOver request a over

  Steps-IsOver : (a b : App F D) → is_empty r ≡ false → Steps a b → IsOver r a → IsOver r b
  Steps-IsOver _ _ named (done a) over = over
  Steps-IsOver _ _ named (next a b c first rest) over =
      Steps-IsOver b c named rest (Step-IsOver a b named first over)

  -- In a store with exact counters, a request that is completed while an admission of it is under way
  -- holds no slot of either kind afterwards, whatever calls of this and of other requests follow in
  -- whatever order, as long as an admission of it is still under way; none of them takes a slot for it.
  pub completed-HasNoSlot :
      (a b : App F D) (request : Text) (m : RequestAdmission)
      → trim_space request ≡ r
      → is_empty r ≡ false
      → IsCounted a.store
      → lookup r a.admissions ≡ some m
      → Steps (complete_request request a) b
      → HasNoSlot r b.store
  unfolding complete_request
  completed-HasNoSlot a b request m e named v there steps =
      let found = ap (λ t. lookup t a.admissions) e ∙ there in
      let new : RequestAdmission = record m { completed = true } in
      let own : text_eq (trim_space request) r ≡ true = (text_eq_iff (trim_space request) r).1 e in
      let start : IsOver r (complete_request request a) =
        rw (found, complete_request)
          (
            (new, stored_own r (trim_space request) new a.admissions own, refl),
            release_slot-free r a.store request e named v,
          ) in
      (Steps-IsOver (complete_request request a) b named steps start).1
