-- ===== src/Host/Held.antt =====
-- internal/plugin/intercept.go: which slots are held after the checks of a request that is refused.
use cpa_plugin_group_billing.Prelude.{
  ℕ, ◌+◌, ◌≡◌, refl, Bool, true, false, none, some, arith, ap, ◌∙◌, sym, subst, inl, inr,
  Bool-cases,
}
use cpa_plugin_group_billing.Prelude.Table.{
  Table, lookup, insert, delete, lookup-insert, lookup-delete, lookup-insert_self,
}
use cpa_plugin_group_billing.Prelude.Text.{Text, text_eq_iff, is_empty, trim_space}
use cpa_plugin_group_billing.Admission.Refusals.{IsSame}
use cpa_plugin_group_billing.Calendar.{Time}
use cpa_plugin_group_billing.Float.{Float}
use cpa_plugin_group_billing.GroupConfig.{Clock}
use cpa_plugin_group_billing.Host.Intercept.{authorize_held, admit_ungrouped}
use cpa_plugin_group_billing.Quota.{authorize}
use cpa_plugin_group_billing.Slots.{
  count_of, decrement, acquire_slot, acquire_known, acquire_new, release_slot,
}
use cpa_plugin_group_billing.Slots.Counts.{count_of-insert, count_of-decrement}
use cpa_plugin_group_billing.Store.{Repository, Store, flush, update_result}

deleted_insert :
    (id k owner : Text) (m : Table Text)
    → lookup id m ≡ none
    → lookup k (delete id (insert id owner m)) ≡ lookup k m
deleted_insert id k owner m free = ground (
  arith,
  text_eq_iff id k,
  lookup-delete id k (insert id owner m),
  lookup-insert id k owner m,
  ap (λ t. lookup t m) {x = id} {y = k},
)

decremented_insert :
    (owner k : Text) (m : Table ℕ)
    → count_of k (decrement owner (insert owner (count_of owner m + 1) m)) ≡ count_of k m
decremented_insert owner k m = ground (
  arith,
  text_eq_iff owner k,
  count_of-decrement owner k (insert owner (count_of owner m + 1) m),
  count_of-insert owner k (count_of owner m + 1) m,
  ap (λ t. count_of t m) {x = owner} {y = k},
)

module _ {F D : Type 0} where
  -- The same requests hold the same slots, and every counter reads the same.
  abbrev pub HoldsSame : Store F D → Store F D → Type 0
  HoldsSame s t =
      (k : Text)
      → (lookup k t.active_requests ≡ lookup k s.active_requests)
        × (lookup k t.group_slots ≡ lookup k s.group_slots)
        × (count_of k t.active_by_scope ≡ count_of k s.active_by_scope)
        × (count_of k t.group_active ≡ count_of k s.group_active)

  pub HoldsSame-trans : (s t u : Store F D) → HoldsSame s t → HoldsSame t u → HoldsSame s u
  HoldsSame-trans s t u p q k =
      let (a, b, c, d) = p k in let (a', b', c', d') = q k in (a' ∙ a, b' ∙ b, c' ∙ c, d' ∙ d)

  pub HoldsSame-of_IsSame : (s t : Store F D) → IsSame s t → HoldsSame s t
  HoldsSame-of_IsSame s t (state, a, b, c, d) k =
      (ap (lookup k) a, ap (lookup k) c, ap (count_of k) b, ap (count_of k) d)

  pub HoldsSame-of_eq : (s t : Store F D) → t ≡ s → HoldsSame s t
  HoldsSame-of_eq s t e k = subst (λ u. HoldsSame s u) (sym e) (λ k. (refl, refl, refl, refl)) k

  -- A slot that is refused or held already changes nothing.
  acquire_slot-kept :
      (s : Store F D) (scope request : Text)
      → (acquire_slot s scope request).0.acquired ≡ false
      → (acquire_slot s scope request).1 ≡ s
  unfolding acquire_slot acquire_known acquire_new
  acquire_slot-kept s scope request e = ground arith

  -- A refused slot was not acquired.
  acquire_slot-refused :
      (s : Store F D) (scope request : Text)
      → (acquire_slot s scope request).0.allowed ≡ false
      → (acquire_slot s scope request).0.acquired ≡ false
  unfolding acquire_slot acquire_known acquire_new
  acquire_slot-refused s scope request e = ground arith

  -- What an acquired slot adds.
  acquired_slot :
      (s : Store F D) (scope request : Text)
      → (acquire_slot s scope request).0.acquired ≡ true
      → let t = (acquire_slot s scope request).1 in
        let id = trim_space request in
        let owner = trim_space scope in
        (is_empty id ≡ false)
        × (lookup id s.active_requests ≡ none)
        × (t.active_requests ≡ insert id owner s.active_requests)
        × (t.active_by_scope
            ≡ insert owner (count_of owner s.active_by_scope + 1) s.active_by_scope)
        × (t.group_slots ≡ s.group_slots)
        × (t.group_active ≡ s.group_active)
  unfolding acquire_slot acquire_known acquire_new
  acquired_slot s scope request e = ground arith

  -- Releasing the slot that has just been acquired.
  released :
      (s t : Store F D) (request owner : Text)
      → is_empty (trim_space request) ≡ false
      → lookup (trim_space request) s.active_requests ≡ none
      → t.active_requests ≡ insert (trim_space request) owner s.active_requests
      → t.active_by_scope ≡ insert owner (count_of owner s.active_by_scope + 1) s.active_by_scope
      → t.group_slots ≡ s.group_slots
      → t.group_active ≡ s.group_active
      → HoldsSame s (release_slot t request).1
  unfolding release_slot
  released s t request owner named free requests scopes slots active k =
      let id = trim_space request in
      let held : lookup id t.active_requests ≡ some owner =
        ap (lookup id) requests ∙ lookup-insert_self id owner s.active_requests in
      rw (named, held, release_slot)
        (
          ap (λ m. lookup k (delete id m)) requests
              ∙ deleted_insert id k owner s.active_requests free,
          ap (lookup k) slots,
          ap (λ m. count_of k (decrement owner m)) scopes
              ∙ decremented_insert owner k s.active_by_scope,
          ap (count_of k) active,
        )

module _ {F D : Type 0} ⦃fl : Float F⦄ ⦃repository : Repository F D⦄ where
  -- The subscription check changes no slot.
  pub authorize-slots :
      (s : Store F D) (scope : Text) (at now : Time)
      → let t = (authorize s scope at now).1 in
        (t.active_requests ≡ s.active_requests)
        × (t.active_by_scope ≡ s.active_by_scope)
        × (t.group_slots ≡ s.group_slots)
        × (t.group_active ≡ s.group_active)
  unfolding authorize update_result flush
  authorize-slots s scope at now = ground arith

  module _ (clock : Clock) where
    authorize_held-free :
        (s : Store F D) (format scope request : Text)
        → (authorize_held clock s format scope request false).1
          ≡ (authorize s scope (clock 3) (clock 4)).1
    unfolding authorize_held
    authorize_held-free s format scope request =
        elim (Bool-cases (authorize s scope (clock 3) (clock 4)).0.allowed) [
          | inl allowed ↦ rw (allowed, authorize_held) refl
          | inr blocked ↦ rw (blocked, authorize_held) refl
        ]

    authorize_held-HoldsSame :
        (s t : Store F D) (format scope request : Text)
        → t ≡ s
        → HoldsSame s (authorize_held clock t format scope request false).1
    authorize_held-HoldsSame s t format scope request same k =
        let free = authorize_held-free t format scope request in
        let (a, b, c, d) = authorize-slots t scope (clock 3) (clock 4) in
        (
          ap (λ (u : Store F D). lookup k u.active_requests) free
              ∙ ap (lookup k) a
              ∙ ap (λ (u : Store F D). lookup k u.active_requests) same,
          ap (λ (u : Store F D). lookup k u.group_slots) free
              ∙ ap (lookup k) c
              ∙ ap (λ (u : Store F D). lookup k u.group_slots) same,
          ap (λ (u : Store F D). count_of k u.active_by_scope) free
              ∙ ap (count_of k) b
              ∙ ap (λ (u : Store F D). count_of k u.active_by_scope) same,
          ap (λ (u : Store F D). count_of k u.group_active) free
              ∙ ap (count_of k) d
              ∙ ap (λ (u : Store F D). count_of k u.group_active) same,
        )

    -- A refusal by the quota releases a slot that was acquired.
    authorize_held-released :
        (s : Store F D) (format scope request : Text)
        → (acquire_slot s scope request).0.acquired ≡ true
        → (authorize_held clock
            (acquire_slot s scope request).1
            format
            scope
            request
            true).0.terminate
          ≡ true
        → HoldsSame s
            (authorize_held clock (acquire_slot s scope request).1 format scope request true).1
    unfolding authorize_held
    authorize_held-released s format scope request acquired e =
        let t = (acquire_slot s scope request).1 in
        let u = (authorize t scope (clock 3) (clock 4)).1 in
        let (named, free, requests, scopes, slots, active) =
          acquired_slot s scope request acquired in
        let (a, b, c, d) = authorize-slots t scope (clock 3) (clock 4) in
        elim (Bool-cases (authorize t scope (clock 3) (clock 4)).0.allowed) [
          | inl allowed ↦ absurd (ground arith)
          | inr blocked ↦
              rw (blocked, authorize_held)
                (released s u request (trim_space scope) named free (a ∙ requests) (b ∙ scopes)
                  (c ∙ slots) (d ∙ active))
        ]

    pub admit_ungrouped-HoldsSame :
        (s : Store F D) (format scope request : Text) (generate : Bool)
        → (admit_ungrouped clock s format scope request generate).0.terminate ≡ true
        → HoldsSame s (admit_ungrouped clock s format scope request generate).1
    unfolding admit_ungrouped
    admit_ungrouped-HoldsSame s format scope request false e =
        authorize_held-HoldsSame s s format scope request refl
    admit_ungrouped-HoldsSame s format scope request true e =
        let slot = (acquire_slot s scope request).0 in
        elim (Bool-cases slot.allowed) [
          | inr full ↦
              let same =
                acquire_slot-kept s scope request (acquire_slot-refused s scope request full) in
              rw (full, admit_ungrouped) (HoldsSame-of_eq s (acquire_slot s scope request).1 same)
          | inl allowed ↦ elim (Bool-cases slot.acquired) [
            | inr old ↦
                rw (allowed, old, admit_ungrouped)
                  (authorize_held-HoldsSame s (acquire_slot s scope request).1 format scope request
                    (acquire_slot-kept s scope request old))
            | inl new ↦
                rw (allowed, new, admit_ungrouped)
                  (authorize_held-released s format scope request new
                    (rw (allowed, new, admit_ungrouped) at e))
          ]
        ]
