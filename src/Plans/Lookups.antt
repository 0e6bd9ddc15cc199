-- ===== src/Plans/Lookups.antt =====
-- internal/billing/plan.go: the lookup of a plan in a list that an edit has changed.
use cpa_plugin_group_billing.Prelude.{
  ◌≡◌, refl, false, some, List, [], ◌∷◌, ◌++◌, arith, Bool-cases, inl, inr, if◌then◌else◌,
}
use cpa_plugin_group_billing.Prelude.Text.{Text, text_eq, text_eq_iff, text_eq_refl}
use cpa_plugin_group_billing.Plans.Edits.{replace_plan, remove_plan}
use cpa_plugin_group_billing.State.{Plan, find_plan_id}

module _ {F : Type 0} where
  -- Appended, replaced and removed plans, as the lookups see them.
  pub find_plan_id-append :
      (ps : List (Plan F)) (new p : Plan F) (id : Text)
      → find_plan_id ps id ≡ some p
      → find_plan_id (ps ++ new ∷ []) id ≡ some p
  unfolding find_plan_id
  find_plan_id-append [] new p id e = absurd cc
  find_plan_id-append (q ∷ ps) new p id e = ground (arith, find_plan_id-append ps new p id)

  pub find_plan_id-last :
      (ps : List (Plan F)) (new : Plan F)
      → (p : Plan F) × (find_plan_id (ps ++ new ∷ []) new.id ≡ some p)
  unfolding find_plan_id
  find_plan_id-last [] new = (new, rw (text_eq_refl new.id) refl)
  find_plan_id-last (q ∷ ps) new = elim (Bool-cases (text_eq q.id new.id)) [
    | inl same ↦ (q, rw (same, find_plan_id) refl)
    | inr apart ↦ rw (apart, find_plan_id) (find_plan_id-last ps new)
  ]

  pub find_plan_id-id :
      (ps : List (Plan F)) (id : Text) (p : Plan F) → find_plan_id ps id ≡ some p → p.id ≡ id
  unfolding find_plan_id
  find_plan_id-id [] id p e = absurd cc
  find_plan_id-id (q ∷ ps) id p e = ground (arith, text_eq_iff q.id id, find_plan_id-id ps id p)

  pub find_plan_id-replace_plan :
      (id j : Text) (old new : Plan F) (ps : List (Plan F))
      → new.id ≡ id
      → find_plan_id ps id ≡ some old
      → find_plan_id (replace_plan id new ps) j
        ≡ (if text_eq id j then some new else find_plan_id ps j)
  unfolding find_plan_id replace_plan
  find_plan_id-replace_plan id j old new [] e found = absurd cc
  find_plan_id-replace_plan id j old new (p ∷ ps) e found = ground (
    arith,
    text_eq_iff p.id id,
    text_eq_iff p.id j,
    text_eq_iff id j,
    text_eq_iff new.id j,
    find_plan_id-replace_plan id j old new ps e,
  )

  pub find_plan_id-remove_plan :
      (id j : Text) (ps : List (Plan F))
      → text_eq id j ≡ false
      → find_plan_id (remove_plan id ps) j ≡ find_plan_id ps j
  unfolding find_plan_id remove_plan
  find_plan_id-remove_plan id j [] e = refl
  find_plan_id-remove_plan id j (p ∷ ps) e = ground (
    arith,
    text_eq_iff p.id id,
    text_eq_iff p.id j,
    text_eq_iff id j,
    find_plan_id-remove_plan id j ps e,
  )
