-- ===== src/Plans/Subscriptions/Updates.antt =====
-- internal/billing/plan.go, UpdatePlanWithBindings: an update of a plan keeps the cycles of its windows
-- only.
use cpa_plugin_group_billing.Prelude.{
  ◌≡◌, refl, true, false, ◌&&◌, ◌||◌, Option, some, List, [], ◌∷◌, any, arith, ap, ◌∙◌, sym, subst,
  Bool-cases, inl, inr,
}
use cpa_plugin_group_billing.Prelude.Table.{Table, delete, Every}
use cpa_plugin_group_billing.Prelude.Int64.{eqb_ℤ_iff}
use cpa_plugin_group_billing.Prelude.Text.{
  Text, text_eq, text_eq_iff, text_eq_refl, contains, is_empty,
}
use cpa_plugin_group_billing.Plans.{same_schedule}
use cpa_plugin_group_billing.Plans.Edits.{
  keeps_schedule, reset_windows, delete_all, is_selected, joins, update_key, update_keys,
  replace_plan,
}
use cpa_plugin_group_billing.State.{QuotaWindow, Plan, QuotaCycle, KeyState, find_plan_id}
use cpa_plugin_group_billing.Plans.Lookups.{find_plan_id-replace_plan}
use cpa_plugin_group_billing.Plans.Subscriptions.{
  Fits, IsSubscribed, AllSubscribed, is_window_of, Every-map, any_mono, some-injective,
  IsSubscribed-kept,
}

delete-apart :
    {V : Type 0} (P : Text → V → Type 0) (k : Text) (m : Table V)
    → Every P m
    → Every (λ j v. P j v × (text_eq k j ≡ false)) (delete k m)
unfolding delete
delete-apart P k [] h = tt
delete-apart P k ((j, v) ∷ m) (h, hs) = elim (Bool-cases (text_eq j k)) [
  | inl same ↦ rw (same, delete) (delete-apart P k m hs)
  | inr apart ↦
      rw (apart, delete)
        ((h, ground (arith, text_eq_iff j k, text_eq_iff k j)), delete-apart P k m hs)
]

delete_all-apart :
    {V : Type 0} (P : Text → V → Type 0) (ids : List Text) (m : Table V)
    → Every P m
    → Every (λ j v. P j v × (contains j ids ≡ false)) (delete_all ids m)
unfolding delete_all contains
delete_all-apart P [] m h = Every-map P (λ j v. P j v × (false ≡ false)) m (λ j v p. (p, refl)) h
delete_all-apart P (i ∷ is) m h =
    Every-map (λ j v. (P j v × (text_eq i j ≡ false)) × (contains j is ≡ false))
      (λ j v. P j v × ((text_eq i j || contains j is) ≡ false)) (delete_all is (delete i m))
      (λ j v p. (p.0.0, ground arith))
      (delete_all-apart (λ j v. P j v × (text_eq i j ≡ false)) is (delete i m)
        (delete-apart P i m h))

module _ {F : Type 0} where
  -- The cycles that an update leaves are of windows that it keeps.
  keeps_schedule-period :
      (id : Text) (c : QuotaCycle F) (old w : QuotaWindow F)
      → is_window_of id c old ≡ true
      → keeps_schedule old w ≡ true
      → is_window_of id c w ≡ true
  unfolding same_schedule
  keeps_schedule-period id c old w mine kept =
      ground (arith, text_eq_iff w.id old.id, eqb_ℤ_iff w.period_seconds old.period_seconds)

  pub reset_windows-kept :
      (updated olds : List (QuotaWindow F)) (id : Text) (c : QuotaCycle F)
      → contains id (reset_windows updated olds) ≡ false
      → any (is_window_of id c) olds ≡ true
      → any (is_window_of id c) updated ≡ true
  unfolding reset_windows any contains
  reset_windows-kept updated [] id c e h = absurd cc
  reset_windows-kept updated (old ∷ olds) id c e h = ground (
    arith,
    any_mono (keeps_schedule old) (is_window_of id c) updated,
    keeps_schedule-period id c old,
    text_eq_iff old.id id,
    reset_windows-kept updated olds id c,
  )

  -- Every cycle of a window of the old plan that is not reset is one of a window of the new plan.
  abbrev pub Keeps : Plan F → Plan F → List Text → Type 0
  Keeps old new reset =
      (j : Text)
      → (c : QuotaCycle F) → contains j reset ≡ false
      → any (is_window_of j c) old.windows ≡ true
      → any (is_window_of j c) new.windows ≡ true

  kept_cycles :
      (old new : Plan F) (reset : List Text) (plan_id : Text) (cycles : Table (QuotaCycle F))
      → Keeps old new reset
      → Every (Fits old.windows plan_id) cycles
      → Every (Fits new.windows plan_id) (delete_all reset cycles)
  kept_cycles old new reset plan_id cycles kept fits =
      Every-map (λ j c. Fits old.windows plan_id j c × (contains j reset ≡ false))
        (Fits new.windows plan_id) (delete_all reset cycles) (λ j c p. (p.0.0, kept j c p.1 p.0.1))
        (delete_all-apart (Fits old.windows plan_id) reset cycles fits)

  old-Fits :
      (ps : List (Plan F)) (old : Plan F) (id : Text) (key : KeyState F)
      → key.plan_id ≡ id
      → find_plan_id ps id ≡ some old
      → IsSubscribed ps key
      → Every (Fits old.windows key.plan_id) key.cycles
  old-Fits ps old id key e found (inl (free, none_left)) =
      subst (Every (Fits old.windows key.plan_id)) (sym none_left) tt
  old-Fits ps old id key e found (inr (p, there, fits)) =
      let same : p ≡ old = some-injective p old (sym there ∙ ap (find_plan_id ps) e ∙ found) in
      subst (λ (p : Plan F). Every (Fits p.windows key.plan_id) key.cycles) same fits

  update_key-IsSubscribed :
      (ps : List (Plan F)) (old new : Plan F) (id : Text) (scopes : Option (List Text))
      (reset : List Text) (scope : Text) (key : KeyState F)
      → new.id ≡ id
      → find_plan_id ps id ≡ some old
      → Keeps old new reset
      → IsSubscribed ps key
      → IsSubscribed (replace_plan id new ps) (update_key id scopes reset scope key)
  unfolding update_key
  update_key-IsSubscribed ps old new id scopes reset scope key same found kept h =
      let there = find_plan_id-replace_plan id key.plan_id old new ps same found in
      elim (Bool-cases (text_eq key.plan_id id)) [
        | inl mine ↦
            let e = (text_eq_iff key.plan_id id).0 mine in
            elim (Bool-cases (is_selected scopes scope)) [
              | inr out ↦ rw (mine, out, update_key) (inl (refl, refl))
              | inl stays ↦
                  let now_new : find_plan_id (replace_plan id new ps) key.plan_id ≡ some new =
                    ground (arith, text_eq_iff id key.plan_id) in
                  let cycles =
                    kept_cycles old new reset key.plan_id key.cycles kept
                      (old-Fits ps old id key e found h) in
                  rw (mine, stays, update_key) (inr (new, now_new, cycles))
            ]
        | inr other ↦ elim (Bool-cases (joins scopes scope && is_empty key.plan_id)) [
          | inl in_ ↦
              let found_new : find_plan_id (replace_plan id new ps) id ≡ some new =
                ground
                  (arith, text_eq_refl id, find_plan_id-replace_plan id id old new ps same found) in
              rw (other, in_, update_key) (inr (new, found_new, tt))
          | inr stays ↦
              rw (other, stays, update_key)
                (IsSubscribed-kept ps (replace_plan id new ps) key
                  (λ p f. ground (arith, text_eq_iff id key.plan_id, text_eq_iff key.plan_id id)) h)
        ]
      ]

  pub update_keys-AllSubscribed :
      (ps : List (Plan F)) (old new : Plan F) (id : Text) (scopes : Option (List Text))
      (reset : List Text) (keys : Table (KeyState F))
      → new.id ≡ id
      → find_plan_id ps id ≡ some old
      → Keeps old new reset
      → AllSubscribed ps keys
      → AllSubscribed (replace_plan id new ps) (update_keys id scopes reset keys)
  unfolding update_keys
  update_keys-AllSubscribed ps old new id scopes reset [] same found kept h = tt
  update_keys-AllSubscribed ps old new id scopes reset ((scope, key) ∷ keys) same found kept
        (h, hs) =
      (
        update_key-IsSubscribed ps old new id scopes reset scope key same found kept h,
        update_keys-AllSubscribed ps old new id scopes reset keys same found kept hs,
      )
