-- ===== src/Plans/Validity.antt =====
-- internal/billing/plan.go, Plan.Validate: what the windows of a plan that passes the checks are like.
use cpa_plugin_group_billing.Prelude.{
  ◌/◌, ◌≤◌, ◌≡◌, Bool, false, List, [], ◌∷◌, any, arith, All, All-map, Bool-cases, inl, inr,
}
use cpa_plugin_group_billing.Prelude.Int64.{ℤ, pos_part, eqb_ℤ, max_int64}
use cpa_plugin_group_billing.Prelude.Text.{text_eq, is_empty, contains, trim_space}
use cpa_plugin_group_billing.Calendar.{second}
use cpa_plugin_group_billing.Errors.{ok, Result-cases}
use cpa_plugin_group_billing.Float.{Float}
use cpa_plugin_group_billing.Plans.{
  Seen, bad_count, bad_amount, no_quota, is_rolling, check_window, check_windows, seen_window,
  validate_plan,
}
use cpa_plugin_group_billing.State.{QuotaWindow, Plan}

differs_ℤ : (a b : ℤ) → eqb_ℤ a b ≡ false → eqb_ℤ b a ≡ false
differs_ℤ a b e = ground arith

module _ {F : Type 0} ⦃fl : Float F⦄ where
  -- A window with an identifier, a period that a cycle can have, limits in their range, and at least
  -- one limit.
  abbrev pub IsSound : QuotaWindow F → Type 0
  IsSound w =
      (is_empty w.id ≡ false)
      × (1 ≤ pos_part w.period_seconds)
      × (pos_part w.period_seconds ≤ max_int64 / second)
      × (bad_amount w.amount ≡ false)
      × (bad_count w.token_limit ≡ false)
      × (bad_count w.request_limit ≡ false)
      × (no_quota w ≡ false)

  -- The identifier and the period of a window are those of no window behind it.
  abbrev pub DiffersFrom : QuotaWindow F → QuotaWindow F → Type 0
  DiffersFrom w v = (text_eq w.id v.id ≡ false) × (eqb_ℤ w.period_seconds v.period_seconds ≡ false)

  abbrev pub AreDistinct : List (QuotaWindow F) → Type 0
  AreDistinct [] = Unit
  AreDistinct (w ∷ ws) = All (DiffersFrom w) ws × AreDistinct ws

  check_window-IsSound :
      (rolling : Bool) (seen : Seen) (w : QuotaWindow F)
      → check_window rolling seen w ≡ ok tt
      → IsSound w
  unfolding check_window
  check_window-IsSound rolling seen w e = ground arith

  check_window-new :
      (rolling : Bool) (seen : Seen) (w : QuotaWindow F)
      → check_window rolling seen w ≡ ok tt
      → (contains w.id seen.ids ≡ false) × (any (eqb_ℤ w.period_seconds) seen.periods ≡ false)
  unfolding check_window
  check_window-new rolling seen w e = ground arith

  check_windows-tail :
      (rolling : Bool) (seen : Seen) (w : QuotaWindow F) (ws : List (QuotaWindow F))
      → check_windows rolling seen (w ∷ ws) ≡ ok tt
      → (check_window rolling seen w ≡ ok tt)
        × (check_windows rolling (seen_window w seen) ws ≡ ok tt)
  unfolding check_windows
  check_windows-tail rolling seen w ws e = elim (Result-cases (check_window rolling seen w)) [
    | inl (u, passed) ↦ (passed, rw passed at e)
    | inr (failure, refused) ↦ absurd (ground arith)
  ]

  -- The later windows differ from every window seen.
  later_new :
      (rolling : Bool) (seen : Seen) (ws : List (QuotaWindow F))
      → check_windows rolling seen ws ≡ ok tt
      → All
          (λ v.
            (contains v.id seen.ids ≡ false) × (any (eqb_ℤ v.period_seconds) seen.periods ≡ false))
          ws
  unfolding contains any
  later_new rolling seen [] e = tt
  later_new rolling seen (w ∷ ws) e =
      let (first, rest) = check_windows-tail rolling seen w ws e in
      (
        check_window-new rolling seen w first,
        All-map _ _ ws (λ v p. ground arith) (later_new rolling (seen_window w seen) ws rest),
      )

  AreDistinct-check_windows :
      (rolling : Bool) (seen : Seen) (ws : List (QuotaWindow F))
      → check_windows rolling seen ws ≡ ok tt
      → All IsSound ws × AreDistinct ws
  unfolding contains any
  AreDistinct-check_windows rolling seen [] e = (tt, tt)
  AreDistinct-check_windows rolling seen (w ∷ ws) e =
      let (first, rest) = check_windows-tail rolling seen w ws e in
      let (sound, distinct) = AreDistinct-check_windows rolling (seen_window w seen) ws rest in
      let apart =
        All-map _ (DiffersFrom w) ws
          (λ v p. (ground arith, differs_ℤ v.period_seconds w.period_seconds (ground arith)))
          (later_new rolling (seen_window w seen) ws rest) in
      ((check_window-IsSound rolling seen w first, sound), (apart, distinct))

  -- A plan that passes the checks has an identifier and at least one window. Each of its windows has an
  -- identifier, a period between one second and the longest duration, limits in their ranges and at
  -- least one of them, and no two windows share an identifier or a period.
  pub validate_plan-IsSound :
      (p : Plan F)
      → validate_plan p ≡ ok tt
      → (is_empty (trim_space p.id) ≡ false)
        × (is_empty p.windows ≡ false)
        × All IsSound p.windows
        × AreDistinct p.windows
  unfolding validate_plan
  validate_plan-IsSound p e = elim (Bool-cases (is_empty (trim_space p.id))) [
    | inl blank ↦ absurd (ground arith)
    | inr named ↦ elim (Bool-cases (is_empty p.windows)) [
      | inl none_left ↦ absurd (ground arith)
      | inr some_left ↦
          let (sound, distinct) =
            AreDistinct-check_windows (is_rolling p.windows)
              (record { ids = []; names = []; periods = [] }) p.windows
              (rw (named, some_left, validate_plan) at e) in
          (named, some_left, sound, distinct)
    ]
  ]
