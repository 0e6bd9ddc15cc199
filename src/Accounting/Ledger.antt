-- ===== src/Accounting/Ledger.antt =====
-- A day ledger under charges: what it holds stays in range, and no charge is lost silently.
use cpa_plugin_group_billing.Prelude.{
  ℕ, ◌+◌, ◌≤◌, ◌<◌, ◌∙◌, ◌≡◌, refl, ◌⊎◌, inl, inr, Bool, true, false, Option, none, some, arith,
  Option-cases, Bool-cases, if◌then◌else◌,
}
use cpa_plugin_group_billing.Prelude.Int64.{pos, max_int64}
use cpa_plugin_group_billing.Accounting.{
  charge, charged, settle_day, count_incomplete, count_request, count_tokens, is_before_reset,
  amount_overflow,
}
use cpa_plugin_group_billing.Calendar.{Time}
use cpa_plugin_group_billing.Groups.{GroupDay}
use cpa_plugin_group_billing.Pricing.{Breakdown, valid}
use cpa_plugin_group_billing.Usd.{Usd}
use cpa_plugin_group_billing.Usd.Bounds.{IsCount, add_group_count_pos}

-- A cost and the part of it that a reset credits, as int64 values.
abbrev pub IsCharged : Usd → Usd → Type 0
IsCharged raw credit =
    (r : ℕ) × (c : ℕ) × (raw ≡ pos r) × (credit ≡ pos c) × (c ≤ r) × (r ≤ max_int64)

-- The amounts, the tokens and the requests are int64 values that are not negative, and the credit of a
-- reset never exceeds the cost. The counter of incomplete records is left out.
abbrev pub IsSound : GroupDay → Type 0
IsSound d = IsCharged d.raw d.credit × IsCount d.tokens × IsCount d.requests

-- A charge that fits adds exactly its amount to the cost, and to the credit if the usage is from
-- before the reset.
pub charged_exact :
    (d : GroupDay) (r c a : ℕ) (at : Time) (raw credit : Usd)
    → d.raw ≡ pos r
    → d.credit ≡ pos c
    → c ≤ r
    → r ≤ max_int64
    → a ≤ max_int64
    → charged d (pos a) at ≡ some (raw, credit)
    → (raw ≡ pos (r + a))
      × (credit ≡ (if is_before_reset d.reset_cutoff at then pos (c + a) else pos c))
      × (r + a ≤ max_int64)
unfolding charged
charged_exact d r c a at raw credit re ce le rl al e =
    ground (arith, add_group_count_pos r a, add_group_count_pos c a)

-- A charge is refused only if the cost would not fit: the credit never exceeds it.
charged_refused :
    (d : GroupDay) (r c a : ℕ) (at : Time)
    → d.raw ≡ pos r
    → d.credit ≡ pos c
    → c ≤ r
    → r ≤ max_int64
    → a ≤ max_int64
    → charged d (pos a) at ≡ none
    → max_int64 < r + a
unfolding charged
charged_refused d r c a at re ce le rl al e =
    ground (arith, add_group_count_pos r a, add_group_count_pos c a)

charged-IsCharged :
    (d : GroupDay) (a : ℕ) (at : Time) (raw credit : Usd)
    → IsCharged d.raw d.credit
    → a ≤ max_int64
    → charged d (pos a) at ≡ some (raw, credit)
    → IsCharged raw credit
charged-IsCharged d a at raw credit (r, c, re, ce, le, rl) al e =
    let (raw_eq, credit_eq, fits) = charged_exact d r c a at raw credit re ce le rl al e in
    elim (Bool-cases (is_before_reset d.reset_cutoff at)) [
      | inl early ↦ (r + a, c + a, raw_eq, rw early at credit_eq, omega arith, fits)
      | inr late ↦ (r + a, c, raw_eq, rw late at credit_eq, omega arith, fits)
    ]

charge-IsSound :
    (d : GroupDay) (amount : Option Usd) (is_priced : Bool) (at : Time)
    → IsSound d
    → ((a : Usd) → amount ≡ some a → IsCount a)
    → IsSound (charge d amount is_priced at).0
unfolding charge
charge-IsSound d none is_priced at v counts = v
charge-IsSound d (some amount) false at v counts = v
charge-IsSound d (some amount) true at v counts =
    let (a, ae, al) = counts amount refl in
    elim (Option-cases (charged d amount at)) [
      | inl refused ↦ rw (refused, charge) v
      | inr ((raw, credit), fits) ↦
          rw (fits, charge) (charged-IsCharged d a at raw credit v.0 al (rw ae at fits), v.1, v.2)
    ]

count_incomplete-IsSound :
    (d : GroupDay) (cost : Option Usd) → IsSound d → IsSound (count_incomplete d cost)
unfolding count_incomplete
count_incomplete-IsSound d none v = v
count_incomplete-IsSound d (some c) v = v

count_request-IsSound : (d : GroupDay) → IsSound d → IsSound (count_request d)
unfolding count_request
count_request-IsSound d (charges, tokens, (q, qe, ql)) =
    elim (add_group_count_pos q 1 ql (omega arith)) [
      | inl (e, le) ↦ rw (qe, e, count_request) (charges, tokens, (q + 1, refl, le))
      | inr (e, gt) ↦ rw (qe, e, count_request) (charges, tokens, (q, qe, ql))
    ]

count_tokens-IsSound :
    (d : GroupDay) (b : Breakdown)
    → IsCount b.total ⊎ (valid b ≡ false)
    → IsSound d
    → IsSound (count_tokens d b)
unfolding count_tokens
count_tokens-IsSound d b (inr invalid) v = rw (invalid, count_tokens) v
count_tokens-IsSound d b (inl (n, ne, nl)) (charges, (t, te, tl), requests) =
    elim (Bool-cases (valid b)) [
      | inr invalid ↦ rw (invalid, count_tokens) (charges, (t, te, tl), requests)
      | inl good ↦ elim (add_group_count_pos t n tl nl) [
        | inl (e, le) ↦ rw (good, te, ne, e, count_tokens) (charges, (t + n, refl, le), requests)
        | inr (e, gt) ↦ rw (good, te, ne, e, count_tokens) (charges, (t, te, tl), requests)
      ]
    ]

-- One record keeps a ledger sound, whether it is charged, refused or counted as incomplete.
pub settle_day-IsSound :
    (d : GroupDay) (amount : Option Usd) (is_priced : Bool) (b : Breakdown) (at now : Time)
    → IsSound d
    → ((a : Usd) → amount ≡ some a → IsCount a)
    → IsCount b.total ⊎ (valid b ≡ false)
    → IsSound (settle_day d amount is_priced b at now)
unfolding settle_day
settle_day-IsSound d amount is_priced b at now v counts total =
    let (day, cost, _) = charge d amount is_priced at in
    count_tokens-IsSound (count_request (count_incomplete day cost)) b total (
      count_request-IsSound (count_incomplete day cost)
        (count_incomplete-IsSound day cost (charge-IsSound d amount is_priced at v counts)))

-- The counters leave the amounts and the accounting error alone.
settle_day-charge :
    (d : GroupDay) (amount : Option Usd) (is_priced : Bool) (b : Breakdown) (at now : Time)
    → let day = (charge d amount is_priced at).0 in
      let day' = settle_day d amount is_priced b at now in
      (day'.raw ≡ day.raw)
      × (day'.credit ≡ day.credit)
      × (day'.accounting_error ≡ day.accounting_error)
unfolding settle_day count_incomplete count_request count_tokens
settle_day-charge d amount is_priced b at now = ground arith

-- In a ledger whose credit is at most its cost, both int64 values that are not negative, no priced
-- record with an amount of that kind is lost silently: either its whole amount is added to the cost,
-- and to the credit exactly if it is from before the reset, and no error is recorded; or the sum does
-- not fit an int64, both amounts stay as they were, and the ledger records an accounting error.
pub settle_day_exact :
    (d : GroupDay) (r c a : ℕ) (b : Breakdown) (at now : Time)
    → d.raw ≡ pos r
    → d.credit ≡ pos c
    → c ≤ r
    → r ≤ max_int64
    → a ≤ max_int64
    → let day = settle_day d (some (pos a)) true b at now in
      ((r + a ≤ max_int64)
        × (day.raw ≡ pos (r + a))
        × (day.credit ≡ (if is_before_reset d.reset_cutoff at then pos (c + a) else pos c))
        × (day.accounting_error ≡ d.accounting_error))
      ⊎ ((max_int64 < r + a)
          × (day.raw ≡ pos r)
          × (day.credit ≡ pos c)
          × (day.accounting_error ≡ amount_overflow))
settle_day_exact d r c a b at now re ce le rl al =
    let (raw_eq, credit_eq, error_eq) = settle_day-charge d (some (pos a)) true b at now in
    elim (Option-cases (charged d (pos a) at)) [
      | inl refused ↦ inr (
        charged_refused d r c a at re ce le rl al refused,
        raw_eq ∙ unfold charge in rw (refused, charge) re,
        credit_eq ∙ unfold charge in rw (refused, charge) ce,
        error_eq ∙ unfold charge in rw (refused, charge),
      )
      | inr ((raw, credit), fits) ↦
          let (p, q, s) = charged_exact d r c a at raw credit re ce le rl al fits in
          inl (
            s,
            raw_eq ∙ unfold charge in rw (fits, charge) p,
            credit_eq ∙ unfold charge in rw (fits, charge) q,
            error_eq ∙ unfold charge in rw (fits, charge),
          )
    ]
