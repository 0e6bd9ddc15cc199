-- ===== src/Quota.antt =====
-- internal/billing/quota.go and enforce.go: the quota cycles of a key on a subscription plan, and the
-- admission of its requests.
pub mod Cycles
pub mod Charges
use cpa_plugin_group_billing.Prelude.{
  ℕ, ◌+◌, ◌-◌, ◌*◌, ◌/◌, ◌%◌, ◌≡◌, refl, Bool, true, false, not, ◌&&◌, ◌||◌, Option, none, some,
  List, [], ◌∷◌, ◌++◌, any, leb, ◌==◌, if◌then◌else◌,
}
use cpa_plugin_group_billing.Prelude.Int64.{ℤ, pos, pos_part, leb_ℤ, ltb_ℤ, max_int64, sub64, add64}
use cpa_plugin_group_billing.Prelude.Table.{Table, lookup, insert}
use cpa_plugin_group_billing.Prelude.Text.{Text, text_eq, is_empty, trim_space}
use cpa_plugin_group_billing.Calendar.{Time, before, is_zero, second}
use cpa_plugin_group_billing.Float.{Float}
use cpa_plugin_group_billing.State.{State, QuotaWindow, QuotaCycle, Plan, KeyState, find_plan}
use cpa_plugin_group_billing.State.Changes.{Changes, no_changes}
use cpa_plugin_group_billing.Store.{Repository, Store, update_result}

-- `quotaUsage`
pub record QuotaUsage (F : Type 0) : Type 0 where
  pub amount : F
  pub tokens : ℤ
  pub requests : ℤ

pub data Metric : Type 0 where
  amount_usd tokens requests : Metric

-- `QuotaBalance` without the numbers that only the view prints.
pub record Balance : Type 0 where
  pub metric : Metric
  pub blocked : Bool

pub record WindowView : Type 0 where
  pub id : Text
  pub started : Bool
  pub blocked : Bool
  pub start_at : Time
  pub end_at : Time
  pub dimensions : List Balance

pub record QuotaView : Type 0 where
  pub unlimited : Bool
  pub blocked : Bool
  pub retry_at : Time
  pub windows : List WindowView

pub record Decision : Type 0 where
  pub allowed : Bool
  pub plan_id : Text
  pub plan_name : Text
  pub view : QuotaView

-- How long a cycle has run at a second, for cycles of the period that are aligned with the anchor.
unfoldable pub cycle_offset : ℕ → ℕ → ℕ → ℕ
cycle_offset now anchor period =
    let past = (anchor - now) % period in
    if leb anchor now then (now - anchor) % period else if past == 0 then 0 else period - past

-- `addQuotaCount`: the sum, or the greatest int64 if it would not fit.
unfoldable pub add_quota_count : ℤ → ℤ → ℤ
add_quota_count current delta =
    if ltb_ℤ (sub64 (pos max_int64) current) delta then pos max_int64 else add64 current delta

abbrev count_balance : Metric → ℤ → ℤ → List Balance
count_balance m limit used =
    if leb_ℤ limit (pos 0) then [] else record { metric = m; blocked = leb_ℤ limit used } ∷ []

abbrev pub no_view : QuotaView
no_view = record { unlimited = false; blocked = false; retry_at = 0; windows = [] }

abbrev pub unrestricted : Decision
unrestricted = record { allowed = true; plan_id = []; plan_name = []; view = no_view }

module _ {F : Type 0} ⦃fl : Float F⦄ where
  abbrev zero_amount : F
  zero_amount = fl.of_int (pos 0)

  -- The cycle that a missing entry of the map reads as.
  abbrev no_cycle : QuotaCycle F
  no_cycle = record {
    plan_id = [];
    start_at = 0;
    end_at = 0;
    usage_since = 0;
    spent = zero_amount;
    used_tokens = pos 0;
    used_requests = pos 0;
  }

  abbrev pub period_of : QuotaWindow F → ℕ
  period_of w = pos_part w.period_seconds

  -- `QuotaWindow.newCycle`, for a window with a positive period.
  unfoldable pub new_cycle : QuotaWindow F → Text → Time → QuotaCycle F
  new_cycle w plan_id now =
      let aligned =
        (now / second - cycle_offset (now / second) (w.cycle_anchor_at / second) (period_of w))
        * second in
      let start = if is_zero w.cycle_anchor_at then now else aligned in
      record {
        plan_id = plan_id;
        start_at = start;
        end_at = start + period_of w * second;
        usage_since = if is_zero w.cycle_anchor_at then 0 else now;
        spent = zero_amount;
        used_tokens = pos 0;
        used_requests = pos 0;
      }

  abbrev amount_balance : F → F → List Balance
  amount_balance limit used =
      if fl.le limit zero_amount
      then []
      else record { metric = amount_usd; blocked = fl.le limit used } ∷ []

  -- `QuotaWindow.view`
  unfoldable pub window_view : QuotaWindow F → QuotaCycle F → WindowView
  window_view w c =
      let dimensions =
        amount_balance w.amount c.spent
        ++ count_balance tokens w.token_limit c.used_tokens
        ++ count_balance requests w.request_limit c.used_requests in
      record {
        id = w.id;
        started = not (is_zero c.start_at);
        blocked = any (λ (b : Balance). b.blocked) dimensions;
        start_at = c.start_at;
        end_at = c.end_at;
        dimensions = dimensions;
      }

  unfoldable pub cycle_of : Table (QuotaCycle F) → QuotaWindow F → Text → Time → QuotaCycle F
  cycle_of cycles w plan_id now =
      let c : QuotaCycle F = elim (lookup w.id cycles) [ none ↦ no_cycle | some c ↦ c ] in
      if is_zero c.start_at && not (is_zero w.cycle_anchor_at) then new_cycle w plan_id now else c

  -- The loop of `quotaView`.
  unfoldable pub view_windows :
      Table (QuotaCycle F) → Text → Time → List (QuotaWindow F) → QuotaView → QuotaView
  unfolding cycle_of window_view
  view_windows cycles plan_id now [] view = view
  view_windows cycles plan_id now (w ∷ ws) view =
      let item = window_view w (cycle_of cycles w plan_id now) in
      view_windows cycles plan_id now ws (record view {
        blocked = view.blocked || item.blocked;
        retry_at =
            if item.blocked && before view.retry_at item.end_at then item.end_at else view.retry_at;
        windows = view.windows ++ item ∷ [];
      })

  -- `quotaView`
  unfoldable pub quota_view : KeyState F → Plan F → Time → QuotaView
  quota_view key plan now =
      view_windows key.cycles plan.id now plan.windows
        (record { unlimited = is_empty plan.id; blocked = false; retry_at = 0; windows = [] })

  -- `settleExpiredCycles`: the cycles that have not ended, and whether one had.
  unfoldable pub settle_expired : Table (QuotaCycle F) → Time → Table (QuotaCycle F) × Bool
  settle_expired [] now = ([], false)
  settle_expired ((id, c) ∷ m) now =
      let (rest, changed) = settle_expired m now in
      if before now c.end_at then ((id, c) ∷ rest, changed) else (rest, true)

  -- `activateCycles`: a cycle begins for every window that has none.
  unfoldable pub activate :
      Table (QuotaCycle F) → List (QuotaWindow F) → Text → Time → Table (QuotaCycle F) × Bool
  activate cycles [] plan_id now = (cycles, false)
  activate cycles (w ∷ ws) plan_id now =
      let (after, _) = activate (insert w.id (new_cycle w plan_id now) cycles) ws plan_id now in
      let same = activate cycles ws plan_id now in
      elim (lookup w.id cycles) [ some c ↦ same | none ↦ (after, true) ]

  -- The usage is charged to a cycle of the plan that was running when it was requested.
  unfoldable pub is_charged : QuotaCycle F → Text → Time → Bool
  is_charged c plan_id at =
      text_eq c.plan_id plan_id
      && not (before at c.start_at)
      && not (before at c.usage_since)
      && before at c.end_at

  unfoldable pub charge_cycle : QuotaCycle F → QuotaUsage F → QuotaCycle F
  charge_cycle c usage = record c {
    spent = fl.least (fl.plus c.spent usage.amount) fl.max_float;
    used_tokens = add_quota_count c.used_tokens usage.tokens;
    used_requests = add_quota_count c.used_requests usage.requests;
  }

  unfoldable pub charge_all :
      Table (QuotaCycle F) → Text → Time → QuotaUsage F → Table (QuotaCycle F)
  charge_all [] plan_id at usage = []
  charge_all ((id, c) ∷ m) plan_id at usage =
      (id, (if is_charged c plan_id at then charge_cycle c usage else c))
      ∷ charge_all m plan_id at usage

  -- `KeyState.chargeCycles`
  unfoldable pub charge_cycles : KeyState F → Time → QuotaUsage F → KeyState F
  charge_cycles key at usage =
      if is_empty key.plan_id || is_zero at
      then key
      else record key { cycles = charge_all key.cycles key.plan_id at usage }

  abbrev put_key : State F → Text → KeyState F → State F
  put_key s scope key = record s { keys = insert scope key s.keys }

  abbrev touched : Text → Bool → Changes F
  touched scope changed =
      let c : Changes F = no_changes in if changed then record c { keys = scope ∷ [] } else c

  -- The admission of a key that is bound to a plan that is there.
  unfoldable pub authorize_plan :
      State F → Text → KeyState F → Plan F → Time → Decision × State F × Changes F
  authorize_plan s scope key plan at =
      let (cycles, expired) = settle_expired key.cycles at in
      let settled = record key { cycles = cycles } in
      let seen = quota_view settled plan at in
      let (begun, changed) = activate cycles plan.windows plan.id at in
      let active = record key { cycles = begun } in
      let admitted = not seen.blocked && changed in
      let view = if admitted then quota_view active plan at else seen in
      (
        record {
          allowed = not view.blocked;
          plan_id = plan.id;
          plan_name = plan.name;
          view = view;
        },
        put_key s scope (if admitted then active else settled),
        touched scope (expired || admitted),
      )

  -- The function that `Authorize` hands to `updateResult`.
  unfoldable pub authorize_update : Text → Time → State F → Decision × State F × Changes F
  authorize_update scope at s = elim (lookup scope s.keys) [
    | none ↦ (unrestricted, s, no_changes)
    | some key ↦
        if is_empty key.plan_id
        then (unrestricted, s, no_changes)
        else elim (find_plan s key.plan_id) [
          | none ↦ (
            unrestricted,
            put_key s scope (record key { plan_id = []; cycles = [] }),
            touched scope true,
          )
          | some plan ↦ authorize_plan s scope key plan at
        ]
  ]

  -- `Authorize`, at the time given or else at the current one.
  unfoldable pub authorize :
      {D : Type 0} ⦃repository : Repository F D⦄
      → Store F D
      → Text
      → Time
      → Time
      → Decision × Store F D
  authorize s scope at now =
      if is_empty (trim_space scope)
      then (unrestricted, s)
      else update_result s (authorize_update (trim_space scope) (if is_zero at then now else at))
