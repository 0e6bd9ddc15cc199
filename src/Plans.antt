-- ===== src/Plans.antt =====
-- internal/billing/plan.go: subscription plans and their quota windows: the checks of a plan, and how
-- its windows are prepared.
pub mod Validity
pub mod Edits
pub mod Lookups
pub mod Subscriptions
pub mod Kept
pub mod Calls
use cpa_plugin_group_billing.Prelude.{
  ℕ, suc, ◌+◌, ◌-◌, ◌*◌, ◌/◌, ◌%◌, ◌≡◌, refl, Bool, true, false, not, ◌&&◌, ◌||◌, Option, none,
  some, List, [], ◌∷◌, ◌++◌, any, ltb, leb, ◌==◌, if◌then◌else◌,
}
use cpa_plugin_group_billing.Prelude.Int64.{ℤ, pos, pos_part, ltb_ℤ, leb_ℤ, eqb_ℤ, max_int64}
use cpa_plugin_group_billing.Prelude.Sort.{sort_stable}
use cpa_plugin_group_billing.Prelude.Text.{
  Text, text_eq, is_empty, byte_length, trim_space, to_lower, contains,
}
use cpa_plugin_group_billing.Calendar.{Time, before, is_zero, second, day_seconds, civil}
use cpa_plugin_group_billing.Errors.{Error, Result, ok, err, invalidf, refuse, ◌>>=◌, ◌>>◌}
use cpa_plugin_group_billing.Float.{Float}
use cpa_plugin_group_billing.Routes.{max_route_name_bytes}
use cpa_plugin_group_billing.State.{QuotaWindow, Plan}

-- `int64(math.MaxInt64) / int64(time.Second)`
abbrev pub max_period_seconds : ℤ
max_period_seconds = pos (max_int64 / second)

abbrev pub max_quota_count : ℤ
max_quota_count = pos 9_007_199_254_740_991

-- `Time.Year` of a time in UTC.
unfoldable pub year : Time → ℕ
year t = (civil (t / second / day_seconds)).0

unfoldable pub bad_count : ℤ → Bool
bad_count n = ltb_ℤ n (pos 0) || ltb_ℤ max_quota_count n

-- An anchor outside of the years, or not at a whole second.
unfoldable pub bad_anchor : Time → Bool
bad_anchor t = not (is_zero t) && (ltb (year t) 1970 || ltb 9999 (year t) || not (t % second == 0))

-- What the loop of `Plan.Validate` has seen.
pub record Seen : Type 0 where
  pub ids : List Text
  pub names : List Text
  pub periods : List ℤ

module _ {F : Type 0} ⦃fl : Float F⦄ where
  abbrev zero_usd : F
  zero_usd = fl.of_int (pos 0)

  unfoldable pub bad_amount : F → Bool
  bad_amount a = fl.lt a zero_usd || fl.is_nan a || fl.is_inf a

  unfoldable pub no_quota : QuotaWindow F → Bool
  no_quota w =
      fl.eq w.amount zero_usd && eqb_ℤ w.token_limit (pos 0) && eqb_ℤ w.request_limit (pos 0)

  -- The checks of one window against the ones before it; `rolling` is whether the first window of the
  -- plan has no anchor.
  unfoldable pub check_window : Bool → Seen → QuotaWindow F → Result (Unit {0})
  unfolding bad_amount no_quota
  check_window rolling seen w = do
    let name = trim_space w.name
    refuse (is_empty w.id || contains w.id seen.ids) (invalidf "额度窗口 ID 无效或重复")
    refuse (is_empty name || ltb max_route_name_bytes (byte_length name))
        (invalidf "窗口名称不能为空且不能超过 %d 字节")
    refuse (contains (to_lower name) seen.names) (invalidf "窗口名称 %q 重复")
    refuse (bad_amount w.amount) (invalidf "窗口 %q：金额额度必须为有限非负数")
    refuse (bad_count w.token_limit || bad_count w.request_limit)
        (invalidf "窗口 %q：Token 和请求限额必须为 0 到 %d 的整数")
    refuse (no_quota w) (invalidf "窗口 %q：至少设置一种额度")
    refuse (leb_ℤ w.period_seconds (pos 0) || ltb_ℤ max_period_seconds w.period_seconds)
        (invalidf "窗口 %q：周期必须为 1 到 %d 秒")
    refuse (any (eqb_ℤ w.period_seconds) seen.periods) (invalidf "窗口 %q 的周期与其他窗口重复")
    refuse (if is_zero w.cycle_anchor_at then not rolling else rolling)
        (invalidf "同一订阅计划的额度窗口必须使用相同周期模式")
    refuse (bad_anchor w.cycle_anchor_at) (invalidf "窗口 %q：周期开始时间必须为 1970 到 9999 年之间、精确到秒的时间")

  abbrev pub seen_window : QuotaWindow F → Seen → Seen
  seen_window w seen = record {
    ids = w.id ∷ seen.ids;
    names = to_lower (trim_space w.name) ∷ seen.names;
    periods = w.period_seconds ∷ seen.periods;
  }

  unfoldable pub check_windows : Bool → Seen → List (QuotaWindow F) → Result (Unit {0})
  check_windows rolling seen [] = ok tt
  check_windows rolling seen (w ∷ ws) =
      check_window rolling seen w >> check_windows rolling (seen_window w seen) ws

  abbrev pub is_rolling : List (QuotaWindow F) → Bool
  is_rolling [] = true
  is_rolling (w ∷ ws) = is_zero w.cycle_anchor_at

  -- `Plan.Validate`
  unfoldable pub validate_plan : Plan F → Result (Unit {0})
  validate_plan p =
      refuse (is_empty (trim_space p.id)) (invalidf "订阅计划 ID 不能为空")
      >> refuse (is_empty p.windows) (invalidf "订阅计划至少需要一个额度窗口")
      >> check_windows (is_rolling p.windows) (record { ids = []; names = []; periods = [] })
          p.windows

abbrev bad_next : Error
bad_next = invalidf "窗口 %q：下个周期开始时间必须晚于当前时间，且不超过一个周期"

-- The distance of two numbers.
abbrev pub apart : ℕ → ℕ → ℕ
apart a b = if leb a b then b - a else a - b

module _ {F : Type 0} where
  -- `QuotaWindow.sameSchedule`
  unfoldable pub same_schedule : QuotaWindow F → QuotaWindow F → Bool
  same_schedule w other =
      let a = w.cycle_anchor_at in
      let b = other.cycle_anchor_at in
      eqb_ℤ w.period_seconds other.period_seconds
      && (if is_zero a then is_zero b else not (is_zero b))
      && ((a == b)
          || (ltb_ℤ (pos 0) w.period_seconds
              && (a % second == b % second)
              && (apart (a / second) (b / second) % pos_part w.period_seconds == 0)))

  -- The first window with an identifier.
  unfoldable pub find_window : Text → List (QuotaWindow F) → Option (QuotaWindow F)
  find_window id [] = none
  find_window id (w ∷ ws) = let rest = find_window id ws in if text_eq w.id id then some w else rest

  -- A new anchor lies in the future, at most one period ahead.
  unfoldable pub bad_start : QuotaWindow F → Time → Bool
  bad_start w now =
      leb_ℤ w.period_seconds (pos 0)
      || ltb_ℤ max_period_seconds w.period_seconds
      || not (before now w.cycle_anchor_at)
      || before (now + pos_part w.period_seconds * second) w.cycle_anchor_at

  anchored : QuotaWindow F → Option (QuotaWindow F) → Time → Result (QuotaWindow F)
  anchored w none now = refuse (bad_start w now) bad_next >> ok w
  anchored w (some old) now =
      if same_schedule w old
      then ok (record w { cycle_anchor_at = old.cycle_anchor_at })
      else refuse (bad_start w now) bad_next >> ok w

  -- The identifier of a window: a drawn one if it has none, or else that of an existing window.
  identified : QuotaWindow F → Option (QuotaWindow F) → Result Text → Result (QuotaWindow F)
  identified w old drawn =
      if is_empty w.id
      then (drawn >>= λ id. ok (record w { id = id }))
      else elim old [ none ↦ err (invalidf "额度窗口 %q 已不存在，请刷新后重试") | some o ↦ ok w ]

  -- One round of the loop of `prepareWindows`.
  unfoldable pub prepare_window :
      List (QuotaWindow F) → Time → Result Text → QuotaWindow F → Result (QuotaWindow F)
  unfolding anchored identified
  prepare_window existing now drawn w =
      let old = find_window w.id existing in
      identified (record w { name = trim_space w.name }) old drawn >>= λ w'.
      if is_zero w'.cycle_anchor_at then ok w' else anchored w' old now

  -- The loop; the i-th round draws its identifier from `rand.Read`, or gets the error of the reader.
  unfoldable pub prepare_loop :
      (ℕ → Result Text)
      → ℕ
      → List (QuotaWindow F)
      → Time
      → List (QuotaWindow F)
      → Result (List (QuotaWindow F))
  prepare_loop entropy i existing now [] = ok []
  prepare_loop entropy i existing now (w ∷ ws) = do
    w' ← prepare_window existing now (entropy i) w
    rest ← prepare_loop entropy (suc i) existing now ws
    ok (w' ∷ rest)

  abbrev shorter : QuotaWindow F → QuotaWindow F → Bool
  shorter a b = ltb_ℤ a.period_seconds b.period_seconds

  -- `prepareWindows`; windows of one period, which Validate refuses, keep their order in the sort.
  unfoldable pub prepare_windows :
      (ℕ → Result Text)
      → List (QuotaWindow F)
      → List (QuotaWindow F)
      → Time
      → Result (List (QuotaWindow F))
  prepare_windows entropy windows existing now = do
    prepared ← prepare_loop entropy 0 existing now windows
    ok (sort_stable shorter prepared)
