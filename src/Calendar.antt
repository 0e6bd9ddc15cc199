-- ===== src/Calendar.antt =====
-- Instants and business days: internal/billing/group_types.go, groupDate and nextGroupDay.
use cpa_plugin_group_billing.Prelude.{
  ℕ, zero, suc, ◌+◌, ◌-◌, ◌*◌, ◌/◌, ◌%◌, ◌≡◌, refl, Bool, ◌&&◌, ◌||◌, not, [], ◌∷◌, ◌++◌, ltb, ◌==◌,
  if◌then◌else◌,
}
use cpa_plugin_group_billing.Prelude.Text.{Text, codes}

-- A `time.Time` in nanoseconds since the first instant of year 1 in UTC, Go's zero time.
abbrev pub Time : Type 0
Time = ℕ

abbrev pub before : Time → Time → Bool
before s t = ltb s t

abbrev pub is_zero : Time → Bool
is_zero t = t == 0

abbrev pub second : ℕ
second = 1_000_000_000

-- Asia/Shanghai is eight hours ahead of UTC (at every instant since September 1991).
abbrev pub zone_offset : ℕ
zone_offset = 28_800

abbrev pub day_seconds : ℕ
day_seconds = 86_400

-- The civil day in Shanghai, counted from 1 January of year 1.
unfoldable pub local_day : Time → ℕ
local_day t = (t / second + zone_offset) / day_seconds

-- The leap year's cumulative days before each month, for the months from the given one on.
unfoldable pub month_of : Bool → ℕ → ℕ × ℕ
month_of leap d =
    let feb : ℕ = if leap then 29 else 28 in
    if ltb d 31
    then (1, d + 1)
    else if ltb d (31 + feb)
    then (2, d - 31 + 1)
    else let e : ℕ = d - (31 + feb) in
      if ltb e 31
      then (3, e + 1)
      else if ltb e 61
      then (4, e - 31 + 1)
      else if ltb e 92
      then (5, e - 61 + 1)
      else if ltb e 122
      then (6, e - 92 + 1)
      else if ltb e 153
      then (7, e - 122 + 1)
      else if ltb e 184
      then (8, e - 153 + 1)
      else if ltb e 214
      then (9, e - 184 + 1)
      else if ltb e 245
      then (10, e - 214 + 1)
      else if ltb e 275
      then (11, e - 245 + 1)
      else (12, e - 275 + 1)

unfoldable pub min : ℕ → ℕ → ℕ
min a b = if ltb a b then a else b

-- Year, month and day of a civil day.
unfoldable pub civil : ℕ → ℕ × ℕ × ℕ
unfolding month_of min
civil d =
    let n400 = d / 146_097 in
    let r400 = d % 146_097 in
    let n100 = min (r400 / 36_524) 3 in
    let r100 = r400 - n100 * 36_524 in
    let n4 = r100 / 1461 in
    let r4 = r100 % 1461 in
    let n1 = min (r4 / 365) 3 in
    let year = 400 * n400 + 100 * n100 + 4 * n4 + n1 + 1 in
    let leap = (year % 4 == 0) && (not (year % 100 == 0) || (year % 400 == 0)) in
    let (month, day) = month_of leap (r4 - n1 * 365) in (year, month, day)

-- A number in the given count of decimal digits.
unfoldable pub padded : ℕ → ℕ → Text
padded zero n = []
padded (suc k) n = padded k (n / 10) ++ (b'0' + n % 10) ∷ []

date_text : ℕ → Text
unfolding civil padded
date_text d =
    let (year, month, day) = civil d in
    padded 4 year ++ b'-' ∷ (padded 2 month ++ b'-' ∷ padded 2 day)

-- `groupDate`: the date as YYYY-MM-DD (up to the year 9999).
unfoldable pub group_date : Time → Text
unfolding local_day date_text
group_date at = date_text (local_day at)

-- `nextGroupDay`: midnight of the next civil day in Shanghai.
unfoldable pub next_group_day : Time → Time
unfolding local_day
next_group_day at = ((local_day at + 1) * day_seconds - zone_offset) * second

-- The two instants around a midnight in Shanghai, 16:00 UTC on 31 December 2025.
around_midnight :
    (group_date (63_902_793_599 * second) ≡ codes "2025-12-31")
    × (group_date (63_902_793_600 * second) ≡ codes "2026-01-01")
    × (next_group_day (63_902_793_599 * second) ≡ 63_902_793_600 * second)
unfolding group_date next_group_day
around_midnight = (refl, refl, refl)

leap_day : group_date (63_844_772_400 * second) ≡ codes "2024-02-29"
unfolding group_date
leap_day = refl
