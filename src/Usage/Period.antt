-- ===== src/Usage/Period.antt =====
-- internal/controller/usagereport_controller.go: `computePeriodStart`, `formatPeriod` and `periodBounds`.
-- Instants count nanoseconds from Go's zero time, in UTC. The calendar of the standard library is the
-- parameter `Clock`, with its documented behaviour.
pub mod Bounds
use infercost.Base.{
  ℕ, ◌+◌, ◌-◌, ◌*◌, ◌/◌, ◌%◌, ◌≤◌, ◌==◌, ◌≡◌, Bool, String, str_eq, cat, if◌then◌else◌,
}
use infercost.Float.{Float64}
use infercost.Utilization.Sample.{hours}

abbrev pub schedule_weekly : String
schedule_weekly = "weekly"

abbrev pub schedule_monthly : String
schedule_monthly = "monthly"

abbrev pub day_ns : ℕ
day_ns = 86400000000000

pub record Clock : Type 0 where
  pub year : ℕ → ℕ
  pub month : ℕ → ℕ
  pub day : ℕ → ℕ
  -- Sunday is 0
  pub weekday : ℕ → ℕ
  -- `time.Date(y, m, d - back, 0, 0, 0, 0, time.UTC)`, where a day before the first of the month lies in
  -- an earlier month
  pub midnight : ℕ → ℕ → ℕ → ℕ → ℕ
  -- the year and the week of `ISOWeek`
  pub iso_week : ℕ → ℕ × ℕ
  pub format : String → ℕ → String
  -- the verbs `%d` and `%02d`
  pub format_int : ℕ → String
  pub format_two : ℕ → String

-- the midnight of a day of an instant's month lies as many days before the instant's own as the days say,
-- and the zero time is a Monday
pub record IsClock (c : Clock) : Type 0 where
  pub day_range : (t : ℕ) → (1 ≤ c.day t) × (c.day t ≤ 31) × (c.day t ≤ t / day_ns + 1)
  pub weekday-eq : (t : ℕ) → c.weekday t ≡ (t / day_ns + 1) % 7
  pub midnight-eq :
      (t d back gap : ℕ)
      → d + gap ≡ c.day t + back
      → gap ≤ t / day_ns
      → c.midnight (c.year t) (c.month t) d back + gap * day_ns ≡ t / day_ns * day_ns

module _ (clock : Clock) where
  open clock use {year, month, day, weekday, midnight, iso_week, format, format_int, format_two}

  abbrev pub days_since_monday : ℕ → ℕ
  days_since_monday now = (if weekday now == 0 then 7 else weekday now) - 1

  unfoldable pub compute_period_start : String → ℕ → ℕ
  compute_period_start schedule now =
      if str_eq schedule schedule_weekly
      then midnight (year now) (month now) (day now) (days_since_monday now)
      else if str_eq schedule schedule_monthly
      then midnight (year now) (month now) 1 0
      else midnight (year now) (month now) (day now) 0

  unfoldable pub format_period : String → ℕ → String
  format_period schedule start =
      if str_eq schedule schedule_weekly
      then cat (format_int (iso_week start).0) (cat "-W" (format_two (iso_week start).1))
      else if str_eq schedule schedule_monthly
      then format "2006-01" start
      else format "2006-01-02" start

-- the three results of `periodBounds`
pub record PeriodBounds (F : Type 0) : Type 0 where
  pub start : ℕ
  pub end : ℕ
  pub hours_in_period : F

module _ {F : Type 0} ⦃f : Float64 F⦄ where
  abbrev pub at_least_a_moment : F → F
  at_least_a_moment h = if f.lt h (f.dec 1 3) then f.dec 1 3 else h

  unfoldable pub period_bounds : Clock → String → ℕ → PeriodBounds F
  unfolding compute_period_start
  period_bounds clock schedule now =
      let start = compute_period_start clock schedule now in
      record { start = start; end = now; hours_in_period = at_least_a_moment (hours (now - start)) }
