-- ===== src/Usage/Period/Bounds.antt =====
-- A reporting period holds the instant that it is computed at.
use infercost.Base.{
  ℕ, ◌+◌, ◌-◌, ◌*◌, ◌/◌, ◌%◌, ◌≤◌, ◌<◌, ◌≡◌, refl, Bool-cases, inl, inr, String, str_eq,
  if◌then◌else◌, arith,
}
use infercost.Usage.Period.{
  Clock, IsClock, day_ns, schedule_weekly, schedule_monthly, days_since_monday,
  compute_period_start,
}

-- the most days that a period of a schedule has
abbrev pub period_days : String → ℕ
period_days schedule =
    if str_eq schedule schedule_weekly
    then 7
    else if str_eq schedule schedule_monthly
    then 31
    else 1

-- A midnight at or before an instant, by fewer days than a number.
abbrev pub IsStart : ℕ → ℕ → ℕ → Type 0
IsStart now days start = (start ≤ now) × (now < start + days * day_ns) × (start % day_ns ≡ 0)

module _ (clock : Clock) (laws : IsClock clock) where
  midnight-IsStart :
      (now d back gap days : ℕ)
      → d + gap ≡ clock.day now + back
      → gap ≤ now / day_ns
      → gap < days
      → IsStart now days (clock.midnight (clock.year now) (clock.month now) d back)
  midnight-IsStart now d back gap days same le lt =
      let e = laws.midnight-eq now d back gap same le in
      (omega (arith, e), omega (arith, e), omega (arith, e))

  days_since_monday-eq : (now : ℕ) → days_since_monday clock now ≡ now / day_ns % 7
  days_since_monday-eq now = ground (arith, laws.weekday-eq now)

  -- The period of a report starts at a midnight that is not after the instant of the reconcile, and less
  -- than a day before it for a daily, seven days for a weekly and 31 days for a monthly schedule;
  -- an unknown schedule is daily. The calendar behaves as the standard library documents it.
  pub compute_period_start-IsStart :
      (schedule : String) (now : ℕ)
      → IsStart now (period_days schedule) (compute_period_start clock schedule now)
  unfolding compute_period_start
  compute_period_start-IsStart schedule now =
      let (pos, few, reached) = laws.day_range now in
      elim (Bool-cases (str_eq schedule schedule_weekly)) [
        | inl weekly ↦
            let since = days_since_monday-eq now in
            rw weekly (
              midnight-IsStart now (clock.day now) (days_since_monday clock now)
                (days_since_monday clock now) 7 refl (omega (arith, since)) (omega (arith, since)))
        | inr other ↦ elim (Bool-cases (str_eq schedule schedule_monthly)) [
          | inl monthly ↦
              rw (other, monthly)
                (midnight-IsStart now 1 0 (clock.day now - 1) 31 (omega (arith, pos))
                  (omega (arith, reached)) (omega (arith, few, pos)))
          | inr daily ↦
              rw (other, daily)
                (midnight-IsStart now (clock.day now) 0 0 1 refl (omega arith) (omega arith))
        ]
      ]

  -- A weekly period starts on a Monday.
  pub compute_period_start_monday :
      (now : ℕ) → clock.weekday (compute_period_start clock schedule_weekly now) ≡ 1
  unfolding compute_period_start
  compute_period_start_monday now =
      let back = days_since_monday clock now in
      let since = days_since_monday-eq now in
      let start = clock.midnight (clock.year now) (clock.month now) (clock.day now) back in
      let e = laws.midnight-eq now (clock.day now) back back refl (omega (arith, since)) in
      let wd = laws.weekday-eq start in omega (arith, e, wd, since)
