-- ===== src/Utilization/Sample.antt =====
-- internal/utilization/sampler.go: `Sample` and its instants. A `time.Time` counts nanoseconds from
-- Go's zero time, so that `IsZero` is the test against 0; no instant lies before it. A
-- `time.Duration` that is not negative counts nanoseconds too.
use infercost.Base.{ℕ, ◌/◌, ◌%◌, ◌≤◌, List, [], ◌∷◌, Bool, leb, All}
use infercost.Float.{Float64}

abbrev pub nanoseconds_per_second : ℕ
nanoseconds_per_second = 1000000000

abbrev pub nanoseconds_per_hour : ℕ
nanoseconds_per_hour = 3600000000000

pub record Sample (F : Type 0) : Type 0 where
  pub at : ℕ
  pub power_w : F
  pub active_w : F

module _ {F : Type 0} where
  -- ordered by timestamp
  abbrev pub IsChronological : List (Sample F) → Type 0
  IsChronological [] = Unit
  IsChronological (s ∷ ss) = All (λ t. s.at ≤ t.at) ss × IsChronological ss

  -- `!sample.At.Before(cutoff)`
  abbrev pub is_retained : ℕ → Sample F → Bool
  is_retained cutoff s = leb cutoff s.at

module _ {F : Type 0} ⦃f : Float64 F⦄ where
  -- `Duration.Seconds`
  unfoldable pub seconds : ℕ → F
  seconds d =
      f.add (f.of_nat (d / nanoseconds_per_second))
        (f.div (f.of_nat (d % nanoseconds_per_second)) (f.of_nat nanoseconds_per_second))

  -- `Duration.Hours`
  unfoldable pub hours : ℕ → F
  hours d =
      f.add (f.of_nat (d / nanoseconds_per_hour))
        (f.div (f.of_nat (d % nanoseconds_per_hour)) (f.of_nat nanoseconds_per_hour))
