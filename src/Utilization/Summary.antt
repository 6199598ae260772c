-- ===== src/Utilization/Summary.antt =====
-- internal/utilization/sampler.go: `Summarize` and `DefaultIdleThresholdWatts`. The lock and the map
-- lookup are left out: the functions take the samples of the key.
pub mod Bounds
pub mod Coverage
use infercost.Base.{ℕ, ◌-◌, ◌≡◌, Bool, Option, none, some, List, [], ◌∷◌, ltb, if◌then◌else◌, ◌&&◌}
use infercost.Float.{Float64}
use infercost.Utilization.Sample.{Sample, seconds}

pub record WindowSummary (F : Type 0) : Type 0 where
  pub active_hours : F
  pub total_hours : F
  pub active_energy_kwh : F
  pub total_energy_kwh : F

module _ {F : Type 0} where
  -- where the state of a sample ends: at the next sample, or at the end of the window
  abbrev pub next_at : List (Sample F) → ℕ → ℕ
  next_at [] end = end
  next_at (s ∷ ss) end = s.at

abbrev pub interval_start : ℕ → ℕ → ℕ
interval_start at start = if ltb at start then start else at

abbrev pub interval_end : ℕ → ℕ → ℕ
interval_end next end = if ltb end next then end else next

module _ {F : Type 0} ⦃f : Float64 F⦄ where
  abbrev pub empty_summary : WindowSummary F
  empty_summary = record {
    active_hours = f.of_nat 0;
    total_hours = f.of_nat 0;
    active_energy_kwh = f.of_nat 0;
    total_energy_kwh = f.of_nat 0;
  }

  abbrev pub interval_hours : ℕ → F
  interval_hours ns = f.div (seconds ns) (f.of_nat 3600)

  -- the body of the loop, for an interval that is not empty
  credit : Sample F → ℕ → WindowSummary F → WindowSummary F
  credit s ns w =
      let h = interval_hours ns in
      let energy = f.div (f.mul s.power_w h) (f.of_nat 1000) in
      let active = f.lt s.active_w s.power_w in
      record {
        active_hours = if active then f.add w.active_hours h else w.active_hours;
        total_hours = f.add w.total_hours h;
        active_energy_kwh =
            if active then f.add w.active_energy_kwh energy else w.active_energy_kwh;
        total_energy_kwh = f.add w.total_energy_kwh energy;
      }

  summarize_sample : ℕ → ℕ → Sample F → ℕ → WindowSummary F → WindowSummary F
  summarize_sample start end s next w =
      let from = interval_start s.at start in
      let to = interval_end next end in if ltb from to then credit s (to - from) w else w

  summarize_from : ℕ → ℕ → List (Sample F) → WindowSummary F → WindowSummary F
  unfolding summarize_sample
  summarize_from start end [] w = w
  summarize_from start end (s ∷ ss) w =
      summarize_from start end ss (summarize_sample start end s (next_at ss end) w)

  unfoldable pub summarize : List (Sample F) → ℕ → ℕ → WindowSummary F
  unfolding summarize_from credit
  summarize samples start end = summarize_from start end samples empty_summary

  unfoldable pub active_and_total_hours : List (Sample F) → ℕ → ℕ → F × F
  unfolding summarize
  active_and_total_hours samples start end =
      let w = summarize samples start end in (w.active_hours, w.total_hours)

  -- `tdpPerGPU` is an `int32` behind a pointer, and it counts only where it is positive; a
  -- `gpuCount` that is not positive counts as 1. Both are the numbers that they are where positive,
  -- and 0 otherwise.
  unfoldable pub default_idle_threshold_watts : Option ℕ → ℕ → F
  default_idle_threshold_watts tdp gpu_count =
      let count = if ltb 0 gpu_count then f.of_nat gpu_count else f.of_nat 1 in
      elim tdp [
        | some t ↦
            if ltb 0 t
            then f.mul (f.mul (f.of_nat t) (f.dec 2 1)) count
            else f.mul (f.of_nat 30) count
        | none ↦ f.mul (f.of_nat 30) count
      ]
