-- ===== src/Usage/Compute.antt =====
-- internal/controller/usagereport_controller.go: what `Reconcile` computes of a report, from the token
-- counts and the samples of the profile to the view that the status is to show.
use infercost.Base.{ℕ, ◌&&◌, String, List, if◌then◌else◌, pos_int64, add_int64}
use infercost.Float.{Float64, of_int64}
use infercost.Utilization.Sample.{Sample}
use infercost.Utilization.Summary.{WindowSummary, summarize}
use infercost.Budget.Condition.{SetCondition}
use infercost.Calculator.Cost.{active_hours_cost_per_million_tokens}
use infercost.Calculator.Cloud.{CloudPricing}
use infercost.Scraper.Dispatch.{Fetch}
use infercost.Usage.Pods.{Tokens}
use infercost.Usage.Breakdown.{Breakdowns, build_breakdowns}
use infercost.Usage.BreakEven.{BreakEvenAnalysis, compute_break_even}
use infercost.Usage.Period.{Clock, PeriodBounds, format_period, period_bounds}
use infercost.Usage.Status.{ComputedStatus, ReportStatus}
use infercost.Profile.Resource.{ProfileResource, costs_of}
use infercost.Profile.Reconcile.{sample_key_for}

-- what the reconciler is built with
pub record UsageReportReconciler (F : Type 0) : Type 0 where
  pub clock : Clock
  pub fetch : Fetch F
  pub set : SetCondition
  pub to_lower : String → String
  pub quote : String → String
  pub pricing : List (CloudPricing F)

pub record ReportResource (F : Type 0) : Type 0 where
  pub cost_profile_ref : String
  pub schedule : String
  pub namespaces : List String
  pub status : ReportStatus F

-- what the reconcile computes from the token counts
pub record Computed (F : Type 0) : Type 0 where
  pub status : ComputedStatus F
  pub breakdowns : Breakdowns F
  pub analysis : BreakEvenAnalysis F

-- the variables that the sampler's summary sets
pub record UtilizationFigures (F : Type 0) : Type 0 where
  pub active_hours : F
  pub active_energy_kwh : F
  pub utilization_percent : F
  pub gpu_efficiency : F
  pub marginal_cost_per_million : F

module _ {F : Type 0} ⦃f : Float64 F⦄ where
  abbrev pub millions : ℕ → F
  millions total_tokens = f.div (of_int64 total_tokens) (f.of_nat 1000000)

  abbrev pub cost_per_million : F → ℕ → F
  cost_per_million total_cost total_tokens =
      if pos_int64 total_tokens then f.div total_cost (millions total_tokens) else f.of_nat 0

  unfoldable pub utilization_figures :
      ProfileResource F → F → ℕ → WindowSummary F → UtilizationFigures F
  utilization_figures profile hours_in_period total_tokens w =
      let lasts = f.lt (f.of_nat 0) hours_in_period in
      let pue =
        if f.le profile.electricity.pue_factor (f.of_nat 0)
        then f.of_nat 1
        else profile.electricity.pue_factor in
      let marginal = f.mul (f.mul w.active_energy_kwh profile.electricity.rate_per_kwh) pue in
      record {
        active_hours = w.active_hours;
        active_energy_kwh = w.active_energy_kwh;
        utilization_percent =
            if lasts
            then f.mul (f.div w.active_hours hours_in_period) (f.of_nat 100)
            else f.of_nat 0;
        gpu_efficiency = if lasts then f.div w.active_hours hours_in_period else f.of_nat 0;
        marginal_cost_per_million =
            if pos_int64 total_tokens && f.lt (f.of_nat 0) w.active_energy_kwh
            then f.div marginal (millions total_tokens)
            else f.of_nat 0;
      }

  module _ (r : UsageReportReconciler F) where
    unfoldable pub report_status :
        String
        → PeriodBounds F
        → F
        → F
        → Breakdowns F
        → UtilizationFigures F
        → BreakEvenAnalysis F
        → ComputedStatus F
    unfolding format_period
    report_status schedule bounds hourly_cost total_cost b u analysis =
        let total_tokens = add_int64 b.total_in b.total_out in
        record {
          period = format_period r.clock schedule bounds.start;
          period_start = bounds.start;
          period_end = bounds.end;
          input_tokens = b.total_in;
          output_tokens = b.total_out;
          total_cost = total_cost;
          cost_per_million_tokens = cost_per_million total_cost total_tokens;
          marginal_cost_per_million_tokens = u.marginal_cost_per_million;
          active_hours_cost_per_million_tokens =
              active_hours_cost_per_million_tokens hourly_cost u.active_hours bounds.hours_in_period
                total_tokens;
          active_energy_kwh = u.active_energy_kwh;
          break_even_analysis = analysis.entries;
          by_model = b.by_model;
          by_namespace = b.by_namespace;
          utilization_percent = u.utilization_percent;
          gpu_efficiency_ratio = u.gpu_efficiency;
          active_hours_in_period = u.active_hours;
          total_hours_in_period = bounds.hours_in_period;
        }

    unfoldable pub compute_report :
        ReportResource F → ProfileResource F → (String → List (Sample F)) → ℕ → Tokens → Computed F
    unfolding report_status period_bounds build_breakdowns utilization_figures compute_break_even
    compute_report report profile windows now tokens =
        let bounds = period_bounds r.clock report.schedule now in
        let total_cost = f.mul profile.status.hourly_cost_usd bounds.hours_in_period in
        let b = build_breakdowns tokens total_cost in
        let w = summarize (windows (sample_key_for profile)) bounds.start bounds.end in
        let u =
          utilization_figures profile bounds.hours_in_period (add_int64 b.total_in b.total_out) w in
        let analysis =
          compute_break_even r.to_lower r.pricing (costs_of profile) b.total_in b.total_out
            bounds.hours_in_period in
        record {
          status =
              report_status report.schedule bounds profile.status.hourly_cost_usd total_cost b u
                analysis;
          breakdowns = b;
          analysis = analysis;
        }
