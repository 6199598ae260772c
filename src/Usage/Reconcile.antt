-- ===== src/Usage/Reconcile.antt =====
-- internal/controller/usagereport_controller.go: `Reconcile` and `handleMissingCostProfile`. The manager
-- always sets the sampler and the API store. A run has the instant of `periodBounds`, the instant of the
-- status, the cluster's list of the pods, whether it takes a status update, and the order of iteration
-- of each of the two Go maps, which is the same for all loops of one run. The gauges are in
-- Metrics/Emit; log lines are left out; `fmt`'s quoting is an argument.
pub mod Settled
pub mod Again
pub mod Served
use infercost.Base.{
  ℕ, Bool, true, false, ◌&&◌, Option, none, some, String, List, [], ◌∷◌, str_eq, cat, if◌then◌else◌,
  pos_int64, add_int64, Result, ok, err,
}
use infercost.Message.Status.{status_message}
use infercost.Float.{Float64, of_int64}
use infercost.Utilization.Sample.{Sample}
use infercost.Utilization.Summary.{WindowSummary, summarize}
use infercost.Budget.Condition.{Condition, condition_false, SetCondition, find_condition}
use infercost.Api.Store.{Store, set_namespace_costs, set_break_even}
use infercost.Calculator.Cost.{active_hours_cost_per_million_tokens}
use infercost.Calculator.Cloud.{CloudPricing}
use infercost.Scraper.Dispatch.{Fetch}
use infercost.Usage.Pods.{Pod, ModelKey, TokenCounts, Tokens, scrape_tokens}
use infercost.Usage.Breakdown.{Breakdowns, build_breakdowns}
use infercost.Usage.BreakEven.{BreakEvenAnalysis, compute_break_even, break_even_to_api}
use infercost.Usage.Period.{Clock, PeriodBounds, format_period, period_bounds}
use infercost.Usage.Status.{
  ComputedStatus, ReportStatus, Applied, skipped, written, update_failed, apply_status_if_changed,
}
use infercost.Profile.Resource.{ProfileResource, costs_of}
use infercost.Profile.Reconcile.{sample_key_for}
use infercost.Usage.Compute.{UsageReportReconciler, ReportResource, Computed, compute_report}

pub record ReportRun : Type 0 where
  pub computed_at : ℕ
  pub updated_at : ℕ
  pub pods : Result String (List Pod)
  pub update_ok : Bool
  -- the order in which this run visits the two maps of `scrapeTokens`
  pub model_order : List (ModelKey × TokenCounts) → List (ModelKey × TokenCounts)
  pub namespace_order : List (String × TokenCounts) → List (String × TokenCounts)

-- the maps as the loops of `buildBreakdowns` see them
abbrev pub visited : ReportRun → Tokens → Tokens
visited run tokens = record {
  by_model = run.model_order tokens.by_model;
  by_namespace = run.namespace_order tokens.by_namespace;
}

-- what the cluster returns for the name of the report
pub data FetchedReport (F : Type 0) : Type 0 where
  found : ReportResource F → FetchedReport F
  not_found get_failed : FetchedReport F

pub data ReportOutcome : Type 0 where
  gone get_error update_error requeue_after_interval : ReportOutcome

-- what became of the status, if it was reached
pub record ReportReconciled (F : Type 0) : Type 0 where
  pub applied : Option (Applied F)
  pub store : Store F
  pub outcome : ReportOutcome

abbrev pub cost_profile_not_found : String
cost_profile_not_found = "CostProfileNotFound"

-- the condition says so already
abbrev pub is_reported_missing : Option Condition → Bool
is_reported_missing none = false
is_reported_missing (some c) =
    str_eq c.status condition_false && str_eq c.reason cost_profile_not_found

module _ {F : Type 0} (r : UsageReportReconciler F) where
  abbrev pub missing_condition : String → String → Condition
  missing_condition name text = record {
    type = "Ready";
    status = condition_false;
    reason = cost_profile_not_found;
    message = cat "CostProfile " (cat (r.quote name) (cat " not found: " text));
  }

  abbrev pub missing_status : ReportResource F → String → ReportStatus F
  missing_status report text = record (report.status) {
    conditions = r.set report.status.conditions (missing_condition report.cost_profile_ref text);
  }

  -- `text` is the error's; a failure to update is logged
  unfoldable pub handle_missing_cost_profile : Bool → ReportResource F → String → Applied F
  handle_missing_cost_profile update_ok report text =
      if is_reported_missing (find_condition "Ready" report.status.conditions)
      then skipped
      else if update_ok
      then written (missing_status report text)
      else update_failed (missing_status report text)

module _ {F : Type 0} ⦃f : Float64 F⦄ (r : UsageReportReconciler F) where
  -- the end of `Reconcile`; `none` is a panic
  pub finish_report : Computed F → Store F → Option (Applied F) → Option (ReportReconciled F)
  unfolding set_namespace_costs set_break_even break_even_to_api
  finish_report c store none = none
  finish_report c store (some (update_failed s)) =
      some (record { applied = some (update_failed s); store = store; outcome = update_error })
  finish_report c store (some a) = some (record {
    applied = some a;
    store =
        set_break_even (set_namespace_costs store c.breakdowns.ns_cost_data)
          (break_even_to_api c.analysis.entries);
    outcome = requeue_after_interval;
  })

  pub reconcile_with_profile :
      ReportRun
      → ReportResource F
      → ProfileResource F
      → (String → List (Sample F))
      → Store F
      → Result String (List Pod)
      → Option (ReportReconciled F)
  unfolding compute_report finish_report
  reconcile_with_profile run report profile windows store (err e) =
      some (record { applied = none; store = store; outcome = requeue_after_interval })
  reconcile_with_profile run report profile windows store (ok pods) =
      let tokens = visited run (scrape_tokens r.clock.format_int r.fetch report.namespaces pods) in
      let c = compute_report r report profile windows run.computed_at tokens in
      finish_report c store (
        apply_status_if_changed r.clock.format_int r.set (status_message r.clock.format_int)
          run.update_ok run.updated_at report.status c.status)

  pub reconcile_found_report :
      ReportRun
      → ReportResource F
      → Result String (ProfileResource F)
      → (String → List (Sample F))
      → Store F
      → Option (ReportReconciled F)
  unfolding reconcile_with_profile handle_missing_cost_profile
  reconcile_found_report run report (err text) windows store = some (record {
    applied = some (handle_missing_cost_profile r run.update_ok report text);
    store = store;
    outcome = requeue_after_interval;
  })
  reconcile_found_report run report (ok profile) windows store =
      reconcile_with_profile run report profile windows store run.pods

  -- `Reconcile`, with the report and its cost profile as the cluster returns them
  unfoldable pub reconcile_report :
      ReportRun
      → FetchedReport F
      → Result String (ProfileResource F)
      → (String → List (Sample F))
      → Store F
      → Option (ReportReconciled F)
  unfolding reconcile_found_report
  reconcile_report run not_found profile windows store =
      some (record { applied = none; store = store; outcome = gone })
  reconcile_report run get_failed profile windows store =
      some (record { applied = none; store = store; outcome = get_error })
  reconcile_report run (found report) profile windows store =
      reconcile_found_report run report profile windows store
