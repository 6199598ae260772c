-- ===== src/Tests/Reports.antt =====
-- Tests and examples of reconciled reports and of the REST API.
use mathlib.Core.List.{reverse, reverse_perm}
use mathlib.Core.List.Perm
use infercost.Base.{ℕ, ◌+◌, ◌-◌, ◌*◌, ◌/◌, ◌%◌, ◌≡◌, refl, true, some, [], length, ok, arith}
use infercost.Message.Status.{status_message}
use infercost.Float.Whole.{Whole, pos, whole_float}
use infercost.Utilization.Record.{no_windows}
use infercost.Utilization.Store.Bolt.Memory.{Memory, memory_bolt}
use infercost.Budget.Condition.{set_in_place, set_in_place-IsSetCondition}
use infercost.Api.Store.{CostData, new_store}
use infercost.Api.Server.{answer, unavailable, current_cost, namespace_costs, serve}
use infercost.Profile.Resource.{CostProfileStatus}
use infercost.Profile.Reconcile.{ProfileReconciled, found as found_profile, reconcile_profile}
use infercost.Profile.Reconcile.Consistent.{Mirrors}
use infercost.Profile.Reconcile.Served.{reconcile_profile-serve}
use infercost.Usage.Pods.{scrape_tokens}
use infercost.Usage.Period.{Clock, IsClock, day_ns, schedule_weekly, compute_period_start}
use infercost.Usage.Period.Bounds.{IsStart, period_days, compute_period_start-IsStart}
use infercost.Usage.Status.{ReportStatus, skipped, written, new_status}
use infercost.Usage.Compute.{UsageReportReconciler, ReportResource, Computed, compute_report}
use infercost.Usage.Reconcile.{
  ReportRun, visited, ReportReconciled, found, requeue_after_interval, reconcile_report,
}
use infercost.Usage.Reconcile.Settled.{shown}
use infercost.Usage.Reconcile.Again.{IsVisit, period_at, reconcile_report-again}
use infercost.Usage.Reconcile.Served.{asked_for, reconcile_report-serve}
use infercost.Tests.Data.{fetch_two, decimal, two_pods, two_prices}
use infercost.Tests.Profile.{profile, reconciler, run, before}

-- A calendar whose months all have 30 days, from a Monday on.
abbrev thirty_days : Clock
thirty_days = record {
  year = λ t. 0;
  month = λ t. t / day_ns / 30;
  day = λ t. t / day_ns % 30 + 1;
  weekday = λ t. (t / day_ns + 1) % 7;
  midnight = λ y m d back. (m * 30 + d - 1 - back) * day_ns;
  iso_week = λ t. (0, t / day_ns / 7);
  format = λ layout t. "today";
  format_int = decimal;
  format_two = decimal;
}

thirty_days-IsClock : IsClock thirty_days
thirty_days-IsClock = record {
  day_range = λ t. (omega arith, omega arith, omega arith);
  weekday-eq = λ t. refl;
  midnight-eq = λ t d back gap h k. omega (arith, h, k);
}

-- the third day of a week, at one o'clock
abbrev wednesday : ℕ
wednesday = 9 * day_ns + 3600000000000

compute_period_start-IsStart_example :
    IsStart wednesday
      (period_days schedule_weekly)
      (compute_period_start thirty_days schedule_weekly wednesday)
compute_period_start-IsStart_example =
    compute_period_start-IsStart thirty_days thirty_days-IsClock schedule_weekly wednesday

period_examples : compute_period_start thirty_days schedule_weekly wednesday ≡ 7 * day_ns
unfolding compute_period_start
period_examples = refl

reconcile_profile-serve_example :
    (out : ProfileReconciled Memory Whole) × (status : CostProfileStatus Whole) × (c : CostData
      Whole)
    × (reconcile_profile reconciler run (found_profile profile) before ≡ some out)
    × (out.status ≡ some status)
    × (serve "/api/v1/costs/current" "" out.state.store ≡ some (answer (current_cost c)))
    × Mirrors status c
reconcile_profile-serve_example =
    reconcile_profile-serve reconciler run profile set_in_place-IsSetCondition before "" refl

-- before the first reconcile
first_request :
    serve {F = Whole} "/api/v1/costs/current" "" new_store
    ≡ some (unavailable "no cost data available yet — waiting for first reconcile")
unfolding serve
first_request = refl

abbrev report_reconciler : UsageReportReconciler Whole
report_reconciler = record {
  clock = thirty_days;
  fetch = fetch_two;
  set = set_in_place;
  to_lower = λ s. s;
  quote = λ s. s;
  pricing = two_prices;
}

abbrev report : ReportResource Whole
report = record {
  cost_profile_ref = "lab";
  schedule = schedule_weekly;
  namespaces = [];
  status = record {
    view = record {
      period = "";
      period_start = 0;
      period_end = 0;
      input_tokens = 0;
      output_tokens = 0;
      total_cost = pos 0;
      cost_per_million_tokens = pos 0;
      marginal_cost_per_million_tokens = pos 0;
      active_hours_cost_per_million_tokens = pos 0;
      active_energy_kwh = pos 0;
      break_even_analysis = [];
      by_model = [];
      by_namespace = [];
      utilization_percent = pos 0;
      gpu_efficiency_ratio = pos 0;
      active_hours_in_period = pos 0;
      total_hours_in_period = pos 0;
    };
    cloud_comparison = [];
    last_updated = 0;
    conditions = [];
  };
}

abbrev report_run : ℕ → ReportRun
report_run t = record {
  computed_at = t;
  updated_at = t + 1;
  pods = ok two_pods;
  update_ok = true;
  model_order = λ m. m;
  namespace_order = λ m. m;
}

report_run-IsVisit : (t : ℕ) → IsVisit (report_run t)
report_run-IsVisit t = ((λ m. Perm.rfl), (λ m. Perm.rfl))

-- a later run that visits the maps the other way round
abbrev turned_run : ℕ → ReportRun
turned_run t = record (report_run t) { model_order = reverse; namespace_order = reverse }

turned_run-IsVisit : (t : ℕ) → IsVisit (turned_run t)
turned_run-IsVisit t = (reverse_perm, reverse_perm)

-- the first reconcile, by what it computes
abbrev first_computed : Computed Whole
first_computed =
    compute_report report_reconciler report profile no_windows wednesday
      (scrape_tokens decimal fetch_two [] two_pods)

abbrev first_status : ReportStatus Whole
first_status =
    new_status decimal set_in_place (status_message decimal) (wednesday + 1) report.status
      first_computed.status

abbrev first_out : ReportReconciled Whole
first_out = record {
  applied = some (written first_status);
  store = shown report_reconciler new_store first_computed;
  outcome = requeue_after_interval;
}

first_reconcile :
    reconcile_report report_reconciler
      (report_run wednesday)
      (found report)
      (ok profile)
      no_windows
      new_store
    ≡ some first_out
unfolding reconcile_report infercost.Usage.Status.apply_status_if_changed
first_reconcile = refl

same_week :
    period_at report_reconciler schedule_weekly wednesday
    ≡ period_at report_reconciler schedule_weekly (wednesday + 3600000000000)
unfolding compute_period_start infercost.Usage.Period.format_period
same_week = refl

-- an hour later in the same week
reconcile_report-again_example :
    (next : ReportReconciled Whole) × (reconcile_report report_reconciler
        (turned_run (wednesday + 3600000000000))
        (found (record report { status = first_status }))
        (ok profile)
        no_windows
        first_out.store
      ≡ some next)
    × (next.applied ≡ some skipped)
    × (next.outcome ≡ requeue_after_interval)
reconcile_report-again_example =
    reconcile_report-again report_reconciler set_in_place-IsSetCondition two_pods
      (report_run wednesday) (turned_run (wednesday + 3600000000000)) report profile profile
      no_windows no_windows new_store first_out.store first_out first_status
      (report_run-IsVisit wednesday) (turned_run-IsVisit (wednesday + 3600000000000)) refl refl
      same_week first_reconcile refl

reconcile_report-serve_example :
    let computed =
      compute_report report_reconciler report profile no_windows wednesday
        (visited (report_run wednesday) (scrape_tokens decimal fetch_two [] two_pods)) in
    let costs = asked_for "team-a" computed.breakdowns.ns_cost_data in
    serve "/api/v1/costs/by-namespace" "team-a" first_out.store
    ≡ some (answer (namespace_costs costs (length costs)))
reconcile_report-serve_example =
    reconcile_report-serve report_reconciler new_store (report_run wednesday) report profile
      no_windows two_pods first_out "team-a" refl first_reconcile refl
