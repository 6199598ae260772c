-- ===== src/Tests/Gauges.antt =====
-- Tests and examples of internal/metrics. The registry is a function of the gauge's name and of the
-- label values.
use infercost.Base.{
  ◌≡◌, refl, sym, ap, arith, Bool, true, false, Option, none, some, String, List, [], ◌∷◌, length,
  if◌then◌else◌, ◌==◌, ==_iff,
}
use infercost.Float.Whole.{Whole, pos, whole_float}
use infercost.Budget.Evaluate.{AlertThreshold, is_triggered}
use infercost.Budget.Entry.{TokenBudget}
use infercost.Budget.Rules.{alert_rule}
use infercost.Metrics.{
  GaugeVec, Registry, IsRegistry, is_series, budget_utilization_percent_gauge,
  budget_current_spend_usd_gauge, budget_limit_usd_gauge,
}
use infercost.Metrics.Emit.{
  emit, budget_calls, emit_break_even_metrics, metal, ScrapedPod, profile_calls,
}
use infercost.Metrics.Panic.{reconcile_calls-emit}
use infercost.Metrics.Alert.{query_text, fires, owner_of, alert_rule-fires}
use infercost.Scraper.Metrics.{no_metrics}
use infercost.Profile.Resource.{ProfileResource}
use infercost.Profile.Pods.{PublishedRate}
use infercost.Tests.Data.{decimal, no_labels}

abbrev Series : Type 0
Series = GaugeVec → List String → Option Whole

abbrev with_series : Series → GaugeVec → List String → Whole → Series
with_series d g values v h others = if is_series g values h others then some v else d h others

instance abbrev series_registry : Registry Series Whole
series_registry = record {
  set_gauge = λ d g values v.
      if length values == length g.labels then some (with_series d g values v) else none;
  gauge_value = λ d g values. d g values;
}

was_set :
    (t : Bool) (x e : Series) → Path (Option Series) (if t then some x else none) (some e) → x ≡ e
was_set true x e h = cc
was_set false x e h = ground (arith, h)

Series-IsRegistry : IsRegistry Series Whole
Series-IsRegistry = record {
  set_gauge-returns = λ d g values v h.
      (with_series d g values v, rw ((==_iff (length values) (length g.labels)).1 h) refl);
  gauge_value-set_gauge = λ d e g h values others v k.
      ap (λ (x : Series). x h others)
        (sym (was_set (length values == length g.labels) (with_series d g values v) e k));
}

abbrev budget : TokenBudget Whole
budget = record {
  name = "monthly";
  namespace = "ops";
  scope_namespace = "team-a";
  monthly_limit_usd = pos 500;
  alert_thresholds = [];
  current_spend_usd = pos 0;
  utilization_percent = pos 0;
  conditions = [];
}

abbrev threshold : AlertThreshold
threshold = record { percent = 80; severity = "warning" }

abbrev no_series : Series
no_series g values = none

abbrev budget_series : Series
budget_series g values =
    if is_series budget_utilization_percent_gauge ("team-a" ∷ "monthly" ∷ []) g values
    then some (pos 90)
    else if is_series budget_current_spend_usd_gauge ("team-a" ∷ "monthly" ∷ []) g values
    then some (pos 450)
    else if is_series budget_limit_usd_gauge ("team-a" ∷ "monthly" ∷ []) g values
    then some (pos 500)
    else none

budget_emit : emit (budget_calls budget (pos 450) (pos 90)) no_series ≡ some budget_series
unfolding emit budget_calls
budget_emit = refl

alert_rule-fires_example :
    let values : List String = "team-a" ∷ "monthly" ∷ [] in
    ((alert_rule decimal (owner_of budget) threshold []).expr
      ≡ query_text decimal budget_utilization_percent_gauge values 80)
    × (fires (series_registry.gauge_value budget_series budget_utilization_percent_gauge values) 80
        ≡ is_triggered (pos 90) threshold)
alert_rule-fires_example =
    alert_rule-fires Series-IsRegistry decimal budget threshold [] (pos 450) (pos 90) no_series
      budget_series budget_emit

abbrev no_profile : ProfileResource Whole
no_profile = record {
  name = "lab";
  namespace = "ops";
  creation_timestamp = 0;
  hardware = record {
    gpu_model = "A100";
    gpu_count = 2;
    purchase_price_usd = pos 9;
    amortization_years = 3;
    maintenance_percent_per_year = pos 1;
    tdp_watts = none;
  };
  electricity = record { rate_per_kwh = pos 1; pue_factor = pos 1; idle_watts_threshold = none };
  cloud_targets = [];
  node_selector = no_labels;
  status = record {
    hourly_cost_usd = pos 1;
    amortization_rate_per_hour = pos 1;
    electricity_cost_per_hour = pos 1;
    current_power_draw_watts = pos 1;
    last_updated = none;
    conditions = [];
  };
}

abbrev rate : PublishedRate Whole
rate = record {
  model = "llama";
  namespace = "team-a";
  tokens_per_hour = pos 1;
  cost_per_token = pos 1;
  cost_per_million_tokens = pos 1;
}

-- one pod that was seen before, and one that is new
abbrev pods_scraped : List (ScrapedPod Whole)
pods_scraped =
    record { model = "llama"; namespace = "team-a"; metrics = no_metrics; rate = some rate }
    ∷ record { model = "qwen"; namespace = "team-b"; metrics = no_metrics; rate = none }
    ∷ []

reconcile_calls-emit_example :
    ((e : Series) × (emit
          (profile_calls no_profile (metal (pos 30)) (pos 1) (pos 2) (pos 3) pods_scraped [])
          no_series
        ≡ some e))
    × ((e : Series) × (emit (budget_calls budget (pos 450) (pos 90)) no_series ≡ some e))
    × ((e : Series) × (emit (emit_break_even_metrics {F = Whole} "lab" []) no_series ≡ some e))
reconcile_calls-emit_example =
    reconcile_calls-emit Series-IsRegistry no_profile (metal (pos 30)) (pos 1) (pos 2) (pos 3)
      pods_scraped [] budget (pos 450) (pos 90) "lab" [] no_series
