-- ===== src/Metrics.antt =====
-- internal/metrics/metrics.go: the gauges and their registration. The Prometheus client is an interface:
-- a gauge vector takes a value for a list of label values.
pub mod Emit
pub mod Panic
pub mod Alert
use infercost.Base.{
  ℕ, ◌≡◌, ◌&&◌, Bool, true, false, Option, none, some, String, List, [], ◌∷◌, length, str_eq, cat,
  if◌then◌else◌,
}

pub record GaugeVec : Type 0 where
  pub namespace : String
  pub name : String
  pub help : String
  pub labels : List String

-- the name under which the client knows it, `prometheus.BuildFQName`
abbrev pub full_name : GaugeVec → String
full_name g = cat g.namespace (cat "_" g.name)

-- `WithLabelValues(values...).Set(v)`, which panics, `none`, and the value of a series
pub record Registry (G F : Type 0) : Type 0 where
  pub set_gauge : G → GaugeVec → List String → F → Option G
  pub gauge_value : G → GaugeVec → List String → Option F

abbrev same_labels : List String → List String → Bool
same_labels [] [] = true
same_labels (a ∷ xs) (b ∷ ys) = str_eq a b && same_labels xs ys
same_labels _ _ = false

-- the series of a gauge with these label values
abbrev pub is_series : GaugeVec → List String → GaugeVec → List String → Bool
is_series g ls h ms = str_eq (full_name g) (full_name h) && same_labels ls ms

-- What the client documents: a call with as many values as the gauge has labels does not panic, and
-- sets the series of these values and no other.
pub record IsRegistry (G F : Type 0) ⦃r : Registry G F⦄ : Type 0 where
  pub set_gauge-returns :
      (d : G) (g : GaugeVec) (values : List String) (v : F)
      → length values ≡ length g.labels
      → (e : G) × (r.set_gauge d g values v ≡ some e)
  pub gauge_value-set_gauge :
      (d e : G) (g h : GaugeVec) (values others : List String) (v : F)
      → r.set_gauge d g values v ≡ some e
      → r.gauge_value e h others
        ≡ (if is_series g values h others then some v else r.gauge_value d h others)

abbrev pub hourly_cost_usd_gauge : GaugeVec
hourly_cost_usd_gauge = record {
  namespace = "infercost";
  name = "hourly_cost_usd";
  help = "Total hourly infrastructure cost (amortization + electricity) in USD.";
  labels = "cost_profile" ∷ "node" ∷ "gpu_model" ∷ [];
}

abbrev pub amortization_per_hour_gauge : GaugeVec
amortization_per_hour_gauge = record {
  namespace = "infercost";
  name = "amortization_per_hour_usd";
  help = "Hourly hardware amortization cost in USD.";
  labels = "cost_profile" ∷ "node" ∷ [];
}

abbrev pub electricity_per_hour_gauge : GaugeVec
electricity_per_hour_gauge = record {
  namespace = "infercost";
  name = "electricity_per_hour_usd";
  help = "Hourly electricity cost in USD based on real-time GPU power draw.";
  labels = "cost_profile" ∷ "node" ∷ [];
}

abbrev pub gpu_power_watts_gauge : GaugeVec
gpu_power_watts_gauge = record {
  namespace = "infercost";
  name = "gpu_power_watts";
  help = "Current GPU power draw in watts (from DCGM).";
  labels = "cost_profile" ∷ "node" ∷ "gpu" ∷ [];
}

abbrev pub cost_per_token_usd_gauge : GaugeVec
cost_per_token_usd_gauge = record {
  namespace = "infercost";
  name = "cost_per_token_usd";
  help = "Computed cost per token in USD.";
  labels = "model" ∷ "namespace" ∷ [];
}

abbrev pub cost_per_million_tokens_usd_gauge : GaugeVec
cost_per_million_tokens_usd_gauge = record {
  namespace = "infercost";
  name = "cost_per_million_tokens_usd";
  help = "Computed cost per million tokens in USD.";
  labels = "model" ∷ "namespace" ∷ [];
}

abbrev pub cloud_equivalent_cost_usd_gauge : GaugeVec
cloud_equivalent_cost_usd_gauge = record {
  namespace = "infercost";
  name = "cloud_equivalent_cost_usd";
  help = "Estimated cost if the same tokens were processed by a cloud provider.";
  labels = "provider" ∷ "cloud_model" ∷ [];
}

abbrev pub savings_vs_cloud_usd_gauge : GaugeVec
savings_vs_cloud_usd_gauge = record {
  namespace = "infercost";
  name = "savings_vs_cloud_usd";
  help = "USD saved compared to cloud provider pricing. Positive means on-prem is cheaper.";
  labels = "provider" ∷ "cloud_model" ∷ [];
}

abbrev pub savings_vs_cloud_percent_gauge : GaugeVec
savings_vs_cloud_percent_gauge = record {
  namespace = "infercost";
  name = "savings_vs_cloud_percent";
  help = "Percentage saved compared to cloud provider pricing.";
  labels = "provider" ∷ "cloud_model" ∷ [];
}

abbrev pub tokens_total_gauge : GaugeVec
tokens_total_gauge = record {
  namespace = "infercost";
  name = "tokens_total";
  help = "Total tokens processed (passthrough from inference engine).";
  labels = "model" ∷ "namespace" ∷ "direction" ∷ [];
}

abbrev pub gpu_efficiency_ratio_gauge : GaugeVec
gpu_efficiency_ratio_gauge = record {
  namespace = "infercost";
  name = "gpu_efficiency_ratio";
  help = "Fraction of GPU time spent on active inference (0.0-1.0).";
  labels = "cost_profile" ∷ "node" ∷ [];
}

abbrev pub tokens_per_hour_gauge : GaugeVec
tokens_per_hour_gauge = record {
  namespace = "infercost";
  name = "tokens_per_hour";
  help = "Current token throughput rate (tokens per hour).";
  labels = "model" ∷ "namespace" ∷ [];
}

abbrev pub budget_limit_usd_gauge : GaugeVec
budget_limit_usd_gauge = record {
  namespace = "infercost";
  name = "budget_limit_usd";
  help = "Configured monthly budget limit in USD.";
  labels = "namespace" ∷ "budget_name" ∷ [];
}

abbrev pub budget_current_spend_usd_gauge : GaugeVec
budget_current_spend_usd_gauge = record {
  namespace = "infercost";
  name = "budget_current_spend_usd";
  help = "Current month spend against budget in USD.";
  labels = "namespace" ∷ "budget_name" ∷ [];
}

abbrev pub budget_utilization_percent_gauge : GaugeVec
budget_utilization_percent_gauge = record {
  namespace = "infercost";
  name = "budget_utilization_percent";
  help = "Budget utilization as percentage (spend/limit * 100).";
  labels = "namespace" ∷ "budget_name" ∷ [];
}

abbrev pub break_even_tokens_per_day_gauge : GaugeVec
break_even_tokens_per_day_gauge = record {
  namespace = "infercost";
  name = "break_even_tokens_per_day";
  help = "Daily token volume at which on-prem cost equals the cloud model's cost.";
  labels = "cost_profile" ∷ "provider" ∷ "cloud_model" ∷ [];
}

abbrev pub percent_of_break_even_gauge : GaugeVec
percent_of_break_even_gauge = record {
  namespace = "infercost";
  name = "percent_of_break_even";
  help =
      "Current daily throughput as a percentage of the break-even volume (>=100 means on-prem wins).";
  labels = "cost_profile" ∷ "provider" ∷ "cloud_model" ∷ [];
}

-- `init`: what is registered
abbrev pub registered : List GaugeVec
registered =
    hourly_cost_usd_gauge ∷ amortization_per_hour_gauge ∷ electricity_per_hour_gauge
    ∷ gpu_power_watts_gauge ∷ cost_per_token_usd_gauge ∷ cost_per_million_tokens_usd_gauge
    ∷ cloud_equivalent_cost_usd_gauge ∷ savings_vs_cloud_usd_gauge ∷ savings_vs_cloud_percent_gauge
    ∷ tokens_total_gauge ∷ gpu_efficiency_ratio_gauge ∷ tokens_per_hour_gauge
    ∷ budget_limit_usd_gauge ∷ budget_current_spend_usd_gauge ∷ budget_utilization_percent_gauge
    ∷ break_even_tokens_per_day_gauge ∷ percent_of_break_even_gauge ∷ []
