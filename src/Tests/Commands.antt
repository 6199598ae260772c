-- ===== src/Tests/Commands.antt =====
-- Tests and examples of pkg/cli.
use infercost.Base.{◌≡◌, refl, true, none, some, String, List, [], ◌∷◌, map, keep, str_eq, ok, err}
use infercost.Float.Whole.{Whole, pos, whole_float, Whole-IsOrdered}
use infercost.Focus.Row.{UsageReport, CostProfile}
use infercost.Calculator.Cloud.{compare_to_cloud}
use infercost.Scraper.Metrics.{
  filter_by_name, prompt_total, predicted_total, prompt_rate, predicted_rate, in_flight,
}
use infercost.Cli.Discovery.{DiscoveredModel}
use infercost.Cli.Text.{split_lines}
use infercost.Cli.Scan.{cells, ScrapeClients, format_token_count}
use infercost.Cli.Compare.{comparison_line}
use infercost.Cli.Compare.Rates.{own_line, comparison_lines-own}
use infercost.Cli.Status.{model_row}
use infercost.Cli.Status.Idle.{HasNoLlamaMetric, model_row-idle}
use infercost.Cli.Export.{Cluster, fetch_profiles}
use infercost.Cli.Export.Profiles.{first_profile, fetch_profiles-first}
use infercost.Tests.Data.{vllm_samples_data, two_prices, decimal}

-- two namespaces with a profile of one name
abbrev profile_in : String → CostProfile Whole
profile_in namespace = record {
  gpu_model = namespace;
  gpu_count = 2;
  amortization_years = 3;
  rate_per_kwh = pos 1;
  pue_factor = pos 1;
}

abbrev report_in : String → UsageReport Whole
report_in namespace = record {
  name = "r";
  namespace = namespace;
  cost_profile_ref = "gpu";
  schedule = "monthly";
  period = "2026-05";
  period_start = some 8080;
  period_end = none;
  input_tokens = 240;
  output_tokens = 80;
  estimated_cost_usd = pos 4;
  by_model = [];
  cloud_comparison = [];
}

abbrev two_namespaces : List (UsageReport Whole)
two_namespaces = report_in "a" ∷ report_in "b" ∷ []

abbrev cluster : Cluster Whole
cluster = record {
  list_reports = λ namespace. ok two_namespaces;
  get_profile = λ namespace name. some (profile_in namespace);
}

fetch_profiles-first_example :
    fetch_profiles cluster (λ k. none) two_namespaces "gpu"
    ≡ first_profile cluster "gpu" (keep (λ r. str_eq r.cost_profile_ref "gpu") two_namespaces)
fetch_profiles-first_example = fetch_profiles-first cluster "gpu" two_namespaces

-- the report of namespace b is exported with the profile of namespace a
first_namespace : fetch_profiles cluster (λ k. none) two_namespaces "gpu" ≡ some (profile_in "a")
unfolding fetch_profiles
first_namespace = refl

comparison_lines-own_example :
    map (comparison_line two_prices) (compare_to_cloud 100 40 (pos 3) two_prices)
    ≡ map (own_line 100 40 (pos 3)) two_prices
comparison_lines-own_example = comparison_lines-own 100 40 (pos 3) two_prices ((refl, tt), (tt, tt))

abbrev vllm_model : DiscoveredModel
vllm_model = record {
  name = "llama";
  namespace = "team-a";
  origin = "pod";
  source_name = "vllm-0";
  metrics_url = "http://proxy/metrics";
  phase = "Running";
  is_scrapable = true;
}

abbrev vllm_clients : ScrapeClients Whole
vllm_clients = record {
  scrape_client = λ url. ok vllm_samples_data;
  direct_client = λ url. err "refused";
}

vllm-HasNoLlamaMetric : HasNoLlamaMetric vllm_samples_data
unfolding filter_by_name
vllm-HasNoLlamaMetric prompt_total = refl
vllm-HasNoLlamaMetric predicted_total = refl
vllm-HasNoLlamaMetric prompt_rate = refl
vllm-HasNoLlamaMetric predicted_rate = refl
vllm-HasNoLlamaMetric in_flight = refl

model_row-idle_example :
    model_row decimal vllm_clients vllm_model
    ≡ cells (
        "llama"
        ∷ "team-a"
        ∷ "vllm-0"
        ∷ format_token_count (pos 0)
        ∷ format_token_count (pos 0)
        ∷ whole_float.fixed 1 (pos 0)
        ∷ "Idle"
        ∷ [])
model_row-idle_example =
    model_row-idle Whole-IsOrdered decimal vllm_clients vllm_model vllm_samples_data refl refl
      vllm-HasNoLlamaMetric

split_examples : (split_lines "a\nbc" ≡ "a" ∷ "bc" ∷ []) × (split_lines "" ≡ "" ∷ [])
unfolding split_lines
split_examples = (refl, refl)
