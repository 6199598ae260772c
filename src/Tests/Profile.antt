-- ===== src/Tests/Profile.antt =====
-- Tests and examples of the cost profile controller.
use infercost.Base.{
  ℕ, ◌*◌, ◌≡◌, refl, ◌∙◌, sym, Bool, true, false, Bool-cases, inl, inr, none, some, String, List,
  [], ◌∷◌, All, str_eq, ok, Result, if◌then◌else◌,
}
use mathlib.Core.Path.{subst}
use infercost.Float.Whole.{Whole, pos, whole_float, Whole-IsOrdered}
use infercost.Scraper.Backend.{backend_vllm, resolve_backend}
use infercost.Scraper.Metrics.{MetricSample, InferenceMetrics, llama_metrics, vllm_metrics}
use infercost.Scraper.Dispatch.{Fetch, scrape-resolve_backend}
use infercost.Usage.Pods.{metrics_endpoint}
use infercost.Budget.Condition.{set_in_place, set_in_place-IsSetCondition}
use infercost.Api.Store.{new_store}
use infercost.Utilization.Store.Bolt.Memory.{Memory, memory_bolt}
use infercost.Utilization.Durable.{fresh_sampler}
use infercost.Calculator.Cost.{TokenSnapshot, compute_hourly_cost}
use infercost.Calculator.Cost.Rates.{IsCounter}
use infercost.Profile.Resource.{ProfileResource}
use infercost.Profile.Power.{
  PowerSources, read_power, condition_dcgm_reachable, condition_metal_reachable,
}
use infercost.Profile.Power.Explained.{measured, reads_metal, IsExplained, read_power-IsExplained}
use infercost.Profile.Pods.{
  Visit, Snapshots, Scraped, visit_pods, start_scan, scrape_inference_pods,
}
use infercost.Profile.Pods.Spaced.{IsSpaced, visit_pods-IsSpaced}
use infercost.Profile.Pods.Rates.{AreCounters, IsNonnegRate, ReportsCounters, visit_pods-rates}
use infercost.Profile.Pods.Listed.{sum_tokens, reported, compared, scrape_inference_pods-store}
use infercost.Profile.Reconcile.{
  CostProfileReconciler, ProfileState, Run, found, ProfileReconciled, hardware_costs, record_power,
  reconcile_profile,
}
use infercost.Profile.Reconcile.Consistent.{IsSettled, reconcile_profile-consistent}
use infercost.Tests.Data.{one_label, llama_samples_data, decimal, pod_at, two_prices, fetch_two}

abbrev sources : PowerSources
sources = record {
  dcgm_endpoint = "http://dcgm:9400/metrics";
  metal_endpoint = "http://agent:9090/metrics";
  quote = λ s. s;
  error_text = λ e. "refused";
  trim_space = λ s. s;
  to_lower = λ s. s;
}

-- two cards on the node `a` and one on the node `b`
abbrev power_sample : String → ℕ → MetricSample Whole
power_sample node watts = record {
  name = "DCGM_FI_DEV_POWER_USAGE";
  labels = one_label "Hostname" node;
  value = pos watts;
}

abbrev fetch_dcgm : Fetch Whole
fetch_dcgm endpoint =
    if str_eq endpoint "http://dcgm:9400/metrics"
    then ok (power_sample "a" 150 ∷ power_sample "b" 90 ∷ power_sample "a" 50 ∷ [])
    else ok llama_samples_data

abbrev pub profile : ProfileResource Whole
profile = record {
  name = "lab";
  namespace = "finops";
  creation_timestamp = 0;
  hardware = record {
    gpu_model = "NVIDIA RTX";
    gpu_count = 2;
    purchase_price_usd = pos 17520;
    amortization_years = 1;
    maintenance_percent_per_year = pos 0;
    tdp_watts = some 300;
  };
  electricity = record { rate_per_kwh = pos 1; pue_factor = pos 1; idle_watts_threshold = none };
  cloud_targets = [];
  node_selector = one_label "kubernetes.io/hostname" "a";
  status = record {
    hourly_cost_usd = pos 0;
    amortization_rate_per_hour = pos 0;
    electricity_cost_per_hour = pos 0;
    current_power_draw_watts = pos 0;
    last_updated = none;
    conditions = [];
  };
}

read_power-IsExplained_example :
    ((read_power sources profile fetch_dcgm).condition.type ≡ (
      if reads_metal sources profile fetch_dcgm
      then condition_metal_reachable
      else condition_dcgm_reachable))
    × IsExplained sources profile fetch_dcgm
        (measured sources profile fetch_dcgm)
        (read_power sources profile fetch_dcgm)
read_power-IsExplained_example = read_power-IsExplained sources profile fetch_dcgm

power_examples : (read_power sources profile fetch_dcgm).power_w ≡ pos 200
unfolding read_power infercost.Profile.Power.looks_apple infercost.Profile.Power.read_dcgm_power
    infercost.Scraper.Power.scrape_dcgm infercost.Scraper.Metrics.filter_by_name
power_examples = refl

abbrev seconds : ℕ → ℕ
seconds n = 1000000000 * n

abbrev visit_at : String → ℕ → Visit
visit_at ip n = record { pod = pod_at "p" ip; node_name = "a"; now = seconds n }

abbrev two_visits : List Visit
two_visits = visit_at "10.0.0.1" 107 ∷ visit_at "10.0.0.1" 130 ∷ []

abbrev first_snapshot : TokenSnapshot Whole
first_snapshot = record { timestamp = seconds 100; input_tokens = pos 90; output_tokens = pos 400 }

abbrev one_snapshot : Snapshots Whole
one_snapshot key = if str_eq key "team-a/p" then some first_snapshot else none

visit_pods-IsSpaced_example : IsSpaced first_snapshot (
    (visit_pods decimal fetch_two profile (pos 3) two_visits (start_scan one_snapshot)).snapshots
      "team-a/p")
visit_pods-IsSpaced_example =
    visit_pods-IsSpaced (pos 3) decimal fetch_two profile two_visits (start_scan one_snapshot)
      "team-a/p" first_snapshot refl

same_ok : {E A : Type 0} (x y : A) → Path (Result E A) (ok x) (ok y) → x ≡ y
same_ok x y h = cc

-- every endpoint answers with counters
abbrev fetch_llama : Fetch Whole
fetch_llama endpoint = ok llama_samples_data

abbrev CountsUp : InferenceMetrics Whole → Type 0
CountsUp im =
    IsCounter Whole-IsOrdered im.prompt_tokens_total
    × IsCounter Whole-IsOrdered im.predicted_tokens_total

llama_data-CountsUp :
    (is_vllm : Bool)
    → CountsUp
        (if is_vllm then vllm_metrics llama_samples_data else llama_metrics llama_samples_data)
unfolding vllm_metrics llama_metrics
llama_data-CountsUp true = ((refl, refl), (refl, refl))
llama_data-CountsUp false = ((refl, refl), (refl, refl))

fetch_llama-ReportsCounters : ReportsCounters Whole-IsOrdered decimal fetch_llama profile
fetch_llama-ReportsCounters v im h =
    let backend = resolve_backend v.pod.annotations v.pod.labels in
    let answer =
      scrape-resolve_backend fetch_llama v.pod.annotations v.pod.labels
        (metrics_endpoint decimal v.pod) llama_samples_data refl in
    subst CountsUp (same_ok _ im (sym answer ∙ h))
      (llama_data-CountsUp (str_eq backend backend_vllm))

one_snapshot-AreCounters : (key : String) → AreCounters Whole-IsOrdered (one_snapshot key)
one_snapshot-AreCounters key = elim (Bool-cases (str_eq key "team-a/p")) [
  | inl e ↦ rw e ((refl, refl), (refl, refl))
  | inr e ↦ rw e tt
]

visit_pods-rates_example :
    let s = visit_pods decimal fetch_llama profile (pos 3) two_visits (start_scan one_snapshot) in
    All (IsNonnegRate Whole-IsOrdered) s.published
    × ((key : String) → AreCounters Whole-IsOrdered (s.snapshots key))
visit_pods-rates_example =
    visit_pods-rates Whole-IsOrdered (pos 3) (refl, refl) decimal fetch_llama profile
      fetch_llama-ReportsCounters two_visits one_snapshot one_snapshot-AreCounters

scrape_inference_pods-store_example :
    let ms = reported decimal fetch_llama profile two_visits in
    (out : Scraped Whole) × (scrape_inference_pods decimal fetch_llama two_prices profile
        (pos 3)
        (seconds 140)
        (ok two_visits)
        one_snapshot
        new_store
      ≡ some out)
    × (out.store ≡ record new_store {
      models = ms;
      comparisons =
          compared
            (pos 3)
            decimal
            fetch_llama
            profile
            two_prices
            (seconds 140)
            new_store
            (sum_tokens (λ m. m.input_tokens) 0 ms)
            (sum_tokens (λ m. m.output_tokens) 0 ms);
    })
scrape_inference_pods-store_example =
    scrape_inference_pods-store (pos 3) decimal fetch_llama profile two_prices (seconds 140)
      new_store two_visits one_snapshot

abbrev pub reconciler : CostProfileReconciler Whole
reconciler = record {
  sources = sources;
  fetch = fetch_dcgm;
  set = set_in_place;
  format_int = decimal;
  pricing = two_prices;
  retention = seconds 60;
}

abbrev pub run : Run
run = record {
  sampled_at = seconds 100;
  compared_at = seconds 140;
  updated_at = seconds 141;
  uptime_at = seconds 142;
  stored_at = seconds 142;
  pods = ok two_visits;
  update_ok = true;
}

abbrev pub before : ProfileState Memory Whole
before = record { sampler = fresh_sampler []; snapshots = one_snapshot; store = new_store }

reconcile_profile-consistent_example :
    let power = read_power sources profile fetch_dcgm in
    let cost = compute_hourly_cost (hardware_costs profile) power.power_w in
    (out : ProfileReconciled Memory Whole) × (reconcile_profile reconciler run
        (found profile)
        before
      ≡ some out)
    × (out.state.sampler ≡ record_power reconciler run profile power.power_w (fresh_sampler []))
    × IsSettled reconciler run profile before power cost out
reconcile_profile-consistent_example =
    reconcile_profile-consistent reconciler run profile set_in_place-IsSetCondition before
