-- ===== src/Tests/Scraping.antt =====
-- Tests and examples of internal/scraper and pkg/cli/discovery.go.
use mathlib.Core.Bool.{Bool-set}
use mathlib.Core.List.{Permᴰ, Pairwise, Pairwise-singleton, forall_mem-cons, not-mem-nil}
use infercost.Base.{
  Result, err, Option, ℕ, ◌≡◌, refl, ◌≤◌, ◌⊎◌, ◌↔◌, none, some, String, List, [], ◌∷◌, ◌++◌, All,
  str_eq, ok, if◌then◌else◌,
}
use infercost.Float.Whole.{Whole, pos, whole_float}
use infercost.Scraper.Backend.{
  Labels, backend_llama_cpp, backend_vllm, resolve_backend, deciding_hint, resolve_backend-known,
  resolve_backend-vllm_iff, normalize_backend,
}
use infercost.Scraper.Port.{
  codes, parse_port, resolve_metrics_port, resolve_metrics_port-IsPort, parse_port_junk,
}
use infercost.Scraper.Metrics.{
  InferenceMetrics, prompt_total, get, filter_by_name, llama_metrics, vllm_metrics,
}
use infercost.Scraper.Metrics.Counters.{
  llama_name, vllm_name, last_value, sum_values, llama_metrics-last, vllm_metrics-sum,
}
use infercost.Scraper.Client.{MetricType, Metric, MetricFamily, HttpResponse, client_scrape}
use infercost.Scraper.Client.Unordered.{IsReordering, scrape-unordered}
use infercost.Scraper.Dispatch.{ScrapeError, Fetch, scrape, scrape-resolve_backend}
use infercost.Cli.Discovery.{
  EndpointPort, endpoint_port, InferenceService, discover_models_from_pods, models_of_services,
}
use infercost.Cli.Discovery.Port.{endpoint_port-last}
use infercost.Cli.Discovery.Overlap.{IsKnown, IsFresh, discover-no_overlap}
use infercost.Tests.Data.{
  no_labels, one_label, llama_samples_data, vllm_samples_data, two_pods, decimal,
}

port_examples :
    (parse_port (codes "9400") ≡ some 9400)
    × (parse_port (codes " +80x") ≡ some 80)
    × (parse_port (codes "65536") ≡ none)
    × (parse_port (codes "-1") ≡ none)
    × (parse_port (codes "http") ≡ none)
unfolding parse_port
port_examples = (refl, refl, refl, refl, refl)

backend_examples : (normalize_backend "vllm" ≡ "vllm") × (normalize_backend "VLLM" ≡ "llamacpp")
unfolding normalize_backend
backend_examples = (refl, refl)

abbrev runtime_vllm : Labels
runtime_vllm = one_label "inference.llmkube.dev/runtime" "vllm"

known_backend :
    (resolve_backend no_labels runtime_vllm ≡ backend_llama_cpp)
    ⊎ (resolve_backend no_labels runtime_vllm ≡ backend_vllm)
known_backend = resolve_backend-known no_labels runtime_vllm

vllm_backend :
    (resolve_backend no_labels runtime_vllm ≡ backend_vllm)
    ↔ (deciding_hint no_labels runtime_vllm ≡ some backend_vllm)
vllm_backend = resolve_backend-vllm_iff no_labels runtime_vllm

abbrev port_90x : Labels
port_90x = one_label "infercost.ai/metrics-port" "90x"

port_in_range :
    (1 ≤ resolve_metrics_port backend_vllm port_90x no_labels)
    × (resolve_metrics_port backend_vllm port_90x no_labels ≤ 65535)
port_in_range = resolve_metrics_port-IsPort backend_vllm port_90x no_labels

-- 80x
parse_port_junk_example : parse_port ((56 ∷ 48 ∷ []) ++ (120 ∷ [])) ≡ parse_port (56 ∷ 48 ∷ [])
parse_port_junk_example = parse_port_junk 56 (48 ∷ []) [] 120 (refl, (refl, tt)) refl

llama_last :
    get prompt_total (llama_metrics llama_samples_data)
    ≡ last_value (pos 0) (filter_by_name llama_samples_data (llama_name prompt_total))
llama_last = llama_metrics-last prompt_total llama_samples_data

vllm_sum :
    get prompt_total (vllm_metrics vllm_samples_data)
    ≡ sum_values (pos 0) (filter_by_name vllm_samples_data (vllm_name prompt_total))
vllm_sum = vllm_metrics-sum prompt_total vllm_samples_data

abbrev fetch_vllm : Fetch Whole
fetch_vllm endpoint = ok vllm_samples_data

resolved_scrape :
    scrape fetch_vllm (resolve_backend no_labels runtime_vllm) "e"
    ≡ ok (
        if str_eq (resolve_backend no_labels runtime_vllm) backend_vllm
        then vllm_metrics vllm_samples_data
        else llama_metrics vllm_samples_data)
resolved_scrape =
    scrape-resolve_backend fetch_vllm no_labels runtime_vllm "e" vllm_samples_data refl

abbrev port_named : String → ℕ → EndpointPort
port_named name port = record { name = name; port = port }

endpoint_port-last_example :
    endpoint_port str_eq 8080 ((port_named "metrics" 9000 ∷ []) ++ (port_named "grpc" 9001 ∷ []))
    ≡ 9001
endpoint_port-last_example =
    endpoint_port-last str_eq 8080 (port_named "metrics" 9000 ∷ []) (port_named "grpc" 9001)
      (refl, tt) refl

abbrev service_of : String → String → InferenceService
service_of name model = record {
  name = name;
  namespace = "team-a";
  model_ref = model;
  phase = "Ready";
  endpoint = "http://svc/v1";
}

abbrev two_services : List InferenceService
two_services = service_of "s" "llama" ∷ service_of "t" "qwen" ∷ []

discover-no_overlap_example :
    All
      (IsKnown (discover_models_from_pods "h" decimal two_pods).known)
      (discover_models_from_pods "h" decimal two_pods).models
    × All (IsFresh (discover_models_from_pods "h" decimal two_pods).known) (
        models_of_services some
          (λ u. u)
          (λ u. u)
          (discover_models_from_pods "h" decimal two_pods).known
          (λ s. none)
          two_services)
discover-no_overlap_example =
    discover-no_overlap "h" decimal two_pods some (λ u. u) (λ u. u) (λ s. none) two_services

abbrev metric_of : ℕ → Metric Whole
metric_of n = record {
  labels = [];
  gauge_value = pos 0;
  counter_value = pos n;
  untyped_value = pos 0;
}

abbrev family_of : String → List (Metric Whole) → MetricFamily Whole
family_of name metrics = record { name = name; type = MetricType.counter; metrics = metrics }

abbrev prompt_family : MetricFamily Whole
prompt_family = family_of "vllm:prompt_tokens_total" (metric_of 3 ∷ metric_of 4 ∷ [])

abbrev generation_family : MetricFamily Whole
generation_family = family_of "vllm:generation_tokens_total" (metric_of 5 ∷ [])

-- the two orders of one answer
abbrev parse_forth : String → Result String (List (MetricFamily Whole))
parse_forth body = ok (prompt_family ∷ generation_family ∷ [])

abbrev parse_back : String → Result String (List (MetricFamily Whole))
parse_back body = ok (generation_family ∷ prompt_family ∷ [])

abbrev answer_200 : String → Result String (HttpResponse String)
answer_200 url = ok (record { status_code = 200; body = "" })

reordered : (body : String) → IsReordering (parse_forth body) (parse_back body)
reordered body = (
  Permᴰ.swap refl refl,
  Pairwise.cons ((forall_mem-cons (λ x. Bool-set _ _)).1 (refl, λ x m. absurd (not-mem-nil m)))
      (Pairwise-singleton _ _),
)

abbrev tokens_of_scrape : Result ScrapeError (InferenceMetrics Whole) → Option Whole
tokens_of_scrape (ok m) = some m.prompt_tokens_total
tokens_of_scrape (err e) = none

scrape-unordered_example :
    scrape (client_scrape parse_forth (λ url. ok url) answer_200 decimal) backend_vllm "http://a"
    ≡ scrape (client_scrape parse_back (λ url. ok url) answer_200 decimal) backend_vllm "http://a"
scrape-unordered_example =
    scrape-unordered (λ url. ok url) answer_200 decimal parse_forth parse_back reordered
      backend_vllm "http://a"

scraped_tokens :
    tokens_of_scrape
      (scrape (client_scrape parse_forth (λ url. ok url) answer_200 decimal) backend_vllm "")
    ≡ some (pos 7)
unfolding scrape client_scrape vllm_metrics
scraped_tokens = refl
