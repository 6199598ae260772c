-- ===== src/Tests/Data.antt =====
-- The concrete values that the examples share. Numbers are whole numbers in the place of `float64`.
use infercost.Base.{ℕ, none, some, String, List, [], ◌∷◌, str_eq, if◌then◌else◌, ok, err, ◌==◌}
use infercost.Float.Whole.{Whole, pos, whole_float}
use infercost.Scraper.Backend.{Labels}
use infercost.Scraper.Metrics.{MetricSample}
use infercost.Scraper.Dispatch.{Fetch}
use infercost.Usage.Pods.{Pod}
use infercost.Calculator.Cloud.{CloudPricing}

abbrev pub no_labels : Labels
no_labels name = none

abbrev pub one_label : String → String → Labels
one_label key value name = if str_eq name key then some value else none

abbrev pub sample_of : String → ℕ → MetricSample Whole
sample_of name value = record { name = name; labels = no_labels; value = pos value }

abbrev pub llama_samples_data : List (MetricSample Whole)
llama_samples_data =
    sample_of "llamacpp:prompt_tokens_total" 100
    ∷ sample_of "llamacpp:tokens_predicted_total" 40
    ∷ sample_of "process_cpu_seconds_total" 7
    ∷ sample_of "llamacpp:prompt_tokens_total" 120
    ∷ []

abbrev pub vllm_samples_data : List (MetricSample Whole)
vllm_samples_data =
    sample_of "vllm:prompt_tokens_total" 100
    ∷ sample_of "vllm:generation_tokens_total" 30
    ∷ sample_of "vllm:prompt_tokens_total" 25
    ∷ []

-- an endpoint that answers, and one that does not
abbrev pub fetch_two : Fetch Whole
fetch_two endpoint =
    if str_eq endpoint "http://10.0.0.1:8080/metrics" then ok llama_samples_data else err "refused"

abbrev pub decimal : ℕ → String
decimal n = if n == 8080 then "8080" else "0"

abbrev pub pod_at : String → String → Pod
pod_at name ip = record {
  name = name;
  namespace = "team-a";
  labels = one_label "inference.llmkube.dev/model" "llama";
  annotations = no_labels;
  phase = "Running";
  pod_ip = ip;
}

abbrev pub two_pods : List Pod
two_pods = pod_at "a" "10.0.0.1" ∷ pod_at "b" "10.0.0.2" ∷ []

abbrev pub price_of : String → String → ℕ → ℕ → CloudPricing Whole
price_of provider model i o = record {
  provider = provider;
  model = model;
  input_per_million = pos i;
  output_per_million = pos o;
}

abbrev pub two_prices : List (CloudPricing Whole)
two_prices = price_of "OpenAI" "gpt-5.4-mini" 3 12 ∷ price_of "Google" "gemini-2.5-flash" 2 8 ∷ []
