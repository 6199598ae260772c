-- ===== src/Scraper/Metrics.antt =====
-- internal/scraper/{scraper,llamacpp,vllm}.go: the metric samples of one endpoint, and the token
-- counters that the two backend parsers take from them.
pub mod Counters
use infercost.Base.{Option, none, some, String, List, [], ◌∷◌, str_eq, if◌then◌else◌, keep}
use infercost.Float.{Float64}
use infercost.Scraper.Backend.{Labels}

pub record MetricSample (F : Type 0) : Type 0 where
  pub name : String
  pub labels : Labels
  pub value : F

abbrev pub llama_prompt_tokens_metric : String
llama_prompt_tokens_metric = "llamacpp:prompt_tokens_total"

abbrev pub llama_predicted_tokens_metric : String
llama_predicted_tokens_metric = "llamacpp:tokens_predicted_total"

abbrev pub llama_predicted_tokens_seconds_metric : String
llama_predicted_tokens_seconds_metric = "llamacpp:predicted_tokens_seconds"

abbrev pub llama_prompt_tokens_seconds_metric : String
llama_prompt_tokens_seconds_metric = "llamacpp:prompt_tokens_seconds"

abbrev pub llama_requests_processing_metric : String
llama_requests_processing_metric = "llamacpp:requests_processing"

abbrev pub vllm_prompt_tokens_metric : String
vllm_prompt_tokens_metric = "vllm:prompt_tokens_total"

abbrev pub vllm_generation_tokens_metric : String
vllm_generation_tokens_metric = "vllm:generation_tokens_total"

abbrev pub vllm_requests_running_metric : String
vllm_requests_running_metric = "vllm:num_requests_running"

abbrev pub vllm_avg_generation_throughput_metric : String
vllm_avg_generation_throughput_metric = "vllm:avg_generation_throughput_toks_per_s"

abbrev pub vllm_avg_prompt_throughput_metric : String
vllm_avg_prompt_throughput_metric = "vllm:avg_prompt_throughput_toks_per_s"

-- The fields `Pod`, `Namespace` and `Model` are filled in by the callers.
pub record InferenceMetrics (F : Type 0) : Type 0 where
  pub prompt_tokens_total : F
  pub predicted_tokens_total : F
  pub prompt_tokens_per_sec : F
  pub predicted_tokens_per_sec : F
  pub requests_processing : F

-- the fields by name
pub data Counter : Type 0 where
  prompt_total predicted_total prompt_rate predicted_rate in_flight : Counter

-- the `switch` of `ScrapeLlamaCPP`: the field that a metric name sets
llama_counter : String → Option Counter
llama_counter name =
    if str_eq name llama_prompt_tokens_metric
    then some prompt_total
    else if str_eq name llama_predicted_tokens_metric
    then some predicted_total
    else if str_eq name llama_prompt_tokens_seconds_metric
    then some prompt_rate
    else if str_eq name llama_predicted_tokens_seconds_metric
    then some predicted_rate
    else if str_eq name llama_requests_processing_metric
    then some in_flight
    else none

-- the `switch` of `ScrapeVLLM`
vllm_counter : String → Option Counter
vllm_counter name =
    if str_eq name vllm_prompt_tokens_metric
    then some prompt_total
    else if str_eq name vllm_generation_tokens_metric
    then some predicted_total
    else if str_eq name vllm_requests_running_metric
    then some in_flight
    else if str_eq name vllm_avg_prompt_throughput_metric
    then some prompt_rate
    else if str_eq name vllm_avg_generation_throughput_metric
    then some predicted_rate
    else none

module _ {F : Type 0} where
  unfoldable pub filter_by_name : List (MetricSample F) → String → List (MetricSample F)
  filter_by_name samples name = keep (λ s. str_eq s.name name) samples

  abbrev pub get : Counter → InferenceMetrics F → F
  get prompt_total m = m.prompt_tokens_total
  get predicted_total m = m.predicted_tokens_total
  get prompt_rate m = m.prompt_tokens_per_sec
  get predicted_rate m = m.predicted_tokens_per_sec
  get in_flight m = m.requests_processing

  -- `m.Field = v` for the field of a case, and nothing where no case fits
  abbrev assign : Option Counter → F → InferenceMetrics F → InferenceMetrics F
  assign none v m = m
  assign (some prompt_total) v m = record m { prompt_tokens_total = v }
  assign (some predicted_total) v m = record m { predicted_tokens_total = v }
  assign (some prompt_rate) v m = record m { prompt_tokens_per_sec = v }
  assign (some predicted_rate) v m = record m { predicted_tokens_per_sec = v }
  assign (some in_flight) v m = record m { requests_processing = v }

  -- the loop of `ScrapeLlamaCPP`
  llama_samples : InferenceMetrics F → List (MetricSample F) → InferenceMetrics F
  unfolding llama_counter
  llama_samples m [] = m
  llama_samples m (s ∷ ss) = llama_samples (assign (llama_counter s.name) s.value m) ss

module _ {F : Type 0} ⦃f : Float64 F⦄ where
  abbrev pub no_metrics : InferenceMetrics F
  no_metrics = record {
    prompt_tokens_total = f.of_nat 0;
    predicted_tokens_total = f.of_nat 0;
    prompt_tokens_per_sec = f.of_nat 0;
    predicted_tokens_per_sec = f.of_nat 0;
    requests_processing = f.of_nat 0;
  }

  -- `m.Field += v`
  abbrev accumulate : Option Counter → F → InferenceMetrics F → InferenceMetrics F
  accumulate none v m = m
  accumulate (some c) v m = assign (some c) (f.add (get c m) v) m

  -- the loop of `ScrapeVLLM`
  vllm_samples : InferenceMetrics F → List (MetricSample F) → InferenceMetrics F
  unfolding vllm_counter
  vllm_samples m [] = m
  vllm_samples m (s ∷ ss) = vllm_samples (accumulate (vllm_counter s.name) s.value m) ss

  unfoldable pub llama_metrics : List (MetricSample F) → InferenceMetrics F
  unfolding llama_samples
  llama_metrics samples = llama_samples no_metrics samples

  unfoldable pub vllm_metrics : List (MetricSample F) → InferenceMetrics F
  unfolding vllm_samples
  vllm_metrics samples = vllm_samples no_metrics samples
