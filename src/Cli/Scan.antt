-- ===== src/Cli/Scan.antt =====
-- pkg/cli/status.go and compare.go: what the two commands share. They find the models, read each of
-- them with the llama.cpp parser and add the tokens up; `formatTokenCount` and `formatAge` are of
-- status.go. A command's output is the list of its lines, where `cells` is a line that the tab writer
-- lays out in columns.
use infercost.Base.{
  ℕ, not, Option, String, List, [], ◌∷◌, ◌++◌, str_eq, cat, if◌then◌else◌, Result, ok, err, ◌>>=◌,
  map_err,
}
use infercost.Float.{Float64}
use infercost.Scraper.Metrics.{InferenceMetrics}
use infercost.Scraper.Dispatch.{Fetch, ScrapeError, scrape_llama_cpp}
use infercost.Usage.Pods.{Pod}
use infercost.Cli.Discovery.{
  DiscoveredModel, InferenceService, ListError, discover_models_from_pods, models_of_services,
  discover_models_from_inference_services,
}

pub data Line : Type 0 where
  text : String → Line
  cells : List String → Line

abbrev pub source_inference_service : String
source_inference_service = "inferenceservice"

-- the sum of the tokens read so far
pub record TokenTotals (F : Type 0) : Type 0 where
  pub input : F
  pub output : F

-- the two clients: through the API server for pods, direct for InferenceServices
pub record ScrapeClients (F : Type 0) : Type 0 where
  pub scrape_client : Fetch F
  pub direct_client : Fetch F

-- the answers of the cluster to a command; `error_text` is the text of a list's error
pub record ClusterAnswers : Type 0 where
  pub list_pods : String → Result String (List Pod)
  pub list_services : String → Result ListError (List InferenceService)
  pub error_text : ListError → String
  pub resolve : InferenceService → Option String

module _ {U : Type 0} (parse : String → Option U) (url_host metrics_text : U → String)
    (host : String) (format_int : ℕ → String) where
  unfoldable pub discover_models : ClusterAnswers → String → Result String (List DiscoveredModel)
  discover_models answers namespace = do
    pods ← map_err (cat "failed to list pods: ") (answers.list_pods namespace)
    let found = discover_models_from_pods host format_int pods
    services ←
        map_err (λ e. cat "failed to discover InferenceServices: " (answers.error_text e))
          (discover_models_from_inference_services
            (models_of_services parse url_host metrics_text found.known answers.resolve)
            (answers.list_services namespace))
    ok (found.models ++ services)

module _ {F : Type 0} ⦃f : Float64 F⦄ where
  unfoldable pub format_token_count : F → String
  format_token_count tokens =
      let billion = f.of_nat 1000000000 in
      let million = f.of_nat 1000000 in
      let thousand = f.of_nat 1000 in
      if f.le billion tokens
      then cat (f.fixed 1 (f.div tokens billion)) "B"
      else if f.le million tokens
      then cat (f.fixed 1 (f.div tokens million)) "M"
      else if f.le thousand tokens
      then cat (f.fixed 1 (f.div tokens thousand)) "K"
      else f.fixed 0 tokens

  abbrev pub client_for : ScrapeClients F → DiscoveredModel → Fetch F
  client_for clients m =
      if str_eq m.origin source_inference_service
      then clients.direct_client
      else clients.scrape_client

  unfoldable pub scrape_model :
      ScrapeClients F → DiscoveredModel → Result ScrapeError (InferenceMetrics F)
  scrape_model clients m = scrape_llama_cpp (client_for clients m) m.metrics_url

  abbrev pub add_tokens : Result ScrapeError (InferenceMetrics F) → TokenTotals F → TokenTotals F
  add_tokens (err e) t = t
  add_tokens (ok im) t = record {
    input = f.add t.input im.prompt_tokens_total;
    output = f.add t.output im.predicted_tokens_total;
  }

  abbrev pub no_tokens : TokenTotals F
  no_tokens = record { input = f.of_nat 0; output = f.of_nat 0 }

  -- the loops over the models, from the tokens read so far
  unfoldable pub total_tokens_from :
      ScrapeClients F → TokenTotals F → List DiscoveredModel → TokenTotals F
  unfolding scrape_model
  total_tokens_from clients t [] = t
  total_tokens_from clients t (m ∷ ms) =
      let next = if not m.is_scrapable then t else add_tokens (scrape_model clients m) t in
      total_tokens_from clients next ms
