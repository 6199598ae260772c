-- ===== src/Cli/Status/Idle.antt =====
-- pkg/cli/status.go: the row of a model whose endpoint does not speak llama.cpp.
use infercost.Base.{◌≡◌, refl, sym, ap, ◌∙◌, ℕ, true, String, List, [], ◌∷◌, ok, arith}
use infercost.Float.{Float64, IsOrdered}
use infercost.Scraper.Metrics.{
  MetricSample, Counter, prompt_total, predicted_total, prompt_rate, predicted_rate, in_flight, get,
  no_metrics, filter_by_name, llama_metrics,
}
use infercost.Scraper.Metrics.Counters.{llama_name, last_value, llama_metrics-last, metrics_path}
use infercost.Scraper.Dispatch.{scrape_llama_cpp}
use infercost.Cli.Discovery.{DiscoveredModel}
use infercost.Cli.Scan.{cells, ScrapeClients, client_for, scrape_model, format_token_count}
use infercost.Cli.Status.{model_row}

module _ {F : Type 0} ⦃f : Float64 F⦄ where
  -- no sample carries a name of a llama.cpp metric
  abbrev pub HasNoLlamaMetric : List (MetricSample F) → Type 0
  HasNoLlamaMetric samples = (c : Counter) → filter_by_name samples (llama_name c) ≡ []

  get_nothing : (c : Counter) → get c (no_metrics {F = F}) ≡ f.of_nat 0
  get_nothing prompt_total = refl
  get_nothing predicted_total = refl
  get_nothing prompt_rate = refl
  get_nothing predicted_rate = refl
  get_nothing in_flight = refl

  llama_metrics_nothing :
      (samples : List (MetricSample F))
      → HasNoLlamaMetric samples
      → llama_metrics samples ≡ no_metrics
  llama_metrics_nothing samples h =
      metrics_path _ _
        λ c. llama_metrics-last c samples ∙ ap (last_value (f.of_nat 0)) (h c) ∙ sym (get_nothing c)

  -- A model that can be scraped, whose endpoint answers with metrics none of which has a llama.cpp name,
  -- such as those of vLLM, is shown as idle with no tokens, whatever it served.
  pub model_row-idle :
      (laws : IsOrdered F) (format_int : ℕ → String) (clients : ScrapeClients F)
      (m : DiscoveredModel) (samples : List (MetricSample F))
      → m.is_scrapable ≡ true
      → client_for clients m m.metrics_url ≡ ok samples
      → HasNoLlamaMetric samples
      → model_row format_int clients m
        ≡ cells (
            m.name
            ∷ m.namespace
            ∷ m.source_name
            ∷ format_token_count (f.of_nat 0)
            ∷ format_token_count (f.of_nat 0)
            ∷ f.fixed 1 (f.of_nat 0)
            ∷ "Idle"
            ∷ [])
  unfolding model_row scrape_model scrape_llama_cpp
  model_row-idle laws format_int clients m samples ready answer none_of_llama =
      let still =
        laws.not_lt_of_le (f.of_nat 0) (f.of_nat 0) (laws.of_nat_mono 0 0 (omega arith)) in
      rw (ready, answer, llama_metrics_nothing samples none_of_llama, still) refl
